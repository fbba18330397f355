-- ===== src/Index/Areas/Places.antt =====
-- src/cpp/NindIndex/NindIndex.cpp: what `findNewArea` takes from the empty areas.
use nind.Prelude.{
  ℕ, suc, ◌+◌, ◌-◌, ◌^◌, ◌%◌, ◌≤◌, ◌≡◌, ◌⊎◌, refl, subst, inl, inr, [], ◌∷◌, true, false, Option,
  none, some, ltb, leb, get_elem?, arith, Bool-cases,
}
use nind.Index.{Areas}
use nind.Index.Areas.{Choice, fitting, larger, at_end, smaller, choose}

-- A length that is too large to fit.
abbrev Over : ℕ → ℕ → ℕ → Type 0
Over d m len = (d ≤ len) × ((d + m) % 2 ^ 32 ≤ len)

-- A choice among areas that begin at index `i`.
unfoldable pub Chosen : ℕ → ℕ → Areas → ℕ → Choice → Type 0
Chosen d m areas i (fitting k) =
    (i ≤ k) × ((a : ℕ × ℕ) × (get_elem? areas (k - i) ≡ some a) × (d ≤ a.1))
Chosen d m areas i (larger k) =
    (i ≤ k)
    × ((a : ℕ × ℕ) × (get_elem? areas (k - i) ≡ some a) × (d ≤ a.1) × ((d + m) % 2 ^ 32 ≤ a.1))
Chosen d m areas i at_end = Unit {0}

-- The same, or the area that was remembered.
unfoldable pub Held : ℕ → ℕ → Areas → ℕ → Option (ℕ × ℕ) → Choice → Type 0
Held d m areas i none c = Chosen d m areas i c
Held d m areas i (some (k, best)) c = Chosen d m areas i c ⊎ (c ≡ larger k)

Chosen-later :
    (d m : ℕ) (a : ℕ × ℕ) (areas : Areas) (i : ℕ) (c : Choice)
    → Chosen d m areas (i + 1) c
    → Chosen d m (a ∷ areas) i c
unfolding Chosen
Chosen-later d m a areas i (fitting k) (le, (b, e, fits)) =
    (omega arith, (b, later (k - i) (omega arith), fits))
  where
    later : (n : ℕ) → n ≡ suc (k - (i + 1)) → get_elem? (a ∷ areas) n ≡ some b
    later n eq = rw eq e
Chosen-later d m a areas i (larger k) (le, (b, e, fits, over)) =
    (omega arith, (b, later (k - i) (omega arith), fits, over))
  where
    later : (n : ℕ) → n ≡ suc (k - (i + 1)) → get_elem? (a ∷ areas) n ≡ some b
    later n eq = rw eq e
Chosen-later d m a areas i at_end h = tt

at_index : (a : ℕ × ℕ) (areas : Areas) (i n : ℕ) → n ≡ i → get_elem? (a ∷ areas) (n - i) ≡ some a
at_index a areas i n e = go (n - i) (omega arith)
  where
    go : (m : ℕ) → m ≡ 0 → get_elem? (a ∷ areas) m ≡ some a
    go m e = rw e refl

Chosen-here :
    (d m address len : ℕ) (areas : Areas) (i : ℕ)
    → Over d m len
    → Chosen d m ((address, len) ∷ areas) i (larger i)
unfolding Chosen
Chosen-here d m address len areas i over =
    (omega arith, ((address, len), at_index (address, len) areas i i refl, over.0, over.1))

Chosen-fits :
    (d m address len : ℕ) (areas : Areas) (i : ℕ)
    → d ≤ len
    → Chosen d m ((address, len) ∷ areas) i (fitting i)
unfolding Chosen
Chosen-fits d m address len areas i le =
    (omega arith, ((address, len), at_index (address, len) areas i i refl, le))

Chosen→Held :
    (d m : ℕ) (areas : Areas) (i : ℕ) (mem : Option (ℕ × ℕ)) (c : Choice)
    → Chosen d m areas i c
    → Held d m areas i mem c
unfolding Held
Chosen→Held d m areas i none c h = h
Chosen→Held d m areas i (some (k, best)) c h = inl h

module _ (d m : ℕ) (a : ℕ × ℕ) (areas : Areas) (i : ℕ) (c : Choice) where
  Held-later : (mem : Option (ℕ × ℕ)) → Held d m areas (i + 1) mem c → Held d m (a ∷ areas) i mem c
  unfolding Held
  Held-later none h = Chosen-later d m a areas i c h
  Held-later (some (k, best)) (inl h) = inl (Chosen-later d m a areas i c h)
  Held-later (some (k, best)) (inr e) = inr e

  -- The area at `i`, remembered by a later choice.
  Held-here : Over d m a.1 → Held d m areas (i + 1) (some (i, a.1)) c → Chosen d m (a ∷ areas) i c
  unfolding Held
  Held-here le (inl h) = Chosen-later d m a areas i c h
  Held-here le (inr e) = rw e (Chosen-here d m a.0 a.1 areas i le)

  Held-smaller :
      (mem : Option (ℕ × ℕ))
      → Over d m a.1
      → Held d m areas (i + 1) (smaller mem i a.1) c
      → Held d m (a ∷ areas) i mem c
  unfolding smaller
  Held-smaller none le h = Chosen→Held d m (a ∷ areas) i none c (Held-here le h)
  Held-smaller (some (k, best)) le h = elim (Bool-cases (ltb a.1 best)) [
    | inl less ↦ Chosen→Held d m (a ∷ areas) i (some (k, best)) c (Held-here le (rw' less h))
    | inr more ↦ Held-later (some (k, best)) (rw'' more h)
  ]
    where
      rw' :
          ltb a.1 best ≡ true
          → Held d m areas (i + 1) (smaller (some (k, best)) i a.1) c
          → Held d m areas (i + 1) (some (i, a.1)) c
      rw' less h = subst (λ x. Held d m areas (i + 1) x c) (ground (arith, less)) h

      rw'' :
          ltb a.1 best ≡ false
          → Held d m areas (i + 1) (smaller (some (k, best)) i a.1) c
          → Held d m areas (i + 1) (some (k, best)) c
      rw'' more h = subst (λ x. Held d m areas (i + 1) x c) (ground (arith, more)) h

pub choose-Held :
    (d m : ℕ) (areas : Areas) (i : ℕ) (mem : Option (ℕ × ℕ))
    → Held d m areas i mem (choose d m areas i mem)
unfolding choose Held Chosen
choose-Held d m [] i none = tt
choose-Held d m [] i (some (k, best)) = inr refl
choose-Held d m ((address, len) ∷ areas) i mem = elim (Bool-cases (leb d len)) [
  | inr small ↦
      rw (small, choose)
        (Held-later d m (address, len) areas i _ mem (choose-Held d m areas (i + 1) mem))
  | inl enough ↦ elim (Bool-cases (ltb len ((d + m) % 2 ^ 32))) [
    | inl fits ↦
        rw (enough, fits, choose)
          (Chosen→Held d m ((address, len) ∷ areas) i mem (fitting i)
            (Chosen-fits d m address len areas i (ground arith)))
    | inr large ↦
        rw (enough, large, choose)
          (Held-smaller d m (address, len) areas i _ mem (ground arith)
            (choose-Held d m areas (i + 1) (smaller mem i len)))
  ]
]
