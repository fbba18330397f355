-- ===== src/Index/Areas/Ranges.antt =====
-- Lists of ranges that do not overlap: an element taken out, cut, or replaced.
use nind.Prelude.{
  ℕ, zero, suc, ◌+◌, ◌≤◌, ◌<◌, ◌≡◌, ◌⊎◌, subst, inl, inr, [], ◌∷◌, ◌++◌, some, get_elem?, set,
  replicate, arith, All,
}
use nind.PadFile.Holes.{Apart, Disjoint, occupied}
use nind.Index.{Areas}
use nind.Index.Areas.{erase}

-- A range that has bytes, or is none.
abbrev pub IsRange : ℕ × ℕ → Type 0
IsRange r = (0 < r.1) ⊎ (r.0 ≡ 0)

-- A range inside another one.
abbrev pub Within : ℕ × ℕ → ℕ × ℕ → Type 0
Within u a = (a.0 ≤ u.0) × (u.0 + u.1 ≤ a.0 + a.1)

abbrev pub Below : ℕ → ℕ × ℕ → Type 0
Below end r = r.0 + r.1 ≤ end

pub Apart-sym : (x y : ℕ × ℕ) → Apart x y → Apart y x
Apart-sym x y (inl h) = inr h
Apart-sym x y (inr h) = inl h

pub Apart-Within : (x a u : ℕ × ℕ) → Apart x a → Within u a → Apart x u
Apart-Within x a u (inl h) w = inl (omega arith)
Apart-Within x a u (inr h) w = inr (omega arith)

pub All-map : (P Q : ℕ × ℕ → Type 0) (xs : Areas) → ((x : ℕ × ℕ) → P x → Q x) → All P xs → All Q xs
All-map P Q [] f h = tt
All-map P Q (x ∷ xs) f h = (f x h.0, All-map P Q xs f h.1)

module _ (P : ℕ × ℕ → Type 0) where
  pub All-get : (xs : Areas) (k : ℕ) (a : ℕ × ℕ) → All P xs → get_elem? xs k ≡ some a → P a
  All-get [] k a h e = absurd (ground arith)
  All-get (x ∷ xs) zero a h e = subst P (some-inj e) h.0
    where
      some-inj : some x ≡ some a → x ≡ a
      some-inj e = ground arith
  All-get (x ∷ xs) (suc k) a h e = All-get xs k a h.1 e

  pub All-erase : (xs : Areas) (k : ℕ) → All P xs → All P (erase xs k)
  unfolding erase
  All-erase [] k h = tt
  All-erase (x ∷ xs) zero h = h.1
  All-erase (x ∷ xs) (suc k) h = (h.0, All-erase xs k h.1)

  pub All-set : (xs : Areas) (k : ℕ) (v : ℕ × ℕ) → All P xs → P v → All P (set xs k v)
  All-set [] k v h p = tt
  All-set (x ∷ xs) zero v h p = (p, h.1)
  All-set (x ∷ xs) (suc k) v h p = (h.0, All-set xs k v h.1 p)

  pub All-append : (xs ys : Areas) → All P xs → All P ys → All P (xs ++ ys)
  All-append [] ys h h' = h'
  All-append (x ∷ xs) ys h h' = (h.0, All-append xs ys h.1 h')

  pub All-replicate : (n : ℕ) (a : ℕ × ℕ) → P a → All P (replicate n a)
  All-replicate zero a p = tt
  All-replicate (suc n) a p = (p, All-replicate n a p)

pub occupied-erase : (xs : Areas) (k : ℕ) → occupied (erase xs k) ≤ occupied xs
unfolding erase
occupied-erase [] k = omega arith
occupied-erase (x ∷ xs) zero = omega arith
occupied-erase (x ∷ xs) (suc k) = omega (arith, occupied-erase xs k)

pub occupied-set :
    (xs : Areas) (k : ℕ) (a v : ℕ × ℕ)
    → get_elem? xs k ≡ some a
    → v.1 ≤ a.1
    → occupied (set xs k v) ≤ occupied xs
occupied-set [] k a v e le = omega arith
occupied-set (x ∷ xs) zero a v e le = ground arith
occupied-set (x ∷ xs) (suc k) a v e le = omega (arith, occupied-set xs k a v e le)

pub Disjoint-erase :
    (xs : Areas) (k : ℕ) (a : ℕ × ℕ)
    → Disjoint xs
    → get_elem? xs k ≡ some a
    → Disjoint (erase xs k) × All (Apart a) (erase xs k)
unfolding erase
Disjoint-erase [] k a h e = absurd (ground arith)
Disjoint-erase (x ∷ xs) zero a h e = (h.1, subst (λ b. All (Apart b) xs) (some-inj e) h.0)
  where
    some-inj : some x ≡ some a → x ≡ a
    some-inj e = ground arith
Disjoint-erase (x ∷ xs) (suc k) a h e =
    let ih = Disjoint-erase xs k a h.1 e in
    ((All-erase (Apart x) xs k h.0, ih.0), (Apart-sym x a (All-get (Apart x) xs k a h.0 e), ih.1))

-- An area cut in two parts, of which one stays in its place.
pub Disjoint-cut :
    (xs : Areas) (k : ℕ) (a u v : ℕ × ℕ)
    → Disjoint xs
    → get_elem? xs k ≡ some a
    → Within u a
    → Within v a
    → Apart u v
    → Disjoint (set xs k v) × All (Apart u) (set xs k v)
Disjoint-cut [] k a u v h e wu wv uv = absurd (ground arith)
Disjoint-cut (x ∷ xs) zero a u v h e wu wv uv = (
  (All-map (Apart a) (Apart v) xs (λ y p. cut y v p wv) other, h.1),
  (uv, All-map (Apart a) (Apart u) xs (λ y p. cut y u p wu) other),
)
  where
    some-inj : some x ≡ some a → x ≡ a
    some-inj e = ground arith

    other : All (Apart a) xs
    other = subst (λ b. All (Apart b) xs) (some-inj e) h.0

    cut : (y w : ℕ × ℕ) → Apart a y → Within w a → Apart w y
    cut y w p q = Apart-sym y w (Apart-Within y a w (Apart-sym a y p) q)
Disjoint-cut (x ∷ xs) (suc k) a u v h e wu wv uv =
    let ih = Disjoint-cut xs k a u v h.1 e wu wv uv in
    let xa = All-get (Apart x) xs k a h.0 e in
    (
      (All-set (Apart x) xs k v h.0 (Apart-Within x a v xa wv), ih.0),
      (Apart-sym x u (Apart-Within x a u xa wu), ih.1),
    )

-- A range that is apart from all others takes any place among them.
pub Disjoint-set :
    (xs : Areas) (k : ℕ) (v : ℕ × ℕ) → Disjoint xs → All (Apart v) xs → Disjoint (set xs k v)
Disjoint-set [] k v d h = tt
Disjoint-set (x ∷ xs) zero v d h = (h.1, d.1)
Disjoint-set (x ∷ xs) (suc k) v d h =
    (All-set (Apart x) xs k v d.0 (Apart-sym v x h.0), Disjoint-set xs k v d.1 h.1)

-- The ranges but one are apart from that one, whatever takes its place apart from it.
pub Disjoint-others :
    (xs : Areas) (k : ℕ) (a v : ℕ × ℕ)
    → Disjoint xs
    → get_elem? xs k ≡ some a
    → Apart a v
    → All (Apart a) (set xs k v)
Disjoint-others [] k a v h e av = tt
Disjoint-others (x ∷ xs) zero a v h e av = (av, subst (λ b. All (Apart b) xs) (some-inj e) h.0)
  where
    some-inj : some x ≡ some a → x ≡ a
    some-inj e = ground arith
Disjoint-others (x ∷ xs) (suc k) a v h e av =
    (Apart-sym x a (All-get (Apart x) xs k a h.0 e), Disjoint-others xs k a v h.1 e av)
