-- ===== src/DocIdMap/Invariant.antt =====
-- The well-formedness of the table, and the search for a flat position.
use nind.Prelude.{
  ℕ, zero, suc, ◌+◌, ◌<◌, ◌≤◌, ◌≡◌, ◌≢◌, inl, inr, List, [], ◌∷◌, length, get_or, false, none, some,
  ◌==◌, if◌then◌else◌, arith, Bool-cases,
}
use nind.Prelude.Map.{nat_eq, find}
use nind.Prelude.Ordered.{Sorted}
use nind.DocIdMap.{DocIdMap, ident_at, lower_bound, flat_position}

-- The elements of the flat arrays that are not erased.
unfoldable pub nonzeros : List ℕ → ℕ
nonzeros [] = 0
nonzeros (x ∷ xs) = let rest = nonzeros xs in if x == 0 then rest else suc rest

pub record IsDocIdMap (m : DocIdMap) : Type 0 where
  pub idents_length : m.consecutive ≡ false → length m.idents ≡ length m.internals
  pub increasing : (p q : ℕ) → p < q → q < length m.internals → ident_at m p < ident_at m q
  pub apart : (p : ℕ) → p < length m.internals → find (ident_at m p) m.others ≡ none
  pub others_sorted : Sorted m.others
  pub others_internal : (i v : ℕ) → find i m.others ≡ some v → v ≢ 0
  pub counted : m.count ≡ nonzeros m.internals + length m.others

module _ (x : ℕ) where
  lower_bound-le : (xs : List ℕ) → lower_bound xs x ≤ length xs
  unfolding lower_bound
  lower_bound-le [] = omega arith
  lower_bound-le (y ∷ ys) = ground (arith, lower_bound-le ys)

  -- What precedes the lower bound is below `x`.
  lower_bound-below : (xs : List ℕ) (q : ℕ) → q < lower_bound xs x → get_or xs q 0 < x
  unfolding lower_bound
  lower_bound-below [] q lt = absurd (omega arith)
  lower_bound-below (y ∷ ys) zero lt = ground arith
  lower_bound-below (y ∷ ys) (suc q) lt = ground (arith, lower_bound-below ys q)

  lower_bound-reached :
      (xs : List ℕ) → lower_bound xs x < length xs → x ≤ get_or xs (lower_bound xs x) 0
  unfolding lower_bound
  lower_bound-reached [] lt = absurd (omega arith)
  lower_bound-reached (y ∷ ys) lt = ground (arith, lower_bound-reached ys)

module _ (m : DocIdMap) (h : IsDocIdMap m) where
  pub ident_at-inj :
      (p q : ℕ)
      → p < length m.internals
      → q < length m.internals
      → ident_at m p ≡ ident_at m q
      → p ≡ q
  ident_at-inj p q hp hq e = ground (arith, h.increasing p q, h.increasing q p)

  -- A position that the search finds is in the arrays and has the identifier.
  pub flat_position-some :
      (i p : ℕ) → flat_position m i ≡ some p → (p < length m.internals) × (ident_at m p ≡ i)
  unfolding flat_position ident_at
  flat_position-some i p e = ground (arith, h.idents_length, lower_bound-le i m.idents)

  gap_position :
      (i p : ℕ)
      → m.consecutive ≡ false
      → p < length m.internals
      → get_or m.idents p 0 ≡ i
      → ((j k : ℕ) → j < k → k < length m.internals → get_or m.idents j 0 < get_or m.idents k 0)
      → lower_bound m.idents i ≡ p
  gap_position i p c lt e up = ground (
    arith,
    h.idents_length,
    lower_bound-le i m.idents,
    lower_bound-below i m.idents p,
    lower_bound-reached i m.idents,
    up (lower_bound m.idents i) p,
  )

  -- The search finds the position of every identifier in the arrays.
  pub flat_position_complete :
      (i p : ℕ) → p < length m.internals → ident_at m p ≡ i → flat_position m i ≡ some p
  unfolding flat_position ident_at
  flat_position_complete i p lt e = elim (Bool-cases m.consecutive) [
    | inl c ↦ ground arith
    | inr c ↦ ground (
      arith,
      h.idents_length c,
      gap_position i p c lt (ground arith) (λ j k jk kl. ground (arith, h.increasing j k jk kl)),
    )
  ]
