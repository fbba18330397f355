-- ===== src/DocIdMap/Find.antt =====
-- `find` on the tables that `set` and `erase` make, but for those with a document appended.
use nind.Prelude.{
  ℕ, zero, suc, ◌<◌, ◌≡◌, refl, ◌∙◌, inl, inr, List, [], ◌∷◌, length, length-set, get_or, set,
  Option, none, some, ◌==◌, if◌then◌else◌, arith, Option-cases,
}
use nind.Prelude.Map.{nat_eq, find}
use nind.DocIdMap.{DocIdMap, flat_position, find_doc, internal_or_0}
use nind.DocIdMap.Invariant.{IsDocIdMap, flat_position-some, ident_at-inj}

pub get_or-set :
    (xs : List ℕ) (p q v : ℕ)
    → p < length xs
    → get_or (set xs p v) q 0 ≡ (if q == p then v else get_or xs q 0)
get_or-set [] p q v lt = absurd (omega arith)
get_or-set (x ∷ xs) zero zero v lt = ground arith
get_or-set (x ∷ xs) zero (suc q) v lt = ground arith
get_or-set (x ∷ xs) (suc p) zero v lt = ground arith
get_or-set (x ∷ xs) (suc p) (suc q) v lt = ground (arith, get_or-set xs p q v)

pub find_doc-at :
    (m : DocIdMap) (i p : ℕ) → flat_position m i ≡ some p → find_doc m i ≡ get_or m.internals p 0
unfolding find_doc
find_doc-at m i p e = rw (e, find_doc) refl

pub find_doc-off :
    (m : DocIdMap) (i : ℕ)
    → flat_position m i ≡ none
    → find_doc m i ≡ internal_or_0 (find i m.others)
unfolding find_doc
find_doc-off m i e = rw (e, find_doc) refl

-- A table with the internal identifier of one flat position changed.
abbrev pub replaced : ℕ → ℕ → ℕ → DocIdMap → DocIdMap
replaced p v n m = record m { count = n; internals = set m.internals p v }

-- A table with the map of the others changed.
abbrev pub with_others : List (ℕ × ℕ) → ℕ → DocIdMap → DocIdMap
with_others others n m = record m { count = n; others = others }

module _ (m : DocIdMap) (h : IsDocIdMap m) (i : ℕ) where
  flat_position-replaced : (p v n j : ℕ) → flat_position (replaced p v n m) j ≡ flat_position m j
  unfolding flat_position
  flat_position-replaced p v n j = rw (length-set m.internals p v) refl

  pub find_doc-replaced :
      (p v n j : ℕ)
      → flat_position m i ≡ some p
      → find_doc (replaced p v n m) j ≡ (if i == j then v else find_doc m j)
  find_doc-replaced p v n j e = elim (Option-cases (flat_position m j)) [
    | inl none_j ↦ ground (
      arith,
      find_doc-off m j none_j,
      find_doc-off (replaced p v n m) j (flat_position-replaced p v n j ∙ none_j),
    )
    | inr (q, some_j) ↦ ground (
      arith,
      find_doc-at m j q some_j,
      find_doc-at (replaced p v n m) j q (flat_position-replaced p v n j ∙ some_j),
      flat_position-some m h i p e,
      flat_position-some m h j q some_j,
      get_or-set m.internals p q v,
      ident_at-inj m h p q,
    )
  ]

  flat_position-with_others :
      (others : List (ℕ × ℕ)) (n j : ℕ)
      → flat_position (with_others others n m) j ≡ flat_position m j
  unfolding flat_position
  flat_position-with_others others n j = refl

  pub find_doc-with_others :
      (others : List (ℕ × ℕ)) (n j : ℕ) (new : Option ℕ)
      → flat_position m i ≡ none
      → find j others ≡ (if i == j then new else find j m.others)
      → find_doc (with_others others n m) j ≡ (if i == j then internal_or_0 new else find_doc m j)
  find_doc-with_others others n j new e changed = elim (Option-cases (flat_position m j)) [
    | inl none_j ↦ ground (
      arith,
      find_doc-off m j none_j,
      find_doc-off (with_others others n m) j (flat_position-with_others others n j ∙ none_j),
    )
    | inr (q, some_j) ↦ ground (
      arith,
      find_doc-at m j q some_j,
      find_doc-at (with_others others n m) j q (flat_position-with_others others n j ∙ some_j),
    )
  ]
