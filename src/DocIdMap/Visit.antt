-- ===== src/DocIdMap/Visit.antt =====
-- `forEach`: the visits, from the flat arrays and the others.
use nind.Prelude.{
  ℕ, zero, suc, ◌+◌, ◌<◌, ◌≤◌, ◌≡◌, refl, ap, sym, ◌∙◌, subst, inl, inr, List, [], ◌∷◌, ◌++◌,
  length, get_or, none, some, ◌==◌, if◌then◌else◌, arith, Bool-cases, Option-cases,
}
use nind.Prelude.Map.{Map, nat_eq, find}
use nind.Prelude.Ordered.{After, Sorted}
use nind.Prelude.Merge.{before, from}
use nind.DocIdMap.{DocIdMap, ident_at, flat_position, find_doc, visit, for_each, size}
use nind.DocIdMap.Invariant.{IsDocIdMap, nonzeros, flat_position-some, flat_position_complete}
use nind.DocIdMap.Find.{find_doc-at, find_doc-off}
use nind.DocIdMap.Merge.{
  merge_nonzero, nonzero, nonzero_entries, Disjoint, length-merge_nonzero, merge_nonzero-Sorted,
  find-merge_nonzero,
}

module _ (m : DocIdMap) where
  -- The flat arrays from a position on, erased documents included.
  entries : ℕ → List ℕ → Map ℕ ℕ
  entries i [] = []
  entries i (v ∷ vs) = (ident_at m i, v) ∷ entries (suc i) vs

  visit_lem :
      (i : ℕ) (vs : List ℕ) (other : Map ℕ ℕ)
      → visit m i vs other ≡ merge_nonzero (entries i vs) other
  unfolding visit merge_nonzero entries
  visit_lem i [] other = refl
  visit_lem i (v ∷ vs) other =
      ap
        (λ rest.
          before (ident_at m i) other ++ ((if v == 0 then [] else (ident_at m i, v) ∷ []) ++ rest))
        (visit_lem (suc i) vs (from (ident_at m i) other))

  nonzero_entries_lem : (i : ℕ) (vs : List ℕ) → nonzero_entries (entries i vs) ≡ nonzeros vs
  unfolding entries nonzero_entries nonzeros
  nonzero_entries_lem i [] = refl
  nonzero_entries_lem i (v ∷ vs) = ground (arith, nonzero_entries_lem (suc i) vs)

  ident_at-eq : (p q : ℕ) → p ≡ q → ident_at m p ≡ ident_at m q
  ident_at-eq p q e = ap (ident_at m) e

  -- An entry stands at some position.
  entries_position :
      (i : ℕ) (vs : List ℕ) (j v : ℕ)
      → find j (entries i vs) ≡ some v
      → (p : ℕ) × (p < length vs) × (ident_at m (i + p) ≡ j) × (get_or vs p 0 ≡ v)
  unfolding entries find
  entries_position i [] j v e = absurd (cc)
  entries_position i (w ∷ vs) j v e = elim (Bool-cases (ident_at m i == j)) [
    | inl here ↦ (0, omega arith, ground arith, ground arith)
    | inr there ↦
        let (p, lt, at, value) = entries_position (suc i) vs j v (ground arith) in
        (suc p, omega arith, ident_at-eq _ _ (omega arith) ∙ at, value)
  ]

  module _ (h : IsDocIdMap m) where
    entries-After :
        (k i : ℕ) (vs : List ℕ)
        → k < i
        → i + length vs ≤ length m.internals
        → After (ident_at m k) (entries i vs)
    unfolding entries
    entries-After k i [] lt fits = tt
    entries-After k i (v ∷ vs) lt fits =
        (h.increasing k i lt (omega arith), entries-After k (suc i) vs (omega arith) (omega arith))

    entries-Sorted :
        (i : ℕ) (vs : List ℕ) → i + length vs ≤ length m.internals → Sorted (entries i vs)
    unfolding entries
    entries-Sorted i [] fits = tt
    entries-Sorted i (v ∷ vs) fits = (
      entries-After i (suc i) vs (omega arith) (omega arith),
      entries-Sorted (suc i) vs (omega arith),
    )

    entries_at :
        (i : ℕ) (vs : List ℕ) (p j : ℕ)
        → i + length vs ≤ length m.internals
        → p < length vs
        → ident_at m (i + p) ≡ j
        → find j (entries i vs) ≡ some (get_or vs p 0)
    unfolding entries find
    entries_at i [] p j fits lt e = absurd (omega arith)
    entries_at i (v ∷ vs) zero j fits lt e = ground (arith, ident_at-eq i (i + 0) (omega arith))
    entries_at i (v ∷ vs) (suc p) j fits lt e = ground (
      arith,
      h.increasing i (i + suc p),
      entries_at (suc i) vs p j (omega arith) (omega arith) (ident_at-eq _ _ (omega arith) ∙ e),
    )

    -- The entries are what the search for a flat position finds.
    find-entries-some :
        (j p : ℕ)
        → flat_position m j ≡ some p
        → find j (entries 0 m.internals) ≡ some (get_or m.internals p 0)
    find-entries-some j p e =
        let (lt, at) = flat_position-some m h j p e in
        entries_at 0 m.internals p j (omega arith) lt (ident_at-eq _ _ (omega arith) ∙ at)

    entries-apart : Disjoint (entries 0 m.internals) m.others
    entries-apart j v e =
        let (p, lt, at, value) = entries_position 0 m.internals j v e in
        let same = ident_at-eq p (0 + p) (omega arith) ∙ at in
        ap (λ k. find k m.others) (sym same) ∙ h.apart p lt

    find-entries-none : (j : ℕ) → flat_position m j ≡ none → find j (entries 0 m.internals) ≡ none
    find-entries-none j e = elim (Option-cases (find j (entries 0 m.internals))) [
      | inl unknown ↦ unknown
      | inr (v, found) ↦
          let (p, lt, at, value) = entries_position 0 m.internals j v found in
          let same = ident_at-eq p (0 + p) (omega arith) ∙ at in
          absurd (cc (flat_position_complete m h j p lt same))
    ]

    find-for_each_lem : (j : ℕ) → find j (for_each m) ≡ nonzero (find_doc m j)
    unfolding for_each
    find-for_each_lem j =
        ap (find j) (visit_lem 0 m.internals m.others)
        ∙ find-merge_nonzero (entries 0 m.internals) m.others j
            (entries-Sorted 0 m.internals (omega arith)) h.others_sorted entries-apart
        ∙ elim (Option-cases (flat_position m j)) [
          | inr (p, e) ↦ ground (arith, find-entries-some j p e, find_doc-at m j p e)
          | inl e ↦ elim (Option-cases (find j m.others)) [
            | inl unknown ↦ ground (arith, find-entries-none j e, find_doc-off m j e)
            | inr (v, found) ↦
                ground
                  (arith, find-entries-none j e, find_doc-off m j e, h.others_internal j v found)
          ]
        ]

    for_each-Sorted : Sorted (for_each m)
    unfolding for_each
    for_each-Sorted = subst Sorted (sym (visit_lem 0 m.internals m.others)) (
        merge_nonzero-Sorted (entries 0 m.internals) m.others
          (entries-Sorted 0 m.internals (omega arith)) h.others_sorted entries-apart)

    length-for_each : length (for_each m) ≡ size m
    unfolding for_each
    length-for_each =
        ap length (visit_lem 0 m.internals m.others)
        ∙ omega (
          arith,
          length-merge_nonzero (entries 0 m.internals) m.others,
          nonzero_entries_lem 0 m.internals,
          h.counted,
        )

-- In a well-formed table, `forEach` visits documents by strictly increasing external identifier,
-- as many as `size` says: those that `find` knows, with the internal identifiers that it gives.
pub for_each_documents :
    (m : DocIdMap)
    → IsDocIdMap m
    → Sorted (for_each m)
      × (length (for_each m) ≡ size m)
      × ((j : ℕ) → find j (for_each m) ≡ (if find_doc m j == 0 then none else some (find_doc m j)))
for_each_documents m h = (for_each-Sorted m h, length-for_each m h, find-for_each_lem m h)
