-- ===== src/DocIdMap/Changes.antt =====
-- What `set` and `erase` do to a well-formed table, branch by branch.
use nind.Prelude.{
  ℕ, ◌+◌, ◌≡◌, ◌≢◌, refl, inl, inr, length, get_or, none, some, ◌==◌, if◌then◌else◌, arith,
  Option-cases,
}
use nind.Prelude.Map.{nat_eq, find}
use nind.Prelude.Ordered.{insert_ordered, find-insert_ordered, insert_ordered-Sorted}
use nind.DocIdMap.{DocIdMap, empty_map, flat_position, find_doc}
use nind.DocIdMap.Invariant.{IsDocIdMap, nonzeros, flat_position-some, flat_position_complete}
use nind.DocIdMap.Append.{IsLast, get_or-append}
use nind.DocIdMap.Find.{
  replaced, with_others, find_doc-at, find_doc-off, find_doc-replaced, find_doc-with_others,
}
use nind.DocIdMap.Keeps.{
  one, replaced-IsDocIdMap, with_others-IsDocIdMap, appended, appended-ident_at, appended-internals,
  before_last, appended-length, appended-others, appended-IsDocIdMap,
}

-- A table that is well formed and maps as `m` does, but `i` to `v`.
pub record Changed (m : DocIdMap) (i v : ℕ) (m' : DocIdMap) : Type 0 where
  pub well_formed : IsDocIdMap m'
  pub finds : (j : ℕ) → find_doc m' j ≡ (if i == j then v else find_doc m j)

pub empty_map-IsDocIdMap : IsDocIdMap empty_map
unfolding empty_map nonzeros find
empty_map-IsDocIdMap = record {
  idents_length = λ c. refl;
  increasing = λ p q pq lt. absurd (omega arith);
  apart = λ p lt. absurd (omega arith);
  others_sorted = tt;
  others_internal = λ i v e. absurd (cc);
  counted = refl;
}

module _ (m : DocIdMap) (h : IsDocIdMap m) (i v : ℕ) where
  pub replaced-Changed :
      (p n : ℕ)
      → flat_position m i ≡ some p
      → n + one (get_or m.internals p 0) ≡ m.count + one v
      → Changed m i v (replaced p v n m)
  replaced-Changed p n e counts = record {
    well_formed = replaced-IsDocIdMap m h i p v n (flat_position-some m h i p e).0 counts;
    finds = λ j. find_doc-replaced m h i p v n j e;
  }

  pub inserted-Changed :
      (n : ℕ)
      → v ≢ 0
      → flat_position m i ≡ none
      → n + length m.others ≡ m.count + length (insert_ordered i v m.others)
      → Changed m i v (with_others (insert_ordered i v m.others) n m)
  inserted-Changed n pos e counts = record {
    well_formed =
        with_others-IsDocIdMap m h i (insert_ordered i v m.others) n (some v) e
          (insert_ordered-Sorted i v m.others h.others_sorted)
          (λ j. find-insert_ordered i j v m.others h.others_sorted) (λ w ew. ground arith) counts;
    finds = λ j.
        find_doc-with_others m h i (insert_ordered i v m.others) n j (some v) e
          (find-insert_ordered i j v m.others h.others_sorted);
  }

  module _ (last : IsLast m i) (pos : v ≢ 0) (unknown : find i m.others ≡ none) where
    abbrev after : DocIdMap
    after = appended m h i v last

    after-IsDocIdMap : IsDocIdMap after
    after-IsDocIdMap = appended-IsDocIdMap m h i v last pos unknown

    after-internals :
        (q : ℕ)
        → get_or after.internals q 0
          ≡ (if q == length m.internals then v else get_or m.internals q 0)
    after-internals q = rw (appended-internals m h i v last) (get_or-append m.internals v q)

    after_at :
        (j q : ℕ)
        → flat_position after j ≡ some q
        → find_doc after j ≡ (if i == j then v else find_doc m j)
    after_at j q e = ground (
      arith,
      find_doc-at after j q e,
      after-internals q,
      flat_position-some after after-IsDocIdMap j q e,
      appended-length m h i v last,
      appended-ident_at m h i v last q,
      before_last m h i last q,
      find_doc-at m j q,
      flat_position_complete m h j q,
    )

    after_off :
        (j : ℕ)
        → flat_position after j ≡ none
        → find_doc after j ≡ (if i == j then v else find_doc m j)
    after_off j e = ground (
      arith,
      find_doc-off after j e,
      flat_position_complete after after-IsDocIdMap j (length m.internals),
      appended-length m h i v last,
      appended-ident_at m h i v last (length m.internals),
      find_doc-off m j (still_off j e),
      appended-others m h i v last,
    )
      where
        still_off : (j : ℕ) → flat_position after j ≡ none → flat_position m j ≡ none
        still_off j e = elim (Option-cases (flat_position m j)) [
          | inl off ↦ off
          | inr (q, found) ↦ absurd (
              ground (
                arith,
                flat_position-some m h j q found,
                flat_position_complete after after-IsDocIdMap j q,
                appended-length m h i v last,
                appended-ident_at m h i v last q,
              ))
        ]

    pub appended-Changed : Changed m i v after
    appended-Changed = record {
      well_formed = after-IsDocIdMap;
      finds = λ j. elim (Option-cases (flat_position after j)) [
        | inl e ↦ after_off j e
        | inr (q, e) ↦ after_at j q e
      ];
    }
