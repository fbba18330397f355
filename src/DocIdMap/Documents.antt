-- ===== src/DocIdMap/Documents.antt =====
-- `set` and `erase` of NindDocIdMap as changes of a map from documents to internal identifiers.
use nind.Prelude.{
  ℕ, ◌+◌, ◌-◌, ◌≡◌, ◌≢◌, inl, inr, length, true, ◌||◌, none, ltb, ◌==◌, if◌then◌else◌, arith,
  Bool-cases, Option-cases,
}
use nind.Prelude.Map.{nat_eq, find}
use nind.Prelude.Ordered.{
  erase_key, find-erase_key, erase_key-Sorted, length-insert_new, length-insert_known,
  length-erase_known, erase_unknown,
}
use nind.DocIdMap.{DocIdMap, last_flat, flat_position, find_doc, set_doc, erase_doc, found_count}
use nind.DocIdMap.Invariant.{IsDocIdMap}
use nind.DocIdMap.Find.{with_others, find_doc-with_others}
use nind.DocIdMap.Keeps.{one, with_others-IsDocIdMap, nonzeros-set, grown, appended}
use nind.DocIdMap.Append.{IsLast}
use nind.DocIdMap.Branches.{
  bumped, lowered, set_flat, set_known, set_last, set_between, erase_flat, erase_other,
}
use nind.DocIdMap.Invariant.{flat_position-some}
use nind.DocIdMap.Changes.{Changed, replaced-Changed, inserted-Changed, appended-Changed}

is_last :
    (m : DocIdMap) (i : ℕ) → (length m.internals == 0 || ltb (last_flat m) i) ≡ true → IsLast m i
is_last m i e = elim (Bool-cases (length m.internals == 0)) [
  | inl empty ↦ inl (ground arith)
  | inr some_flat ↦ inr (ground arith)
]

module _ (m : DocIdMap) (h : IsDocIdMap m) (i : ℕ) where
  set_absent-Changed :
      (v : ℕ)
      → v ≢ 0
      → flat_position m i ≡ none
      → find i m.others ≡ none
      → Changed m i v (set_doc i v m)
  unfolding appended grown
  set_absent-Changed v pos off unknown =
      elim (Bool-cases (length m.internals == 0 || ltb (last_flat m) i)) [
        | inl e ↦
            rw (set_last m i v off unknown e) (appended-Changed m h i v (is_last m i e) pos unknown)
        | inr e ↦ rw (set_between m i v off unknown e) (
            inserted-Changed m h i v (m.count + 1) pos off
              (omega (arith, length-insert_new i v m.others unknown)))
      ]

  set_doc-Changed : (v : ℕ) → v ≢ 0 → Changed m i v (set_doc i v m)
  unfolding bumped one
  set_doc-Changed v pos = elim (Option-cases (flat_position m i)) [
    | inr (p, e) ↦
        rw (set_flat m i v p e) (replaced-Changed m h i v p (bumped m i v p) e (ground arith))
    | inl off ↦ elim (Option-cases (find i m.others)) [
      | inl unknown ↦ set_absent-Changed v pos off unknown
      | inr (old, e) ↦ rw (set_known m i v old off e) (
          inserted-Changed m h i v m.count pos off
            (omega (arith, length-insert_known i v old m.others h.others_sorted e)))
    ]
  ]

  erased_count :
      m.count - found_count (find i m.others) + length m.others
      ≡ m.count + length (erase_key i m.others)
  erased_count = elim (Option-cases (find i m.others)) [
    | inl e ↦ ground (arith, erase_unknown i m.others)
    | inr (old, e) ↦ ground (arith, h.counted, length-erase_known i old m.others e)
  ]

  erased-Changed :
      flat_position m i ≡ none
      → Changed m i 0
          (with_others (erase_key i m.others) (m.count - found_count (find i m.others)) m)
  erased-Changed off = record {
    well_formed =
        with_others-IsDocIdMap m h i (erase_key i m.others) _ none off
          (erase_key-Sorted i m.others h.others_sorted)
          (λ j. find-erase_key i j m.others h.others_sorted) (λ v e. absurd (cc)) erased_count;
    finds = λ j.
        find_doc-with_others m h i (erase_key i m.others) _ j none off
          (find-erase_key i j m.others h.others_sorted);
  }

  erase_doc-Changed : Changed m i 0 (erase_doc i m)
  unfolding lowered one
  erase_doc-Changed = elim (Option-cases (flat_position m i)) [
    | inr (p, e) ↦ rw (erase_flat m i 0 p e) (
        replaced-Changed m h i 0 p (lowered m i 0 p) e (
          ground (arith, h.counted, nonzeros-set m.internals p 0 (flat_position-some m h i p e).0)))
    | inl off ↦ rw (erase_other m i 0 off) (erased-Changed off)
  ]

-- Setting a document to an internal identifier other than 0, and erasing a document, keep the
-- table well formed.
pub set_doc-IsDocIdMap :
    (m : DocIdMap) (i v : ℕ)
    → IsDocIdMap m
    → v ≢ 0
    → IsDocIdMap (set_doc i v m) × IsDocIdMap (erase_doc i m)
set_doc-IsDocIdMap m i v h pos =
    ((set_doc-Changed m h i v pos).well_formed, (erase_doc-Changed m h i).well_formed)

-- In a well-formed table, after `set` of a document to an internal identifier other than 0, `find`
-- gives that identifier for it and what it gave before for every other document.
pub find_doc-set_doc :
    (m : DocIdMap) (i v j : ℕ)
    → IsDocIdMap m
    → v ≢ 0
    → find_doc (set_doc i v m) j ≡ (if i == j then v else find_doc m j)
find_doc-set_doc m i v j h pos = (set_doc-Changed m h i v pos).finds j

-- In a well-formed table, after `erase` of a document, `find` gives 0 for it and what it gave
-- before for every other document.
pub find_doc-erase_doc :
    (m : DocIdMap) (i j : ℕ)
    → IsDocIdMap m
    → find_doc (erase_doc i m) j ≡ (if i == j then 0 else find_doc m j)
find_doc-erase_doc m i j h = (erase_doc-Changed m h i).finds j
