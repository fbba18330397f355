-- ===== src/Tests/DocIdMap.antt =====
-- NindDocIdMap on a small table: documents in increasing order with a gap, and one out of order.
use nind.Prelude.{ℕ, ◌≡◌, refl, List, [], ◌∷◌, none, some, arith, length, if◌then◌else◌, ◌==◌}
use nind.Prelude.Map.{nat_eq, find}
use nind.Prelude.Ordered.{Sorted, insert_ordered, erase_key}
use nind.Prelude.Merge.{before, from}
use nind.DocIdMap.{
  empty_map, find_doc, set_doc, erase_doc, for_each, size, flat_position, ident_at, lower_bound,
  set_other, append_flat, push_back, prepare_append, last_flat, numbered, visit,
}
use nind.DocIdMap.Invariant.{IsDocIdMap}
use nind.DocIdMap.Documents.{set_doc-IsDocIdMap, find_doc-set_doc, find_doc-erase_doc}
use nind.DocIdMap.History.{
  Change, assign, remove, table, latest, Valid, table-IsDocIdMap, find_doc-table,
}
use nind.DocIdMap.Visit.{for_each_documents}

abbrev changes : List Change
changes = assign 2 4 ∷ remove 6 ∷ assign 9 3 ∷ assign 6 2 ∷ assign 5 1 ∷ []

changes-Valid : Valid changes
changes-Valid = (
  λ e. absurd (omega arith),
  (λ e. absurd (omega arith), (λ e. absurd (omega arith), (λ e. absurd (omega arith), tt))),
)

visited : for_each (table changes) ≡ (2, 4) ∷ (5, 1) ∷ (9, 3) ∷ []
unfolding for_each visit set_doc flat_position erase_doc empty_map find append_flat push_back
    prepare_append last_flat lower_bound numbered set_other before from insert_ordered erase_key
    ident_at
visited = refl

find_doc-table_example : find_doc (table changes) 9 ≡ latest changes 9
find_doc-table_example = find_doc-table changes 9 changes-Valid

set_doc-IsDocIdMap_example :
    IsDocIdMap (set_doc 6 8 (table changes)) × IsDocIdMap (erase_doc 6 (table changes))
set_doc-IsDocIdMap_example =
    set_doc-IsDocIdMap (table changes) 6 8 (table-IsDocIdMap changes changes-Valid)
      (λ e. absurd (omega arith))

find_doc-set_doc_example :
    find_doc (set_doc 6 8 (table changes)) 9 ≡ (if 6 == 9 then 8 else find_doc (table changes) 9)
find_doc-set_doc_example =
    find_doc-set_doc (table changes) 6 8 9 (table-IsDocIdMap changes changes-Valid)
      (λ e. absurd (omega arith))

find_doc-erase_doc_example :
    find_doc (erase_doc 9 (table changes)) 9 ≡ (if 9 == 9 then 0 else find_doc (table changes) 9)
find_doc-erase_doc_example =
    find_doc-erase_doc (table changes) 9 9 (table-IsDocIdMap changes changes-Valid)

for_each_documents_example :
    Sorted (for_each (table changes))
    × (length (for_each (table changes)) ≡ size (table changes))
    × ((j : ℕ)
        → find j (for_each (table changes))
          ≡ (if find_doc (table changes) j == 0 then none else some (find_doc (table changes) j)))
for_each_documents_example =
    for_each_documents (table changes) (table-IsDocIdMap changes changes-Valid)
