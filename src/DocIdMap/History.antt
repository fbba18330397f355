-- ===== src/DocIdMap/History.antt =====
-- A table made from the empty one by any sequence of `set` and `erase`.
use nind.Prelude.{ℕ, ◌≡◌, ◌≢◌, refl, List, [], ◌∷◌, ◌==◌, if◌then◌else◌, arith}
use nind.Prelude.Map.{find}
use nind.DocIdMap.{DocIdMap, empty_map, find_doc, set_doc, erase_doc, flat_position}
use nind.DocIdMap.Invariant.{IsDocIdMap}
use nind.DocIdMap.Changes.{empty_map-IsDocIdMap}
use nind.DocIdMap.Documents.{set_doc-IsDocIdMap, find_doc-set_doc, find_doc-erase_doc}

pub data Change : Type 0 where
  assign : (ident internal : ℕ) → Change
  remove : (ident : ℕ) → Change

-- The changes, the last one first.
abbrev pub table : List Change → DocIdMap
table [] = empty_map
table (assign i v ∷ before) = set_doc i v (table before)
table (remove i ∷ before) = erase_doc i (table before)

-- What the last change of a document says of it, 0 where there is none.
unfoldable pub latest : List Change → ℕ → ℕ
latest [] j = 0
latest (assign i v ∷ before) j = if i == j then v else latest before j
latest (remove i ∷ before) j = if i == j then 0 else latest before j

-- No internal identifier is 0.
abbrev pub Valid : List Change → Type 0
Valid [] = Unit {0}
Valid (assign i v ∷ before) = (v ≢ 0) × Valid before
Valid (remove i ∷ before) = Valid before

pub table-IsDocIdMap : (changes : List Change) → Valid changes → IsDocIdMap (table changes)
table-IsDocIdMap [] ok = empty_map-IsDocIdMap
table-IsDocIdMap (assign i v ∷ before) (pos, ok) =
    (set_doc-IsDocIdMap (table before) i v (table-IsDocIdMap before ok) pos).0
table-IsDocIdMap (remove i ∷ before) ok =
    (set_doc-IsDocIdMap (table before) i 1 (table-IsDocIdMap before ok)
      (λ e. absurd (omega arith))).1

find_doc-empty : (j : ℕ) → find_doc empty_map j ≡ 0
unfolding find_doc empty_map flat_position find
find_doc-empty j = refl

-- After any sequence of `set`, with internal identifiers other than 0, and `erase` on an empty
-- table, `find` gives for each document what the last change of it says, and 0 where there is none.
pub find_doc-table :
    (changes : List Change) (j : ℕ) → Valid changes → find_doc (table changes) j ≡ latest changes j
unfolding latest
find_doc-table [] j ok = find_doc-empty j
find_doc-table (assign i v ∷ before) j (pos, ok) = ground (
  arith,
  find_doc-set_doc (table before) i v j (table-IsDocIdMap before ok) pos,
  find_doc-table before j ok,
)
find_doc-table (remove i ∷ before) j ok = ground (
  arith,
  find_doc-erase_doc (table before) i j (table-IsDocIdMap before ok),
  find_doc-table before j ok,
)
