-- ===== src/DocIdMap.antt =====
-- src/cpp/NindIndex/NindDocIdMap.h: the table from external to internal identifiers of documents.
-- Identifiers are `uint64_t` and internal ones `unsigned int`. Every sum below is at most an
-- identifier that was given, so that none wraps. m_others is a map in increasing order; the tests
-- `m_others.empty()` only spare a search that finds nothing.
pub mod Invariant
pub mod Append
pub mod Find
pub mod Keeps
pub mod Changes
pub mod Branches
pub mod Documents
pub mod Merge
pub mod Visit
pub mod History
use nind.Prelude.{
  ℕ, zero, suc, ◌+◌, ◌-◌, List, [], ◌∷◌, ◌++◌, length, get_or, set, Bool, true, false, not, ◌&&◌,
  ◌||◌, Option, none, some, ltb, leb, ◌==◌, if◌then◌else◌,
}
use nind.Prelude.Map.{Map, nat_eq, find}
use nind.Prelude.Ordered.{insert_ordered, erase_key}
use nind.Prelude.Merge.{before, from}

pub record DocIdMap : Type 0 where
  pub consecutive : Bool
  pub first : ℕ
  pub count : ℕ
  pub idents : List ℕ
  pub internals : List ℕ
  pub others : Map ℕ ℕ

unfoldable pub empty_map : DocIdMap
empty_map = record {
  consecutive = true;
  first = 0;
  count = 0;
  idents = [];
  internals = [];
  others = [];
}

-- `m_consecutive ? m_first + i : m_idents[i]`
unfoldable pub ident_at : DocIdMap → ℕ → ℕ
ident_at m i = if m.consecutive then m.first + i else get_or m.idents i 0

unfoldable pub last_flat : DocIdMap → ℕ
last_flat m =
    if m.consecutive
    then m.first + (length m.internals - 1)
    else get_or m.idents (length m.idents - 1) 0

-- `std::lower_bound`: the position of the first element that is not below `x`.
unfoldable pub lower_bound : List ℕ → ℕ → ℕ
lower_bound [] x = 0
lower_bound (y ∷ ys) x = let rest = lower_bound ys x in if ltb y x then suc rest else 0

-- `none` is NOT_FLAT.
unfoldable pub flat_position : DocIdMap → ℕ → Option ℕ
flat_position m ident =
    let p = lower_bound m.idents ident in
    if length m.internals == 0
    then none
    else if m.consecutive
    then (if ltb ident m.first || leb (length m.internals) (ident - m.first)
        then none
        else some (ident - m.first))
    else if p == length m.idents || not (get_or m.idents p 0 == ident)
    then none
    else some p

-- `it == m_others.end() ? 0 : it->second`
abbrev pub internal_or_0 : Option ℕ → ℕ
internal_or_0 none = 0
internal_or_0 (some internal) = internal

unfoldable pub find_doc : DocIdMap → ℕ → ℕ
find_doc m ident = elim (flat_position m ident) [
  | some p ↦ get_or m.internals p 0
  | none ↦ internal_or_0 (find ident m.others)
]

-- The loop that writes m_first + i at every i.
unfoldable pub numbered : ℕ → ℕ → List ℕ
numbered start zero = []
numbered start (suc n) = start ∷ numbered (start + 1) n

-- What precedes the two `push_back`.
unfoldable pub prepare_append : ℕ → DocIdMap → DocIdMap
prepare_append ident m =
    if length m.internals == 0
    then record m { first = ident }
    else if m.consecutive && not (ident == last_flat m + 1)
    then record m { idents = numbered m.first (length m.internals); consecutive = false }
    else m

unfoldable pub push_back : ℕ → ℕ → DocIdMap → DocIdMap
push_back ident internal m = record m {
  idents = if m.consecutive then m.idents else m.idents ++ (ident ∷ []);
  internals = m.internals ++ (internal ∷ []);
}

unfoldable pub append_flat : ℕ → ℕ → DocIdMap → DocIdMap
append_flat ident internal m = push_back ident internal (prepare_append ident m)

-- A document that is in no flat array.
unfoldable pub set_other : ℕ → ℕ → DocIdMap → DocIdMap
set_other ident internal m = record m { others = insert_ordered ident internal m.others }

unfoldable pub set_doc : ℕ → ℕ → DocIdMap → DocIdMap
set_doc ident internal m = elim (flat_position m ident) [
  | some p ↦ record m {
    count = if get_or m.internals p 0 == 0 then m.count + 1 else m.count;
    internals = set m.internals p internal;
  }
  | none ↦ elim (find ident m.others) [
    | some old ↦ set_other ident internal m
    | none ↦
        let grown = record m { count = m.count + 1 } in
        if length m.internals == 0 || ltb (last_flat m) ident
        then append_flat ident internal grown
        else set_other ident internal grown
  ]
]

-- `m_others.erase(ident)` returns how many entries it took away.
abbrev pub found_count : Option ℕ → ℕ
found_count none = 0
found_count (some internal) = 1

unfoldable pub erase_doc : ℕ → DocIdMap → DocIdMap
erase_doc ident m = elim (flat_position m ident) [
  | some p ↦ record m {
    count = if get_or m.internals p 0 == 0 then m.count else m.count - 1;
    internals = set m.internals p 0;
  }
  | none ↦ record m {
    count = m.count - found_count (find ident m.others);
    others = erase_key ident m.others;
  }
]

abbrev pub size : DocIdMap → ℕ
size m = m.count

-- The calls of the visitor from position `i` of the flat arrays on. The inner loop visits the
-- entries of m_others that are `before` an identifier and leaves those `from` it on.
unfoldable pub visit : DocIdMap → ℕ → List ℕ → Map ℕ ℕ → Map ℕ ℕ
visit m i [] other = other
visit m i (internal ∷ internals) other =
    let ident = ident_at m i in
    before ident other
    ++ ((if internal == 0 then [] else (ident, internal) ∷ [])
        ++ visit m (suc i) internals (from ident other))

unfoldable pub for_each : DocIdMap → Map ℕ ℕ
for_each m = visit m 0 m.internals m.others
