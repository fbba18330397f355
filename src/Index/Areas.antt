-- ===== src/Index/Areas.antt =====
-- src/cpp/NindIndex/NindIndex.cpp: the empty areas: a place for new data, and old places given back.
pub mod Ranges
pub mod Places
pub mod Found
pub mod Vacated
use nind.Prelude.{
  ℕ, zero, suc, ◌+◌, ◌-◌, ◌*◌, ◌^◌, ◌%◌, List, [], ◌∷◌, ◌++◌, ◌&&◌, Bool, true, false, Option, none,
  some, max, ltb, leb, ◌==◌, get_elem?, set, if◌then◌else◌,
}
use nind.Prelude.Exec.{Result, ok, err, nind_index}
use nind.PadFile.{PadFile, Blocks, block_header_size, get_specifics_and_identification_size}
use nind.PadFile.Stats.{sort}
use nind.Index.{Areas, Index}

-- Where new data go: an area that fits, part of a larger one, or the end of the data.
pub data Choice : Type 0 where
  fitting : ℕ → Choice
  larger : ℕ → Choice
  at_end : Choice

-- `memit`: the smallest one so far of those that are too large.
unfoldable pub smaller : Option (ℕ × ℕ) → ℕ → ℕ → Option (ℕ × ℕ)
smaller none i len = some (i, len)
smaller (some (k, best)) i len = if ltb len best then some (i, len) else some (k, best)

unfoldable pub choose : ℕ → ℕ → Areas → ℕ → Option (ℕ × ℕ) → Choice
choose data_size minimum [] i none = at_end
choose data_size minimum [] i (some (k, best)) = larger k
choose data_size minimum ((address, len) ∷ areas) i mem =
    let rest =
      choose data_size minimum areas (i + 1)
        (if leb data_size len then smaller mem i len else mem) in
    if leb data_size len && ltb len ((data_size + minimum) % 2 ^ 32) then fitting i else rest

-- `m_emptyAreas.erase(it)`
unfoldable pub erase : Areas → ℕ → Areas
erase [] k = []
erase (a ∷ areas) zero = areas
erase (a ∷ areas) (suc k) = a ∷ erase areas k

-- A place, the areas that are left, and whether the place is at the end.
pub record NewArea : Type 0 where
  pub place : ℕ × ℕ
  pub left : Areas
  pub is_at_end : Bool

-- Where the data of the file end.
unfoldable pub data_end : PadFile → ℕ
data_end p =
    if p.is_bulk then p.bulk_end else p.file.file_size - get_specifics_and_identification_size p

unfoldable pub end_area : ℕ → ℕ → Areas → ℕ → NewArea
end_area data_size minimum areas end = record {
  place = (end, max data_size minimum);
  left = areas;
  is_at_end = true;
}

unfoldable pub chosen : ℕ → ℕ → Areas → ℕ → Choice → NewArea
chosen data_size minimum areas end (fitting k) = elim (get_elem? areas k) [
  | none ↦ end_area data_size minimum areas end
  | some a ↦ record { place = a; left = erase areas k; is_at_end = false }
]
chosen data_size minimum areas end (larger k) = elim (get_elem? areas k) [
  | none ↦ end_area data_size minimum areas end
  | some a ↦ record {
    place = (a.0, data_size);
    left = set areas k (a.0 + data_size, a.1 - data_size);
    is_at_end = false;
  }
]
chosen data_size minimum areas end at_end = end_area data_size minimum areas end

unfoldable pub find_new_area : ℕ → ℕ → Areas → ℕ → NewArea
find_new_area data_size minimum areas end =
    chosen data_size minimum areas end (choose data_size minimum areas 0 none)

-- The area grown, joined with the next one where they meet.
unfoldable pub join_next : ℕ × ℕ → Areas → Areas
join_next a [] = a ∷ []
join_next a (b ∷ areas) =
    if a.0 + a.1 == b.0 then (a.0, (a.1 + b.1) % 2 ^ 32) ∷ areas else a ∷ b ∷ areas

unfoldable pub vacate_old_area : ℕ × ℕ → Areas → Areas
vacate_old_area old [] = old ∷ []
vacate_old_area old (a ∷ areas) =
    let rest = vacate_old_area old areas in
    if a.0 + a.1 == old.0
    then join_next (a.0, (a.1 + old.1) % 2 ^ 32) areas
    else if a.0 == old.0 + old.1
    then (old.0, (a.1 + old.1) % 2 ^ 32) ∷ areas
    else if ltb old.0 a.0
    then old ∷ a ∷ areas
    else a ∷ rest

-- The ranges of the blocks of indirections.
unfoldable pub block_ranges : PadFile → Blocks → Areas
block_ranges p [] = []
block_ranges p ((address, nb) ∷ map) =
    (address - block_header_size p, (nb * p.data_entry_size + block_header_size p) % 2 ^ 32)
    ∷ block_ranges p map

-- `end` is `addressePrec + longueurPrec`.
unfoldable pub gaps : Areas → ℕ → Result Areas
gaps [] end = ok []
gaps ((address, len) ∷ ranges) end =
    let rest = gaps ranges (address + len) in
    if ltb address end then err nind_index else elim rest [
      | err e ↦ err e
      | ok areas ↦
          if ltb end address then ok ((end, (address - end) % 2 ^ 32) ∷ areas) else ok areas
    ]

unfoldable pub empty_between : PadFile → Areas → Result Areas
empty_between p occupied = gaps (sort (occupied ++ block_ranges p p.entries_blocks_map)) 0
