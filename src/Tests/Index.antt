-- ===== src/Tests/Index.antt =====
-- An index in bulk mode: a definition of three bytes, an empty area behind it, and a new definition.
use nind.Prelude.{◌≡◌, ◌≢◌, ◌<◌, refl, [], ◌∷◌, true, false, none, arith}
use nind.File.Puts.{part}
use nind.PadFile.{
  get_max_ident, get_just_entry_pos, just_pos_in, get_specifics_and_identification_size,
}
use nind.PadFile.Bulk.{Tracks}
use nind.Index.{Areas, Index}
use nind.Index.Areas.{
  find_new_area, choose, smaller, chosen, erase, end_area, vacate_old_area, join_next,
}
use nind.Index.Bulk.{Stores}
use nind.Index.Defining.{set_definition_bulk, get_definition, set_definition}
use nind.Index.Placing.{set_definition_bulk-Stores}
use nind.Index.Kept.{IsDefined, set_definition_bulk-IsDefined}
use nind.Index.Again.{Got, get_definition-set_definition}
use nind.Tests.PadFile.{zeroed, tail}
use nind.Tests.PadBlocks.{in_bulk}

-- The header of the file and its two blocks.
abbrev fixed : Areas
fixed = (0, 4) ∷ (4, 14) ∷ (18, 12) ∷ []

abbrev pub index : Index
index = record {
  pad = record in_bulk {
    bulk_end = 36;
    bulk_pos = none;
    file = record (in_bulk.file) { out_buffer = record { bytes = 1 ∷ 2 ∷ tail; ptr = 12 } };
  };
  definition_minimum_size = 2;
  empty_areas = (33, 3) ∷ [];
  bulk_indirections = (30, 3) ∷ [];
}

index-Stores : Stores fixed index
index-Stores = record {
  areas_apart = ground arith;
  areas_ranges = ground arith;
  areas_below = ground arith;
  places_apart = ground arith;
  places_ranges = ground arith;
  places_below = ground arith;
  places_used = ground arith;
  fixed_ranges = ground arith;
  fixed_below = ground arith;
  fixed_used = ground arith;
  fixed_apart = ground arith;
}

index-Tracks : Tracks index.pad
index-Tracks at e = absurd (ground arith)

set_definition_bulk-Stores_example : Stores fixed (set_definition_bulk 1 10 index).1
set_definition_bulk-Stores_example =
    set_definition_bulk-Stores fixed 1 10 index index-Stores refl (omega arith) (ground arith)
      (omega arith) (omega arith) (ground arith)

max_ident : 1 < get_max_ident index.pad
unfolding get_max_ident
max_ident = ground arith

set_definition_bulk-IsDefined_example :
    IsDefined fixed 1
      (part index.pad.file 0 2)
      index
      (set_definition_bulk 1 10 index).0
      (set_definition_bulk 1 10 index).1
set_definition_bulk-IsDefined_example =
    set_definition_bulk-IsDefined fixed 1 10 index index-Stores refl index-Tracks refl (omega arith)
      max_ident (omega arith) (omega arith) (omega arith) (omega arith) (omega arith) (ground arith)

entry : get_just_entry_pos 1 index.pad ≢ 0
unfolding get_just_entry_pos just_pos_in
entry = ground arith

get_definition-set_definition_example :
    Got
      (part index.pad.file 0 2)
      (get_definition zeroed 1 0 (set_definition zeroed 1 index).1).0
      (get_definition zeroed 1 0 (set_definition zeroed 1 index).1).1
unfolding get_specifics_and_identification_size
get_definition-set_definition_example =
    get_definition-set_definition ((4, 14) ∷ (18, 12) ∷ []) 1 index zeroed index-Stores refl refl
      index-Tracks refl (omega arith) max_ident entry (omega arith) (omega arith) (omega arith)
      (omega arith) (omega arith) (ground arith) refl

-- An area of the right size is taken whole, the smallest one that is larger is cut, and the end is
-- taken where none is left.
taken :
    find_new_area 4 2 ((10, 9) ∷ (30, 5) ∷ (50, 7) ∷ []) 90
    ≡ record { place = (30, 5); left = (10, 9) ∷ (50, 7) ∷ []; is_at_end = false }
unfolding find_new_area choose smaller chosen erase
taken = refl

cut :
    find_new_area 4 2 ((10, 9) ∷ (30, 3) ∷ (50, 7) ∷ []) 90
    ≡ record { place = (50, 4); left = (10, 9) ∷ (30, 3) ∷ (54, 3) ∷ []; is_at_end = false }
unfolding find_new_area choose smaller chosen erase
cut = refl

last :
    find_new_area 12 2 ((10, 9) ∷ []) 90
    ≡ record { place = (90, 12); left = (10, 9) ∷ []; is_at_end = true }
unfolding find_new_area choose smaller chosen erase end_area
last = refl

-- A place given back is joined with both its neighbours.
joined : vacate_old_area (13, 7) ((10, 3) ∷ (20, 5) ∷ []) ≡ (10, 15) ∷ []
unfolding vacate_old_area join_next
joined = refl
