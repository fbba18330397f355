-- ===== src/Tests/PadBlocks.antt =====
-- A pad file of two blocks of entries, mapped, and a block added in bulk mode.
use nind.Prelude.{◌≡◌, ◌≢◌, ◌≤◌, ◌<◌, ◌+◌, ◌↔◌, refl, [], ◌∷◌, true, false, none, some, arith}
use nind.Prelude.Exec.{ok, err, nind_pad_file, endless}
use nind.File.{
  overwrite, fread, read_buffer, read_into, on_in_buffer, set_pos, base, displaced, write_buffer,
  write_value, fwrite, accepted, remember_size,
}
use nind.ReadBuffer.{clear, prepare, need, next, peek, advance, get_int1, get_int3, get_int6}
use nind.Bytes.{le3, be2, be3, be4}
use nind.WriteBuffer.{create_buffer, put_int1, put_int3, put_int6, room, move, store}
use nind.File.Puts.{part}
use nind.PadFile.{
  PadFile, block_header_size, get_specifics_and_identification_size, on_file, go_to,
  on_write_buffer, get_next_block_addr, put_next_block_addr, publish_entries_map,
  check_entries_block, entry_pos_in, get_just_entry_pos, get_max_ident,
}
use nind.PadFile.Reading.{
  get_block_header, read_block_header, push_block, map_block, map_blocks, clear_map,
  map_entries_blocks,
}
use nind.PadFile.Writing.{
  back, next_field, push_entries, put_block_header, seek_or_throw, set_bulk_pos, bulk_write,
  is_elsewhere, extend_bulk, chain_bulk, add_entries_block_bulk,
}
use nind.PadFile.Positions.{total}
use nind.PadFile.Chain.Walk.{tail_start, map_entries_blocks-ends}
use nind.PadFile.Entries.{
  get_just_entry_pos-entry_pos_in, map_entries_blocks-entry_pos_in, entry_pos_in-get_max_ident,
}
use nind.PadFile.Bulk.{Tracks, WrittenAt, bulk_write-WrittenAt}
use nind.PadFile.Growth.{IsBulk, add_entries_block_bulk-IsBulk}
use nind.PadFile.Stats.{HoleStats, cherche_vides}
use nind.PadFile.Holes.{Disjoint, occupied, last_end, cherche_vides-Disjoint}
use nind.Tests.PadFile.{zeroed, file_of, tail}

-- The first block has two entries and is followed by the one at 18, which has one.
abbrev two_blocks : PadFile
two_blocks = record {
  file = file_of (
      2 ∷ 0 ∷ 0 ∷ 0 ∷ 47 ∷ 0 ∷ 0 ∷ 0 ∷ 0 ∷ 0 ∷ 18 ∷ 2 ∷ 0 ∷ 0 ∷ 5 ∷ 6 ∷ 7 ∷ 8 ∷ 47 ∷ 0 ∷ 0 ∷ 0 ∷ 0
      ∷ 0 ∷ 0 ∷ 1 ∷ 0 ∷ 0 ∷ 9 ∷ 9 ∷ tail);
  is_writer = false;
  is_existing_writer = false;
  is_bulk = false;
  bulk_tail = [];
  bulk_end = 0;
  bulk_pos = none;
  entries_blocks_map = [];
  shared = record { shared_map = none; shared_map_file_size = 0 };
  specifics_size = 0;
  data_entry_size = 2;
  data_entries_bloc_size = 2;
  next_block_addr_size = 6;
}

-- The same object with the map of its blocks.
abbrev with_map : PadFile
with_map = record two_blocks { entries_blocks_map = (14, 2) ∷ (28, 1) ∷ [] }

mapped :
    (map_entries_blocks zeroed two_blocks).0 ≡ ok tt
    × ((map_entries_blocks zeroed two_blocks).1.entries_blocks_map ≡ (14, 2) ∷ (28, 1) ∷ [])
unfolding map_entries_blocks clear_map map_blocks map_block read_block_header get_block_header
    on_file go_to set_pos base displaced read_buffer read_into fread on_in_buffer clear prepare need
    next peek advance get_int1 get_int3 get_int6 le3 be4 be3 be2 get_next_block_addr
    check_entries_block block_header_size get_specifics_and_identification_size push_block
    publish_entries_map
mapped = (refl, refl)

map_entries_blocks-entry_pos_in_example :
    let map = (map_entries_blocks zeroed two_blocks).1.entries_blocks_map in
    (4 + block_header_size two_blocks ≤ entry_pos_in map 1 2)
    × (entry_pos_in map 1 2 + 2 ≤ entry_pos_in map 2 2)
    × (entry_pos_in map 2 2 + 2 ≤ tail_start two_blocks)
map_entries_blocks-entry_pos_in_example =
    map_entries_blocks-entry_pos_in zeroed two_blocks 1 2 mapped.0 (omega arith)
      (rw mapped.1 (omega arith))

map_entries_blocks-ends_example : (map_entries_blocks zeroed two_blocks).0 ≢ err endless
map_entries_blocks-ends_example = map_entries_blocks-ends zeroed two_blocks

get_just_entry_pos-entry_pos_in_example :
    get_just_entry_pos 2 with_map ≡ entry_pos_in ((14, 2) ∷ (28, 1) ∷ []) 2 2
get_just_entry_pos-entry_pos_in_example =
    get_just_entry_pos-entry_pos_in with_map 2 (omega arith, (omega arith, tt)) (omega arith)
      (omega arith)

entry_pos_in-get_max_ident_example :
    (entry_pos_in ((14, 2) ∷ (28, 1) ∷ []) 2 2 ≢ 0) ↔ (2 < get_max_ident with_map)
entry_pos_in-get_max_ident_example =
    entry_pos_in-get_max_ident with_map 2 4 30 (omega arith, (omega arith, omega arith))
      (omega arith) (omega arith)

-- In bulk mode, the data end where the tail was.
abbrev pub in_bulk : PadFile
in_bulk = record with_map {
  is_writer = true;
  is_bulk = true;
  bulk_tail = tail;
  bulk_end = 30;
  bulk_pos = some 30;
  file = record (with_map.file) {
    position = 30;
    out_buffer = record { bytes = 1 ∷ 2 ∷ 3 ∷ []; ptr = 3 };
  };
}

in_bulk-Tracks : Tracks in_bulk
in_bulk-Tracks at e = ground arith

bulk_write-WrittenAt_example :
    WrittenAt in_bulk 14
      (part in_bulk.file 1 2)
      (bulk_write 14 1 2 in_bulk).0
      (bulk_write 14 1 2 in_bulk).1
bulk_write-WrittenAt_example =
    bulk_write-WrittenAt 14 1 2 in_bulk in_bulk-Tracks refl (omega arith) (omega arith)

added : (add_entries_block_bulk zeroed in_bulk).0 ≡ ok tt
unfolding add_entries_block_bulk on_file on_write_buffer create_buffer put_int1 put_int3 put_int6
    room move store write_buffer write_value fwrite accepted remember_size overwrite set_pos base
    displaced put_block_header put_next_block_addr back push_entries publish_entries_map
    block_header_size bulk_write is_elsewhere seek_or_throw set_bulk_pos extend_bulk chain_bulk
    next_field
added = refl

add_entries_block_bulk-IsBulk_example :
    let t = (add_entries_block_bulk zeroed in_bulk).1 in
    IsBulk 4 t
    × (total t.entries_blocks_map ≡ 3 + 2)
    × (t.shared.shared_map ≡ some t.entries_blocks_map)
add_entries_block_bulk-IsBulk_example =
    add_entries_block_bulk-IsBulk zeroed in_bulk 4
      (in_bulk-Tracks, (omega arith, (omega arith, omega arith))) (omega arith) (omega arith) added

cherche_vides-Disjoint_example :
    (Disjoint ((10, 4) ∷ (0, 5) ∷ [])
      → (stats : HoleStats) × (cherche_vides ((10, 4) ∷ (0, 5) ∷ []) ≡ ok stats)
        × (stats.holes_size + occupied ((10, 4) ∷ (0, 5) ∷ []) ≡ last_end ((10, 4) ∷ (0, 5) ∷ [])))
    × (¬ Disjoint ((10, 4) ∷ (0, 5) ∷ [])
        → cherche_vides ((10, 4) ∷ (0, 5) ∷ []) ≡ err nind_pad_file)
cherche_vides-Disjoint_example = cherche_vides-Disjoint ((10, 4) ∷ (0, 5) ∷ [])
