-- ===== src/Tests/PadFile.antt =====
-- Small pad files: created, opened again, and with two blocks of entries.
use nind.Prelude.{
  ℕ, ◌≡◌, refl, List, [], ◌∷◌, true, false, none, some, replicate, length, length-replicate,
}
use nind.Prelude.Exec.{Result, ok, err, nind_pad_file}
use nind.File.{
  File, overwrite, fread, read_buffer, read_into, on_in_buffer, set_pos, base, displaced,
  write_buffer, write_value, fwrite, accepted, remember_size, read_bytes, read_int1,
}
use nind.ReadBuffer.{
  clear, prepare, need, next, peek, advance, get_int1, get_int3, get_int4, get_int6,
}
use nind.Bytes.{le3, le4, be2, be3, be4}
use nind.WriteBuffer.{create_buffer, put_int1, put_int3, put_int4, put_int6, room, move, store}
use nind.PadFile.{
  Allocator, PadFile, block_header_size, get_specifics_and_identification_size, on_file, go_to,
  go_before_end, go_to_specifics, on_write_buffer, get_next_block_addr, put_next_block_addr,
  publish_entries_map, check_entries_block, check_header,
}
use nind.PadFile.Reading.{
  get_block_header, read_block_header, push_block, map_block, map_blocks, clear_map,
  map_entries_blocks, check_spejcifiques, get_identification, same_identification, compatible,
  check_identification,
}
use nind.PadFile.Writing.{
  put_identification, back, push_entries, chain_block, write_entries, put_block_header,
  add_entries_block,
}
use nind.PadFile.Opening.{
  Layout, initial, set_data_entry_size, set_specifics_size, set_existing_writer, check_structure,
  is_legacy, open_existing, create_file, constructed, new_writer, new_pad_file,
}

abbrev pub zeroed : Allocator
zeroed = record {
  granted = true;
  fresh = λ n. replicate n 0;
  length-fresh = λ n. length-replicate n 0;
}

abbrev pub file_of : List ℕ → File
file_of content = record {
  content = content;
  position = 0;
  fails = false;
  left = 0;
  file_size = length content;
  is_bulk = false;
  in_buffer = record { bytes = []; end = 0; ptr = 0; capacity = 0 };
  out_buffer = record { bytes = []; ptr = 0 };
}

abbrev pub layout : Layout
layout = record {
  reference_identification = record { lexicon_words_nb = 3; lexicon_time = 7 };
  specifics_size = 0;
  data_entry_size = 2;
  data_entries_bloc_size = 2;
  next_block_addr_size = 6;
  legacy_data_entry_size = 0;
}

abbrev pub tail : List ℕ
tail = 57 ∷ 53 ∷ 3 ∷ 0 ∷ 0 ∷ 0 ∷ 7 ∷ 0 ∷ 0 ∷ 0 ∷ []

-- A new file: its header, a block of two entries of two bytes, the tail.
abbrev one_block : List ℕ
one_block = 2 ∷ 0 ∷ 0 ∷ 0 ∷ 47 ∷ 0 ∷ 0 ∷ 0 ∷ 0 ∷ 0 ∷ 0 ∷ 2 ∷ 0 ∷ 0 ∷ 0 ∷ 0 ∷ 0 ∷ 0 ∷ tail

abbrev content_of : Result PadFile → List ℕ
content_of (ok s) = s.file.content
content_of (err e) = []

created : content_of (new_pad_file zeroed layout true true none (some (file_of []))) ≡ one_block
unfolding new_pad_file new_writer initial constructed create_file on_file on_write_buffer
    create_buffer put_int1 put_int3 put_int4 put_int6 room move store write_buffer write_value
    fwrite accepted remember_size overwrite add_entries_block go_to_specifics go_before_end set_pos
    base displaced write_entries put_block_header put_next_block_addr put_identification chain_block
    back push_entries publish_entries_map block_header_size
created = refl

-- It is opened again by a writer, and not with another reference.
abbrev reopened : Result PadFile
reopened = new_pad_file zeroed layout true true (some (file_of one_block)) none

abbrev other : Layout
other = record layout {
  reference_identification = record { lexicon_words_nb = 4; lexicon_time = 7 };
}

abbrev map_of : Result PadFile → List (ℕ × ℕ)
map_of (ok s) = s.entries_blocks_map
map_of (err e) = []

reopened_map : map_of reopened ≡ (14, 2) ∷ []
unfolding new_pad_file initial constructed open_existing check_structure on_file go_to set_pos base
    displaced read_buffer read_into fread on_in_buffer clear prepare need next peek advance get_int1
    get_int3 get_int4 get_int6 le3 le4 be4 be3 be2 set_data_entry_size set_specifics_size
    set_existing_writer check_header block_header_size get_specifics_and_identification_size
    map_entries_blocks clear_map map_blocks map_block read_block_header get_block_header
    get_next_block_addr check_entries_block push_block publish_entries_map check_spejcifiques
    go_to_specifics go_before_end read_int1 read_bytes check_identification get_identification
    compatible same_identification is_legacy
reopened_map = refl

refused : new_pad_file zeroed other true true (some (file_of one_block)) none ≡ err nind_pad_file
unfolding new_pad_file initial constructed open_existing check_structure on_file go_to set_pos base
    displaced read_buffer read_into fread on_in_buffer clear prepare need next peek advance get_int1
    get_int3 get_int4 get_int6 le3 le4 be4 be3 be2 set_data_entry_size set_specifics_size
    set_existing_writer check_header block_header_size get_specifics_and_identification_size
    map_entries_blocks clear_map map_blocks map_block read_block_header get_block_header
    get_next_block_addr check_entries_block push_block publish_entries_map check_spejcifiques
    go_to_specifics go_before_end read_int1 read_bytes check_identification get_identification
    compatible same_identification is_legacy
refused = refl
