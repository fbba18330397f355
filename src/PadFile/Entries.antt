-- ===== src/PadFile/Entries.antt =====
-- src/cpp/NindBasics/NindPadFile.cpp: where the entries of a file lie.
use nind.Prelude.{ℕ, ◌+◌, ◌^◌, ◌≤◌, ◌<◌, ◌≡◌, ◌≢◌, ◌↔◌, refl, [], ◌∷◌, length, if◌then◌else◌, arith}
use nind.Prelude.Exec.{ok, err, nind_pad_file}
use nind.PadFile.{
  Allocator, PadFile, Blocks, get_just_entry_pos, entry_pos_in, pos_in_from, get_max_ident,
  entries_block_ok, check_entries_block, block_header_size, taille_entete_fixe,
}
use nind.PadFile.Reading.{map_entries_blocks}
use nind.PadFile.Positions.{
  total, IsSmall, Chained, just-reference, pos_in_from-bounds, pos_in_from-apart, add_entries-total,
}
use nind.PadFile.Chain.Walk.{map_entries_blocks-Chained, tail_start}

-- With blocks of less than 2 ^ 24 entries of less than 256 bytes, and less than 2 ^ 32 entries in
-- all, the position computed on 32 bits is the one computed on 64, for every identifier.
pub get_just_entry_pos-entry_pos_in :
    (s : PadFile) (ident : ℕ)
    → IsSmall s.entries_blocks_map
    → s.data_entry_size < 2 ^ 8
    → total s.entries_blocks_map < 2 ^ 32
    → get_just_entry_pos ident s ≡ entry_pos_in s.entries_blocks_map ident s.data_entry_size
unfolding get_just_entry_pos entry_pos_in
get_just_entry_pos-entry_pos_in s ident small byte fits =
    just-reference s.entries_blocks_map ident 0 s.data_entry_size small byte (omega arith)
      (omega arith)

-- `checkEntriesBlock` throws where `entriesBlockOk`, asked with the size that the file has, answers
-- no, changes nothing, and returns where it answers yes.
pub check_entries_block-entries_block_ok :
    (block_addr entries_nb next_block_addr : ℕ) (s : PadFile)
    → check_entries_block block_addr entries_nb next_block_addr s ≡ (
      if entries_block_ok block_addr entries_nb next_block_addr (length s.file.content) s
          then ok tt
          else err nind_pad_file,
      s,
    )
unfolding check_entries_block entries_block_ok
check_entries_block-entries_block_ok block_addr entries_nb next_block_addr s = ground arith

-- After blocks are mapped, two entries lie apart: that of the smaller identifier ends before the
-- other begins, both behind the header of the file and before its tail.
pub map_entries_blocks-entry_pos_in :
    (al : Allocator) (s : PadFile) (i j : ℕ)
    → (map_entries_blocks al s).0 ≡ ok tt
    → i < j
    → j < total (map_entries_blocks al s).1.entries_blocks_map
    → let map = (map_entries_blocks al s).1.entries_blocks_map in
      (taille_entete_fixe + block_header_size s ≤ entry_pos_in map i s.data_entry_size)
      × (entry_pos_in map i s.data_entry_size + s.data_entry_size
          ≤ entry_pos_in map j s.data_entry_size)
      × (entry_pos_in map j s.data_entry_size + s.data_entry_size ≤ tail_start s)
unfolding entry_pos_in
map_entries_blocks-entry_pos_in al s i j e lt lt' =
    let map = (map_entries_blocks al s).1.entries_blocks_map in
    let chain = (map_entries_blocks-Chained al s e).0 in
    (
      (pos_in_from-bounds map i 0 s.data_entry_size _ _ chain (omega arith) (omega arith)).0,
      pos_in_from-apart map i j 0 s.data_entry_size _ _ chain (omega arith) lt (omega arith),
      (pos_in_from-bounds map j 0 s.data_entry_size _ _ chain (omega arith) (omega arith)).1,
    )

pos_in_from-beyond :
    (map : Blocks) (ident first size : ℕ)
    → first + total map ≤ ident
    → pos_in_from map ident first size ≡ 0
unfolding pos_in_from
pos_in_from-beyond [] ident first size le = refl
pos_in_from-beyond ((address, nb) ∷ map) ident first size le =
    ground (arith, pos_in_from-beyond map ident (first + nb) size)

-- Where the blocks lie one after the other behind the head of the file and have less than 2 ^ 32
-- entries, an identifier has a position other than 0 exactly where it is below `getMaxIdent`.
pub entry_pos_in-get_max_ident :
    (s : PadFile) (ident from to : ℕ)
    → Chained s.data_entry_size s.entries_blocks_map from to
    → 0 < from
    → total s.entries_blocks_map < 2 ^ 32
    → (entry_pos_in s.entries_blocks_map ident s.data_entry_size ≢ 0) ↔ (ident < get_max_ident s)
unfolding entry_pos_in get_max_ident
entry_pos_in-get_max_ident s ident from to chain positive fits =
    let map = s.entries_blocks_map in
    ground (
      arith,
      add_entries-total map 0 (omega arith),
      pos_in_from-beyond map ident 0 s.data_entry_size,
      pos_in_from-bounds map ident 0 s.data_entry_size from to chain (omega arith),
    )
