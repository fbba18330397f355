-- ===== src/PadFile.antt =====
-- src/cpp/NindBasics/NindPadFile.{h,cpp}: the envelope of the index files. A file is a header, a
-- chain of blocks of entries with free data between them, and a tail that holds the specifics of
-- the subclass and the identification.
-- `bulk_pos` is `none` where m_bulkPos is UINT64_MAX. Addresses have at most 48 bits, a block at most
-- 2 ^ 24 entries of at most 255 bytes, so sums of addresses and sizes are not cut at 64 bits, nor
-- the sizes that add a constant to the size of the specifics at 32. `flush` has nothing to do here.
pub mod Reading
pub mod Writing
pub mod Opening
pub mod Sharing
pub mod Positions
pub mod Chain
pub mod Entries
pub mod Stats
pub mod Holes
pub mod Bulk
pub mod Tracking
pub mod Growth
use nind.Prelude.{
  ℕ, ◌+◌, ◌-◌, ◌*◌, ◌^◌, ◌%◌, ◌≡◌, List, [], ◌∷◌, ◌++◌, length, drop, Bool, true, false, not,
  Option, none, some, ltb, leb, ◌==◌, if◌then◌else◌,
}
use nind.Prelude.Exec.{
  Exec, ok, err, pure, throw, gets, when_true, nind_pad_file, write_file, ◌>>=◌, ◌>>◌,
}
use nind.Prelude.Int.{ℤ, pos, negsuc}
use nind.ReadBuffer.{get_int1, get_int3, get_int4, get_int5, get_int6, Read}
use nind.WriteBuffer.{
  WriteBuffer, Write, put_int1, put_int4, put_int5, put_int6, create_buffer, copy_out_buffer,
}
use nind.File.{
  File, Io, seek_set, seek_end, Origin, set_pos, read_int1, read_buffer, load_in_buffer,
  on_in_buffer, write_buffer,
}

-- What the allocator gives: whether it has the room, and what `n` new bytes hold.
pub record Allocator : Type 0 where
  pub granted : Bool
  pub fresh : ℕ → List ℕ
  pub length-fresh : (n : ℕ) → length (fresh n) ≡ n

pub record Identification : Type 0 where
  pub lexicon_words_nb : ℕ
  pub lexicon_time : ℕ

-- A block of entries: the address of its first entry, and how many it has.
abbrev pub Blocks : Type 0
Blocks = List (ℕ × ℕ)

-- The snapshot that threads share: the published map, and the size of the file it was checked with.
pub record Shared : Type 0 where
  pub shared_map : Option Blocks
  pub shared_map_file_size : ℕ

pub record PadFile : Type 0 where
  pub file : File
  pub is_writer : Bool
  pub is_existing_writer : Bool
  pub is_bulk : Bool
  pub bulk_tail : List ℕ
  pub bulk_end : ℕ
  pub bulk_pos : Option ℕ
  pub entries_blocks_map : Blocks
  pub shared : Shared
  pub specifics_size : ℕ
  pub data_entry_size : ℕ
  pub data_entries_bloc_size : ℕ
  pub next_block_addr_size : ℕ

abbrev pub Pad : Type 0 → Type 0
Pad A = Exec PadFile A

abbrev pub flag_indexej : ℕ
flag_indexej = 47

abbrev pub flag_spejcifique : ℕ
flag_spejcifique = 57

abbrev pub flag_identification : ℕ
flag_identification = 53

-- TAILLE_ENTETE_FIXE, TAILLE_ENTETE_SPEJCIFIQUE, TAILLE_IDENTIFICATION
abbrev pub taille_entete_fixe : ℕ
taille_entete_fixe = 4

abbrev pub taille_entete_spejcifique : ℕ
taille_entete_spejcifique = 1

abbrev pub taille_identification : ℕ
taille_identification = 9

-- TAILLE_TETE_INDEX
unfoldable pub block_header_size : PadFile → ℕ
block_header_size s = 4 + s.next_block_addr_size

unfoldable pub get_specifics_and_identification_size : PadFile → ℕ
get_specifics_and_identification_size s =
    s.specifics_size + taille_entete_spejcifique + taille_identification

unfoldable pub on_file : {A : Type 0} → Io A → Pad A
on_file m s = let (r, f) = m s.file in (r, record s { file = f })

-- `m_file.setPos(offset, SEEK_SET)`, whose answer is not looked at.
unfoldable pub go_to : ℕ → Io (Unit {0})
go_to offset f = (ok tt, (set_pos (pos offset) seek_set f).1)

-- `m_file.setPos(-(n + 1), SEEK_END)`, whose answer is not looked at.
unfoldable pub go_before_end : ℕ → Io (Unit {0})
go_before_end n f = (ok tt, (set_pos (negsuc n) seek_end f).1)

-- `setPos(-offset, SEEK_END)` with the offset of the specifics from the end.
unfoldable pub go_to_specifics : Pad (Unit {0})
go_to_specifics s = on_file (go_before_end (taille_identification + s.specifics_size)) s

-- An operation on the write buffer of the file.
unfoldable pub on_write_buffer : {A : Type 0} → Exec WriteBuffer A → Io A
on_write_buffer m f = let (r, b) = m f.out_buffer in (r, record f { out_buffer = b })

unfoldable pub get_next_block_addr : ℕ → Read ℕ
get_next_block_addr size = if size == 6 then get_int6 else get_int5

unfoldable pub put_next_block_addr : ℕ → ℕ → Write
put_next_block_addr size address = if size == 6 then put_int6 address else put_int5 address

-- The sums and products are on `unsigned int`, except those of the address.
unfoldable pub just_pos_in : Blocks → ℕ → ℕ → ℕ → ℕ
just_pos_in [] ident first_ident size = 0
just_pos_in ((address, nb) ∷ map) ident first_ident size =
    let next_ident = (first_ident + nb) % 2 ^ 32 in
    let rest = just_pos_in map ident next_ident size in
    if ltb ident next_ident
    then (ident + 2 ^ 32 - first_ident) % 2 ^ 32 * size % 2 ^ 32 + address
    else rest

unfoldable pub get_just_entry_pos : ℕ → PadFile → ℕ
get_just_entry_pos ident s = just_pos_in s.entries_blocks_map ident 0 s.data_entry_size

-- The same on `uint64_t`; an identifier that reaches a block is not below its first one.
unfoldable pub pos_in_from : Blocks → ℕ → ℕ → ℕ → ℕ
pos_in_from [] ident first_ident size = 0
pos_in_from ((address, nb) ∷ map) ident first_ident size =
    let rest = pos_in_from map ident (first_ident + nb) size in
    if ltb ident (first_ident + nb) then (ident - first_ident) * size + address else rest

unfoldable pub entry_pos_in : Blocks → ℕ → ℕ → ℕ
entry_pos_in map ident size = pos_in_from map ident 0 size

-- `maxIdent += (*it).second` over the blocks
abbrev pub add_entries : ℕ → Blocks → ℕ
add_entries max_ident [] = max_ident
add_entries max_ident ((address, nb) ∷ map) = add_entries ((max_ident + nb) % 2 ^ 32) map

unfoldable pub get_max_ident : PadFile → ℕ
get_max_ident s = add_entries 0 s.entries_blocks_map

unfoldable pub get_max_ident_at : PadFile → ℕ
get_max_ident_at s = elim s.shared.shared_map [ none ↦ 0 | some map ↦ add_entries 0 map ]

unfoldable pub publish_entries_map : Pad (Unit {0})
publish_entries_map s =
    (ok tt, record s { shared = record (s.shared) { shared_map = some s.entries_blocks_map } })

unfoldable pub entries_block_ok : ℕ → ℕ → ℕ → ℕ → PadFile → Bool
entries_block_ok block_addr entries_nb next_block_addr file_size s =
    let queue = get_specifics_and_identification_size s in
    let block_end = block_addr + block_header_size s + entries_nb * s.data_entry_size in
    if ltb file_size (block_end + queue)
    then false
    else if next_block_addr == 0
    then true
    else if ltb next_block_addr block_end
    then false
    else not (ltb file_size (next_block_addr + block_header_size s + queue))

unfoldable pub check_entries_block : ℕ → ℕ → ℕ → Pad (Unit {0})
check_entries_block block_addr entries_nb next_block_addr s =
    let file_size = length s.file.content in
    let queue = get_specifics_and_identification_size s in
    let block_end = block_addr + block_header_size s + entries_nb * s.data_entry_size in
    if ltb file_size (block_end + queue)
    then throw nind_pad_file s
    else if next_block_addr == 0
    then (ok tt, s)
    else if ltb next_block_addr block_end
    then throw nind_pad_file s
    else if ltb file_size (next_block_addr + block_header_size s + queue)
    then throw nind_pad_file s
    else (ok tt, s)

unfoldable pub check_header : Pad (Unit {0})
check_header s =
    let minimum_size =
      taille_entete_fixe + block_header_size s + get_specifics_and_identification_size s in
    if s.data_entry_size == 0
    then throw nind_pad_file s
    else if ltb (length s.file.content) minimum_size
    then throw nind_pad_file s
    else (ok tt, s)

unfoldable pub bulk_forget_position : Pad (Unit {0})
bulk_forget_position s = (ok tt, record s { bulk_pos = none })
