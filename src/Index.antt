-- ===== src/Index.antt =====
-- src/cpp/NindIndex/NindIndex.{h,cpp}: definitions of variable length over a pad file, whose entries
-- are the indirections: the place of each definition. The empty areas between definitions are kept in
-- a list, in the order of their addresses. Format v2 has entries of 10 bytes, v1 of 8. Addresses are
-- below 2 ^ 63 and not cut; the lengths of areas are `unsigned int`.
pub mod Areas
pub mod Defining
pub mod Parts
pub mod BulkMode
pub mod Spaces
pub mod Store
pub mod Bulk
pub mod Placing
pub mod Written
pub mod Kept
pub mod Again
pub mod Envelope
use nind.Prelude.{
  ℕ, ◌+◌, ◌-◌, ◌*◌, List, [], ◌∷◌, Bool, true, false, not, Option, none, some, ltb, ◌==◌,
  if◌then◌else◌,
}
use nind.Prelude.Exec.{
  Exec, Result, ok, err, pure, throw, gets, when_true, nind_index, out_of_bound, ◌>>=◌, ◌>>◌,
}
use nind.ReadBuffer.{Read, get_int3, get_int4, get_int5, get_int6}
use nind.WriteBuffer.{Write, put_int3, put_int4, put_int5, put_int6}
use nind.File.{File, Io, on_in_buffer, write_buffer}
use nind.PadFile.{Allocator, PadFile, Pad, Identification, on_file, go_to, on_write_buffer}
use nind.PadFile.Reading.{read_new, get_entry_pos}
use nind.PadFile.Writing.{create_new, add_entries_block}

-- Areas of the file: address and length.
abbrev pub Areas : Type 0
Areas = List (ℕ × ℕ)

pub record Index : Type 0 where
  pub pad : PadFile
  pub definition_minimum_size : ℕ
  pub empty_areas : Areas
  pub bulk_indirections : Areas

abbrev pub Indexing : Type 0 → Type 0
Indexing A = Exec Index A

unfoldable pub on_pad : {A : Type 0} → Pad A → Indexing A
on_pad m s = let (r, p) = m s.pad in (r, record s { pad = p })

unfoldable pub on_index_file : {A : Type 0} → Io A → Indexing A
unfolding on_pad
on_index_file m = on_pad (on_file m)

unfoldable pub is_format_v2 : PadFile → Bool
is_format_v2 p = p.data_entry_size == 10

-- <offsetDejfinition> <longueurDejfinition>
unfoldable pub get_indirection : Bool → Read (ℕ × ℕ)
get_indirection v2 = do
  offset ← if v2 then get_int6 else get_int5
  len ← if v2 then get_int4 else get_int3
  pure (offset, len)

unfoldable pub put_indirection_offset : Bool → ℕ → Write
put_indirection_offset v2 offset = if v2 then put_int6 offset else put_int5 offset

unfoldable pub put_indirection_length : Bool → ℕ → Write
put_indirection_length v2 len =
    if v2 then put_int4 len else if ltb 0xFFFFFF len then throw out_of_bound else put_int3 len

-- An indirection as it is in the file.
unfoldable pub read_indirection : Allocator → ℕ → Indexing (ℕ × ℕ)
read_indirection al indirection s =
    on_index_file
      (do
        go_to indirection
        read_new al s.pad.data_entry_size
        on_in_buffer (get_indirection (is_format_v2 s.pad)))
      s

unfoldable pub set_indirection : Allocator → ℕ → ℕ × ℕ → Indexing (Unit {0})
set_indirection al indirection place s =
    on_index_file
      (do
        go_to indirection
        create_new al s.pad.data_entry_size
        on_write_buffer (put_indirection_offset (is_format_v2 s.pad) (place.0))
        on_write_buffer (put_indirection_length (is_format_v2 s.pad) (place.1))
        write_buffer 0 0)
      s

unfoldable pub check_extend_indirection : Allocator → ℕ → Identification → Indexing (Unit {0})
check_extend_indirection al ident id = do
  indirection ← on_pad (get_entry_pos al ident)
  if not (indirection == 0) then pure tt else do
    on_pad (add_entries_block al id)
    again ← on_pad (get_entry_pos al ident)
    when_true (again == 0) nind_index
