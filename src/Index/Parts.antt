-- ===== src/Index/Parts.antt =====
-- src/cpp/NindIndex/NindIndex.cpp: parts of a definition written over, and the positioned reads.
use nind.Prelude.{
  ℕ, ◌+◌, ◌^◌, ◌%◌, [], ◌∷◌, Bool, true, false, not, Option, none, some, ltb, ◌==◌, if◌then◌else◌,
}
use nind.Prelude.Exec.{pure, throw, gets, when_true, nind_index, ◌>>=◌, ◌>>◌}
use nind.ReadBuffer.{Read}
use nind.WriteBuffer.{copy_out_buffer}
use nind.File.{Io, write_buffer}
use nind.PadFile.{
  Allocator, Pad, Shared, go_to, on_write_buffer, get_specifics_and_identification_size,
}
use nind.PadFile.Reading.{read_at}
use nind.PadFile.Writing.{bulk_write, set_bulk_tail}
use nind.PadFile.Sharing.{Call, get_entry_pos_at}
use nind.Index.{Areas, Index, Indexing, on_pad, on_index_file, is_format_v2, get_indirection}
use nind.Index.Defining.{asked, placed, get_definition_area, write_tail_at_end}

-- Parts of a definition: offset in it and length.
unfoldable pub parts_size : ℕ → Areas → ℕ → Option ℕ
parts_size len [] position = some position
parts_size len ((first, size) ∷ parts) position =
    let rest = parts_size len parts ((position + size) % 2 ^ 32) in
    if ltb len (first + size) then none else rest

unfoldable pub write_parts : ℕ → Areas → ℕ → Io ℕ
write_parts offset [] position = pure position
write_parts offset ((first, size) ∷ parts) position = do
  go_to (offset + first)
  write_buffer position size
  write_parts offset parts (position + size)

unfoldable pub write_parts_bulk : ℕ → Areas → ℕ → Pad (Unit {0})
write_parts_bulk offset [] position = pure tt
write_parts_bulk offset ((first, size) ∷ parts) position = do
  bulk_write (offset + first) position size
  write_parts_bulk offset parts (position + size)

unfoldable pub write_all_parts : ℕ → Areas → ℕ → ℕ → Indexing (Unit {0})
write_all_parts offset parts position queue s =
    if s.pad.is_bulk
    then (do
      tail ← on_index_file (on_write_buffer (copy_out_buffer position queue))
      on_pad (set_bulk_tail tail)
      on_pad (write_parts_bulk offset parts 0))
        s
    else on_index_file
        (do position' ← write_parts offset parts 0; write_tail_at_end position' queue) s

unfoldable pub set_definition_parts : Allocator → ℕ → Areas → Indexing (Unit {0})
set_definition_parts al ident parts s =
    let queue = get_specifics_and_identification_size s.pad in
    (do
      area ← get_definition_area al ident
      elim area [
        | none ↦ throw nind_index
        | some place ↦ elim (parts_size (place.1) parts 0) [
          | none ↦ throw nind_index
          | some position ↦ (do
            size ← gets (λ s. s.pad.file.out_buffer.ptr)
            when_true (not (size == (position + queue) % 2 ^ 32)) nind_index
            write_all_parts (place.0) parts position queue)
        ]
      ])
      s

-- A read into the buffer of the caller.
unfoldable pub on_buffer : {A : Type 0} → Read A → Call A
on_buffer m (shared, buffer) = let (r, buffer') = m buffer in (r, (shared, buffer'))

unfoldable pub get_definition_ref_at :
    Allocator → Index → (Shared → Shared) → ℕ → Call (Option (ℕ × ℕ))
get_definition_ref_at al s meanwhile ident = do
  when_true s.pad.is_bulk nind_index
  indirection ← get_entry_pos_at al s.pad meanwhile ident
  if indirection == 0
      then pure none
      else on_buffer (do
        read_at al s.pad.file indirection s.pad.data_entry_size
        place ← get_indirection (is_format_v2 s.pad)
        pure (placed place))

unfoldable pub get_definition_at : Allocator → Index → (Shared → Shared) → ℕ → ℕ → Call Bool
get_definition_at al s meanwhile ident bytes_nb = do
  place ← get_definition_ref_at al s meanwhile ident
  elim place [
    | none ↦ pure false
    | some area ↦ (do
      on_buffer (read_at al s.pad.file (area.0) (asked bytes_nb (area.1)))
      pure true)
  ]
