-- ===== src/Index/BulkMode.antt =====
-- src/cpp/NindIndex/NindIndex.cpp: entering bulk mode, where the indirections and the tail are read
-- into memory, and leaving it, where they are written.
use nind.Prelude.{
  ℕ, zero, suc, ◌+◌, ◌-◌, ◌*◌, List, [], ◌∷◌, ◌++◌, length, min, Bool, true, false, not, none,
  get_or, ◌==◌, if◌then◌else◌,
}
use nind.Prelude.Exec.{ok, err, pure, gets, nind_index, ◌>>=◌, ◌>>◌}
use nind.ReadBuffer.{Read, get_int1}
use nind.WriteBuffer.{Write, put_bytes}
use nind.File.{Io, on_in_buffer, set_bulk}
use nind.PadFile.{
  Allocator, PadFile, Blocks, go_to, go_before_end, on_write_buffer,
  get_specifics_and_identification_size,
}
use nind.PadFile.Reading.{read_new}
use nind.PadFile.Writing.{create_new, bulk_write}
use nind.Index.{
  Areas, Indexing, on_pad, on_index_file, is_format_v2, get_indirection, put_indirection_offset,
  put_indirection_length,
}

-- The indirections of the read buffer.
unfoldable pub get_indirections : Bool → ℕ → Read Areas
get_indirections v2 zero = pure []
get_indirections v2 (suc nb) = do
  place ← get_indirection v2
  places ← get_indirections v2 nb
  pure (place ∷ places)

unfoldable pub read_indirections : Allocator → PadFile → Blocks → Io Areas
read_indirections al p [] = pure []
read_indirections al p ((address, nb) ∷ map) = do
  go_to address
  read_new al (nb * p.data_entry_size)
  places ← on_in_buffer (get_indirections (is_format_v2 p) nb)
  more ← read_indirections al p map
  pure (places ++ more)

-- `for (i = 0; i < tailleQueue; i++) m_bulkTail[i] = m_file.getInt1()`
unfoldable pub get_all : ℕ → Read (List ℕ)
get_all zero = pure []
get_all (suc n) = do byte ← get_int1; bytes ← get_all n; pure (byte ∷ bytes)

unfoldable pub read_tail : Allocator → ℕ → Io (ℕ × List ℕ)
read_tail al queue = do
  go_before_end (queue - 1)
  end ← gets (λ f. f.position)
  read_new al queue
  tail ← on_in_buffer (get_all queue)
  pure (end, tail)

unfoldable pub enter_bulk : Areas → ℕ → List ℕ → Indexing (Unit {0})
enter_bulk places end tail s = (
  ok tt,
  record s {
    bulk_indirections = places;
    pad = record (s.pad) { bulk_tail = tail; bulk_end = end; bulk_pos = none; is_bulk = true };
  },
)

unfoldable pub begin_bulk : Allocator → Indexing (Unit {0})
begin_bulk al s =
    let queue = get_specifics_and_identification_size s.pad in
    if not s.pad.is_writer
    then (err nind_index, s)
    else if s.pad.is_bulk
    then (ok tt, s)
    else (do
      places ← on_index_file (read_indirections al s.pad s.pad.entries_blocks_map)
      tail ← on_index_file (read_tail al queue)
      enter_bulk places (tail.0) (tail.1)
      on_index_file (set_bulk true true))
        s

-- TRANCHE
abbrev pub slice : ℕ
slice = 65536

unfoldable pub put_indirections : Bool → Areas → Write
put_indirections v2 [] w = (ok tt, w)
put_indirections v2 (place ∷ places) w =
    (do
      put_indirection_offset v2 (place.0)
      put_indirection_length v2 (place.1)
      put_indirections v2 places)
      w

-- The places of `nb` identifiers from `ident` on, (0, 0) where the vector has none.
unfoldable pub places_from : Areas → ℕ → ℕ → Areas
places_from places ident zero = []
places_from places ident (suc nb) = get_or places ident (0, 0) ∷ places_from places (ident + 1) nb

unfoldable pub write_slice : Allocator → ℕ → ℕ → ℕ → Indexing (Unit {0})
write_slice al address ident nb s =
    let size = s.pad.data_entry_size in
    (do
      on_index_file (create_new al (nb * size))
      on_index_file (
          on_write_buffer
            (put_indirections (is_format_v2 s.pad) (places_from s.bulk_indirections ident nb)))
      on_pad (bulk_write address 0 (nb * size)))
      s

-- The slices of a block of `left` entries more; its fuel is the entries that are left.
unfoldable pub write_slices : Allocator → ℕ → ℕ → ℕ → ℕ → Indexing (Unit {0})
write_slices al zero address ident left s = (ok tt, s)
write_slices al (suc fuel) address ident left s = elim (left == 0) [
  | true ↦ (ok tt, s)
  | false ↦
      let nb = min slice left in
      (do
        write_slice al address ident nb
        write_slices al fuel (address + nb * s.pad.data_entry_size) (ident + nb) (left - nb))
        s
]

unfoldable pub write_blocks : Allocator → Blocks → ℕ → Indexing (Unit {0})
write_blocks al [] ident = pure tt
write_blocks al ((address, nb) ∷ map) ident = do
  write_slices al nb address ident nb
  write_blocks al map (ident + nb)

unfoldable pub leave_bulk : Indexing (Unit {0})
leave_bulk s = (ok tt, record s { pad = record (s.pad) { is_bulk = false } })

unfoldable pub drop_indirections : Indexing (Unit {0})
drop_indirections s = (ok tt, record s { bulk_indirections = [] })

-- `seeks` is whether the stream can be moved to the end of the file.
unfoldable pub end_bulk : Allocator → Bool → Indexing (Unit {0})
end_bulk al seeks s =
    if not s.pad.is_bulk
    then (ok tt, s)
    else (do
      write_blocks al s.pad.entries_blocks_map 0
      on_index_file (create_new al (length s.pad.bulk_tail))
      on_index_file (on_write_buffer (put_bytes s.pad.bulk_tail))
      on_pad (bulk_write s.pad.bulk_end 0 (length s.pad.bulk_tail))
      leave_bulk
      on_index_file (set_bulk seeks false)
      drop_indirections)
        s
