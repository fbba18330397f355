-- ===== src/Index/Defining.antt =====
-- src/cpp/NindIndex/NindIndex.cpp: definitions read from the file and written to it. The write buffer
-- holds a definition, then the specifics and the identification of the file. The length of an
-- indirection is decoded also where the caller says how many bytes to read: the entry has the room.
use nind.Prelude.{
  ℕ, ◌+◌, ◌-◌, ◌++◌, length, replicate, Bool, true, false, Option, none, some, ltb, leb, ◌==◌,
  get_elem?, set, if◌then◌else◌,
}
use nind.Prelude.Exec.{ok, err, pure, gets, when_true, nind_index, ◌>>=◌, ◌>>◌}
use nind.WriteBuffer.{copy_out_buffer}
use nind.File.{Io, write_buffer}
use nind.PadFile.{
  Allocator, Pad, go_to, go_before_end, on_write_buffer, get_max_ident,
  get_specifics_and_identification_size, bulk_forget_position,
}
use nind.PadFile.Reading.{read_new, get_entry_pos}
use nind.PadFile.Writing.{bulk_write, set_bulk_tail}
use nind.Index.{Indexing, on_pad, on_index_file, read_indirection, set_indirection}
use nind.Index.Areas.{NewArea, data_end, find_new_area, vacate_old_area}

unfoldable pub definition_at : ℕ → ℕ → Allocator → Indexing (Unit {0})
definition_at offset bytes_nb al = on_index_file (do go_to offset; read_new al bytes_nb)

-- `bytesNb == 0` asks for the whole definition.
abbrev pub asked : ℕ → ℕ → ℕ
asked bytes_nb len = if bytes_nb == 0 then len else bytes_nb

-- In bulk mode the indirections are in memory.
unfoldable pub get_definition_bulk : Allocator → ℕ → ℕ → Indexing Bool
get_definition_bulk al ident bytes_nb s = elim (get_elem? s.bulk_indirections ident) [
  | none ↦ (ok false, s)
  | some place ↦
      if place.0 == 0
      then (ok false, s)
      else (do
        on_pad bulk_forget_position
        definition_at (place.0) (asked bytes_nb (place.1)) al
        pure true)
          s
]

unfoldable pub get_definition_in_file : Allocator → ℕ → ℕ → Indexing Bool
get_definition_in_file al indirection bytes_nb = do
  place ← read_indirection al indirection
  if place.0 == 0
      then pure false
      else do definition_at (place.0) (asked bytes_nb (place.1)) al; pure true

unfoldable pub get_definition : Allocator → ℕ → ℕ → Indexing Bool
get_definition al ident bytes_nb = do
  indirection ← on_pad (get_entry_pos al ident)
  is_bulk ← gets (λ s. s.pad.is_bulk)
  if indirection == 0
      then pure false
      else if is_bulk
      then get_definition_bulk al ident bytes_nb
      else get_definition_in_file al indirection bytes_nb

-- The place of a definition; `none` where it has none.
abbrev pub placed : ℕ × ℕ → Option (ℕ × ℕ)
placed place = if place.0 == 0 then none else some place

unfoldable pub get_definition_area : Allocator → ℕ → Indexing (Option (ℕ × ℕ))
get_definition_area al ident s =
    if s.pad.is_bulk
    then (
      ok (elim (get_elem? s.bulk_indirections ident) [ none ↦ none | some place ↦ placed place ]),
      s,
    )
    else (do
      indirection ← on_pad (get_entry_pos al ident)
      if indirection == 0
          then pure none
          else do place ← read_indirection al indirection; pure (placed place))
        s

-- `vacateOldArea`, of an old place that is not empty.
unfoldable pub vacate : ℕ × ℕ → Indexing (Unit {0})
vacate old s =
    if old.1 == 0
    then (ok tt, s)
    else (ok tt, record s { empty_areas = vacate_old_area old s.empty_areas })

-- `findNewArea`
unfoldable pub new_area : ℕ → Indexing NewArea
new_area data_size s =
    let found = find_new_area data_size s.definition_minimum_size s.empty_areas (data_end s.pad) in
    (ok found, record s { empty_areas = found.left })

-- The tail from the write buffer to the end of the file.
unfoldable pub write_tail_at_end : ℕ → ℕ → Io (Unit {0})
write_tail_at_end position queue = do go_before_end (queue - 1); write_buffer position queue

-- `dataSize == 0`
unfoldable pub erase_definition : Allocator → ℕ → ℕ → ℕ × ℕ → Indexing (Unit {0})
erase_definition al indirection queue old = do
  vacate old
  on_index_file (do go_before_end (queue - 1); write_buffer 0 0)
  set_indirection al indirection (0, 0)

unfoldable pub replace_in_place : ℕ → ℕ → ℕ → Indexing (Unit {0})
replace_in_place offset data_size queue =
    on_index_file (do go_to offset; write_buffer 0 data_size; write_tail_at_end data_size queue)

-- At the end of the data the definition and the tail are written at once.
unfoldable pub write_in_new_area : ℕ → ℕ → NewArea → Indexing (Unit {0})
write_in_new_area data_size queue found = on_index_file (do
  go_to (found.place.0)
  if found.is_at_end
      then write_buffer 0 0
      else do write_buffer 0 data_size; write_tail_at_end data_size queue)

unfoldable pub place_elsewhere : Allocator → ℕ → ℕ → ℕ → ℕ × ℕ → Indexing (Unit {0})
place_elsewhere al indirection data_size queue old = do
  found ← new_area data_size
  write_in_new_area data_size queue found
  vacate old
  set_indirection al indirection (found.place)

unfoldable pub set_definition_in_file : Allocator → ℕ → ℕ → Indexing (Unit {0})
set_definition_in_file al indirection queue = do
  old ← read_indirection al indirection
  size ← gets (λ s. s.pad.file.out_buffer.ptr)
  when_true (ltb size queue) nind_index
  if size - queue == 0
      then erase_definition al indirection queue old
      else if leb (size - queue) (old.1)
      then replace_in_place (old.0) (size - queue) queue
      else place_elsewhere al indirection (size - queue) queue old

-- `resize`, where blocks of indirections were added.
unfoldable pub resize_indirections : Indexing (Unit {0})
resize_indirections s = (
  ok tt,
  record s {
    bulk_indirections =
        s.bulk_indirections ++ replicate (get_max_ident s.pad - length s.bulk_indirections) (0, 0);
  },
)

unfoldable pub set_bulk_indirection : ℕ → ℕ × ℕ → Indexing (Unit {0})
set_bulk_indirection ident place s =
    (ok tt, record s { bulk_indirections = set s.bulk_indirections ident place })

-- `if (aLaFin) m_bulkEnd += dataSize`
unfoldable pub extend_data : Bool → ℕ → Pad (Unit {0})
extend_data is_at_end data_size p =
    (ok tt, if is_at_end then record p { bulk_end = p.bulk_end + data_size } else p)

unfoldable pub place_elsewhere_bulk : ℕ → ℕ → ℕ × ℕ → Indexing (Unit {0})
place_elsewhere_bulk ident data_size old = do
  found ← new_area data_size
  on_pad (bulk_write (found.place.0) 0 data_size)
  on_pad (extend_data found.is_at_end data_size)
  vacate old
  set_bulk_indirection ident (found.place)

-- The new definition against the old place.
unfoldable pub place_bulk : ℕ → ℕ → ℕ × ℕ → Indexing (Unit {0})
place_bulk ident data_size old =
    if data_size == 0
    then (do vacate old; set_bulk_indirection ident (0, 0))
    else if leb data_size (old.1)
    then on_pad (bulk_write (old.0) 0 data_size)
    else place_elsewhere_bulk ident data_size old

unfoldable pub set_definition_of : ℕ → ℕ → Indexing (Unit {0})
set_definition_of ident queue s = elim (get_elem? s.bulk_indirections ident) [
  | none ↦ (err nind_index, s)
  | some old ↦
      let size = s.pad.file.out_buffer.ptr in
      (do
        when_true (ltb size queue) nind_index
        tail ← on_index_file (on_write_buffer (copy_out_buffer (size - queue) queue))
        on_pad (set_bulk_tail tail)
        place_bulk ident (size - queue) old)
        s
]

unfoldable pub set_definition_bulk : ℕ → ℕ → Indexing (Unit {0})
set_definition_bulk ident queue = do resize_indirections; set_definition_of ident queue

unfoldable pub set_definition : Allocator → ℕ → Indexing (Unit {0})
set_definition al ident s =
    let queue = get_specifics_and_identification_size s.pad in
    (do
      indirection ← on_pad (get_entry_pos al ident)
      when_true (indirection == 0) nind_index
      if s.pad.is_bulk
          then set_definition_bulk ident queue
          else set_definition_in_file al indirection queue)
      s
