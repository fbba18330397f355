-- ===== src/PadFile/Writing.antt =====
-- src/cpp/NindBasics/NindPadFile.cpp: what the writer puts in a file: the tail, and a new block of
-- entries. In bulk mode the tail stays in memory, and `bulk_pos` is where the stream is known to be.
use nind.Prelude.{
  ℕ, ◌+◌, ◌-◌, ◌*◌, ◌^◌, ◌%◌, List, [], ◌∷◌, ◌++◌, Bool, true, not, Option, none, some, ◌==◌,
  if◌then◌else◌,
}
use nind.Prelude.Exec.{ok, err, pure, throw, gets, nind_pad_file, write_file, ◌>>=◌, ◌>>◌}
use nind.Prelude.Int.{pos}
use nind.WriteBuffer.{Write, put_int1, put_int3, put_int4, create_buffer, copy_out_buffer}
use nind.File.{Io, seek_set, set_pos, write_buffer, write_value}
use nind.PadFile.{
  Allocator, PadFile, Pad, Blocks, Identification, flag_indexej, flag_spejcifique,
  flag_identification, taille_identification, on_file, go_to, go_before_end, go_to_specifics,
  on_write_buffer, block_header_size, put_next_block_addr, publish_entries_map,
  get_specifics_and_identification_size,
}

-- `createBuffer(n)`, of bytes that the allocator gives.
abbrev pub create_new : Allocator → ℕ → Io (Unit {0})
create_new al n = on_write_buffer (create_buffer al.granted (al.fresh n))

unfoldable pub put_identification : Identification → Write
put_identification id = do
  put_int1 flag_identification
  put_int4 (id.lexicon_words_nb)
  put_int4 (id.lexicon_time)

unfoldable pub write_identification : Identification → Pad (Unit {0})
write_identification id = on_file (on_write_buffer (put_identification id))

unfoldable pub write_specifics_header : Pad (Unit {0})
write_specifics_header = on_file (on_write_buffer (put_int1 flag_spejcifique))

unfoldable pub set_bulk_tail : List ℕ → Pad (Unit {0})
set_bulk_tail bytes s = (ok tt, record s { bulk_tail = bytes })

unfoldable pub write_tail : ℕ → ℕ → Pad (Unit {0})
write_tail position len s =
    if not (len == get_specifics_and_identification_size s)
    then throw nind_pad_file s
    else if s.is_bulk
    then (do tail ← on_file (on_write_buffer (copy_out_buffer position len)); set_bulk_tail tail) s
    else on_file (do go_before_end (len - 1); write_buffer position len) s

-- `address != m_bulkPos`
unfoldable pub is_elsewhere : ℕ → Option ℕ → Bool
is_elsewhere address none = true
is_elsewhere address (some at) = not (address == at)

unfoldable pub seek_or_throw : ℕ → Io (Unit {0})
seek_or_throw address f =
    let (failed, f') = set_pos (pos address) seek_set f in
    if failed then (err write_file, f') else (ok tt, f')

unfoldable pub set_bulk_pos : ℕ → Pad (Unit {0})
set_bulk_pos at s = (ok tt, record s { bulk_pos = some at })

unfoldable pub bulk_write : ℕ → ℕ → ℕ → Pad (Unit {0})
bulk_write address position len s =
    (do
      (if is_elsewhere address s.bulk_pos then on_file (seek_or_throw address) else pure tt)
      on_file (write_buffer position len)
      set_bulk_pos (address + len))
      s

-- `<flagIndexej=47> <addrBlocSuivant> <nombreIndex>` of a block that is the last one.
unfoldable pub put_block_header : ℕ → ℕ → Write
put_block_header size entries_nb = do
  put_int1 flag_indexej
  put_next_block_addr size 0
  put_int3 entries_nb

-- `m_entriesBlocksMap.back()`
unfoldable pub back : Blocks → Option (ℕ × ℕ)
back [] = none
back (block ∷ []) = some block
back (block ∷ next ∷ map) = back (next ∷ map)

-- The address of the field <addrBlocSuivant> of a block, from that of its first entry.
unfoldable pub next_field : PadFile → ℕ × ℕ → ℕ
next_field s block = block.0 - block_header_size s + 1

-- `m_bulkPos += n; m_bulkEnd = m_bulkPos`
unfoldable pub extend_bulk : ℕ → Pad (Unit {0})
extend_bulk end s = (ok tt, record s { bulk_pos = some end; bulk_end = end })

unfoldable pub chain_bulk : Allocator → ℕ → Pad (Unit {0})
chain_bulk al entries_block s = elim (back s.entries_blocks_map) [
  | none ↦ (ok tt, s)
  | some block ↦
      (do
        on_file (create_new al s.next_block_addr_size)
        on_file (on_write_buffer (put_next_block_addr s.next_block_addr_size entries_block))
        bulk_write (next_field s block) 0 s.next_block_addr_size)
        s
]

unfoldable pub push_entries : ℕ → Pad (Unit {0})
push_entries entries_block s = (
  ok tt,
  record s {
    entries_blocks_map =
        s.entries_blocks_map
        ++ ((entries_block + block_header_size s, s.data_entries_bloc_size) ∷ []);
  },
)

-- `m_dataEntriesBlocSize*m_dataEntrySize`, on `unsigned int`
abbrev pub block_bytes : PadFile → ℕ
block_bytes s = s.data_entries_bloc_size * s.data_entry_size % 2 ^ 32

unfoldable pub add_entries_block_bulk : Allocator → Pad (Unit {0})
add_entries_block_bulk al s =
    (do
      on_file (create_new al (block_header_size s))
      on_file (on_write_buffer (put_block_header s.next_block_addr_size s.data_entries_bloc_size))
      bulk_write s.bulk_end 0 (block_header_size s)
      on_file (write_value al.granted 0 (block_bytes s))
      extend_bulk (s.bulk_end + block_header_size s + s.data_entries_bloc_size * s.data_entry_size)
      chain_bulk al s.bulk_end
      push_entries s.bulk_end
      publish_entries_map)
      s

unfoldable pub chain_block : Allocator → ℕ → Pad (Unit {0})
chain_block al entries_block s = elim (back s.entries_blocks_map) [
  | none ↦ (ok tt, s)
  | some block ↦
      on_file
        (do
          go_to (next_field s block)
          create_new al s.next_block_addr_size
          on_write_buffer (put_next_block_addr s.next_block_addr_size entries_block)
          write_buffer 0 0)
        s
]

-- The block over the old tail, then the new tail: the specifics, all zero, and the identification.
unfoldable pub write_entries : Allocator → Identification → PadFile → Io (Unit {0})
write_entries al id s = do
  create_new al (block_header_size s)
  on_write_buffer (put_block_header s.next_block_addr_size s.data_entries_bloc_size)
  write_buffer 0 0
  write_value al.granted 0 (block_bytes s)
  write_value al.granted flag_spejcifique 1
  write_value al.granted 0 s.specifics_size
  create_new al taille_identification
  on_write_buffer (put_identification id)
  write_buffer 0 0

unfoldable pub add_entries_block : Allocator → Identification → Pad (Unit {0})
add_entries_block al id s =
    if s.is_bulk
    then add_entries_block_bulk al s
    else (do
      go_to_specifics
      entries_block ← gets (λ s. s.file.position)
      on_file (write_entries al id s)
      chain_block al entries_block
      push_entries entries_block
      publish_entries_map)
        s
