-- ===== src/PadFile/Reading.antt =====
-- src/cpp/NindBasics/NindPadFile.cpp: what is read of a file: the chain of the blocks of entries, the
-- specifics and the identification. A read at a position (`readAt`) goes to the caller's own buffer
-- and leaves the file as it is.
use nind.Prelude.{
  ℕ, suc, zero, ◌+◌, ◌-◌, [], ◌∷◌, ◌++◌, ◌||◌, ◌&&◌, length, take, drop, Bool, true, false, not,
  ltb, ◌==◌, if◌then◌else◌,
}
use nind.Prelude.Exec.{
  ok, err, pure, throw, gets, when_true, nind_pad_file, eof, read_file, endless, ◌>>=◌, ◌>>◌,
}
use nind.Prelude.Map.{pair_eq, nat_eq}
use nind.ReadBuffer.{Read, clear, prepare, get_int1, get_int3, get_int4}
use nind.File.{
  File, Io, read_int1, read_buffer, load_in_buffer, on_in_buffer, read_size_check_threshold,
}
use nind.PadFile.{
  Allocator, PadFile, Pad, Blocks, Identification, flag_indexej, flag_spejcifique,
  flag_identification, taille_entete_fixe, taille_entete_spejcifique, taille_identification,
  on_file, go_to, go_before_end, go_to_specifics, block_header_size, get_next_block_addr,
  check_entries_block, entries_block_ok, publish_entries_map, bulk_forget_position,
  get_just_entry_pos, get_specifics_and_identification_size,
}

-- `readBuffer(n)`, into a buffer that the allocator gives.
abbrev pub read_new : Allocator → ℕ → Io (Unit {0})
read_new al n = read_buffer al.granted (al.fresh n)

-- The header of a block in the read buffer: the address of the next block, and the entries.
unfoldable pub get_block_header : ℕ → Read (ℕ × ℕ)
get_block_header size = do
  flag ← get_int1
  when_true (not (flag == flag_indexej)) nind_pad_file
  next_addr ← get_next_block_addr size
  nb ← get_int3
  pure (next_addr, nb)

unfoldable pub read_block_header : Allocator → ℕ → Io (ℕ × ℕ)
read_block_header al size = do read_new al (4 + size); on_in_buffer (get_block_header size)

unfoldable pub push_block : ℕ × ℕ → Pad (Unit {0})
push_block block s = (ok tt, record s { entries_blocks_map = s.entries_blocks_map ++ (block ∷ []) })

-- A round of `mapEntriesBlocks`, up to its `break`: the address of the next block.
unfoldable pub map_block : Allocator → Pad ℕ
map_block al s =
    (do
      header ← on_file (read_block_header al s.next_block_addr_size)
      after ← gets (λ s. s.file.position)
      check_entries_block (after - block_header_size s) (header.1) (header.0)
      push_block (after, header.1)
      pure (header.0))
      s

-- On fuel; `endless` is no exception of the code but the loop cut off.
unfoldable pub map_blocks : Allocator → ℕ → Pad (Unit {0})
map_blocks al zero = throw endless
map_blocks al (suc fuel) = do
  next_addr ← map_block al
  elim (next_addr == 0) [
    | true ↦ pure tt
    | false ↦ (do on_file (go_to next_addr); map_blocks al fuel)
  ]

unfoldable pub clear_map : Pad (Unit {0})
clear_map s = (ok tt, record s { entries_blocks_map = [] })

unfoldable pub map_entries_blocks : Allocator → Pad (Unit {0})
map_entries_blocks al s =
    (do
      clear_map
      on_file (go_to taille_entete_fixe)
      map_blocks al (suc (length s.file.content))
      publish_entries_map)
      s

unfoldable pub get_entry_pos : Allocator → ℕ → Pad ℕ
get_entry_pos al ident s =
    let position = get_just_entry_pos ident s in
    if s.is_writer || not (position == 0)
    then (ok position, s)
    else (do map_entries_blocks al; gets (get_just_entry_pos ident)) s

-- `if (m_isBulk) { m_file.flush(); bulkForgetPosition(); }`
unfoldable pub forget_if_bulk : Pad (Unit {0})
forget_if_bulk s = if s.is_bulk then bulk_forget_position s else (ok tt, s)

unfoldable pub get_first_entries_block_size : Allocator → Pad ℕ
get_first_entries_block_size al s =
    (do
      forget_if_bulk
      on_file (go_to taille_entete_fixe)
      header ← on_file (read_block_header al s.next_block_addr_size)
      pure (header.1))
      s

-- In bulk mode the tail is in memory.
unfoldable pub read_specifics : Allocator → Pad (Unit {0})
read_specifics al s =
    let size = s.specifics_size + taille_entete_spejcifique in
    if s.is_bulk
    then on_file (load_in_buffer al.granted (take size s.bulk_tail)) s
    else (do go_to_specifics; on_file (read_new al size)) s

unfoldable pub get_specifics : Allocator → Pad (Unit {0})
get_specifics al = do
  read_specifics al
  flag ← on_file (on_in_buffer get_int1)
  when_true (not (flag == flag_spejcifique)) nind_pad_file

unfoldable pub read_identification : Allocator → Pad (Unit {0})
read_identification al s =
    if s.is_bulk
    then on_file
        (load_in_buffer al.granted (drop (length s.bulk_tail - taille_identification) s.bulk_tail))
        s
    else on_file (do go_before_end 8; read_new al taille_identification) s

-- The identification in the read buffer.
unfoldable pub get_identification : Read Identification
get_identification = do
  flag ← get_int1
  when_true (not (flag == flag_identification)) nind_pad_file
  words_nb ← get_int4
  time ← get_int4
  pure (record { lexicon_words_nb = words_nb; lexicon_time = time })

unfoldable pub get_file_identification : Allocator → Pad Identification
get_file_identification al = do read_identification al; on_file (on_in_buffer get_identification)

unfoldable pub check_spejcifiques : Pad (Unit {0})
check_spejcifiques = do
  go_to_specifics
  flag ← on_file read_int1
  when_true (not (flag == flag_spejcifique)) nind_pad_file

unfoldable pub same_identification : Identification → Identification → Bool
same_identification a b =
    (a.lexicon_words_nb == b.lexicon_words_nb) && (a.lexicon_time == b.lexicon_time)

-- A null reference is not compared.
unfoldable pub compatible : Identification → Identification → Bool
compatible reference found =
    same_identification reference (record { lexicon_words_nb = 0; lexicon_time = 0 })
    || same_identification found reference

unfoldable pub check_identification : Allocator → Identification → Pad (Unit {0})
check_identification al reference = do
  on_file (go_before_end 8)
  on_file (read_new al taille_identification)
  found ← on_file (on_in_buffer get_identification)
  when_true (not (compatible reference found)) nind_pad_file

-- The loop on `pread`, which ends with all the bytes or at the end of the file; the buffer is cleared
-- where it throws.
unfoldable pub fill_at : File → ℕ → ℕ → Read (Unit {0})
fill_at f offset bytes_nb r =
    let bytes = take bytes_nb (drop offset f.content) in
    if bytes_nb == 0
    then (ok tt, r)
    else if f.fails
    then (err read_file, (clear r).1)
    else if length bytes == bytes_nb
    then (ok tt, record r { bytes = bytes })
    else (err eof, (clear r).1)

-- `readAt`
unfoldable pub read_at : Allocator → File → ℕ → ℕ → Read (Unit {0})
read_at al f offset bytes_nb = do
  clear
  when_true
      (if ltb read_size_check_threshold bytes_nb
        then ltb (length f.content) (offset + bytes_nb)
        else false)
      eof
  prepare al.granted (al.fresh bytes_nb)
  fill_at f offset bytes_nb

-- The loop of `mapEntriesBlocksAt`: where a block does not fit the size that was given, the size of
-- the file as it is now is taken for the rest.
unfoldable pub map_blocks_at : Allocator → PadFile → ℕ → ℕ → ℕ → Blocks → Read Blocks
map_blocks_at al s zero block_addr file_size map = throw endless
map_blocks_at al s (suc fuel) block_addr file_size map = do
  read_at al s.file block_addr (block_header_size s)
  header ← get_block_header s.next_block_addr_size
  let fits = entries_block_ok block_addr (header.1) (header.0) file_size s
  let size = if fits then file_size else length s.file.content
  when_true (not (entries_block_ok block_addr (header.1) (header.0) size s)) nind_pad_file
  let map' = map ++ ((block_addr + block_header_size s, header.1) ∷ [])
  elim (header.0 == 0) [ true ↦ pure map' | false ↦ map_blocks_at al s fuel (header.0) size map' ]

unfoldable pub map_entries_blocks_at : Allocator → PadFile → ℕ → Read Blocks
map_entries_blocks_at al s file_size =
    map_blocks_at al s (suc (length s.file.content)) taille_entete_fixe file_size []

unfoldable pub get_specifics_at : Allocator → PadFile → Read (Unit {0})
get_specifics_at al s = do
  when_true s.is_bulk nind_pad_file
  let offset = get_specifics_and_identification_size s
  when_true (ltb (length s.file.content) offset) nind_pad_file
  read_at al s.file (length s.file.content - offset) (s.specifics_size + taille_entete_spejcifique)
  flag ← get_int1
  when_true (not (flag == flag_spejcifique)) nind_pad_file
