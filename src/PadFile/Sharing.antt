-- ===== src/PadFile/Sharing.antt =====
-- src/cpp/NindBasics/NindPadFile.cpp: `getEntryPosAt`, which threads share. `meanwhile` is what the
-- other threads make of the shared snapshot between the first look at it and the lock.
use nind.Prelude.{ℕ, ◌||◌, Bool, false, not, length, leb, none, some, ◌==◌, if◌then◌else◌}
use nind.Prelude.Exec.{Exec, ok, err}
use nind.Prelude.Map.{list_beq, pair_eq, nat_eq}
use nind.ReadBuffer.{ReadBuffer}
use nind.PadFile.{Allocator, PadFile, Blocks, Shared, entry_pos_in}
use nind.PadFile.Reading.{map_entries_blocks_at}

-- The state of a call: the snapshot, and the caller's read buffer.
abbrev pub Call : Type 0 → Type 0
Call A = Exec (Shared × ReadBuffer) A

-- `map != 0 ? entryPosIn(*map, ident, m_dataEntrySize) : 0`
unfoldable pub shared_pos : PadFile → ℕ → Shared → ℕ
shared_pos s ident shared = elim shared.shared_map [
  | none ↦ 0
  | some map ↦ entry_pos_in map ident s.data_entry_size
]

-- `map != 0 && fileSize <= m_sharedMapFileSize`
unfoldable pub is_current : ℕ → Shared → Bool
is_current file_size shared = elim shared.shared_map [
  | none ↦ false
  | some map ↦ leb file_size shared.shared_map_file_size
]

-- `publishEntriesMap` where the map is new; the same map stays where it is.
unfoldable pub publish : Blocks → Shared → Shared
publish fresh shared = elim shared.shared_map [
  | none ↦ record shared { shared_map = some fresh }
  | some map ↦
      if list_beq pair_eq fresh map then shared else record shared { shared_map = some fresh }
]

-- Under the lock: the blocks are mapped again, and the snapshot published.
unfoldable pub refresh : Allocator → PadFile → ℕ → ℕ → Call ℕ
refresh al s ident file_size (shared, buffer) =
    let (mapped, buffer') = map_entries_blocks_at al s file_size buffer in
    elim mapped [
      | err e ↦ (err e, (shared, buffer'))
      | ok fresh ↦
          let shared' = record (publish fresh shared) { shared_map_file_size = file_size } in
          (ok (shared_pos s ident shared'), (shared', buffer'))
    ]

unfoldable pub under_lock : Allocator → PadFile → ℕ → ℕ → Call ℕ
under_lock al s ident file_size (shared, buffer) =
    let position = shared_pos s ident shared in
    if not (position == 0)
    then (ok position, (shared, buffer))
    else if is_current file_size shared
    then (ok 0, (shared, buffer))
    else refresh al s ident file_size (shared, buffer)

unfoldable pub get_entry_pos_at : Allocator → PadFile → (Shared → Shared) → ℕ → Call ℕ
get_entry_pos_at al s meanwhile ident (shared, buffer) =
    let position = shared_pos s ident shared in
    let file_size = length s.file.content in
    if not (position == 0) || s.is_writer
    then (ok position, (shared, buffer))
    else if is_current file_size shared
    then (ok 0, (shared, buffer))
    else under_lock al s ident file_size (meanwhile shared, buffer)
