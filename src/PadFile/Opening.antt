-- ===== src/PadFile/Opening.antt =====
-- src/cpp/NindBasics/NindPadFile.cpp: the constructor. What the operating system answers is given:
-- `existing` and `created` are the open files where `fopen` succeeds, `locked` whether the lock is
-- taken.
use nind.Prelude.{ℕ, ◌+◌, [], ◌&&◌, Bool, true, false, not, Option, none, some, ◌==◌, if◌then◌else◌}
use nind.Prelude.Exec.{Result, ok, err, when_true, nind_pad_file, open_file, ◌>>=◌, ◌>>◌}
use nind.ReadBuffer.{get_int1, get_int3}
use nind.WriteBuffer.{put_int1, put_int3}
use nind.File.{File, on_in_buffer, write_buffer, write_value}
use nind.PadFile.{
  Allocator, PadFile, Pad, Identification, taille_entete_fixe, taille_entete_spejcifique,
  taille_identification, on_file, go_to, on_write_buffer, check_header,
}
use nind.PadFile.Reading.{read_new, map_entries_blocks, check_spejcifiques, check_identification}
use nind.PadFile.Writing.{create_new, add_entries_block}

-- The constructor's arguments but the name of the file.
pub record Layout : Type 0 where
  pub reference_identification : Identification
  pub specifics_size : ℕ
  pub data_entry_size : ℕ
  pub data_entries_bloc_size : ℕ
  pub next_block_addr_size : ℕ
  pub legacy_data_entry_size : ℕ

-- The object as the constructor's initialisers leave it.
unfoldable pub initial : Layout → Bool → File → PadFile
initial l is_writer f = record {
  file = f;
  is_writer = is_writer;
  is_existing_writer = false;
  is_bulk = false;
  bulk_tail = [];
  bulk_end = 0;
  bulk_pos = none;
  entries_blocks_map = [];
  shared = record { shared_map = none; shared_map_file_size = 0 };
  specifics_size = l.specifics_size;
  data_entry_size = l.data_entry_size;
  data_entries_bloc_size = l.data_entries_bloc_size;
  next_block_addr_size = l.next_block_addr_size;
}

unfoldable pub set_data_entry_size : ℕ → Pad (Unit {0})
set_data_entry_size size s = (ok tt, record s { data_entry_size = size })

unfoldable pub set_specifics_size : ℕ → Pad (Unit {0})
set_specifics_size size s = (ok tt, record s { specifics_size = size })

unfoldable pub set_next_block_addr_size : ℕ → Pad (Unit {0})
set_next_block_addr_size size s = (ok tt, record s { next_block_addr_size = size })

unfoldable pub set_existing_writer : Pad (Unit {0})
set_existing_writer s = (ok tt, record s { is_existing_writer = true })

-- The checks that a writer and a reader share, and the map of the blocks.
unfoldable pub check_structure : Allocator → Identification → Pad (Unit {0})
check_structure al reference = do
  check_header
  map_entries_blocks al
  check_spejcifiques
  check_identification al reference

unfoldable pub is_legacy : Layout → ℕ → Bool
is_legacy l size = not (l.legacy_data_entry_size == 0) && (size == l.legacy_data_entry_size)

unfoldable pub open_existing : Allocator → Layout → Pad (Unit {0})
open_existing al l = do
  on_file (go_to 0)
  on_file (read_new al taille_entete_fixe)
  entry_size ← on_file (on_in_buffer get_int1)
  set_data_entry_size entry_size
  when_true (is_legacy l entry_size) nind_pad_file
  when_true (not (entry_size == l.data_entry_size)) nind_pad_file
  specifics ← on_file (on_in_buffer get_int3)
  set_specifics_size specifics
  when_true (not (specifics == l.specifics_size)) nind_pad_file
  check_structure al l.reference_identification
  set_existing_writer

-- A reader takes the sizes of the file, and both layouts.
unfoldable pub open_reader : Allocator → Layout → Pad (Unit {0})
open_reader al l = do
  on_file (go_to 0)
  on_file (read_new al taille_entete_fixe)
  entry_size ← on_file (on_in_buffer get_int1)
  set_data_entry_size entry_size
  specifics ← on_file (on_in_buffer get_int3)
  set_specifics_size specifics
  (if is_legacy l entry_size
      then set_next_block_addr_size 5
      else when_true (not (entry_size == l.data_entry_size) && not (l.legacy_data_entry_size == 0))
          nind_pad_file)
  check_structure al l.reference_identification

unfoldable pub create_file : Allocator → Layout → Pad (Unit {0})
create_file al l = do
  on_file (create_new al taille_entete_fixe)
  on_file (on_write_buffer (put_int1 l.data_entry_size))
  on_file (on_write_buffer (put_int3 l.specifics_size))
  on_file (write_buffer 0 0)
  on_file (
      write_value al.granted 0
        (l.specifics_size + taille_entete_spejcifique + taille_identification))
  add_entries_block al l.reference_identification

-- The result of an operation as that of a constructor: the object, or the exception.
unfoldable pub constructed : Result (Unit {0}) × PadFile → Result PadFile
constructed (ok _, s) = ok s
constructed (err e, s) = err e

unfoldable pub new_writer : Allocator → Layout → Bool → Option File → Result PadFile
new_writer al l locked created =
    if l.data_entry_size == 0
    then err nind_pad_file
    else if l.data_entries_bloc_size == 0
    then err nind_pad_file
    else elim created [
      | none ↦ err open_file
      | some f ↦
          if locked then constructed (create_file al l (initial l true f)) else err nind_pad_file
    ]

unfoldable pub new_pad_file :
    Allocator → Layout → Bool → Bool → Option File → Option File → Result PadFile
new_pad_file al l true locked (some f) created =
    if locked then constructed (open_existing al l (initial l true f)) else err nind_pad_file
new_pad_file al l true locked none created = new_writer al l locked created
new_pad_file al l false locked (some f) created = constructed (open_reader al l (initial l false f))
new_pad_file al l false locked none created = err open_file
