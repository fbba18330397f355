-- ===== src/Tests/File.antt =====
-- A small file, written and read.
use nind.Prelude.{◌≡◌, ◌≢◌, refl, [], ◌∷◌, true, false, arith}
use nind.Prelude.Exec.{ok, err, write_file}
use nind.Prelude.Int.{negsuc}
use nind.File.{
  File, seek_end, write_buffer, fwrite, accepted, overwrite, read_buffer, read_u_int_lat,
  read_bytes, fread, set_pos, displaced, base, read_string,
}
use nind.Bytes.{lat_bits}
use nind.File.Leaves.{IsMeasured, IsWithin}
use nind.File.Sizes.{write, run, run-IsMeasured}
use nind.File.ReadIn.{Holds}
use nind.File.Reread.{written_back, read_buffer-write_buffer}

abbrev file : File
file = record {
  content = 0x83 ∷ 0xE8 ∷ 0x02 ∷ 0x61 ∷ 0x62 ∷ [];
  position = 0;
  fails = false;
  left = 0;
  file_size = 5;
  is_bulk = false;
  in_buffer = record { bytes = []; end = 0; ptr = 0; capacity = 0 };
  out_buffer = record { bytes = 1 ∷ 2 ∷ 3 ∷ 0 ∷ []; ptr = 3 };
}

file-IsWithin : IsWithin file
unfolding IsWithin
file-IsWithin = omega arith

-- The two bytes of 1000, then a string of two characters.
read_lat : (read_u_int_lat file).0 ≡ ok 1000
unfolding read_u_int_lat read_bytes fread lat_bits
read_lat = refl

read_ab : (read_string (read_u_int_lat file).1).0 ≡ ok (0x61 ∷ 0x62 ∷ [])
unfolding read_u_int_lat read_string read_bytes fread lat_bits
read_ab = refl

-- `setPos` answers false where it moves, as `fseek` answers 0.
two_from_end : set_pos (negsuc 1) seek_end file ≡ (false, record file { position = 3 })
unfolding set_pos displaced base
two_from_end = refl

run-IsMeasured_example :
    IsWithin (run (write 0 0) file).1
    × ((run (write 0 0) file).0 ≢ err write_file
        → IsMeasured file
        → IsMeasured (run (write 0 0) file).1)
run-IsMeasured_example = run-IsMeasured (write 0 0) file file-IsWithin (omega arith)

-- A device with room for one byte more: the byte is in the file, and not in its remembered size.
abbrev nearly_full : File
nearly_full = record file { position = 5; fails = true; left = 1 }

cut_short : write_buffer 0 0 nearly_full ≡ (
  err write_file,
  record nearly_full {
    content = 0x83 ∷ 0xE8 ∷ 0x02 ∷ 0x61 ∷ 0x62 ∷ 1 ∷ [];
    position = 6;
    left = 0;
    out_buffer = record { bytes = 1 ∷ 2 ∷ 3 ∷ 0 ∷ []; ptr = 0 };
  },
)
unfolding write_buffer fwrite accepted overwrite
cut_short = refl

read_buffer-write_buffer_example :
    ((write_buffer 0 0 file).0 ≡ ok tt)
    × ((read_buffer true (0 ∷ 0 ∷ 0 ∷ []) (written_back file)).0 ≡ ok tt)
    × Holds (read_buffer true (0 ∷ 0 ∷ 0 ∷ []) (written_back file)).1.in_buffer (1 ∷ 2 ∷ 3 ∷ [])
read_buffer-write_buffer_example =
    read_buffer-write_buffer file (0 ∷ 0 ∷ 0 ∷ []) refl (omega arith) (omega arith) refl
