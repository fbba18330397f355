-- ===== src/File.antt =====
-- src/cpp/NindBasics/NindFile.{h,cpp}: the open file and the two buffers.
-- `content` and `position` are those of the stdio stream. `fails` is a device that refuses reads and
-- takes only `left` more bytes: `fread` then moves no byte, and a write that is longer is cut short,
-- its first bytes in the file. What is written is in the file at once. The
-- buffers are those of ReadBuffer and WriteBuffer. Sizes and positions of files are `long int`,
-- below 2 ^ 63, and are not cut here.
pub mod Leaves
pub mod Sizes
pub mod ReadIn
pub mod Reread
pub mod Content
pub mod Moves
pub mod Puts
use nind.Prelude.{
  ℕ, zero, suc, ◌+◌, ◌-◌, ◌*◌, ◌^◌, bit_and, max, List, [], ◌∷◌, ◌++◌, length, take, drop, splice,
  replicate, ◌||◌, get_or, Bool, true, false, not, Option, none, some, ltb, leb, ◌==◌,
  if◌then◌else◌,
}
use nind.Prelude.Exec.{
  Exec, Result, ok, err, Error, pure, throw, when_true, eof, read_file, write_file, format_file,
  out_write_buffer, bad_alloc, ◌>>=◌, ◌>>◌,
}
use nind.Prelude.Int.{ℤ, pos, negsuc}
use nind.Bytes.{byte, le3, lat_bits, sign_extend}
use nind.ReadBuffer.{ReadBuffer, clear, prepare, is_clear}
use nind.WriteBuffer.{WriteBuffer}

pub record File : Type 0 where
  pub content : List ℕ
  pub position : ℕ
  pub fails : Bool
  pub left : ℕ
  pub file_size : ℕ
  pub is_bulk : Bool
  pub in_buffer : ReadBuffer
  pub out_buffer : WriteBuffer

abbrev pub Io : Type 0 → Type 0
Io A = Exec File A

-- `fread`: the bytes that there are, at most `n`.
unfoldable pub fread : ℕ → File → List ℕ × File
fread n f =
    let bytes = take n (drop f.position f.content) in
    if f.fails then ([], f) else (bytes, record f { position = f.position + length bytes })

-- A write at a position past the end leaves zeros before it.
unfoldable pub overwrite : List ℕ → ℕ → List ℕ → List ℕ
overwrite content at new =
    take at (content ++ replicate (at - length content) 0)
    ++ (new ++ drop (at + length new) content)

-- What the device takes of the bytes.
unfoldable pub accepted : List ℕ → File → List ℕ
accepted new f = if f.fails then take f.left new else new

-- `fwrite`: how many bytes were written.
unfoldable pub fwrite : List ℕ → File → ℕ × File
fwrite new f =
    let bytes = accepted new f in
    if length bytes == 0 then (0, f) else (
      length bytes,
      record f {
        content = overwrite f.content f.position bytes;
        position = f.position + length bytes;
        left = if f.fails then f.left - length bytes else f.left;
      },
    )

pub data Origin : Type 0 where
  seek_set seek_cur seek_end : Origin

unfoldable pub base : Origin → File → ℕ
base seek_set f = 0
base seek_cur f = f.position
base seek_end f = length f.content

-- `none` is a position before the head of the file.
unfoldable pub displaced : ℕ → ℤ → Option ℕ
displaced from (pos n) = some (from + n)
displaced from (negsuc n) = if leb (suc n) from then some (from - suc n) else none

-- `fseek` as a `bool`: whether its result is not 0.
unfoldable pub set_pos : ℤ → Origin → File → Bool × File
set_pos offset origin f = elim (displaced (base origin f) offset) [
  | none ↦ (true, f)
  | some target ↦ (false, record f { position = target })
]

-- `if (readSize != bytesNb)`: an end of file is told from an error by `feof`.
unfoldable pub read_bytes : ℕ → Io (List ℕ)
read_bytes n f =
    let (bytes, f') = fread n f in
    if length bytes == n
    then (ok bytes, f')
    else if f.fails
    then (err read_file, f')
    else (err eof, f')

unfoldable pub read_int1 : Io ℕ
read_int1 = do b ← read_bytes 1; pure (byte b 0)

unfoldable pub read_int3 : Io ℕ
read_int3 = do b ← read_bytes 3; pure (le3 b)

-- One byte at a time, as the first one says how many there are.
unfoldable pub read_u_int_lat : Io ℕ
read_u_int_lat = do
  b1 ← read_bytes 1
  if is_clear b1 0x80 then pure (lat_bits b1 1) else do
    b2 ← read_bytes 1
    if is_clear b1 0x40 then pure (lat_bits (b1 ++ b2) 2) else do
      b3 ← read_bytes 1
      if is_clear b1 0x20 then pure (lat_bits (b1 ++ b2 ++ b3) 3) else do
        b4 ← read_bytes 1
        if is_clear b1 0x10 then pure (lat_bits (b1 ++ b2 ++ b3 ++ b4) 4) else do
          b5 ← read_bytes 1
          if not (is_clear b1 0x08)
              then throw format_file
              else pure (lat_bits (b1 ++ b2 ++ b3 ++ b4 ++ b5) 5)

unfoldable pub read_s_int_lat : Io ℤ
read_s_int_lat = do
  b1 ← read_bytes 1
  if is_clear b1 0x80 then pure (sign_extend (lat_bits b1 1) 7) else do
    b2 ← read_bytes 1
    if is_clear b1 0x40 then pure (sign_extend (lat_bits (b1 ++ b2) 2) 14) else do
      b3 ← read_bytes 1
      if is_clear b1 0x20 then pure (sign_extend (lat_bits (b1 ++ b2 ++ b3) 3) 21) else do
        b4 ← read_bytes 1
        if is_clear b1 0x10 then pure (sign_extend (lat_bits (b1 ++ b2 ++ b3 ++ b4) 4) 28) else do
          b5 ← read_bytes 1
          if not (is_clear b1 0x08)
              then throw format_file
              else pure (sign_extend (lat_bits (b1 ++ b2 ++ b3 ++ b4 ++ b5) 5) 32)

unfoldable pub read_string : Io (List ℕ)
read_string = do b ← read_bytes 1; read_bytes (byte b 0)

-- An operation on the read buffer.
unfoldable pub on_in_buffer : {A : Type 0} → Exec ReadBuffer A → Io A
on_in_buffer m f = let (r, b) = m f.in_buffer in (r, record f { in_buffer = b })

-- The bytes of the read buffer are replaced.
abbrev pub with_bytes : List ℕ → File → File
with_bytes bytes f = record f { in_buffer = record (f.in_buffer) { bytes = bytes } }

-- `readBytes` into the read buffer: those that there are, also where they are too few.
unfoldable pub read_into : List ℕ → Io (Unit {0})
read_into fresh f =
    let (bytes, f') = fread (length fresh) f in
    let f'' = with_bytes (splice fresh 0 bytes) f' in
    if length bytes == length fresh
    then (ok tt, f'')
    else if f.fails
    then (err read_file, f'')
    else (err eof, f'')

-- READ_SIZE_CHECK_THRESHOLD
abbrev pub read_size_check_threshold : ℕ
read_size_check_threshold = 65536

-- `granted` and `fresh` are those of the allocation of the read buffer. A length over the threshold
-- is compared with the size of the file before anything is allocated.
unfoldable pub read_buffer : Bool → List ℕ → Io (Unit {0})
read_buffer granted fresh f =
    let bytes_nb = length fresh in
    (do
      on_in_buffer clear
      when_true
          (if ltb read_size_check_threshold bytes_nb
            then ltb (length f.content) (f.position + bytes_nb)
            else false)
          eof
      on_in_buffer (prepare granted fresh)
      read_into fresh)
      f

-- The new buffer holds the bytes that are copied into it.
unfoldable pub load_in_buffer : Bool → List ℕ → Io (Unit {0})
load_in_buffer granted bytes = do on_in_buffer clear; on_in_buffer (prepare granted bytes)

-- `if (m_isBulk) return; fflush(m_file); if (current > m_fileSize) m_fileSize = current`
unfoldable pub remember_size : Io (Unit {0})
remember_size f =
    if f.is_bulk
    then (ok tt, f)
    else if ltb f.file_size f.position
    then (ok tt, record f { file_size = f.position })
    else (ok tt, f)

-- `len` is 0 for all that was put. m_wPtr returns to the head also when the write fails.
unfoldable pub write_buffer : ℕ → ℕ → Io (Unit {0})
write_buffer start len f =
    let w = f.out_buffer in
    let size = if len == 0 then w.ptr else len in
    let (written, f') = fwrite (take size (drop start w.bytes)) f in
    let f'' = record f' { out_buffer = record w { ptr = 0 } } in
    if ltb (length w.bytes) (start + size)
    then (err out_write_buffer, f)
    else if written == size
    then remember_size f''
    else (err write_file, f'')

unfoldable pub write_value : Bool → ℕ → ℕ → Io (Unit {0})
write_value granted value count f =
    let (written, f') = fwrite (replicate count value) f in
    if not granted
    then (err bad_alloc, f)
    else if written == count
    then remember_size f'
    else (err write_file, f')

abbrev pub bool_eq : Bool → Bool → Bool
bool_eq true b = b
bool_eq false b = not b

-- Leaving bulk mode measures the file again, and comes back to its position. `seeks` is whether the
-- stream can be moved to the end of the file; the mode has been left where it cannot.
unfoldable pub set_bulk : Bool → Bool → Io (Unit {0})
set_bulk seeks bulk f =
    if bool_eq bulk f.is_bulk
    then (ok tt, f)
    else if f.fails
    then (err write_file, f)
    else if bulk
    then (ok tt, record f { is_bulk = true })
    else if not seeks
    then (err write_file, record f { is_bulk = false })
    else (ok tt, record f { is_bulk = false; file_size = length f.content })

unfoldable pub set_out_buffer_ptr : ℕ → Io (Unit {0})
set_out_buffer_ptr offset f =
    (ok tt, record f { out_buffer = record (f.out_buffer) { ptr = offset } })
