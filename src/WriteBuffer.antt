-- ===== src/WriteBuffer.antt =====
-- src/cpp/NindBasics/NindFile.cpp: the write buffer and its encoders.
-- `bytes` is [m_wbuffer, m_wbufferEnd), which holds anything until it is written, and `ptr` is the
-- offset of m_wPtr. A `put` moves m_wPtr and then stores behind it: `store` is those stores, the
-- bytes in the order of their addresses, each cut to 8 bits.
pub mod Written
pub mod Fixed
pub mod Signed
use nind.Prelude.{
  ℕ, zero, suc, ◌+◌, ◌-◌, ◌*◌, ◌/◌, ◌^◌, ◌%◌, bit_and, bit_or, List, [], ◌∷◌, length, take, drop,
  map, splice, Bool, ltb, leb, if◌then◌else◌,
}
use nind.Prelude.Exec.{
  Exec, ok, err, throw, when_true, out_write_buffer, out_of_bound, bad_alloc, ◌>>◌,
}
use nind.Prelude.Int.{ℤ, pos, negsuc, pattern32, within}

pub record WriteBuffer : Type 0 where
  pub bytes : List ℕ
  pub ptr : ℕ

abbrev pub Write : Type 0
Write = Exec WriteBuffer (Unit {0})

-- `fresh` is what the new buffer holds, `granted` whether the allocator has the room.
unfoldable pub create_buffer : Bool → List ℕ → Write
create_buffer granted fresh w =
    if granted
    then (ok tt, record { bytes = fresh; ptr = 0 })
    else (err bad_alloc, record { bytes = []; ptr = 0 })

-- `if (m_wbufferEnd - m_wPtr < n) throw OutWriteBufferException`
unfoldable pub room : ℕ → Write
room n w = when_true (ltb (length w.bytes) (w.ptr + n)) out_write_buffer w

-- `m_wPtr += n`
unfoldable pub move : ℕ → Write
move n w = (ok tt, record w { ptr = w.ptr + n })

-- `if (value > limit) throw OutOfBoundException`
abbrev pub at_most : ℕ → ℕ → Write
at_most limit value = when_true (ltb limit value) out_of_bound

-- `(unsigned char)`
abbrev pub uchar : ℕ → ℕ
uchar x = x % 256

-- `(value >> k) & 0xFF`
abbrev pub octet : ℕ → ℕ → ℕ
octet value k = bit_and (value / 2 ^ k) 0xFF

-- Stores just behind m_wPtr.
unfoldable pub store : List ℕ → Write
store new w = (ok tt, record w { bytes = splice w.bytes (w.ptr - length new) (map uchar new) })

-- Stores at an offset from the head of the buffer.
unfoldable pub store_at : ℕ → List ℕ → Write
store_at offset new w = (ok tt, record w { bytes = splice w.bytes offset (map uchar new) })

unfoldable pub put_pad : ℕ → Write
put_pad bytes_nb = do room bytes_nb; move bytes_nb

unfoldable pub put_int1 : ℕ → Write
put_int1 value = do room 1; move 1; store (value ∷ [])

unfoldable pub put_int2 : ℕ → Write
put_int2 value = do room 2; move 2; store (octet value 8 ∷ octet value 0 ∷ [])

unfoldable pub put_int3 : ℕ → Write
put_int3 value = do
  at_most 0xFFFFFF value
  room 3
  move 3
  store (octet value 0 ∷ octet value 8 ∷ octet value 16 ∷ [])

-- The overloads that take an offset check it against the end of the buffer.
unfoldable pub put_int3_at : ℕ → ℕ → Write
put_int3_at value offset w =
    if ltb 0xFFFFFF value
    then throw out_of_bound w
    else if ltb (length w.bytes) (offset + 3)
    then throw out_write_buffer w
    else store_at offset (octet value 0 ∷ octet value 8 ∷ octet value 16 ∷ []) w

unfoldable pub put_int4 : ℕ → Write
put_int4 value = do
  at_most 0xFFFFFFFF value
  room 4
  move 4
  store (octet value 0 ∷ octet value 8 ∷ octet value 16 ∷ octet value 24 ∷ [])

unfoldable pub put_int4_at : ℕ → ℕ → Write
put_int4_at value offset w =
    if ltb 0xFFFFFFFF value
    then throw out_of_bound w
    else if ltb (length w.bytes) (offset + 4)
    then throw out_write_buffer w
    else store_at offset (octet value 0 ∷ octet value 8 ∷ octet value 16 ∷ octet value 24 ∷ []) w

unfoldable pub put_int5 : ℕ → Write
put_int5 value = do
  at_most 0xFFFFFFFFFF value
  room 5
  move 5
  store (octet value 32 ∷ octet value 24 ∷ octet value 16 ∷ octet value 8 ∷ octet value 0 ∷ [])

-- The loop `for (i = 1; i <= n; i++) m_wPtr[-i] = (value >> (8 * (i - 1))) & 0xFF`, as the bytes
-- that it leaves from m_wPtr - n on.
abbrev pub big_endian : ℕ → ℕ → List ℕ
big_endian zero value = []
big_endian (suc i) value = octet value (8 * i) ∷ big_endian i value

unfoldable pub put_int6 : ℕ → Write
put_int6 value = do at_most 0xFFFFFFFFFFFF value; room 6; move 6; store (big_endian 6 value)

unfoldable pub put_int8 : ℕ → Write
put_int8 value = do room 8; move 8; store (big_endian 8 value)

-- `(value >> k) | mark`
abbrev pub marked : ℕ → ℕ → ℕ → ℕ
marked value k mark = bit_or (value / 2 ^ k) mark

-- Each further byte is claimed before the test that decides whether it is the last one.
unfoldable pub put_u_int_lat : ℕ → Write
put_u_int_lat value = do
  at_most 0xFFFFFFFF value
  room 1
  move 1
  if ltb value 0x80 then store (value ∷ []) else do
    room 1
    move 1
    if ltb value 0x4000 then store (marked value 8 0x80 ∷ big_endian 1 value) else do
      room 1
      move 1
      if ltb value 0x200000 then store (marked value 16 0xC0 ∷ big_endian 2 value) else do
        room 1
        move 1
        if ltb value 0x10000000
            then store (marked value 24 0xE0 ∷ big_endian 3 value)
            else do room 1; move 1; store (0xF0 ∷ big_endian 4 value)

unfoldable pub put_u_int_lat64 : ℕ → Write
put_u_int_lat64 value =
    if leb value 0xFFFFFFFF then put_u_int_lat value else do put_int1 0xF8; put_int8 value

-- `int4 >> 31` on a `signed int` copies the sign into every bit.
unfoldable pub sign_word : ℤ → ℕ
sign_word (pos n) = 0
sign_word (negsuc n) = 0xFFFFFFFF

-- `((value >> k) & mask) | mark`
abbrev pub masked : ℕ → ℕ → ℕ → ℕ → ℕ
masked value k mask mark = bit_or (bit_and (value / 2 ^ k) mask) mark

-- The tests are on the signed value, the shifts and masks on its pattern: below bit 31 a
-- signed shift moves the bits that an unsigned one does.
unfoldable pub put_s_int_lat : ℤ → Write
put_s_int_lat value = do
  let p = pattern32 value
  room 1
  move 1
  if within value 0x40 then store (bit_and p 0x7F ∷ []) else do
    room 1
    move 1
    if within value 0x2000 then store (masked p 8 0x3F 0x80 ∷ big_endian 1 p) else do
      room 1
      move 1
      if within value 0x100000 then store (masked p 16 0x1F 0xC0 ∷ big_endian 2 p) else do
        room 1
        move 1
        if within value 0x8000000 then store (masked p 24 0x0F 0xE0 ∷ big_endian 3 p) else do
          room 1
          move 1
          store (bit_or (bit_and (sign_word value) 0x07) 0xF0 ∷ big_endian 4 p)

-- memcpy to m_wPtr, and `m_wPtr += n`.
unfoldable pub copy_in : List ℕ → Write
copy_in str w = (do store_at w.ptr str; move (length str)) w

unfoldable pub put_string : List ℕ → Write
put_string str = do
  when_true (ltb 254 (length str)) out_write_buffer
  room (length str + 1)
  move 1
  store (length str ∷ [])
  copy_in str

unfoldable pub put_string_as_bytes : List ℕ → Write
put_string_as_bytes str = do
  when_true (ltb 255 (length str)) out_write_buffer
  room (length str)
  copy_in str

unfoldable pub put_bytes : List ℕ → Write
put_bytes new = do room (length new); copy_in new

-- The bytes [position, position + len) of what has been put.
unfoldable pub copy_out_buffer : ℕ → ℕ → Exec WriteBuffer (List ℕ)
copy_out_buffer position len w =
    if ltb w.ptr (position + len)
    then throw out_write_buffer w
    else (ok (take len (drop position w.bytes)), w)
