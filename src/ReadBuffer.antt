-- ===== src/ReadBuffer.antt =====
-- src/cpp/NindBasics/NindReadBuffer.{h,cpp}: the read buffer and its decoders.
-- `bytes` is [m_buffer, m_absEnd), `end` and `ptr` are the offsets of m_end and m_ptr from
-- m_buffer, `capacity` is m_capacity. A test `m_end - m_ptr < n` is on signed differences and reads
-- `end < ptr + n`. An access outside `bytes` is `undefined`.
pub mod Ahead
pub mod Decode
pub mod Safety
pub mod Signed
use nind.Prelude.{
  ℕ, ◌+◌, ◌-◌, ◌*◌, ◌^◌, ◌%◌, bit_and, bit_or, List, [], length, take, drop, Bool, ltb, leb, ◌==◌,
  if◌then◌else◌, not,
}
use nind.Prelude.Exec.{
  Exec, ok, err, pure, throw, when_true, out_read_buffer, bad_alloc, undefined, ◌>>=◌, ◌>>◌,
}
use nind.Prelude.Int.{ℤ}
use nind.Bytes.{byte, be2, be4, le3, le4, lat_bits, sign_extend}

pub record ReadBuffer : Type 0 where
  pub bytes : List ℕ
  pub end : ℕ
  pub ptr : ℕ
  pub capacity : ℕ

abbrev pub max_kept_capacity : ℕ
max_kept_capacity = 2 ^ 20

abbrev pub Read : Type 0 → Type 0
Read A = Exec ReadBuffer A

-- `if (m_end - m_ptr < n) throw OutReadBufferException`
unfoldable pub need : ℕ → Read (Unit {0})
need n r = when_true (ltb r.end (r.ptr + n)) out_read_buffer r

-- `m_ptr += n`
unfoldable pub advance : ℕ → Read (Unit {0})
advance n r = (ok tt, record r { ptr = r.ptr + n })

-- The `n` bytes that begin at m_ptr.
unfoldable pub peek : ℕ → Read (List ℕ)
peek n r =
    if leb (r.ptr + n) (length r.bytes)
    then (ok (take n (drop r.ptr r.bytes)), r)
    else (err undefined, r)

-- `m_ptr += n`, and the `n` bytes that end there.
unfoldable pub next : ℕ → Read (List ℕ)
next n = do b ← peek n; advance n; pure b

unfoldable pub clear : Read (Unit {0})
clear r = (ok tt, record r { bytes = []; end = 0; ptr = 0 })

-- A buffer of `length fresh` bytes: `fresh` is what they hold before they are written, and
-- `granted` says whether the allocator has the room.
unfoldable pub prepare : Bool → List ℕ → Read (Unit {0})
prepare granted fresh r =
    if not (ltb r.capacity (length fresh))
    then (ok tt, record r { bytes = fresh; end = length fresh; ptr = 0 })
    else if granted
    then (ok tt, record { bytes = fresh; end = length fresh; ptr = 0; capacity = length fresh })
    else (err bad_alloc, record { bytes = []; end = 0; ptr = 0; capacity = 0 })

unfoldable pub shrink : Read (Unit {0})
shrink r =
    if leb r.capacity max_kept_capacity
    then (ok tt, r)
    else (ok tt, record { bytes = []; end = 0; ptr = 0; capacity = 0 })

-- `(size_t)(m_absEnd - m_ptr)` and the like: a difference cast to 64 bits without sign.
abbrev pub diff64 : ℕ → ℕ → ℕ
diff64 a b = (a + 2 ^ 64 - b) % 2 ^ 64

unfoldable pub set_end_in_buffer : ℕ → Read (Unit {0})
set_end_in_buffer bytes_nb r =
    if ltb (diff64 (length r.bytes) r.ptr) bytes_nb
    then (err out_read_buffer, r)
    else (ok tt, record r { end = r.ptr + bytes_nb })

unfoldable pub set_abs_end_in_buffer : ℕ → Read (Unit {0})
set_abs_end_in_buffer bytes_nb r =
    if ltb (length r.bytes) bytes_nb
    then (err out_read_buffer, r)
    else (ok tt, record r { end = bytes_nb })

unfoldable pub end_of_in_buffer : ReadBuffer → Bool
end_of_in_buffer r = leb r.end r.ptr

unfoldable pub set_in_buffer_ptr : ℕ → Read (Unit {0})
set_in_buffer_ptr offset r =
    if ltb (length r.bytes) offset
    then (err out_read_buffer, r)
    else (ok tt, record r { ptr = offset })

unfoldable pub set_rel_in_buffer_ptr : ℕ → Read (Unit {0})
set_rel_in_buffer_ptr offset r =
    if ltb (diff64 (length r.bytes) r.ptr) offset
    then (err out_read_buffer, r)
    else (ok tt, record r { ptr = r.ptr + offset })

unfoldable pub get_int1 : Read ℕ
get_int1 = do need 1; b ← next 1; pure (byte b 0)

unfoldable pub get_int2 : Read ℕ
get_int2 = do need 2; b ← next 2; pure (be2 b)

unfoldable pub get_int3 : Read ℕ
get_int3 = do need 3; b ← next 3; pure (le3 b)

unfoldable pub get_s_int3 : Read ℤ
get_s_int3 = do need 3; b ← next 3; pure (sign_extend (le3 b) 24)

unfoldable pub get_int4 : Read ℕ
get_int4 = do need 4; b ← next 4; pure (le4 b)

unfoldable pub get_s_int4 : Read ℤ
get_s_int4 = do need 4; b ← next 4; pure (sign_extend (le4 b) 32)

-- `x << 32` on a `uint64_t`
abbrev pub shl64_32 : ℕ → ℕ
shl64_32 x = x * 2 ^ 32 % 2 ^ 64

unfoldable pub get_int5 : Read ℕ
get_int5 = do need 5; b ← next 5; pure (bit_or (shl64_32 (byte b 0)) (be4 (drop 1 b)))

unfoldable pub get_int6 : Read ℕ
get_int6 = do need 6; b ← next 6; pure (bit_or (shl64_32 (be2 b)) (be4 (drop 2 b)))

unfoldable pub get_int8 : Read ℕ
get_int8 = do need 8; b ← next 8; pure (bit_or (shl64_32 (be4 b)) (be4 (drop 4 b)))

-- `!(bytes[0] & mask)`
abbrev pub is_clear : List ℕ → ℕ → Bool
is_clear b mask = bit_and (byte b 0) mask == 0

-- The first byte says how many follow; each length has its own check of what is available.
unfoldable pub get_u_int_lat : Read ℕ
get_u_int_lat = do
  need 1
  b ← peek 1
  if is_clear b 0x80 then (do advance 1; pure (lat_bits b 1)) else do
    need 2
    b ← peek 2
    if is_clear b 0x40 then (do advance 2; pure (lat_bits b 2)) else do
      need 3
      b ← peek 3
      if is_clear b 0x20 then (do advance 3; pure (lat_bits b 3)) else do
        need 4
        b ← peek 4
        if is_clear b 0x10 then (do advance 4; pure (lat_bits b 4)) else do
          need 5
          if not (is_clear b 0x08)
              then throw out_read_buffer
              else do b ← peek 5; advance 5; pure (lat_bits b 5)

unfoldable pub get_s_int_lat : Read ℤ
get_s_int_lat = do
  need 1
  b ← peek 1
  if is_clear b 0x80 then (do advance 1; pure (sign_extend (lat_bits b 1) 7)) else do
    need 2
    b ← peek 2
    if is_clear b 0x40 then (do advance 2; pure (sign_extend (lat_bits b 2) 14)) else do
      need 3
      b ← peek 3
      if is_clear b 0x20 then (do advance 3; pure (sign_extend (lat_bits b 3) 21)) else do
        need 4
        b ← peek 4
        if is_clear b 0x10 then (do advance 4; pure (sign_extend (lat_bits b 4) 28)) else do
          need 5
          if not (is_clear b 0x08)
              then throw out_read_buffer
              else do b ← peek 5; advance 5; pure (sign_extend (lat_bits b 5) 32)

unfoldable pub get_u_int_lat64 : Read ℕ
get_u_int_lat64 = do
  need 1
  b ← peek 1
  if not (byte b 0 == 0xF8) then get_u_int_lat else do
    advance 1
    value ← get_int8
    if leb value 0xFFFFFFFF then throw out_read_buffer else pure value

-- The length is read before the check of the characters: it stays read when that check throws.
unfoldable pub get_string : Read (List ℕ)
get_string = do need 1; b ← next 1; need (byte b 0); next (byte b 0)

-- `length` is an `unsigned char`.
unfoldable pub get_string_as_bytes : ℕ → Read (List ℕ)
get_string_as_bytes len = do need len; next len

-- The difference is cast to `uint64_t` before the test.
unfoldable pub get_bytes : ℕ → Read (List ℕ)
get_bytes bytes_nb r =
    if ltb (diff64 r.end r.ptr) bytes_nb then (err out_read_buffer, r) else next bytes_nb r
