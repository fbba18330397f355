-- ===== src/Codec/Fixed.antt =====
-- Round trips of the fixed-width integers.
use nind.Prelude.{ℕ, ◌+◌, ◌*◌, ◌/◌, ◌^◌, ◌%◌, ◌<◌, ◌≡◌, [], ◌∷◌, arith, bit_or}
use nind.Prelude.Bits.{or_fields}
use nind.Bytes.Values.{be2-value, le3-value, le4-value, be4-value}
use nind.ReadBuffer.{
  Read, get_int1, get_int2, get_int3, get_int4, get_int5, get_int6, get_int8, shl64_32,
}
use nind.ReadBuffer.Ahead.{need-Ahead, next-Ahead}
use nind.WriteBuffer.{
  WriteBuffer, Write, put_int1, put_int2, put_int3, put_int4, put_int5, put_int6, put_int8,
}
use nind.WriteBuffer.Written.{HasRoom}
use nind.WriteBuffer.Fixed.{
  digit, be, le3_bytes, le4_bytes, put_int1-written, put_int2-written, put_int3-written,
  put_int4-written, put_int5-written, put_int6-written, put_int8-written,
}
use nind.Codec.Defs.{ReadsBack}
use nind.Codec.Reread.{Decodes, reads_back}

-- Two halves of a `uint64_t`.
or_halves : (x y : ℕ) → x < 2 ^ 32 → y < 2 ^ 32 → bit_or (shl64_32 x) y ≡ x * 2 ^ 32 + y
or_halves x y hx hy = ground (arith, or_fields 32 x y)

module _ (v : ℕ) where
  pub get_int1-Decodes : Decodes get_int1 (v ∷ []) v
  unfolding get_int1
  get_int1-Decodes r a = rw (need-Ahead r (v ∷ []) a 1 (omega arith), next-Ahead r (v ∷ []) [] a)

  get_int2-Decodes : v < 2 ^ 16 → Decodes get_int2 (be 2 v) v
  unfolding get_int2
  get_int2-Decodes h r a = ground (
    arith,
    need-Ahead r (be 2 v) a 2,
    next-Ahead r (be 2 v) [] a,
    be2-value (digit v 8) (digit v 0) [],
  )

  pub get_int3-Decodes : v < 2 ^ 24 → Decodes get_int3 (le3_bytes v) v
  unfolding get_int3
  get_int3-Decodes h r a = ground (
    arith,
    need-Ahead r (le3_bytes v) a 3,
    next-Ahead r (le3_bytes v) [] a,
    le3-value (digit v 0) (digit v 8) (digit v 16) [],
  )

  pub get_int4-Decodes : v < 2 ^ 32 → Decodes get_int4 (le4_bytes v) v
  unfolding get_int4
  get_int4-Decodes h r a = ground (
    arith,
    need-Ahead r (le4_bytes v) a 4,
    next-Ahead r (le4_bytes v) [] a,
    le4-value (digit v 0) (digit v 8) (digit v 16) (digit v 24) [],
  )

  get_int5-Decodes : v < 2 ^ 40 → Decodes get_int5 (be 5 v) v
  unfolding get_int5
  get_int5-Decodes h r a = ground (
    arith,
    need-Ahead r (be 5 v) a 5,
    next-Ahead r (be 5 v) [] a,
    be4-value (digit v 24) (digit v 16) (digit v 8) (digit v 0) [],
    or_halves (digit v 32) (v % 2 ^ 32),
  )

  get_int6-Decodes : v < 2 ^ 48 → Decodes get_int6 (be 6 v) v
  unfolding get_int6
  get_int6-Decodes h r a = ground (
    arith,
    need-Ahead r (be 6 v) a 6,
    next-Ahead r (be 6 v) [] a,
    be2-value (digit v 40) (digit v 32) (be 4 v),
    be4-value (digit v 24) (digit v 16) (digit v 8) (digit v 0) [],
    or_halves (v / 2 ^ 32) (v % 2 ^ 32),
  )

  pub get_int8-Decodes : v < 2 ^ 64 → Decodes get_int8 (be 8 v) v
  unfolding get_int8
  get_int8-Decodes h r a = ground (
    arith,
    need-Ahead r (be 8 v) a 8,
    next-Ahead r (be 8 v) [] a,
    be4-value (digit v 56) (digit v 48) (digit v 40) (digit v 32) (be 4 v),
    be4-value (digit v 24) (digit v 16) (digit v 8) (digit v 0) [],
    or_halves (v / 2 ^ 32) (v % 2 ^ 32),
  )

-- The widths of the format, each with its encoder and decoder.
pub data Width : Type 0 where
  one two three four five six eight : Width

abbrev pub size : Width → ℕ
size one = 1
size two = 2
size three = 3
size four = 4
size five = 5
size six = 6
size eight = 8

abbrev pub put_fixed : Width → ℕ → Write
put_fixed one = put_int1
put_fixed two = put_int2
put_fixed three = put_int3
put_fixed four = put_int4
put_fixed five = put_int5
put_fixed six = put_int6
put_fixed eight = put_int8

abbrev pub get_fixed : Width → Read ℕ
get_fixed one = get_int1
get_fixed two = get_int2
get_fixed three = get_int3
get_fixed four = get_int4
get_fixed five = get_int5
get_fixed six = get_int6
get_fixed eight = get_int8

-- At every width, a number that fits is read back from a buffer with room for it.
pub get_fixed-put :
    (k : Width) (v : ℕ) (w : WriteBuffer)
    → v < 2 ^ (8 * size k)
    → HasRoom w (size k)
    → ReadsBack (put_fixed k v) (get_fixed k) v w
get_fixed-put one v w h room =
    reads_back (put_int1 v) get_int1 v w (v ∷ []) room (put_int1-written v w room h)
      (get_int1-Decodes v)
get_fixed-put two v w h room =
    reads_back (put_int2 v) get_int2 v w (be 2 v) room (put_int2-written v w room)
      (get_int2-Decodes v h)
get_fixed-put three v w h room =
    reads_back (put_int3 v) get_int3 v w (le3_bytes v) room (put_int3-written v w room h)
      (get_int3-Decodes v h)
get_fixed-put four v w h room =
    reads_back (put_int4 v) get_int4 v w (le4_bytes v) room (put_int4-written v w room h)
      (get_int4-Decodes v h)
get_fixed-put five v w h room =
    reads_back (put_int5 v) get_int5 v w (be 5 v) room (put_int5-written v w room h)
      (get_int5-Decodes v h)
get_fixed-put six v w h room =
    reads_back (put_int6 v) get_int6 v w (be 6 v) room (put_int6-written v w room h)
      (get_int6-Decodes v h)
get_fixed-put eight v w h room =
    reads_back (put_int8 v) get_int8 v w (be 8 v) room (put_int8-written v w room)
      (get_int8-Decodes v h)
