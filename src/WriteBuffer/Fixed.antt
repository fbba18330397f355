-- ===== src/WriteBuffer/Fixed.antt =====
-- The fixed-width integers that the encoders put: little-endian for three and four bytes,
-- big-endian for the others.
use nind.Prelude.{ℕ, zero, suc, ◌+◌, ◌*◌, ◌/◌, ◌^◌, ◌%◌, ◌<◌, ◌≡◌, List, [], ◌∷◌, arith}
use nind.Prelude.Exec.{ok}
use nind.WriteBuffer.{
  WriteBuffer, move, octet, big_endian, put_int1, put_int2, put_int3, put_int4, put_int5, put_int6,
  put_int8,
}
use nind.WriteBuffer.Written.{HasRoom, written, room_ok, store_behind, octet_value}

-- The octet of `v` from bit `k` on.
abbrev pub digit : ℕ → ℕ → ℕ
digit v k = v / 2 ^ k % 256

abbrev pub be : ℕ → ℕ → List ℕ
be zero v = []
be (suc i) v = digit v (8 * i) ∷ be i v

abbrev pub le3_bytes : ℕ → List ℕ
le3_bytes v = digit v 0 ∷ digit v 8 ∷ digit v 16 ∷ []

abbrev pub le4_bytes : ℕ → List ℕ
le4_bytes v = digit v 0 ∷ digit v 8 ∷ digit v 16 ∷ digit v 24 ∷ []

module _ (v : ℕ) (w : WriteBuffer) where
  pub put_int1-written : HasRoom w 1 → v < 256 → put_int1 v w ≡ (ok tt, written w (v ∷ []))
  unfolding put_int1 move
  put_int1-written h fits = ground (arith, room_ok 1 w, store_behind w (v ∷ []) (w.ptr + 1))

  pub put_int2-written : HasRoom w 2 → put_int2 v w ≡ (ok tt, written w (be 2 v))
  unfolding put_int2 move
  put_int2-written h = ground (
    arith,
    room_ok 2 w,
    octet_value v 0,
    octet_value v 8,
    store_behind w (octet v 8 ∷ octet v 0 ∷ []) (w.ptr + 2),
  )

  pub put_int3-written : HasRoom w 3 → v < 2 ^ 24 → put_int3 v w ≡ (ok tt, written w (le3_bytes v))
  unfolding put_int3 move
  put_int3-written h fits = ground (
    arith,
    room_ok 3 w,
    octet_value v 0,
    octet_value v 8,
    octet_value v 16,
    store_behind w (octet v 0 ∷ octet v 8 ∷ octet v 16 ∷ []) (w.ptr + 3),
  )

  pub put_int4-written : HasRoom w 4 → v < 2 ^ 32 → put_int4 v w ≡ (ok tt, written w (le4_bytes v))
  unfolding put_int4 move
  put_int4-written h fits = ground (
    arith,
    room_ok 4 w,
    octet_value v 0,
    octet_value v 8,
    octet_value v 16,
    octet_value v 24,
    store_behind w (octet v 0 ∷ octet v 8 ∷ octet v 16 ∷ octet v 24 ∷ []) (w.ptr + 4),
  )

  pub put_int5-written : HasRoom w 5 → v < 2 ^ 40 → put_int5 v w ≡ (ok tt, written w (be 5 v))
  unfolding put_int5 move
  put_int5-written h fits = ground (
    arith,
    room_ok 5 w,
    octet_value v 0,
    octet_value v 8,
    octet_value v 16,
    octet_value v 24,
    octet_value v 32,
    store_behind w (big_endian 5 v) (w.ptr + 5),
  )

  pub put_int6-written : HasRoom w 6 → v < 2 ^ 48 → put_int6 v w ≡ (ok tt, written w (be 6 v))
  unfolding put_int6 move
  put_int6-written h fits = ground (
    arith,
    room_ok 6 w,
    octet_value v 0,
    octet_value v 8,
    octet_value v 16,
    octet_value v 24,
    octet_value v 32,
    octet_value v 40,
    store_behind w (big_endian 6 v) (w.ptr + 6),
  )

  pub put_int8-written : HasRoom w 8 → put_int8 v w ≡ (ok tt, written w (be 8 v))
  unfolding put_int8 move
  put_int8-written h = ground (
    arith,
    room_ok 8 w,
    octet_value v 0,
    octet_value v 8,
    octet_value v 16,
    octet_value v 24,
    octet_value v 32,
    octet_value v 40,
    octet_value v 48,
    octet_value v 56,
    store_behind w (big_endian 8 v) (w.ptr + 8),
  )
