-- ===== src/WriteBuffer/Written.antt =====
-- What the encoders leave in the write buffer, where there is room: the bytes of the format.
use nind.Prelude.{
  ap₂, ◌++◌, length-append, splice-splice, ℕ, ◌+◌, ◌/◌, ◌^◌, ◌%◌, ◌<◌, ◌≤◌, ◌≡◌, ap, List, [], ◌∷◌,
  length, map, splice, le→ltb, arith,
}
use nind.Prelude.Exec.{ok}
use nind.Prelude.Bits.{and_mask, mark2, mark3, mark4}
use nind.WriteBuffer.{WriteBuffer, room, move, store, uchar, octet, marked, put_u_int_lat}

abbrev pub HasRoom : WriteBuffer → ℕ → Type 0
HasRoom w n = w.ptr + n ≤ length w.bytes

-- The buffer with `new` put at its pointer.
abbrev pub written : WriteBuffer → List ℕ → WriteBuffer
written w new = record { bytes = splice w.bytes w.ptr new; ptr = w.ptr + length new }

-- One put after another.
pub written-written :
    (w : WriteBuffer) (front back : List ℕ)
    → HasRoom w (length front)
    → written (written w front) back ≡ written w (front ++ back)
written-written w front back h =
    ap₂ (λ (b : List ℕ) (p : ℕ). record { bytes = b; ptr = p })
      (splice-splice w.bytes w.ptr front back (omega arith))
      (omega (arith, length-append front back))

pub room_ok : (n : ℕ) (w : WriteBuffer) → HasRoom w n → room n w ≡ (ok tt, w)
unfolding room
room_ok n w h = rw (le→ltb (length w.bytes) (w.ptr + n) h)

pub store_behind :
    (w : WriteBuffer) (new : List ℕ) (p : ℕ)
    → p ≡ w.ptr + length new
    → store new (record w { ptr = p })
      ≡ (ok tt, record { bytes = splice w.bytes w.ptr (map uchar new); ptr = p })
unfolding store
store_behind w new p e =
    ap (λ (t : ℕ). (ok tt, record { bytes = splice w.bytes t (map uchar new); ptr = p }))
      (omega arith)

pub octet_value : (v k : ℕ) → octet v k ≡ v / 2 ^ k % 256
octet_value v k = and_mask 8 (v / 2 ^ k)

-- The encodings of the EntierULat of each length.
abbrev pub lat1 : ℕ → List ℕ
lat1 v = v ∷ []

abbrev pub lat2 : ℕ → List ℕ
lat2 v = (v / 256 + 128) ∷ v % 256 ∷ []

abbrev pub lat3 : ℕ → List ℕ
lat3 v = (v / 65536 + 192) ∷ v / 256 % 256 ∷ v % 256 ∷ []

abbrev pub lat4 : ℕ → List ℕ
lat4 v = (v / 16777216 + 224) ∷ v / 65536 % 256 ∷ v / 256 % 256 ∷ v % 256 ∷ []

abbrev pub lat5 : ℕ → List ℕ
lat5 v = 240 ∷ v / 16777216 % 256 ∷ v / 65536 % 256 ∷ v / 256 % 256 ∷ v % 256 ∷ []

module _ (v : ℕ) (w : WriteBuffer) where
  pub put_u_int_lat1 : HasRoom w 1 → v < 128 → put_u_int_lat v w ≡ (ok tt, written w (lat1 v))
  unfolding put_u_int_lat move
  put_u_int_lat1 h small = ground (arith, room_ok 1 w, store_behind w (v ∷ []) (w.ptr + 1))

  pub put_u_int_lat2 :
      HasRoom w 2 → 128 ≤ v → v < 16384 → put_u_int_lat v w ≡ (ok tt, written w (lat2 v))
  unfolding put_u_int_lat move
  put_u_int_lat2 h lo hi = ground (
    arith,
    room_ok 1 w,
    room_ok 1 (record w { ptr = w.ptr + 1 }),
    mark2 (v / 256),
    octet_value v 0,
    store_behind w (marked v 8 0x80 ∷ octet v 0 ∷ []) (w.ptr + 1 + 1),
  )

  pub put_u_int_lat3 :
      HasRoom w 3 → 16384 ≤ v → v < 2097152 → put_u_int_lat v w ≡ (ok tt, written w (lat3 v))
  unfolding put_u_int_lat move
  put_u_int_lat3 h lo hi = ground (
    arith,
    room_ok 1 w,
    room_ok 1 (record w { ptr = w.ptr + 1 }),
    room_ok 1 (record w { ptr = w.ptr + 1 + 1 }),
    mark3 (v / 65536),
    octet_value v 0,
    octet_value v 8,
    store_behind w (marked v 16 0xC0 ∷ octet v 8 ∷ octet v 0 ∷ []) (w.ptr + 1 + 1 + 1),
  )

  pub put_u_int_lat4 :
      HasRoom w 4 → 2097152 ≤ v → v < 268435456 → put_u_int_lat v w ≡ (ok tt, written w (lat4 v))
  unfolding put_u_int_lat move
  put_u_int_lat4 h lo hi = ground (
    arith,
    room_ok 1 w,
    room_ok 1 (record w { ptr = w.ptr + 1 }),
    room_ok 1 (record w { ptr = w.ptr + 1 + 1 }),
    room_ok 1 (record w { ptr = w.ptr + 1 + 1 + 1 }),
    mark4 (v / 16777216),
    octet_value v 0,
    octet_value v 8,
    octet_value v 16,
    store_behind w (marked v 24 0xE0 ∷ octet v 16 ∷ octet v 8 ∷ octet v 0 ∷ [])
        (w.ptr + 1 + 1 + 1 + 1),
  )

  pub put_u_int_lat5 :
      HasRoom w 5 → 268435456 ≤ v → v < 2 ^ 32 → put_u_int_lat v w ≡ (ok tt, written w (lat5 v))
  unfolding put_u_int_lat move
  put_u_int_lat5 h lo hi = ground (
    arith,
    room_ok 1 w,
    room_ok 1 (record w { ptr = w.ptr + 1 }),
    room_ok 1 (record w { ptr = w.ptr + 1 + 1 }),
    room_ok 1 (record w { ptr = w.ptr + 1 + 1 + 1 }),
    room_ok 1 (record w { ptr = w.ptr + 1 + 1 + 1 + 1 }),
    octet_value v 0,
    octet_value v 8,
    octet_value v 16,
    octet_value v 24,
    store_behind w (0xF0 ∷ octet v 24 ∷ octet v 16 ∷ octet v 8 ∷ octet v 0 ∷ [])
        (w.ptr + 1 + 1 + 1 + 1 + 1),
  )
