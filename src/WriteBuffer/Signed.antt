-- ===== src/WriteBuffer/Signed.antt =====
-- The encodings of the EntierSLat of each length, from the pattern of the integer.
use nind.Prelude.{ℕ, ◌+◌, ◌/◌, ◌%◌, ◌≡◌, List, [], ◌∷◌, arith, bit_or, bit_and, true, false}
use nind.Prelude.Exec.{ok}
use nind.Prelude.Bits.{and_mask, mark2, mark3, mark4, mark5}
use nind.Prelude.Int.{ℤ, pattern32, within}
use nind.WriteBuffer.{WriteBuffer, room, move, store, octet, masked, sign_word, put_s_int_lat}
use nind.WriteBuffer.Written.{HasRoom, written, room_ok, store_behind, octet_value}
use nind.WriteBuffer.Fixed.{digit}

abbrev pub slat1 : ℕ → List ℕ
slat1 p = p % 128 ∷ []

abbrev pub slat2 : ℕ → List ℕ
slat2 p = (p / 256 % 64 + 128) ∷ digit p 0 ∷ []

abbrev pub slat3 : ℕ → List ℕ
slat3 p = (p / 65536 % 32 + 192) ∷ digit p 8 ∷ digit p 0 ∷ []

abbrev pub slat4 : ℕ → List ℕ
slat4 p = (p / 16777216 % 16 + 224) ∷ digit p 16 ∷ digit p 8 ∷ digit p 0 ∷ []

abbrev pub slat5 : ℕ → ℕ → List ℕ
slat5 s p = (s % 8 + 240) ∷ digit p 24 ∷ digit p 16 ∷ digit p 8 ∷ digit p 0 ∷ []

-- The stores of each length, on any pattern.
module _ (p : ℕ) (w : WriteBuffer) where
  store1 : store (bit_and p 0x7F ∷ []) (record w { ptr = w.ptr + 1 }) ≡ (ok tt, written w (slat1 p))
  store1 = ground (arith, and_mask 7 p, store_behind w (bit_and p 0x7F ∷ []) (w.ptr + 1))

  store2 :
      store (masked p 8 0x3F 0x80 ∷ octet p 0 ∷ []) (record w { ptr = w.ptr + 1 + 1 })
      ≡ (ok tt, written w (slat2 p))
  store2 = ground (
    arith,
    and_mask 6 (p / 256),
    mark2 (p / 256 % 64),
    octet_value p 0,
    store_behind w (masked p 8 0x3F 0x80 ∷ octet p 0 ∷ []) (w.ptr + 1 + 1),
  )

  store3 :
      store
        (masked p 16 0x1F 0xC0 ∷ octet p 8 ∷ octet p 0 ∷ [])
        (record w { ptr = w.ptr + 1 + 1 + 1 })
      ≡ (ok tt, written w (slat3 p))
  store3 = ground (
    arith,
    and_mask 5 (p / 65536),
    mark3 (p / 65536 % 32),
    octet_value p 0,
    octet_value p 8,
    store_behind w (masked p 16 0x1F 0xC0 ∷ octet p 8 ∷ octet p 0 ∷ []) (w.ptr + 1 + 1 + 1),
  )

  store4 :
      store
        (masked p 24 0x0F 0xE0 ∷ octet p 16 ∷ octet p 8 ∷ octet p 0 ∷ [])
        (record w { ptr = w.ptr + 1 + 1 + 1 + 1 })
      ≡ (ok tt, written w (slat4 p))
  store4 = ground (
    arith,
    and_mask 4 (p / 16777216),
    mark4 (p / 16777216 % 16),
    octet_value p 0,
    octet_value p 8,
    octet_value p 16,
    store_behind w (masked p 24 0x0F 0xE0 ∷ octet p 16 ∷ octet p 8 ∷ octet p 0 ∷ [])
        (w.ptr + 1 + 1 + 1 + 1),
  )

  store5 :
      (s : ℕ)
      → store
          (bit_or (bit_and s 0x07) 0xF0 ∷ octet p 24 ∷ octet p 16 ∷ octet p 8 ∷ octet p 0 ∷ [])
          (record w { ptr = w.ptr + 1 + 1 + 1 + 1 + 1 })
        ≡ (ok tt, written w (slat5 s p))
  store5 s = ground (
    arith,
    and_mask 3 s,
    mark5 (s % 8),
    octet_value p 0,
    octet_value p 8,
    octet_value p 16,
    octet_value p 24,
    store_behind w
        (bit_or (bit_and s 0x07) 0xF0 ∷ octet p 24 ∷ octet p 16 ∷ octet p 8 ∷ octet p 0 ∷ [])
        (w.ptr + 1 + 1 + 1 + 1 + 1),
  )

module _ (z : ℤ) (w : WriteBuffer) where
  -- The room for one more byte, after `i` bytes have been claimed.
  room_1 : HasRoom w 1 → room 1 w ≡ (ok tt, w)
  room_1 h = room_ok 1 w h

  room_2 :
      HasRoom w 2 → room 1 (record w { ptr = w.ptr + 1 }) ≡ (ok tt, record w { ptr = w.ptr + 1 })
  room_2 h = room_ok 1 (record w { ptr = w.ptr + 1 }) (omega arith)

  room_3 :
      HasRoom w 3
      → room 1 (record w { ptr = w.ptr + 1 + 1 }) ≡ (ok tt, record w { ptr = w.ptr + 1 + 1 })
  room_3 h = room_ok 1 (record w { ptr = w.ptr + 1 + 1 }) (omega arith)

  room_4 :
      HasRoom w 4
      → room 1 (record w { ptr = w.ptr + 1 + 1 + 1 })
        ≡ (ok tt, record w { ptr = w.ptr + 1 + 1 + 1 })
  room_4 h = room_ok 1 (record w { ptr = w.ptr + 1 + 1 + 1 }) (omega arith)

  room_5 :
      HasRoom w 5
      → room 1 (record w { ptr = w.ptr + 1 + 1 + 1 + 1 })
        ≡ (ok tt, record w { ptr = w.ptr + 1 + 1 + 1 + 1 })
  room_5 h = room_ok 1 (record w { ptr = w.ptr + 1 + 1 + 1 + 1 }) (omega arith)

  pub put_s_int_lat1 :
      HasRoom w 1
      → within z 0x40 ≡ true
      → put_s_int_lat z w ≡ (ok tt, written w (slat1 (pattern32 z)))
  unfolding put_s_int_lat move
  put_s_int_lat1 h s1 = rw (room_1 h, s1) (store1 (pattern32 z) w)

  pub put_s_int_lat2 :
      HasRoom w 2
      → within z 0x40 ≡ false
      → within z 0x2000 ≡ true
      → put_s_int_lat z w ≡ (ok tt, written w (slat2 (pattern32 z)))
  unfolding put_s_int_lat move
  put_s_int_lat2 h s1 s2 = rw (room_1 (omega arith), s1, room_2 h, s2) (store2 (pattern32 z) w)

  pub put_s_int_lat3 :
      HasRoom w 3
      → within z 0x40 ≡ false
      → within z 0x2000 ≡ false
      → within z 0x100000 ≡ true
      → put_s_int_lat z w ≡ (ok tt, written w (slat3 (pattern32 z)))
  unfolding put_s_int_lat move
  put_s_int_lat3 h s1 s2 s3 =
      rw (room_1 (omega arith), s1, room_2 (omega arith), s2, room_3 h, s3) (store3 (pattern32 z) w)

  pub put_s_int_lat4 :
      HasRoom w 4
      → within z 0x40 ≡ false
      → within z 0x2000 ≡ false
      → within z 0x100000 ≡ false
      → within z 0x8000000 ≡ true
      → put_s_int_lat z w ≡ (ok tt, written w (slat4 (pattern32 z)))
  unfolding put_s_int_lat move
  put_s_int_lat4 h s1 s2 s3 s4 =
      rw
        (room_1 (omega arith), s1, room_2 (omega arith), s2, room_3 (omega arith), s3, room_4 h, s4)
        (store4 (pattern32 z) w)

  pub put_s_int_lat5 :
      HasRoom w 5
      → within z 0x40 ≡ false
      → within z 0x2000 ≡ false
      → within z 0x100000 ≡ false
      → within z 0x8000000 ≡ false
      → put_s_int_lat z w ≡ (ok tt, written w (slat5 (sign_word z) (pattern32 z)))
  unfolding put_s_int_lat move
  put_s_int_lat5 h s1 s2 s3 s4 =
      rw
        (
          room_1 (omega arith),
          s1,
          room_2 (omega arith),
          s2,
          room_3 (omega arith),
          s3,
          room_4 (omega arith),
          s4,
          room_5 h,
        )
        (store5 (pattern32 z) w (sign_word z))
