-- ===== src/ReadBuffer/Decode.antt =====
-- The decoders on bytes that are ahead of the read pointer.
use nind.Prelude.{ℕ, ◌+◌, ◌*◌, ◌%◌, ◌<◌, ◌≤◌, ◌≡◌, [], ◌∷◌, arith}
use nind.Prelude.Exec.{ok}
use nind.Prelude.Bits.{bit7_test, bit6_test, bit5_test, bit4_test, bit3_test}
use nind.Bytes.Values.{lat_bits1, lat_bits2, lat_bits3, lat_bits4, lat_bits5}
use nind.ReadBuffer.{ReadBuffer, advance, get_u_int_lat}
use nind.ReadBuffer.Ahead.{Ahead, need-Ahead, peek-Ahead}

-- The buffer with `n` more bytes read.
abbrev pub passed : ReadBuffer → ℕ → ReadBuffer
passed r n = record r { ptr = r.ptr + n }

module _ (r : ReadBuffer) (a : ℕ) where
  pub get_u_int_lat1 : Ahead r (a ∷ []) → a < 128 → get_u_int_lat r ≡ (ok a, passed r 1)
  unfolding get_u_int_lat advance
  get_u_int_lat1 h small =
      ground
        (arith, need-Ahead r (a ∷ []) h 1, peek-Ahead r (a ∷ []) h 1, bit7_test a, lat_bits1 a [])

  pub get_u_int_lat2 :
      (b : ℕ)
      → Ahead r (a ∷ b ∷ [])
      → 128 ≤ a
      → a < 192
      → b < 256
      → get_u_int_lat r ≡ (ok (a % 64 * 256 + b), passed r 2)
  unfolding get_u_int_lat advance
  get_u_int_lat2 b h lo hi hb =
      let need' = need-Ahead r (a ∷ b ∷ []) h in
      let peek' = peek-Ahead r (a ∷ b ∷ []) h in
      ground (arith, need' 1, need' 2, peek' 1, peek' 2, bit7_test a, bit6_test a, lat_bits2 a b [])

  pub get_u_int_lat3 :
      (b c : ℕ)
      → Ahead r (a ∷ b ∷ c ∷ [])
      → 192 ≤ a
      → a < 224
      → b < 256
      → c < 256
      → get_u_int_lat r ≡ (ok ((a % 32 * 256 + b) * 256 + c), passed r 3)
  unfolding get_u_int_lat advance
  get_u_int_lat3 b c h lo hi hb hc =
      let need' = need-Ahead r (a ∷ b ∷ c ∷ []) h in
      let peek' = peek-Ahead r (a ∷ b ∷ c ∷ []) h in
      ground (
        arith,
        need' 1,
        need' 2,
        need' 3,
        peek' 1,
        peek' 2,
        peek' 3,
        bit7_test a,
        bit6_test a,
        bit5_test a,
        lat_bits3 a b c [],
      )

  pub get_u_int_lat4 :
      (b c d : ℕ)
      → Ahead r (a ∷ b ∷ c ∷ d ∷ [])
      → 224 ≤ a
      → a < 240
      → b < 256
      → c < 256
      → d < 256
      → get_u_int_lat r ≡ (ok (((a % 16 * 256 + b) * 256 + c) * 256 + d), passed r 4)
  unfolding get_u_int_lat advance
  get_u_int_lat4 b c d h lo hi hb hc hd =
      let need' = need-Ahead r (a ∷ b ∷ c ∷ d ∷ []) h in
      let peek' = peek-Ahead r (a ∷ b ∷ c ∷ d ∷ []) h in
      ground (
        arith,
        need' 1,
        need' 2,
        need' 3,
        need' 4,
        peek' 1,
        peek' 2,
        peek' 3,
        peek' 4,
        bit7_test a,
        bit6_test a,
        bit5_test a,
        bit4_test a,
        lat_bits4 a b c d [],
      )

  pub get_u_int_lat5 :
      (b c d e : ℕ)
      → Ahead r (a ∷ b ∷ c ∷ d ∷ e ∷ [])
      → 240 ≤ a
      → a < 248
      → b < 256
      → c < 256
      → d < 256
      → e < 256
      → get_u_int_lat r ≡ (ok (((b * 256 + c) * 256 + d) * 256 + e), passed r 5)
  unfolding get_u_int_lat advance
  get_u_int_lat5 b c d e h lo hi hb hc hd he =
      let need' = need-Ahead r (a ∷ b ∷ c ∷ d ∷ e ∷ []) h in
      let peek' = peek-Ahead r (a ∷ b ∷ c ∷ d ∷ e ∷ []) h in
      ground (
        arith,
        need' 1,
        need' 2,
        need' 3,
        need' 4,
        need' 5,
        peek' 1,
        peek' 2,
        peek' 3,
        peek' 4,
        peek' 5,
        bit7_test a,
        bit6_test a,
        bit5_test a,
        bit4_test a,
        bit3_test a,
        lat_bits5 a b c d e [],
      )
