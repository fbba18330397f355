-- ===== src/ReadBuffer/Signed.antt =====
-- The decoder of signed latecon integers on bytes that are ahead of the read pointer.
use nind.Prelude.{ℕ, ◌+◌, ◌*◌, ◌%◌, ◌<◌, ◌≤◌, ◌≡◌, [], ◌∷◌, arith}
use nind.Prelude.Exec.{ok}
use nind.Prelude.Bits.{bit7_test, bit6_test, bit5_test, bit4_test, bit3_test}
use nind.Bytes.{sign_extend}
use nind.Bytes.Values.{lat_bits1, lat_bits2, lat_bits3, lat_bits4, lat_bits5}
use nind.ReadBuffer.{ReadBuffer, advance, get_s_int_lat}
use nind.ReadBuffer.Ahead.{Ahead, need-Ahead, peek-Ahead}
use nind.ReadBuffer.Decode.{passed}

module _ (r : ReadBuffer) (a : ℕ) where
  pub get_s_int_lat1 :
      Ahead r (a ∷ []) → a < 128 → get_s_int_lat r ≡ (ok (sign_extend (a % 128) 7), passed r 1)
  unfolding get_s_int_lat advance
  get_s_int_lat1 h small =
      ground
        (arith, need-Ahead r (a ∷ []) h 1, peek-Ahead r (a ∷ []) h 1, bit7_test a, lat_bits1 a [])

  pub get_s_int_lat2 :
      (b : ℕ)
      → Ahead r (a ∷ b ∷ [])
      → 128 ≤ a
      → a < 192
      → b < 256
      → get_s_int_lat r ≡ (ok (sign_extend (a % 64 * 256 + b) 14), passed r 2)
  unfolding get_s_int_lat advance
  get_s_int_lat2 b h lo hi hb =
      let need' = need-Ahead r (a ∷ b ∷ []) h in
      let peek' = peek-Ahead r (a ∷ b ∷ []) h in
      ground (arith, need' 1, need' 2, peek' 1, peek' 2, bit7_test a, bit6_test a, lat_bits2 a b [])

  pub get_s_int_lat3 :
      (b c : ℕ)
      → Ahead r (a ∷ b ∷ c ∷ [])
      → 192 ≤ a
      → a < 224
      → b < 256
      → c < 256
      → get_s_int_lat r ≡ (ok (sign_extend ((a % 32 * 256 + b) * 256 + c) 21), passed r 3)
  unfolding get_s_int_lat advance
  get_s_int_lat3 b c h lo hi hb hc =
      let need' = need-Ahead r (a ∷ b ∷ c ∷ []) h in
      let peek' = peek-Ahead r (a ∷ b ∷ c ∷ []) h in
      ground (
        arith,
        need' 1,
        need' 2,
        need' 3,
        peek' 1,
        peek' 2,
        peek' 3,
        bit7_test a,
        bit6_test a,
        bit5_test a,
        lat_bits3 a b c [],
      )

  pub get_s_int_lat4 :
      (b c d : ℕ)
      → Ahead r (a ∷ b ∷ c ∷ d ∷ [])
      → 224 ≤ a
      → a < 240
      → b < 256
      → c < 256
      → d < 256
      → get_s_int_lat r
        ≡ (ok (sign_extend (((a % 16 * 256 + b) * 256 + c) * 256 + d) 28), passed r 4)
  unfolding get_s_int_lat advance
  get_s_int_lat4 b c d h lo hi hb hc hd =
      let need' = need-Ahead r (a ∷ b ∷ c ∷ d ∷ []) h in
      let peek' = peek-Ahead r (a ∷ b ∷ c ∷ d ∷ []) h in
      ground (
        arith,
        need' 1,
        need' 2,
        need' 3,
        need' 4,
        peek' 1,
        peek' 2,
        peek' 3,
        peek' 4,
        bit7_test a,
        bit6_test a,
        bit5_test a,
        bit4_test a,
        lat_bits4 a b c d [],
      )

  pub get_s_int_lat5 :
      (b c d e : ℕ)
      → Ahead r (a ∷ b ∷ c ∷ d ∷ e ∷ [])
      → 240 ≤ a
      → a < 248
      → b < 256
      → c < 256
      → d < 256
      → e < 256
      → get_s_int_lat r ≡ (ok (sign_extend (((b * 256 + c) * 256 + d) * 256 + e) 32), passed r 5)
  unfolding get_s_int_lat advance
  get_s_int_lat5 b c d e h lo hi hb hc hd he =
      let need' = need-Ahead r (a ∷ b ∷ c ∷ d ∷ e ∷ []) h in
      let peek' = peek-Ahead r (a ∷ b ∷ c ∷ d ∷ e ∷ []) h in
      ground (
        arith,
        need' 1,
        need' 2,
        need' 3,
        need' 4,
        need' 5,
        peek' 1,
        peek' 2,
        peek' 3,
        peek' 4,
        peek' 5,
        bit7_test a,
        bit6_test a,
        bit5_test a,
        bit4_test a,
        bit3_test a,
        lat_bits5 a b c d e [],
      )
