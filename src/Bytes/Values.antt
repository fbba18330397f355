-- ===== src/Bytes/Values.antt =====
-- The decoders of NindBytes.h as plain arithmetic, on bytes.
use nind.Prelude.{ℕ, suc, ◌+◌, ◌-◌, ◌*◌, ◌^◌, ◌%◌, ◌<◌, ◌≤◌, ◌≡◌, ◌∙◌, List, ◌∷◌, bit_or, arith}
use nind.Prelude.Bits.{or_fields, and_mask, xor_set, xor_clear}
use nind.Prelude.Int.{pos, negsuc}
use nind.Bytes.{shl32, be2, be3, be4, le3, le4, lat_bits, sign_extend}

-- `(x << k) | y`, where nothing is lost and `y` fits below.
or_shl : (k x y : ℕ) → x * 2 ^ k < 2 ^ 32 → y < 2 ^ k → bit_or (shl32 x k) y ≡ x * 2 ^ k + y
or_shl k x y fits below = ground (arith, or_fields k x y)

-- `x << k`, where nothing is lost.
shl_lem : (k x : ℕ) → x * 2 ^ k < 2 ^ 32 → shl32 x k ≡ x * 2 ^ k
shl_lem k x fits = ground arith

-- `z | y`, where `z` is a multiple of `2 ^ k` and `y` fits below.
or_low : (k q z y : ℕ) → z ≡ q * 2 ^ k → y < 2 ^ k → bit_or z y ≡ z + y
or_low k q z y e h = rw e (or_fields k q y h)

pub lat_bits1 : (a : ℕ) (rest : List ℕ) → lat_bits (a ∷ rest) 1 ≡ a % 128
unfolding lat_bits
lat_bits1 a rest = and_mask 7 a

module _ (a b : ℕ) (rest : List ℕ) (ha : a < 256) (hb : b < 256) where
  pub be2-value : be2 (a ∷ b ∷ rest) ≡ a * 256 + b
  unfolding be2
  be2-value = or_shl 8 a b (omega arith) (omega arith)

  pub lat_bits2 : lat_bits (a ∷ b ∷ rest) 2 ≡ a % 64 * 256 + b
  unfolding lat_bits
  lat_bits2 = rw (and_mask 6 a) (or_shl 8 (a % 64) b (omega arith) (omega arith))

module _ (a b c : ℕ) (rest : List ℕ) (ha : a < 256) (hb : b < 256) (hc : c < 256) where
  pub be3-value : be3 (a ∷ b ∷ c ∷ rest) ≡ (a * 256 + b) * 256 + c
  unfolding be3
  be3-value =
      rw (or_shl 8 a b (omega arith) (omega arith))
        (or_shl 8 (a * 256 + b) c (omega arith) (omega arith))

  pub le3-value : le3 (a ∷ b ∷ c ∷ rest) ≡ c * 65536 + b * 256 + a
  unfolding le3
  le3-value =
      rw (shl_lem 8 b (omega arith), or_shl 16 c (b * 256) (omega arith) (omega arith))
        (or_low 8 (c * 256 + b) _ a (omega arith) (omega arith))

  pub lat_bits3 : lat_bits (a ∷ b ∷ c ∷ rest) 3 ≡ (a % 32 * 256 + b) * 256 + c
  unfolding lat_bits
  lat_bits3 =
      rw
        (
          and_mask 5 a,
          shl_lem 8 b (omega arith),
          or_shl 16 (a % 32) (b * 256) (omega arith) (omega arith),
        )
        (or_low 8 (a % 32 * 256 + b) _ c (omega arith) (omega arith) ∙ omega arith)

module _ (a b c d : ℕ) (rest : List ℕ) (ha : a < 256) (hb : b < 256) (hc : c < 256)
    (hd : d < 256) where
  pub be4-value : be4 (a ∷ b ∷ c ∷ d ∷ rest) ≡ ((a * 256 + b) * 256 + c) * 256 + d
  unfolding be4
  be4-value =
      rw
        (
          or_shl 8 a b (omega arith) (omega arith),
          or_shl 8 (a * 256 + b) c (omega arith) (omega arith),
        )
        (or_shl 8 ((a * 256 + b) * 256 + c) d (omega arith) (omega arith))

  pub le4-value : le4 (a ∷ b ∷ c ∷ d ∷ rest) ≡ d * 16777216 + c * 65536 + b * 256 + a
  unfolding le4
  le4-value =
      rw
        (
          shl_lem 8 b (omega arith),
          or_shl 16 c (b * 256) (omega arith) (omega arith),
          or_low 8 (c * 256 + b) (c * 65536 + b * 256) a (omega arith) (omega arith),
        )
        (or_shl 24 d (c * 65536 + b * 256 + a) (omega arith) (omega arith) ∙ omega arith)

  pub lat_bits4 : lat_bits (a ∷ b ∷ c ∷ d ∷ rest) 4 ≡ ((a % 16 * 256 + b) * 256 + c) * 256 + d
  unfolding lat_bits
  lat_bits4 =
      rw
        (
          and_mask 4 a,
          shl_lem 16 b (omega arith),
          or_shl 24 (a % 16) (b * 65536) (omega arith) (omega arith),
          shl_lem 8 c (omega arith),
          or_low 16 (a % 16 * 256 + b) (a % 16 * 16777216 + b * 65536) (c * 256) (omega arith)
              (omega arith),
        )
        (or_low 8 ((a % 16 * 256 + b) * 256 + c) _ d (omega arith) (omega arith) ∙ omega arith)

pub lat_bits5 :
    (z a b c d : ℕ) (rest : List ℕ)
    → a < 256
    → b < 256
    → c < 256
    → d < 256
    → lat_bits (z ∷ a ∷ b ∷ c ∷ d ∷ rest) 5 ≡ ((a * 256 + b) * 256 + c) * 256 + d
unfolding lat_bits
lat_bits5 z a b c d rest ha hb hc hd = be4-value a b c d rest ha hb hc hd

-- A value of `k + 1` bits, sign-extended: the number that its two's complement stands for.
pub sign_extend_pos : (k n : ℕ) → n < 2 ^ k → 2 ^ k ≤ 2 ^ 31 → sign_extend n (suc k) ≡ pos n
unfolding sign_extend
sign_extend_pos k n h fits = rw (shrink, xor_set k n h) (ground arith)
  where
    shrink : suc k - 1 ≡ k
    shrink = omega arith

pub sign_extend_neg :
    (k n : ℕ)
    → n < 2 ^ k
    → 2 ^ k ≤ 2 ^ 31
    → sign_extend (2 ^ k + (2 ^ k - 1 - n)) (suc k) ≡ negsuc n
unfolding sign_extend
sign_extend_neg k n h fits = rw (shrink, xor_clear k (2 ^ k - 1 - n) (omega arith)) (ground arith)
  where
    shrink : suc k - 1 ≡ k
    shrink = omega arith
