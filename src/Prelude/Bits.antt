-- ===== src/Prelude/Bits.antt =====
-- `&`, `|` and `^` at variables: fields that do not overlap, low masks, and a flip of the top bit.
use Prim.Native.Nat.{
  ℕ, zero, suc, ◌+◌, ◌-◌, ◌*◌, ◌/◌, ◌%◌, ◌^◌, ◌≤◌, ◌<◌, min, max, bit_and, bit_or, bit_xor,
}
use Prim.Native.Nat.{digits, bitwise, differ, bit_and-bitwise, bit_or-bitwise, bit_xor-bitwise}
use mathlib.Core.Path.{◌≡◌, refl, ap}
use mathlib.Core.Bool.{Bool, true, ◌&&◌}
use native.Mathlib.Omega.{arith}
use native.Mathlib.Nat.{pow-suc, one-le-pow}
use nind.Prelude.Tests.{◌==◌}

-- `bitwise` recurses on fuel, and any two amounts that cover the first operand do the same.
module _ (at_zero : ℕ → ℕ) (digit : ℕ → ℕ → ℕ) where
  abbrev on_fuel : ℕ → ℕ → ℕ → ℕ
  on_fuel = digits at_zero digit

  on_fuel-zero : (fuel b : ℕ) → on_fuel fuel 0 b ≡ at_zero b
  on_fuel-zero zero b = refl
  on_fuel-zero (suc fuel) b = refl

  covered :
      (fuel1 fuel2 a b : ℕ) → (a ≤ fuel1) × (a ≤ fuel2) → on_fuel fuel1 a b ≡ on_fuel fuel2 a b
  covered fuel1 fuel2 zero b cover = cc (on_fuel-zero fuel1 b, on_fuel-zero fuel2 b)
  covered zero fuel2 (suc a) b (cover1, cover2) = absurd (omega arith)
  covered (suc fuel1) zero (suc a) b (cover1, cover2) = absurd (omega arith)
  covered (suc fuel1) (suc fuel2) (suc a) b (cover1, cover2) =
      let half = covered fuel1 fuel2 (suc a / 2) (b / 2) (omega arith, omega arith) in
      ap (λ high. high * 2 + digit (suc a % 2) (b % 2)) half

  bitwise_step :
      (b a : ℕ)
      → bitwise at_zero digit (suc a) b
        ≡ bitwise at_zero digit (suc a / 2) (b / 2) * 2 + digit (suc a % 2) (b % 2)
  bitwise_step b a =
      ap (λ high. high * 2 + digit (suc a % 2) (b % 2))
        (covered a (suc a / 2) (suc a / 2) _ (omega arith, omega arith))

or_step : (a b : ℕ) → bit_or a b ≡ bit_or (a / 2) (b / 2) * 2 + max (a % 2) (b % 2)
or_step zero b = simp bit_or-bitwise (omega arith)
or_step (suc a) b = simp bit_or-bitwise (bitwise_step (λ d. d) max b a)

and_step : (a b : ℕ) → bit_and a b ≡ bit_and (a / 2) (b / 2) * 2 + min (a % 2) (b % 2)
and_step zero b = simp bit_and-bitwise (omega arith)
and_step (suc a) b = simp bit_and-bitwise (bitwise_step (λ d. zero) min b a)

xor_step : (a b : ℕ) → bit_xor a b ≡ bit_xor (a / 2) (b / 2) * 2 + differ (a % 2) (b % 2)
xor_step zero b = simp bit_xor-bitwise (omega arith)
xor_step (suc a) b = simp bit_xor-bitwise (bitwise_step (λ d. d) differ b a)

-- An operand of zero, by strong induction written as recursion on a bound.
or-zero_below : (n a : ℕ) → a ≤ n → bit_or a 0 ≡ a
or-zero_below n zero h = refl
or-zero_below zero (suc a) h = absurd (omega arith)
or-zero_below (suc n) (suc a) h =
    omega (arith, or_step (suc a) 0, or-zero_below n (suc a / 2) (omega arith))

and-zero_below : (n a : ℕ) → a ≤ n → bit_and a 0 ≡ 0
and-zero_below n zero h = refl
and-zero_below zero (suc a) h = absurd (omega arith)
and-zero_below (suc n) (suc a) h =
    omega (arith, and_step (suc a) 0, and-zero_below n (suc a / 2) (omega arith))

differ_digit : (d : ℕ) → d < 2 → differ d 0 ≡ d
differ_digit zero h = refl
differ_digit (suc d) h = refl

xor-zero_below : (n a : ℕ) → a ≤ n → bit_xor a 0 ≡ a
xor-zero_below n zero h = refl
xor-zero_below zero (suc a) h = absurd (omega arith)
xor-zero_below (suc n) (suc a) h = omega (
  arith,
  xor_step (suc a) 0,
  differ_digit (suc a % 2) (omega arith),
  xor-zero_below n (suc a / 2) (omega arith),
)

mul-pow-suc : (q k : ℕ) → q * 2 ^ suc k ≡ 2 * (q * 2 ^ k)
mul-pow-suc q k = omega (arith, ap (λ (t : ℕ). q * t) (pow-suc 2 k))

-- `(q << k) | r` is a sum where `r` fits in `k` bits.
pub or_fields : (k q r : ℕ) → r < 2 ^ k → bit_or (q * 2 ^ k) r ≡ q * 2 ^ k + r
or_fields zero q r h = ground (arith, or-zero_below q q)
or_fields (suc k) q r h =
    ground (arith, or_step (q * 2 ^ suc k) r, mul-pow-suc q k, or_fields k q (r / 2) (omega arith))

and_fields : (k q r : ℕ) → r < 2 ^ k → bit_and (q * 2 ^ k + r) (2 ^ k - 1) ≡ r
and_fields zero q r h = omega (arith, and-zero_below (q * 1 + r) (q * 1 + r) (omega arith))
and_fields (suc k) q r h = ground (
  arith,
  and_step (q * 2 ^ suc k + r) (2 ^ suc k - 1),
  mul-pow-suc q k,
  pow-suc 2 k,
  and_fields k q (r / 2) (omega arith),
)

-- A mask of `k` low bits is the remainder by `2 ^ k`.
pub and_mask : (k a : ℕ) → bit_and a (2 ^ k - 1) ≡ a % 2 ^ k
and_mask k a = ground (arith, one-le-pow k 2, and_fields k (a / 2 ^ k) (a % 2 ^ k))

-- Flipping bit `k`: set where the number is below it, cleared where the number has it.
pub xor_set : (k r : ℕ) → r < 2 ^ k → bit_xor r (2 ^ k) ≡ 2 ^ k + r
xor_set zero zero h = refl
xor_set zero (suc r) h = absurd (omega arith)
xor_set (suc k) r h = ground (
  arith,
  xor_step r (2 ^ suc k),
  pow-suc 2 k,
  differ_digit (r % 2),
  xor_set k (r / 2) (omega arith),
)

pub xor_clear : (k r : ℕ) → r < 2 ^ k → bit_xor (2 ^ k + r) (2 ^ k) ≡ r
xor_clear zero zero h = refl
xor_clear zero (suc r) h = absurd (omega arith)
xor_clear (suc k) r h = ground (
  arith,
  xor_step (2 ^ suc k + r) (2 ^ suc k),
  pow-suc 2 k,
  differ_digit (r % 2),
  xor_clear k (r / 2) (omega arith),
)

-- Two functions that agree on every number below a bound, by evaluation.
module _ (f g : ℕ → ℕ) where
  agree_below : ℕ → Bool
  agree_below zero = true
  agree_below (suc n) = (f n == g n) && agree_below n

  agree_below_sound : (n : ℕ) → agree_below n ≡ true → (i : ℕ) → i < n → f i ≡ g i
  unfolding agree_below
  agree_below_sound zero e i h = absurd (omega arith)
  agree_below_sound (suc n) e i h = ground (arith, agree_below_sound n (ground arith) i)

-- The tests and marks of the first byte of a variable-length integer.
pub bit7_test : (b : ℕ) → b < 256 → bit_and b 0x80 ≡ b / 128 * 128
unfolding agree_below
bit7_test = agree_below_sound _ _ 256 refl

pub bit6_test : (b : ℕ) → b < 256 → bit_and b 0x40 ≡ b / 64 % 2 * 64
unfolding agree_below
bit6_test = agree_below_sound _ _ 256 refl

pub bit5_test : (b : ℕ) → b < 256 → bit_and b 0x20 ≡ b / 32 % 2 * 32
unfolding agree_below
bit5_test = agree_below_sound _ _ 256 refl

pub bit4_test : (b : ℕ) → b < 256 → bit_and b 0x10 ≡ b / 16 % 2 * 16
unfolding agree_below
bit4_test = agree_below_sound _ _ 256 refl

pub bit3_test : (b : ℕ) → b < 256 → bit_and b 0x08 ≡ b / 8 % 2 * 8
unfolding agree_below
bit3_test = agree_below_sound _ _ 256 refl

pub mark2 : (b : ℕ) → b < 64 → bit_or b 0x80 ≡ b + 128
unfolding agree_below
mark2 = agree_below_sound _ _ 64 refl

pub mark3 : (b : ℕ) → b < 32 → bit_or b 0xC0 ≡ b + 192
unfolding agree_below
mark3 = agree_below_sound _ _ 32 refl

pub mark4 : (b : ℕ) → b < 16 → bit_or b 0xE0 ≡ b + 224
unfolding agree_below
mark4 = agree_below_sound _ _ 16 refl

pub mark5 : (b : ℕ) → b < 8 → bit_or b 0xF0 ≡ b + 240
unfolding agree_below
mark5 = agree_below_sound _ _ 8 refl

-- The test of a continuation byte of UTF-8.
pub top_bits_test : (b : ℕ) → b < 128 → bit_and b 0xC0 ≡ b / 64 * 64
unfolding agree_below
top_bits_test = agree_below_sound _ _ 128 refl
