-- ===== src/Bytes.antt =====
-- src/cpp/NindBasics/NindBytes.h: integers from bytes in memory. A `const unsigned char *` is the
-- list of the bytes from there on; `uint32_t` arithmetic is modulo 2 ^ 32.
pub mod Values
use nind.Prelude.{
  ℕ, ◌+◌, ◌-◌, ◌*◌, ◌^◌, ◌%◌, bit_and, bit_or, bit_xor, List, get_or, drop, ◌==◌, if◌then◌else◌,
}
use nind.Prelude.Int.{ℤ, signed32}

-- `b[i]`
abbrev pub byte : List ℕ → ℕ → ℕ
byte b i = get_or b i 0

-- `x << k` on a `uint32_t`
abbrev pub shl32 : ℕ → ℕ → ℕ
shl32 x k = x * 2 ^ k % 2 ^ 32

unfoldable pub sign_extend : ℕ → ℕ → ℤ
sign_extend value bits_nb =
    let sign_bit = 2 ^ (bits_nb - 1) in
    signed32 ((bit_xor value sign_bit + 2 ^ 32 - sign_bit) % 2 ^ 32)

unfoldable pub be2 : List ℕ → ℕ
be2 b = bit_or (shl32 (byte b 0) 8) (byte b 1)

unfoldable pub be3 : List ℕ → ℕ
unfolding be2
be3 b = bit_or (shl32 (be2 b) 8) (byte b 2)

unfoldable pub be4 : List ℕ → ℕ
unfolding be3
be4 b = bit_or (shl32 (be3 b) 8) (byte b 3)

unfoldable pub le3 : List ℕ → ℕ
le3 b = bit_or (bit_or (shl32 (byte b 2) 16) (shl32 (byte b 1) 8)) (byte b 0)

unfoldable pub le4 : List ℕ → ℕ
unfolding le3
le4 b = bit_or (shl32 (byte b 3) 24) (le3 b)

-- The default of the `switch` reads `be4(b + 1)`: five bytes.
unfoldable pub lat_bits : List ℕ → ℕ → ℕ
unfolding be4
lat_bits b bytes_nb =
    if bytes_nb == 1
    then bit_and (byte b 0) 0x7F
    else if bytes_nb == 2
    then bit_or (shl32 (bit_and (byte b 0) 0x3F) 8) (byte b 1)
    else if bytes_nb == 3
    then bit_or (bit_or (shl32 (bit_and (byte b 0) 0x1F) 16) (shl32 (byte b 1) 8)) (byte b 2)
    else if bytes_nb == 4
    then bit_or
        (bit_or (bit_or (shl32 (bit_and (byte b 0) 0x0F) 24) (shl32 (byte b 1) 16))
          (shl32 (byte b 2) 8))
        (byte b 3)
    else be4 (drop 1 b)
