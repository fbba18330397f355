-- ===== src/Codec/Signed.antt =====
-- Round trips of the signed variable-length integers.
use nind.Prelude.{
  ℕ, ◌+◌, ◌-◌, ◌*◌, ◌/◌, ◌%◌, ◌^◌, ◌<◌, ◌≡◌, ◌∙◌, arith, inl, inr, ltb→lt, true, Bool-cases,
}
use nind.Prelude.Int.{ℤ, pos, negsuc, IsInt32, within, pattern32}
use nind.Bytes.{sign_extend}
use nind.Bytes.Values.{sign_extend_pos, sign_extend_neg}
use nind.ReadBuffer.{get_s_int_lat}
use nind.ReadBuffer.Signed.{
  get_s_int_lat1, get_s_int_lat2, get_s_int_lat3, get_s_int_lat4, get_s_int_lat5,
}
use nind.WriteBuffer.{WriteBuffer, put_s_int_lat, sign_word}
use nind.WriteBuffer.Written.{HasRoom}
use nind.WriteBuffer.Signed.{
  slat1, slat2, slat3, slat4, slat5, put_s_int_lat1, put_s_int_lat2, put_s_int_lat3, put_s_int_lat4,
  put_s_int_lat5,
}
use nind.Codec.Defs.{ReadsBack}
use nind.Codec.Reread.{Decodes, reads_back}

-- The low `k + 1` bits of a pattern, sign-extended, are an integer in range of `k + 1` bits.
extend7 : (z : ℤ) → within z 0x40 ≡ true → sign_extend (pattern32 z % 128) 7 ≡ z
unfolding within pattern32
extend7 (pos n) h =
    let fits = ltb→lt n 64 h in
    let low : n % 128 ≡ n = omega (arith, fits) in rw low (sign_extend_pos 6 n fits (omega arith))
extend7 (negsuc n) h =
    let fits = ltb→lt n 64 h in
    let low : (2 ^ 32 - 1 - n) % 128 ≡ 64 + (64 - 1 - n) = omega (arith, fits) in
    rw low (sign_extend_neg 6 n fits (omega arith))

extend14 : (z : ℤ) → within z 0x2000 ≡ true → sign_extend (pattern32 z % 16384) 14 ≡ z
unfolding within pattern32
extend14 (pos n) h =
    let fits = ltb→lt n 8192 h in
    let low : n % 16384 ≡ n = omega (arith, fits) in
    rw low (sign_extend_pos 13 n fits (omega arith))
extend14 (negsuc n) h =
    let fits = ltb→lt n 8192 h in
    let low : (2 ^ 32 - 1 - n) % 16384 ≡ 8192 + (8192 - 1 - n) = omega (arith, fits) in
    rw low (sign_extend_neg 13 n fits (omega arith))

extend21 : (z : ℤ) → within z 0x100000 ≡ true → sign_extend (pattern32 z % 2097152) 21 ≡ z
unfolding within pattern32
extend21 (pos n) h =
    let fits = ltb→lt n 1048576 h in
    let low : n % 2097152 ≡ n = omega (arith, fits) in
    rw low (sign_extend_pos 20 n fits (omega arith))
extend21 (negsuc n) h =
    let fits = ltb→lt n 1048576 h in
    let low : (2 ^ 32 - 1 - n) % 2097152 ≡ 1048576 + (1048576 - 1 - n) = omega (arith, fits) in
    rw low (sign_extend_neg 20 n fits (omega arith))

extend28 : (z : ℤ) → within z 0x8000000 ≡ true → sign_extend (pattern32 z % 268435456) 28 ≡ z
unfolding within pattern32
extend28 (pos n) h =
    let fits = ltb→lt n 134217728 h in
    let low : n % 268435456 ≡ n = omega (arith, fits) in
    rw low (sign_extend_pos 27 n fits (omega arith))
extend28 (negsuc n) h =
    let fits = ltb→lt n 134217728 h in
    let low : (2 ^ 32 - 1 - n) % 268435456 ≡ 134217728 + (134217728 - 1 - n) =
      omega (arith, fits) in
    rw low (sign_extend_neg 27 n fits (omega arith))

extend32 : (z : ℤ) → IsInt32 z → sign_extend (pattern32 z) 32 ≡ z
unfolding pattern32
extend32 (pos n) h = sign_extend_pos 31 n h (omega arith)
extend32 (negsuc n) h =
    let low : 2 ^ 32 - 1 - n ≡ 2147483648 + (2147483648 - 1 - n) = omega arith in
    rw low (sign_extend_neg 31 n h (omega arith))

pub slat1-Decodes : (z : ℤ) → within z 0x40 ≡ true → Decodes get_s_int_lat (slat1 (pattern32 z)) z
slat1-Decodes z h r a =
    let p = pattern32 z in
    let low : p % 128 % 128 ≡ p % 128 = omega arith in
    get_s_int_lat1 r (p % 128) a (omega arith) ∙ rw (low, extend7 z h)

pub slat2-Decodes : (z : ℤ) → within z 0x2000 ≡ true → Decodes get_s_int_lat (slat2 (pattern32 z)) z
slat2-Decodes z h r a =
    let p = pattern32 z in
    let low : (p / 256 % 64 + 128) % 64 * 256 + p / 1 % 256 ≡ p % 16384 = omega arith in
    get_s_int_lat2 r (p / 256 % 64 + 128) (p / 1 % 256) a (omega arith) (omega arith) (omega arith)
    ∙ rw (low, extend14 z h)

pub slat3-Decodes :
    (z : ℤ) → within z 0x100000 ≡ true → Decodes get_s_int_lat (slat3 (pattern32 z)) z
slat3-Decodes z h r a =
    let p = pattern32 z in
    let low : ((p / 65536 % 32 + 192) % 32 * 256 + p / 256 % 256) * 256 + p / 1 % 256
        ≡ p % 2097152 =
      omega arith in
    get_s_int_lat3 r (p / 65536 % 32 + 192) (p / 256 % 256) (p / 1 % 256) a (omega arith)
      (omega arith) (omega arith) (omega arith)
    ∙ rw (low, extend21 z h)

pub slat4-Decodes :
    (z : ℤ) → within z 0x8000000 ≡ true → Decodes get_s_int_lat (slat4 (pattern32 z)) z
slat4-Decodes z h r a =
    let p = pattern32 z in
    let low : (((p / 16777216 % 16 + 224) % 16 * 256 + p / 65536 % 256) * 256 + p / 256 % 256) * 256
          + p / 1 % 256
        ≡ p % 268435456 =
      omega arith in
    get_s_int_lat4 r (p / 16777216 % 16 + 224) (p / 65536 % 256) (p / 256 % 256) (p / 1 % 256) a
      (omega arith) (omega arith) (omega arith) (omega arith) (omega arith)
    ∙ rw (low, extend28 z h)

pattern32-lt : (z : ℤ) → IsInt32 z → pattern32 z < 2 ^ 32
unfolding pattern32
pattern32-lt (pos n) h = omega arith
pattern32-lt (negsuc n) h = omega arith

pub slat5-Decodes : (z : ℤ) (s : ℕ) → IsInt32 z → Decodes get_s_int_lat (slat5 s (pattern32 z)) z
slat5-Decodes z s h r a =
    let p = pattern32 z in
    let low : ((p / 16777216 % 256 * 256 + p / 65536 % 256) * 256 + p / 256 % 256) * 256
          + p / 1 % 256
        ≡ p =
      omega (arith, pattern32-lt z h) in
    get_s_int_lat5 r (s % 8 + 240) (p / 16777216 % 256) (p / 65536 % 256) (p / 256 % 256)
      (p / 1 % 256) a (omega arith) (omega arith) (omega arith) (omega arith) (omega arith)
      (omega arith)
    ∙ rw (low, extend32 z h)

-- With room for five bytes, every `signed int` put as a latecon integer is read back.
pub get_s_int_lat-put :
    (z : ℤ) (w : WriteBuffer)
    → IsInt32 z
    → HasRoom w 5
    → ReadsBack (put_s_int_lat z) get_s_int_lat z w
get_s_int_lat-put z w fits room =
    let p = pattern32 z in
    let back = reads_back (put_s_int_lat z) get_s_int_lat z w in
    elim (Bool-cases (within z 0x40)) [
      | inl y1 ↦
          back (slat1 p) (omega arith) (put_s_int_lat1 z w (omega arith) y1) (slat1-Decodes z y1)
      | inr n1 ↦ elim (Bool-cases (within z 0x2000)) [
        | inl y2 ↦
            back (slat2 p) (omega arith) (put_s_int_lat2 z w (omega arith) n1 y2)
              (slat2-Decodes z y2)
        | inr n2 ↦ elim (Bool-cases (within z 0x100000)) [
          | inl y3 ↦
              back (slat3 p) (omega arith) (put_s_int_lat3 z w (omega arith) n1 n2 y3)
                (slat3-Decodes z y3)
          | inr n3 ↦ elim (Bool-cases (within z 0x8000000)) [
            | inl y4 ↦
                back (slat4 p) (omega arith) (put_s_int_lat4 z w (omega arith) n1 n2 n3 y4)
                  (slat4-Decodes z y4)
            | inr n4 ↦
                back (slat5 (sign_word z) p) (omega arith) (put_s_int_lat5 z w room n1 n2 n3 n4)
                  (slat5-Decodes z (sign_word z) fits)
          ]
        ]
      ]
    ]
