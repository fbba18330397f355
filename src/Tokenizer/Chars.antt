-- ===== src/Tokenizer/Chars.antt =====
-- The characters that `charClass` reads: their lengths and the classes of their bytes.
use nind.Prelude.{
  ℕ, zero, suc, ◌+◌, ◌-◌, ◌<◌, ◌≤◌, ◌≡◌, refl, subst, inl, inr, List, length, true, false, Option,
  none, some, ltb, ◌==◌, bit_and, bit_or, arith, Bool-cases, Option-cases,
}
use nind.Prelude.Bits.{top_bits_test}
use nind.Bytes.{byte, shl32}
use nind.Tokenizer.{
  Options, ByteClass, separator, other, byte_class, lead, continued, decoded, wide_char, char_class,
  cuts, is_separator_code_point,
}

lead-bounds : (c n bits : ℕ) → lead c ≡ some (n, bits) → (2 ≤ n) × (n ≤ 4)
unfolding lead
lead-bounds c n bits e = ground arith

pub byte_class-other : (c : ℕ) → 128 ≤ c → byte_class c ≡ other
unfolding byte_class
byte_class-other c le = ground arith

continuation : (b : ℕ) → (bit_and b 0xC0 == 0x80) ≡ true → 128 ≤ b
continuation b e = ground (arith, top_bits_test b)

-- Continuation bytes are of class OTHER.
continued-other :
    (text : List ℕ) (n i code_point c p : ℕ)
    → continued text n i code_point ≡ some c
    → i ≤ p
    → p < i + n
    → 128 ≤ byte text p
unfolding continued
continued-other text zero i code_point c p e le lt = absurd (omega arith)
continued-other text (suc n) i code_point c p e le lt =
    elim (Bool-cases (bit_and (byte text i) 0xC0 == 0x80)) [
      | inr wrong ↦ absurd (ground arith)
      | inl right ↦ elim (Bool-cases (p == i)) [
        | inl here ↦
            subst (λ q. 128 ≤ byte text q) (ground arith) (continuation (byte text i) right)
        | inr later ↦
            continued-other text n (i + 1)
              (bit_or (shl32 code_point 6) (bit_and (byte text i) 0x3F)) c p (ground arith)
              (ground arith) (omega arith)
      ]
    ]

-- What is read at `i`: some bytes inside the text, where no byte cuts unless the character does.
pub record IsChar (options : Options) (text : List ℕ) (i : ℕ) (c : ByteClass × ℕ) : Type 0 where
  pub moves : 0 < c.1
  pub fits : i + c.1 ≤ length text
  pub whole :
      cuts options c.0 ≡ false
      → (p : ℕ) → i ≤ p
      → p < i + c.1
      → cuts options (byte_class (byte text p)) ≡ false

module _ (options : Options) (text : List ℕ) (i : ℕ) (inside : i < length text) where
  single : IsChar options text i (byte_class (byte text i), 1)
  single = record {
    moves = omega arith;
    fits = omega arith;
    whole =
        λ e p le lt. subst (λ q. cuts options (byte_class (byte text q)) ≡ false) (omega arith) e;
  }

  other_passes : (p : ℕ) → 128 ≤ byte text p → cuts options (byte_class (byte text p)) ≡ false
  unfolding cuts
  other_passes p le = ground (arith, byte_class-other (byte text p) le)

  -- A character of several bytes, of class OTHER or a separator.
  several :
      (n bits c : ℕ)
      → 2 ≤ n
      → 128 ≤ byte text i
      → i + n ≤ length text
      → continued text (n - 1) (i + 1) bits ≡ some c
      → (cls : ByteClass) → IsChar options text i (cls, n)
  several n bits c two wide fits e cls = record {
    moves = omega arith;
    fits = fits;
    whole = λ _ p le lt. other_passes p (elim (Bool-cases (p == i)) [
      | inl here ↦ subst (λ q. 128 ≤ byte text q) (ground arith) wide
      | inr later ↦ continued-other text (n - 1) (i + 1) bits c p e (ground arith) (omega arith)
    ]);
  }

  decoded-IsChar :
      (n bits : ℕ)
      → 2 ≤ n
      → 128 ≤ byte text i
      → i + n ≤ length text
      → IsChar options text i
          (decoded (byte_class (byte text i)) n (continued text (n - 1) (i + 1) bits))
  decoded-IsChar n bits two wide fits = elim (Option-cases (continued text (n - 1) (i + 1) bits)) [
    | inl e ↦ rw e single
    | inr (c, e) ↦ rw e (elim (Bool-cases (is_separator_code_point c)) [
      | inl sep ↦ rw sep (several n bits c two wide fits e separator)
      | inr word ↦ rw word (several n bits c two wide fits e (byte_class (byte text i)))
    ])
  ]

  wide-IsChar :
      (o : Option (ℕ × ℕ))
      → ((n bits : ℕ) → o ≡ some (n, bits) → 2 ≤ n)
      → 128 ≤ byte text i
      → IsChar options text i (wide_char text i (byte_class (byte text i)) o)
  wide-IsChar none two wide = single
  wide-IsChar (some (n, bits)) two wide = elim (Bool-cases (ltb (length text) (i + n))) [
    | inl cut ↦ rw cut single
    | inr fits ↦ rw fits (decoded-IsChar n bits (two n bits refl) wide (ground arith))
  ]

  pub char_class-IsChar : IsChar options text i (char_class text i)
  unfolding char_class
  char_class-IsChar = elim (Bool-cases (ltb (byte text i) 0x80)) [
    | inl ascii ↦ rw ascii single
    | inr wide ↦ rw wide (
        wide-IsChar (lead (byte text i)) (λ n bits e. (lead-bounds (byte text i) n bits e).0)
          (ground arith))
  ]
