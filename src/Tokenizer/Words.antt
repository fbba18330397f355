-- ===== src/Tokenizer/Words.antt =====
-- The loop over the characters of a word.
use nind.Prelude.{
  ℕ, zero, suc, ◌+◌, ◌<◌, ◌≤◌, ◌≡◌, refl, ◌⊎◌, inl, inr, List, length, true, false, some, ltb,
  arith, Bool-cases,
}
use nind.Bytes.{byte}
use nind.Tokenizer.{Options, byte_class, char_class, cuts, word_end}
use nind.Tokenizer.Chars.{char_class-IsChar}

module _ (options : Options) (text : List ℕ) where
  abbrev pub Passes : ℕ → ℕ → Type 0
  Passes i end = (p : ℕ) → i ≤ p → p < end → cuts options (byte_class (byte text p)) ≡ false

  -- A word from `i` to `end`, as long as it can be.
  pub record IsWord (i end : ℕ) : Type 0 where
    pub starts : i ≤ end
    pub fits : end ≤ length text
    pub passes : Passes i end
    pub ends : (end ≡ length text) ⊎ (cuts options (char_class text end).0 ≡ true)
    pub moves : i < length text → cuts options (char_class text i).0 ≡ false → i < end

  Ended : ℕ → ℕ → Type 0
  Ended fuel i = (end : ℕ) × (word_end options text fuel i ≡ some end) × IsWord i end

  word_end_outside :
      (fuel i : ℕ) → i ≤ length text → ltb i (length text) ≡ false → Ended (suc fuel) i
  unfolding Ended word_end
  word_end_outside fuel i le out = (
    i,
    rw (out, word_end) refl,
    record {
      starts = omega arith;
      fits = le;
      passes = λ p a b. absurd (omega arith);
      ends = inl (ground arith);
      moves = λ lt e. absurd (ground arith);
    },
  )

  word_end_cut :
      (fuel i : ℕ)
      → ltb i (length text) ≡ true
      → cuts options (char_class text i).0 ≡ true
      → Ended (suc fuel) i
  unfolding Ended word_end
  word_end_cut fuel i inside cut = (
    i,
    rw (inside, cut, word_end) refl,
    record {
      starts = omega arith;
      fits = ground arith;
      passes = λ p a b. absurd (omega arith);
      ends = inr cut;
      moves = λ lt e. absurd (cc);
    },
  )

  word_end_more :
      (fuel i : ℕ)
      → ltb i (length text) ≡ true
      → cuts options (char_class text i).0 ≡ false
      → Ended fuel (i + (char_class text i).1)
      → Ended (suc fuel) i
  unfolding Ended word_end
  word_end_more fuel i inside more (end, e, word) =
      let char = char_class-IsChar options text i (ground arith) in
      (
        end,
        rw (inside, more, word_end) e,
        record {
          starts = omega (arith, word.starts);
          fits = word.fits;
          passes = λ p a b. elim (Bool-cases (ltb p (i + (char_class text i).1))) [
            | inl here ↦ char.whole more p a (ground arith)
            | inr later ↦ word.passes p (ground arith) b
          ];
          ends = word.ends;
          moves = λ lt _. omega (arith, word.starts, char.moves);
        },
      )

  -- With fuel for every byte left, the loop ends.
  pub word_end_lem :
      (fuel i : ℕ)
      → i ≤ length text
      → length text < i + fuel
      → (end : ℕ) × (word_end options text fuel i ≡ some end) × IsWord i end
  unfolding Ended
  word_end_lem zero i le enough = absurd (omega arith)
  word_end_lem (suc fuel) i le enough = elim (Bool-cases (ltb i (length text))) [
    | inr out ↦ word_end_outside fuel i le out
    | inl inside ↦ elim (Bool-cases (cuts options (char_class text i).0)) [
      | inl cut ↦ word_end_cut fuel i inside cut
      | inr more ↦
          let char = char_class-IsChar options text i (ground arith) in
          word_end_more fuel i inside more
            (word_end_lem fuel (i + (char_class text i).1) char.fits (omega (arith, char.moves)))
    ]
  ]
