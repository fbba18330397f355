-- ===== src/Tokenizer/Tokens.antt =====
-- The tokens of a text.
use nind.Prelude.{
  ℕ, zero, suc, ◌+◌, ◌-◌, ◌<◌, ◌≤◌, ◌≡◌, refl, sym, subst, ◌∙◌, ◌⊎◌, inl, inr, List, [], ◌++◌,
  length, true, false, some, ltb, arith, Bool-cases, All,
}
use nind.Bytes.{byte}
use nind.Tokenizer.{
  Options, Span, byte_class, char_class, cuts, word_end, pieces, tokenize_from, tokenize,
}
use nind.Tokenizer.Chars.{char_class-IsChar}
use nind.Tokenizer.Words.{IsWord, word_end_lem}
use nind.Tokenizer.Pieces.{IsPiece, InWord, All-append, All-weaken, pieces-IsPiece}
use nind.Tokenizer.Spans.{
  InOrder, covers, InOrder-weaken, InOrder-append, covers-InOrder, covers-append, pieces-InOrder,
  pieces-cover,
}

module _ (options : Options) (text : List ℕ) where
  -- A byte of a character that separates words.
  abbrev pub Separates : ℕ → Type 0
  Separates p =
      (c : ℕ) × (c ≤ p)
      × (p < c + (char_class text c).1)
      × (cuts options (char_class text c).0 ≡ true)

  -- Every length that the text can give is permitted.
  abbrev pub AllLengths : Type 0
  AllLengths = (options.min_length ≤ 1) × (length text ≤ options.max_length)

  -- The tokens from `i` on.
  pub record Tokens (i : ℕ) (spans : List Span) : Type 0 where
    pub in_order : InOrder options i (length text) spans
    pub clean : (p : ℕ) → covers p spans ≡ true → cuts options (byte_class (byte text p)) ≡ false
    pub complete :
        AllLengths → (p : ℕ) → i ≤ p → p < length text → (covers p spans ≡ true) ⊎ Separates p
    pub in_words : All (InWord options text) spans

  end_of_text : (i : ℕ) → i ≤ length text → ltb i (length text) ≡ false → Tokens i []
  end_of_text i le out = record {
    in_order = le;
    clean = λ p c. absurd (cc);
    complete = λ all p a b. absurd (ground arith);
    in_words = tt;
  }

  separator_then :
      (i : ℕ) (spans : List Span)
      → i < length text
      → cuts options (char_class text i).0 ≡ true
      → Tokens (i + (char_class text i).1) spans
      → Tokens i spans
  separator_then i spans inside cut h = record {
    in_order =
        InOrder-weaken options i (i + (char_class text i).1) (length text) spans (omega arith)
          h.in_order;
    clean = h.clean;
    complete = λ all p a b. elim (Bool-cases (ltb p (i + (char_class text i).1))) [
      | inl here ↦ inr (i, a, ground arith, cut)
      | inr later ↦ h.complete all p (ground arith) b
    ];
    in_words = h.in_words;
  }

  word_then :
      (i end : ℕ) (spans : List Span)
      → i < end
      → IsWord options text i end
      → Tokens end spans
      → Tokens i (pieces options text end (end - i) (i + 1) i ++ spans)
  word_then i end spans lt word h = record {
    in_order = InOrder-append options i end (length text) new spans new_in_order h.in_order;
    clean = λ p c. elim (Bool-cases (covers p new)) [
      | inl here ↦
          let (ge, le) = covers-InOrder options i end p new new_in_order here in word.passes p ge le
      | inr later ↦ h.clean p (ground (arith, covers-append options p new spans))
    ];
    complete = λ all p a b. elim (Bool-cases (ltb p end)) [
      | inl here ↦ inl (
          ground (
            arith,
            covers-append options p new spans,
            pieces-cover options text end (end - i) (i + 1) i p all.0
                (omega (arith, all.1, word.fits)) (omega arith) (omega arith)
                (λ z. absurd (omega arith)) a,
          ))
      | inr later ↦ elim (h.complete all p (ground arith) b) [
        | inl covered ↦ inl (ground (arith, covers-append options p new spans))
        | inr sep ↦ inr sep
      ]
    ];
    in_words =
        All-append (InWord options text) new spans
          (All-weaken (IsPiece options text end) (InWord options text) new
            (λ x piece. record { word_end_at = end; word_ends = word.ends; is_piece = piece })
            (pieces-IsPiece options text end (end - i) (i + 1) i (omega arith) (omega arith)
              (λ k ge le. absurd (omega arith))))
          h.in_words;
  }
    where
      new : List Span
      new = pieces options text end (end - i) (i + 1) i

      new_in_order : InOrder options i end new
      new_in_order = pieces-InOrder options text end (end - i) (i + 1) i (omega arith) (omega arith)

  Tokenized : ℕ → ℕ → Type 0
  Tokenized fuel i =
      (spans : List Span) × (tokenize_from options text fuel i ≡ some spans) × Tokens i spans

  ends_there : (fuel i : ℕ) → i ≤ length text → ltb i (length text) ≡ false → Tokenized (suc fuel) i
  unfolding Tokenized tokenize_from
  ends_there fuel i le out = ([], rw (out, tokenize_from) refl, end_of_text i le out)

  skips_separator :
      (fuel i : ℕ)
      → ltb i (length text) ≡ true
      → cuts options (char_class text i).0 ≡ true
      → Tokenized fuel (i + (char_class text i).1)
      → Tokenized (suc fuel) i
  unfolding Tokenized tokenize_from
  skips_separator fuel i inside cut (spans, e, h) =
      (spans, rw (inside, cut, tokenize_from) e, separator_then i spans (ground arith) cut h)

  takes_word :
      (fuel i end : ℕ)
      → ltb i (length text) ≡ true
      → cuts options (char_class text i).0 ≡ false
      → word_end options text (suc (length text)) i ≡ some end
      → IsWord options text i end
      → Tokenized fuel end
      → Tokenized (suc fuel) i
  unfolding Tokenized tokenize_from
  takes_word fuel i end inside more at word (spans, e, h) = (
    pieces options text end (end - i) (i + 1) i ++ spans,
    rw (inside, more, at, e, tokenize_from) refl,
    word_then i end spans (word.moves (ground arith) more) word h,
  )

  tokenized : (fuel i : ℕ) → i ≤ length text → length text < i + fuel → Tokenized fuel i
  tokenized zero i le enough = absurd (omega arith)
  tokenized (suc fuel) i le enough = elim (Bool-cases (ltb i (length text))) [
    | inr out ↦ ends_there fuel i le out
    | inl inside ↦ elim (Bool-cases (cuts options (char_class text i).0)) [
      | inl cut ↦
          let char = char_class-IsChar options text i (ground arith) in
          skips_separator fuel i inside cut
            (tokenized fuel (i + (char_class text i).1) char.fits (omega (arith, char.moves)))
      | inr more ↦
          let (end, at, word) = word_end_lem options text (suc (length text)) i le (omega arith) in
          takes_word fuel i end inside more at word
            (tokenized fuel end word.fits (omega (arith, word.moves (ground arith) more)))
    ]
  ]

  whole_text : Tokenized (suc (length text)) 0
  whole_text = tokenized (suc (length text)) 0 (omega arith) (omega arith)

  spans-Tokens : (spans : List Span) → tokenize options text ≡ some spans → Tokens 0 spans
  unfolding Tokenized tokenize
  spans-Tokens spans e =
      let (found, at, tokens) = whole_text in subst (Tokens 0) (some-inj (sym at ∙ e)) tokens
    where
      some-inj : {xs ys : List Span} → some xs ≡ some ys → xs ≡ ys
      some-inj eq = cc

-- The loops end on every text, and the spans are in the text, not empty, of permitted lengths,
-- and each one ends before the next begins.
pub tokenize-InOrder :
    (options : Options) (text : List ℕ)
    → (spans : List Span) × (tokenize options text ≡ some spans)
      × InOrder options 0 (length text) spans
unfolding Tokenized tokenize
tokenize-InOrder options text =
    let (spans, e, tokens) = whole_text options text in (spans, e, tokens.in_order)

-- An ASCII letter or digit, a byte of a character that is not ASCII, or an underscore where these do
-- not split.
abbrev pub IsWordByte : Options → ℕ → Type 0
IsWordByte options c =
    ((0x41 ≤ c) × (c ≤ 0x5A))
    ⊎ ((0x61 ≤ c) × (c ≤ 0x7A))
    ⊎ ((0x30 ≤ c) × (c ≤ 0x39))
    ⊎ (0x80 ≤ c)
    ⊎ ((c ≡ 0x5F) × (options.split_underscore ≡ false))

uncut-IsWordByte :
    (options : Options) (c : ℕ) → cuts options (byte_class c) ≡ false → IsWordByte options c
unfolding cuts byte_class
uncut-IsWordByte options c h = ground arith

-- Every byte of a token is an ASCII letter or digit, a byte of 128 or more, or an underscore where
-- underscores do not split: none is other ASCII punctuation, a space or a control.
pub tokenize_clean :
    (options : Options) (text : List ℕ) (spans : List Span) (p : ℕ)
    → tokenize options text ≡ some spans
    → covers p spans ≡ true
    → IsWordByte options (byte text p)
tokenize_clean options text spans p e covered =
    uncut-IsWordByte options (byte text p) ((spans-Tokens options text spans e).clean p covered)

pub tokenize-InWord :
    (options : Options) (text : List ℕ) (spans : List Span)
    → tokenize options text ≡ some spans
    → All (InWord options text) spans
tokenize-InWord options text spans e = (spans-Tokens options text spans e).in_words

-- Where lengths from 1 to that of the text are permitted, every byte is in a token or in a
-- character that separates words.
pub tokenize_complete :
    (options : Options) (text : List ℕ) (spans : List Span) (p : ℕ)
    → AllLengths options text
    → tokenize options text ≡ some spans
    → p < length text
    → (covers p spans ≡ true) ⊎ Separates options text p
tokenize_complete options text spans p all e lt =
    (spans-Tokens options text spans e).complete all p (omega arith) lt
