-- ===== src/Tokenizer/Spans.antt =====
-- Lists of spans in order, and the pieces of one word.
use nind.Prelude.{
  ℕ, zero, suc, ◌+◌, ◌-◌, ◌<◌, ◌≤◌, ◌≡◌, refl, inl, inr, List, [], ◌∷◌, ◌++◌, Bool, true, false,
  not, ◌&&◌, ◌||◌, ltb, leb, if◌then◌else◌, arith, Bool-cases,
}
use nind.Tokenizer.{Options, Span, is_boundary, pieces}

-- Spans that are not empty, of permitted lengths, one after the other from `low` to `high`.
abbrev pub InOrder : Options → ℕ → ℕ → List Span → Type 0
InOrder options low high [] = low ≤ high
InOrder options low high ((begin, end) ∷ spans) =
    (low ≤ begin)
    × (begin < end)
    × (options.min_length ≤ end - begin)
    × (end - begin ≤ options.max_length)
    × InOrder options end high spans

-- Whether a byte stands in one of the spans.
abbrev pub covers : ℕ → List Span → Bool
covers p [] = false
covers p ((begin, end) ∷ spans) = (leb begin p && ltb p end) || covers p spans

module _ (options : Options) where
  pub InOrder-weaken :
      (low mid high : ℕ) (spans : List Span)
      → low ≤ mid
      → InOrder options mid high spans
      → InOrder options low high spans
  InOrder-weaken low mid high [] le h = omega arith
  InOrder-weaken low mid high ((b, e) ∷ spans) le (h1, h2, h3, h4, h) = (omega arith, h2, h3, h4, h)

  pub InOrder-append :
      (low mid high : ℕ) (xs ys : List Span)
      → InOrder options low mid xs
      → InOrder options mid high ys
      → InOrder options low high (xs ++ ys)
  InOrder-append low mid high [] ys h hy = InOrder-weaken low mid high ys h hy
  InOrder-append low mid high ((b, e) ∷ xs) ys (h1, h2, h3, h4, h) hy =
      (h1, h2, h3, h4, InOrder-append e mid high xs ys h hy)

  pub InOrder-le : (low high : ℕ) (spans : List Span) → InOrder options low high spans → low ≤ high
  InOrder-le low high [] h = h
  InOrder-le low high ((b, e) ∷ spans) (h1, h2, h3, h4, h) =
      omega (arith, InOrder-le e high spans h)

  pub covers-InOrder :
      (low high p : ℕ) (spans : List Span)
      → InOrder options low high spans
      → covers p spans ≡ true
      → (low ≤ p) × (p < high)
  covers-InOrder low high p [] h e = absurd (cc)
  covers-InOrder low high p ((b, e) ∷ spans) (h1, h2, h3, h4, h) c =
      ground (arith, covers-InOrder e high p spans h, InOrder-le e high spans h)

  pub covers-append :
      (p : ℕ) (xs ys : List Span) → covers p (xs ++ ys) ≡ (covers p xs || covers p ys)
  covers-append p [] ys = refl
  covers-append p ((b, e) ∷ xs) ys = ground (arith, covers-append p xs ys)

  module _ (text : List ℕ) (end : ℕ) where
    -- A piece that is cut at `j`, kept where its length is permitted.
    pieces_cut :
        (n j piece_begin : ℕ)
        → piece_begin < j
        → InOrder options j end (pieces options text end n (j + 1) j)
        → InOrder options piece_begin end (
            if leb options.min_length (j - piece_begin) && leb (j - piece_begin) options.max_length
            then (piece_begin, j) ∷ pieces options text end n (j + 1) j
            else pieces options text end n (j + 1) j)
    pieces_cut n j piece_begin lt rest = ground (
      arith,
      rest,
      InOrder-weaken piece_begin j end (pieces options text end n (j + 1) j) (omega arith) rest,
    )

    pub pieces-InOrder :
        (n j piece_begin : ℕ)
        → piece_begin < j
        → j + n ≡ end + 1
        → InOrder options piece_begin end (pieces options text end n j piece_begin)
    unfolding pieces
    pieces-InOrder zero j piece_begin lt e = omega arith
    pieces-InOrder (suc n) j piece_begin lt e =
        elim (Bool-cases (ltb j end && not (is_boundary options text j end))) [
          | inl whole ↦ rw whole (pieces-InOrder n (j + 1) piece_begin (omega arith) (omega arith))
          | inr cut ↦ rw cut (
              pieces_cut n j piece_begin lt
                (pieces-InOrder n (j + 1) j (omega arith) (omega arith)))
        ]

    -- Where every length is permitted, the pieces cover the word.
    pub pieces-cover :
        (n j piece_begin p : ℕ)
        → options.min_length ≤ 1
        → end ≤ options.max_length
        → piece_begin < j
        → j + n ≡ end + 1
        → (n ≡ 0 → end ≤ piece_begin)
        → piece_begin ≤ p
        → p < end
        → covers p (pieces options text end n j piece_begin) ≡ true
    unfolding pieces
    pieces-cover zero j piece_begin p low high lt e done ge within =
        absurd (omega (arith, done refl))
    pieces-cover (suc n) j piece_begin p low high lt e done ge within =
        elim (Bool-cases (ltb j end && not (is_boundary options text j end))) [
          | inl whole ↦ rw whole (
              pieces-cover n (j + 1) piece_begin p low high (omega arith) (omega arith)
                (λ last. ground arith) ge within)
          | inr cut ↦ rw cut (
              ground (
                arith,
                pieces-cover n (j + 1) j p low high (omega arith) (omega arith)
                    (λ last. omega arith),
              ))
        ]
