-- ===== src/Tokenizer/Pieces.antt =====
-- Where the pieces of a word are cut.
use nind.Prelude.{
  ℕ, zero, suc, ◌+◌, ◌<◌, ◌≡◌, ◌⊎◌, inl, inr, List, [], ◌∷◌, ◌++◌, length, Bool, true, false, not,
  ◌&&◌, ltb, if◌then◌else◌, arith, Bool-cases, All,
}
use nind.Tokenizer.{Options, Span, char_class, cuts, is_boundary, pieces}

-- A piece of a word that ends at `end`: it ends with the word or at a boundary, and no boundary is
-- inside it.
pub record IsPiece (options : Options) (text : List ℕ) (end : ℕ) (span : Span) : Type 0 where
  pub not_empty : span.0 < span.1
  pub ends_at : (span.1 ≡ end) ⊎ (is_boundary options text span.1 end ≡ true)
  pub uncut : (j : ℕ) → span.0 < j → j < span.1 → is_boundary options text j end ≡ false

-- A piece of a word that a separator or the end of the text follows.
pub record InWord (options : Options) (text : List ℕ) (span : Span) : Type 0 where
  pub word_end_at : ℕ
  pub word_ends :
      (word_end_at ≡ length text) ⊎ (cuts options (char_class text word_end_at).0 ≡ true)
  pub is_piece : IsPiece options text word_end_at span

pub All-append : (P : Span → Type 0) (xs ys : List Span) → All P xs → All P ys → All P (xs ++ ys)
All-append P [] ys h hy = hy
All-append P (x ∷ xs) ys (hx, h) hy = (hx, All-append P xs ys h hy)

pub All-weaken :
    (P Q : Span → Type 0) (xs : List Span) → ((x : Span) → P x → Q x) → All P xs → All Q xs
All-weaken P Q [] f h = tt
All-weaken P Q (x ∷ xs) f (hx, h) = (f x hx, All-weaken P Q xs f h)

module _ (options : Options) (text : List ℕ) (end : ℕ) where
  kept_if :
      (b : Bool) (x : Span) (xs : List Span)
      → IsPiece options text end x
      → All (IsPiece options text end) xs
      → All (IsPiece options text end) (if b then x ∷ xs else xs)
  kept_if true x xs hx h = (hx, h)
  kept_if false x xs hx h = h

  pub pieces-IsPiece :
      (n j piece_begin : ℕ)
      → piece_begin < j
      → j + n ≡ end + 1
      → ((k : ℕ) → piece_begin < k → k < j → is_boundary options text k end ≡ false)
      → All (IsPiece options text end) (pieces options text end n j piece_begin)
  unfolding pieces
  pieces-IsPiece zero j piece_begin lt e before = tt
  pieces-IsPiece (suc n) j piece_begin lt e before =
      elim (Bool-cases (ltb j end && not (is_boundary options text j end))) [
        | inl whole ↦ rw whole (
            pieces-IsPiece n (j + 1) piece_begin (omega arith) (omega arith) (λ k ge le.
              elim (Bool-cases (ltb k j)) [
                | inl earlier ↦ before k ge (ground arith)
                | inr now ↦ let same : k ≡ j = ground arith in rw same (ground arith)
              ]))
        | inr cut ↦ rw cut (
            kept_if _ (piece_begin, j) (pieces options text end n (j + 1) j)
              (record { not_empty = lt; ends_at = at_end cut; uncut = before })
              (pieces-IsPiece n (j + 1) j (omega arith) (omega arith)
                (λ k ge le. absurd (omega arith))))
      ]
    where
      at_end :
          (ltb j end && not (is_boundary options text j end)) ≡ false
          → (j ≡ end) ⊎ (is_boundary options text j end ≡ true)
      at_end cut = elim (Bool-cases (is_boundary options text j end)) [
        | inl here ↦ inr here
        | inr within ↦ inl (ground arith)
      ]
