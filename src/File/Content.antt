-- ===== src/File/Content.antt =====
-- What `fwrite` leaves in a file, and what `fread` takes from it.
use nind.Prelude.{
  zero, suc, ◌≤◌, ◌⊎◌, refl, sym, inl, inr, [], ◌∷◌, take-all, drop-drop, ℕ, ◌+◌, ◌-◌, ◌≡◌, ap, ◌∙◌,
  max, List, ◌++◌, length, take, drop, replicate, length-append, length-take, length-drop,
  length-replicate, take-append, drop-append, arith,
}
use nind.File.{overwrite}

padded : List ℕ → ℕ → List ℕ
padded content at = content ++ replicate (at - length content) 0

length-padded : (content : List ℕ) (at : ℕ) → length (padded content at) ≡ max (length content) at
unfolding padded
length-padded content at = omega (
  arith,
  length-append content (replicate (at - length content) 0),
  length-replicate {A = ℕ} (at - length content) 0,
)

pub length-overwrite :
    (content : List ℕ) (at : ℕ) (new : List ℕ)
    → length (overwrite content at new) ≡ max (length content) (at + length new)
unfolding overwrite padded
length-overwrite content at new = omega (
  arith,
  length-append (take at (padded content at)) (new ++ drop (at + length new) content),
  length-take at (padded content at),
  length-padded content at,
  length-append new (drop (at + length new) content),
  length-drop (at + length new) content,
)

pub drop-overwrite :
    (content : List ℕ) (at : ℕ) (new : List ℕ)
    → drop at (overwrite content at new) ≡ new ++ drop (at + length new) content
unfolding overwrite padded
drop-overwrite content at new =
    after (take at (padded content at)) (new ++ drop (at + length new) content) at
      (omega (arith, length-take at (padded content at), length-padded content at))
  where
    after : (xs ys : List ℕ) (n : ℕ) → n ≡ length xs → drop n (xs ++ ys) ≡ ys
    after xs ys n e = rw e (drop-append xs ys)

-- What was written is read back from where it was written.
pub take-drop-overwrite :
    (content : List ℕ) (at : ℕ) (new : List ℕ)
    → take (length new) (drop at (overwrite content at new)) ≡ new
take-drop-overwrite content at new =
    ap (take (length new)) (drop-overwrite content at new)
    ∙ take-append new (drop (at + length new) content)

-- The bytes [from, from + n).
abbrev pub bytes_at : ℕ → ℕ → List ℕ → List ℕ
bytes_at from n content = take n (drop from content)

take-take-append :
    (n k : ℕ) (xs ys : List ℕ) → n ≤ k → k ≤ length xs → take n (take k xs ++ ys) ≡ take n xs
take-take-append zero k xs ys le le' = refl
take-take-append (suc n) zero xs ys le le' = absurd (omega arith)
take-take-append (suc n) (suc k) [] ys le le' = absurd (omega arith)
take-take-append (suc n) (suc k) (x ∷ xs) ys le le' =
    ap (λ (l : List ℕ). x ∷ l) (take-take-append n k xs ys (omega arith) (omega arith))

-- Before the cut.
bytes_at-front :
    (from n k : ℕ) (xs ys : List ℕ)
    → from + n ≤ k
    → k ≤ length xs
    → bytes_at from n (take k xs ++ ys) ≡ bytes_at from n xs
bytes_at-front zero n k xs ys le le' = take-take-append n k xs ys (omega arith) le'
bytes_at-front (suc from) n zero xs ys le le' = absurd (omega arith)
bytes_at-front (suc from) n (suc k) [] ys le le' = absurd (omega arith)
bytes_at-front (suc from) n (suc k) (x ∷ xs) ys le le' =
    bytes_at-front from n k xs ys (omega arith) (omega arith)

-- Behind the head.
drop-behind :
    (from : ℕ) (xs ys : List ℕ) (m : ℕ) → from ≡ length xs + m → drop from (xs ++ ys) ≡ drop m ys
drop-behind from [] ys m e = ap (λ n. drop n ys) (omega arith)
drop-behind zero (x ∷ xs) ys m e = absurd (omega arith)
drop-behind (suc from) (x ∷ xs) ys m e = drop-behind from xs ys m (omega arith)

-- Bytes apart from what is written stay as they are.
pub bytes_at-overwrite :
    (content : List ℕ) (at : ℕ) (new : List ℕ) (from n : ℕ)
    → from + n ≤ length content
    → (from + n ≤ at) ⊎ (at + length new ≤ from)
    → bytes_at from n (overwrite content at new) ≡ bytes_at from n content
unfolding overwrite padded
bytes_at-overwrite content at new from n le (inl before) =
    bytes_at-front from n at (padded content at) (new ++ drop (at + length new) content) before
      (omega (arith, length-padded content at))
    ∙ whole (at - length content)
  where
    whole : (k : ℕ) → bytes_at from n (content ++ replicate k 0) ≡ bytes_at from n content
    whole k =
        ap (λ c. bytes_at from n (c ++ replicate k 0)) (sym (take-all content))
        ∙ bytes_at-front from n (length content) content (replicate k 0) le (omega arith)
bytes_at-overwrite content at new from n le (inr behind) = ap (take n) (
    drop-behind from (take at (padded content at)) (new ++ drop (at + length new) content)
      (from - at) (omega (arith, length-take at (padded content at), length-padded content at))
    ∙ drop-behind (from - at) new (drop (at + length new) content) (from - (at + length new))
        (omega arith)
    ∙ drop-drop (from - (at + length new)) (at + length new) from content (omega arith))
