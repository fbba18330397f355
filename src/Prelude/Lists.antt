-- ===== src/Prelude/Lists.antt =====
-- Lists measured and indexed by native numbers, under the library's names, and the write of a
-- run of elements in place (`splice`).
use Prim.Native.Nat.{ℕ, zero, suc, ◌+◌, ◌-◌, ◌≤◌, min}
use Prim.Native.Nat.add
use mathlib.Core.Path.{ap₂, ◌≡◌, refl, sym, ap, ◌∙◌}
use mathlib.Core.List.{List, [], ◌∷◌, ◌++◌, append_assoc}
use mathlib.Core.Option.{Option, none, some}
use native.Mathlib.Omega.{arith}

module _ {ℓ} {A : Type ℓ} where
  abbrev pub length : List A → ℕ
  length [] = 0
  length (x ∷ xs) = suc (length xs)

  abbrev pub get_elem? : List A → ℕ → Option A
  get_elem? [] i = none
  get_elem? (x ∷ xs) zero = some x
  get_elem? (x ∷ xs) (suc i) = get_elem? xs i

  -- A write out of bounds changes nothing.
  abbrev pub set : List A → ℕ → A → List A
  set [] i v = []
  set (x ∷ xs) zero v = v ∷ xs
  set (x ∷ xs) (suc i) v = x ∷ set xs i v

  abbrev pub get_or : List A → ℕ → A → A
  get_or [] i d = d
  get_or (x ∷ xs) zero d = x
  get_or (x ∷ xs) (suc i) d = get_or xs i d

  abbrev pub take : ℕ → List A → List A
  take zero xs = []
  take (suc n) [] = []
  take (suc n) (x ∷ xs) = x ∷ take n xs

  abbrev pub drop : ℕ → List A → List A
  drop zero xs = xs
  drop (suc n) [] = []
  drop (suc n) (x ∷ xs) = drop n xs

  abbrev pub replicate : ℕ → A → List A
  replicate zero a = []
  replicate (suc n) a = a ∷ replicate n a

  abbrev pub All {κ} : (A → Type κ) → List A → Type κ
  All P [] = Unit {κ}
  All P (x ∷ xs) = P x × All P xs

  pub length-append : (xs ys : List A) → length (xs ++ ys) ≡ length xs + length ys
  length-append [] ys = omega arith
  length-append (x ∷ xs) ys = omega (arith, length-append xs ys)

module _ {ℓ} {A : Type ℓ} where
  pub length-set : (xs : List A) (i : ℕ) (v : A) → length (set xs i v) ≡ length xs
  length-set [] i v = refl
  length-set (x ∷ xs) zero v = refl
  length-set (x ∷ xs) (suc i) v = ap suc (length-set xs i v)

  pub length-take : (n : ℕ) (xs : List A) → length (take n xs) ≡ min n (length xs)
  length-take zero xs = omega arith
  length-take (suc n) [] = omega arith
  length-take (suc n) (x ∷ xs) = omega (arith, length-take n xs)

  pub length-drop : (n : ℕ) (xs : List A) → length (drop n xs) ≡ length xs - n
  length-drop zero xs = omega arith
  length-drop (suc n) [] = omega arith
  length-drop (suc n) (x ∷ xs) = omega (arith, length-drop n xs)

  pub length-replicate : (n : ℕ) (a : A) → length (replicate n a) ≡ n
  length-replicate zero a = refl
  length-replicate (suc n) a = ap suc (length-replicate n a)

  pub take-append : (xs ys : List A) → take (length xs) (xs ++ ys) ≡ xs
  take-append [] ys = refl
  take-append (x ∷ xs) ys = ap (λ (l : List A). x ∷ l) (take-append xs ys)

  pub drop-append : (xs ys : List A) → drop (length xs) (xs ++ ys) ≡ ys
  drop-append [] ys = refl
  drop-append (x ∷ xs) ys = drop-append xs ys

  pub take-all : (xs : List A) → take (length xs) xs ≡ xs
  take-all [] = refl
  take-all (x ∷ xs) = ap (λ (l : List A). x ∷ l) (take-all xs)

  -- Overwrites the run of elements that begins at `i`.
  abbrev pub splice : List A → ℕ → List A → List A
  splice xs i new = take i xs ++ (new ++ drop (i + length new) xs)

  pub length-splice :
      (xs : List A) (i : ℕ) (new : List A)
      → i + length new ≤ length xs
      → length (splice xs i new) ≡ length xs
  length-splice xs i new h = omega (
    arith,
    length-append (take i xs) (new ++ drop (i + length new) xs),
    length-append new (drop (i + length new) xs),
    length-take i xs,
    length-drop (i + length new) xs,
  )

  take_front : (xs ys : List A) (n : ℕ) → n ≡ length xs → take n (xs ++ ys) ≡ xs
  take_front xs ys n e = rw e (take-append xs ys)

  drop_front : (xs ys : List A) (n : ℕ) → n ≡ length xs → drop n (xs ++ ys) ≡ ys
  drop_front xs ys n e = rw e (drop-append xs ys)

  -- What stands before the end of the run: the old elements before it, then the run.
  pub take-splice :
      (xs : List A) (i : ℕ) (new : List A)
      → i ≤ length xs
      → take (i + length new) (splice xs i new) ≡ take i xs ++ new
  take-splice xs i new h =
      ap (take (i + length new)) (sym (append_assoc (take i xs) new (drop (i + length new) xs)))
      ∙ take_front (take i xs ++ new) (drop (i + length new) xs) (i + length new)
          (omega (arith, length-append (take i xs) new, length-take i xs))

  pub drop-take-splice :
      (xs : List A) (i : ℕ) (new : List A)
      → i ≤ length xs
      → drop i (take (i + length new) (splice xs i new)) ≡ new
  drop-take-splice xs i new h =
      rw (take-splice xs i new h) (drop_front (take i xs) new i (omega (arith, length-take i xs)))

drop-nil {ℓ} : {A : Type ℓ} (m : ℕ) → drop {A = A} m [] ≡ []
drop-nil zero = refl
drop-nil (suc m) = refl

module _ {ℓ} {A : Type ℓ} where
  pub drop-drop : (m k n : ℕ) (xs : List A) → n ≡ k + m → drop m (drop k xs) ≡ drop n xs
  drop-drop m zero n xs e = rw (e, add.zero m)
  drop-drop m (suc k) zero xs e = absurd (omega arith)
  drop-drop m (suc k) (suc n) [] e = drop-nil m
  drop-drop m (suc k) (suc n) (x ∷ xs) e = drop-drop m k n xs (omega arith)

  -- Two runs written one after the other are one run.
  pub splice-splice :
      (xs : List A) (i : ℕ) (front back : List A)
      → i ≤ length xs
      → splice (splice xs i front) (i + length front) back ≡ splice xs i (front ++ back)
  splice-splice xs i front back h =
      ap₂ (λ (l r : List A). l ++ (back ++ r)) (take-splice xs i front h) rest
      ∙ append_assoc (take i xs) front (back ++ drop (i + length (front ++ back)) xs)
      ∙ ap (λ (l : List A). take i xs ++ l)
          (sym (append_assoc front back (drop (i + length (front ++ back)) xs)))
    where
      behind : drop (i + length front) (splice xs i front) ≡ drop (i + length front) xs
      behind =
          ap (drop (i + length front))
            (sym (append_assoc (take i xs) front (drop (i + length front) xs)))
          ∙ drop_front (take i xs ++ front) (drop (i + length front) xs) (i + length front)
              (omega (arith, length-append (take i xs) front, length-take i xs))

      rest :
          drop (i + length front + length back) (splice xs i front)
          ≡ drop (i + length (front ++ back)) xs
      rest =
          sym (drop-drop (length back) (i + length front) _ (splice xs i front) refl)
          ∙ ap (drop (length back)) behind
          ∙ drop-drop (length back) (i + length front) _ xs
              (omega (arith, length-append front back))
