-- ===== src/Prelude/Merge.antt =====
-- Lemmas on maps listed in order: appending, and the parts below and from a key.
use Prim.Native.Nat.{ℕ, ◌+◌, ◌<◌, ◌≤◌}
use mathlib.Core.Path.{◌≡◌, refl}
use mathlib.Core.Option.{Option, none, some}
use mathlib.Core.List.{[], ◌∷◌, ◌++◌}
use native.Mathlib.Omega.{arith}
use nind.Prelude.Lists.{length, All}
use nind.Prelude.Tests.{if◌then◌else◌, ltb}
use nind.Prelude.Map.{Map, nat_eq, find}
use nind.Prelude.Ordered.{After, Sorted, After-trans}

abbrev pub AtLeast : {V : Type 0} → ℕ → Map ℕ V → Type 0
AtLeast k = All (λ p. k ≤ p.0)

abbrev pub or_else {ℓ} : {A : Type ℓ} → Option A → Option A → Option A
or_else none b = b
or_else (some a) b = some a

module _ {V : Type 0} where
  -- The entries below a key, and those from it on.
  unfoldable pub before : ℕ → Map ℕ V → Map ℕ V
  before key [] = []
  before key ((k, v) ∷ rest) = if ltb k key then (k, v) ∷ before key rest else []

  unfoldable pub from : ℕ → Map ℕ V → Map ℕ V
  from key [] = []
  from key ((k, v) ∷ rest) = if ltb k key then from key rest else (k, v) ∷ rest

  pub find-append : (j : ℕ) (xs ys : Map ℕ V) → find j (xs ++ ys) ≡ or_else (find j xs) (find j ys)
  unfolding find
  find-append j [] ys = refl
  find-append j ((k, v) ∷ xs) ys = ground (arith, find-append j xs ys)

  pub After→AtLeast : (k j : ℕ) (m : Map ℕ V) → k ≤ j → After j m → AtLeast k m
  After→AtLeast k j [] le h = tt
  After→AtLeast k j ((i, v) ∷ m) le (h, hs) = (omega arith, After→AtLeast k j m le hs)

  find_under : (j i : ℕ) (m : Map ℕ V) → After i m → j ≤ i → find j m ≡ none
  unfolding find
  find_under j i [] h le = refl
  find_under j i ((a, v) ∷ m) (h, hs) le = ground (arith, find_under j i m hs le)

  pub find-before :
      (k j : ℕ) (m : Map ℕ V)
      → Sorted m
      → find j (before k m) ≡ (if ltb j k then find j m else none)
  unfolding find before
  find-before k j [] h = ground arith
  find-before k j ((i, v) ∷ m) (h, hs) = ground (arith, find-before k j m hs, find_under j i m h)

  pub find-from :
      (k j : ℕ) (m : Map ℕ V) → Sorted m → find j (from k m) ≡ (if ltb j k then none else find j m)
  unfolding find from
  find-from k j [] h = ground arith
  find-from k j ((i, v) ∷ m) (h, hs) = ground (arith, find-from k j m hs, find_under j i m h)

  pub from-Sorted : (k : ℕ) (m : Map ℕ V) → Sorted m → Sorted (from k m)
  unfolding from
  from-Sorted k [] h = tt
  from-Sorted k ((i, v) ∷ m) (h, hs) = ground (arith, from-Sorted k m hs)

  -- Where the key has no entry, what is from it on is after it.
  pub from-After : (k : ℕ) (m : Map ℕ V) → Sorted m → find k m ≡ none → After k (from k m)
  unfolding from find
  from-After k [] h e = tt
  from-After k ((i, v) ∷ m) (h, hs) e = ground (arith, from-After k m hs, After-trans k i m)

  pub After-from : (l k : ℕ) (m : Map ℕ V) → After l m → After l (from k m)
  unfolding from
  After-from l k [] h = tt
  After-from l k ((i, v) ∷ m) (h, hs) = ground (arith, After-from l k m hs)

  pub length-before-from :
      (k : ℕ) (m : Map ℕ V) → length (before k m) + length (from k m) ≡ length m
  unfolding before from
  length-before-from k [] = refl
  length-before-from k ((i, v) ∷ m) = ground (arith, length-before-from k m)

  -- What is below a key, followed by a list in order from it on.
  pub After-before_append :
      (l k : ℕ) (m rest : Map ℕ V) → After l m → After l rest → After l (before k m ++ rest)
  unfolding before
  After-before_append l k [] rest h hr = hr
  After-before_append l k ((i, v) ∷ m) rest (h, hs) hr =
      ground (arith, After-before_append l k m rest hs hr)

  AtLeast→After : (l k : ℕ) (m : Map ℕ V) → l < k → AtLeast k m → After l m
  AtLeast→After l k [] lt h = tt
  AtLeast→After l k ((i, v) ∷ m) lt (h, hs) = (omega arith, AtLeast→After l k m lt hs)

  pub before_append-Sorted :
      (k : ℕ) (m rest : Map ℕ V)
      → Sorted m
      → AtLeast k rest
      → Sorted rest
      → Sorted (before k m ++ rest)
  unfolding before
  before_append-Sorted k [] rest h low hr = hr
  before_append-Sorted k ((i, v) ∷ m) rest (h, hs) low hr = ground (
    arith,
    before_append-Sorted k m rest hs low hr,
    After-before_append i k m rest h,
    AtLeast→After i k rest,
  )
