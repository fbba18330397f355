-- ===== src/Prelude/Ordered.antt =====
-- `std::map` from numbers as the list of its entries by increasing key: `find` of Map searches it.
use Prim.Native.Nat.{ℕ, suc, ◌<◌}
use mathlib.Core.Path.{◌≡◌, refl}
use mathlib.Core.Option.{none, some}
use mathlib.Core.List.{[], ◌∷◌}
use native.Mathlib.Omega.{arith}
use nind.Prelude.Lists.{length, All}
use nind.Prelude.Tests.{if◌then◌else◌, ltb, ◌==◌}
use nind.Prelude.Map.{Map, nat_eq, find}

abbrev pub After : {V : Type 0} → ℕ → Map ℕ V → Type 0
After k = All (λ p. k < p.0)

abbrev pub Sorted : {V : Type 0} → Map ℕ V → Type 0
Sorted [] = Unit {0}
Sorted ((k, v) ∷ m) = After k m × Sorted m

module _ {V : Type 0} where
  -- `m[k] = v`
  unfoldable pub insert_ordered : ℕ → V → Map ℕ V → Map ℕ V
  insert_ordered k v [] = (k, v) ∷ []
  insert_ordered k v ((j, w) ∷ m) =
      let rest = insert_ordered k v m in
      if ltb k j then (k, v) ∷ (j, w) ∷ m else if j == k then (k, v) ∷ m else (j, w) ∷ rest

  unfoldable pub erase_key : ℕ → Map ℕ V → Map ℕ V
  erase_key k [] = []
  erase_key k ((j, w) ∷ m) = if j == k then m else (j, w) ∷ erase_key k m

  pub find-After : (k : ℕ) (m : Map ℕ V) → After k m → find k m ≡ none
  unfolding find
  find-After k [] h = refl
  find-After k ((j, w) ∷ m) (lt, h) = ground (arith, find-After k m h)

  pub After-trans : (k j : ℕ) (m : Map ℕ V) → k < j → After j m → After k m
  After-trans k j [] lt h = tt
  After-trans k j ((i, w) ∷ m) lt (h, hs) = (omega arith, After-trans k j m lt hs)

  pub find-insert_ordered :
      (k j : ℕ) (v : V) (m : Map ℕ V)
      → Sorted m
      → find j (insert_ordered k v m) ≡ (if k == j then some v else find j m)
  unfolding find insert_ordered
  find-insert_ordered k j v [] h = refl
  find-insert_ordered k j v ((i, w) ∷ m) (h, hs) = ground (arith, find-insert_ordered k j v m hs)

  After-insert_ordered :
      (i k : ℕ) (v : V) (m : Map ℕ V) → i < k → After i m → After i (insert_ordered k v m)
  unfolding insert_ordered
  After-insert_ordered i k v [] lt h = (lt, tt)
  After-insert_ordered i k v ((j, w) ∷ m) lt (h, hs) =
      ground (arith, After-insert_ordered i k v m lt hs)

  pub insert_ordered-Sorted :
      (k : ℕ) (v : V) (m : Map ℕ V) → Sorted m → Sorted (insert_ordered k v m)
  unfolding insert_ordered
  insert_ordered-Sorted k v [] h = (tt, tt)
  insert_ordered-Sorted k v ((j, w) ∷ m) (h, hs) =
      ground
        (arith, insert_ordered-Sorted k v m hs, After-insert_ordered j k v m, After-trans k j m)

  pub find-erase_key :
      (k j : ℕ) (m : Map ℕ V)
      → Sorted m
      → find j (erase_key k m) ≡ (if k == j then none else find j m)
  unfolding find erase_key
  find-erase_key k j [] h = ground arith
  find-erase_key k j ((i, w) ∷ m) (h, hs) =
      ground (arith, find-erase_key k j m hs, find-After i m h)

  After-erase_key : (i k : ℕ) (m : Map ℕ V) → After i m → After i (erase_key k m)
  unfolding erase_key
  After-erase_key i k [] h = tt
  After-erase_key i k ((j, w) ∷ m) (h, hs) = ground (arith, After-erase_key i k m hs)

  pub erase_key-Sorted : (k : ℕ) (m : Map ℕ V) → Sorted m → Sorted (erase_key k m)
  unfolding erase_key
  erase_key-Sorted k [] h = tt
  erase_key-Sorted k ((j, w) ∷ m) (h, hs) =
      ground (arith, erase_key-Sorted k m hs, After-erase_key j k m h)

  pub length-insert_new :
      (k : ℕ) (v : V) (m : Map ℕ V)
      → find k m ≡ none
      → length (insert_ordered k v m) ≡ suc (length m)
  unfolding find insert_ordered
  length-insert_new k v [] h = refl
  length-insert_new k v ((j, w) ∷ m) h = ground (arith, length-insert_new k v m)

  pub length-insert_known :
      (k : ℕ) (v w : V) (m : Map ℕ V)
      → Sorted m
      → find k m ≡ some w
      → length (insert_ordered k v m) ≡ length m
  unfolding find insert_ordered
  length-insert_known k v w [] s h = absurd (cc)
  length-insert_known k v w ((j, u) ∷ m) (s, ss) h =
      ground (arith, length-insert_known k v w m ss, find-After k m, After-trans k j m)

  pub length-erase_known :
      (k : ℕ) (w : V) (m : Map ℕ V) → find k m ≡ some w → suc (length (erase_key k m)) ≡ length m
  unfolding find erase_key
  length-erase_known k w [] h = absurd (cc)
  length-erase_known k w ((j, u) ∷ m) h = ground (arith, length-erase_known k w m)

  pub erase_unknown : (k : ℕ) (m : Map ℕ V) → find k m ≡ none → erase_key k m ≡ m
  unfolding find erase_key
  erase_unknown k [] h = refl
  erase_unknown k ((j, u) ∷ m) h = ground (arith, erase_unknown k m)
