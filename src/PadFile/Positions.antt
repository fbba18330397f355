-- ===== src/PadFile/Positions.antt =====
-- src/cpp/NindBasics/NindPadFile.cpp: the two computations of the position of an entry.
use nind.Prelude.{ℕ, ◌+◌, ◌-◌, ◌*◌, ◌^◌, ◌%◌, ◌≤◌, ◌<◌, ◌≡◌, refl, [], ◌∷◌, ◌++◌, arith}
use nind.PadFile.{Blocks, just_pos_in, pos_in_from, add_entries}

-- How many entries the blocks have.
abbrev pub total : Blocks → ℕ
total [] = 0
total ((address, nb) ∷ map) = nb + total map

-- A block's number of entries is read from three bytes.
abbrev pub IsSmall : Blocks → Type 0
IsSmall [] = Unit {0}
IsSmall ((address, nb) ∷ map) = (nb < 2 ^ 24) × IsSmall map

-- The blocks lie one after the other, the entries of each before the next one, between two
-- addresses.
abbrev pub Chained : ℕ → Blocks → ℕ → ℕ → Type 0
Chained size [] from to = from ≤ to
Chained size ((address, nb) ∷ map) from to =
    (from ≤ address) × Chained size map (address + nb * size) to

pub mul-le-mul : (a b c : ℕ) → a ≤ b → a * c ≤ b * c
mul-le-mul a b c h = grind arith

small_product : (n nb size : ℕ) → n < nb → nb < 2 ^ 24 → size < 2 ^ 8 → n * size < 2 ^ 32
small_product n nb size lt small byte = omega (arith, mul-le-mul n (2 ^ 24 - 1) size (omega arith))

pub just-reference :
    (map : Blocks) (ident first size : ℕ)
    → IsSmall map
    → size < 2 ^ 8
    → first ≤ ident
    → first + total map < 2 ^ 32
    → just_pos_in map ident first size ≡ pos_in_from map ident first size
unfolding just_pos_in pos_in_from
just-reference [] ident first size small byte le fits = refl
just-reference ((address, nb) ∷ map) ident first size (small, smalls) byte le fits =
    ground
      (arith, small_product (ident - first) nb size, just-reference map ident (first + nb) size)

inside_block : (n nb size : ℕ) → n < nb → n * size + size ≤ nb * size
inside_block n nb size lt = omega (arith, mul-le-mul (n + 1) nb size (omega arith))

apart_in_block : (m n size : ℕ) → m < n → m * size + size ≤ n * size
apart_in_block m n size lt = inside_block m n size lt

Chained-le : (size : ℕ) (map : Blocks) (from to : ℕ) → Chained size map from to → from ≤ to
Chained-le size [] from to h = h
Chained-le size ((address, nb) ∷ map) from to (le, h) =
    omega (arith, Chained-le size map (address + nb * size) to h)

pub pos_in_from-bounds :
    (map : Blocks) (ident first size from to : ℕ)
    → Chained size map from to
    → first ≤ ident
    → ident < first + total map
    → (from ≤ pos_in_from map ident first size) × (pos_in_from map ident first size + size ≤ to)
unfolding pos_in_from
pos_in_from-bounds [] ident first size from to h le lt = absurd (omega arith)
pos_in_from-bounds ((address, nb) ∷ map) ident first size from to (le0, h) le lt = ground (
  arith,
  inside_block (ident - first) nb size,
  Chained-le size map (address + nb * size) to h,
  pos_in_from-bounds map ident (first + nb) size (address + nb * size) to h,
)

pub pos_in_from-apart :
    (map : Blocks) (i j first size from to : ℕ)
    → Chained size map from to
    → first ≤ i
    → i < j
    → j < first + total map
    → pos_in_from map i first size + size ≤ pos_in_from map j first size
unfolding pos_in_from
pos_in_from-apart [] i j first size from to h le lt lt' = absurd (omega arith)
pos_in_from-apart ((address, nb) ∷ map) i j first size from to (le0, h) le lt lt' = ground (
  arith,
  apart_in_block (i - first) (j - first) size,
  inside_block (i - first) nb size,
  pos_in_from-bounds map j (first + nb) size (address + nb * size) to h,
  pos_in_from-apart map i j (first + nb) size (address + nb * size) to h,
)

pub add_entries-total :
    (map : Blocks) (n : ℕ) → n + total map < 2 ^ 32 → add_entries n map ≡ n + total map
add_entries-total [] n fits = omega arith
add_entries-total ((address, nb) ∷ map) n fits =
    omega (arith, add_entries-total map ((n + nb) % 2 ^ 32) (omega arith))

pub Chained-snoc :
    (size : ℕ) (map : Blocks) (from at addr nb to : ℕ)
    → Chained size map from at
    → at ≤ addr
    → addr + nb * size ≤ to
    → Chained size (map ++ ((addr, nb) ∷ [])) from to
Chained-snoc size [] from at addr nb to h le le' = (omega arith, le')
Chained-snoc size ((a, n) ∷ map) from at addr nb to (h, hs) le le' =
    (h, Chained-snoc size map (a + n * size) at addr nb to hs le le')

pub total-snoc : (map : Blocks) (addr nb : ℕ) → total (map ++ ((addr, nb) ∷ [])) ≡ total map + nb
total-snoc [] addr nb = omega arith
total-snoc ((a, n) ∷ map) addr nb = omega (arith, total-snoc map addr nb)
