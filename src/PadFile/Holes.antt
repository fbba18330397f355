-- ===== src/PadFile/Holes.antt =====
-- src/cpp/NindBasics/NindPadFile.cpp: the holes between ranges of bytes.
use nind.Prelude.{
  ℕ, ◌+◌, ◌-◌, ◌≤◌, ◌≡◌, ◌⊎◌, ◌↔◌, refl, inl, inr, [], ◌∷◌, max, false, ltb, arith, All, Bool-cases,
}
use nind.Prelude.Exec.{ok, err, nind_pad_file}
use nind.PadFile.Stats.{
  Ranges, HoleStats, pair_lt, insert_range, sort, count_hole, count_occupied, holes, no_holes,
  cherche_vides,
}

-- Two ranges do not overlap.
abbrev pub Apart : ℕ × ℕ → ℕ × ℕ → Type 0
Apart x y = (x.0 + x.1 ≤ y.0) ⊎ (y.0 + y.1 ≤ x.0)

abbrev pub Disjoint : Ranges → Type 0
Disjoint [] = Unit {0}
Disjoint (x ∷ xs) = All (Apart x) xs × Disjoint xs

-- Each range begins behind the one before it, the first one at `end` or behind.
abbrev Lined : ℕ → Ranges → Type 0
Lined end [] = Unit {0}
Lined end (x ∷ xs) = (end ≤ x.0) × Lined (x.0 + x.1) xs

abbrev Ordered : Ranges → Type 0
Ordered [] = Unit {0}
Ordered (x ∷ []) = Unit {0}
Ordered (x ∷ y ∷ xs) = (pair_lt y x ≡ false) × Ordered (y ∷ xs)

All-insert_range :
    (P : ℕ × ℕ → Type 0) (x : ℕ × ℕ) (xs : Ranges) → All P (insert_range x xs) ↔ (P x × All P xs)
unfolding insert_range
All-insert_range P x [] = (λ h. h, λ h. h)
All-insert_range P x (y ∷ ys) =
    let ih = All-insert_range P x ys in
    elim (Bool-cases (pair_lt y x)) [
      | inl lt ↦
          rw (lt, insert_range)
            (λ h. let r = ih.0 h.1 in (r.0, (h.0, r.1)), λ h. (h.1.0, ih.1 (h.0, h.1.1)))
      | inr ge ↦ rw (ge, insert_range) (λ h. h, λ h. h)
    ]

Apart-sym : (x y : ℕ × ℕ) → Apart x y → Apart y x
Apart-sym x y (inl h) = inr h
Apart-sym x y (inr h) = inl h

Disjoint-insert_range : (x : ℕ × ℕ) (xs : Ranges) → Disjoint (insert_range x xs) ↔ Disjoint (x ∷ xs)
unfolding insert_range
Disjoint-insert_range x [] = (λ h. h, λ h. h)
Disjoint-insert_range x (y ∷ ys) =
    let ih = Disjoint-insert_range x ys in
    let each = All-insert_range (Apart y) x ys in
    elim (Bool-cases (pair_lt y x)) [
      | inl lt ↦
          rw (lt, insert_range)
            (
              λ h.
                  let (a, b) = each.0 h.0 in
                  let (c, d) = ih.0 h.1 in ((Apart-sym y x a, c), (b, d)),
              λ h. (each.1 (Apart-sym x y h.0.0, h.1.0), ih.1 (h.0.1, h.1.1)),
            )
      | inr ge ↦ rw (ge, insert_range) (λ h. h, λ h. h)
    ]

All-sort : (P : ℕ × ℕ → Type 0) (xs : Ranges) → All P (sort xs) ↔ All P xs
unfolding sort
All-sort P [] = (λ h. h, λ h. h)
All-sort P (x ∷ xs) =
    let ih = All-sort P xs in
    let ins = All-insert_range P x (sort xs) in
    (λ h. let r = ins.0 h in (r.0, ih.0 r.1), λ h. ins.1 (h.0, ih.1 h.1))

Disjoint-sort : (xs : Ranges) → Disjoint (sort xs) ↔ Disjoint xs
unfolding sort
Disjoint-sort [] = (λ h. h, λ h. h)
Disjoint-sort (x ∷ xs) =
    let ih = Disjoint-sort xs in
    let each = All-sort (Apart x) xs in
    let ins = Disjoint-insert_range x (sort xs) in
    (λ h. let r = ins.0 h in (each.0 r.0, ih.0 r.1), λ h. ins.1 (each.1 h.0, ih.1 h.1))

insert_range-Ordered : (x : ℕ × ℕ) (xs : Ranges) → Ordered xs → Ordered (insert_range x xs)
unfolding insert_range pair_lt
insert_range-Ordered x [] h = tt
insert_range-Ordered x (y ∷ []) h = ground arith
insert_range-Ordered x (y ∷ z ∷ zs) h = ground (arith, insert_range-Ordered x (z ∷ zs) h.1)

sort-Ordered : (xs : Ranges) → Ordered (sort xs)
unfolding sort
sort-Ordered [] = tt
sort-Ordered (x ∷ xs) = insert_range-Ordered x (sort xs) (sort-Ordered xs)

in_order : (x y : ℕ × ℕ) → pair_lt y x ≡ false → Apart x y → x.0 + x.1 ≤ y.0
unfolding pair_lt
in_order x y h a = ground arith

Disjoint→Lined :
    (end : ℕ) (x : ℕ × ℕ) (xs : Ranges)
    → end ≤ x.0
    → Ordered (x ∷ xs)
    → Disjoint (x ∷ xs)
    → Lined end (x ∷ xs)
Disjoint→Lined end x [] le o d = (le, tt)
Disjoint→Lined end x (y ∷ ys) le o d =
    (le, Disjoint→Lined (x.0 + x.1) y ys (in_order x y o.0 d.0.0) o.1 d.1)

Lined-All : (end : ℕ) (xs : Ranges) → Lined end xs → All (λ y. end ≤ y.0) xs
Lined-All end [] h = tt
Lined-All end (x ∷ xs) h = (h.0, later end x xs h.0 (Lined-All (x.0 + x.1) xs h.1))
  where
    later :
        (end : ℕ) (x : ℕ × ℕ) (xs : Ranges)
        → end ≤ x.0
        → All (λ y. x.0 + x.1 ≤ y.0) xs
        → All (λ y. end ≤ y.0) xs
    later end x [] le h = tt
    later end x (y ∷ ys) le h = (omega arith, later end x ys le h.1)

Lined→Disjoint : (end : ℕ) (xs : Ranges) → Lined end xs → Disjoint xs
Lined→Disjoint end [] h = tt
Lined→Disjoint end (x ∷ xs) h =
    (each xs (Lined-All (x.0 + x.1) xs h.1), Lined→Disjoint (x.0 + x.1) xs h.1)
  where
    each : (ys : Ranges) → All (λ y. x.0 + x.1 ≤ y.0) ys → All (Apart x) ys
    each [] h = tt
    each (y ∷ ys) h = (inl h.0, each ys h.1)

holes-cases :
    (xs : Ranges) (end : ℕ) (stats : HoleStats)
    → (Lined end xs × ((after : HoleStats) × (holes xs end stats ≡ ok after)))
      ⊎ (¬ Lined end xs × (holes xs end stats ≡ err nind_pad_file))
unfolding holes
holes-cases [] end stats = inl (tt, (stats, refl))
holes-cases (x ∷ xs) end stats = elim (Bool-cases (ltb x.0 end)) [
  | inl early ↦ inr (λ h. ground arith, ground arith)
  | inr late ↦
      elim (holes-cases xs (x.0 + x.1) (count_hole (x.0 - end) (count_occupied x.1 stats))) [
        | inl (lined, (after, e)) ↦ inl ((ground arith, lined), (after, ground arith))
        | inr (apart, e) ↦ inr (λ h. apart h.1, ground arith)
      ]
]

Lined-sort : (xs : Ranges) → Disjoint xs ↔ Lined 0 (sort xs)
Lined-sort xs = (
  λ d. lined (sort xs) (sort-Ordered xs) ((Disjoint-sort xs).1 d),
  λ l. (Disjoint-sort xs).0 (Lined→Disjoint 0 (sort xs) l),
)
  where
    lined : (ys : Ranges) → Ordered ys → Disjoint ys → Lined 0 ys
    lined [] o d = tt
    lined (y ∷ ys) o d = Disjoint→Lined 0 y ys (omega arith) o d

-- The bytes that are in the ranges, and the end of the last one.
abbrev pub occupied : Ranges → ℕ
occupied [] = 0
occupied (x ∷ xs) = x.1 + occupied xs

abbrev pub last_end : Ranges → ℕ
last_end [] = 0
last_end (x ∷ xs) = max (x.0 + x.1) (last_end xs)

occupied-insert_range : (x : ℕ × ℕ) (xs : Ranges) → occupied (insert_range x xs) ≡ occupied (x ∷ xs)
unfolding insert_range
occupied-insert_range x [] = refl
occupied-insert_range x (y ∷ ys) = ground (arith, occupied-insert_range x ys)

last_end-insert_range : (x : ℕ × ℕ) (xs : Ranges) → last_end (insert_range x xs) ≡ last_end (x ∷ xs)
unfolding insert_range
last_end-insert_range x [] = refl
last_end-insert_range x (y ∷ ys) = ground (arith, last_end-insert_range x ys)

sums-sort : (xs : Ranges) → (occupied (sort xs) ≡ occupied xs) × (last_end (sort xs) ≡ last_end xs)
unfolding sort
sums-sort [] = (refl, refl)
sums-sort (x ∷ xs) =
    omega
      (arith, occupied-insert_range x (sort xs), last_end-insert_range x (sort xs), sums-sort xs)

count-holes_size :
    (size len : ℕ) (stats : HoleStats)
    → (count_hole size (count_occupied len stats)).holes_size ≡ stats.holes_size + size
unfolding count_hole count_occupied
count-holes_size size len stats = ground arith

holes-sum :
    (xs : Ranges) (end : ℕ) (stats after : HoleStats)
    → holes xs end stats ≡ ok after
    → after.holes_size + occupied xs + end ≡ stats.holes_size + max end (last_end xs)
unfolding holes
holes-sum [] end stats after e = ground arith
holes-sum (x ∷ xs) end stats after e = ground (
  arith,
  count-holes_size (x.0 - end) x.1 stats,
  holes-sum xs (x.0 + x.1) (count_hole (x.0 - end) (count_occupied x.1 stats)) after,
)

-- `chercheVides` throws where two of the ranges overlap, whatever their order in the list; where
-- none do it returns statistics, whose holes and the ranges together fill the file up to the end of
-- the last range.
pub cherche_vides-Disjoint :
    (xs : Ranges)
    → (Disjoint xs
        → (stats : HoleStats) × (cherche_vides xs ≡ ok stats)
          × (stats.holes_size + occupied xs ≡ last_end xs))
      × (¬ Disjoint xs → cherche_vides xs ≡ err nind_pad_file)
unfolding cherche_vides no_holes
cherche_vides-Disjoint xs = elim (holes-cases (sort xs) 0 no_holes) [
  | inl (lined, (stats, e)) ↦ (
    λ _. (stats, e, omega (arith, holes-sum (sort xs) 0 no_holes stats e, sums-sort xs)),
    λ no. absurd (no ((Lined-sort xs).1 lined)),
  )
  | inr (apart, throws) ↦ (λ d. absurd (apart ((Lined-sort xs).0 d)), λ _. throws)
]
