-- ===== src/Index/Areas/Vacated.antt =====
-- src/cpp/NindIndex/NindIndex.cpp: an old place given back by `vacateOldArea`.
use nind.Prelude.{
  ℕ, ◌+◌, ◌^◌, ◌%◌, ◌<◌, ◌≡◌, refl, inl, inr, [], ◌∷◌, ltb, ◌==◌, arith, All, Bool-cases,
}
use nind.PadFile.Holes.{Apart, Disjoint, occupied}
use nind.Index.{Areas}
use nind.Index.Areas.{join_next, vacate_old_area}
use nind.Index.Areas.Ranges.{IsRange, Below, Apart-sym}

-- `b` begins where `a` ends, and `c` is both.
abbrev Joins : ℕ × ℕ → ℕ × ℕ → ℕ × ℕ → Type 0
Joins a b c = (a.0 + a.1 ≡ b.0) × (c.0 ≡ a.0) × (c.1 ≡ a.1 + b.1)

Apart-joined : (r a b c : ℕ × ℕ) → IsRange r → Apart r a → Apart r b → Joins a b c → Apart r c
Apart-joined r a b c is x y j = ground arith

Joins-IsRange : (a b c : ℕ × ℕ) → IsRange a → IsRange b → Joins a b c → IsRange c
Joins-IsRange a b c ha hb j = ground arith

-- What holds of the areas after a range is given back.
pub record Given (old : ℕ × ℕ) (areas after : Areas) : Type 0 where
  pub after_apart : Disjoint after
  pub after_ranges : All IsRange after
  pub after_others :
      (r : ℕ × ℕ) → IsRange r → Apart r old → All (Apart r) areas → All (Apart r) after
  pub after_below : (end : ℕ) → Below end old → All (Below end) areas → All (Below end) after
  pub after_occupied : occupied after ≡ old.1 + occupied areas

All-joined :
    (a b c : ℕ × ℕ) (xs : Areas)
    → All IsRange xs
    → All (Apart a) xs
    → All (Apart b) xs
    → Joins a b c
    → All (Apart c) xs
All-joined a b c [] is ha hb j = tt
All-joined a b c (x ∷ xs) is ha hb j = (
  Apart-sym x c (Apart-joined x a b c is.0 (Apart-sym a x ha.0) (Apart-sym b x hb.0) j),
  All-joined a b c xs is.1 ha.1 hb.1 j,
)

All-Below-joined : (end : ℕ) (a b c : ℕ × ℕ) → Below end a → Below end b → Joins a b c → Below end c
All-Below-joined end a b c ha hb j = omega arith

-- A range kept in front of the areas.
kept-Given :
    (a : ℕ × ℕ) (areas : Areas)
    → Disjoint (a ∷ areas)
    → All IsRange (a ∷ areas)
    → Given a areas (a ∷ areas)
kept-Given a areas apart ranges = record {
  after_apart = apart;
  after_ranges = ranges;
  after_others = λ r is h hs. (h, hs);
  after_below = λ end h hs. (h, hs);
  after_occupied = refl;
}

-- Two neighbours joined, before other areas.
joined-Given :
    (a b c : ℕ × ℕ) (areas : Areas)
    → Disjoint (a ∷ b ∷ areas)
    → All IsRange (a ∷ b ∷ areas)
    → Joins a b c
    → Given a (b ∷ areas) (c ∷ areas)
joined-Given a b c areas apart ranges j = record {
  after_apart = (All-joined a b c areas ranges.1.1 apart.0.1 apart.1.0 j, apart.1.1);
  after_ranges = (Joins-IsRange a b c ranges.0 ranges.1.0 j, ranges.1.1);
  after_others = λ r is h hs. (Apart-joined r a b c is h hs.0 j, hs.1);
  after_below = λ end h hs. (All-Below-joined end a b c h hs.0 j, hs.1);
  after_occupied = omega arith;
}

join_next-Given :
    (a : ℕ × ℕ) (areas : Areas)
    → Disjoint (a ∷ areas)
    → All IsRange (a ∷ areas)
    → a.1 + occupied areas < 2 ^ 32
    → Given a areas (join_next a areas)
unfolding join_next
join_next-Given a [] apart ranges small = kept-Given a [] apart ranges
join_next-Given a (b ∷ areas) apart ranges small = elim (Bool-cases (a.0 + a.1 == b.0)) [
  | inl meet ↦
      rw (meet, join_next)
        (joined-Given a b (a.0, (a.1 + b.1) % 2 ^ 32) areas apart ranges (ground arith))
  | inr off ↦ rw (off, join_next) (kept-Given a (b ∷ areas) apart ranges)
]

-- A range given back to areas whose first one it joins.
then_join :
    (old a c : ℕ × ℕ) (areas after : Areas)
    → Joins a old c
    → Given c areas after
    → Given old (a ∷ areas) after
then_join old a c areas after j g = record {
  after_apart = g.after_apart;
  after_ranges = g.after_ranges;
  after_others = λ r is h hs. g.after_others r is (Apart-joined r a old c is hs.0 h j) hs.1;
  after_below = λ end h hs. g.after_below end (All-Below-joined end a old c hs.0 h j) hs.1;
  after_occupied = omega (arith, g.after_occupied);
}

-- A range given back behind the first area.
past_first :
    (old a : ℕ × ℕ) (areas after : Areas)
    → IsRange a
    → All (Apart a) areas
    → Apart old a
    → Given old areas after
    → Given old (a ∷ areas) (a ∷ after)
past_first old a areas after is apart off g = record {
  after_apart = (g.after_others a is (Apart-sym old a off) apart, g.after_apart);
  after_ranges = (is, g.after_ranges);
  after_others = λ r is' h hs. (hs.0, g.after_others r is' h hs.1);
  after_below = λ end h hs. (hs.0, g.after_below end h hs.1);
  after_occupied = omega (arith, g.after_occupied);
}

pub vacate_old_area-Given :
    (old : ℕ × ℕ) (areas : Areas)
    → Disjoint (old ∷ areas)
    → All IsRange (old ∷ areas)
    → old.1 + occupied areas < 2 ^ 32
    → Given old areas (vacate_old_area old areas)
unfolding vacate_old_area
vacate_old_area-Given old [] apart ranges small = kept-Given old [] apart ranges
vacate_old_area-Given old (a ∷ areas) apart ranges small = elim (Bool-cases (a.0 + a.1 == old.0)) [
  | inl meet ↦
      let c : ℕ × ℕ = (a.0, (a.1 + old.1) % 2 ^ 32) in
      let j : Joins a old c = ground arith in
      rw (meet, vacate_old_area)
        (then_join old a c areas _ j (
          join_next-Given c areas
            (All-joined a old c areas ranges.1.1 apart.1.0 apart.0.1 j, apart.1.1)
            (Joins-IsRange a old c ranges.1.0 ranges.0 j, ranges.1.1) (omega arith)))
  | inr off ↦ elim (Bool-cases (a.0 == old.0 + old.1)) [
    | inl meet ↦
        rw (off, meet, vacate_old_area)
          (joined-Given old a (old.0, (a.1 + old.1) % 2 ^ 32) areas apart ranges (ground arith))
    | inr away ↦ elim (Bool-cases (ltb old.0 a.0)) [
      | inl before ↦
          rw (off, away, before, vacate_old_area) (kept-Given old (a ∷ areas) apart ranges)
      | inr behind ↦
          rw (off, away, behind, vacate_old_area)
            (past_first old a areas _ ranges.1.0 apart.1.0 apart.0.0 (
              vacate_old_area-Given old areas (apart.0.1, apart.1.1) (ranges.0, ranges.1.1)
                (omega arith)))
    ]
  ]
]
