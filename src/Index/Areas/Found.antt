-- ===== src/Index/Areas/Found.antt =====
-- src/cpp/NindIndex/NindIndex.cpp: the place that `findNewArea` gives, against the areas that it
-- leaves and the ranges in use.
use nind.Prelude.{
  ℕ, ◌+◌, ◌-◌, ◌^◌, ◌%◌, ◌≤◌, ◌<◌, ◌≡◌, refl, subst, inl, inr, [], ◌∷◌, max, true, false, none,
  some, get_elem?, set, arith, All,
}
use nind.PadFile.Holes.{Apart, Disjoint}
use nind.Index.{Areas}
use nind.Index.Areas.{
  Choice, fitting, larger, at_end, erase, NewArea, end_area, chosen, find_new_area,
}
use nind.PadFile.Holes.{occupied}
use nind.Index.Areas.Ranges.{
  IsRange, occupied-erase, occupied-set, Within, Below, Apart-Within, All-get, All-erase, All-set,
  Disjoint-erase, Disjoint-cut,
}
use nind.Index.Areas.Places.{Chosen, Held, choose-Held}

-- A place for `d` bytes among areas that lie apart below `end`.
pub record Found (d : ℕ) (areas : Areas) (end : ℕ) (f : NewArea) : Type 0 where
  pub enough : d ≤ f.place.1
  pub left_apart : Disjoint f.left
  pub place_apart : All (Apart f.place) f.left
  -- A range below the end that is apart from the areas is apart from what was made of them.
  pub others_apart :
      (r : ℕ × ℕ) → Below end r → All (Apart r) areas → All (Apart r) f.left × Apart r f.place
  pub left_ranges : All IsRange f.left
  pub left_occupied : occupied f.left ≤ occupied areas
  pub left_below : All (Below end) f.left
  pub inside : f.is_at_end ≡ false → Below end f.place
  pub outside : f.is_at_end ≡ true → f.place.0 ≡ end
  pub tight : f.is_at_end ≡ true → f.place.1 ≡ d

module _ (d minimum : ℕ) (areas : Areas) (end : ℕ) (apart : Disjoint areas)
    (below : All (Below end) areas) (ranges : All IsRange areas) (some_data : 0 < d)
    (some_minimum : 0 < minimum) (fits : d + minimum < 2 ^ 32) where
  end-Found : minimum ≤ d → Found d areas end (end_area d minimum areas end)
  unfolding end_area
  end-Found large = record {
    enough = omega arith;
    left_apart = apart;
    place_apart = beyond areas below;
    others_apart = λ r b h. (h, inl b);
    left_ranges = ranges;
    left_occupied = omega arith;
    left_below = below;
    inside = λ e. absurd (ground arith);
    outside = λ _. refl;
    tight = λ _. omega arith;
  }
    where
      beyond : (xs : Areas) → All (Below end) xs → All (Apart (end, max d minimum)) xs
      beyond [] h = tt
      beyond (x ∷ xs) h = (inr h.0, beyond xs h.1)

  fitting-Found :
      (k : ℕ) (a : ℕ × ℕ)
      → get_elem? areas k ≡ some a
      → d ≤ a.1
      → Found d areas end (record { place = a; left = erase areas k; is_at_end = false })
  fitting-Found k a e le =
      let cut = Disjoint-erase areas k a apart e in
      record {
        enough = le;
        left_apart = cut.0;
        place_apart = cut.1;
        others_apart = λ r b h. (All-erase (Apart r) areas k h, All-get (Apart r) areas k a h e);
        left_ranges = All-erase IsRange areas k ranges;
        left_occupied = occupied-erase areas k;
        left_below = All-erase (Below end) areas k below;
        inside = λ _. All-get (Below end) areas k a below e;
        outside = λ eq. absurd (ground arith);
        tight = λ eq. absurd (ground arith);
      }

  larger-Found :
      (k : ℕ) (a : ℕ × ℕ)
      → get_elem? areas k ≡ some a
      → d ≤ a.1
      → (d + minimum) % 2 ^ 32 ≤ a.1
      → Found d areas end
          (record { place = (a.0, d); left = set areas k (a.0 + d, a.1 - d); is_at_end = false })
  larger-Found k a e le over =
      let back : ℕ × ℕ = (a.0 + d, a.1 - d) in
      let front : ℕ × ℕ = (a.0, d) in
      let wf : Within front a = omega arith in
      let wb : Within back a = omega arith in
      let cut = Disjoint-cut areas k a front back apart e wf wb (inl (omega arith)) in
      let in_range = All-get (Below end) areas k a below e in
      record {
        enough = omega arith;
        left_apart = cut.0;
        place_apart = cut.1;
        others_apart = λ r b h.
            let ra = All-get (Apart r) areas k a h e in
            (
              All-set (Apart r) areas k back h (Apart-Within r a back ra wb),
              Apart-Within r a front ra wf,
            );
        left_ranges = All-set IsRange areas k back ranges (inl (omega arith));
        left_occupied = occupied-set areas k a back e (omega arith);
        left_below = All-set (Below end) areas k back below (omega arith);
        inside = λ _. omega arith;
        outside = λ eq. absurd (ground arith);
        tight = λ eq. absurd (ground arith);
      }

  from_start : (k : ℕ) (a : ℕ × ℕ) → get_elem? areas (k - 0) ≡ some a → get_elem? areas k ≡ some a
  from_start k a e = subst (λ n. get_elem? areas n ≡ some a) (omega arith) e

  chosen-Found :
      (c : Choice)
      → minimum ≤ d
      → Chosen d minimum areas 0 c
      → Found d areas end (chosen d minimum areas end c)
  unfolding chosen Chosen
  chosen-Found (fitting k) large (le, (a, e, fits)) =
      let e' = from_start k a e in rw (e', chosen) (fitting-Found k a e' fits)
  chosen-Found (larger k) large (le, (a, e, fits, over)) =
      let e' = from_start k a e in rw (e', chosen) (larger-Found k a e' fits over)
  chosen-Found at_end large h = end-Found large

  pub find_new_area-Found : minimum ≤ d → Found d areas end (find_new_area d minimum areas end)
  unfolding find_new_area Held
  find_new_area-Found large = chosen-Found _ large (choose-Held d minimum areas 0 none)
