-- ===== src/Index/Store.antt =====
-- src/cpp/NindIndex/NindIndex.cpp: the file as a store: definitions, empty areas and the blocks of
-- indirections share the bytes before the end of the data.
use nind.Prelude.{
  ℕ, ◌+◌, ◌^◌, ◌≤◌, ◌<◌, ◌≡◌, refl, inl, inr, [], ◌∷◌, some, get_elem?, set, arith, All,
}
use nind.PadFile.Holes.{Apart, Disjoint, occupied}
use nind.Index.{Areas}
use nind.Index.Areas.{NewArea, vacate_old_area}
use nind.Index.Areas.Ranges.{
  IsRange, Below, Apart-sym, All-map, All-get, All-set, Disjoint-set, Disjoint-others,
}
use nind.Index.Areas.Found.{Found}
use nind.Index.Areas.Vacated.{vacate_old_area-Given}

-- `places` are the definitions' (an absent one has none), `fixed` ranges that stay where they are.
-- No byte before `end` is in two of the ranges.
pub record IsStore (fixed places areas : Areas) (end : ℕ) : Type 0 where
  pub areas_apart : Disjoint areas
  pub areas_ranges : All IsRange areas
  pub areas_below : All (Below end) areas
  pub places_apart : Disjoint places
  pub places_ranges : All IsRange places
  pub places_below : All (Below end) places
  pub places_used : All (λ e. All (Apart e) areas) places
  pub fixed_ranges : All IsRange fixed
  pub fixed_below : All (Below end) fixed
  pub fixed_used : All (λ r. All (Apart r) areas) fixed
  pub fixed_apart : All (λ r. All (Apart r) places) fixed

-- A range that nothing has.
pub record IsLoose (fixed places areas : Areas) (end : ℕ) (old : ℕ × ℕ) : Type 0 where
  loose_range : IsRange old
  loose_below : Below end old
  loose_areas : All (Apart old) areas
  loose_places : All (Apart old) places
  loose_fixed : All (Apart old) fixed

Below-later : (end more : ℕ) (xs : Areas) → end ≤ more → All (Below end) xs → All (Below more) xs
Below-later end more xs le h = All-map (Below end) (Below more) xs (λ x b. omega arith) h

pub All-both :
    (P Q R : ℕ × ℕ → Type 0) (xs : Areas)
    → ((x : ℕ × ℕ) → P x → Q x → R x)
    → All P xs
    → All Q xs
    → All R xs
All-both P Q R [] f h k = tt
All-both P Q R (x ∷ xs) f h k = (f x h.0 k.0, All-both P Q R xs f h.1 k.1)

All-and : (P Q : ℕ × ℕ → Type 0) (xs : Areas) → All P xs → All Q xs → All (λ x. P x × Q x) xs
All-and P Q xs = All-both P Q (λ x. P x × Q x) xs (λ x p q. (p, q))

module _ (fixed places areas : Areas) (end : ℕ) (s : IsStore fixed places areas end) where
  -- The range that nothing has goes to the empty areas.
  pub give_back :
      (old : ℕ × ℕ)
      → IsLoose fixed places areas end old
      → old.1 + occupied areas < 2 ^ 32
      → IsStore fixed places (vacate_old_area old areas) end
  give_back old l small =
      let g =
        vacate_old_area-Given old areas (l.loose_areas, s.areas_apart)
          (l.loose_range, s.areas_ranges) small in
      let others : (r : ℕ × ℕ)
          → IsRange r × All (Apart r) areas
          → Apart old r
          → All (Apart r) (vacate_old_area old areas) =
        λ r h o. g.after_others r h.0 (Apart-sym old r o) h.1 in
      record {
        areas_apart = g.after_apart;
        areas_ranges = g.after_ranges;
        areas_below = g.after_below end l.loose_below s.areas_below;
        places_apart = s.places_apart;
        places_ranges = s.places_ranges;
        places_below = s.places_below;
        places_used =
            All-both _ _ _ places others
              (All-and IsRange (λ e. All (Apart e) areas) places s.places_ranges s.places_used)
              l.loose_places;
        fixed_ranges = s.fixed_ranges;
        fixed_below = s.fixed_below;
        fixed_used =
            All-both _ _ _ fixed others
              (All-and IsRange (λ e. All (Apart e) areas) fixed s.fixed_ranges s.fixed_used)
              l.loose_fixed;
        fixed_apart = s.fixed_apart;
      }

  module _ (ident : ℕ) (old : ℕ × ℕ) (is_old : get_elem? places ident ≡ some old) where
    old_fixed : All (λ r. Apart old r) fixed
    old_fixed =
        All-map (λ r. All (Apart r) places) (Apart old) fixed
          (λ r h. Apart-sym r old (All-get (Apart r) places ident old h is_old)) s.fixed_apart

    -- A definition that is erased.
    pub erased :
        IsStore fixed (set places ident (0, 0)) areas end
        × IsLoose fixed (set places ident (0, 0)) areas end old
    erased = (
      record {
        areas_apart = s.areas_apart;
        areas_ranges = s.areas_ranges;
        areas_below = s.areas_below;
        places_apart = Disjoint-set places ident (0, 0) s.places_apart (nowhere places);
        places_ranges = All-set IsRange places ident (0, 0) s.places_ranges (inr refl);
        places_below = All-set (Below end) places ident (0, 0) s.places_below (omega arith);
        places_used = All-set _ places ident (0, 0) s.places_used (nowhere areas);
        fixed_ranges = s.fixed_ranges;
        fixed_below = s.fixed_below;
        fixed_used = s.fixed_used;
        fixed_apart =
            All-map _ _ fixed (λ r h. All-set (Apart r) places ident (0, 0) h (inr (omega arith)))
              s.fixed_apart;
      },
      record {
        loose_range = All-get IsRange places ident old s.places_ranges is_old;
        loose_below = All-get (Below end) places ident old s.places_below is_old;
        loose_areas = All-get (λ e. All (Apart e) areas) places ident old s.places_used is_old;
        loose_places =
            Disjoint-others places ident old (0, 0) s.places_apart is_old (inr (omega arith));
        loose_fixed = old_fixed;
      },
    )
      where
        nowhere : (xs : Areas) → All (Apart (0, 0)) xs
        nowhere [] = tt
        nowhere (x ∷ xs) = (inl (omega arith), nowhere xs)

    -- A definition that is given a new place.
    module _ (d minimum more : ℕ) (f : NewArea) (found : Found d areas end f) (le : end ≤ more)
        (some_data : 0 < d) (in_more : Below more f.place) where
      free_of :
          (xs : Areas)
          → All (Below end) xs
          → All (λ e. All (Apart e) areas) xs
          → All (λ e. All (Apart e) f.left × Apart e f.place) xs
      free_of xs = All-both _ _ _ xs found.others_apart

      pub replaced :
          IsStore fixed (set places ident f.place) f.left more
          × IsLoose fixed (set places ident f.place) f.left more old
      replaced =
          let used = free_of places s.places_below s.places_used in
          let kept = free_of fixed s.fixed_below s.fixed_used in
          let of_old = All-get _ places ident old used is_old in
          (
            record {
              areas_apart = found.left_apart;
              areas_ranges = found.left_ranges;
              areas_below = Below-later end more f.left le found.left_below;
              places_apart =
                  Disjoint-set places ident f.place s.places_apart
                    (All-map _ _ places (λ e h. Apart-sym e f.place h.1) used);
              places_ranges =
                  All-set IsRange places ident f.place s.places_ranges
                    (inl (omega (arith, found.enough)));
              places_below =
                  All-set (Below more) places ident f.place
                    (Below-later end more places le s.places_below) in_more;
              places_used =
                  All-set (λ e. All (Apart e) f.left) places ident f.place
                    (All-map _ _ places (λ e h. h.0) used) found.place_apart;
              fixed_ranges = s.fixed_ranges;
              fixed_below = Below-later end more fixed le s.fixed_below;
              fixed_used = All-map _ _ fixed (λ e h. h.0) kept;
              fixed_apart =
                  All-both _ _ _ fixed (λ r h a. All-set (Apart r) places ident f.place a h.1) kept
                    s.fixed_apart;
            },
            record {
              loose_range = All-get IsRange places ident old s.places_ranges is_old;
              loose_below =
                  omega (arith, All-get (Below end) places ident old s.places_below is_old);
              loose_areas = of_old.0;
              loose_places =
                  Disjoint-others places ident old f.place s.places_apart is_old of_old.1;
              loose_fixed = old_fixed;
            },
          )
