-- ===== src/Index/Bulk.antt =====
-- src/cpp/NindIndex/NindIndex.cpp: the store as definitions are set in bulk mode.
use nind.Prelude.{
  ℕ, ◌+◌, ◌^◌, ◌≤◌, ◌<◌, ◌≡◌, refl, inl, inr, true, some, get_elem?, set, ◌==◌, if◌then◌else◌,
  arith, Bool-cases,
}
use nind.Prelude.Exec.{Result, ok, err, Error, ◌>>◌}
use nind.PadFile.{PadFile, on_file}
use nind.PadFile.Writing.{bulk_write, set_bulk_pos}
use nind.PadFile.Holes.{occupied}
use nind.PadFile.Chain.{Result-cases}
use nind.Index.{Areas, Index, on_pad}
use nind.Index.Areas.{NewArea, find_new_area, data_end, vacate_old_area}
use nind.Index.Areas.Found.{Found, find_new_area-Found}
use nind.Index.Defining.{vacate, new_area, set_bulk_indirection, extend_data, place_elsewhere_bulk}
use nind.Index.Store.{All-both, IsStore, IsLoose, give_back, erased, replaced}

-- The index as a store, in bulk mode.
abbrev pub Stores : Areas → Index → Type 0
Stores fixed s = IsStore fixed s.bulk_indirections s.empty_areas s.pad.bulk_end

bulk_write-end :
    (address start len : ℕ) (p : PadFile) → (bulk_write address start len p).1.bulk_end ≡ p.bulk_end
unfolding bulk_write on_file set_bulk_pos
bulk_write-end address start len p = ground arith

-- The areas, once an old place is given back where it has bytes.
unfoldable pub released : ℕ × ℕ → Areas → Areas
released old areas = if old.1 == 0 then areas else vacate_old_area old areas

vacate_lem :
    (old : ℕ × ℕ) (s : Index)
    → vacate old s ≡ (ok tt, record s { empty_areas = released old s.empty_areas })
unfolding vacate released
vacate_lem old s = elim (Bool-cases (old.1 == 0)) [
  | inl gone ↦ rw (gone, vacate) refl
  | inr bytes ↦ rw (bytes, vacate) refl
]

released-IsStore :
    (fixed places areas : Areas) (end : ℕ) (old : ℕ × ℕ)
    → IsStore fixed places areas end × IsLoose fixed places areas end old
    → old.1 + occupied areas < 2 ^ 32
    → IsStore fixed places (released old areas) end
unfolding released
released-IsStore fixed places areas end old (store, loose) small = elim (Bool-cases (old.1 == 0)) [
  | inl gone ↦ rw (gone, released) store
  | inr bytes ↦ rw (bytes, released) (give_back fixed places areas end store old loose small)
]

-- The data end behind a new place at the end.
grown : NewArea → ℕ → ℕ → ℕ
grown f d end = if f.is_at_end then end + d else end

module _ (fixed : Areas) (ident d : ℕ) (old : ℕ × ℕ) (s : Index) (store : Stores fixed s)
    (is_old : get_elem? s.bulk_indirections ident ≡ some old)
    (small : old.1 + occupied s.empty_areas < 2 ^ 32) where
  pub erase-Stores : Stores fixed ((do vacate old; set_bulk_indirection ident (0, 0)) s).1
  unfolding set_bulk_indirection
  erase-Stores = rw (vacate_lem old s) (
      released-IsStore fixed _ s.empty_areas s.pad.bulk_end old
        (erased fixed s.bulk_indirections s.empty_areas s.pad.bulk_end store ident old is_old)
        small)

  pub in_place-Stores : (offset : ℕ) → Stores fixed (on_pad (bulk_write offset 0 d) s).1
  unfolding on_pad
  in_place-Stores offset = rw (bulk_write-end offset 0 d s.pad) store

  module _ (some_data : 0 < d) (some_minimum : 0 < s.definition_minimum_size)
      (large : s.definition_minimum_size ≤ d) (fits : d + s.definition_minimum_size < 2 ^ 32)
      (in_bulk : s.pad.is_bulk ≡ true) where
    unfoldable pub f : NewArea
    f = find_new_area d s.definition_minimum_size s.empty_areas (data_end s.pad)

    pub f-Found : Found d s.empty_areas s.pad.bulk_end f
    unfolding f data_end
    f-Found =
        rw (in_bulk, data_end)
          (find_new_area-Found d s.definition_minimum_size s.empty_areas s.pad.bulk_end
            store.areas_apart store.areas_below store.areas_ranges some_data some_minimum fits
            large)

    -- The areas are taken, and nothing else is done yet.
    taken : IsStore fixed s.bulk_indirections f.left s.pad.bulk_end
    taken =
        let h = f-Found in
        record {
          areas_apart = h.left_apart;
          areas_ranges = h.left_ranges;
          areas_below = h.left_below;
          places_apart = store.places_apart;
          places_ranges = store.places_ranges;
          places_below = store.places_below;
          places_used =
              All-both _ _ _ s.bulk_indirections (λ e b a. (h.others_apart e b a).0)
                store.places_below store.places_used;
          fixed_ranges = store.fixed_ranges;
          fixed_below = store.fixed_below;
          fixed_used =
              All-both _ _ _ fixed (λ e b a. (h.others_apart e b a).0) store.fixed_below
                store.fixed_used;
          fixed_apart = store.fixed_apart;
        }

    moved :
        IsStore fixed
          (set s.bulk_indirections ident f.place)
          (released old f.left)
          (grown f d s.pad.bulk_end)
    unfolding grown
    moved =
        let h = f-Found in
        released-IsStore fixed _ f.left (grown f d s.pad.bulk_end) old
          (replaced fixed s.bulk_indirections s.empty_areas s.pad.bulk_end store ident old is_old d
            s.definition_minimum_size (grown f d s.pad.bulk_end) f h (ground arith) some_data
            (elim (Bool-cases f.is_at_end) [
              | inl last ↦ ground (arith, h.outside last, h.tight last)
              | inr amid ↦ ground (arith, h.inside amid)
            ]))
          (omega (arith, h.left_occupied))

    unfoldable pub written : Result (Unit {0}) × PadFile
    written = bulk_write f.place.0 0 d s.pad

    elsewhere-throws :
        (e : Error)
        → written.0 ≡ err e
        → place_elsewhere_bulk ident d old s
          ≡ (err e, record s { empty_areas = f.left; pad = written.1 })
    unfolding place_elsewhere_bulk new_area on_pad f written
    elsewhere-throws e threw = ground (arith, threw)

    pub elsewhere-done :
        written.0 ≡ ok tt
        → place_elsewhere_bulk ident d old s ≡ (
          ok tt,
          record s {
            bulk_indirections = set s.bulk_indirections ident f.place;
            empty_areas = released old f.left;
            pad = (extend_data f.is_at_end d written.1).1;
          },
        )
    unfolding place_elsewhere_bulk new_area on_pad f written set_bulk_indirection extend_data
    elsewhere-done wrote = ground (
      arith,
      wrote,
      vacate_lem old
          (record s { empty_areas = f.left; pad = (extend_data f.is_at_end d written.1).1 }),
    )

    written-end : written.1.bulk_end ≡ s.pad.bulk_end
    unfolding written
    written-end = bulk_write-end f.place.0 0 d s.pad

    extended-end : (extend_data f.is_at_end d written.1).1.bulk_end ≡ grown f d s.pad.bulk_end
    unfolding extend_data grown
    extended-end = ground (arith, written-end)

    pub elsewhere-Stores : Stores fixed (place_elsewhere_bulk ident d old s).1
    elsewhere-Stores = elim (Result-cases written.0) [
      | inr (e, threw) ↦ rw (elsewhere-throws e threw) (rw written-end taken)
      | inl (done, wrote) ↦ rw (elsewhere-done wrote) (rw extended-end moved)
    ]
