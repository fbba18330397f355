-- ===== src/Index/Placing.antt =====
-- src/cpp/NindIndex/NindIndex.cpp: `setDefinitionBulk` on the store.
use nind.Prelude.{
  ℕ, zero, suc, ◌+◌, ◌-◌, ◌^◌, ◌≤◌, ◌<◌, ◌≡◌, ◌⊎◌, refl, inl, inr, List, [], ◌∷◌, ◌++◌, replicate,
  take, drop, true, some, get_elem?, ltb, leb, ◌==◌, arith, All, Bool-cases, Option-cases,
}
use nind.WriteBuffer.{copy_out_buffer}
use nind.PadFile.{on_file, on_write_buffer}
use nind.PadFile.Writing.{set_bulk_tail}
use nind.PadFile.Holes.{Apart, Disjoint, occupied}
use nind.Index.{Areas, Index, on_pad, on_index_file}
use nind.Index.Areas.Ranges.{IsRange, Below, All-map, All-get, All-append, All-replicate}
use nind.Index.Defining.{place_bulk, set_definition_of, set_definition_bulk, resize_indirections}
use nind.Index.Store.{IsStore}
use nind.Index.Bulk.{Stores, erase-Stores, in_place-Stores, elsewhere-Stores}

-- The size of a definition: none, or at least the smallest one that the index has.
abbrev pub IsSize : ℕ → ℕ → Type 0
IsSize minimum d = (d ≡ 0) ⊎ (minimum ≤ d)

module _ (fixed : Areas) (ident d : ℕ) (old : ℕ × ℕ) (s : Index) (store : Stores fixed s)
    (is_old : get_elem? s.bulk_indirections ident ≡ some old)
    (small : old.1 + occupied s.empty_areas < 2 ^ 32) (some_minimum : 0 < s.definition_minimum_size)
    (size : IsSize s.definition_minimum_size d) (fits : d + s.definition_minimum_size < 2 ^ 32)
    (in_bulk : s.pad.is_bulk ≡ true) where
  pub place_bulk-Stores : Stores fixed (place_bulk ident d old s).1
  unfolding place_bulk
  place_bulk-Stores = elim (Bool-cases (d == 0)) [
    | inl gone ↦ rw (gone, place_bulk) (erase-Stores fixed ident d old s store is_old small)
    | inr kept ↦ elim (Bool-cases (leb d old.1)) [
      | inl inside ↦
          rw (kept, inside, place_bulk)
            (in_place-Stores fixed ident d old s store is_old small old.0)
      | inr beyond ↦
          rw (kept, beyond, place_bulk)
            (elsewhere-Stores fixed ident d old s store is_old small (ground arith) some_minimum
              (ground arith) fits in_bulk)
    ]
  ]

-- The index with the tail copied from the write buffer.
unfoldable pub with_tail : List ℕ → Index → Index
with_tail tail s = record s { pad = record (s.pad) { bulk_tail = tail } }

module _ (ident queue : ℕ) (old : ℕ × ℕ) (s : Index)
    (is_old : get_elem? s.bulk_indirections ident ≡ some old) where
  -- Either it throws and changes nothing, or it goes on with the size of the data.
  set_definition_of-cases :
      ((set_definition_of ident queue s).1 ≡ s)
      ⊎ ((tail : List ℕ) × (set_definition_of ident queue s
            ≡ place_bulk ident (s.pad.file.out_buffer.ptr - queue) old (with_tail tail s)))
  unfolding set_definition_of on_index_file on_pad on_file on_write_buffer copy_out_buffer
      set_bulk_tail with_tail
  set_definition_of-cases = elim (Bool-cases (ltb s.pad.file.out_buffer.ptr queue)) [
    | inl short ↦ inl (ground (arith, is_old, short))
    | inr long ↦ inr (
      take queue (drop (s.pad.file.out_buffer.ptr - queue) s.pad.file.out_buffer.bytes),
      ground (arith, is_old, long),
    )
  ]

set_definition_of-Stores :
    (fixed : Areas) (ident queue : ℕ) (s : Index)
    → Stores fixed s
    → All (λ e. e.1 + occupied s.empty_areas < 2 ^ 32) s.bulk_indirections
    → 0 < s.definition_minimum_size
    → IsSize s.definition_minimum_size (s.pad.file.out_buffer.ptr - queue)
    → s.pad.file.out_buffer.ptr + s.definition_minimum_size < 2 ^ 32
    → s.pad.is_bulk ≡ true
    → Stores fixed (set_definition_of ident queue s).1
unfolding set_definition_of with_tail
set_definition_of-Stores fixed ident queue s store small some_minimum size fits in_bulk =
    elim (Option-cases (get_elem? s.bulk_indirections ident)) [
      | inl absent ↦ rw (absent, set_definition_of) store
      | inr (old, is_old) ↦
          let small_old =
            All-get (λ e. e.1 + occupied s.empty_areas < 2 ^ 32) s.bulk_indirections ident old small
              is_old in
          elim (set_definition_of-cases ident queue old s is_old) [
            | inl same ↦ rw same store
            | inr (tail, goes_on) ↦ rw goes_on (
                place_bulk-Stores fixed ident (s.pad.file.out_buffer.ptr - queue) old
                  (with_tail tail s) store is_old small_old some_minimum size (omega arith) in_bulk)
          ]
    ]

-- The absent definitions of new identifiers.
Disjoint-absent : (xs : Areas) (n : ℕ) → Disjoint xs → Disjoint (xs ++ replicate n (0, 0))
Disjoint-absent [] zero d = tt
Disjoint-absent [] (suc n) d =
    (All-replicate (Apart (0, 0)) n (0, 0) (inl (omega arith)), Disjoint-absent [] n tt)
Disjoint-absent (x ∷ xs) n d = (
  All-append (Apart x) xs (replicate n (0, 0)) d.0
      (All-replicate (Apart x) n (0, 0) (inr (omega arith))),
  Disjoint-absent xs n d.1,
)

module _ (fixed places areas : Areas) (end n : ℕ) (s : IsStore fixed places areas end) where
  pub with_absent :
      (P : ℕ × ℕ → Type 0) → All P places → P (0, 0) → All P (places ++ replicate n (0, 0))
  with_absent P h p = All-append P places (replicate n (0, 0)) h (All-replicate P n (0, 0) p)

  nowhere : (xs : Areas) → All (Apart (0, 0)) xs
  nowhere [] = tt
  nowhere (x ∷ xs) = (inl (omega arith), nowhere xs)

  pub resized-IsStore : IsStore fixed (places ++ replicate n (0, 0)) areas end
  resized-IsStore = record {
    areas_apart = s.areas_apart;
    areas_ranges = s.areas_ranges;
    areas_below = s.areas_below;
    places_apart = Disjoint-absent places n s.places_apart;
    places_ranges = with_absent IsRange s.places_ranges (inr refl);
    places_below = with_absent (Below end) s.places_below (omega arith);
    places_used = with_absent (λ e. All (Apart e) areas) s.places_used (nowhere areas);
    fixed_ranges = s.fixed_ranges;
    fixed_below = s.fixed_below;
    fixed_used = s.fixed_used;
    fixed_apart =
        All-map (λ r. All (Apart r) places) (λ r. All (Apart r) (places ++ replicate n (0, 0)))
          fixed (λ r h. with_absent (Apart r) h (inr (omega arith))) s.fixed_apart;
  }

-- Setting a definition in bulk mode keeps the store: no byte of the file is in two definitions, or
-- in a definition and an empty area or a block of indirections. That holds whatever the file answers
-- and also where it throws, for a definition that is empty or not below the smallest size, which is
-- not 0, with sizes that stay below 2 ^ 32.
pub set_definition_bulk-Stores :
    (fixed : Areas) (ident queue : ℕ) (s : Index)
    → Stores fixed s
    → s.pad.is_bulk ≡ true
    → 0 < s.definition_minimum_size
    → IsSize s.definition_minimum_size (s.pad.file.out_buffer.ptr - queue)
    → s.pad.file.out_buffer.ptr + s.definition_minimum_size < 2 ^ 32
    → occupied s.empty_areas < 2 ^ 32
    → All (λ e. e.1 + occupied s.empty_areas < 2 ^ 32) s.bulk_indirections
    → Stores fixed (set_definition_bulk ident queue s).1
unfolding set_definition_bulk resize_indirections
set_definition_bulk-Stores fixed ident queue s store in_bulk some_minimum size fits few small =
    set_definition_of-Stores fixed ident queue _
      (resized-IsStore fixed s.bulk_indirections s.empty_areas s.pad.bulk_end _ store)
      (with_absent fixed s.bulk_indirections s.empty_areas s.pad.bulk_end _ store
        (λ e. e.1 + occupied s.empty_areas < 2 ^ 32) small (omega arith))
      some_minimum size fits in_bulk
