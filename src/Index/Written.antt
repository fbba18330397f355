-- ===== src/Index/Written.antt =====
-- src/cpp/NindIndex/NindIndex.cpp: the bytes of the definitions as one of them is set in bulk mode.
use nind.Prelude.{
  ℕ, zero, suc, ◌+◌, ◌^◌, ◌≤◌, ◌<◌, ◌≡◌, ◌≢◌, refl, ap, sym, max, ◌∙◌, subst, inl, inr, [], ◌∷◌,
  length, Bool, true, false, some, get_elem?, set, leb, ◌==◌, arith, Bool-cases,
}
use nind.Prelude.Exec.{Result, ok}
use nind.File.{overwrite}
use nind.File.Content.{length-overwrite}
use nind.File.Puts.{part, length-part}
use nind.PadFile.{PadFile}
use nind.PadFile.Holes.{Apart, Disjoint, occupied}
use nind.PadFile.Bulk.{Tracks, bulk_write-WrittenAt}
use nind.Index.{Areas, Index, on_pad}
use nind.Index.Areas.Ranges.{Apart-sym, Below, All-get}
use nind.Index.Defining.{place_bulk, extend_data}
use nind.Index.Bulk.{Stores, f, f-Found, elsewhere-done, written}

get_elem?-set :
    (xs : Areas) (k : ℕ) (a v : ℕ × ℕ) → get_elem? xs k ≡ some a → get_elem? (set xs k v) k ≡ some v
get_elem?-set [] k a v e = absurd (ground arith)
get_elem?-set (x ∷ xs) zero a v e = refl
get_elem?-set (x ∷ xs) (suc k) a v e = get_elem?-set xs k a v e

get_elem?-set_other :
    (xs : Areas) (k j : ℕ) (v : ℕ × ℕ) → j ≢ k → get_elem? (set xs k v) j ≡ get_elem? xs j
get_elem?-set_other [] k j v off = refl
get_elem?-set_other (x ∷ xs) zero zero v off = absurd (off refl)
get_elem?-set_other (x ∷ xs) zero (suc j) v off = refl
get_elem?-set_other (x ∷ xs) (suc k) zero v off = refl
get_elem?-set_other (x ∷ xs) (suc k) (suc j) v off =
    get_elem?-set_other xs k j v (λ e. off (ap suc e))

pub Disjoint-get :
    (xs : Areas) (i j : ℕ) (a b : ℕ × ℕ)
    → Disjoint xs
    → i ≢ j
    → get_elem? xs i ≡ some a
    → get_elem? xs j ≡ some b
    → Apart a b
Disjoint-get [] i j a b d off ea eb = absurd (ground arith)
Disjoint-get (x ∷ xs) zero zero a b d off ea eb = absurd (off refl)
Disjoint-get (x ∷ xs) zero (suc j) a b d off ea eb =
    subst (λ y. Apart y b) (some-inj ea) (All-get (Apart x) xs j b d.0 eb)
  where
    some-inj : some x ≡ some a → x ≡ a
    some-inj e = ground arith
Disjoint-get (x ∷ xs) (suc i) zero a b d off ea eb =
    Apart-sym b a (subst (λ y. Apart y a) (some-inj eb) (All-get (Apart x) xs i a d.0 ea))
  where
    some-inj : some x ≡ some b → x ≡ b
    some-inj e = ground arith
Disjoint-get (x ∷ xs) (suc i) (suc j) a b d off ea eb =
    Disjoint-get xs i j a b d.1 (λ e. off (ap suc e)) ea eb

-- A definition has been put at its place, and the other definitions are where they were.
pub record Put (ident d : ℕ) (s : Index) (r : Result (Unit {0})) (t : Index) : Type 0 where
  pub put_succeeds : r ≡ ok tt
  pub at_place : ℕ × ℕ
  pub is_at : get_elem? t.bulk_indirections ident ≡ some at_place
  pub room_for : d ≤ at_place.1
  pub others_at :
      (j : ℕ) → j ≢ ident → get_elem? t.bulk_indirections j ≡ get_elem? s.bulk_indirections j
  pub still_works : t.pad.file.fails ≡ false
  pub content_put :
      t.pad.file.content ≡ overwrite s.pad.file.content at_place.0 (part s.pad.file 0 d)
  pub place_in_file : at_place.0 + at_place.1 ≤ length t.pad.file.content

extend_data-file : (b : Bool) (d : ℕ) (p : PadFile) → (extend_data b d p).1.file ≡ p.file
unfolding extend_data
extend_data-file true d p = refl
extend_data-file false d p = refl

module _ (fixed : Areas) (ident d : ℕ) (old : ℕ × ℕ) (s : Index) (store : Stores fixed s)
    (is_old : get_elem? s.bulk_indirections ident ≡ some old)
    (small : old.1 + occupied s.empty_areas < 2 ^ 32) (some_minimum : 0 < s.definition_minimum_size)
    (size : s.definition_minimum_size ≤ d) (fits : d + s.definition_minimum_size < 2 ^ 32)
    (in_bulk : s.pad.is_bulk ≡ true) (tracks : Tracks s.pad) (works : s.pad.file.fails ≡ false)
    (in_buffer : d ≤ length s.pad.file.out_buffer.bytes)
    (in_file : s.pad.bulk_end ≤ length s.pad.file.content) where
  -- What the file has after the bytes are written at an address.
  longer :
      (address : ℕ)
      → length (overwrite s.pad.file.content address (part s.pad.file 0 d))
        ≡ max (length s.pad.file.content) (address + d)
  longer address =
      length-overwrite s.pad.file.content address (part s.pad.file 0 d)
      ∙ ap (λ n. max (length s.pad.file.content) (address + n))
          (length-part s.pad.file 0 d (omega arith))

  pub place_bulk-Put : Put ident d s (place_bulk ident d old s).0 (place_bulk ident d old s).1
  unfolding place_bulk on_pad written
  place_bulk-Put = elim (Bool-cases (leb d old.1)) [
    | inl inside ↦
        let w = bulk_write-WrittenAt old.0 0 d s.pad tracks works (omega arith) (omega arith) in
        rw (not_empty, inside, place_bulk)
          (record {
            put_succeeds = w.succeeds;
            at_place = old;
            is_at = is_old;
            room_for = ground arith;
            others_at = λ j off. refl;
            still_works = w.works_after;
            content_put = w.content_after;
            place_in_file = omega (
              arith,
              ap length w.content_after,
              longer old.0,
              All-get (Below s.pad.bulk_end) s.bulk_indirections ident old store.places_below
                  is_old,
            );
          })
    | inr beyond ↦
        let g =
          f fixed ident d old s store is_old small (omega arith) some_minimum size fits in_bulk in
        let found =
          f-Found fixed ident d old s store is_old small (omega arith) some_minimum size fits
            in_bulk in
        let w = bulk_write-WrittenAt g.place.0 0 d s.pad tracks works (omega arith) (omega arith) in
        rw
          (
            not_empty,
            beyond,
            place_bulk,
            elsewhere-done fixed ident d old s store is_old small (omega arith) some_minimum size
                fits in_bulk w.succeeds,
          )
          (record {
            put_succeeds = refl;
            at_place = g.place;
            is_at = get_elem?-set s.bulk_indirections ident old g.place is_old;
            room_for = found.enough;
            others_at = λ j off. get_elem?-set_other s.bulk_indirections ident j g.place off;
            still_works = ap (λ x. x.fails) (extend_data-file g.is_at_end d _) ∙ w.works_after;
            content_put = ap (λ x. x.content) (extend_data-file g.is_at_end d _) ∙ w.content_after;
            place_in_file =
                subst (λ c. g.place.0 + g.place.1 ≤ length c)
                  (sym (ap (λ x. x.content) (extend_data-file g.is_at_end d _) ∙ w.content_after))
                  (elim (Bool-cases g.is_at_end) [
                    | inl last ↦
                        omega (arith, longer g.place.0, found.outside last, found.tight last)
                    | inr within ↦ omega (arith, longer g.place.0, found.inside within)
                  ]);
          })
  ]
    where
      not_empty : (d == 0) ≡ false
      not_empty = ground arith
