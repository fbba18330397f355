-- ===== src/Index/Kept.antt =====
-- src/cpp/NindIndex/NindIndex.cpp: `setDefinitionBulk` against a table of definitions.
use nind.Prelude.{
  ℕ, zero, suc, ◌+◌, ◌-◌, ◌^◌, ◌≤◌, ◌<◌, ◌≡◌, ◌≢◌, ◌⊎◌, refl, ap, ◌∙◌, inl, inr, List, [], ◌∷◌,
  ◌++◌, length, length-append, length-replicate, replicate, take, drop, true, false, some,
  get_elem?, arith, All,
}
use nind.Prelude.Exec.{Result, ok}
use nind.WriteBuffer.{copy_out_buffer}
use nind.File.Content.{bytes_at, bytes_at-overwrite, take-drop-overwrite}
use nind.File.Puts.{part, length-part}
use nind.PadFile.{on_file, on_write_buffer, get_max_ident}
use nind.PadFile.Writing.{set_bulk_tail}
use nind.PadFile.Holes.{Apart, occupied}
use nind.PadFile.Bulk.{Tracks}
use nind.Index.{Areas, Index, on_pad, on_index_file}
use nind.Index.Areas.Ranges.{Below, All-map, All-get}
use nind.Index.Defining.{place_bulk, set_definition_of, set_definition_bulk, resize_indirections}
use nind.Index.Bulk.{Stores}
use nind.Index.Placing.{with_tail, place_bulk-Stores, resized-IsStore, with_absent}
use nind.Index.Written.{Put, place_bulk-Put, Disjoint-get}

-- The bytes of a range are those that they were.
abbrev pub Keeps : Index → Index → ℕ × ℕ → Type 0
Keeps s t r = bytes_at r.0 r.1 t.pad.file.content ≡ bytes_at r.0 r.1 s.pad.file.content

-- A definition has the bytes; the others and the fixed ranges have those that they had.
pub record IsDefined (fixed : Areas) (ident : ℕ) (bytes : List ℕ) (s : Index)
    (r : Result (Unit {0})) (t : Index) : Type 0 where
  pub set_succeeds : r ≡ ok tt
  pub works_on : t.pad.file.fails ≡ false
  pub place : ℕ × ℕ
  pub place_set : get_elem? t.bulk_indirections ident ≡ some place
  pub place_long : length bytes ≤ place.1
  pub place_inside : place.0 + place.1 ≤ length t.pad.file.content
  pub bytes_set : bytes_at place.0 (length bytes) t.pad.file.content ≡ bytes
  pub others_kept :
      (j : ℕ) (q : ℕ × ℕ)
      → j ≢ ident
      → get_elem? s.bulk_indirections j ≡ some q
      → (get_elem? t.bulk_indirections j ≡ some q) × Keeps s t q
  pub fixed_kept : All (Keeps s t) fixed

module _ (fixed : Areas) (ident d : ℕ) (s : Index) (r : Result (Unit {0})) (t : Index)
    (store : Stores fixed s) (after : Stores fixed t) (p : Put ident d s r t)
    (in_file : s.pad.bulk_end ≤ length s.pad.file.content)
    (in_buffer : d ≤ length s.pad.file.out_buffer.bytes) where
  kept : (q : ℕ × ℕ) → Below s.pad.bulk_end q → Apart q p.at_place → Keeps s t q
  kept q below apart =
      ap (bytes_at q.0 q.1) p.content_put
      ∙ bytes_at-overwrite s.pad.file.content p.at_place.0 (part s.pad.file 0 d) q.0 q.1
          (omega arith) (beside apart)
    where
      beside :
          Apart q p.at_place
          → (q.0 + q.1 ≤ p.at_place.0) ⊎ (p.at_place.0 + length (part s.pad.file 0 d) ≤ q.0)
      beside (inl h) = inl h
      beside (inr h) = inr (omega (arith, p.room_for, length-part s.pad.file 0 d (omega arith)))

  Put→IsDefined : IsDefined fixed ident (part s.pad.file 0 d) s r t
  Put→IsDefined = record {
    set_succeeds = p.put_succeeds;
    works_on = p.still_works;
    place = p.at_place;
    place_set = p.is_at;
    place_long = omega (arith, p.room_for, length-part s.pad.file 0 d (omega arith));
    place_inside = p.place_in_file;
    bytes_set =
        ap (bytes_at p.at_place.0 (length (part s.pad.file 0 d))) p.content_put
        ∙ take-drop-overwrite s.pad.file.content p.at_place.0 (part s.pad.file 0 d);
    others_kept = λ j q off e.
        let e' = p.others_at j off ∙ e in
        (
          e',
          kept q (All-get (Below s.pad.bulk_end) s.bulk_indirections j q store.places_below e) (
              Disjoint-get t.bulk_indirections j ident q p.at_place after.places_apart off e'
                p.is_at),
        );
    fixed_kept = each fixed store.fixed_below after.fixed_apart;
  }
    where
      each :
          (xs : Areas)
          → All (Below s.pad.bulk_end) xs
          → All (λ r. All (Apart r) t.bulk_indirections) xs
          → All (Keeps s t) xs
      each [] b a = tt
      each (x ∷ xs) b a = (
        kept x b.0 (All-get (Apart x) t.bulk_indirections ident p.at_place a.0 p.is_at),
        each xs b.1 a.1,
      )

-- The same, told from a state with the same content and no more definitions.
IsDefined-from :
    (fixed : Areas) (ident : ℕ) (bytes : List ℕ) (s s' : Index) (r : Result (Unit {0})) (t : Index)
    → s'.pad.file.content ≡ s.pad.file.content
    → ((j : ℕ) (q : ℕ × ℕ)
        → get_elem? s.bulk_indirections j ≡ some q
        → get_elem? s'.bulk_indirections j ≡ some q)
    → IsDefined fixed ident bytes s' r t
    → IsDefined fixed ident bytes s r t
IsDefined-from fixed ident bytes s s' r t same more h = record {
  set_succeeds = h.set_succeeds;
  works_on = h.works_on;
  place = h.place;
  place_set = h.place_set;
  place_long = h.place_long;
  place_inside = h.place_inside;
  bytes_set = h.bytes_set;
  others_kept = λ j q off e.
      let k = h.others_kept j q off (more j q e) in (k.0, k.1 ∙ ap (bytes_at q.0 q.1) same);
  fixed_kept =
      All-map (Keeps s' t) (Keeps s t) fixed (λ q k. k ∙ ap (bytes_at q.0 q.1) same) h.fixed_kept;
}

module _ (ident queue : ℕ) (old : ℕ × ℕ) (s : Index)
    (is_old : get_elem? s.bulk_indirections ident ≡ some old)
    (long : queue ≤ s.pad.file.out_buffer.ptr) where
  tail_of : List ℕ
  tail_of = take queue (drop (s.pad.file.out_buffer.ptr - queue) s.pad.file.out_buffer.bytes)

  goes_on :
      set_definition_of ident queue s
      ≡ place_bulk ident (s.pad.file.out_buffer.ptr - queue) old (with_tail tail_of s)
  unfolding set_definition_of on_index_file on_pad on_file on_write_buffer copy_out_buffer
      set_bulk_tail with_tail tail_of
  goes_on = ground (arith, is_old)

module _ (fixed : Areas) (ident queue : ℕ) (old : ℕ × ℕ) (s : Index) (store : Stores fixed s)
    (is_old : get_elem? s.bulk_indirections ident ≡ some old)
    (small : old.1 + occupied s.empty_areas < 2 ^ 32) (some_minimum : 0 < s.definition_minimum_size)
    (size : s.definition_minimum_size + queue ≤ s.pad.file.out_buffer.ptr)
    (fits : s.pad.file.out_buffer.ptr + s.definition_minimum_size < 2 ^ 32)
    (in_bulk : s.pad.is_bulk ≡ true) (tracks : Tracks s.pad) (works : s.pad.file.fails ≡ false)
    (in_buffer : s.pad.file.out_buffer.ptr ≤ length s.pad.file.out_buffer.bytes)
    (in_file : s.pad.bulk_end ≤ length s.pad.file.content) where
  set_definition_of-IsDefined :
      IsDefined fixed ident
        (part s.pad.file 0 (s.pad.file.out_buffer.ptr - queue))
        s
        (set_definition_of ident queue s).0
        (set_definition_of ident queue s).1
  unfolding with_tail
  set_definition_of-IsDefined =
      let d = s.pad.file.out_buffer.ptr - queue in
      let tail = tail_of ident queue old s is_old (omega arith) in
      rw (goes_on ident queue old s is_old (omega arith)) (
        let put =
          place_bulk-Put fixed ident d old (with_tail tail s) store is_old small some_minimum
            (omega arith) (omega arith) in_bulk tracks works (omega arith) in_file in
        let after =
          place_bulk-Stores fixed ident d old (with_tail tail s) store is_old small some_minimum
            (inr (omega arith)) (omega arith) in_bulk in
        IsDefined-from fixed ident _ s (with_tail tail s) _ _ refl (λ j q e. e)
          (Put→IsDefined fixed ident d (with_tail tail s) _ _ store after put in_file
            (omega arith)))

get_elem?-append :
    (xs ys : Areas) (j : ℕ) (q : ℕ × ℕ) → get_elem? xs j ≡ some q → get_elem? (xs ++ ys) j ≡ some q
get_elem?-append [] ys j q e = absurd (ground arith)
get_elem?-append (x ∷ xs) ys zero q e = e
get_elem?-append (x ∷ xs) ys (suc j) q e = get_elem?-append xs ys j q e

get_elem?-inside : (xs : Areas) (j : ℕ) → j < length xs → (q : ℕ × ℕ) × (get_elem? xs j ≡ some q)
get_elem?-inside [] j lt = absurd (omega arith)
get_elem?-inside (x ∷ xs) zero lt = (x, refl)
get_elem?-inside (x ∷ xs) (suc j) lt = get_elem?-inside xs j (omega arith)

-- In bulk mode, on a device that works, where the store is well formed (the definitions, the empty
-- areas and the fixed ranges, such as the blocks of indirections, disjoint and before the end of the
-- data, which is in the file) and a known bulk position is that of the stream, setting a definition
-- succeeds and puts its bytes, those of the write buffer before the tail, at a place that is long
-- enough and in the file, whether the definition is new, fits its old place or moves; the other
-- definitions keep their places and their bytes, and the fixed ranges keep theirs. The identifier is
-- below getMaxIdent, the definition is not below the smallest size, which is not 0, what was put is
-- in the write buffer, and sizes, also those of an old place and the empty areas together, stay below
-- 2 ^ 32.
pub set_definition_bulk-IsDefined :
    (fixed : Areas) (ident queue : ℕ) (s : Index)
    → Stores fixed s
    → s.pad.is_bulk ≡ true
    → Tracks s.pad
    → s.pad.file.fails ≡ false
    → s.pad.bulk_end ≤ length s.pad.file.content
    → ident < get_max_ident s.pad
    → 0 < s.definition_minimum_size
    → s.definition_minimum_size + queue ≤ s.pad.file.out_buffer.ptr
    → s.pad.file.out_buffer.ptr ≤ length s.pad.file.out_buffer.bytes
    → s.pad.file.out_buffer.ptr + s.definition_minimum_size < 2 ^ 32
    → occupied s.empty_areas < 2 ^ 32
    → All (λ e. e.1 + occupied s.empty_areas < 2 ^ 32) s.bulk_indirections
    → IsDefined fixed ident
        (part s.pad.file 0 (s.pad.file.out_buffer.ptr - queue))
        s
        (set_definition_bulk ident queue s).0
        (set_definition_bulk ident queue s).1
unfolding set_definition_bulk resize_indirections
set_definition_bulk-IsDefined fixed ident queue s store in_bulk tracks works in_file has
      some_minimum size in_buffer fits few small =
    let n = get_max_ident s.pad - length s.bulk_indirections in
    let absent : Areas = replicate n (0, 0) in
    let s' = record s { bulk_indirections = s.bulk_indirections ++ absent } in
    let store' = resized-IsStore fixed s.bulk_indirections s.empty_areas s.pad.bulk_end n store in
    let small' =
      with_absent fixed s.bulk_indirections s.empty_areas s.pad.bulk_end n store
        (λ e. e.1 + occupied s.empty_areas < 2 ^ 32) small (omega arith) in
    let (old, is_old) = get_elem?-inside (s.bulk_indirections ++ absent) ident (
      omega
        (arith, length-append s.bulk_indirections absent, length-replicate {A = ℕ × ℕ} n (0, 0))) in
    IsDefined-from fixed ident _ s s' _ _ refl (get_elem?-append s.bulk_indirections absent) (
      set_definition_of-IsDefined fixed ident queue old s' store' is_old
        (All-get (λ e. e.1 + occupied s.empty_areas < 2 ^ 32) (s.bulk_indirections ++ absent) ident
          old small' is_old)
        some_minimum size fits in_bulk tracks works in_buffer in_file)
