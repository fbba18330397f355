-- ===== src/Index/Again.antt =====
-- src/cpp/NindIndex/NindIndex.cpp: a definition set in bulk mode and got again.
use nind.Prelude.{
  ℕ, ◌+◌, ◌-◌, ◌^◌, ◌≤◌, ◌<◌, ◌≡◌, ◌≢◌, refl, ap, subst, ◌∙◌, zero, suc, take, [], inr, List, Bool,
  ◌∷◌, length, drop, length-take, length-drop, true, false, none, some, get_elem?, arith, All,
}
use nind.Prelude.Exec.{Result, ok, continue}
use nind.File.{File, read_buffer, set_pos, displaced, base}
use nind.File.Content.{bytes_at}
use nind.File.Puts.{part, length-part}
use nind.File.ReadIn.{read_buffer_lem, chunk, Reads, Holds}
use nind.PadFile.{
  Allocator, on_file, go_to, bulk_forget_position, get_max_ident, get_just_entry_pos,
  get_specifics_and_identification_size,
}
use nind.PadFile.Holes.{Apart, occupied}
use nind.PadFile.Bulk.{Tracks}
use nind.Index.{Areas, Index, on_pad, on_index_file}
use nind.Index.Defining.{
  get_definition_bulk, definition_at, set_definition_bulk, get_definition, set_definition,
}
use nind.Index.Envelope.{
  set_definition_bulk-envelope, set_definition-in_bulk, get_definition-in_bulk,
}
use nind.Index.Areas.Ranges.{All-get}
use nind.Index.Bulk.{Stores}
use nind.Index.Placing.{set_definition_bulk-Stores}
use nind.Index.Kept.{set_definition_bulk-IsDefined}

go_to_lem : (offset : ℕ) (f : File) → go_to offset f ≡ (ok tt, record f { position = offset })
unfolding go_to set_pos displaced base
go_to_lem offset f = ap (λ p. (ok tt, record f { position = p })) zero_add
  where
    zero_add : 0 + offset ≡ offset
    zero_add = omega arith

module _ (al : Allocator) (t : Index) (offset n : ℕ) (granted : al.granted ≡ true)
    (works : t.pad.file.fails ≡ false) (inside : offset + n ≤ length t.pad.file.content) where
  -- The file where a definition is read.
  at_offset : File
  at_offset = record (t.pad.file) { position = offset }

  read_there :
      ((read_buffer al.granted (al.fresh n) at_offset).0 ≡ ok tt)
      × Holds
          (read_buffer al.granted (al.fresh n) at_offset).1.in_buffer
          (bytes_at offset n t.pad.file.content)
  unfolding at_offset Reads chunk
  read_there = rw granted (
      let len = al.length-fresh n in
      let (e, held) =
        read_buffer_lem (record (t.pad.file) { position = offset }) (al.fresh n) works
          (omega (arith, len)) in
      (
        e,
        subst
            (λ k.
              Holds (read_buffer true (al.fresh n) at_offset).1.in_buffer
                (bytes_at offset k t.pad.file.content))
            len held,
      ))

  definition_at-Holds :
      ((definition_at offset n al t).0 ≡ ok tt)
      × Holds
          (definition_at offset n al t).1.pad.file.in_buffer
          (bytes_at offset n t.pad.file.content)
  unfolding definition_at on_index_file on_pad on_file at_offset
  definition_at-Holds = rw (go_to_lem offset t.pad.file, continue) read_there

-- The definition that is found, read into the buffer.
get_definition_bulk-Holds :
    (al : Allocator) (t : Index) (ident : ℕ) (place : ℕ × ℕ)
    → al.granted ≡ true
    → t.pad.file.fails ≡ false
    → get_elem? t.bulk_indirections ident ≡ some place
    → place.0 ≢ 0
    → place.0 + place.1 ≤ length t.pad.file.content
    → ((get_definition_bulk al ident 0 t).0 ≡ ok true)
      × Holds
          (get_definition_bulk al ident 0 t).1.pad.file.in_buffer
          (bytes_at place.0 place.1 t.pad.file.content)
unfolding get_definition_bulk on_pad bulk_forget_position
get_definition_bulk-Holds al t ident place granted works e somewhere inside =
    let t' = record t { pad = record (t.pad) { bulk_pos = none } } in
    let (read, held) = definition_at-Holds al t' place.0 place.1 granted works inside in
    let found : get_definition_bulk al ident 0 t
        ≡ (ok true, (definition_at place.0 place.1 al t').1) =
      ground (arith, e, read) in
    rw found (refl, held)

take-take : (n k : ℕ) (xs : List ℕ) → n ≤ k → take n (take k xs) ≡ take n xs
take-take zero k xs le = refl
take-take (suc n) zero xs le = absurd (omega arith)
take-take (suc n) (suc k) [] le = refl
take-take (suc n) (suc k) (x ∷ xs) le = ap (λ ys. x ∷ ys) (take-take n k xs (omega arith))

-- Behind the header of the file.
past_header :
    (rest : Areas) (ident : ℕ) (place : ℕ × ℕ) (t : Index)
    → Stores ((0, 4) ∷ rest) t
    → get_elem? t.bulk_indirections ident ≡ some place
    → 0 < place.1
    → place.0 ≢ 0
past_header rest ident place t store e positive =
    ground (arith, All-get (Apart (0, 4)) t.bulk_indirections ident place store.fixed_apart.0 e)

-- A definition is found, and the read buffer, from the pointer at its head to its end, begins with
-- the bytes.
pub record Got (bytes : List ℕ) (r : Result Bool) (t : Index) : Type 0 where
  pub is_found : r ≡ ok true
  pub starts_with : take (length bytes) t.pad.file.in_buffer.bytes ≡ bytes
  pub long_enough : length bytes ≤ t.pad.file.in_buffer.end
  pub at_head : t.pad.file.in_buffer.ptr ≡ 0

module _ (rest : Areas) (ident queue : ℕ) (s : Index) (store : Stores ((0, 4) ∷ rest) s)
    (in_bulk : s.pad.is_bulk ≡ true) (tracks : Tracks s.pad) (works : s.pad.file.fails ≡ false)
    (in_file : s.pad.bulk_end ≤ length s.pad.file.content) (has : ident < get_max_ident s.pad)
    (some_minimum : 0 < s.definition_minimum_size)
    (size : s.definition_minimum_size + queue ≤ s.pad.file.out_buffer.ptr)
    (in_buffer : s.pad.file.out_buffer.ptr ≤ length s.pad.file.out_buffer.bytes)
    (fits : s.pad.file.out_buffer.ptr + s.definition_minimum_size < 2 ^ 32)
    (few : occupied s.empty_areas < 2 ^ 32)
    (small : All (λ e. e.1 + occupied s.empty_areas < 2 ^ 32) s.bulk_indirections) (al : Allocator)
    (granted : al.granted ≡ true) where
  get_definition_bulk-set :
      Got
        (part s.pad.file 0 (s.pad.file.out_buffer.ptr - queue))
        (get_definition_bulk al ident 0 (set_definition_bulk ident queue s).1).0
        (get_definition_bulk al ident 0 (set_definition_bulk ident queue s).1).1
  get_definition_bulk-set =
      let d = s.pad.file.out_buffer.ptr - queue in
      let bytes = part s.pad.file 0 d in
      let t = (set_definition_bulk ident queue s).1 in
      let h =
        set_definition_bulk-IsDefined ((0, 4) ∷ rest) ident queue s store in_bulk tracks works
          in_file has some_minimum size in_buffer fits few small in
      let after =
        set_definition_bulk-Stores ((0, 4) ∷ rest) ident queue s store in_bulk some_minimum
          (inr (omega arith)) fits few small in
      let len = length-part s.pad.file 0 d (omega arith) in
      let (found, held) =
        get_definition_bulk-Holds al t ident h.place granted h.works_on h.place_set
          (past_header rest ident h.place t after h.place_set (omega (arith, h.place_long)))
          h.place_inside in
      record {
        is_found = found;
        starts_with =
            ap (take (length bytes)) held.bytes_held
            ∙ take-take (length bytes) h.place.1 (drop h.place.0 t.pad.file.content) h.place_long
            ∙ h.bytes_set;
        long_enough = omega (
          arith,
          held.end_held,
          h.place_long,
          h.place_inside,
          length-take h.place.1 (drop h.place.0 t.pad.file.content),
          length-drop h.place.0 t.pad.file.content,
        );
        at_head = held.ptr_held;
      }

-- A definition that is set in bulk mode by setDefinition and got again comes back: getDefinition,
-- asked for the whole definition (bytesNb 0), finds it, and its read buffer begins with the bytes that
-- were in the write buffer before the tail; what it reads is the place of the definition, which may
-- be longer. The conditions: a writer in bulk mode on a device that works; a store that is well
-- formed (the definitions, the empty areas and the fixed ranges, of which the header of the file is
-- one, disjoint and before the end of the data, which is in the file); a known bulk position that is
-- that of the stream; an identifier below getMaxIdent that has an entry; a definition not below the
-- smallest size, which is not 0; what was put in the write buffer; sizes, also those of an old place
-- and the empty areas together, below 2 ^ 32; and the allocation of the read buffer granted.
pub get_definition-set_definition :
    (rest : Areas) (ident : ℕ) (s : Index) (al : Allocator)
    → Stores ((0, 4) ∷ rest) s
    → s.pad.is_writer ≡ true
    → s.pad.is_bulk ≡ true
    → Tracks s.pad
    → s.pad.file.fails ≡ false
    → s.pad.bulk_end ≤ length s.pad.file.content
    → ident < get_max_ident s.pad
    → get_just_entry_pos ident s.pad ≢ 0
    → 0 < s.definition_minimum_size
    → s.definition_minimum_size + get_specifics_and_identification_size s.pad
      ≤ s.pad.file.out_buffer.ptr
    → s.pad.file.out_buffer.ptr ≤ length s.pad.file.out_buffer.bytes
    → s.pad.file.out_buffer.ptr + s.definition_minimum_size < 2 ^ 32
    → occupied s.empty_areas < 2 ^ 32
    → All (λ e. e.1 + occupied s.empty_areas < 2 ^ 32) s.bulk_indirections
    → al.granted ≡ true
    → Got
        (part s.pad.file 0
          (s.pad.file.out_buffer.ptr - get_specifics_and_identification_size s.pad))
        (get_definition al ident 0 (set_definition al ident s).1).0
        (get_definition al ident 0 (set_definition al ident s).1).1
get_definition-set_definition rest ident s al store writer in_bulk tracks works in_file has entry
      some_minimum size in_buffer fits few small granted =
    let queue = get_specifics_and_identification_size s.pad in
    rw
      (
        set_definition-in_bulk al ident s writer in_bulk entry,
        get_definition-in_bulk al ident s (set_definition_bulk ident queue s).1 writer in_bulk entry
            (set_definition_bulk-envelope ident queue s),
      )
      (get_definition_bulk-set rest ident queue s store in_bulk tracks works in_file has
        some_minimum size in_buffer fits few small al granted)
