-- ===== src/LocalIndex/Numbering.antt =====
-- The internal identifiers of documents, as setLocalDef gives them.
use nind.Prelude.{
  ℕ, ◌+◌, ◌^◌, ◌%◌, ◌≡◌, ◌≢◌, ◌≤◌, ◌<◌, refl, List, Bool, true, false, ◌==◌, ==_iff, if◌then◌else◌,
  Bool-cases, inl, inr, arith,
}
use nind.Prelude.Exec.{Result, ok, err, gets, continue, ◌>>=◌}
use nind.WriteBuffer.{Write, put_int4}
use nind.PadFile.Writing.{create_new, write_specifics_header, write_identification}
use nind.PadFile.{Allocator, Identification, on_write_buffer, get_specifics_and_identification_size}
use nind.DocIdMap.{DocIdMap, find_doc, size}
use nind.DocIdMap.Invariant.{IsDocIdMap}
use nind.DocIdMap.Documents.{set_doc-IsDocIdMap, find_doc-set_doc, find_doc-erase_doc}
use nind.Index.Defining.{set_definition}
use nind.Index.{Indexing, on_pad, on_index_file, is_format_v2, check_extend_indirection}
use nind.LocalIndex.{Term, LocalIndex, Local, on_base, taille_teste_dejfinition}
use nind.LocalIndex.Documents.{
  is_empty, has_too_many, known_or_new, forget_doc, erase_local_def, write_local_def, set_known,
  set_local_def, write_specifics_and_identification, put, taille_maximum, put_document,
}

-- The table is well formed, its internal identifiers are at most the current one, and no two
-- documents have the same.
pub record IsNumbered (table : DocIdMap) (curr_ident : ℕ) : Type 0 where
  pub well_formed : IsDocIdMap table
  pub at_most : (i : ℕ) → find_doc table i ≤ curr_ident
  pub apart : (i j : ℕ) → find_doc table i ≢ 0 → find_doc table i ≡ find_doc table j → i ≡ j

-- The documents but one keep their internal identifiers.
pub record Renumbered (ident : ℕ) (before : DocIdMap) (table : DocIdMap) (curr_ident : ℕ)
    : Type 0 where
  pub numbered : IsNumbered table curr_ident
  pub others : (j : ℕ) → ident ≢ j → find_doc table j ≡ find_doc before j

differs : (i j : ℕ) → i ≢ j → (i == j) ≡ false
differs i j h = elim (Bool-cases (i == j)) [
  | inl same ↦ absurd (h ((==_iff i j).0 same))
  | inr other ↦ other
]

module _ (ident : ℕ) (before : DocIdMap) where
  abbrev After : LocalIndex → Type 0
  After s = Renumbered ident before s.doc_id_trad_ext_int s.curr_ident

  record Stays {A : Type 0} (m : Local A) : Type 0 where
    stays : (s : LocalIndex) → After s → After (m s).1

  continue-Stays :
      {A B : Type 0} (f : A → Local B)
      → ((a : A) → Stays (f a))
      → (r : Result A) (s : LocalIndex) → After s
      → After (continue r f s).1
  continue-Stays f h (ok a) s k = (h a).stays s k
  continue-Stays f h (err e) s k = k

  bind-Stays :
      {A B : Type 0} (m : Local A) (f : A → Local B)
      → Stays m
      → ((a : A) → Stays (f a))
      → Stays (m >>= f)
  bind-Stays m f hm hf = record {
    stays = λ s k. continue-Stays f hf (m s).0 (m s).1 (hm.stays s k);
  }

  on_base-Stays : {A : Type 0} (m : Indexing A) → Stays (on_base m)
  unfolding on_base
  on_base-Stays m = record { stays = λ s k. k }

  gets-Stays : {A : Type 0} (f : LocalIndex → A) → Stays (gets f)
  gets-Stays f = record { stays = λ s k. k }

  if-Stays :
      {A : Type 0} (b : Bool) (m n : Local A) → Stays m → Stays n → Stays (if b then m else n)
  if-Stays true m n hm hn = hm
  if-Stays false m n hm hn = hn

  -- An operation on the index, then others.
  base_then :
      {A B : Type 0} (m : Indexing A) (f : A → Local B)
      → ((a : A) → Stays (f a))
      → Stays (on_base m >>= f)
  base_then m f = bind-Stays (on_base m) f (on_base-Stays m)

  put_then :
      {B : Type 0} (m : Write) (f : Unit {0} → Local B)
      → ((a : Unit {0}) → Stays (f a))
      → Stays (put m >>= f)
  put_then m = base_then (on_index_file (on_write_buffer m))

  gets_then :
      {A B : Type 0} (g : LocalIndex → A) (f : A → Local B)
      → ((a : A) → Stays (f a))
      → Stays (gets g >>= f)
  gets_then g f = bind-Stays (gets g) f (gets-Stays g)

  write_specifics-Stays : (id : Identification) → Stays (write_specifics_and_identification id)
  unfolding write_specifics_and_identification
  write_specifics-Stays id = base_then (on_pad write_specifics_header) _ (λ _.
      gets_then (λ s. s.curr_ident) _
        (λ largest. put_then (put_int4 largest) _ (λ _.
          gets_then (λ s. size (s.doc_id_trad_ext_int)) _
            (λ count.
              put_then (put_int4 count) _
                (λ _. on_base-Stays (on_pad (write_identification id)))))))

  -- The specifics and the identification, and the definition.
  tail_then :
      (al : Allocator) (ident_int : ℕ) (id : Identification)
      → Stays (write_specifics_and_identification id >>= λ _. on_base (set_definition al ident_int))
  tail_then al ident_int id =
      bind-Stays (write_specifics_and_identification id) _ (write_specifics-Stays id)
        (λ _. on_base-Stays (set_definition al ident_int))

  forgotten : (s : LocalIndex) → After s → After (forget_doc ident s).1
  unfolding forget_doc
  forgotten s k =
      let m = s.doc_id_trad_ext_int in
      let h = k.numbered in
      let gone = λ (j : ℕ). find_doc-erase_doc m ident j h.well_formed in
      record {
        numbered = record {
          well_formed = (set_doc-IsDocIdMap m ident 1 h.well_formed (λ e. absurd (omega arith))).1;
          at_most = λ i. ground (arith, gone i, h.at_most i);
          apart = λ i j some same.
              h.apart i j (ground (arith, gone i)) (ground (arith, gone i, gone j));
        };
        others = λ j d. rw (gone j, differs ident j d) (k.others j d);
      }

  erase_local_def-Stays :
      (al : Allocator) (ident_int : ℕ) (id : Identification)
      → Stays (erase_local_def al ident ident_int id)
  unfolding erase_local_def
  erase_local_def-Stays al ident_int id =
      bind-Stays (forget_doc ident) _ (record { stays = forgotten })
        (λ _.
          gets_then (λ s. get_specifics_and_identification_size (s.index.pad)) _
            (λ queue.
              base_then (on_index_file (create_new al queue)) _ (λ _. tail_then al ident_int id)))

  write_local_def-Stays :
      (al : Allocator) (ident_int : ℕ) (ts : List Term) (id : Identification)
      → Stays (write_local_def al ident ident_int ts id)
  unfolding write_local_def
  write_local_def-Stays al ident_int ts id =
      gets_then (λ s. is_format_v2 (s.index.pad)) _
        (λ v2.
          gets_then (λ s. get_specifics_and_identification_size (s.index.pad)) _
            (λ queue.
              base_then
                (on_index_file
                  (create_new al (taille_maximum (taille_teste_dejfinition v2 + queue) ts)))
                _
                (λ _.
                  put_then (put_document v2 ident ident_int ts) _
                    (λ _. tail_then al ident_int id))))

  -- What follows the number of the document.
  written-Stays :
      (al : Allocator) (ident_int : ℕ) (ts : List Term) (id : Identification)
      → Stays (
          on_base (check_extend_indirection al ident_int id) >>= λ _.
          if is_empty ts
          then erase_local_def al ident ident_int id
          else write_local_def al ident ident_int ts id)
  written-Stays al ident_int ts id = base_then (check_extend_indirection al ident_int id) _ (λ _.
      if-Stays (is_empty ts) _ _ (erase_local_def-Stays al ident_int id)
        (write_local_def-Stays al ident_int ts id))

module _ (ident : ℕ) (s : LocalIndex) (h : IsNumbered s.doc_id_trad_ext_int s.curr_ident)
    (more : s.curr_ident + 1 < 2 ^ 32) where
  unchanged : After ident s.doc_id_trad_ext_int s
  unchanged = record { numbered = h; others = λ j d. refl }

  newly : ℕ
  newly = (s.curr_ident + 1) % 2 ^ 32

  known_or_new-After : After ident s.doc_id_trad_ext_int (known_or_new ident s).1
  unfolding known_or_new
  known_or_new-After = elim (Bool-cases (find_doc s.doc_id_trad_ext_int ident == 0)) [
    | inr found ↦ rw found unchanged
    | inl new ↦ rw new (
        let m = s.doc_id_trad_ext_int in
        let v = (s.curr_ident + 1) % 2 ^ 32 in
        let some : v ≢ 0 = λ e. absurd (omega arith) in
        let set = λ (j : ℕ). find_doc-set_doc m ident v j h.well_formed some in
        record {
          numbered = record {
            well_formed = (set_doc-IsDocIdMap m ident v h.well_formed some).0;
            at_most = λ i. ground (arith, set i, h.at_most i);
            apart = λ i j known same.
                ground (arith, set i, set j, h.at_most i, h.at_most j, h.apart i j);
          };
          others = λ j d. rw (set j, differs ident j d) refl;
        })
  ]

  set_known-After :
      (al : Allocator) (ts : List Term) (id : Identification)
      → After ident s.doc_id_trad_ext_int (set_known al ident ts id s).1
  unfolding set_known
  set_known-After al ts id =
      continue-Stays ident s.doc_id_trad_ext_int
        (λ ident_int. on_base (check_extend_indirection al ident_int id) >>= λ _.
          if is_empty ts
          then erase_local_def al ident ident_int id
          else write_local_def al ident ident_int ts id)
        (λ ident_int. written-Stays ident s.doc_id_trad_ext_int al ident_int ts id)
        (known_or_new ident s).0 (known_or_new ident s).1 known_or_new-After

  set_local_def-After :
      (al : Allocator) (ts : List Term) (id : Identification)
      → After ident s.doc_id_trad_ext_int (set_local_def al ident ts id s).1
  unfolding set_local_def
  set_local_def-After al ts id = elim (Bool-cases (has_too_many ts)) [
    | inl many ↦ rw many unchanged
    | inr few ↦ elim (Bool-cases (find_doc s.doc_id_trad_ext_int ident == 0)) [
      | inr known ↦ rw (few, known) (set_known-After al ts id)
      | inl new ↦ elim (Bool-cases (is_empty ts)) [
        | inl empty ↦ rw (few, new, empty) unchanged
        | inr some ↦ rw (few, new, some) (set_known-After al ts id)
      ]
    ]
  ]

  -- With internal identifiers left, setting or erasing a document keeps the table well formed and the
  -- internal identifiers apart, at most the current one, and leaves those of the other documents,
  -- whatever the file and the allocator answer and also where it throws.
  pub set_local_def-IsNumbered :
      (al : Allocator) (ts : List Term) (id : Identification)
      → let after = (set_local_def al ident ts id s).1 in
        IsNumbered after.doc_id_trad_ext_int after.curr_ident
        × ((j : ℕ)
            → ident ≢ j
            → find_doc after.doc_id_trad_ext_int j ≡ find_doc s.doc_id_trad_ext_int j)
  set_local_def-IsNumbered al ts id = let h = set_local_def-After al ts id in (h.numbered, h.others)
