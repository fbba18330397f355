-- ===== src/LocalIndex/Queries.antt =====
-- src/cpp/NindIndex/NindLocalIndex.cpp: documents read from the index. What a reader does not know it
-- looks for in the file, and completes the table of documents.
use nind.Prelude.{
  ℕ, zero, suc, ◌+◌, ◌-◌, ◌^◌, ◌%◌, List, [], ◌∷◌, map, Bool, true, false, not, Option, none, some,
  ltb, leb, ◌==◌, if◌then◌else◌,
}
use nind.Prelude.Exec.{
  Result, ok, err, Error, pure, throw, gets, when_true, nind_local_index, undefined, endless, ◌>>=◌,
  ◌>>◌,
}
use nind.ReadBuffer.{Read, end_of_in_buffer, set_end_in_buffer, get_int1, get_int4, get_s_int_lat}
use nind.File.{on_in_buffer}
use nind.PadFile.{Allocator, get_max_ident}
use nind.PadFile.Reading.{get_entry_pos, get_specifics}
use nind.DocIdMap.{empty_map, find_doc, set_doc, for_each}
use nind.Index.{Index, on_pad, on_index_file, is_format_v2}
use nind.Index.Defining.{get_definition}
use nind.LocalIndex.{
  Term, LocalIndex, Local, on_base, flag_dejfinition, taille_teste_ident_externe,
  get_definition_field, get_external_doc_id,
}
use nind.LocalIndex.Terms.{get_donnejes}

-- An operation on the read buffer of the file.
abbrev pub get : {A : Type 0} → Read A → Local A
get m = on_base (on_index_file (on_in_buffer m))

abbrev pub is_v2 : LocalIndex → Bool
is_v2 s = is_format_v2 s.index.pad

-- <flagDejfinition=19> <identifiantDoc> <identifiantExterne>, of the document that is expected.
unfoldable pub get_head : Bool → ℕ → Read ℕ
get_head v2 ident_int = do
  flag ← get_int1
  when_true (not (flag == flag_dejfinition)) nind_local_index
  ident_doc ← get_definition_field v2
  when_true (not (ident_doc == ident_int)) nind_local_index
  get_external_doc_id v2

-- What precedes the terms; the logical end is put behind them.
unfoldable pub get_teste : Bool → ℕ → ℕ → Read (Unit {0})
get_teste v2 ident ident_int = do
  ident_ext ← get_head v2 ident_int
  when_true (not (ident_ext == ident)) nind_local_index
  longueur_donnejes ← get_definition_field v2
  set_end_in_buffer longueur_donnejes

unfoldable pub decode_local_def : Bool → ℕ → ℕ → Read (List Term)
decode_local_def v2 ident ident_int = do get_teste v2 ident ident_int; get_donnejes

unfoldable pub set_ext_int : ℕ → ℕ → Local (Unit {0})
set_ext_int ident_ext ident_doc s = (
  ok tt,
  record s {
    doc_id_trad_ext_int = set_doc ident_ext ident_doc s.doc_id_trad_ext_int;
    curr_ident = ident_doc;
  },
)

-- The document of an internal identifier, where it has one.
unfoldable pub fill_one : Allocator → ℕ → Local (Unit {0})
fill_one al ident s =
    (do
      existe ← on_base (get_definition al ident (taille_teste_ident_externe (is_v2 s)))
      if not existe
          then pure tt
          else do ident_ext ← get (get_head (is_v2 s) ident); set_ext_int ident_ext ident)
      s

-- `count` internal identifiers, from `ident` on.
unfoldable pub fill_from : Allocator → ℕ → ℕ → Local (Unit {0})
fill_from al zero ident = pure tt
fill_from al (suc count) ident = do fill_one al ident; fill_from al count (ident + 1)

-- `getEntryPos`, whose answer is not looked at, where the map may have grown.
unfoldable pub refresh_entries : Allocator → ℕ → Local (Unit {0})
refresh_entries al int_id_max s =
    if leb (get_max_ident s.index.pad) int_id_max
    then (do on_base (on_pad (get_entry_pos al int_id_max)); pure tt) s
    else pure tt s

unfoldable pub fill_doc_id_trad_ext_int : Allocator → ℕ → ℕ → Local (Unit {0})
fill_doc_id_trad_ext_int al int_id_min int_id_max = do
  refresh_entries al int_id_max
  max_entries ← gets (λ s. get_max_ident (s.index.pad))
  if max_entries == 0
      then pure tt
      else fill_from al
          ((if ltb (max_entries - 1) int_id_max then max_entries - 1 else int_id_max)
            + 1
            - int_id_min)
          int_id_min

-- The largest internal identifier, in the specifics of the file.
unfoldable pub get_max_internal : Allocator → Local ℕ
get_max_internal al = do on_base (on_pad (get_specifics al)); get get_int4

-- The documents that were added since the table was filled.
unfoldable pub complete : Allocator → Local (Unit {0})
complete al = do
  max_internal ← get_max_internal al
  from ← gets (λ s. (s.curr_ident + 1) % 2 ^ 32)
  fill_doc_id_trad_ext_int al from max_internal

unfoldable pub get_internal_ident : Allocator → ℕ → Local ℕ
get_internal_ident al ident s =
    let known = find_doc s.doc_id_trad_ext_int ident in
    if not (known == 0)
    then (ok known, s)
    else (do complete al; gets (λ s. find_doc (s.doc_id_trad_ext_int) ident)) s

-- `none` where the document is not found.
unfoldable pub get_local_def : Allocator → ℕ → Local (Option (List Term))
get_local_def al ident = do
  ident_int ← get_internal_ident al ident
  if ident_int == 0 then pure none else do
    existe ← on_base (get_definition al ident_int 0)
    v2 ← gets is_v2
    if not existe
        then pure none
        else do local_def ← get (decode_local_def v2 ident ident_int); pure (some local_def)

unfoldable pub skip_localisations : ℕ → Read (Unit {0})
skip_localisations zero = pure tt
skip_localisations (suc n) = do get_s_int_lat; get_int1; skip_localisations n

-- The terms of a document are counted modulo 2 ^ 32.
unfoldable pub count_terms : ℕ → ℕ → Read ℕ
count_terms zero local_length r =
    if end_of_in_buffer r then pure local_length r else throw endless r
count_terms (suc fuel) local_length r = elim (end_of_in_buffer r) [
  | true ↦ pure local_length r
  | false ↦
      (do
        get_s_int_lat
        get_int1
        nbre_localisations ← get_int1
        skip_localisations nbre_localisations
        count_terms fuel ((local_length + 1) % 2 ^ 32))
        r
]

unfoldable pub count_donnejes : Read ℕ
count_donnejes r = count_terms (r.end - r.ptr) 0 r

-- `catch (FileException &exc)`: every exception of the program is one.
unfoldable pub caught : Error → Error
caught undefined = undefined
caught endless = endless
caught e = nind_local_index

unfoldable pub try_local : {A : Type 0} → Local A → Local A
try_local m s = elim (m s).0 [ ok a ↦ (ok a, (m s).1) | err e ↦ (err (caught e), (m s).1) ]

unfoldable pub get_local_length : Allocator → ℕ → Local (Option ℕ)
get_local_length al ident = try_local (do
  ident_int ← get_internal_ident al ident
  if ident_int == 0 then pure none else do
    existe ← on_base (get_definition al ident_int 0)
    v2 ← gets is_v2
    if not existe then pure none else do
      local_length ← get (do get_teste v2 ident ident_int; count_donnejes)
      pure (some local_length))

-- The second number of the specifics.
unfoldable pub get_doc_count : Allocator → Local ℕ
get_doc_count al = do on_base (on_pad (get_specifics al)); get get_int4; get get_int4

unfoldable pub is_reader : LocalIndex → Bool
is_reader s = not s.index.pad.is_writer

-- A reader completes its table first.
unfoldable pub get_doc_ident_pairs : Allocator → Local (List (ℕ × ℕ))
get_doc_ident_pairs al s =
    (do if is_reader s then complete al else pure tt; gets (λ s. for_each (s.doc_id_trad_ext_int)))
      s

unfoldable pub get_doc_idents : Allocator → Local (List ℕ)
get_doc_idents al = do pairs ← get_doc_ident_pairs al; pure (map (λ p. p.0) pairs)

-- A `std::set` as the list of its elements, in increasing order.
unfoldable pub insert_ident : ℕ → List ℕ → List ℕ
insert_ident x [] = x ∷ []
insert_ident x (y ∷ ys) =
    let rest = insert_ident x ys in
    if x == y then y ∷ ys else if ltb x y then x ∷ y ∷ ys else y ∷ rest

unfoldable pub unique_terms : List Term → List ℕ → List ℕ
unique_terms [] found = found
unique_terms (t ∷ ts) found = unique_terms ts (insert_ident (t.term) found)

unfoldable pub get_term_idents : Allocator → ℕ → Local (Option (List ℕ))
get_term_idents al ident = do
  local_def ← get_local_def al ident
  elim local_def [ none ↦ pure none | some terms ↦ pure (some (unique_terms terms [])) ]

-- The constructor, once the index is open: a writer fills its table, a reader when it needs it.
unfoldable pub open_local : Allocator → Local (Unit {0})
open_local al = do
  max_internal ← get_max_internal al
  reader ← gets is_reader
  if reader then pure tt else fill_doc_id_trad_ext_int al 1 max_internal

unfoldable pub new_local_index : Allocator → Index → Result (Unit {0}) × LocalIndex
new_local_index al index =
    open_local al (record { index = index; doc_id_trad_ext_int = empty_map; curr_ident = 0 })
