-- ===== src/LocalIndex/Documents.antt =====
-- src/cpp/NindIndex/NindLocalIndex.cpp: documents written to the index and erased from it.
use nind.Prelude.{
  ℕ, zero, suc, ◌+◌, ◌-◌, ◌*◌, ◌^◌, ◌%◌, List, [], ◌∷◌, length, Bool, false, ltb, ◌==◌, ◌||◌,
  if◌then◌else◌,
}
use nind.Prelude.Exec.{ok, pure, throw, gets, nind_local_index, ◌>>=◌, ◌>>◌}
use nind.WriteBuffer.{Write, put_int1, put_int4}
use nind.PadFile.{Allocator, Identification, on_write_buffer, get_specifics_and_identification_size}
use nind.PadFile.Writing.{create_new, write_identification, write_specifics_header}
use nind.DocIdMap.{find_doc, set_doc, erase_doc, size}
use nind.Index.{on_pad, on_index_file, is_format_v2, check_extend_indirection}
use nind.Index.Defining.{set_definition}
use nind.LocalIndex.{
  Term, Local, on_base, flag_dejfinition, taille_teste_dejfinition, offset_longueur,
  taille_dejfinition_minimum, put_definition_field, put_definition_field_at, put_external_doc_id,
}
use nind.LocalIndex.Terms.{put_terms}

-- An operation on the write buffer of the file.
abbrev pub put : Write → Local (Unit {0})
put m = on_base (on_index_file (on_write_buffer m))

-- `createBuffer`
abbrev pub new_buffer : Allocator → ℕ → Local (Unit {0})
new_buffer al n = on_base (on_index_file (create_new al n))

unfoldable pub write_specifics_and_identification : Identification → Local (Unit {0})
write_specifics_and_identification id = do
  on_base (on_pad write_specifics_header)
  max_identifiant_interne ← gets (λ s. s.curr_ident)
  put (put_int4 max_identifiant_interne)
  nombre_documents ← gets (λ s. size (s.doc_id_trad_ext_int))
  put (put_int4 nombre_documents)
  on_base (on_pad (write_identification id))

-- A term has more localisations than one byte counts.
unfoldable pub has_too_many : List Term → Bool
has_too_many [] = false
has_too_many (t ∷ ts) = ltb 255 (length (t.localisation)) || has_too_many ts

-- The internal identifier of a document, a new one where it has none.
unfoldable pub known_or_new : ℕ → Local ℕ
known_or_new ident s =
    let known = find_doc s.doc_id_trad_ext_int ident in
    let next = (s.curr_ident + 1) % 2 ^ 32 in
    if known == 0
    then (
      ok next,
      record s {
        curr_ident = next;
        doc_id_trad_ext_int = set_doc ident next s.doc_id_trad_ext_int;
      },
    )
    else (ok known, s)

unfoldable pub forget_doc : ℕ → Local (Unit {0})
forget_doc ident s =
    (ok tt, record s { doc_id_trad_ext_int = erase_doc ident s.doc_id_trad_ext_int })

unfoldable pub erase_local_def : Allocator → ℕ → ℕ → Identification → Local (Unit {0})
erase_local_def al ident ident_int id = do
  forget_doc ident
  queue ← gets (λ s. get_specifics_and_identification_size (s.index.pad))
  new_buffer al queue
  write_specifics_and_identification id
  on_base (set_definition al ident_int)

-- The size of the write buffer; the two numbers are TAILLE_TESTE_DEJFINITION_MAXIMUM and
-- TAILLE_LOC_MAXIMUM, the third TAILLE_BUFFER_MINIMUM.
unfoldable pub taille_maximum : ℕ → List Term → ℕ
taille_maximum taille [] = taille
taille_maximum taille (t ∷ ts) =
    let more = (taille + (5 + length (t.localisation) * 3)) % 2 ^ 32 in
    taille_maximum (if ltb more 128 then 128 else more) ts

unfoldable pub put_zeros : ℕ → Write
put_zeros zero = pure tt
put_zeros (suc n) = do put_int1 0; put_zeros n

unfoldable pub put_document : Bool → ℕ → ℕ → List Term → Write
put_document v2 ident ident_int local_def = do
  put_int1 flag_dejfinition
  put_definition_field v2 ident_int
  put_external_doc_id v2 ident
  put_definition_field v2 0
  put_terms 0 0 local_def
  written_size ← gets (λ w. w.ptr)
  put_definition_field_at v2 (written_size - taille_teste_dejfinition v2) (offset_longueur v2)
  put_zeros (taille_dejfinition_minimum - written_size)

unfoldable pub write_local_def : Allocator → ℕ → ℕ → List Term → Identification → Local (Unit {0})
write_local_def al ident ident_int local_def id = do
  v2 ← gets (λ s. is_format_v2 (s.index.pad))
  queue ← gets (λ s. get_specifics_and_identification_size (s.index.pad))
  new_buffer al (taille_maximum (taille_teste_dejfinition v2 + queue) local_def)
  put (put_document v2 ident ident_int local_def)
  write_specifics_and_identification id
  on_base (set_definition al ident_int)

-- `localDef.size() == 0`
abbrev pub is_empty : List Term → Bool
is_empty ts = length ts == 0

unfoldable pub set_known : Allocator → ℕ → List Term → Identification → Local (Unit {0})
set_known al ident local_def id = do
  ident_int ← known_or_new ident
  on_base (check_extend_indirection al ident_int id)
  if is_empty local_def
      then erase_local_def al ident ident_int id
      else write_local_def al ident ident_int local_def id

-- Nothing is done to erase a document that is not known.
unfoldable pub set_local_def : Allocator → ℕ → List Term → Identification → Local (Unit {0})
set_local_def al ident local_def id s =
    if has_too_many local_def
    then throw nind_local_index s
    else if (find_doc s.doc_id_trad_ext_int ident == 0)
    then (if is_empty local_def then pure tt s else set_known al ident local_def id s)
    else set_known al ident local_def id s
