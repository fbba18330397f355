-- ===== src/LocalIndex/Sharing.antt =====
-- src/cpp/NindIndex/NindLocalIndex.cpp: the calls that several threads make at once, each with its read
-- buffer. The table of documents is read under a shared lock and completed under an exclusive one:
-- `waiting` is what others do to it between the two, `meanwhile` what they do to the published map.
use nind.Prelude.{
  ℕ, zero, suc, ◌+◌, ◌-◌, ◌^◌, ◌%◌, List, not, Option, none, some, ltb, leb, ◌==◌, if◌then◌else◌,
}
use nind.Prelude.Exec.{Exec, Result, ok, err, pure, gets, nind_local_index, ◌>>=◌, ◌>>◌}
use nind.ReadBuffer.{ReadBuffer, Read, get_int4}
use nind.PadFile.{Allocator, Shared, get_max_ident_at}
use nind.PadFile.Reading.{get_specifics_at}
use nind.PadFile.Sharing.{Call, get_entry_pos_at}
use nind.DocIdMap.{DocIdMap, find_doc, set_doc}
use nind.Index.Parts.{get_definition_at}
use nind.LocalIndex.{Term, LocalIndex, taille_teste_ident_externe}
use nind.LocalIndex.Queries.{is_v2, get_head, decode_local_def}

pub record Calling : Type 0 where
  pub documents : DocIdMap
  pub curr_ident : ℕ
  pub shared : Shared
  pub buffer : ReadBuffer

abbrev pub Asking : Type 0 → Type 0
Asking A = Exec Calling A

unfoldable pub on_call : {A : Type 0} → Call A → Asking A
on_call m s =
    let (r, (shared, buffer)) = m (s.shared, s.buffer) in
    (r, record s { shared = shared; buffer = buffer })

unfoldable pub on_own : {A : Type 0} → Read A → Asking A
on_own m s = let (r, buffer) = m s.buffer in (r, record s { buffer = buffer })

module _ (al : Allocator) (s : LocalIndex) (meanwhile : Shared → Shared) where
  abbrev max_ident_of : Calling → ℕ
  max_ident_of c = get_max_ident_at (record (s.index.pad) { shared = c.shared })

  unfoldable pub set_ext_int_at : ℕ → ℕ → Asking (Unit {0})
  set_ext_int_at ident_ext ident_doc c = (
    ok tt,
    record c { documents = set_doc ident_ext ident_doc c.documents; curr_ident = ident_doc },
  )

  unfoldable pub fill_one_at : ℕ → Asking (Unit {0})
  fill_one_at ident = do
    existe ←
        on_call
          (get_definition_at al s.index meanwhile ident (taille_teste_ident_externe (is_v2 s)))
    if not existe
        then pure tt
        else do ident_ext ← on_own (get_head (is_v2 s) ident); set_ext_int_at ident_ext ident

  unfoldable pub fill_from_at : ℕ → ℕ → Asking (Unit {0})
  fill_from_at zero ident = pure tt
  fill_from_at (suc count) ident = do fill_one_at ident; fill_from_at count (ident + 1)

  unfoldable pub refresh_entries_at : ℕ → Asking (Unit {0})
  refresh_entries_at int_id_max c =
      if leb (max_ident_of c) int_id_max
      then (do on_call (get_entry_pos_at al s.index.pad meanwhile int_id_max); pure tt) c
      else pure tt c

  unfoldable pub fill_doc_id_trad_ext_int_at : ℕ → ℕ → Asking (Unit {0})
  fill_doc_id_trad_ext_int_at int_id_min int_id_max = do
    refresh_entries_at int_id_max
    max_entries ← gets max_ident_of
    if max_entries == 0
        then pure tt
        else fill_from_at
            ((if ltb (max_entries - 1) int_id_max then max_entries - 1 else int_id_max)
              + 1
              - int_id_min)
            int_id_min

  -- Under the exclusive lock.
  unfoldable pub complete_at : ℕ → Asking ℕ
  complete_at ident c =
      let known = find_doc c.documents ident in
      if not (known == 0)
      then (ok known, c)
      else (do
        on_own (get_specifics_at al s.index.pad)
        max_internal ← on_own get_int4
        fill_doc_id_trad_ext_int_at ((c.curr_ident + 1) % 2 ^ 32) max_internal
        gets (λ c. find_doc (c.documents) ident))
          c

  unfoldable pub get_definition_and_decode : ℕ → ℕ → Asking (Option (List Term))
  get_definition_and_decode ident ident_int = do
    existe ← on_call (get_definition_at al s.index meanwhile ident_int 0)
    if not existe then pure none else do
      local_def ← on_own (decode_local_def (is_v2 s) ident ident_int)
      pure (some local_def)

  module _ (waiting : DocIdMap × ℕ → DocIdMap × ℕ) where
    unfoldable pub get_internal_ident_at : ℕ → Asking ℕ
    get_internal_ident_at ident c =
        let known = find_doc c.documents ident in
        let (documents, curr_ident) = waiting (c.documents, c.curr_ident) in
        if not (known == 0)
        then (ok known, c)
        else complete_at ident (record c { documents = documents; curr_ident = curr_ident })

    unfoldable pub get_local_def_const : ℕ → Asking (Option (List Term))
    get_local_def_const ident = do
      ident_int ← get_internal_ident_at ident
      if ident_int == 0 then pure none else get_definition_and_decode ident ident_int

    -- Another document, or none, at the expected place: the document is looked for by its identifier.
    unfoldable pub or_by_ident :
        ℕ → Result (Option (List Term)) × Calling → Result (Option (List Term)) × Calling
    or_by_ident ident (ok (some local_def), c) = (ok (some local_def), c)
    or_by_ident ident (ok none, c) = get_local_def_const ident c
    or_by_ident ident (err nind_local_index, c) = get_local_def_const ident c
    or_by_ident ident (err e, c) = (err e, c)

    unfoldable pub get_local_def_at : ℕ → ℕ → Asking (Option (List Term))
    get_local_def_at ident expected c =
        or_by_ident ident (get_definition_and_decode ident expected c)
