-- ===== src/LocalIndex/Decoded.antt =====
-- A definition of a document in the read buffer, as decodeLocalDef reads it, and the round trip.
use nind.Prelude.{
  ℕ, ◌+◌, ◌-◌, ◌^◌, ◌≡◌, ◌≤◌, ◌<◌, refl, ◌∙◌, subst, List, [], ◌∷◌, ◌++◌, length, length-append,
  length-replicate, append_assoc, Bool, true, false, le→ltb, ==_refl, All, arith,
}
use nind.Prelude.Exec.{ok}
use nind.ReadBuffer.{ReadBuffer, diff64, set_end_in_buffer, get_int1}
use nind.ReadBuffer.Ahead.{Ahead, advance-Ahead}
use nind.ReadBuffer.Decode.{passed}
use nind.WriteBuffer.{WriteBuffer}
use nind.WriteBuffer.Written.{HasRoom, written}
use nind.Codec.{reread}
use nind.Codec.Reread.{reread-Ahead, reread_short}
use nind.LocalIndex.{Term, flag_dejfinition, taille_teste_dejfinition}
use nind.LocalIndex.Terms.Prefix.{Gives, Ahead-front, up_to, bind-Gives}
use nind.LocalIndex.Terms.Coding.{terms_bytes, IsTerm}
use nind.LocalIndex.Terms.Again.{as_read, int1-Gives, get_donnejes-Decodes}
use nind.LocalIndex.Documents.{put_document}
use nind.LocalIndex.Queries.{get_head, get_teste, decode_local_def}
use nind.LocalIndex.Fields.{
  FitsField, FitsIdent, field_bytes, ident_bytes, get_field-Gives, get_ident-Gives,
}
use nind.LocalIndex.Whole.{front, whole, padding, whole_length, put_document-writes}

get_head-Gives :
    (v2 : Bool) (ident ident_int : ℕ)
    → FitsField v2 ident_int
    → FitsIdent v2 ident
    → Gives (get_head v2 ident_int) (front v2 ident ident_int) ident
unfolding get_head
get_head-Gives v2 ident ident_int fits_int fits_ext =
    bind-Gives get_int1 _ (flag_dejfinition ∷ []) (field_bytes v2 ident_int ++ ident_bytes v2 ident)
      flag_dejfinition ident (int1-Gives flag_dejfinition)
      (bind-Gives _ _ (field_bytes v2 ident_int) (ident_bytes v2 ident) ident_int ident
        (get_field-Gives v2 ident_int fits_int)
        (rw (==_refl ident_int) (get_ident-Gives v2 ident fits_ext)))

-- The logical end is put behind the data, where they are in the buffer.
set_end_in_buffer_lem :
    (n : ℕ) (r : ReadBuffer)
    → r.ptr + n ≤ length r.bytes
    → length r.bytes < 2 ^ 64
    → set_end_in_buffer n r ≡ (ok tt, up_to r (r.ptr + n))
unfolding set_end_in_buffer
set_end_in_buffer_lem n r inside small =
    rw (le→ltb (diff64 (length r.bytes) r.ptr) n (omega arith)) refl

short : (v2 : Bool) (n : ℕ) → FitsField v2 n → n < 2 ^ 32
short true n h = h
short false n h = omega arith

small_head : (v2 : Bool) → taille_teste_dejfinition v2 ≤ 17
small_head true = omega arith
small_head false = omega arith

module _ (v2 : Bool) (ident ident_int : ℕ) (ts : List Term)
    (fits : FitsField v2 (length (terms_bytes 0 0 ts))) (fits_int : FitsField v2 ident_int)
    (fits_ext : FitsIdent v2 ident) (are_terms : All IsTerm ts) where
  decode_local_def-whole :
      (r : ReadBuffer) (rest : List ℕ)
      → Ahead r (whole v2 ident ident_int ts (length (terms_bytes 0 0 ts)) ++ rest)
      → length r.bytes < 2 ^ 64
      → (decode_local_def v2 ident ident_int r).0 ≡ ok (as_read ts)
  unfolding decode_local_def get_teste
  decode_local_def-whole r rest a small =
      let t = length (terms_bytes 0 0 ts) in
      let h = front v2 ident ident_int in
      let f = field_bytes v2 t in
      let b = terms_bytes 0 0 ts in
      let r1 = passed r (length h) in
      let r2 = passed r1 (length f) in
      let a0 : Ahead r (h ++ (f ++ (b ++ rest))) =
        subst (Ahead r) (append_assoc (h ++ f) b rest ∙ append_assoc h f (b ++ rest)) a in
      let a1 : Ahead r1 (f ++ (b ++ rest)) = advance-Ahead r h (f ++ (b ++ rest)) a0 in
      let a2 : Ahead r2 (b ++ rest) = advance-Ahead r1 f (b ++ rest) a1 in
      let len = length-append b rest in
      rw
        (
          get_head-Gives v2 ident ident_int fits_int fits_ext r (f ++ (b ++ rest)) a0,
          ==_refl ident,
          get_field-Gives v2 t fits r1 (b ++ rest) a1,
          set_end_in_buffer_lem t r2 (omega (arith, a2.ends, a2.inside, len)) small,
          get_donnejes-Decodes ts are_terms (up_to r2 (r2.ptr + t)) (Ahead-front r2 b rest a2),
        )
        refl

  -- A document of either format, its numbers within their widths, at most 255 localisations for each
  -- term, put into a new buffer with room for its definition and for the smallest one: the put
  -- succeeds, and decodeLocalDef on what was put finds the document and returns its terms in their
  -- order, with each length that is above 255 read as 255.
  pub decode_local_def-put :
      (fresh : List ℕ)
      → taille_teste_dejfinition v2 + length (terms_bytes 0 0 ts) ≤ length fresh
      → 18 ≤ length fresh
      → let start : WriteBuffer = record { bytes = fresh; ptr = 0 } in
        let after = put_document v2 ident ident_int ts start in
        (after.0 ≡ ok tt)
        × ((decode_local_def v2 ident ident_int (reread start after.1)).0 ≡ ok (as_read ts))
  decode_local_def-put fresh room smallest =
      let t = length (terms_bytes 0 0 ts) in
      let doc = whole v2 ident ident_int ts t in
      let pad = padding v2 ts in
      let start : WriteBuffer = record { bytes = fresh; ptr = 0 } in
      let len = whole_length v2 ident ident_int ts t in
      let len0 = whole_length v2 ident ident_int ts 0 in
      let len_pad = length-replicate {A = ℕ} (18 - (taille_teste_dejfinition v2 + t)) 0 in
      let len_all = length-append doc pad in
      let fits_in : HasRoom start (length (doc ++ pad)) = omega (arith, len, len_pad, len_all) in
      rw
        (put_document-writes v2 ident ident_int ts fresh fits (omega (arith, len0, len_pad))
          fits_int fits_ext are_terms)
        (
          refl,
          decode_local_def-whole (reread start (written start (doc ++ pad))) pad
              (reread-Ahead start (doc ++ pad) fits_in)
              (reread_short start (doc ++ pad)
                (omega (arith, len, len_pad, len_all, short v2 t fits, small_head v2))),
        )
