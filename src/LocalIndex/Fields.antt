-- ===== src/LocalIndex/Fields.antt =====
-- The fields of the definition of a document, in each format: what is put of them, and what is got.
use nind.Prelude.{
  ℕ, zero, suc, ◌+◌, ◌^◌, ◌≡◌, ◌≤◌, ◌<◌, List, [], ◌∷◌, length, splice, replicate, Bool, true,
  false, le→ltb, arith,
}
use nind.Prelude.Exec.{ok}
use nind.WriteBuffer.{WriteBuffer, put_int1, put_int3_at, put_int4_at, store_at}
use nind.WriteBuffer.Written.{octet_value}
use nind.WriteBuffer.Fixed.{
  be, le3_bytes, le4_bytes, put_int3-written, put_int4-written, put_int8-written,
}
use nind.Codec.Fixed.{get_int3-Decodes, get_int4-Decodes, get_int8-Decodes}
use nind.LocalIndex.{
  get_definition_field, put_definition_field, put_definition_field_at, get_external_doc_id,
  put_external_doc_id,
}
use nind.LocalIndex.Terms.Prefix.{Gives, get_int3-Gives, get_int4-Gives, get_int8-Gives}
use nind.LocalIndex.Terms.Coding.{Writes, bind-Writes, pure-Writes, put_int1-Writes}
use nind.LocalIndex.Documents.{put_zeros}

-- The fields of each format, and what fits them.
abbrev pub field_bytes : Bool → ℕ → List ℕ
field_bytes true v = le4_bytes v
field_bytes false v = le3_bytes v

abbrev pub FitsField : Bool → ℕ → Type 0
FitsField true v = v < 2 ^ 32
FitsField false v = v < 2 ^ 24

abbrev pub ident_bytes : Bool → ℕ → List ℕ
ident_bytes true v = be 8 v
ident_bytes false v = le4_bytes v

abbrev pub FitsIdent : Bool → ℕ → Type 0
FitsIdent true v = v < 2 ^ 64
FitsIdent false v = v < 2 ^ 32

pub zero_fits : (v2 : Bool) → FitsField v2 0
zero_fits true = omega arith
zero_fits false = omega arith

pub put_field-Writes :
    (v2 : Bool) (v : ℕ) → FitsField v2 v → Writes (put_definition_field v2 v) (field_bytes v2 v) tt
unfolding put_definition_field
put_field-Writes true v fits w room = put_int4-written v w room fits
put_field-Writes false v fits w room =
    rw (le→ltb 0xFFFFFF v (omega arith)) (put_int3-written v w room fits)

pub put_ident-Writes :
    (v2 : Bool) (v : ℕ) → FitsIdent v2 v → Writes (put_external_doc_id v2 v) (ident_bytes v2 v) tt
unfolding put_external_doc_id
put_ident-Writes true v fits w room = put_int8-written v w room
put_ident-Writes false v fits w room = put_int4-written v w room fits

pub put_zeros-Writes : (n : ℕ) → Writes (put_zeros n) (replicate n 0) tt
unfolding put_zeros
put_zeros-Writes zero = pure-Writes tt
put_zeros-Writes (suc n) =
    bind-Writes (put_int1 0) _ (0 ∷ []) (replicate n 0) tt tt (put_int1-Writes 0 (omega arith))
      (put_zeros-Writes n)

pub put_field_at-stores :
    (v2 : Bool) (v offset : ℕ) (w : WriteBuffer)
    → FitsField v2 v
    → offset + length (field_bytes v2 v) ≤ length w.bytes
    → put_definition_field_at v2 v offset w
      ≡ (ok tt, record w { bytes = splice w.bytes offset (field_bytes v2 v) })
unfolding put_definition_field_at store_at put_int3_at put_int4_at
put_field_at-stores true v offset w fits le =
    ground (arith, octet_value v 0, octet_value v 8, octet_value v 16, octet_value v 24)
put_field_at-stores false v offset w fits le =
    rw (le→ltb 0xFFFFFF v (omega arith))
      (ground (arith, octet_value v 0, octet_value v 8, octet_value v 16))

pub get_field-Gives :
    (v2 : Bool) (v : ℕ) → FitsField v2 v → Gives (get_definition_field v2) (field_bytes v2 v) v
unfolding get_definition_field
get_field-Gives true v fits = get_int4-Gives v (le4_bytes v) (get_int4-Decodes v fits)
get_field-Gives false v fits = get_int3-Gives v (le3_bytes v) (get_int3-Decodes v fits)

pub get_ident-Gives :
    (v2 : Bool) (v : ℕ) → FitsIdent v2 v → Gives (get_external_doc_id v2) (ident_bytes v2 v) v
unfolding get_external_doc_id
get_ident-Gives true v fits = get_int8-Gives v (be 8 v) (get_int8-Decodes v fits)
get_ident-Gives false v fits = get_int4-Gives v (le4_bytes v) (get_int4-Decodes v fits)
