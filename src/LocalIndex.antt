-- ===== src/LocalIndex.antt =====
-- src/cpp/NindIndex/NindLocalIndex.{h,cpp}: the documents, each a definition of a NindIndex: the terms
-- in order with their localisations. m_docIdTradExtInt, a table from external to internal
-- identifiers, and m_currIdent, the largest internal one, are beside the index.
pub mod Terms
pub mod Documents
pub mod Queries
pub mod Sharing
pub mod Counting
pub mod Numbering
pub mod Fields
pub mod Whole
pub mod Decoded
use nind.Prelude.{ℕ, ◌+◌, ◌-◌, ◌%◌, ◌^◌, List, Bool, ltb, if◌then◌else◌}
use nind.Prelude.Exec.{Exec, throw, out_of_bound}
use nind.ReadBuffer.{Read, get_int3, get_int4, get_int8}
use nind.WriteBuffer.{Write, put_int3, put_int4, put_int8, put_int3_at, put_int4_at}
use nind.DocIdMap.{DocIdMap}
use nind.Index.{Index, Indexing}

pub record Localisation : Type 0 where
  pub position : ℕ
  pub length : ℕ

pub record Term : Type 0 where
  pub term : ℕ
  pub cg : ℕ
  pub localisation : List Localisation

pub record LocalIndex : Type 0 where
  pub index : Index
  pub doc_id_trad_ext_int : DocIdMap
  pub curr_ident : ℕ

abbrev pub Local : Type 0 → Type 0
Local A = Exec LocalIndex A

unfoldable pub on_base : {A : Type 0} → Indexing A → Local A
on_base m s = let (r, i) = m s.index in (r, record s { index = i })

abbrev pub flag_dejfinition : ℕ
flag_dejfinition = 19

abbrev pub taille_teste_ident_externe : Bool → ℕ
taille_teste_ident_externe v2 = if v2 then 13 else 8

abbrev pub offset_longueur : Bool → ℕ
offset_longueur v2 = if v2 then 13 else 8

abbrev pub taille_teste_dejfinition : Bool → ℕ
taille_teste_dejfinition v2 = if v2 then 17 else 11

abbrev pub taille_dejfinition_minimum : ℕ
taille_dejfinition_minimum = 18

unfoldable pub get_definition_field : Bool → Read ℕ
get_definition_field v2 = if v2 then get_int4 else get_int3

unfoldable pub put_definition_field : Bool → ℕ → Write
put_definition_field v2 value =
    if v2 then put_int4 value else if ltb 0xFFFFFF value then throw out_of_bound else put_int3 value

unfoldable pub put_definition_field_at : Bool → ℕ → ℕ → Write
put_definition_field_at v2 value offset =
    if v2
    then put_int4_at value offset
    else if ltb 0xFFFFFF value
    then throw out_of_bound
    else put_int3_at value offset

unfoldable pub get_external_doc_id : Bool → Read ℕ
get_external_doc_id v2 = if v2 then get_int8 else get_int4

unfoldable pub put_external_doc_id : Bool → ℕ → Write
put_external_doc_id v2 ident = if v2 then put_int8 ident else put_int4 ident
