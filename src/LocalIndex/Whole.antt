-- ===== src/LocalIndex/Whole.antt =====
-- A whole definition of a document, as setLocalDef puts it.
use nind.Prelude.{
  ℕ, ◌+◌, ◌-◌, ◌≡◌, ◌≤◌, refl, sym, ap, ap₂, ◌∙◌, List, [], ◌∷◌, ◌++◌, length, drop, splice,
  replicate, length-append, length-splice, take-append, drop-append, drop-drop, append_assoc, Bool,
  true, false, All, arith,
}
use nind.Prelude.Exec.{Exec, ok, gets, ◌>>=◌, ◌>>◌}
use nind.WriteBuffer.{WriteBuffer}
use nind.WriteBuffer.Written.{HasRoom, written, written-written}
use nind.LocalIndex.{
  Term, flag_dejfinition, offset_longueur, taille_teste_dejfinition, taille_dejfinition_minimum,
  put_definition_field, put_definition_field_at, put_external_doc_id,
}
use nind.LocalIndex.Terms.{put_terms}
use nind.LocalIndex.Terms.Coding.{Writes, put_int1-Writes, terms_bytes, IsTerm, put_terms-Writes}
use nind.LocalIndex.Documents.{put_document, put_zeros}
use nind.LocalIndex.Fields.{
  field_bytes, FitsField, ident_bytes, FitsIdent, zero_fits, put_field-Writes, put_ident-Writes,
  put_zeros-Writes, put_field_at-stores,
}

-- A run is overwritten between what stands before it and behind it.
splice_run :
    (front old new rest : List ℕ)
    → length old ≡ length new
    → splice (front ++ (old ++ rest)) (length front) new ≡ front ++ (new ++ rest)
splice_run front old new rest e =
    rw
      (
        take-append front (old ++ rest),
        sym (drop-drop (length new) (length front) _ (front ++ (old ++ rest)) refl),
        drop-append front (old ++ rest),
        sym e,
        drop-append old rest,
      )
      refl

splice_middle :
    (xs front old new back : List ℕ)
    → length old ≡ length new
    → splice (splice xs 0 ((front ++ old) ++ back)) (length front) new
      ≡ splice xs 0 ((front ++ new) ++ back)
splice_middle xs front old new back e =
    ap (λ l. splice l (length front) new) (regroup old)
    ∙ splice_run front old new (back ++ drop (length ((front ++ old) ++ back)) xs) e
    ∙ ap (λ n. front ++ (new ++ (back ++ drop n xs))) same
    ∙ sym (regroup new)
  where
    same : length ((front ++ old) ++ back) ≡ length ((front ++ new) ++ back)
    same = omega (
      arith,
      length-append (front ++ old) back,
      length-append (front ++ new) back,
      length-append front old,
      length-append front new,
    )

    zero_add : (n : ℕ) → 0 + n ≡ n
    zero_add n = omega arith

    regroup :
        (mid : List ℕ)
        → splice xs 0 ((front ++ mid) ++ back)
          ≡ front ++ (mid ++ (back ++ drop (length ((front ++ mid) ++ back)) xs))
    regroup mid = rw (zero_add (length ((front ++ mid) ++ back))) (
        append_assoc (front ++ mid) back (drop (length ((front ++ mid) ++ back)) xs)
        ∙ append_assoc front mid (back ++ drop (length ((front ++ mid) ++ back)) xs))

-- A step of a sequence of puts, after the bytes that are there already.
step :
    {A B : Type 0} (m : Exec WriteBuffer A) (f : A → Exec WriteBuffer B) (w : WriteBuffer)
    (before bytes : List ℕ) (a : A)
    → Writes m bytes a
    → HasRoom w (length before + length bytes)
    → (m >>= f) (written w before) ≡ f a (written w (before ++ bytes))
step m f w before bytes a h room =
    let kept = length-splice w.bytes w.ptr before (omega arith) in
    rw (h (written w before) (omega (arith, kept)))
      (ap (f a) (written-written w before bytes (omega arith)))

-- The flag and the two identifiers.
abbrev pub front : Bool → ℕ → ℕ → List ℕ
front v2 ident ident_int =
    ((flag_dejfinition ∷ []) ++ field_bytes v2 ident_int) ++ ident_bytes v2 ident

-- A definition whose data are said to be of some length.
abbrev pub whole : Bool → ℕ → ℕ → List Term → ℕ → List ℕ
whole v2 ident ident_int ts len =
    (front v2 ident ident_int ++ field_bytes v2 len) ++ terms_bytes 0 0 ts

-- The zeros behind a definition that is too small.
abbrev pub padding : Bool → List Term → List ℕ
padding v2 ts = replicate (18 - (taille_teste_dejfinition v2 + length (terms_bytes 0 0 ts))) 0

front_length :
    (v2 : Bool) (ident ident_int : ℕ) → length (front v2 ident ident_int) ≡ offset_longueur v2
front_length true ident ident_int = refl
front_length false ident ident_int = refl

field_length :
    (v2 : Bool) (v : ℕ)
    → offset_longueur v2 + length (field_bytes v2 v) ≡ taille_teste_dejfinition v2
field_length true v = refl
field_length false v = refl

pub whole_length :
    (v2 : Bool) (ident ident_int : ℕ) (ts : List Term) (len : ℕ)
    → length (whole v2 ident ident_int ts len)
      ≡ taille_teste_dejfinition v2 + length (terms_bytes 0 0 ts)
whole_length v2 ident ident_int ts len = omega (
  arith,
  length-append (front v2 ident ident_int ++ field_bytes v2 len) (terms_bytes 0 0 ts),
  length-append (front v2 ident ident_int) (field_bytes v2 len),
  front_length v2 ident ident_int,
  field_length v2 len,
)

module _ (v2 : Bool) (ident ident_int : ℕ) (ts : List Term) (fresh : List ℕ)
    (fits : FitsField v2 (length (terms_bytes 0 0 ts)))
    (room : length (whole v2 ident ident_int ts 0) + length (padding v2 ts) ≤ length fresh) where
  abbrev start : WriteBuffer
  start = record { bytes = fresh; ptr = 0 }

  -- The length is put over the zero that was put in its place.
  length_put :
      put_definition_field_at v2
        (length (terms_bytes 0 0 ts))
        (offset_longueur v2)
        (written start (whole v2 ident ident_int ts 0))
      ≡ (ok tt, written start (whole v2 ident ident_int ts (length (terms_bytes 0 0 ts))))
  length_put =
      let t = length (terms_bytes 0 0 ts) in
      let old = whole v2 ident ident_int ts 0 in
      let new = whole v2 ident ident_int ts t in
      let len_old = whole_length v2 ident ident_int ts 0 in
      let len_new = whole_length v2 ident ident_int ts t in
      put_field_at-stores v2 t (offset_longueur v2) (written start old) fits
        (omega (arith, len_old, field_length v2 t, length-splice fresh 0 old (omega arith)))
      ∙ ap₂ (λ b p. (ok tt, record { bytes = b; ptr = p }))
          (ap (λ n. splice (splice fresh 0 old) n (field_bytes v2 t))
              (sym (front_length v2 ident ident_int))
            ∙ splice_middle fresh (front v2 ident ident_int) (field_bytes v2 0) (field_bytes v2 t)
                (terms_bytes 0 0 ts) (omega (arith, field_length v2 0, field_length v2 t)))
          (omega (arith, len_old, len_new))

  -- What setLocalDef does once the terms are put.
  unfoldable ending : Exec WriteBuffer (Unit {0})
  ending = do
    written_size ← gets (λ w. w.ptr)
    put_definition_field_at v2 (written_size - taille_teste_dejfinition v2) (offset_longueur v2)
    put_zeros (taille_dejfinition_minimum - written_size)

  ending_at :
      (w : WriteBuffer) (n : ℕ)
      → w.ptr ≡ n
      → ending w
        ≡ (do
          put_definition_field_at v2 (n - taille_teste_dejfinition v2) (offset_longueur v2)
          put_zeros (taille_dejfinition_minimum - n))
            w
  unfolding ending
  ending_at w n e =
      ap
        (λ k.
          (do
            put_definition_field_at v2 (k - taille_teste_dejfinition v2) (offset_longueur v2)
            put_zeros (taille_dejfinition_minimum - k))
            w)
        e

  ending-writes : ending (written start (whole v2 ident ident_int ts 0)) ≡ (
    ok tt,
    written start (whole v2 ident ident_int ts (length (terms_bytes 0 0 ts)) ++ padding v2 ts),
  )
  ending-writes =
      let t = length (terms_bytes 0 0 ts) in
      let old = whole v2 ident ident_int ts 0 in
      let new = whole v2 ident ident_int ts t in
      let len_old = whole_length v2 ident ident_int ts 0 in
      let len_new = whole_length v2 ident ident_int ts t in
      let size : 0 + length old ≡ taille_teste_dejfinition v2 + t = omega (arith, len_old) in
      let payload : (taille_teste_dejfinition v2 + t) - taille_teste_dejfinition v2 ≡ t =
        omega arith in
      let kept = length-splice fresh 0 new (omega (arith, len_old, len_new)) in
      ending_at (written start old) (taille_teste_dejfinition v2 + t) size
      ∙ rw (payload, length_put)
          (put_zeros-Writes (18 - (taille_teste_dejfinition v2 + t)) (written start new)
              (omega (arith, kept, len_old, len_new))
            ∙ ap (λ w. (ok tt, w))
                (written-written start new (padding v2 ts) (omega (arith, len_old, len_new))))

  module _ (fits_int : FitsField v2 ident_int) (fits_ext : FitsIdent v2 ident)
      (are_terms : All IsTerm ts) where
    pub put_document-writes : put_document v2 ident ident_int ts start ≡ (
      ok tt,
      written start (whole v2 ident ident_int ts (length (terms_bytes 0 0 ts)) ++ padding v2 ts),
    )
    unfolding put_document ending
    put_document-writes =
        let f = field_bytes v2 ident_int in
        let i = ident_bytes v2 ident in
        let flag = flag_dejfinition ∷ [] in
        let z = field_bytes v2 0 in
        let b = terms_bytes 0 0 ts in
        let l2 = length-append flag f in
        let l3 = length-append (flag ++ f) i in
        let l4 = length-append ((flag ++ f) ++ i) z in
        let l5 = length-append (((flag ++ f) ++ i) ++ z) b in
        rw
          (
            put_int1-Writes flag_dejfinition (omega arith) start (omega (arith, l2, l3, l4, l5)),
            step (put_definition_field v2 ident_int) _ start flag f tt
                (put_field-Writes v2 ident_int fits_int) (omega (arith, l2, l3, l4, l5)),
            step (put_external_doc_id v2 ident) _ start (flag ++ f) i tt
                (put_ident-Writes v2 ident fits_ext) (omega (arith, l2, l3, l4, l5)),
            step (put_definition_field v2 0) _ start ((flag ++ f) ++ i) z tt
                (put_field-Writes v2 0 (zero_fits v2)) (omega (arith, l2, l3, l4, l5)),
            step (put_terms 0 0 ts) (λ _. ending) start (((flag ++ f) ++ i) ++ z) b tt
                (put_terms-Writes 0 0 ts are_terms) (omega (arith, l2, l3, l4, l5)),
          )
          ending-writes
