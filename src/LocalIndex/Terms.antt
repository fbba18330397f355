-- ===== src/LocalIndex/Terms.antt =====
-- src/cpp/NindIndex/NindLocalIndex.cpp: the loops of decodeLocalDef and setLocalDef over the terms of
-- a document. Identifiers and positions are `unsigned int`, written as differences modulo 2 ^ 32 that
-- are taken for signed ones. What is in localDef after an exception is not modelled. The fuel of the
-- loop over the terms is the bytes of the data, since each term takes three at least.
pub mod Prefix
pub mod Coding
pub mod Again
use nind.Prelude.{
  ℕ, zero, suc, ◌+◌, ◌-◌, ◌^◌, ◌%◌, List, [], ◌∷◌, length, Bool, true, false, ltb, if◌then◌else◌,
}
use nind.Prelude.Exec.{Exec, pure, throw, endless, ◌>>=◌, ◌>>◌}
use nind.Prelude.Int.{ℤ, pattern32, signed32}
use nind.ReadBuffer.{ReadBuffer, Read, end_of_in_buffer, get_int1, get_s_int_lat}
use nind.WriteBuffer.{WriteBuffer, Write, put_int1, put_s_int_lat}
use nind.LocalIndex.{Localisation, Term}

-- `x += z` of an unsigned x and a signed z.
abbrev pub plus32 : ℕ → ℤ → ℕ
plus32 x z = (x + pattern32 z) % 2 ^ 32

-- `x - y`, passed for a signed number.
abbrev pub difference : ℕ → ℕ → ℤ
difference x y = signed32 ((x + 2 ^ 32 - y) % 2 ^ 32)

unfoldable pub get_localisations : ℕ → ℕ → Read (ℕ × List Localisation)
get_localisations zero position = pure (position, [])
get_localisations (suc n) position = do
  relative ← get_s_int_lat
  let position' = plus32 position relative
  longueur ← get_int1
  others ← get_localisations n position'
  pure (others.0, record { position = position'; length = longueur } ∷ others.1)

-- One term, from the identifier of the one before it and the last position.
unfoldable pub get_term : ℕ → ℕ → Read (ℕ × Term)
get_term ident position = do
  relative ← get_s_int_lat
  categorie ← get_int1
  nbre_localisations ← get_int1
  found ← get_localisations nbre_localisations position
  pure (found.0, record { term = plus32 ident relative; cg = categorie; localisation = found.1 })

unfoldable pub get_terms : ℕ → ℕ → ℕ → Read (List Term)
get_terms zero ident position r = if end_of_in_buffer r then pure [] r else throw endless r
get_terms (suc fuel) ident position r = elim (end_of_in_buffer r) [
  | true ↦ pure [] r
  | false ↦
      (do
        found ← get_term ident position
        others ← get_terms fuel (found.1.term) (found.0)
        pure (found.1 ∷ others))
        r
]

-- The data of a document, up to the logical end.
unfoldable pub get_donnejes : Read (List Term)
get_donnejes r = get_terms (r.end - r.ptr) 0 0 r

unfoldable pub put_localisations : ℕ → List Localisation → Exec WriteBuffer ℕ
put_localisations position_prec [] = pure position_prec
put_localisations position_prec (l ∷ ls) = do
  put_s_int_lat (difference (l.position) position_prec)
  put_int1 (if ltb 255 (l.length) then 255 else l.length)
  put_localisations (l.position) ls

unfoldable pub put_term : ℕ → ℕ → Term → Exec WriteBuffer ℕ
put_term ident_prec position_prec t = do
  put_s_int_lat (difference (t.term) ident_prec)
  put_int1 (t.cg)
  put_int1 (length (t.localisation))
  put_localisations position_prec (t.localisation)

unfoldable pub put_terms : ℕ → ℕ → List Term → Write
put_terms ident_prec position_prec [] = pure tt
put_terms ident_prec position_prec (t ∷ ts) = do
  position ← put_term ident_prec position_prec t
  put_terms (t.term) position ts
