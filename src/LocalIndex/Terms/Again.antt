-- ===== src/LocalIndex/Terms/Again.antt =====
-- The terms of a document put into the write buffer and got again.
use nind.Prelude.{
  ℕ, zero, suc, ◌+◌, ◌-◌, ◌^◌, ◌%◌, ◌≡◌, ◌<◌, ◌≤◌, ap, List, [], ◌∷◌, ◌++◌, length, length-append,
  le→leb, lt→leb, All, arith,
}
use nind.Prelude.Exec.{ok}
use nind.Prelude.Int.{pattern32, signed32, IsInt32}
use nind.ReadBuffer.{ReadBuffer, end_of_in_buffer, get_int1, get_s_int_lat}
use nind.ReadBuffer.Ahead.{Ahead, advance-Ahead}
use nind.ReadBuffer.Decode.{passed}
use nind.Codec.Fixed.{get_int1-Decodes}
use nind.Codec.Reread.{Decodes}
use nind.LocalIndex.{Localisation, Term}
use nind.LocalIndex.Terms.{plus32, difference, get_localisations, get_term, get_terms, get_donnejes}
use nind.LocalIndex.Terms.Prefix.{
  Gives, get_int1-Gives, get_s_int_lat-Gives, bind-Gives, map-Gives, pure-Gives,
}
use nind.LocalIndex.Terms.Coding.{
  slat, slat-Decodes, saturated_length, localisations_bytes, last_position, term_bytes, terms_bytes,
  IsTerm,
}

pattern32-signed32 : (d : ℕ) → d < 2 ^ 32 → pattern32 (signed32 d) ≡ d
unfolding pattern32
pattern32-signed32 d h = ground arith

signed32-IsInt32 : (d : ℕ) → d < 2 ^ 32 → IsInt32 (signed32 d)
signed32-IsInt32 d h = ground arith

-- A difference added again, whatever its sign.
plus32-difference : (x y : ℕ) → x < 2 ^ 32 → y < 2 ^ 32 → plus32 y (difference x y) ≡ x
plus32-difference x y hx hy =
    let d = (x + 2 ^ 32 - y) % 2 ^ 32 in
    let e = pattern32-signed32 d (omega arith) in omega (arith, e)

-- The lengths that come back: at most 255.
unfoldable pub saturated : List Localisation → List Localisation
saturated [] = []
saturated (l ∷ ls) = record l { length = saturated_length (l.length) } ∷ saturated ls

-- A document as it comes back.
unfoldable pub as_read : List Term → List Term
as_read [] = []
as_read (t ∷ ts) = record t { localisation = saturated (t.localisation) } ∷ as_read ts

difference-Gives : (x y : ℕ) → Gives get_s_int_lat (slat (difference x y)) (difference x y)
difference-Gives x y =
    get_s_int_lat-Gives (difference x y) (slat (difference x y))
      (slat-Decodes (difference x y) (signed32-IsInt32 ((x + 2 ^ 32 - y) % 2 ^ 32) (omega arith)))

pub int1-Gives : (v : ℕ) → Gives get_int1 (v ∷ []) v
int1-Gives v = get_int1-Gives v (get_int1-Decodes v)

get_localisations-Gives :
    (prec : ℕ) (ls : List Localisation)
    → prec < 2 ^ 32
    → All (λ l. l.position < 2 ^ 32) ls
    → Gives
        (get_localisations (length ls) prec)
        (localisations_bytes prec ls)
        (last_position prec ls, saturated ls)
unfolding get_localisations localisations_bytes last_position saturated
get_localisations-Gives prec [] small h = pure-Gives (prec, [])
get_localisations-Gives prec (l ∷ ls) small (hl, h) =
    bind-Gives _ _ _ _ (difference (l.position) prec) _ (difference-Gives (l.position) prec) (
      rw (plus32-difference (l.position) prec hl small) (
        bind-Gives _ _ (saturated_length (l.length) ∷ []) _ (saturated_length (l.length)) _
          (int1-Gives (saturated_length (l.length)))
          (map-Gives (get_localisations (length ls) (l.position))
            (λ others. (others.0, record l { length = saturated_length (l.length) } ∷ others.1))
            (localisations_bytes (l.position) ls) (last_position (l.position) ls, saturated ls)
            (get_localisations-Gives (l.position) ls hl h))))

get_term-Gives :
    (ident prec : ℕ) (t : Term)
    → ident < 2 ^ 32
    → prec < 2 ^ 32
    → IsTerm t
    → Gives (get_term ident prec) (term_bytes ident prec t) (
      last_position prec (t.localisation),
      record t { localisation = saturated (t.localisation) },
    )
unfolding get_term term_bytes
get_term-Gives ident prec t small small_prec h =
    bind-Gives _ _ _ _ (difference (t.term) ident) _ (difference-Gives (t.term) ident) (
      rw (plus32-difference (t.term) ident h.term_fits small) (
        bind-Gives _ _ (t.cg ∷ [])
          ((length (t.localisation) ∷ []) ++ localisations_bytes prec (t.localisation)) (t.cg) _
          (int1-Gives (t.cg))
          (bind-Gives _ _ (length (t.localisation) ∷ []) _ (length (t.localisation)) _
            (int1-Gives (length (t.localisation)))
            (map-Gives (get_localisations (length (t.localisation)) prec)
              (λ found. (found.0, record t { localisation = found.1 }))
              (localisations_bytes prec (t.localisation))
              (last_position prec (t.localisation), saturated (t.localisation))
              (get_localisations-Gives prec (t.localisation) small_prec h.positions_fit)))))

last_position-lt :
    (prec : ℕ) (ls : List Localisation)
    → prec < 2 ^ 32
    → All (λ l. l.position < 2 ^ 32) ls
    → last_position prec ls < 2 ^ 32
unfolding last_position
last_position-lt prec [] small h = small
last_position-lt prec (l ∷ ls) small (hl, h) = last_position-lt (l.position) ls hl h

term_bytes-length : (ident prec : ℕ) (t : Term) → 0 < length (term_bytes ident prec t)
unfolding term_bytes
term_bytes-length ident prec t = omega (
  arith,
  length-append (slat (difference (t.term) ident)) (
      (t.cg ∷ []) ++ ((length (t.localisation) ∷ []) ++ localisations_bytes prec (t.localisation))),
)

-- The loop over the terms, with a round for each.
get_terms-Ahead :
    (fuel ident prec : ℕ) (ts : List Term) (r : ReadBuffer)
    → ident < 2 ^ 32
    → prec < 2 ^ 32
    → All IsTerm ts
    → Ahead r (terms_bytes ident prec ts)
    → length (terms_bytes ident prec ts) ≤ fuel
    → get_terms fuel ident prec r ≡ (ok (as_read ts), passed r (length (terms_bytes ident prec ts)))
unfolding get_terms terms_bytes as_read end_of_in_buffer
get_terms-Ahead zero ident prec [] r small small_prec h a enough =
    rw (le→leb r.end r.ptr (omega (arith, a.ends)), get_terms)
      (ap (λ (p : ℕ). (ok [], record r { ptr = p })) (omega arith))
get_terms-Ahead (suc fuel) ident prec [] r small small_prec h a enough =
    rw (le→leb r.end r.ptr (omega (arith, a.ends)), get_terms)
      (ap (λ (p : ℕ). (ok [], record r { ptr = p })) (omega arith))
get_terms-Ahead zero ident prec (t ∷ ts) r small small_prec h a enough =
    let rest = terms_bytes (t.term) (last_position prec (t.localisation)) ts in
    absurd
      (omega (arith, term_bytes-length ident prec t, length-append (term_bytes ident prec t) rest))
get_terms-Ahead (suc fuel) ident prec (t ∷ ts) r small small_prec (ht, h) a enough =
    let front = term_bytes ident prec t in
    let last = last_position prec (t.localisation) in
    let rest = terms_bytes (t.term) last ts in
    let len = length-append front rest in
    let more = term_bytes-length ident prec t in
    rw
      (
        lt→leb r.end r.ptr (omega (arith, a.ends, len, more)),
        get_term-Gives ident prec t small small_prec ht r rest a,
        get_terms-Ahead fuel (t.term) last ts (passed r (length front)) ht.term_fits
            (last_position-lt prec (t.localisation) small_prec ht.positions_fit) h
            (advance-Ahead r front rest a) (omega (arith, len, more)),
        get_terms,
      )
      (ap (λ (p : ℕ). (ok (as_read (t ∷ ts)), record r { ptr = p })) (omega (arith, len)))

pub get_donnejes-Decodes :
    (ts : List Term) → All IsTerm ts → Decodes get_donnejes (terms_bytes 0 0 ts) (as_read ts)
unfolding get_donnejes
get_donnejes-Decodes ts h r a =
    get_terms-Ahead (r.end - r.ptr) 0 0 ts r (omega arith) (omega arith) h a (omega (arith, a.ends))
