-- ===== src/LocalIndex/Terms/Coding.antt =====
-- The terms of a document as bytes, and what the loops of setLocalDef leave in the write buffer.
use nind.Prelude.{
  ℕ, zero, suc, ◌+◌, ◌^◌, ◌≡◌, refl, sym, ap, ap₂, List, [], ◌∷◌, ◌++◌, length, take, drop, splice,
  length-append, length-splice, ltb, if◌then◌else◌, Bool-cases, inl, inr, ◌<◌, All, arith,
}
use nind.Prelude.Exec.{Exec, ok, pure, ◌>>=◌}
use nind.Prelude.Int.{ℤ, pattern32, within, IsInt32}
use nind.ReadBuffer.{get_s_int_lat}
use nind.WriteBuffer.{WriteBuffer, sign_word, put_int1, put_s_int_lat}
use nind.WriteBuffer.Written.{HasRoom, written, written-written}
use nind.WriteBuffer.Fixed.{put_int1-written}
use nind.WriteBuffer.Signed.{
  slat1, slat2, slat3, slat4, slat5, put_s_int_lat1, put_s_int_lat2, put_s_int_lat3, put_s_int_lat4,
  put_s_int_lat5,
}
use nind.Codec.Reread.{Decodes}
use nind.Codec.Signed.{slat1-Decodes, slat2-Decodes, slat3-Decodes, slat4-Decodes, slat5-Decodes}
use nind.LocalIndex.{Localisation, Term}
use nind.LocalIndex.Terms.{difference, put_localisations, put_term, put_terms}

-- The shortest encoding of a signed integer.
unfoldable pub slat : ℤ → List ℕ
slat z =
    if within z 0x40
    then slat1 (pattern32 z)
    else if within z 0x2000
    then slat2 (pattern32 z)
    else if within z 0x100000
    then slat3 (pattern32 z)
    else if within z 0x8000000
    then slat4 (pattern32 z)
    else slat5 (sign_word z) (pattern32 z)

-- `m` puts `bytes` wherever there is room, and returns `a`.
abbrev pub Writes : {A : Type 0} → Exec WriteBuffer A → List ℕ → A → Type 0
Writes m bytes a = (w : WriteBuffer) → HasRoom w (length bytes) → m w ≡ (ok a, written w bytes)

put_s_int_lat-Writes : (z : ℤ) → Writes (put_s_int_lat z) (slat z) tt
unfolding slat
put_s_int_lat-Writes z w = elim (Bool-cases (within z 0x40)) [
  | inl y1 ↦ rw y1 (λ h. put_s_int_lat1 z w h y1)
  | inr n1 ↦ elim (Bool-cases (within z 0x2000)) [
    | inl y2 ↦ rw (n1, y2) (λ h. put_s_int_lat2 z w h n1 y2)
    | inr n2 ↦ elim (Bool-cases (within z 0x100000)) [
      | inl y3 ↦ rw (n1, n2, y3) (λ h. put_s_int_lat3 z w h n1 n2 y3)
      | inr n3 ↦ elim (Bool-cases (within z 0x8000000)) [
        | inl y4 ↦ rw (n1, n2, n3, y4) (λ h. put_s_int_lat4 z w h n1 n2 n3 y4)
        | inr n4 ↦ rw (n1, n2, n3, n4) (λ h. put_s_int_lat5 z w h n1 n2 n3 n4)
      ]
    ]
  ]
]

pub slat-Decodes : (z : ℤ) → IsInt32 z → Decodes get_s_int_lat (slat z) z
unfolding slat
slat-Decodes z fits = elim (Bool-cases (within z 0x40)) [
  | inl y1 ↦ rw y1 (slat1-Decodes z y1)
  | inr n1 ↦ elim (Bool-cases (within z 0x2000)) [
    | inl y2 ↦ rw (n1, y2) (slat2-Decodes z y2)
    | inr n2 ↦ elim (Bool-cases (within z 0x100000)) [
      | inl y3 ↦ rw (n1, n2, y3) (slat3-Decodes z y3)
      | inr n3 ↦ elim (Bool-cases (within z 0x8000000)) [
        | inl y4 ↦ rw (n1, n2, n3, y4) (slat4-Decodes z y4)
        | inr n4 ↦ rw (n1, n2, n3, n4) (slat5-Decodes z (sign_word z) fits)
      ]
    ]
  ]
]

pub put_int1-Writes : (v : ℕ) → v < 256 → Writes (put_int1 v) (v ∷ []) tt
put_int1-Writes v small w room = put_int1-written v w room small

rejoin : (i : ℕ) (xs : List ℕ) → take i xs ++ drop i xs ≡ xs
rejoin zero xs = refl
rejoin (suc i) [] = refl
rejoin (suc i) (x ∷ xs) = ap (λ (l : List ℕ). x ∷ l) (rejoin i xs)

splice_nothing : (xs : List ℕ) (i : ℕ) → splice xs i [] ≡ xs
splice_nothing xs i = let e : i + 0 ≡ i = omega arith in rw e (rejoin i xs)

pub pure-Writes : {A : Type 0} (a : A) → Writes (pure a) [] a
pure-Writes a w room =
    ap₂ (λ (b : List ℕ) (p : ℕ). (ok a, record { bytes = b; ptr = p }))
      (sym (splice_nothing w.bytes w.ptr)) (omega arith)

pub bind-Writes :
    {A B : Type 0} (m : Exec WriteBuffer A) (f : A → Exec WriteBuffer B) (front back : List ℕ)
    (a : A) (b : B)
    → Writes m front a
    → Writes (f a) back b
    → Writes (m >>= f) (front ++ back) b
bind-Writes m f front back a b hm hf w room =
    let len = length-append front back in
    let kept = length-splice w.bytes w.ptr front (omega (arith, len)) in
    rw (hm w (omega (arith, len)), hf (written w front) (omega (arith, len, kept)))
      (ap (λ s. (ok b, s)) (written-written w front back (omega (arith, len))))

-- `longueur` as it is written.
abbrev pub saturated_length : ℕ → ℕ
saturated_length n = if ltb 255 n then 255 else n

unfoldable pub localisations_bytes : ℕ → List Localisation → List ℕ
localisations_bytes prec [] = []
localisations_bytes prec (l ∷ ls) =
    slat (difference (l.position) prec)
    ++ ((saturated_length (l.length) ∷ []) ++ localisations_bytes (l.position) ls)

unfoldable pub last_position : ℕ → List Localisation → ℕ
last_position prec [] = prec
last_position prec (l ∷ ls) = last_position (l.position) ls

unfoldable pub term_bytes : ℕ → ℕ → Term → List ℕ
term_bytes ident prec t =
    slat (difference (t.term) ident)
    ++ ((t.cg ∷ [])
        ++ ((length (t.localisation) ∷ []) ++ localisations_bytes prec (t.localisation)))

unfoldable pub terms_bytes : ℕ → ℕ → List Term → List ℕ
terms_bytes ident prec [] = []
terms_bytes ident prec (t ∷ ts) =
    term_bytes ident prec t ++ terms_bytes (t.term) (last_position prec (t.localisation)) ts

-- A term of the program: numbers of their widths, and a count of localisations that is one byte.
pub record IsTerm (t : Term) : Type 0 where
  pub term_fits : t.term < 2 ^ 32
  pub cg_fits : t.cg < 256
  pub few : length t.localisation < 256
  pub positions_fit : All (λ l. l.position < 2 ^ 32) t.localisation

put_localisations-Writes :
    (prec : ℕ) (ls : List Localisation)
    → Writes (put_localisations prec ls) (localisations_bytes prec ls) (last_position prec ls)
unfolding put_localisations localisations_bytes last_position
put_localisations-Writes prec [] = pure-Writes prec
put_localisations-Writes prec (l ∷ ls) =
    bind-Writes _ _ _ _ tt _ (put_s_int_lat-Writes (difference (l.position) prec)) (
      bind-Writes _ _ (saturated_length (l.length) ∷ []) _ tt _
        (put_int1-Writes (saturated_length (l.length)) (ground arith))
        (put_localisations-Writes (l.position) ls))

put_term-Writes :
    (ident prec : ℕ) (t : Term)
    → IsTerm t
    → Writes (put_term ident prec t) (term_bytes ident prec t) (last_position prec (t.localisation))
unfolding put_term term_bytes
put_term-Writes ident prec t h =
    bind-Writes _ _ _ _ tt _ (put_s_int_lat-Writes (difference (t.term) ident)) (
      bind-Writes _ _ (t.cg ∷ [])
        ((length (t.localisation) ∷ []) ++ localisations_bytes prec (t.localisation)) tt _
        (put_int1-Writes (t.cg) h.cg_fits)
        (bind-Writes _ _ (length (t.localisation) ∷ []) _ tt _
          (put_int1-Writes (length (t.localisation)) h.few)
          (put_localisations-Writes prec (t.localisation))))

pub put_terms-Writes :
    (ident prec : ℕ) (ts : List Term)
    → All IsTerm ts
    → Writes (put_terms ident prec ts) (terms_bytes ident prec ts) tt
unfolding put_terms terms_bytes
put_terms-Writes ident prec [] h = pure-Writes tt
put_terms-Writes ident prec (t ∷ ts) h =
    bind-Writes _ _ _ _ (last_position prec (t.localisation)) _ (put_term-Writes ident prec t (h.0))
      (put_terms-Writes (t.term) (last_position prec (t.localisation)) ts (h.1))
