-- ===== src/LocalIndex/Terms/Prefix.antt =====
-- Decoders on the first of the bytes that are ahead. A decoder that succeeds does the same where the
-- logical end is further on, so that what it does on bytes alone it does with others behind them.
use nind.Prelude.{
  ℕ, bit_or, ◌+◌, ◌≤◌, ◌≡◌, refl, sym, ap, ◌∙◌, List, [], ◌∷◌, ◌++◌, append_assoc, subst, length,
  take, drop, take-append, length-append, Bool, true, false, not, ltb, leb, le→ltb, Bool-cases, inl,
  inr, if◌then◌else◌, arith,
}
use nind.Prelude.Exec.{Result, ok, err, Error, out_read_buffer, pure, throw, continue, ◌>>=◌, ◌>>◌}
use nind.Prelude.Int.{ℤ}
use nind.ReadBuffer.{
  ReadBuffer, Read, need, peek, advance, next, get_int1, get_int3, get_int4, get_int8, shl64_32,
  get_s_int_lat, is_clear,
}
use nind.Bytes.{be4, le3, le4, lat_bits, sign_extend}
use nind.ReadBuffer.Ahead.{Ahead, take-take, advance-Ahead}
use nind.ReadBuffer.Decode.{passed}
use nind.Codec.Reread.{Decodes}

abbrev pub up_to : ReadBuffer → ℕ → ReadBuffer
up_to r e = record r { end = e }

-- What `m` does from `r`, it does with the logical end at `e`, unless it throws.
record Same {A : Type 0} (e : ℕ) (before : Result A × ReadBuffer) (after : Result A × ReadBuffer)
    : Type 0 where
  same : (a : A) → before.0 ≡ ok a → after ≡ (ok a, up_to before.1 e)

abbrev Grows : {A : Type 0} → Read A → Type 0
Grows m = (r : ReadBuffer) (e : ℕ) → r.end ≤ e → (m r).1.end ≤ e × Same e (m r) (m (up_to r e))

module _ {A B : Type 0} where
  continue-Grows :
      (f : A → Read B)
      → ((a : A) → Grows (f a))
      → (e : ℕ) (before after : Result A × ReadBuffer) → before.1.end ≤ e
      → Same e before after
      → (continue before.0 f before.1).1.end ≤ e
        × Same e (continue before.0 f before.1) (continue after.0 f after.1)
  continue-Grows f g e (ok a, r) after le h = rw (h.same a refl) (g a r e le)
  continue-Grows f g e (err x, r) after le h = (le, record { same = λ a p. absurd (cc (p)) })

  bind-Grows : (m : Read A) (f : A → Read B) → Grows m → ((a : A) → Grows (f a)) → Grows (m >>= f)
  bind-Grows m f hm hf r e le =
      let (le', s) = hm r e le in continue-Grows f hf e (m r) (m (up_to r e)) le' s

throw-Grows : {A : Type 0} (x : Error) → Grows (throw {A = A} x)
throw-Grows x r e le = (le, record { same = λ b p. absurd (cc (p)) })

module _ {A : Type 0} where
  pure-Grows : (a : A) → Grows (pure {S = ReadBuffer} a)
  pure-Grows a r e le = (le, record { same = λ b p. ap (λ (x : Result A). (x, up_to r e)) p })

  if-Grows : (b : Bool) (m n : Read A) → Grows m → Grows n → Grows (if b then m else n)
  if-Grows true m n hm hn = hm
  if-Grows false m n hm hn = hn

need-Grows : (n : ℕ) → Grows (need n)
unfolding need
need-Grows n r e le = elim (Bool-cases (ltb r.end (r.ptr + n))) [
  | inl short ↦ rw short (le, record { same = λ a p. absurd (cc (p)) })
  | inr fits ↦ rw (fits, le→ltb e (r.ptr + n) (ground arith)) (le, record { same = λ a p. refl })
]

advance-Grows : (n : ℕ) → Grows (advance n)
unfolding advance
advance-Grows n r e le = (le, record { same = λ a p. refl })

peek-Grows : (n : ℕ) → Grows (peek n)
unfolding peek
peek-Grows n r e le = elim (Bool-cases (leb (r.ptr + n) (length r.bytes))) [
  | inl fits ↦ rw fits (le, record { same = λ a p. ap (λ x. (x, up_to r e)) p })
  | inr out ↦ rw out (le, record { same = λ a p. absurd (cc (p)) })
]

-- The last byte: the pointer moves, and the value is there.
done-Grows : {A : Type 0} (n : ℕ) (a : A) → Grows (do advance n; pure a)
done-Grows n a = bind-Grows (advance n) (λ _. pure a) (advance-Grows n) (λ _. pure-Grows a)

get_int1-Grows : Grows get_int1
unfolding get_int1 next
get_int1-Grows = bind-Grows (need 1) _ (need-Grows 1) (λ _.
    bind-Grows _ _ (bind-Grows (peek 1) _ (peek-Grows 1) (λ b. done-Grows 1 b)) (λ b. pure-Grows _))

fixed-Grows : (n : ℕ) (value : List ℕ → ℕ) → Grows (do need n; b ← next n; pure (value b))
unfolding next
fixed-Grows n value = bind-Grows (need n) _ (need-Grows n) (λ _.
    bind-Grows _ (λ b. pure (value b)) (bind-Grows (peek n) _ (peek-Grows n) (λ b. done-Grows n b))
      (λ b. pure-Grows (value b)))

-- A length of the signed integer: its bytes are looked at, and they are it or `longer` goes on.
abbrev stage : ℕ → ℕ → (List ℕ → ℤ) → (List ℕ → Read ℤ) → Read ℤ
stage n mask value longer = do
  need n
  b ← peek n
  if is_clear b mask then (do advance n; pure (value b)) else longer b

stage-Grows :
    (n mask : ℕ) (value : List ℕ → ℤ) (longer : List ℕ → Read ℤ)
    → ((b : List ℕ) → Grows (longer b))
    → Grows (stage n mask value longer)
stage-Grows n mask value longer h = bind-Grows (need n) _ (need-Grows n) (λ _.
    bind-Grows (peek n) _ (peek-Grows n)
      (λ b. if-Grows (is_clear b mask) _ (longer b) (done-Grows n (value b)) (h b)))

-- The longest length, after four bytes.
abbrev last_stage : List ℕ → Read ℤ
last_stage b = do
  need 5
  if not (is_clear b 0x08)
      then throw out_read_buffer
      else do b ← peek 5; advance 5; pure (sign_extend (lat_bits b 5) 32)

last_stage-Grows : (b : List ℕ) → Grows (last_stage b)
last_stage-Grows b = bind-Grows (need 5) _ (need-Grows 5) (λ _.
    if-Grows (not (is_clear b 0x08)) _ _ (throw-Grows out_read_buffer)
      (bind-Grows (peek 5) _ (peek-Grows 5) (λ b. done-Grows 5 (sign_extend (lat_bits b 5) 32))))

abbrev extended : ℕ → ℕ → List ℕ → ℤ
extended n bits b = sign_extend (lat_bits b n) bits

unfoldable stages : Read ℤ
stages = stage 1 0x80 (extended 1 7) (λ _.
    stage 2 0x40 (extended 2 14)
      (λ _. stage 3 0x20 (extended 3 21) (λ _. stage 4 0x10 (extended 4 28) last_stage)))

get_s_int_lat-stages : get_s_int_lat ≡ stages
unfolding get_s_int_lat stages
get_s_int_lat-stages = refl

stages-Grows : Grows stages
unfolding stages
stages-Grows = stage-Grows 1 0x80 (extended 1 7) _ (λ _. stage-Grows 2 0x40 (extended 2 14) _ (λ _.
    stage-Grows 3 0x20 (extended 3 21) _
      (λ _. stage-Grows 4 0x10 (extended 4 28) last_stage last_stage-Grows)))

get_s_int_lat-Grows : Grows get_s_int_lat
get_s_int_lat-Grows = subst (λ m. Grows m) (sym get_s_int_lat-stages) stages-Grows

-- The first bytes are ahead, alone, where the logical end is behind them.
pub Ahead-front :
    (r : ReadBuffer) (front rest : List ℕ)
    → Ahead r (front ++ rest)
    → Ahead (up_to r (r.ptr + length front)) front
Ahead-front r front rest h = record {
  shows =
      sym (
        take-take (length front) (length (front ++ rest)) (drop r.ptr r.bytes)
          (omega (arith, length-append front rest)))
      ∙ ap (take (length front)) h.shows
      ∙ take-append front rest;
  ends = refl;
  inside = omega (arith, h.ends, h.inside, length-append front rest);
}

-- `m` reads `bytes` as `a`, whatever stands behind them.
abbrev pub Gives : {A : Type 0} → Read A → List ℕ → A → Type 0
Gives m bytes a =
    (r : ReadBuffer) (rest : List ℕ)
    → Ahead r (bytes ++ rest)
    → m r ≡ (ok a, passed r (length bytes))

Decodes-Gives :
    {A : Type 0} (m : Read A) (bytes : List ℕ) (a : A)
    → Grows m
    → Decodes m bytes a
    → Gives m bytes a
Decodes-Gives m bytes a grows decodes r rest h =
    let short = up_to r (r.ptr + length bytes) in
    let e = decodes short (Ahead-front r bytes rest h) in
    let le : short.end ≤ r.end = omega (arith, h.ends, length-append bytes rest) in
    (grows short r.end le).1.same a (ap (λ s. s.0) e) ∙ ap (λ s. (ok a, up_to s.1 r.end)) e

pub get_int1-Gives : (v : ℕ) → Decodes get_int1 (v ∷ []) v → Gives get_int1 (v ∷ []) v
get_int1-Gives v = Decodes-Gives get_int1 (v ∷ []) v get_int1-Grows

pub get_s_int_lat-Gives :
    (z : ℤ) (bytes : List ℕ) → Decodes get_s_int_lat bytes z → Gives get_s_int_lat bytes z
get_s_int_lat-Gives z bytes = Decodes-Gives get_s_int_lat bytes z get_s_int_lat-Grows

module _ {A B : Type 0} where
  pub bind-Gives :
      (m : Read A) (f : A → Read B) (front back : List ℕ) (a : A) (b : B)
      → Gives m front a
      → Gives (f a) back b
      → Gives (m >>= f) (front ++ back) b
  bind-Gives m f front back a b hm hf r rest h =
      let h' = subst (Ahead r) (append_assoc front back rest) h in
      rw (hm r (back ++ rest) h') (
        hf (passed r (length front)) rest (advance-Ahead r front (back ++ rest) h')
        ∙ ap (λ (p : ℕ). (ok b, record r { ptr = p })) (omega (arith, length-append front back)))

  -- A value made of what is read.
  pub map-Gives :
      (m : Read A) (g : A → B) (bytes : List ℕ) (a : A)
      → Gives m bytes a
      → Gives (m >>= λ x. pure (g x)) bytes (g a)
  map-Gives m g bytes a hm r rest h = rw (hm r rest h) refl

pub pure-Gives : {A : Type 0} (a : A) → Gives (pure a) [] a
pure-Gives a r rest h = ap (λ (p : ℕ). (ok a, record r { ptr = p })) (omega arith)

pub get_int3-Gives : (v : ℕ) (bytes : List ℕ) → Decodes get_int3 bytes v → Gives get_int3 bytes v
unfolding get_int3
get_int3-Gives v bytes = Decodes-Gives get_int3 bytes v (fixed-Grows 3 le3)

pub get_int4-Gives : (v : ℕ) (bytes : List ℕ) → Decodes get_int4 bytes v → Gives get_int4 bytes v
unfolding get_int4
get_int4-Gives v bytes = Decodes-Gives get_int4 bytes v (fixed-Grows 4 le4)

pub get_int8-Gives : (v : ℕ) (bytes : List ℕ) → Decodes get_int8 bytes v → Gives get_int8 bytes v
unfolding get_int8
get_int8-Gives v bytes =
    Decodes-Gives get_int8 bytes v (fixed-Grows 8 (λ b. bit_or (shl64_32 (be4 b)) (be4 (drop 4 b))))
