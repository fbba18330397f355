-- ===== src/ReadBuffer/Safety/Rules.antt =====
-- What it is for a decoder to stay inside the buffer, with a rule for each way to build one.
use nind.Prelude.{
  zero, ℕ, ◌+◌, ◌<◌, ◌≤◌, ◌≡◌, ◌≢◌, refl, ◌⊎◌, suc, Bool-cases, le→leb, inl, inr, List, length, ltb,
  arith, Bool, true, false, if◌then◌else◌,
}
use nind.Prelude.Exec.{
  Result, ok, err, Error, undefined, out_read_buffer, pure, throw, continue, ◌>>=◌, ◌>>◌,
}
use nind.ReadBuffer.{ReadBuffer, Read, need, peek, advance, next}

-- The logical end lies in the buffer.
abbrev pub Bounded : ReadBuffer → Type 0
Bounded r = r.end ≤ length r.bytes

-- What a decoder may do from `r`: it moves the pointer, at most to the logical end, and it does
-- not read outside the buffer.
pub record Sound {A : Type 0} (r : ReadBuffer) (after : Result A × ReadBuffer) : Type 0 where
  pub defined : after.0 ≢ err undefined
  pub bytes : after.1.bytes ≡ r.bytes
  pub end : after.1.end ≡ r.end
  pub moved : (after.1.ptr ≡ r.ptr) ⊎ (r.ptr < after.1.ptr) × (after.1.ptr ≤ r.end)

-- Rules for the ways in which the decoders are put together.
module _ {A : Type 0} (r : ReadBuffer) where
  pub need-Sound :
      (n : ℕ) (m : Read A) → (r.ptr + n ≤ r.end → Sound r (m r)) → Sound r ((need n >> m) r)
  unfolding need
  need-Sound n m k = elim (Bool-cases (ltb r.end (r.ptr + n))) [
    | inl short ↦
        rw short (record { defined = λ e. cc; bytes = refl; end = refl; moved = inl refl })
    | inr fits ↦ rw fits (k (ground arith))
  ]

  pub if-Sound :
      (b : Bool) (m n : Read A) → Sound r (m r) → Sound r (n r) → Sound r ((if b then m else n) r)
  if-Sound true m n hm hn = hm
  if-Sound false m n hm hn = hn

  pub peek-Sound :
      (n : ℕ) (f : List ℕ → Read A)
      → Bounded r
      → r.ptr + n ≤ r.end
      → ((b : List ℕ) → Sound r (f b r))
      → Sound r ((peek n >>= f) r)
  unfolding peek
  peek-Sound n f h fits k = rw (le→leb (r.ptr + n) (length r.bytes) (omega arith)) (k _)

  advance-Sound : (n : ℕ) (a : A) → 0 < n → r.ptr + n ≤ r.end → Sound r ((advance n >> pure a) r)
  unfolding advance
  advance-Sound n a some fits = record {
    defined = λ e. cc;
    bytes = refl;
    end = refl;
    moved = inr (omega arith, fits);
  }

  throw-Sound : (e : Error) → e ≢ undefined → Sound r (throw {A = A} e r)
  throw-Sound e h = record { defined = λ p. h (cc); bytes = refl; end = refl; moved = inl refl }

-- What is sound from a later pointer is sound from the earlier one.
pub Sound-passed :
    {A : Type 0} (r : ReadBuffer) (n : ℕ) (after : Result A × ReadBuffer)
    → r.ptr + suc n ≤ r.end
    → Sound (record r { ptr = r.ptr + suc n }) after
    → Sound r after
Sound-passed r n after fits s = record {
  defined = s.defined;
  bytes = s.bytes;
  end = s.end;
  moved = inr (omega (arith, s.moved), omega (arith, s.moved));
}

pub next-Sound :
    {A : Type 0} (r : ReadBuffer) (n : ℕ) (f : List ℕ → Read A)
    → Bounded r
    → r.ptr + suc n ≤ r.end
    → ((b : List ℕ)
        → Sound (record r { ptr = r.ptr + suc n }) (f b (record r { ptr = r.ptr + suc n })))
    → Sound r ((next (suc n) >>= f) r)
unfolding next peek advance
next-Sound r n f h fits k =
    rw (le→leb (r.ptr + suc n) (length r.bytes) (omega arith)) (Sound-passed r n _ fits (k _))

pure-Sound : {A : Type 0} (r : ReadBuffer) (a : A) → Sound r (pure a r)
pure-Sound r a = record { defined = λ e. cc; bytes = refl; end = refl; moved = inl refl }

-- One number of `n` bytes: the check, the bytes, the value.
pub fixed-Sound :
    {A : Type 0} (r : ReadBuffer) (n : ℕ) (g : List ℕ → A)
    → Bounded r
    → Sound r ((need (suc n) >> (next (suc n) >>= λ b. pure (g b))) r)
fixed-Sound r n g h =
    need-Sound r (suc n) _ (λ fits. next-Sound r n _ h fits (λ b. pure-Sound _ (g b)))

-- One length of a variable-length number: the check, the bytes, and the test of the first.
pub stage :
    {A : Type 0} (r : ReadBuffer) (n : ℕ) (test : List ℕ → Bool) (g : List ℕ → A)
    (more : List ℕ → Read A)
    → Bounded r
    → 0 < n
    → ((b : List ℕ) → Sound r (more b r))
    → Sound r
        ((need n >> (peek n >>= λ b. if test b then (do advance n; pure (g b)) else more b)) r)
stage r n test g more h some k = need-Sound r n _ (λ fits.
    peek-Sound r n _ h fits
      (λ b. if-Sound r (test b) _ _ (advance-Sound r n (g b) some fits) (k b)))

-- The last length, which refuses a first byte with one more mark.
pub last_stage :
    {A : Type 0} (r : ReadBuffer) (n : ℕ) (bad : Bool) (g : List ℕ → A)
    → Bounded r
    → 0 < n
    → Sound r (
        (need n >> (if bad then throw out_read_buffer else (do b ← peek n; advance n; pure (g b))))
          r)
last_stage r n bad g h some = need-Sound r n _ (λ fits.
    if-Sound r bad _ _ (throw-Sound r out_read_buffer (λ e. cc))
      (peek-Sound r n _ h fits (λ b. advance-Sound r n (g b) some fits)))

-- A check of the value that was read keeps what is sound.
pub check_after :
    {A : Type 0} (r : ReadBuffer) (after : Result A × ReadBuffer) (test : A → Bool)
    → Sound r after
    → Sound r (continue after.0 (λ v. if test v then throw out_read_buffer else pure v) after.1)
check_after r (ok v, s) test h = elim (Bool-cases (test v)) [
  | inl bad ↦ rw bad (record { defined = λ e. cc; bytes = h.bytes; end = h.end; moved = h.moved })
  | inr good ↦ rw good (record { defined = λ e. cc; bytes = h.bytes; end = h.end; moved = h.moved })
]
check_after r (err e, s) test h = record {
  defined = h.defined;
  bytes = h.bytes;
  end = h.end;
  moved = h.moved;
}

-- `n` bytes as they are, none among them.
pub next_bytes : (r : ReadBuffer) (n : ℕ) → Bounded r → r.ptr + n ≤ r.end → Sound r (next n r)
unfolding next peek advance
next_bytes r n h fits =
    rw (le→leb (r.ptr + n) (length r.bytes) (omega arith))
      (record { defined = λ e. cc; bytes = refl; end = refl; moved = far n fits })
  where
    far :
        (n : ℕ)
        → r.ptr + n ≤ r.end
        → (r.ptr + n ≡ r.ptr) ⊎ (r.ptr < r.ptr + n) × (r.ptr + n ≤ r.end)
    far zero e = inl (omega arith)
    far (suc n) e = inr (omega arith, e)
