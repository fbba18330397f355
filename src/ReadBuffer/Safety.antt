-- ===== src/ReadBuffer/Safety.antt =====
-- What the decoders of NindReadBuffer touch, whatever the bytes are.
pub mod Rules
use nind.Prelude.{
  drop, zero, ◌==◌, bit_or, ℕ, ◌+◌, ◌-◌, ◌%◌, ◌^◌, ◌<◌, ◌≤◌, ◌≡◌, ◌≢◌, refl, ◌⊎◌, suc, Bool-cases,
  le→leb, inl, inr, List, length, ltb, leb, arith, Bool, true, false, not, if◌then◌else◌,
}
use nind.Prelude.Exec.{
  Result, ok, err, Error, undefined, out_read_buffer, pure, throw, continue, when_true, ◌>>=◌, ◌>>◌,
}
use nind.Prelude.Int.{ℤ}
use nind.Bytes.{byte, be2, be4, le3, le4, lat_bits, sign_extend}
use nind.ReadBuffer.{
  ReadBuffer, Read, need, peek, advance, next, get_int1, get_int2, get_int3, get_s_int3, get_int4,
  get_s_int4, get_int5, get_int6, get_int8, get_u_int_lat, get_s_int_lat, get_u_int_lat64,
  get_string, get_string_as_bytes, get_bytes, set_end_in_buffer, set_abs_end_in_buffer,
  set_in_buffer_ptr, set_rel_in_buffer_ptr, clear, prepare, shrink, diff64, is_clear, shl64_32,
}
use nind.ReadBuffer.Safety.Rules.{
  Bounded, Sound, need-Sound, if-Sound, peek-Sound, next-Sound, Sound-passed, fixed-Sound, stage,
  last_stage, check_after, next_bytes,
}

module _ (r : ReadBuffer) (h : Bounded r) where
  get_u_int_lat-Sound : Sound r (get_u_int_lat r)
  unfolding get_u_int_lat
  get_u_int_lat-Sound =
      stage r 1 (λ b. is_clear b 0x80) (λ b. lat_bits b 1) _ h (omega arith)
        (λ _.
          stage r 2 (λ b. is_clear b 0x40) (λ b. lat_bits b 2) _ h (omega arith)
            (λ _.
              stage r 3 (λ b. is_clear b 0x20) (λ b. lat_bits b 3) _ h (omega arith)
                (λ _.
                  stage r 4 (λ b. is_clear b 0x10) (λ b. lat_bits b 4) _ h (omega arith)
                    (λ b.
                      last_stage r 5 (not (is_clear b 0x08)) (λ b. lat_bits b 5) h (omega arith)))))

  get_s_int_lat-Sound : Sound r (get_s_int_lat r)
  unfolding get_s_int_lat
  get_s_int_lat-Sound =
      stage r 1 (λ b. is_clear b 0x80) (λ b. sign_extend (lat_bits b 1) 7) _ h (omega arith)
        (λ _.
          stage r 2 (λ b. is_clear b 0x40) (λ b. sign_extend (lat_bits b 2) 14) _ h (omega arith)
            (λ _.
              stage r 3 (λ b. is_clear b 0x20) (λ b. sign_extend (lat_bits b 3) 21) _ h
                (omega arith)
                (λ _.
                  stage r 4 (λ b. is_clear b 0x10) (λ b. sign_extend (lat_bits b 4) 28) _ h
                    (omega arith)
                    (λ b.
                      last_stage r 5 (not (is_clear b 0x08)) (λ b. sign_extend (lat_bits b 5) 32) h
                        (omega arith)))))

  get_int8-Sound : Sound r (get_int8 r)
  unfolding get_int8
  get_int8-Sound = fixed-Sound r 7 (λ b. bit_or (shl64_32 (be4 b)) (be4 (drop 4 b))) h

module _ (r : ReadBuffer) (h : Bounded r) where
  get_u_int_lat64-Sound : Sound r (get_u_int_lat64 r)
  unfolding get_u_int_lat64 advance
  get_u_int_lat64-Sound = need-Sound r 1 _ (λ fits. peek-Sound r 1 _ h fits (λ b.
      if-Sound r (not (byte b 0 == 0xF8)) get_u_int_lat _ (get_u_int_lat-Sound r h) (
        Sound-passed r 0 _ fits (
          check_after _ (get_int8 (record r { ptr = r.ptr + 1 })) (λ value. leb value 0xFFFFFFFF)
            (get_int8-Sound (record r { ptr = r.ptr + 1 }) h)))))

  get_string-Sound : Sound r (get_string r)
  unfolding get_string
  get_string-Sound = need-Sound r 1 _ (λ fits.
      next-Sound r 0 _ h fits
        (λ b. need-Sound _ (byte b 0) _ (λ room. next_bytes _ (byte b 0) h room)))

  get_string_as_bytes-Sound : (n : ℕ) → Sound r (get_string_as_bytes n r)
  unfolding get_string_as_bytes
  get_string_as_bytes-Sound n = need-Sound r n _ (λ fits. next_bytes r n h fits)

-- Every decoder of the buffer.
pub data Getter : Type 0 → Type 1 where
  int1 int2 int3 int4 int5 int6 int8 u_int_lat u_int_lat64 : Getter ℕ
  s_int3 s_int4 s_int_lat : Getter ℤ
  string : Getter (List ℕ)
  string_as_bytes : ℕ → Getter (List ℕ)

abbrev pub run : {A : Type 0} → Getter A → Read A
run int1 = get_int1
run int2 = get_int2
run int3 = get_int3
run int4 = get_int4
run int5 = get_int5
run int6 = get_int6
run int8 = get_int8
run u_int_lat = get_u_int_lat
run u_int_lat64 = get_u_int_lat64
run s_int3 = get_s_int3
run s_int4 = get_s_int4
run s_int_lat = get_s_int_lat
run string = get_string
run (string_as_bytes n) = get_string_as_bytes n

-- From a buffer whose logical end lies in it, every decoder reads inside the buffer, leaves the
-- bytes and the end, and keeps the pointer or moves it on, at most to the end; so also when it throws.
pub run-Sound : {A : Type 0} (g : Getter A) (r : ReadBuffer) → Bounded r → Sound r (run g r)
unfolding get_int1 get_int2 get_int3 get_int4 get_int5 get_int6 get_s_int3 get_s_int4
run-Sound int1 r h = fixed-Sound r 0 (λ b. byte b 0) h
run-Sound int2 r h = fixed-Sound r 1 be2 h
run-Sound int3 r h = fixed-Sound r 2 le3 h
run-Sound int4 r h = fixed-Sound r 3 le4 h
run-Sound int5 r h = fixed-Sound r 4 (λ b. bit_or (shl64_32 (byte b 0)) (be4 (drop 1 b))) h
run-Sound int6 r h = fixed-Sound r 5 (λ b. bit_or (shl64_32 (be2 b)) (be4 (drop 2 b))) h
run-Sound int8 r h = get_int8-Sound r h
run-Sound u_int_lat r h = get_u_int_lat-Sound r h
run-Sound u_int_lat64 r h = get_u_int_lat64-Sound r h
run-Sound s_int3 r h = fixed-Sound r 2 (λ b. sign_extend (le3 b) 24) h
run-Sound s_int4 r h = fixed-Sound r 3 (λ b. sign_extend (le4 b) 32) h
run-Sound s_int_lat r h = get_s_int_lat-Sound r h
run-Sound string r h = get_string-Sound r h
run-Sound (string_as_bytes n) r h = get_string_as_bytes-Sound r h n

-- With the pointer at most at the end, `get_bytes` is sound too.
pub get_bytes-Sound :
    (n : ℕ) (r : ReadBuffer) → Bounded r → r.ptr ≤ r.end → r.end < 2 ^ 64 → Sound r (get_bytes n r)
unfolding get_bytes
get_bytes-Sound n r h le fits = elim (Bool-cases (ltb (diff64 r.end r.ptr) n)) [
  | inl short ↦ rw short (record { defined = λ e. cc; bytes = refl; end = refl; moved = inl refl })
  | inr enough ↦ rw enough (next_bytes r n h (ground arith))
]

-- With the pointer past the logical end the unsigned difference wraps, and a request that runs
-- past the buffer is not refused: it reads outside the buffer.
pub get_bytes-past_end :
    (n : ℕ) (r : ReadBuffer)
    → r.end < r.ptr
    → length r.bytes < r.ptr + n
    → n + (r.ptr - r.end) < 2 ^ 64
    → r.ptr < 2 ^ 64
    → (get_bytes n r).0 ≡ err undefined
unfolding get_bytes next peek
get_bytes-past_end n r past outside small fits = ground arith
