-- ===== src/ReadBuffer/Ahead.antt =====
-- What stands ahead of the read pointer, and what the primitive reads return there.
use Prim.Native.Nat.add
use nind.Prelude.{
  ℕ, zero, suc, ◌+◌, ◌≤◌, ◌<◌, ◌≡◌, refl, sym, ap, ◌∙◌, List, [], ◌∷◌, ◌++◌, length, take, drop,
  length-append, drop-drop, take-append, drop-append, le→leb, le→ltb, lt→ltb, arith,
}
use nind.Prelude.Exec.{ok, err, out_read_buffer}
use nind.ReadBuffer.{ReadBuffer, need, peek, advance, next}

-- The bytes from the read pointer to the logical end, which lies in the buffer.
pub record Ahead (r : ReadBuffer) (bytes : List ℕ) : Type 0 where
  pub shows : take (length bytes) (drop r.ptr r.bytes) ≡ bytes
  pub ends : r.end ≡ r.ptr + length bytes
  pub inside : r.end ≤ length r.bytes

pub take-take : {A : Type 0} (m n : ℕ) (xs : List A) → m ≤ n → take m (take n xs) ≡ take m xs
take-take zero n xs h = refl
take-take (suc m) zero xs h = absurd (omega arith)
take-take (suc m) (suc n) [] h = refl
take-take {A} (suc m) (suc n) (x ∷ xs) h =
    ap (λ (l : List A). x ∷ l) (take-take m n xs (omega arith))

drop-take :
    {A : Type 0} (m k n : ℕ) (xs : List A) → n ≡ m + k → drop m (take n xs) ≡ take k (drop m xs)
drop-take zero k n xs e = rw e (ground (arith, add.zero k))
drop-take (suc m) k zero xs e = absurd (omega arith)
drop-take (suc m) zero (suc n) [] e = refl
drop-take (suc m) (suc k) (suc n) [] e = refl
drop-take (suc m) k (suc n) (x ∷ xs) e = drop-take m k n xs (omega arith)

module _ (r : ReadBuffer) (bytes : List ℕ) (h : Ahead r bytes) where
  pub need-Ahead : (n : ℕ) → n ≤ length bytes → need n r ≡ (ok tt, r)
  unfolding need
  need-Ahead n le = rw (le→ltb r.end (r.ptr + n) (omega (arith, h.ends)))

  pub need_beyond : (n : ℕ) → length bytes < n → need n r ≡ (err out_read_buffer, r)
  unfolding need
  need_beyond n lt = rw (lt→ltb r.end (r.ptr + n) (omega (arith, h.ends)))

  pub peek-Ahead : (n : ℕ) → n ≤ length bytes → peek n r ≡ (ok (take n bytes), r)
  unfolding peek
  peek-Ahead n le = rw (le→leb (r.ptr + n) (length r.bytes) (omega (arith, h.ends, h.inside))) (
      ap (λ (b : List ℕ). (ok b, r))
        (sym (take-take n (length bytes) (drop r.ptr r.bytes) le) ∙ ap (take n) h.shows))

-- `n` bytes on, the same bytes without the first `n` are ahead.
pub advance-Ahead :
    (r : ReadBuffer) (front bytes : List ℕ)
    → Ahead r (front ++ bytes)
    → Ahead (record r { ptr = r.ptr + length front }) bytes
advance-Ahead r front bytes h = record {
  shows =
      ap (take (length bytes)) (sym (drop-drop (length front) r.ptr _ r.bytes refl))
      ∙ sym (
          drop-take (length front) (length bytes) _ (drop r.ptr r.bytes)
            (length-append front bytes))
      ∙ ap (drop (length front)) h.shows
      ∙ drop-append front bytes;
  ends = omega (arith, h.ends, length-append front bytes);
  inside = h.inside;
}

-- All that is ahead, read at once.
pub next-Ahead :
    (r : ReadBuffer) (front bytes : List ℕ)
    → Ahead r (front ++ bytes)
    → next (length front) r ≡ (ok front, record r { ptr = r.ptr + length front })
unfolding next advance
next-Ahead r front bytes h =
    rw (peek-Ahead r (front ++ bytes) h (length front) (omega (arith, length-append front bytes))) (
      ap (λ (b : List ℕ). (ok b, record r { ptr = r.ptr + length front }))
        (take-append front bytes))
