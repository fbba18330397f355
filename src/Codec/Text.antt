-- ===== src/Codec/Text.antt =====
-- Round trips of strings: with their length before them, and as bare bytes.
use nind.Prelude.{
  ℕ, ◌+◌, ◌%◌, ◌<◌, ◌≤◌, ◌≡◌, refl, sym, ap, ap₂, List, [], ◌∷◌, ◌++◌, arith, length, map, All,
  append-nil, subst, le→ltb,
}
use nind.Prelude.Exec.{ok}
use nind.ReadBuffer.{get_string}
use nind.ReadBuffer.Ahead.{Ahead, need-Ahead, next-Ahead, advance-Ahead}
use nind.ReadBuffer.Decode.{passed}
use nind.WriteBuffer.{WriteBuffer, move, store_at, copy_in, uchar, put_string}
use nind.WriteBuffer.Written.{HasRoom, written, room_ok, store_behind, written-written}
use nind.Codec.Defs.{ReadsBack}
use nind.Codec.Reread.{Decodes, reads_back}

abbrev pub IsByte : ℕ → Type 0
IsByte b = b < 256

uchar_bytes : (str : List ℕ) → All IsByte str → map uchar str ≡ str
uchar_bytes [] h = refl
uchar_bytes (b ∷ str) (hb, h) =
    ap₂ (λ (x : ℕ) (l : List ℕ). x ∷ l) (omega arith) (uchar_bytes str h)

copy_in-written :
    (str : List ℕ) (w : WriteBuffer) → All IsByte str → copy_in str w ≡ (ok tt, written w str)
unfolding copy_in store_at move
copy_in-written str w h = rw (uchar_bytes str h)

pub put_string-written :
    (str : List ℕ) (w : WriteBuffer)
    → All IsByte str
    → length str ≤ 254
    → HasRoom w (length str + 1)
    → put_string str w ≡ (ok tt, written w (length str ∷ str))
unfolding put_string move
put_string-written str w h short room =
    rw
      (
        le→ltb 254 (length str) short,
        room_ok (length str + 1) w room,
        store_behind w (length str ∷ []) (w.ptr + 1) (omega arith),
        small,
        copy_in-written str (written w (length str ∷ [])) h,
      )
      (ap (λ (s : WriteBuffer). (ok tt, s)) (written-written w (length str ∷ []) str (omega arith)))
  where
    small : length str % 256 ≡ length str
    small = omega arith

get_string-Decodes : (str : List ℕ) → Decodes get_string (length str ∷ str) str
unfolding get_string
get_string-Decodes str r a =
    let bytes = length str ∷ str in
    let a' = advance-Ahead r (length str ∷ []) str a in
    let whole : Ahead (passed r 1) (str ++ []) =
      subst (Ahead (passed r 1)) (sym (append-nil str)) a' in
    rw
      (
        need-Ahead r bytes a 1 (omega arith),
        next-Ahead r (length str ∷ []) str a,
        need-Ahead (passed r 1) str a' (length str) (omega arith),
        next-Ahead (passed r 1) str [] whole,
      )
      (ap (λ (p : ℕ). (ok str, record r { ptr = p })) (omega arith))

-- A string of at most 254 bytes, put with its length, is read back.
pub get_string-put :
    (str : List ℕ) (w : WriteBuffer)
    → All IsByte str
    → length str ≤ 254
    → HasRoom w (length str + 1)
    → ReadsBack (put_string str) get_string str w
get_string-put str w h short room =
    reads_back (put_string str) get_string str w (length str ∷ str) (omega arith)
      (put_string-written str w h short room) (get_string-Decodes str)
