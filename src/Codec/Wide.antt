-- ===== src/Codec/Wide.antt =====
-- Round trips of the 64-bit variable-length integer of format v2, and of strings.
use native.Mathlib.Decide.{dec_lt}
use nind.Prelude.{
  ℕ, ◌^◌, ◌<◌, ◌≤◌, ◌≡◌, ap, ◌∙◌, lt→leb, le→leb, List, [], ◌∷◌, arith, length, length-splice,
}
use nind.Prelude.Exec.{ok}
use nind.Bytes.{byte}
use nind.ReadBuffer.{ReadBuffer, advance, get_u_int_lat, get_u_int_lat64}
use nind.ReadBuffer.Ahead.{Ahead, need-Ahead, peek-Ahead, advance-Ahead}
use nind.ReadBuffer.Decode.{passed}
use nind.WriteBuffer.{WriteBuffer, put_u_int_lat, put_u_int_lat64}
use nind.WriteBuffer.Written.{HasRoom, written, written-written}
use nind.WriteBuffer.Fixed.{be, put_int1-written, put_int8-written}
use nind.Codec.Defs.{ReadsBack}
use nind.Codec.Reread.{Decodes, reads_back}
use nind.Codec.Unsigned.{encoded}
use nind.Codec.Fixed.{get_int8-Decodes}

wide_written :
    (v : ℕ) (w : WriteBuffer)
    → HasRoom w 9
    → 2 ^ 32 ≤ v
    → put_u_int_lat64 v w ≡ (ok tt, written w (248 ∷ be 8 v))
unfolding put_u_int_lat64
wide_written v w h big =
    rw
      (
        lt→leb v 0xFFFFFFFF (omega arith),
        put_int1-written 248 w (omega arith) (omega arith),
        put_int8-written v (written w (248 ∷ []))
            (omega (arith, length-splice w.bytes w.ptr (248 ∷ []) (omega arith))),
      )
      (ap (λ (s : WriteBuffer). (ok tt, s)) (written-written w (248 ∷ []) (be 8 v) (omega arith)))

wide-Decodes : (v : ℕ) → 2 ^ 32 ≤ v → v < 2 ^ 64 → Decodes get_u_int_lat64 (248 ∷ be 8 v) v
unfolding get_u_int_lat64 advance
wide-Decodes v lo hi r a = ground (
  arith,
  need-Ahead r (248 ∷ be 8 v) a 1,
  peek-Ahead r (248 ∷ be 8 v) a 1,
  get_int8-Decodes v hi (passed r 1) (advance-Ahead r (248 ∷ []) (be 8 v) a),
)

-- A first byte other than the mark leaves the work to the 32-bit decoder.
unmarked :
    (bytes : List ℕ) (r : ReadBuffer)
    → Ahead r bytes
    → 0 < length bytes
    → byte bytes 0 < 248
    → get_u_int_lat64 r ≡ get_u_int_lat r
unfolding get_u_int_lat64
unmarked [] r a some h = absurd (omega arith)
unmarked (b ∷ rest) r a some h =
    ground (arith, need-Ahead r (b ∷ rest) a 1, peek-Ahead r (b ∷ rest) a 1)

narrow : (v : ℕ) (w : WriteBuffer) → v < 2 ^ 32 → put_u_int_lat64 v w ≡ put_u_int_lat v w
unfolding put_u_int_lat64
narrow v w h = rw (le→leb v 0xFFFFFFFF (omega arith))

-- With room for nine bytes, a number of 64 bits put as a format v2 integer is read back.
pub get_u_int_lat64-put :
    (v : ℕ) (w : WriteBuffer)
    → v < 2 ^ 64
    → HasRoom w 9
    → ReadsBack (put_u_int_lat64 v) get_u_int_lat64 v w
get_u_int_lat64-put v w fits h = elim (dec_lt v (2 ^ 32)) [
  | yes small ↦
      let (bytes, inside, done, decodes, some, head) = encoded v w small (omega arith) in
      reads_back (put_u_int_lat64 v) get_u_int_lat64 v w bytes inside (narrow v w small ∙ done)
        (λ r a. unmarked bytes r a some head ∙ decodes r a)
  | no big ↦
      reads_back (put_u_int_lat64 v) get_u_int_lat64 v w (248 ∷ be 8 v) h
        (wide_written v w h (omega arith)) (wide-Decodes v (omega arith) fits)
]
