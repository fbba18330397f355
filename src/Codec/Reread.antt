-- ===== src/Codec/Reread.antt =====
-- From an encoding that is written and that decodes to a round trip.
use nind.Prelude.{
  ℕ, ◌+◌, ◌^◌, ◌<◌, ◌≡◌, refl, List, length, splice, drop-take-splice, take-all, length-take,
  length-splice, arith,
}
use nind.Prelude.Exec.{ok}
use nind.ReadBuffer.{ReadBuffer, Read}
use nind.ReadBuffer.Ahead.{Ahead}
use nind.ReadBuffer.Decode.{passed}
use nind.WriteBuffer.{WriteBuffer, Write}
use nind.WriteBuffer.Written.{HasRoom, written}
use nind.Codec.Defs.{reread, ReadsBack}

-- What was put is ahead of the pointer when it is read again.
pub reread-Ahead :
    (w : WriteBuffer) (new : List ℕ) → HasRoom w (length new) → Ahead (reread w (written w new)) new
unfolding reread
reread-Ahead w new h = record {
  shows = rw (drop-take-splice w.bytes w.ptr new (omega arith)) (take-all new);
  ends = refl;
  inside = omega (
    arith,
    length-take (w.ptr + length new) (splice w.bytes w.ptr new),
    length-splice w.bytes w.ptr new h,
  );
}

pub reread_short :
    (w : WriteBuffer) (new : List ℕ)
    → w.ptr + length new < 2 ^ 64
    → length (reread w (written w new)).bytes < 2 ^ 64
unfolding reread
reread_short w new h = omega (arith, length-take (w.ptr + length new) (written w new).bytes)

abbrev pub Decodes : {A : Type 0} → Read A → List ℕ → A → Type 0
Decodes get bytes v = (r : ReadBuffer) → Ahead r bytes → get r ≡ (ok v, passed r (length bytes))

pub reads_back :
    {A : Type 0} (put : Write) (get : Read A) (v : A) (w : WriteBuffer) (bytes : List ℕ)
    → HasRoom w (length bytes)
    → put w ≡ (ok tt, written w bytes)
    → Decodes get bytes v
    → ReadsBack put get v w
reads_back put get v w bytes room done decodes =
    rw done (refl, unfold reread in decodes _ (reread-Ahead w bytes room))
