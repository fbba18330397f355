-- ===== src/Codec/Defs.antt =====
-- What it means that a value put into the write buffer is read back from it.
use nind.Prelude.{take, ◌≡◌}
use nind.Prelude.Exec.{ok}
use nind.ReadBuffer.{ReadBuffer, Read}
use nind.WriteBuffer.{WriteBuffer, Write}

-- The read buffer that holds what `w` has put, its pointer where `start`'s is.
unfoldable pub reread : WriteBuffer → WriteBuffer → ReadBuffer
reread start w = record {
  bytes = take w.ptr w.bytes;
  end = w.ptr;
  ptr = start.ptr;
  capacity = w.ptr;
}

-- `put` succeeds, and `get` on what it has put returns `v` and stops where `put` stopped.
abbrev pub ReadsBack : {A : Type 0} → Write → Read A → A → WriteBuffer → Type 0
ReadsBack put get v w =
    ((put w).0 ≡ ok tt) × (get (reread w (put w).1) ≡ (ok v, reread (put w).1 (put w).1))
