-- ===== src/File/Puts.antt =====
-- src/cpp/NindBasics/NindFile.cpp: what `writeBuffer` and `writeValue` leave of the file, on a device
-- that works.
use nind.Prelude.{
  ℕ, ◌+◌, ◌≤◌, ◌<◌, ◌≡◌, List, length, take, drop, replicate, length-take, length-drop,
  length-replicate, Bool, true, false, arith,
}
use nind.Prelude.Exec.{ok}
use nind.File.{File, accepted, fwrite, write_buffer, write_value, remember_size}
use nind.File.Reread.{Wrote}

-- The bytes [start, start + len) of the write buffer.
abbrev pub part : File → ℕ → ℕ → List ℕ
part f start len = take len (drop start f.out_buffer.bytes)

pub length-part :
    (f : File) (start len : ℕ)
    → start + len ≤ length f.out_buffer.bytes
    → length (part f start len) ≡ len
length-part f start len le =
    omega
      (arith, length-take len (drop start f.out_buffer.bytes), length-drop start f.out_buffer.bytes)

pub write_buffer-part :
    (f : File) (start len : ℕ)
    → f.fails ≡ false
    → 0 < len
    → start + len ≤ length f.out_buffer.bytes
    → Wrote f (part f start len) (write_buffer start len f)
unfolding write_buffer fwrite accepted remember_size
write_buffer-part f start len works positive le =
    let e = length-part f start len le in
    record {
      succeeds = ground (arith, e);
      content_after = ground (arith, e);
      fails_after = ground (arith, e);
      position_after = ground (arith, e);
    }

pub write_value-Wrote :
    (f : File) (value count : ℕ)
    → f.fails ≡ false
    → 0 < count
    → Wrote f (replicate count value) (write_value true value count f)
unfolding write_value fwrite accepted remember_size
write_value-Wrote f value count works positive =
    let e = length-replicate count value in
    record {
      succeeds = ground (arith, e);
      content_after = ground (arith, e);
      fails_after = ground (arith, e);
      position_after = ground (arith, e);
    }

-- Where a write succeeds, the file has moved over what was written.
pub write_buffer-position :
    (start len : ℕ) (f : File)
    → 0 < len
    → (write_buffer start len f).0 ≡ ok tt
    → (write_buffer start len f).1.position ≡ f.position + len
unfolding write_buffer fwrite accepted remember_size
write_buffer-position start len f positive e = ground arith

pub write_value-position :
    (granted : Bool) (value count : ℕ) (f : File)
    → (write_value granted value count f).0 ≡ ok tt
    → (write_value granted value count f).1.position ≡ f.position + count
unfolding write_value fwrite accepted remember_size
write_value-position granted value count f e = ground arith
