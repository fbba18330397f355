-- ===== src/File/Moves.antt =====
-- src/cpp/NindBasics/NindFile.cpp: what `readBuffer` leaves of the file.
use nind.Prelude.{
  ◌⊎◌, ◌≢◌, ℕ, ◌+◌, ◌≤◌, ◌≡◌, refl, List, length, drop, length-take, length-drop, Bool, arith,
}
use nind.Prelude.Exec.{Exec, Result, ok, err, endless}
use nind.ReadBuffer.{ReadBuffer, clear, prepare}
use nind.File.{File, fread, read_into, on_in_buffer, read_buffer}

-- The file after a read of `n` bytes from its position: moved over them where it succeeds.
pub record Moved (n : ℕ) (f : File) (r : Result (Unit {0})) (g : File) : Type 0 where
  pub same_content : g.content ≡ f.content
  pub same_fails : g.fails ≡ f.fails
  pub moved : r ≡ ok tt → g.position ≡ f.position + n
  pub within : r ≡ ok tt → f.position + n ≤ length f.content ⊎ (n ≡ 0)
  pub ends : r ≢ err endless

read_into-Moved :
    (fresh : List ℕ) (f : File) → Moved (length fresh) f (read_into fresh f).0 (read_into fresh f).1
unfolding read_into fread
read_into-Moved fresh f = record {
  same_content = ground arith;
  same_fails = ground arith;
  moved = ground arith;
  within = ground (
    arith,
    length-take (length fresh) (drop f.position f.content),
    length-drop f.position f.content,
  );
  ends = ground arith;
}

pub read_buffer-Moved :
    (granted : Bool) (fresh : List ℕ) (f : File)
    → Moved (length fresh) f (read_buffer granted fresh f).0 (read_buffer granted fresh f).1
unfolding read_buffer read_into fread on_in_buffer clear prepare
read_buffer-Moved granted fresh f = record {
  same_content = ground arith;
  same_fails = ground arith;
  moved = ground arith;
  within = ground (
    arith,
    length-take (length fresh) (drop f.position f.content),
    length-drop f.position f.content,
  );
  ends = ground arith;
}

-- An operation on the read buffer leaves the file where it is.
pub record Stays (f g : File) : Type 0 where
  pub content_stays : g.content ≡ f.content
  pub position_stays : g.position ≡ f.position

pub on_in_buffer-Stays :
    {A : Type 0} (m : Exec ReadBuffer A) (f : File) → Stays f (on_in_buffer m f).1
unfolding on_in_buffer
on_in_buffer-Stays m f = record { content_stays = refl; position_stays = refl }
