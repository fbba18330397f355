-- ===== src/PadFile/Bulk.antt =====
-- src/cpp/NindBasics/NindPadFile.cpp: the position that the bulk mode keeps, and the blocks of
-- entries that it adds.
use nind.Prelude.{
  ℕ, ◌+◌, ◌≤◌, ◌<◌, ◌≡◌, ap, sym, inl, inr, List, length, false, Option, none, some, if◌then◌else◌,
  arith, Bool-cases,
}
use nind.Prelude.Exec.{Result, ok, pure, continue, ◌>>◌}
use nind.File.{overwrite, write_buffer, set_pos, displaced, base}
use nind.File.Puts.{part, length-part, write_buffer-part}
use nind.PadFile.{PadFile, on_file}
use nind.PadFile.Writing.{is_elsewhere, seek_or_throw, set_bulk_pos, bulk_write}

-- Where the position of the stream is known, the stream is there.
abbrev pub Tracks : PadFile → Type 0
Tracks s = (at : ℕ) → s.bulk_pos ≡ some at → s.file.position ≡ at

-- The object after bytes are written at an address.
pub record WrittenAt (s : PadFile) (address : ℕ) (bytes : List ℕ) (r : Result (Unit {0}))
    (t : PadFile) : Type 0 where
  pub succeeds : r ≡ ok tt
  pub content_after : t.file.content ≡ overwrite s.file.content address bytes
  pub position_known : t.bulk_pos ≡ some t.file.position
  pub position_after : t.file.position ≡ address + length bytes
  pub works_after : t.file.fails ≡ false

-- The file where the bytes are written: at the address, whether it is moved there or stands there.
unfoldable pub there : ℕ → PadFile → PadFile
there address s = record s { file = record (s.file) { position = address } }

here : (address : ℕ) (s : PadFile) → s.file.position ≡ address → there address s ≡ s
unfolding there
here address s e = ap (λ p. record s { file = record (s.file) { position = p } }) (sym e)

known : (address : ℕ) (at : Option ℕ) → is_elsewhere address at ≡ false → at ≡ some address
unfolding is_elsewhere
known address none e = absurd (ground arith)
known address (some at) e = ground arith

seek :
    (address : ℕ) (s : PadFile)
    → Tracks s
    → (if is_elsewhere address s.bulk_pos then on_file (seek_or_throw address) else pure tt) s
      ≡ (ok tt, there address s)
unfolding there on_file seek_or_throw set_pos displaced base
seek address s tracks = elim (Bool-cases (is_elsewhere address s.bulk_pos)) [
  | inl far ↦
      rw far (ap (λ p. (ok tt, record s { file = record (s.file) { position = p } })) zero_add)
  | inr near ↦
      rw near (
        ap (λ t. (ok tt, t))
          (sym (here address s (tracks address (known address s.bulk_pos near)))))
]
  where
    zero_add : 0 + address ≡ address
    zero_add = omega arith

module _ (address start len : ℕ) (s : PadFile) (tracks : Tracks s) where
  pub bulk_write-there :
      bulk_write address start len s
      ≡ (do on_file (write_buffer start len); set_bulk_pos (address + len)) (there address s)
  unfolding bulk_write
  bulk_write-there =
      ap
        (λ r.
          continue r.0 (λ _. (do on_file (write_buffer start len); set_bulk_pos (address + len)))
            r.1)
        (seek address s tracks)

  -- Where a known bulk position is that of the stream, on a device that works, `bulkWrite` of a part
  -- of the write buffer that lies in it, of a length other than 0, succeeds and puts the bytes of the
  -- part at the address, whether the stream is known to stand there or is moved there, and then the
  -- position that it keeps is the one of the stream, behind the bytes.
  pub bulk_write-WrittenAt :
      s.file.fails ≡ false
      → 0 < len
      → start + len ≤ length s.file.out_buffer.bytes
      → WrittenAt s address
          (part s.file start len)
          (bulk_write address start len s).0
          (bulk_write address start len s).1
  unfolding there set_bulk_pos on_file
  bulk_write-WrittenAt works positive le =
      let w = write_buffer-part (there address s).file start len works positive le in
      rw bulk_write-there (record {
        succeeds = ground (arith, w.succeeds);
        content_after = ground (arith, w.succeeds, w.content_after);
        position_known =
            ground (
              arith,
              w.succeeds,
              w.position_after,
              length-part (there address s).file start len le,
            );
        position_after = ground (arith, w.succeeds, w.position_after);
        works_after = ground (arith, w.succeeds, w.fails_after);
      })
