-- ===== src/File/Reread.antt =====
-- A write buffer that is written to a file and read again.
use Prim.Native.Nat.add
use nind.Prelude.{
  ℕ, ◌+◌, ◌<◌, ◌≤◌, ◌≡◌, refl, ap, ap₂, subst, sym, ◌∙◌, inl, inr, List, length, take, drop,
  length-take, true, false, ltb, ◌==◌, ==_iff, arith, Bool-cases, le→ltb,
}
use nind.Prelude.Exec.{Result, ok}
use nind.Prelude.Int.{pos}
use nind.File.{
  File, seek_set, overwrite, accepted, fwrite, displaced, base, set_pos, read_buffer, remember_size,
  write_buffer,
}
use nind.File.Content.{length-overwrite, take-drop-overwrite}
use nind.File.ReadIn.{read_buffer_lem, chunk, Reads, Holds}

remember_size_keeps :
    (g : File)
    → ((remember_size g).0 ≡ ok tt)
      × ((remember_size g).1.content ≡ g.content)
      × ((remember_size g).1.fails ≡ g.fails)
      × ((remember_size g).1.position ≡ g.position)
unfolding remember_size
remember_size_keeps g = elim (Bool-cases g.is_bulk) [
  | inl bulk ↦ rw (bulk, remember_size) (refl, refl, refl, refl)
  | inr synced ↦ elim (Bool-cases (ltb g.file_size g.position)) [
    | inl past ↦ rw (synced, past, remember_size) (refl, refl, refl, refl)
    | inr within ↦ rw (synced, within, remember_size) (refl, refl, refl, refl)
  ]
]

module _ (f : File) (sound : f.fails ≡ false)
    (in_buffer : f.out_buffer.ptr ≤ length f.out_buffer.bytes)
    (some_put : 0 < f.out_buffer.ptr) where
  new : List ℕ
  new = take f.out_buffer.ptr f.out_buffer.bytes

  length-new : length new ≡ f.out_buffer.ptr
  unfolding new
  length-new = omega (arith, length-take f.out_buffer.ptr f.out_buffer.bytes)

  written : File
  written = record f {
    content = overwrite f.content f.position new;
    position = f.position + length new;
    out_buffer = record (f.out_buffer) { ptr = 0 };
  }

  fwrite_lem : fwrite new f ≡ (
    length new,
    record f { content = overwrite f.content f.position new; position = f.position + length new },
  )
  unfolding fwrite accepted
  fwrite_lem = rw (sound, ==_pos (length new) (omega (arith, length-new)), fwrite) refl
    where
      ==_pos : (n : ℕ) → 0 < n → (n == 0) ≡ false
      ==_pos n lt = ground arith

  write_buffer_lem : write_buffer 0 0 f ≡ remember_size written
  unfolding write_buffer written new
  write_buffer_lem =
      rw
        (
          fwrite_lem,
          le→ltb (length f.out_buffer.bytes) (0 + f.out_buffer.ptr) (omega arith),
          (==_iff (length new) f.out_buffer.ptr).1 length-new,
          write_buffer,
        )
        refl

-- The file after `writeBuffer` of all that was put.
pub record Wrote (f : File) (bytes : List ℕ) (s : Result (Unit {0}) × File) : Type 0 where
  pub succeeds : s.0 ≡ ok tt
  pub content_after : s.1.content ≡ overwrite f.content f.position bytes
  pub fails_after : s.1.fails ≡ false
  pub position_after : s.1.position ≡ f.position + length bytes

pub write_buffer-Wrote :
    (f : File)
    → f.fails ≡ false
    → f.out_buffer.ptr ≤ length f.out_buffer.bytes
    → 0 < f.out_buffer.ptr
    → Wrote f (take f.out_buffer.ptr f.out_buffer.bytes) (write_buffer 0 0 f)
unfolding written new
write_buffer-Wrote f sound inside some_put =
    let keeps = remember_size_keeps (written f sound inside some_put) in
    rw (write_buffer_lem f sound inside some_put) (record {
      succeeds = keeps.0;
      content_after = keeps.1;
      fails_after = keeps.2 ∙ sound;
      position_after = keeps.3;
    })

module _ (g : File) (fresh : List ℕ) (content : List ℕ) (at : ℕ) (put : List ℕ)
    (same_content : g.content ≡ overwrite content at put) (same_position : g.position ≡ at)
    (same_length : length fresh ≡ length put) where
  room : g.position + length fresh ≤ length g.content
  room =
      omega
        (arith, length-overwrite content at put, ap length same_content, same_position, same_length)

  chunk_lem : take (length fresh) (drop g.position g.content) ≡ put
  chunk_lem =
      ap₂ (λ n c. take n (drop g.position c)) same_length same_content
      ∙ ap (λ p. take (length put) (drop p (overwrite content at put))) same_position
      ∙ take-drop-overwrite content at put

-- The file, back at the position where the write began.
abbrev pub written_back : File → File
written_back f = (set_pos (pos f.position) seek_set (write_buffer 0 0 f).1).1

module _ (f : File) (sound : f.fails ≡ false)
    (in_buffer : f.out_buffer.ptr ≤ length f.out_buffer.bytes)
    (some_put : 0 < f.out_buffer.ptr) where
  wrote : (write_buffer 0 0 f).0 ≡ ok tt
  wrote =
      ap (λ s. s.0) (write_buffer_lem f sound in_buffer some_put)
      ∙ (remember_size_keeps (written f sound in_buffer some_put)).0

  wrote_content :
      (written_back f).content
      ≡ overwrite f.content f.position (take f.out_buffer.ptr f.out_buffer.bytes)
  unfolding set_pos displaced base written new
  wrote_content =
      ap (λ s. s.1.content) (write_buffer_lem f sound in_buffer some_put)
      ∙ (remember_size_keeps (written f sound in_buffer some_put)).1

  wrote_fails : (written_back f).fails ≡ false
  unfolding set_pos displaced base written new
  wrote_fails =
      ap (λ s. s.1.fails) (write_buffer_lem f sound in_buffer some_put)
      ∙ (remember_size_keeps (written f sound in_buffer some_put)).2
      ∙ sound

  wrote_position : (written_back f).position ≡ f.position
  unfolding set_pos displaced base
  wrote_position = add.zero f.position

  from_written :
      (fresh : List ℕ) (g : File)
      → g.content ≡ overwrite f.content f.position (take f.out_buffer.ptr f.out_buffer.bytes)
      → g.fails ≡ false
      → g.position ≡ f.position
      → length fresh ≡ f.out_buffer.ptr
      → ((read_buffer true fresh g).0 ≡ ok tt)
        × Holds (read_buffer true fresh g).1.in_buffer (take f.out_buffer.ptr f.out_buffer.bytes)
  unfolding Reads chunk new
  from_written fresh g content works position same =
      let put = take f.out_buffer.ptr f.out_buffer.bytes in
      let long = length-new f sound in_buffer some_put in
      let fits = room g fresh _ _ put content position (same ∙ sym long) in
      let (e, held) = read_buffer_lem g fresh works fits in
      (
        e,
        subst (Holds (read_buffer true fresh g).1.in_buffer)
            (chunk_lem g fresh _ _ put content position (same ∙ sym long)) held,
      )

-- On a device that works, what has been put in the write buffer and written to the file, at any
-- position, is read back from there: `writeBuffer` and `readBuffer` succeed, and the read buffer
-- holds the bytes that were put, its pointer at their head and its end at theirs.
pub read_buffer-write_buffer :
    (f : File) (fresh : List ℕ)
    → f.fails ≡ false
    → f.out_buffer.ptr ≤ length f.out_buffer.bytes
    → 0 < f.out_buffer.ptr
    → length fresh ≡ f.out_buffer.ptr
    → ((write_buffer 0 0 f).0 ≡ ok tt)
      × ((read_buffer true fresh (written_back f)).0 ≡ ok tt)
      × Holds
          (read_buffer true fresh (written_back f)).1.in_buffer
          (take f.out_buffer.ptr f.out_buffer.bytes)
read_buffer-write_buffer f fresh sound inside some_put same =
    let (e, b) =
      from_written f sound inside some_put fresh (written_back f)
        (wrote_content f sound inside some_put) (wrote_fails f sound inside some_put)
        (wrote_position f sound inside some_put) same in
    (wrote f sound inside some_put, e, b)
