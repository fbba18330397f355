-- ===== src/LexiconFile/Reread.antt =====
-- Words written to the lexicon file, and read again.
use nind.Prelude.{
  ℕ, ◌+◌, ◌-◌, ◌^◌, ◌<◌, ◌≤◌, ◌≡◌, refl, ap, sym, subst, ◌∙◌, List, [], ◌∷◌, ◌++◌, length, take,
  drop, length-append, length-splice, take-splice, append_assoc, All, true, false, some, arith,
  le→leb,
}
use nind.Prelude.Exec.{Exec, Result, ok, err, continue, ◌>>◌}
use nind.WriteBuffer.{put_int1, put_int3, put_string}
use nind.WriteBuffer.Written.{HasRoom}
use nind.WriteBuffer.Fixed.{le3_bytes, le4_bytes}
use nind.Codec.Text.{IsByte}
use nind.File.{File, Io, overwrite, write_buffer, set_pos, displaced, base}
use nind.File.Content.{drop-overwrite}
use nind.File.Reread.{Wrote, write_buffer-Wrote}
use nind.Lexicon.{SimpleWord}
use nind.LexiconFile.{
  LexiconFile, Word, simple_word, compound_word, simple_word_flag, compound_word_flag,
  write_compound_word_definition_to, identification_flag, move_back, written_by, on_out_buffer,
  write_identification, write_simple_word_definition_to, read_next_record_as_word_definition,
}
use nind.LexiconFile.Records.{Fits, at, word_record, identification_record, read_word_record}
use nind.LexiconFile.Puts.{with_put, whole, put_simple, whole_compound, put_compound}

-- The file after bytes and the identification have been written at its position.
pub record Ends (f : File) (record_bytes identification : List ℕ) (s : Result (Unit {0}) × File)
    : Type 0 where
  pub succeeds : s.0 ≡ ok tt
  pub content_after : s.1.content ≡ overwrite f.content f.position (record_bytes ++ identification)
  pub fails_after : s.1.fails ≡ false
  pub position_after : s.1.position ≡ f.position + length record_bytes

move_back_lem : (f : File) → 8 ≤ f.position → move_back 7 f ≡ (ok tt, at f (f.position - 8))
unfolding move_back set_pos displaced base
move_back_lem f far = rw (le→leb 8 f.position far, move_back, set_pos, displaced) refl

module _ (f : File) (sound : f.fails ≡ false) (empty : f.out_buffer.ptr ≡ 0) where
  all_put :
      (bytes : List ℕ)
      → take (with_put f bytes).out_buffer.ptr (with_put f bytes).out_buffer.bytes ≡ bytes
  all_put bytes =
      take-splice f.out_buffer.bytes f.out_buffer.ptr bytes (omega arith)
      ∙ ap (λ n. take n f.out_buffer.bytes ++ bytes) empty

  then_back :
      (bytes back : List ℕ) (r : Result (Unit {0})) (h : File)
      → length back ≡ 8
      → Wrote (with_put f (bytes ++ back)) (bytes ++ back) (r, h)
      → Ends f bytes back (continue r (λ _. move_back 7) h)
  then_back bytes back (ok u) h eight w =
      let far : 8 ≤ h.position = omega (arith, length-append bytes back, w.position_after) in
      rw (move_back_lem h far) (record {
        succeeds = refl;
        content_after = w.content_after;
        fails_after = w.fails_after;
        position_after = omega (arith, length-append bytes back, w.position_after);
      })
  then_back bytes back (err e) h eight w = absurd (cc (w.succeeds))

  -- The write and the way back over the eight bytes of the identification.
  write_back :
      (bytes back : List ℕ)
      → length back ≡ 8
      → HasRoom f.out_buffer (length (bytes ++ back))
      → Ends f bytes back ((write_buffer 0 0 >> move_back 7) (with_put f (bytes ++ back)))
  write_back bytes back eight room =
      let g = with_put f (bytes ++ back) in
      then_back bytes back (write_buffer 0 0 g).0 (write_buffer 0 0 g).1 eight (
        subst (λ new. Wrote g new (write_buffer 0 0 g)) (all_put (bytes ++ back))
          (write_buffer-Wrote g sound
            (omega (arith, length-splice f.out_buffer.bytes f.out_buffer.ptr (bytes ++ back) room))
            (omega (arith, length-append bytes back))))

module _ (f : File) (ident : ℕ) (word : SimpleWord) (max_ident identification : ℕ) where
  whole_lem :
      whole f ident word max_ident identification
      ≡ word_record (simple_word ident word) ++ identification_record max_ident identification
  unfolding whole word_record identification_record
  whole_lem =
      ap (λ (t : List ℕ). simple_word_flag ∷ (le3_bytes ident ++ (length word ∷ t)))
        (append_assoc (word ++ (identification_flag ∷ [])) (le3_bytes max_ident)
            (le4_bytes identification)
          ∙ append_assoc word (identification_flag ∷ [])
              (le3_bytes max_ident ++ le4_bytes identification))

whole_compound_lem :
    (f : File) (ident first second max_ident identification : ℕ)
    → whole_compound f ident first second max_ident identification
      ≡ word_record (compound_word ident (first, second))
        ++ identification_record max_ident identification
unfolding whole_compound word_record identification_record
whole_compound_lem f ident first second max_ident identification = refl

read_ended :
    (f : File) (w : Word) (back : List ℕ) (s : Result (Unit {0}) × File)
    → Fits w
    → Ends f (word_record w) back s
    → read_next_record_as_word_definition (at s.1 f.position)
      ≡ (ok (some w), at (at s.1 f.position) s.1.position)
read_ended f w back s fits e =
    read_word_record (at s.1 f.position) w (back ++ rest) fits (record {
      works = e.fails_after;
      ahead =
          ap (drop f.position) e.content_after
          ∙ drop-overwrite f.content f.position (word_record w ++ back)
          ∙ append_assoc (word_record w) back rest;
    })
    ∙ ap (λ p. (ok (some w), at s.1 p)) (sym e.position_after)
  where
    rest : List ℕ
    rest = drop (f.position + length (word_record w ++ back)) f.content

-- What the writer's file is after an operation.
written_by_lem :
    (m : Io (Unit {0})) (l : LexiconFile)
    → l.from_lexicon_writer ≡ true
    → written_by m l ≡ ((m l.file).0, record l { file = (m l.file).1 })
unfolding written_by
written_by_lem m l writer = rw (writer, written_by) refl

-- The program that writes a word.
abbrev program : Word → ℕ → ℕ → Io (Unit {0})
program (simple_word ident word) max_ident identification = do
  on_out_buffer (put_int1 simple_word_flag)
  on_out_buffer (put_int3 ident)
  on_out_buffer (put_string word)
  write_identification max_ident identification
program (compound_word ident (first, second)) max_ident identification = do
  on_out_buffer (put_int1 compound_word_flag)
  on_out_buffer (put_int3 ident)
  on_out_buffer (put_int3 first)
  on_out_buffer (put_int3 second)
  write_identification max_ident identification

-- The operation of the file for a word.
abbrev pub write_word_to : Word → ℕ → ℕ → Exec LexiconFile (Unit {0})
write_word_to (simple_word ident word) = write_simple_word_definition_to ident word
write_word_to (compound_word ident parts) = write_compound_word_definition_to ident parts

-- A simple word is of bytes, at most 254 of them.
abbrev pub IsShort : Word → Type 0
IsShort (simple_word ident word) = All IsByte word × (length word ≤ 254)
IsShort (compound_word ident parts) = Unit {0}

module _ (f : File) (max_ident identification : ℕ) (small_max : max_ident < 2 ^ 24)
    (small_id : identification < 2 ^ 32) where
  program_lem :
      (w : Word)
      → Fits w
      → IsShort w
      → HasRoom f.out_buffer (length (word_record w) + 8)
      → program w max_ident identification f
        ≡ (write_buffer 0 0 >> move_back 7)
            (with_put f (word_record w ++ identification_record max_ident identification))
  unfolding word_record
  program_lem (simple_word ident word) small (bytes, short) room =
      put_simple f ident word max_ident identification small small_max small_id bytes short
        (omega arith)
      ∙ ap (λ b. (write_buffer 0 0 >> move_back 7) (with_put f b))
          (whole_lem f ident word max_ident identification)
  program_lem (compound_word ident (first, second)) (small, small1, small2) short room =
      put_compound f ident first second max_ident identification small small1 small2 small_max
        small_id (omega arith)
      ∙ ap (λ b. (write_buffer 0 0 >> move_back 7) (with_put f b))
          (whole_compound_lem f ident first second max_ident identification)

  program-Ends :
      (w : Word)
      → f.fails ≡ false
      → f.out_buffer.ptr ≡ 0
      → length (word_record w) + 8 ≤ length f.out_buffer.bytes
      → Fits w
      → IsShort w
      → Ends f
          (word_record w)
          (identification_record max_ident identification)
          (program w max_ident identification f)
  unfolding identification_record
  program-Ends w sound empty room small short =
      let back = identification_record max_ident identification in
      subst (Ends f (word_record w) back) (sym (program_lem w small short (omega arith))) (
        write_back f sound empty (word_record w) back refl
          (omega (arith, length-append (word_record w) back)))

write_word_to_lem :
    (w : Word) (max_ident identification : ℕ)
    → write_word_to w max_ident identification ≡ written_by (program w max_ident identification)
unfolding write_simple_word_definition_to write_compound_word_definition_to
write_word_to_lem (simple_word ident word) max_ident identification = refl
write_word_to_lem (compound_word ident (first, second)) max_ident identification = refl

-- A word, simple or compound, that the file's writer writes, its identifiers, the largest identifier
-- and the identification within their widths and the bytes of a simple word at most 254, on a device
-- that works and from an empty write buffer with room for the record and the identification: the
-- write succeeds, the reader at the position where it began returns the word, and stops where the
-- writer stands.
pub read_word-write :
    (l : LexiconFile) (w : Word) (max_ident identification : ℕ)
    → l.from_lexicon_writer ≡ true
    → l.file.fails ≡ false
    → l.file.out_buffer.ptr ≡ 0
    → length (word_record w) + 8 ≤ length l.file.out_buffer.bytes
    → Fits w
    → IsShort w
    → max_ident < 2 ^ 24
    → identification < 2 ^ 32
    → let after = write_word_to w max_ident identification l in
      let back = at after.1.file l.file.position in
      (after.0 ≡ ok tt)
      × (read_next_record_as_word_definition back ≡ (ok (some w), at back after.1.file.position))
read_word-write l w max_ident identification writer sound empty room small short small_max
      small_id =
    let ends =
      program-Ends l.file max_ident identification small_max small_id w sound empty room small
        short in
    rw
      (
        write_word_to_lem w max_ident identification,
        written_by_lem (program w max_ident identification) l writer,
      )
      (
        ends.succeeds,
        read_ended l.file w (identification_record max_ident identification) _ small ends,
      )
