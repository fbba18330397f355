-- ===== src/LexiconFile.antt =====
-- src/cpp/NindLexicon/NindLexiconFile.cpp: the records of the lexicon file. The file is always left
-- at its last record, the identification, which the next word overwrites. How the file is opened
-- or created is not modelled.
pub mod Records
pub mod Puts
pub mod Reread
use nind.Prelude.{
  ℕ, ◌+◌, ◌||◌, List, [], ◌∷◌, replicate, Bool, true, false, not, Option, none, some, ◌==◌,
  if◌then◌else◌,
}
use nind.Prelude.Exec.{
  Exec, Result, ok, err, Error, pure, throw, when_true, bad_use, invalid_file, ◌>>=◌, ◌>>◌,
}
use nind.Prelude.Int.{ℤ, negsuc}
use nind.ReadBuffer.{get_int1, get_int3, get_int4}
use nind.WriteBuffer.{Write, put_int1, put_int3, put_int4, put_string}
use nind.File.{
  File, Io, seek_cur, set_pos, read_int1, read_int3, read_string, read_buffer, on_in_buffer,
  write_buffer,
}
use nind.Lexicon.{SimpleWord, WordStore}

abbrev pub simple_word_flag : ℕ
simple_word_flag = 13

abbrev pub compound_word_flag : ℕ
compound_word_flag = 29

abbrev pub identification_flag : ℕ
identification_flag = 53

pub record LexiconFile : Type 0 where
  pub from_lexicon_writer : Bool
  pub file : File

-- An operation on the write buffer of the file.
unfoldable pub on_out_buffer : Write → Io (Unit {0})
on_out_buffer m f = let (r, b) = m f.out_buffer in (r, record f { out_buffer = b })

-- `setPos(-(n + 1), SEEK_CUR)`, whose answer is not looked at.
unfoldable pub move_back : ℕ → Io (Unit {0})
move_back n f = (ok tt, (set_pos (negsuc n) seek_cur f).1)

pub data Word : Type 0 where
  simple_word : (ident : ℕ) (word : SimpleWord) → Word
  compound_word : (ident : ℕ) (word : ℕ × ℕ) → Word

-- `none` where the next record is the identification.
unfoldable pub read_next_record_as_word_definition : Io (Option Word)
read_next_record_as_word_definition = do
  flag ← read_int1
  if flag == simple_word_flag
      then (do ident ← read_int3; word ← read_string; pure (some (simple_word ident word)))
      else if flag == compound_word_flag
      then (do
        ident ← read_int3
        first ← read_int3
        second ← read_int3
        pure (some (compound_word ident (first, second))))
      else if flag == identification_flag
      then (do move_back 0; pure none)
      else throw invalid_file

-- The largest identifier and the unique identification; `none` where the next record is a word.
-- `granted` and `fresh` are those of the read buffer, of eight bytes.
unfoldable pub read_next_record_as_lexicon_identification : Bool → List ℕ → Io (Option (ℕ × ℕ))
read_next_record_as_lexicon_identification granted fresh = do
  read_buffer granted fresh
  flag ← on_in_buffer get_int1
  if flag == identification_flag
      then (do
        max_ident ← on_in_buffer get_int3
        identification ← on_in_buffer get_int4
        move_back 7
        pure (some (max_ident, identification)))
      else if flag == simple_word_flag || flag == compound_word_flag
      then (do move_back 7; pure none)
      else throw invalid_file

-- The identification after a word, the write, and the way back to the identification.
unfoldable pub write_identification : ℕ → ℕ → Io (Unit {0})
write_identification max_ident identification = do
  on_out_buffer (put_int1 identification_flag)
  on_out_buffer (put_int3 max_ident)
  on_out_buffer (put_int4 identification)
  write_buffer 0 0
  move_back 7

-- An operation on the file, refused where the lexicon is not the writer.
unfoldable pub written_by : Io (Unit {0}) → Exec LexiconFile (Unit {0})
written_by m l =
    let (r, f) = m l.file in
    if not l.from_lexicon_writer then (err bad_use, l) else (r, record l { file = f })

unfoldable pub write_simple_word_definition_to :
    ℕ → SimpleWord → ℕ → ℕ → Exec LexiconFile (Unit {0})
write_simple_word_definition_to ident word max_ident identification = written_by (do
  on_out_buffer (put_int1 simple_word_flag)
  on_out_buffer (put_int3 ident)
  on_out_buffer (put_string word)
  write_identification max_ident identification)

unfoldable pub write_compound_word_definition_to : ℕ → ℕ × ℕ → ℕ → ℕ → Exec LexiconFile (Unit {0})
write_compound_word_definition_to ident word max_ident identification = written_by (do
  on_out_buffer (put_int1 compound_word_flag)
  on_out_buffer (put_int3 ident)
  on_out_buffer (put_int3 word.0)
  on_out_buffer (put_int3 word.1)
  write_identification max_ident identification)

-- The lexicon file as the store of a lexicon.
abbrev pub lexicon_file : WordStore
lexicon_file = record {
  State = LexiconFile;
  write_simple_word_definition = write_simple_word_definition_to;
  write_compound_word_definition = write_compound_word_definition_to;
}
