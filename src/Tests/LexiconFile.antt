-- ===== src/Tests/LexiconFile.antt =====
-- The lexicon file on a word, and on one that is too long.
use nind.Prelude.{◌≡◌, refl, [], ◌∷◌, take, replicate, true, false, some, arith}
use nind.Prelude.Exec.{ok}
use nind.WriteBuffer.{
  put_int1, put_int3, put_int4, put_string, room, move, store, store_at, copy_in,
}
use nind.File.{
  File, fwrite, accepted, overwrite, write_buffer, remember_size, set_pos, displaced, base,
}
use nind.LexiconFile.{
  LexiconFile, simple_word, compound_word, on_out_buffer, move_back,
  read_next_record_as_word_definition, write_identification, written_by,
  write_simple_word_definition_to,
}
use nind.LexiconFile.Reread.{read_word-write, write_word_to}
use nind.LexiconFile.Records.{at, Next, word_record, read_word_record}

-- A new file: the identification of an empty lexicon.
abbrev new_file : LexiconFile
new_file = record {
  from_lexicon_writer = true;
  file = record {
    content = 53 ∷ 0 ∷ 0 ∷ 0 ∷ 9 ∷ 0 ∷ 0 ∷ 0 ∷ [];
    position = 0;
    fails = false;
    left = 0;
    file_size = 8;
    is_bulk = false;
    in_buffer = record { bytes = []; end = 0; ptr = 0; capacity = 0 };
    out_buffer = record { bytes = replicate 300 0; ptr = 0 };
  };
}

-- A word of two bytes: its record, then the identification, at which the file stands.
one_word :
    ((write_simple_word_definition_to 1 (0x61 ∷ 0x62 ∷ []) 1 10 new_file).1.file.content
      ≡ 13 ∷ 1 ∷ 0 ∷ 0 ∷ 2 ∷ 0x61 ∷ 0x62 ∷ 53 ∷ 1 ∷ 0 ∷ 0 ∷ 10 ∷ 0 ∷ 0 ∷ 0 ∷ [])
    × ((write_simple_word_definition_to 1 (0x61 ∷ 0x62 ∷ []) 1 10 new_file).1.file.position ≡ 7)
unfolding write_simple_word_definition_to written_by write_identification on_out_buffer move_back
    put_int1 put_int3 put_int4 put_string room move store store_at copy_in write_buffer fwrite
    accepted overwrite remember_size set_pos displaced base
one_word = (refl, refl)

-- A word of 255 bytes is refused when its flag and identifier are already in the write buffer. The
-- next word is written behind them, so that its record begins with four bytes too many.
after_long_word : LexiconFile
after_long_word = (write_simple_word_definition_to 1 (replicate 255 0x61) 1 10 new_file).1

stray_bytes :
    take 12 (write_simple_word_definition_to 2 (0x62 ∷ []) 2 11 after_long_word).1.file.content
    ≡ 13 ∷ 1 ∷ 0 ∷ 0 ∷ 13 ∷ 2 ∷ 0 ∷ 0 ∷ 1 ∷ 0x62 ∷ 53 ∷ 2 ∷ []
unfolding after_long_word write_simple_word_definition_to written_by write_identification
    on_out_buffer move_back put_int1 put_int3 put_int4 put_string room move store store_at copy_in
    write_buffer fwrite accepted overwrite remember_size set_pos displaced base
stray_bytes = refl

-- The file with one word, back at its head.
abbrev at_head : File
at_head = record {
  content = 13 ∷ 1 ∷ 0 ∷ 0 ∷ 2 ∷ 0x61 ∷ 0x62 ∷ 53 ∷ 1 ∷ 0 ∷ 0 ∷ 10 ∷ 0 ∷ 0 ∷ 0 ∷ [];
  position = 0;
  fails = false;
  left = 0;
  file_size = 15;
  is_bulk = false;
  in_buffer = record { bytes = []; end = 0; ptr = 0; capacity = 0 };
  out_buffer = record { bytes = []; ptr = 0 };
}

read_word_record_example :
    read_next_record_as_word_definition at_head
    ≡ (ok (some (simple_word 1 (0x61 ∷ 0x62 ∷ []))), record at_head { position = 7 })
unfolding word_record
read_word_record_example =
    read_word_record at_head (simple_word 1 (0x61 ∷ 0x62 ∷ []))
      (53 ∷ 1 ∷ 0 ∷ 0 ∷ 10 ∷ 0 ∷ 0 ∷ 0 ∷ []) (omega arith) next
  where
    next : Next at_head (13 ∷ 1 ∷ 0 ∷ 0 ∷ 2 ∷ 0x61 ∷ 0x62 ∷ 53 ∷ 1 ∷ 0 ∷ 0 ∷ 10 ∷ 0 ∷ 0 ∷ 0 ∷ [])
    next = record { works = refl; ahead = refl }

-- The compound word 2 of the words 1 and 1.
read_word-write_example :
    ((write_word_to (compound_word 2 (1, 1)) 2 11 new_file).0 ≡ ok tt)
    × (read_next_record_as_word_definition
          (at (write_word_to (compound_word 2 (1, 1)) 2 11 new_file).1.file 0)
        ≡ (
          ok (some (compound_word 2 (1, 1))),
          at
              (write_word_to (compound_word 2 (1, 1)) 2 11 new_file).1.file
              (write_word_to (compound_word 2 (1, 1)) 2 11 new_file).1.file.position,
        ))
unfolding word_record
read_word-write_example =
    read_word-write new_file (compound_word 2 (1, 1)) 2 11 refl refl refl (omega arith)
      (omega arith, omega arith, omega arith) tt (omega arith) (omega arith)
