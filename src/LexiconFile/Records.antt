-- ===== src/LexiconFile/Records.antt =====
-- The records of the lexicon file as bytes, and what is read of them.
use nind.Prelude.{
  ℕ, ◌+◌, ◌^◌, ◌<◌, ◌≡◌, refl, ap, sym, ◌∙◌, List, [], ◌∷◌, ◌++◌, length, drop, take-append,
  drop-append, drop-drop, false, some, ==_iff, arith,
}
use nind.Prelude.Exec.{ok}
use nind.Bytes.{le3}
use nind.Bytes.Values.{le3-value}
use nind.File.{File, fread, read_bytes, read_int1, read_int3, read_string}
use nind.WriteBuffer.Fixed.{digit, le3_bytes, le4_bytes}
use nind.Lexicon.{SimpleWord}
use nind.LexiconFile.{
  Word, simple_word, compound_word, simple_word_flag, compound_word_flag, identification_flag,
  read_next_record_as_word_definition,
}

-- `rest` is what stands from the file's position on.
pub record Next (f : File) (rest : List ℕ) : Type 0 where
  pub works : f.fails ≡ false
  pub ahead : drop f.position f.content ≡ rest

abbrev pub at : File → ℕ → File
at f position = record f { position = position }

module _ (f : File) (xs ys : List ℕ) (h : Next f (xs ++ ys)) where
  fread-Next : fread (length xs) f ≡ (xs, at f (f.position + length xs))
  unfolding fread
  fread-Next = rw (h.works, h.ahead, take-append xs ys, fread) refl

  pub read_bytes-Next : read_bytes (length xs) f ≡ (ok xs, at f (f.position + length xs))
  unfolding read_bytes
  read_bytes-Next = rw (fread-Next, (==_iff (length xs) (length xs)).1 refl, read_bytes) refl

  pub Next-after : Next (at f (f.position + length xs)) ys
  Next-after = record {
    works = h.works;
    ahead =
        sym (drop-drop (length xs) f.position _ f.content refl)
        ∙ ap (drop (length xs)) h.ahead
        ∙ drop-append xs ys;
  }

le3_bytes-value : (v : ℕ) → v < 2 ^ 24 → le3 (le3_bytes v) ≡ v
le3_bytes-value v small =
    le3-value (digit v 0) (digit v 8) (digit v 16) [] (omega arith) (omega arith) (omega arith)
    ∙ omega arith

pub read_int1-Next :
    (f : File) (b : ℕ) (rest : List ℕ)
    → Next f (b ∷ rest)
    → read_int1 f ≡ (ok b, at f (f.position + 1))
unfolding read_int1
read_int1-Next f b rest h = rw (read_bytes-Next f (b ∷ []) rest h, read_int1) refl

pub read_int3-Next :
    (f : File) (v : ℕ) (rest : List ℕ)
    → v < 2 ^ 24
    → Next f (le3_bytes v ++ rest)
    → read_int3 f ≡ (ok v, at f (f.position + 3))
unfolding read_int3
read_int3-Next f v rest small h =
    rw (read_bytes-Next f (le3_bytes v) rest h, read_int3)
      (ap (λ (x : ℕ). (ok x, at f (f.position + 3))) (le3_bytes-value v small))

pub read_string-Next :
    (f : File) (word rest : List ℕ)
    → Next f (length word ∷ (word ++ rest))
    → read_string f ≡ (ok word, at f (f.position + 1 + length word))
unfolding read_string
read_string-Next f word rest h =
    rw (read_bytes-Next f (length word ∷ []) (word ++ rest) h, read_string)
      (read_bytes-Next (at f (f.position + 1)) word rest
        (Next-after f (length word ∷ []) (word ++ rest) h))

-- The record of a word.
unfoldable pub word_record : Word → List ℕ
word_record (simple_word ident word) = simple_word_flag ∷ (le3_bytes ident ++ (length word ∷ word))
word_record (compound_word ident (first, second)) =
    compound_word_flag ∷ (le3_bytes ident ++ (le3_bytes first ++ le3_bytes second))

-- The record that ends the file.
unfoldable pub identification_record : ℕ → ℕ → List ℕ
identification_record max_ident identification =
    identification_flag ∷ (le3_bytes max_ident ++ le4_bytes identification)

-- The identifiers fit their three bytes.
abbrev pub Fits : Word → Type 0
Fits (simple_word ident word) = ident < 2 ^ 24
Fits (compound_word ident (first, second)) = (ident < 2 ^ 24) × (first < 2 ^ 24) × (second < 2 ^ 24)

module _ (f : File) (rest : List ℕ) where
  read_simple :
      (ident : ℕ) (word : SimpleWord)
      → ident < 2 ^ 24
      → Next f (simple_word_flag ∷ (le3_bytes ident ++ (length word ∷ (word ++ rest))))
      → read_next_record_as_word_definition f
        ≡ (ok (some (simple_word ident word)), at f (f.position + 1 + 3 + 1 + length word))
  unfolding read_next_record_as_word_definition
  read_simple ident word small h =
      let h1 =
        Next-after f (simple_word_flag ∷ []) (le3_bytes ident ++ (length word ∷ (word ++ rest)))
          h in
      let h2 =
        Next-after (at f (f.position + 1)) (le3_bytes ident) (length word ∷ (word ++ rest)) h1 in
      rw
        (
          read_int1-Next f simple_word_flag _ h,
          read_int3-Next (at f (f.position + 1)) ident (length word ∷ (word ++ rest)) small h1,
          read_string-Next (at f (f.position + 1 + 3)) word rest h2,
          read_next_record_as_word_definition,
        )
        refl

  read_compound :
      (ident first second : ℕ)
      → ident < 2 ^ 24
      → first < 2 ^ 24
      → second < 2 ^ 24
      → Next f (
          compound_word_flag ∷ (le3_bytes ident ++ (le3_bytes first ++ (le3_bytes second ++ rest))))
      → read_next_record_as_word_definition f
        ≡ (ok (some (compound_word ident (first, second))), at f (f.position + 1 + 3 + 3 + 3))
  unfolding read_next_record_as_word_definition
  read_compound ident first second small small1 small2 h =
      let h1 =
        Next-after f (compound_word_flag ∷ [])
          (le3_bytes ident ++ (le3_bytes first ++ (le3_bytes second ++ rest))) h in
      let h2 =
        Next-after (at f (f.position + 1)) (le3_bytes ident)
          (le3_bytes first ++ (le3_bytes second ++ rest)) h1 in
      let h3 =
        Next-after (at f (f.position + 1 + 3)) (le3_bytes first) (le3_bytes second ++ rest) h2 in
      rw
        (
          read_int1-Next f compound_word_flag _ h,
          read_int3-Next (at f (f.position + 1)) ident
              (le3_bytes first ++ (le3_bytes second ++ rest)) small h1,
          read_int3-Next (at f (f.position + 1 + 3)) first (le3_bytes second ++ rest) small1 h2,
          read_int3-Next (at f (f.position + 1 + 3 + 3)) second rest small2 h3,
          read_next_record_as_word_definition,
        )
        refl

-- Where the record of a word stands at the position of a file on a device that works, its
-- identifiers below 2 ^ 24, the reader returns the word and moves to what follows the record.
pub read_word_record :
    (f : File) (w : Word) (rest : List ℕ)
    → Fits w
    → Next f (word_record w ++ rest)
    → read_next_record_as_word_definition f
      ≡ (ok (some w), at f (f.position + length (word_record w)))
unfolding word_record
read_word_record f (simple_word ident word) rest fits h =
    read_simple f rest ident word fits h
    ∙ ap (λ p. (ok (some (simple_word ident word)), at f p)) (omega arith)
read_word_record f (compound_word ident (first, second)) rest (fits, fits1, fits2) h =
    read_compound f rest ident first second fits fits1 fits2 h
    ∙ ap (λ p. (ok (some (compound_word ident (first, second))), at f p)) (omega arith)
