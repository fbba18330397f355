-- ===== src/Tests/Lexicon.antt =====
-- A lexicon whose store accepts everything and counts.
use nind.Prelude.{ℕ, ◌+◌, ◌≡◌, ◌≢◌, refl, ap, subst, List, [], ◌∷◌, true, arith}
use nind.Prelude.Exec.{Result, ok}
use nind.Prelude.Map.{find, insert, list_beq}
use nind.Lexicon.{
  SimpleWord, WordStore, Lexicon, lookup_id, lookup_loop, sub_lookup, add_word, add_loop, stored,
  new_simple, new_compound, simple_word_id, sub_word_id,
}
use nind.Lexicon.Invariant.{IsLexicon}
use nind.Lexicon.Words.{
  add_word-IsLexicon, lookup_id-add_word, lookup_id-add_word_other, add_word_known,
}
use nind.Lexicon.Denote.{lookup_id-inj, lookup_id-denote, denote, value, rev_onto}

abbrev counting : WordStore
counting = record {
  State = ℕ;
  write_simple_word_definition = λ id w max t s. (ok tt, s + 1);
  write_compound_word_definition = λ id p max t s. (ok tt, s + 1);
}

abbrev clock : ℕ → ℕ
clock id = 1000 + id

abbrev empty : Lexicon ℕ
empty = record {
  is_writer = true;
  current_id = 0;
  identification = 0;
  simple = [];
  compound = [];
  store = 0;
}

abbrev pomme_de : List SimpleWord
pomme_de = (b'p' ∷ []) ∷ (b'd' ∷ []) ∷ []

abbrev pomme : List SimpleWord
pomme = (b'p' ∷ []) ∷ []

-- The lexicon with "p d": two simple words and their compound.
abbrev three_words : Lexicon ℕ
three_words = record {
  is_writer = true;
  current_id = 3;
  identification = 1003;
  simple = (b'p' ∷ [], 1) ∷ (b'd' ∷ [], 2) ∷ [];
  compound = ((1, 2), 3) ∷ [];
  store = 3;
}

add_pomme_de : add_word counting clock pomme_de empty ≡ (ok 3, three_words)
unfolding add_word add_loop simple_word_id sub_word_id new_simple new_compound stored find insert
    list_beq
add_pomme_de = refl

empty-IsLexicon : IsLexicon empty
unfolding find
empty-IsLexicon = record {
  simple_range = λ w i e. absurd (cc);
  compound_range = λ p i e. absurd (cc);
  keys = λ p i e. absurd (cc);
  simple_inj = λ w v i e. absurd (cc);
  compound_inj = λ p q i e. absurd (cc);
  disjoint = λ w p i e. absurd (cc);
}

three_words-IsLexicon : IsLexicon three_words
three_words-IsLexicon =
    subst (λ (o : Result ℕ × Lexicon ℕ). IsLexicon o.1) add_pomme_de
      (add_word-IsLexicon counting clock pomme_de empty empty-IsLexicon (omega arith))

pomme_known : lookup_id three_words pomme ≢ 0
unfolding lookup_id lookup_loop sub_lookup find list_beq
pomme_known e = cc

add_word-IsLexicon_example : IsLexicon (add_word counting clock pomme_de empty).1
add_word-IsLexicon_example =
    add_word-IsLexicon counting clock pomme_de empty empty-IsLexicon (omega arith)

lookup_id-add_word_example : lookup_id (add_word counting clock pomme_de empty).1 pomme_de ≡ 3
lookup_id-add_word_example =
    lookup_id-add_word counting clock pomme_de empty 3 empty-IsLexicon (omega arith)
      (ap (λ (o : Result ℕ × Lexicon ℕ). o.0) add_pomme_de)

lookup_id-add_word_other_example :
    lookup_id (add_word counting clock pomme_de three_words).1 pomme ≡ lookup_id three_words pomme
lookup_id-add_word_other_example =
    lookup_id-add_word_other counting clock pomme_de pomme three_words three_words-IsLexicon
      (omega arith) pomme_known

add_word_known_example :
    add_word counting clock pomme three_words ≡ (ok (lookup_id three_words pomme), three_words)
add_word_known_example = add_word_known counting clock pomme three_words refl pomme_known

lookup_id-inj_example : pomme ≡ pomme
lookup_id-inj_example = lookup_id-inj three_words pomme pomme three_words-IsLexicon pomme_known refl

lookup_id-denote_example :
    lookup_id three_words pomme_de ≡ value (denote three_words (rev_onto pomme_de []))
lookup_id-denote_example = lookup_id-denote three_words three_words-IsLexicon pomme_de
