-- ===== src/Tests/Tokenizer.antt =====
-- NindTokenizer on short texts.
use nind.Prelude.{ℕ, ◌≡◌, refl, ◌⊎◌, List, [], ◌∷◌, length, All, true, some, arith}
use nind.Bytes.{byte}
use nind.Tokenizer.{
  tokenize_strings, Options, Span, byte_class, char_class, cuts, word_end, pieces, tokenize_from,
  tokenize, is_boundary, get_token, lead, continued, is_separator_code_point,
}
use nind.Tokenizer.Spans.{InOrder, covers}
use nind.Tokenizer.Tokens.{
  Separates, IsWordByte, tokenize-InOrder, tokenize_clean, tokenize_complete,
}
use nind.Tokenizer.Boundary.{IsCut, tokenize_cuts, IsToken, tokenize_strings_lem}

abbrev defaults : Options
defaults = record {
  split_camel_case = true;
  split_underscore = true;
  split_digits = true;
  lowercase = true;
  min_length = 1;
  max_length = 254;
}

-- "aB é_7", the é being of two bytes.
abbrev text : List ℕ
text = 0x61 ∷ 0x42 ∷ 0x20 ∷ 0xC3 ∷ 0xA9 ∷ 0x5F ∷ 0x37 ∷ []

abbrev spans : List Span
spans = (0, 1) ∷ (1, 2) ∷ (3, 5) ∷ (6, 7) ∷ []

text-tokens : tokenize defaults text ≡ some spans
unfolding tokenize tokenize_from word_end pieces cuts char_class byte_class lead continued
    is_separator_code_point is_boundary
text-tokens = refl

tokenize-InOrder_example :
    (found : List Span) × (tokenize defaults text ≡ some found)
    × InOrder defaults 0 (length text) found
tokenize-InOrder_example = tokenize-InOrder defaults text

tokenize_clean_example : IsWordByte defaults (byte text 4)
tokenize_clean_example = tokenize_clean defaults text spans 4 text-tokens refl

tokenize_complete_example : (covers 5 spans ≡ true) ⊎ Separates defaults text 5
tokenize_complete_example =
    tokenize_complete defaults text spans 5 (omega arith, omega arith) text-tokens (omega arith)

tokenize_cuts_example : All (IsCut defaults text) spans
tokenize_cuts_example = tokenize_cuts defaults text spans text-tokens

text-strings :
    tokenize_strings defaults text
    ≡ some ((0x61 ∷ []) ∷ (0x62 ∷ []) ∷ (0xC3 ∷ 0xA9 ∷ []) ∷ (0x37 ∷ []) ∷ [])
unfolding tokenize_strings get_token
text-strings = rw (text-tokens, tokenize_strings) refl

tokenize_strings_lem_example :
    (tokens : List (List ℕ)) × (tokenize_strings defaults text ≡ some tokens)
    × All (IsToken defaults) tokens
tokenize_strings_lem_example = tokenize_strings_lem defaults text
