-- ===== src/Tokenizer.antt =====
-- src/cpp/NindIndex/NindTokenizer.cpp: the split of a text into tokens.
-- A text is its bytes. A `while` that walks the text has fuel and gives `none` where that runs out.
pub mod Chars
pub mod Words
pub mod Spans
pub mod Pieces
pub mod Tokens
pub mod Boundary
use nind.Prelude.{
  ℕ, zero, suc, ◌+◌, ◌-◌, List, [], ◌∷◌, ◌++◌, length, map, take, drop, Bool, true, false, not,
  ◌&&◌, ◌||◌, Option, none, some, ltb, leb, ◌==◌, if◌then◌else◌, bit_and, bit_or,
}
use nind.Bytes.{byte, shl32}

pub record Options : Type 0 where
  pub split_camel_case : Bool
  pub split_underscore : Bool
  pub split_digits : Bool
  pub lowercase : Bool
  pub min_length : ℕ
  pub max_length : ℕ

pub data ByteClass : Type 0 where
  separator upper lower digit underscore other : ByteClass

-- `low <= c && c <= high`
abbrev pub in_range : ℕ → ℕ → ℕ → Bool
in_range c low high = leb low c && leb c high

unfoldable pub byte_class : ℕ → ByteClass
byte_class c =
    if in_range c 0x41 0x5A
    then upper
    else if in_range c 0x61 0x7A
    then lower
    else if in_range c 0x30 0x39
    then digit
    else if c == 0x5F
    then underscore
    else if leb 0x80 c
    then other
    else separator

unfoldable pub is_separator_code_point : ℕ → Bool
is_separator_code_point c =
    in_range c 0x80 0xBF
    || (c == 0xD7 || c == 0xF7)
    || in_range c 0x2000 0x2BFF
    || in_range c 0x3000 0x303F
    || in_range c 0xE000 0xF8FF
    || in_range c 0xFE10 0xFE6F
    || (in_range c 0xFF00 0xFF0F || in_range c 0xFF1A 0xFF20)
    || (in_range c 0xFF3B 0xFF40 || in_range c 0xFF5B 0xFF65)
    || c == 0xFEFF
    || in_range c 0x1F000 0x1FAFF

-- The length of a character and the bits of its code point in its first byte, from 0x80 on.
unfoldable pub lead : ℕ → Option (ℕ × ℕ)
lead c =
    if bit_and c 0xE0 == 0xC0
    then some (2, bit_and c 0x1F)
    else if bit_and c 0xF0 == 0xE0
    then some (3, bit_and c 0x0F)
    else if bit_and c 0xF8 == 0xF0
    then some (4, bit_and c 0x07)
    else none

-- `n` continuation bytes from `i` on; `none` where one is not of the form 10xxxxxx.
unfoldable pub continued : List ℕ → ℕ → ℕ → ℕ → Option ℕ
continued text zero i code_point = some code_point
continued text (suc n) i code_point =
    let rest =
      continued text n (i + 1) (bit_or (shl32 code_point 6) (bit_and (byte text i) 0x3F)) in
    if bit_and (byte text i) 0xC0 == 0x80 then rest else none

-- What a whole character counts as, where its code point could be read.
abbrev pub decoded : ByteClass → ℕ → Option ℕ → ByteClass × ℕ
decoded cls n none = (cls, 1)
decoded cls n (some code_point) =
    if is_separator_code_point code_point then (separator, n) else (cls, n)

abbrev pub wide_char : List ℕ → ℕ → ByteClass → Option (ℕ × ℕ) → ByteClass × ℕ
wide_char text i cls none = (cls, 1)
wide_char text i cls (some (n, bits)) =
    if ltb (length text) (i + n)
    then (cls, 1)
    else decoded cls n (continued text (n - 1) (i + 1) bits)

-- The class and the length of the character at `i`.
unfoldable pub char_class : List ℕ → ℕ → ByteClass × ℕ
char_class text i =
    let c = byte text i in
    if ltb c 0x80 then (byte_class c, 1) else wide_char text i (byte_class c) (lead c)

abbrev pub is_digit : ByteClass → Bool
is_digit digit = true
is_digit _ = false

abbrev pub is_upper : ByteClass → Bool
is_upper upper = true
is_upper _ = false

abbrev pub is_lower : ByteClass → Bool
is_lower lower = true
is_lower _ = false

abbrev pub is_underscore : ByteClass → Bool
is_underscore underscore = true
is_underscore _ = false

abbrev pub is_separator : ByteClass → Bool
is_separator separator = true
is_separator _ = false

abbrev pub is_other : ByteClass → Bool
is_other other = true
is_other _ = false

abbrev pub Span : Type 0
Span = ℕ × ℕ

-- `cls == SEPARATOR || (cls == UNDERSCORE && m_options.splitUnderscore)`
unfoldable pub cuts : Options → ByteClass → Bool
cuts options cls = is_separator cls || (is_underscore cls && options.split_underscore)

-- `==` on `bool`
abbrev pub same_bool : Bool → Bool → Bool
same_bool true b = b
same_bool false b = not b

-- `token[i] - 'A' + 'a'`
abbrev pub lowered : ℕ → ℕ
lowered c = if in_range c 0x41 0x5A then c - 0x41 + 0x61 else c

abbrev pub append_spans : List Span → Option (List Span) → Option (List Span)
append_spans new none = none
append_spans new (some rest) = some (new ++ rest)

module _ (options : Options) (text : List ℕ) where
  -- Whether to cut between the bytes j - 1 and j of a word that ends at `end`.
  unfoldable pub is_boundary : ℕ → ℕ → Bool
  is_boundary j end =
      let prev = byte_class (byte text (j - 1)) in
      let cur = byte_class (byte text j) in
      if is_underscore prev || is_underscore cur
      then false
      else if options.split_digits && not (same_bool (is_digit prev) (is_digit cur))
      then true
      else if options.split_camel_case && is_upper cur
      then (if is_lower prev || is_other prev || is_digit prev
          then true
          else is_upper prev && ltb (j + 1) end && is_lower (byte_class (byte text (j + 1))))
      else false

  -- The loop over the characters of a word, to its end.
  unfoldable pub word_end : ℕ → ℕ → Option ℕ
  word_end zero i = none
  word_end (suc fuel) i = elim (ltb i (length text)) [
    | false ↦ some i
    | true ↦ elim (cuts options (char_class text i).0) [
      | true ↦ some i
      | false ↦ word_end fuel (i + (char_class text i).1)
    ]
  ]

  -- The loop over the positions j of a word, of which `n` are left.
  unfoldable pub pieces : ℕ → ℕ → ℕ → ℕ → List Span
  pieces end zero j piece_begin = []
  pieces end (suc n) j piece_begin =
      let whole = ltb j end && not (is_boundary j end) in
      let rest = pieces end n (j + 1) (if whole then piece_begin else j) in
      let piece_length = j - piece_begin in
      if whole
      then rest
      else if leb options.min_length piece_length && leb piece_length options.max_length
      then (piece_begin, j) ∷ rest
      else rest

  -- The loop over the separators and words from `i` on.
  unfoldable pub tokenize_from : ℕ → ℕ → Option (List Span)
  tokenize_from zero i = none
  tokenize_from (suc fuel) i = elim (ltb i (length text)) [
    | false ↦ some []
    | true ↦ elim (cuts options (char_class text i).0) [
      | true ↦ tokenize_from fuel (i + (char_class text i).1)
      | false ↦ elim (word_end (suc (length text)) i) [
        | none ↦ none
        | some end ↦ append_spans (pieces end (end - i) (i + 1) i) (tokenize_from fuel end)
      ]
    ]
  ]

  unfoldable pub tokenize : Option (List Span)
  tokenize = tokenize_from (suc (length text)) 0

  unfoldable pub get_token : Span → List ℕ
  get_token (begin, end) =
      let token = take (end - begin) (drop begin text) in
      if options.lowercase then map lowered token else token

  -- `tokenize` into strings.
  unfoldable pub tokenize_strings : Option (List (List ℕ))
  tokenize_strings = elim tokenize [ none ↦ none | some spans ↦ some (map get_token spans) ]
