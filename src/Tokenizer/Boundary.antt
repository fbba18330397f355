-- ===== src/Tokenizer/Boundary.antt =====
-- Where a word is cut, and what a token becomes.
use nind.Prelude.{
  some, ℕ, suc, ◌<◌, ◌↔◌, sym, subst, ◌-◌, ◌≤◌, ◌≡◌, ◌≢◌, refl, ap, List, [], ◌∷◌, length, map,
  take, drop, All, Bool, not, if◌then◌else◌, true, false, arith, length-take, length-drop, inl, inr,
  Bool-cases, ◌∙◌,
}
use nind.Bytes.{byte}
use nind.Tokenizer.Chars.{byte_class-other}
use nind.Tokenizer.Spans.{InOrder, InOrder-le}
use nind.Tokenizer.Pieces.{InWord, All-weaken}
use nind.Tokenizer.Tokens.{tokenize-InOrder, tokenize-InWord}
use nind.Tokenizer.{
  Span, tokenize, cuts, char_class, same_bool, is_digit, is_underscore, digit, lower,
  tokenize_strings, Options, byte_class, is_boundary, lowered, get_token, upper,
}

-- A word is never cut between two bytes of characters that are not ASCII.
is_boundary_wide :
    (options : Options) (text : List ℕ) (j end : ℕ)
    → 128 ≤ byte text (j - 1)
    → 128 ≤ byte text j
    → is_boundary options text j end ≡ false
unfolding is_boundary
is_boundary_wide options text j end wide1 wide2 =
    rw
      (
        byte_class-other (byte text (j - 1)) wide1,
        byte_class-other (byte text j) wide2,
        is_boundary,
      )
      (ground arith)

abbrev pub IsDigit : ℕ → Type 0
IsDigit c = (0x30 ≤ c) × (c ≤ 0x39)

abbrev pub IsSmall : ℕ → Type 0
IsSmall c = (0x61 ≤ c) × (c ≤ 0x7A)

abbrev pub IsCapital : ℕ → Type 0
IsCapital c = (0x41 ≤ c) × (c ≤ 0x5A)

IsDigit-digit : (c : ℕ) → IsDigit c → byte_class c ≡ digit
unfolding byte_class
IsDigit-digit c h = ground arith

class-IsDigit : (c : ℕ) → is_digit (byte_class c) ≡ true → IsDigit c
unfolding byte_class
class-IsDigit c h = ground arith

IsSmall-lower : (c : ℕ) → IsSmall c → byte_class c ≡ lower
unfolding byte_class
IsSmall-lower c h = ground arith

IsCapital-upper : (c : ℕ) → IsCapital c → byte_class c ≡ upper
unfolding byte_class
IsCapital-upper c h = ground arith

not_underscore : (c : ℕ) → c ≢ 0x5F → is_underscore (byte_class c) ≡ false
unfolding byte_class
not_underscore c h = ground arith

agree : (a b x : Bool) → (if not (same_bool a b) then true else x) ≡ false → a ≡ b
agree true true x h = refl
agree true false x h = absurd (cc)
agree false true x h = absurd (cc)
agree false false x h = refl

module _ (options : Options) (text : List ℕ) (j end : ℕ) where
  is_boundary_hump :
      options.split_camel_case ≡ true
      → IsSmall (byte text (j - 1))
      → IsCapital (byte text j)
      → is_boundary options text j end ≡ true
  unfolding is_boundary
  is_boundary_hump camel small capital =
      rw
        (
          IsSmall-lower (byte text (j - 1)) small,
          IsCapital-upper (byte text j) capital,
          camel,
          is_boundary,
        )
        (ground arith)

  same_kind :
      options.split_digits ≡ true
      → byte text (j - 1) ≢ 0x5F
      → byte text j ≢ 0x5F
      → is_boundary options text j end ≡ false
      → is_digit (byte_class (byte text (j - 1))) ≡ is_digit (byte_class (byte text j))
  unfolding is_boundary
  same_kind digits word1 word2 =
      rw
        (
          not_underscore (byte text (j - 1)) word1,
          not_underscore (byte text j) word2,
          digits,
          is_boundary,
        )
        (agree (is_digit (byte_class (byte text (j - 1)))) (is_digit (byte_class (byte text j))) _)

-- How a token is cut: it does not end between two bytes of characters that are not ASCII, unless a
-- separator follows; where camel case is split it has no capital behind a small letter, and where
-- digits are split a digit stands in it only beside digits and underscores.
pub record IsCut (options : Options) (text : List ℕ) (span : Span) : Type 0 where
  pub wide_end :
      span.1 < length text
      → 128 ≤ byte text (span.1 - 1)
      → 128 ≤ byte text span.1
      → cuts options (char_class text span.1).0 ≡ true
  pub no_hump :
      options.split_camel_case ≡ true
      → (j : ℕ) → span.0 < j
      → j < span.1
      → IsSmall (byte text (j - 1))
      → IsCapital (byte text j)
      → ⊥
  pub one_kind :
      options.split_digits ≡ true
      → (j : ℕ) → span.0 < j
      → j < span.1
      → byte text (j - 1) ≢ 0x5F
      → byte text j ≢ 0x5F
      → IsDigit (byte text (j - 1)) ↔ IsDigit (byte text j)

InWord-IsCut :
    (options : Options) (text : List ℕ) (span : Span)
    → InWord options text span
    → IsCut options text span
InWord-IsCut options text span w = record {
  wide_end = λ inside wide1 wide2. elim w.is_piece.ends_at [
    | inr here ↦ absurd (cc (here, is_boundary_wide options text span.1 w.word_end_at wide1 wide2))
    | inl at_end ↦ elim w.word_ends [
      | inl over ↦ absurd (omega (arith, at_end, over))
      | inr cut ↦ subst (λ e. cuts options (char_class text e).0 ≡ true) (sym at_end) cut
    ]
  ];
  no_hump = λ camel j ge lt small capital. absurd (
      cc (
        w.is_piece.uncut j ge lt,
        is_boundary_hump options text j w.word_end_at camel small capital,
      ));
  one_kind = λ digits j ge lt word1 word2.
      let same =
        same_kind options text j w.word_end_at digits word1 word2 (w.is_piece.uncut j ge lt) in
      (
        λ h. class-IsDigit (byte text j) (sym same ∙ ap is_digit (IsDigit-digit _ h)),
        λ h. class-IsDigit (byte text (j - 1)) (same ∙ ap is_digit (IsDigit-digit _ h)),
      );
}

-- Every token of a text is cut as it should be: it ends between two bytes of 128 or more only where a
-- separator follows; where camel case is split no capital in it stands behind a small letter; where
-- digits are split, two bytes in it that follow one another and are no underscores are both
-- digits or neither is.
pub tokenize_cuts :
    (options : Options) (text : List ℕ) (spans : List Span)
    → tokenize options text ≡ some spans
    → All (IsCut options text) spans
tokenize_cuts options text spans e =
    All-weaken (InWord options text) (IsCut options text) spans (InWord-IsCut options text)
      (tokenize-InWord options text spans e)

abbrev pub Lowered : ℕ → Type 0
Lowered c = byte_class c ≢ upper

lowered-Lowered : (c : ℕ) → Lowered (lowered c)
unfolding byte_class
lowered-Lowered c = ground arith

map-lowered : (cs : List ℕ) → All Lowered (map lowered cs)
map-lowered [] = tt
map-lowered (c ∷ cs) = (lowered-Lowered c, map-lowered cs)

length-map-lowered : (cs : List ℕ) → length (map lowered cs) ≡ length cs
length-map-lowered [] = refl
length-map-lowered (c ∷ cs) = ap suc (length-map-lowered cs)

-- The length of a span's token, and its case.
get_token_lem :
    (options : Options) (text : List ℕ) (begin end : ℕ)
    → begin ≤ end
    → end ≤ length text
    → (length (get_token options text (begin, end)) ≡ end - begin)
      × (options.lowercase ≡ true → All Lowered (get_token options text (begin, end)))
unfolding get_token
get_token_lem options text begin end order fits = (
  elim (Bool-cases options.lowercase) [
    | inl e ↦ rw e (length-map-lowered (take (end - begin) (drop begin text)) ∙ span)
    | inr e ↦ rw e span
  ],
  λ e. rw e (map-lowered (take (end - begin) (drop begin text))),
)
  where
    span : length (take (end - begin) (drop begin text)) ≡ end - begin
    span = omega (arith, length-take (end - begin) (drop begin text), length-drop begin text)

-- What every token is: of a permitted length and, where lowercase is asked, without a capital.
abbrev pub IsToken : Options → List ℕ → Type 0
IsToken options token =
    (options.min_length ≤ length token)
    × (length token ≤ options.max_length)
    × (options.lowercase ≡ true → All Lowered token)

tokens_of_spans :
    (options : Options) (text : List ℕ) (low : ℕ) (spans : List Span)
    → InOrder options low (length text) spans
    → All (IsToken options) (map (get_token options text) spans)
tokens_of_spans options text low [] h = tt
tokens_of_spans options text low ((b, e) ∷ spans) (h1, h2, h3, h4, h) =
    let (len, case) =
      get_token_lem options text b e (omega arith) (InOrder-le options e (length text) spans h) in
    ((omega (arith, len), omega (arith, len), case), tokens_of_spans options text e spans h)

-- Every text is split into strings of permitted lengths, which have no ASCII capital where
-- lowercase is asked.
pub tokenize_strings_lem :
    (options : Options) (text : List ℕ)
    → (tokens : List (List ℕ)) × (tokenize_strings options text ≡ some tokens)
      × All (IsToken options) tokens
unfolding tokenize_strings
tokenize_strings_lem options text =
    let (spans, e, ordered) = tokenize-InOrder options text in
    (
      map (get_token options text) spans,
      rw (e, tokenize_strings) refl,
      tokens_of_spans options text 0 spans ordered,
    )
