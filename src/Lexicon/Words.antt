-- ===== src/Lexicon/Words.antt =====
-- `addWord` and `getId` as the users of a lexicon see them.
use nind.Prelude.{
  ℕ, ◌+◌, ◌*◌, ◌^◌, ◌<◌, ◌≡◌, ◌≢◌, refl, sym, ◌∙◌, List, [], ◌∷◌, Bool, true, false, arith,
  Option-cases, inl, inr, if◌then◌else◌, length, not,
}
use nind.Prelude.Exec.{Result, ok, err, nind_lexicon}
use nind.Prelude.Map.{find, nat_eq, list_eq, pair_eq}
use nind.Lexicon.{
  SimpleWord, WordStore, Lexicon, sub_lookup, lookup_loop, lookup_id, add_loop, add_word, rethrown,
  simple_word_id, sub_word_id,
}
use nind.Lexicon.Invariant.{IsLexicon, Extends, Extends-refl}
use nind.Lexicon.Add.{AddOut, start_out, lookup_step, sub_lookup_kept}

-- An identifier that is known stays.
lookup_loop_kept :
    {State : Type 0} (l m : Lexicon State) (words : List SimpleWord) (sub : ℕ)
    → Extends l m
    → lookup_loop l words sub ≢ 0
    → lookup_loop m words sub ≡ lookup_loop l words sub
unfolding lookup_loop sub_lookup
lookup_loop_kept l m [] sub e nz = refl
lookup_loop_kept l m (w ∷ words) sub e nz = elim (Option-cases (find w l.simple)) [
  | inl n ↦ absurd (nz (rw (n, lookup_loop)))
  | inr (b, eb) ↦ elim (Option-cases (sub_lookup l sub b)) [
    | inl n ↦ absurd (nz (rw (eb, lookup_loop) (rw (n, lookup_loop))))
    | inr (i, ei) ↦
        let old = lookup_step l w words sub b i eb ei in
        lookup_step m w words sub b i (e.simple w b eb) (sub_lookup_kept sub b i e ei)
        ∙ lookup_loop_kept l m words i e (λ z. nz (old ∙ z))
        ∙ sym old
  ]
]

module _ (f : WordStore) (clock : ℕ → ℕ) where
  open f use {State}

  rethrown_out :
      (l : Lexicon State) (words : List SimpleWord) (o : Result ℕ × Lexicon State)
      → AddOut f clock l words 0 o
      → AddOut f clock l words 0 (rethrown o)
  rethrown_out l words (ok i, m) h = h
  rethrown_out l words (err e, m) h = record {
    kept = h.kept;
    extends = h.extends;
    found = λ i p. cc;
  }

  if_out :
      (b : Bool) (l : Lexicon State) (words : List SimpleWord) (x y : Result ℕ × Lexicon State)
      → AddOut f clock l words 0 x
      → AddOut f clock l words 0 y
      → AddOut f clock l words 0 (if b then x else y)
  if_out true l words x y hx hy = hx
  if_out false l words x y hx hy = hy

  add_word_out :
      (words : List SimpleWord) (l : Lexicon State)
      → IsLexicon l
      → l.current_id + 2 * length words < 2 ^ 32
      → AddOut f clock l words 0 (add_word f clock words l)
  unfolding add_word
  add_word_out words l h small =
      if_out (not l.is_writer) l words _ _
        (record { kept = h; extends = Extends-refl l; found = λ i p. cc })
        (rethrown_out l words (add_loop f clock words 0 false l)
          (start_out f clock words l h small))

  -- With two identifiers below 2 ^ 32 left for each component, adding a word keeps the lexicon well
  -- formed (identifiers from 1 to the current one, different for different words, parts of compounds
  -- at most the current one), whatever the store answers, exceptions included.
  pub add_word-IsLexicon :
      (words : List SimpleWord) (l : Lexicon State)
      → IsLexicon l
      → l.current_id + 2 * length words < 2 ^ 32
      → IsLexicon (add_word f clock words l).1
  add_word-IsLexicon words l h small = (add_word_out words l h small).kept

  -- A word that was added is found under the identifier that `addWord` returned.
  pub lookup_id-add_word :
      (words : List SimpleWord) (l : Lexicon State) (id : ℕ)
      → IsLexicon l
      → l.current_id + 2 * length words < 2 ^ 32
      → (add_word f clock words l).0 ≡ ok id
      → lookup_id (add_word f clock words l).1 words ≡ id
  unfolding lookup_id
  lookup_id-add_word words l id h small e = (add_word_out words l h small).found id e

  -- Whatever the store answers, adding a word leaves the identifier of every word that was known.
  pub lookup_id-add_word_other :
      (words other : List SimpleWord) (l : Lexicon State)
      → IsLexicon l
      → l.current_id + 2 * length words < 2 ^ 32
      → lookup_id l other ≢ 0
      → lookup_id (add_word f clock words l).1 other ≡ lookup_id l other
  unfolding lookup_id
  lookup_id-add_word_other words other l h small nz =
      lookup_loop_kept l (add_word f clock words l).1 other 0 (add_word_out words l h small).extends
        nz

  known_loop :
      (words : List SimpleWord) (sub : ℕ) (l : Lexicon State)
      → lookup_loop l words sub ≢ 0
      → add_loop f clock words sub false l ≡ (ok (lookup_loop l words sub), l)
  unfolding add_loop
  known_loop [] sub l nz = unfold lookup_loop in refl
  known_loop (w ∷ words) sub l nz = elim (Option-cases (find w l.simple)) [
    | inl n ↦ absurd (nz (unfold lookup_loop in rw (n, lookup_loop)))
    | inr (b, eb) ↦ elim (Option-cases (sub_lookup l sub b)) [
      | inl n ↦ absurd (nz (unfold lookup_loop in rw (eb, lookup_loop) (rw (n, lookup_loop))))
      | inr (i, ei) ↦
          let step = lookup_step l w words sub b i eb ei in
          let simple : simple_word_id f clock w false l ≡ (ok (b, false), l) =
            unfold simple_word_id in rw (eb, simple_word_id) in
          let compound : sub_word_id f clock sub b false l ≡ (ok (i, false), l) =
            unfold sub_word_id sub_lookup in ground (arith, ei) in
          rw (simple, compound, known_loop words i l (λ z. nz (step ∙ z)), step)
    ]
  ]

  -- Adding a word that is known returns its identifier and changes nothing.
  pub add_word_known :
      (words : List SimpleWord) (l : Lexicon State)
      → l.is_writer ≡ true
      → lookup_id l words ≢ 0
      → add_word f clock words l ≡ (ok (lookup_id l words), l)
  unfolding add_word lookup_id
  add_word_known words l w nz = known_word l.is_writer w
    where
      known_word :
          (b : Bool)
          → b ≡ true
          → (if not b then (err nind_lexicon, l) else rethrown (add_loop f clock words 0 false l))
            ≡ (ok (lookup_loop l words 0), l)
      known_word true e = rw (known_loop words 0 l nz)
      known_word false e = cc
