-- ===== src/Lexicon/Denote.antt =====
-- What the identifier of a word stands for: a description by recursion from the last component,
-- for the loop of `getId`.
use nind.Prelude.{
  ℕ, ◌<◌, ◌≡◌, ◌≢◌, refl, ap, ap₂, sym, ◌∙◌, List, [], ◌∷◌, Option, none, some, arith, Option-cases,
  inl, inr,
}
use nind.Prelude.Map.{find, nat_eq, list_eq, pair_eq}
use nind.Lexicon.{SimpleWord, Lexicon, sub_lookup, lookup_loop, lookup_id}
use nind.Lexicon.Invariant.{IsLexicon}

-- The identifier of two known parts.
pair_id : {State : Type 0} → Lexicon State → Option ℕ → Option ℕ → Option ℕ
pair_id l none b = none
pair_id l (some a) none = none
pair_id l (some a) (some b) = find (a, b) l.compound

-- The identifier of the components listed from the last one.
pub denote : {State : Type 0} → Lexicon State → List SimpleWord → Option ℕ
denote l [] = none
denote l (w ∷ []) = find w l.simple
denote l (w ∷ v ∷ before) = pair_id l (denote l (v ∷ before)) (find w l.simple)

abbrev pub value : Option ℕ → ℕ
value none = 0
value (some i) = i

abbrev pub rev_onto : List SimpleWord → List SimpleWord → List SimpleWord
rev_onto [] before = before
rev_onto (w ∷ words) before = rev_onto words (w ∷ before)

module _ {State : Type 0} (l : Lexicon State) (h : IsLexicon l) where
  denote_pos : (c : List SimpleWord) (i : ℕ) → denote l c ≡ some i → 0 < i
  unfolding denote pair_id
  denote_pos [] i e = absurd (cc)
  denote_pos (w ∷ []) i e = (h.simple_range w i e).0
  denote_pos (w ∷ v ∷ before) i e = elim (Option-cases (denote l (v ∷ before))) [
    | inl n ↦ absurd (ground arith)
    | inr (a, ea) ↦ elim (Option-cases (find w l.simple)) [
      | inl n ↦ absurd (ground arith)
      | inr (b, eb) ↦ ground (arith, h.compound_range (a, b) i)
    ]
  ]

  -- An unknown beginning makes an unknown word.
  unknown :
      (words : List SimpleWord) (v : SimpleWord) (before : List SimpleWord)
      → denote l (v ∷ before) ≡ none
      → denote l (rev_onto words (v ∷ before)) ≡ none
  unfolding denote pair_id
  unknown [] v before e = e
  unknown (w ∷ words) v before e = unknown words w (v ∷ before) (ground arith)

  -- One more component, after a known beginning.
  denote_more :
      (w v : SimpleWord) (before : List SimpleWord) (sub : ℕ)
      → denote l (v ∷ before) ≡ some sub
      → denote l (w ∷ v ∷ before) ≡ pair_id l (some sub) (find w l.simple)
  unfolding denote
  denote_more w v before sub e = rw e

  found_pair : (sub b : ℕ) → 0 < sub → sub_lookup l sub b ≡ pair_id l (some sub) (some b)
  unfolding sub_lookup pair_id
  found_pair sub b pos = ground arith

  loop_denote :
      (words : List SimpleWord) (v : SimpleWord) (before : List SimpleWord) (sub : ℕ)
      → denote l (v ∷ before) ≡ some sub
      → lookup_loop l words sub ≡ value (denote l (rev_onto words (v ∷ before)))
  unfolding lookup_loop
  loop_denote [] v before sub e = ground arith
  loop_denote (w ∷ words) v before sub e = elim (Option-cases (find w l.simple)) [
    | inl n ↦
        let none' : denote l (w ∷ v ∷ before) ≡ none =
          denote_more w v before sub e ∙ unfold pair_id in rw n in
        rw (n, lookup_loop) (rw (unknown words w (v ∷ before) none'))
    | inr (b, eb) ↦
        let more : denote l (w ∷ v ∷ before) ≡ sub_lookup l sub b =
          denote_more w v before sub e
          ∙ rw eb (sym (found_pair sub b (denote_pos (v ∷ before) sub e))) in
        elim (Option-cases (sub_lookup l sub b)) [
          | inl n ↦
              rw (eb, lookup_loop)
                (rw (n, lookup_loop) (rw (unknown words w (v ∷ before) (more ∙ n))))
          | inr (i, ei) ↦
              rw (eb, lookup_loop)
                (rw (ei, lookup_loop) (loop_denote words w (v ∷ before) i (more ∙ ei)))
        ]
  ]

  -- The loop of `getId` computes the description.
  pub lookup_id-denote :
      (words : List SimpleWord) → lookup_id l words ≡ value (denote l (rev_onto words []))
  unfolding lookup_id lookup_loop
  lookup_id-denote [] = unfold denote in refl
  lookup_id-denote (w ∷ words) = elim (Option-cases (find w l.simple)) [
    | inl n ↦ rw (n, lookup_loop) (rw (unknown words w [] (unfold denote in n)))
    | inr (b, eb) ↦
        rw (eb, lookup_loop) (unfold sub_lookup in loop_denote words w [] b (unfold denote in eb))
  ]

  -- A known compound has known parts.
  parts :
      (w v : SimpleWord) (before : List SimpleWord) (i : ℕ)
      → denote l (w ∷ v ∷ before) ≡ some i
      → (a : ℕ) × (b : ℕ) × (denote l (v ∷ before) ≡ some a)
        × (find w l.simple ≡ some b)
        × (find (a, b) l.compound ≡ some i)
  unfolding denote pair_id
  parts w v before i e = elim (Option-cases (denote l (v ∷ before))) [
    | inl n ↦ absurd (ground arith)
    | inr (a, ea) ↦ elim (Option-cases (find w l.simple)) [
      | inl n ↦ absurd (ground arith)
      | inr (b, eb) ↦ (a, b, ea, eb, ground arith)
    ]
  ]

  denote_inj : (c d : List SimpleWord) (i : ℕ) → denote l c ≡ some i → denote l d ≡ some i → c ≡ d
  denote_inj [] d i e g = absurd (unfold denote in cc)
  denote_inj (w ∷ []) [] i e g = absurd (unfold denote in cc)
  denote_inj (w ∷ v ∷ before) [] i e g = absurd (unfold denote in cc)
  denote_inj (w ∷ []) (x ∷ []) i e g =
      ap (λ (u : SimpleWord). u ∷ []) (h.simple_inj w x i (unfold denote in e) (unfold denote in g))
  denote_inj (w ∷ []) (x ∷ y ∷ d) i e g =
      let (a, b, ea, eb, k) = parts x y d i g in
      absurd (h.disjoint w (a, b) i (unfold denote in e) k)
  denote_inj (w ∷ v ∷ c) (x ∷ []) i e g =
      let (a, b, ea, eb, k) = parts w v c i e in
      absurd (h.disjoint x (a, b) i (unfold denote in g) k)
  denote_inj (w ∷ v ∷ c) (x ∷ y ∷ d) i e g =
      let (a, b, ea, eb, k) = parts w v c i e in
      let (a', b', ea', eb', k') = parts x y d i g in
      let same = h.compound_inj (a, b) (a', b') i k k' in
      let left : a ≡ a' = ap (λ (p : ℕ × ℕ). p.0) same in
      let right : b ≡ b' = ap (λ (p : ℕ × ℕ). p.1) same in
      ap₂ (λ (u : SimpleWord) (r : List SimpleWord). u ∷ r)
        (h.simple_inj w x b eb (eb' ∙ ap some (sym right)))
        (denote_inj (v ∷ c) (y ∷ d) a ea (ea' ∙ ap some (sym left)))

rev_onto-rev_onto :
    (c before : List SimpleWord) → rev_onto (rev_onto c before) [] ≡ rev_onto before c
rev_onto-rev_onto [] before = refl
rev_onto-rev_onto (w ∷ c) before = rev_onto-rev_onto c (w ∷ before)

known : (o : Option ℕ) → value o ≢ 0 → o ≡ some (value o)
known none h = absurd (h refl)
known (some i) h = refl

-- Words that `getId` finds under one identifier are the same word.
pub lookup_id-inj :
    {State : Type 0} (l : Lexicon State) (c d : List SimpleWord)
    → IsLexicon l
    → lookup_id l c ≢ 0
    → lookup_id l c ≡ lookup_id l d
    → c ≡ d
lookup_id-inj l c d h nz same =
    let ec = lookup_id-denote l h c in
    let ed = lookup_id-denote l h d in
    let kc = known (denote l (rev_onto c [])) (λ z. nz (ec ∙ z)) in
    let kd = known (denote l (rev_onto d [])) (λ z. nz (same ∙ ed ∙ z)) in
    let reversed =
      denote_inj l h (rev_onto c []) (rev_onto d []) (lookup_id l c) (kc ∙ ap some (sym ec))
        (kd ∙ ap some (sym ed ∙ sym same)) in
    sym (rev_onto-rev_onto c [])
    ∙ ap (λ (r : List SimpleWord). rev_onto r []) reversed
    ∙ rev_onto-rev_onto d []
