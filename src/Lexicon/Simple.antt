-- ===== src/Lexicon/Simple.antt =====
-- `addWord`: a simple word found or made, and the state of the loop around it.
use nind.Prelude.{
  ℕ, suc, ◌^◌, ◌<◌, ◌≤◌, ◌≡◌, ◌≢◌, refl, sym, ◌∙◌, Bool, true, false, none, some, arith,
  Option-cases, inl, inr, ◌⊎◌,
}
use nind.Prelude.Exec.{Result, ok, err, continue}
use nind.Prelude.Map.{find, find-insert_self, nat_eq, list_eq, pair_eq}
use nind.Lexicon.{SimpleWord, WordStore, Lexicon, stored, new_simple, simple_word_id}
use nind.Lexicon.Invariant.{
  IsLexicon, Extends, Extends-refl, IsWithSimple, simple_IsLexicon, simple_Extends,
}

module _ (f : WordStore) (clock : ℕ → ℕ) where
  open f use {State}

  -- Whatever the store answers, the memory has the new word.
  new_simple_after :
      (w : SimpleWord) (l : Lexicon State)
      → suc l.current_id < 2 ^ 32
      → IsWithSimple l w (new_simple f clock w l).1
        × ((id : ℕ) → (new_simple f clock w l).0 ≡ ok id → id ≡ suc l.current_id)
  unfolding new_simple stored
  new_simple_after w l h = ground (arith)

  -- What is known after the identifier of a simple word has been found or made.
  pub record SimpleOut (l : Lexicon State) (w : SimpleWord) (is_new : Bool)
      (o : Result (ℕ × Bool) × Lexicon State) : Type 0 where
    pub kept : IsLexicon o.1
    pub extends : Extends l o.1
    pub compound : o.1.compound ≡ l.compound
    pub step : o.1.current_id ≤ suc l.current_id
    pub found : (id : ℕ) (new : Bool) → o.0 ≡ ok (id, new) → find w o.1.simple ≡ some id
    pub flag : (id : ℕ) (new : Bool) → o.0 ≡ ok (id, new) → (new ≡ is_new) ⊎ (l.current_id < id)

  made_simple :
      (l : Lexicon State) (w : SimpleWord) (is_new : Bool) (o : Result ℕ × Lexicon State)
      → IsLexicon l
      → find w l.simple ≡ none
      → IsWithSimple l w o.1
      → ((id : ℕ) → o.0 ≡ ok id → id ≡ suc l.current_id)
      → SimpleOut l w is_new (continue o.0 (λ id s. (ok (id, true), s)) o.1)
  made_simple l w is_new (ok i, m) h absent made i_eq = record {
    kept = simple_IsLexicon l m h w absent made;
    extends = simple_Extends l m h w absent made;
    compound = made.2;
    step = omega arith;
    found = λ id new e. rw (made.1, find-insert_self) (ground (arith, i_eq i refl));
    flag = λ id new e. inr (ground (arith, i_eq i refl));
  }
  made_simple l w is_new (err x, m) h absent made i_eq = record {
    kept = simple_IsLexicon l m h w absent made;
    extends = simple_Extends l m h w absent made;
    compound = made.2;
    step = omega arith;
    found = λ id new e. cc;
    flag = λ id new e. cc;
  }

  pub simple_out :
      (w : SimpleWord) (is_new : Bool) (l : Lexicon State)
      → IsLexicon l
      → suc l.current_id < 2 ^ 32
      → SimpleOut l w is_new (simple_word_id f clock w is_new l)
  unfolding simple_word_id
  simple_out w is_new l h small = elim (Option-cases (find w l.simple)) [
    | inl absent ↦
        let (made, id_eq) = new_simple_after w l small in
        rw (absent, simple_word_id)
          (made_simple l w is_new (new_simple f clock w l) h absent made id_eq)
    | inr (i, present) ↦
        rw (present, simple_word_id)
          (record {
            kept = h;
            extends = Extends-refl l;
            compound = refl;
            step = omega arith;
            found = λ id new e. ground arith;
            flag = λ id new e. inl (ground arith);
          })
  ]

  -- The state of the loop between two components.
  pub record Ready (l : Lexicon State) (sub : ℕ) (is_new : Bool) : Type 0 where
    pub kept : IsLexicon l
    pub sub_le : sub ≤ l.current_id
    pub start : sub ≡ 0 → is_new ≡ false
    pub fresh : is_new ≡ true → (p : ℕ × ℕ) (i : ℕ) → find p l.compound ≡ some i → p.0 ≢ sub

  -- The same with the identifier of the next component found or made.
  pub record Halfway (l : Lexicon State) (sub id : ℕ) (new : Bool) : Type 0 where
    pub kept : IsLexicon l
    pub sub_le : sub ≤ l.current_id
    pub id_pos : 0 < id
    pub id_le : id ≤ l.current_id
    pub absent : new ≡ true → sub ≢ 0 → find (sub, id) l.compound ≡ none
    pub fresh : sub ≡ 0 → new ≡ true → (p : ℕ × ℕ) (i : ℕ) → find p l.compound ≡ some i → p.0 ≢ id

  pub halfway :
      (l m : Lexicon State) (w : SimpleWord) (sub : ℕ) (is_new : Bool) (id : ℕ) (new : Bool)
      → Ready l sub is_new
      → SimpleOut l w is_new (ok (id, new), m)
      → Halfway m sub id new
  halfway l m w sub is_new id new r o = record {
    kept = o.kept;
    sub_le = omega (arith, r.sub_le, o.extends.current);
    id_pos = (o.kept.simple_range w id (o.found id new refl)).0;
    id_le = (o.kept.simple_range w id (o.found id new refl)).1;
    absent = λ e nz. elim (Option-cases (find (sub, id) m.compound)) [
      | inl none' ↦ none'
      | inr (i, some') ↦
          let old : find (sub, id) l.compound ≡ some i = rw (← o.compound) some' in
          absurd (elim (o.flag id new refl) [
            | inl same ↦ r.fresh (sym same ∙ e) (sub, id) i old refl
            | inr above ↦ omega (arith, (r.kept.keys (sub, id) i old).1)
          ])
    ];
    fresh = λ z e p i some' eq.
        let old : find p l.compound ≡ some i = rw (← o.compound) some' in
        elim (o.flag id new refl) [
          | inl same ↦ cc (r.start z)
          | inr above ↦ omega (arith, (r.kept.keys p i old).0, eq)
        ];
  }
