-- ===== src/Lexicon/Compound.antt =====
-- `addWord`: the components so far with one more, found or made.
use nind.Prelude.{
  ℕ, suc, ◌^◌, ◌<◌, ◌≤◌, ◌≡◌, ◌≢◌, refl, ◌∙◌, Bool, true, false, none, some, arith, ◌==◌,
  Bool-cases, Option-cases, inl, inr,
}
use nind.Prelude.Exec.{Result, ok, err, continue}
use nind.Prelude.Map.{find, find-insert, find-insert_self, nat_eq, list_eq, pair_eq}
use nind.Lexicon.{WordStore, Lexicon, sub_lookup, stored, new_compound, sub_word_id}
use nind.Lexicon.Invariant.{
  IsLexicon, Extends, Extends-refl, IsWithCompound, compound_IsLexicon, compound_Extends,
}
use nind.Lexicon.Simple.{Ready, Halfway}

-- The end of the components so far is 0 only before the first.
nonzero_lookup :
    {State : Type 0} (m : Lexicon State) (sub id : ℕ)
    → sub ≢ 0
    → sub_lookup m sub id ≡ find (sub, id) m.compound
unfolding sub_lookup
nonzero_lookup m sub id nz = ground arith

module _ (f : WordStore) (clock : ℕ → ℕ) where
  open f use {State}

  -- Whatever the store answers, the memory has the new word.
  new_compound_after :
      (p : ℕ × ℕ) (l : Lexicon State)
      → suc l.current_id < 2 ^ 32
      → IsWithCompound l p (new_compound f clock p l).1
        × ((id : ℕ) → (new_compound f clock p l).0 ≡ ok id → id ≡ suc l.current_id)
  unfolding new_compound stored
  new_compound_after p l h = ground (arith)

  -- What is known after the identifier of the components so far has been found or made.
  pub record SubOut (l : Lexicon State) (sub id : ℕ) (o : Result (ℕ × Bool) × Lexicon State)
      : Type 0 where
    pub kept : IsLexicon o.1
    pub extends : Extends l o.1
    pub step : o.1.current_id ≤ suc l.current_id
    pub found : (s : ℕ) (new : Bool) → o.0 ≡ ok (s, new) → sub_lookup o.1 sub id ≡ some s
    pub ready : (s : ℕ) (new : Bool) → o.0 ≡ ok (s, new) → Ready f clock o.1 s new

  made_compound :
      (l : Lexicon State) (sub id : ℕ) (o : Result ℕ × Lexicon State)
      → IsLexicon l
      → sub ≢ 0
      → sub ≤ l.current_id
      → id ≤ l.current_id
      → find (sub, id) l.compound ≡ none
      → IsWithCompound l (sub, id) o.1
      → ((i : ℕ) → o.0 ≡ ok i → i ≡ suc l.current_id)
      → SubOut l sub id (continue o.0 (λ i s. (ok (i, true), s)) o.1)
  made_compound l sub id (ok i, m) h nz sub_le id_le absent made i_eq =
      let kept' = compound_IsLexicon l m h (sub, id) absent sub_le id_le made in
      record {
        kept = kept';
        extends = compound_Extends l m h (sub, id) absent made;
        step = omega arith;
        found = λ s new e.
            nonzero_lookup m sub id nz
            ∙ rw (made.2, find-insert_self) (ground (arith, i_eq i refl));
        ready = λ s new e. record {
          kept = kept';
          sub_le = ground (arith, i_eq i refl);
          start = λ z. ground (arith, i_eq i refl);
          fresh = λ _ p j. rw made.2 (
              rw find-insert (
                ground (
                  arith,
                  i_eq i refl,
                  h.keys p j,
                  (pair_eq ⦃e = nat_eq⦄ ⦃f = nat_eq⦄).beq_iff (sub, id) p,
                )));
        };
      }
  made_compound l sub id (err x, m) h nz sub_le id_le absent made i_eq = record {
    kept = compound_IsLexicon l m h (sub, id) absent sub_le id_le made;
    extends = compound_Extends l m h (sub, id) absent made;
    step = omega arith;
    found = λ s new e. cc;
    ready = λ s new e. absurd (cc);
  }

  first_out :
      (l : Lexicon State) (sub id : ℕ) (new : Bool)
      → Halfway f clock l sub id new
      → sub ≡ 0
      → SubOut l sub id (ok (id, new), l)
  unfolding sub_lookup
  first_out l sub id new h z = record {
    kept = h.kept;
    extends = Extends-refl l;
    step = omega arith;
    found = λ s n e. ground arith;
    ready = λ s n e. record {
      kept = h.kept;
      sub_le = ground (arith, h.id_le);
      start = λ s0. ground (arith, h.id_pos);
      fresh = λ t p i k eq. ground (arith, h.fresh z (ground arith) p i k);
    };
  }

  old_out :
      (l : Lexicon State) (sub id i : ℕ) (new : Bool)
      → Halfway f clock l sub id new
      → sub ≢ 0
      → find (sub, id) l.compound ≡ some i
      → SubOut l sub id (ok (i, false), l)
  old_out l sub id i new h nz present = record {
    kept = h.kept;
    extends = Extends-refl l;
    step = omega arith;
    found = λ s n e. nonzero_lookup l sub id nz ∙ present ∙ ground arith;
    ready = λ s n e. record {
      kept = h.kept;
      sub_le = ground (arith, h.kept.compound_range (sub, id) i present);
      start = λ s0. ground (arith, h.kept.compound_range (sub, id) i present);
      fresh = λ t. absurd (ground arith);
    };
  }

  pub sub_out :
      (sub id : ℕ) (new : Bool) (l : Lexicon State)
      → Halfway f clock l sub id new
      → suc l.current_id < 2 ^ 32
      → SubOut l sub id (sub_word_id f clock sub id new l)
  unfolding sub_word_id
  sub_out sub id new l h small = elim (Bool-cases (sub == 0)) [
    | inl z ↦ rw (z, sub_word_id) (first_out l sub id new h (ground arith))
    | inr nz ↦
        let (made, id_eq) = new_compound_after (sub, id) l small in
        let from_new = λ (absent : find (sub, id) l.compound ≡ none).
          made_compound l sub id (new_compound f clock (sub, id) l) h.kept (ground arith) h.sub_le
            h.id_le absent made id_eq in
        elim (Bool-cases new) [
          | inl fresh ↦ rw (nz, fresh, sub_word_id) (from_new (h.absent fresh (ground arith)))
          | inr known ↦ elim (Option-cases (find (sub, id) l.compound)) [
            | inl absent ↦ rw (nz, known, absent, sub_word_id) (from_new absent)
            | inr (i, present) ↦
                rw (nz, known, present, sub_word_id)
                  (old_out l sub id i new h (ground arith) present)
          ]
        ]
  ]
