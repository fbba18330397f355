-- ===== src/Lexicon/Invariant.antt =====
-- What holds of the two maps of a lexicon, and what making a word keeps.
use nind.Prelude.{◌↔◌, ℕ, suc, ◌<◌, ◌≤◌, ◌≡◌, ◌≢◌, true, none, some, arith}
use nind.Prelude.Map.{find, insert, find-insert, nat_eq, list_eq, pair_eq}
use nind.Lexicon.{SimpleWord, Lexicon}

-- Identifiers are from 1 to the current one, no two words have the same, and the parts of the
-- compounds are at most the current one.
pub record IsLexicon {State : Type 0} (l : Lexicon State) : Type 0 where
  pub simple_range :
      (w : SimpleWord) (i : ℕ) → find w l.simple ≡ some i → (0 < i) × (i ≤ l.current_id)
  pub compound_range :
      (p : ℕ × ℕ) (i : ℕ) → find p l.compound ≡ some i → (0 < i) × (i ≤ l.current_id)
  pub keys :
      (p : ℕ × ℕ) (i : ℕ) → find p l.compound ≡ some i → (p.0 ≤ l.current_id) × (p.1 ≤ l.current_id)
  pub simple_inj :
      (w v : SimpleWord) (i : ℕ) → find w l.simple ≡ some i → find v l.simple ≡ some i → w ≡ v
  pub compound_inj :
      (p q : ℕ × ℕ) (i : ℕ) → find p l.compound ≡ some i → find q l.compound ≡ some i → p ≡ q
  pub disjoint :
      (w : SimpleWord) (p : ℕ × ℕ) (i : ℕ) → find w l.simple ≡ some i → find p l.compound ≢ some i

-- `m` knows what `l` knows.
pub record Extends {State : Type 0} (l m : Lexicon State) : Type 0 where
  pub simple : (w : SimpleWord) (i : ℕ) → find w l.simple ≡ some i → find w m.simple ≡ some i
  pub compound : (p : ℕ × ℕ) (i : ℕ) → find p l.compound ≡ some i → find p m.compound ≡ some i
  pub current : l.current_id ≤ m.current_id

pub Extends-refl : {State : Type 0} (l : Lexicon State) → Extends l l
Extends-refl l = record { simple = λ w i e. e; compound = λ p i e. e; current = omega arith }

pub Extends-trans :
    {State : Type 0} {l m n : Lexicon State} → Extends l m → Extends m n → Extends l n
Extends-trans a b = record {
  simple = λ w i e. b.simple w i (a.simple w i e);
  compound = λ p i e. b.compound p i (a.compound p i e);
  current = omega (arith, a.current, b.current);
}

same_word : (w v : SimpleWord) → ((list_eq ⦃e = nat_eq⦄).beq w v ≡ true) ↔ (w ≡ v)
same_word w v = (list_eq ⦃e = nat_eq⦄).beq_iff w v

same_pair : (p q : ℕ × ℕ) → ((pair_eq ⦃e = nat_eq⦄ ⦃f = nat_eq⦄).beq p q ≡ true) ↔ (p ≡ q)
same_pair p q = (pair_eq ⦃e = nat_eq⦄ ⦃f = nat_eq⦄).beq_iff p q

-- The maps with a new simple word or a new compound, under the next identifier; the rest is free.
abbrev pub IsWithSimple : {State : Type 0} → Lexicon State → SimpleWord → Lexicon State → Type 0
IsWithSimple l w m =
    (m.current_id ≡ suc l.current_id)
    × (m.simple ≡ insert w (suc l.current_id) l.simple)
    × (m.compound ≡ l.compound)

abbrev pub IsWithCompound : {State : Type 0} → Lexicon State → ℕ × ℕ → Lexicon State → Type 0
IsWithCompound l p m =
    (m.current_id ≡ suc l.current_id)
    × (m.simple ≡ l.simple)
    × (m.compound ≡ insert p (suc l.current_id) l.compound)

module _ {State : Type 0} (l m : Lexicon State) (h : IsLexicon l) where
  pub simple_IsLexicon :
      (w : SimpleWord) → find w l.simple ≡ none → IsWithSimple l w m → IsLexicon m
  simple_IsLexicon w absent (c, s, k) = record {
    simple_range = λ v i. rw (s, c, find-insert) (ground (arith, h.simple_range v i));
    compound_range = λ p i. rw (k, c) (λ e. omega (arith, h.compound_range p i e));
    keys = λ p i. rw (k, c) (λ e. omega (arith, h.keys p i e));
    simple_inj = λ u v i. rw s (
        simp find-insert (
          ground (
            arith,
            h.simple_inj u v i,
            h.simple_range u i,
            h.simple_range v i,
            same_word w u,
            same_word w v,
          )));
    compound_inj = rw k h.compound_inj;
    disjoint =
        λ v p i. rw (s, k, find-insert) (ground (arith, h.disjoint v p i, h.compound_range p i));
  }

  pub simple_Extends : (w : SimpleWord) → find w l.simple ≡ none → IsWithSimple l w m → Extends l m
  simple_Extends w absent (c, s, k) = record {
    simple = λ v i. rw (s, find-insert) (ground (arith, same_word w v));
    compound = λ p i. rw k (λ e. e);
    current = omega arith;
  }

  pub compound_IsLexicon :
      (p : ℕ × ℕ)
      → find p l.compound ≡ none
      → p.0 ≤ l.current_id
      → p.1 ≤ l.current_id
      → IsWithCompound l p m
      → IsLexicon m
  compound_IsLexicon p absent left right (c, s, k) = record {
    simple_range = λ v i. rw (s, c) (λ e. omega (arith, h.simple_range v i e));
    compound_range = λ q i. rw (k, c, find-insert) (ground (arith, h.compound_range q i));
    keys = λ q i. rw (k, c, find-insert) (ground (arith, h.keys q i, same_pair p q));
    simple_inj = rw s h.simple_inj;
    compound_inj = λ q r i. rw k (
        simp find-insert (
          ground (
            arith,
            h.compound_inj q r i,
            h.compound_range q i,
            h.compound_range r i,
            same_pair p q,
            same_pair p r,
          )));
    disjoint =
        λ v q i. rw (s, k, find-insert) (ground (arith, h.disjoint v q i, h.simple_range v i));
  }

  pub compound_Extends : (p : ℕ × ℕ) → find p l.compound ≡ none → IsWithCompound l p m → Extends l m
  compound_Extends p absent (c, s, k) = record {
    simple = λ v i. rw s (λ e. e);
    compound = λ q i. rw (k, find-insert) (ground (arith, same_pair p q));
    current = omega arith;
  }
