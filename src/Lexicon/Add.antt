-- ===== src/Lexicon/Add.antt =====
-- `addWord`: the loop over the components, on every outcome.
use nind.Prelude.{
  ℕ, suc, ◌+◌, ◌*◌, ◌^◌, ◌<◌, ◌≡◌, refl, ◌∙◌, List, [], ◌∷◌, Bool, false, some, arith, length,
}
use nind.Prelude.Exec.{Result, ok, err, continue, ◌>>=◌}
use nind.Prelude.Map.{find, nat_eq, list_eq, pair_eq}
use nind.Lexicon.{
  SimpleWord, WordStore, Lexicon, sub_lookup, lookup_loop, simple_word_id, sub_word_id, add_loop,
}
use nind.Lexicon.Invariant.{IsLexicon, Extends, Extends-refl, Extends-trans}
use nind.Lexicon.Simple.{SimpleOut, simple_out, Ready, halfway}
use nind.Lexicon.Compound.{SubOut, sub_out}

pub sub_lookup_kept :
    {State : Type 0} {l m : Lexicon State} (sub id s : ℕ)
    → Extends l m
    → sub_lookup l sub id ≡ some s
    → sub_lookup m sub id ≡ some s
unfolding sub_lookup
sub_lookup_kept sub id s e = ground (arith, e.compound (sub, id) s)

pub lookup_step :
    {State : Type 0} (m : Lexicon State) (w : SimpleWord) (words : List SimpleWord) (sub id s : ℕ)
    → find w m.simple ≡ some id
    → sub_lookup m sub id ≡ some s
    → lookup_loop m (w ∷ words) sub ≡ lookup_loop m words s
unfolding lookup_loop
lookup_step m w words sub id s e g = rw (e, lookup_loop) (rw (g, lookup_loop))

module _ (f : WordStore) (clock : ℕ → ℕ) where
  open f use {State}

  -- What the loop leaves, over the components that are left.
  pub record AddOut (l : Lexicon State) (words : List SimpleWord) (sub : ℕ)
      (o : Result ℕ × Lexicon State) : Type 0 where
    pub kept : IsLexicon o.1
    pub extends : Extends l o.1
    pub found : (id : ℕ) → o.0 ≡ ok id → lookup_loop o.1 words sub ≡ id

  module _ (w : SimpleWord) (words : List SimpleWord)
      (rest : (s : ℕ) (n : Bool) (k : Lexicon State)
        → Ready f clock k s n
        → k.current_id + 2 * length words < 2 ^ 32
        → AddOut k words s (add_loop f clock words s n k)) where
    after_sub :
        (m : Lexicon State) (sub id : ℕ) (o : Result (ℕ × Bool) × Lexicon State)
        → find w m.simple ≡ some id
        → suc m.current_id + 2 * length words < 2 ^ 32
        → SubOut f clock m sub id o
        → AddOut m (w ∷ words) sub (continue o.0 (λ q. add_loop f clock words q.0 q.1) o.1)
    after_sub m sub id (ok (s, n), k) known small o =
        let r = rest s n k (o.ready s n refl) (omega (arith, o.step)) in
        record {
          kept = r.kept;
          extends = Extends-trans o.extends r.extends;
          found = λ i e.
              lookup_step _ w words sub id s (r.extends.simple w id (o.extends.simple w id known))
                (sub_lookup_kept sub id s r.extends (o.found s n refl))
              ∙ r.found i e;
        }
    after_sub m sub id (err x, k) known small o = record {
      kept = o.kept;
      extends = o.extends;
      found = λ i e. cc;
    }

    after_simple :
        (l : Lexicon State) (sub : ℕ) (is_new : Bool) (o : Result (ℕ × Bool) × Lexicon State)
        → Ready f clock l sub is_new
        → suc (suc l.current_id) + 2 * length words < 2 ^ 32
        → SimpleOut f clock l w is_new o
        → AddOut l (w ∷ words) sub (
            continue o.0
              (λ p. sub_word_id f clock sub p.0 p.1 >>= λ q. add_loop f clock words q.0 q.1)
              o.1)
    after_simple l sub is_new (ok (id, new), m) ready small o =
        let r =
          after_sub m sub id (sub_word_id f clock sub id new m) (o.found id new refl)
            (omega (arith, o.step))
            (sub_out f clock sub id new m (halfway f clock l m w sub is_new id new ready o)
              (omega (arith, o.step))) in
        record { kept = r.kept; extends = Extends-trans o.extends r.extends; found = r.found }
    after_simple l sub is_new (err x, m) ready small o = record {
      kept = o.kept;
      extends = o.extends;
      found = λ i e. cc;
    }

  add_out :
      (words : List SimpleWord) (sub : ℕ) (is_new : Bool) (l : Lexicon State)
      → Ready f clock l sub is_new
      → l.current_id + 2 * length words < 2 ^ 32
      → AddOut l words sub (add_loop f clock words sub is_new l)
  unfolding add_loop
  add_out [] sub is_new l ready small = record {
    kept = ready.kept;
    extends = Extends-refl l;
    found = λ i e. unfold lookup_loop in ground arith;
  }
  add_out (w ∷ words) sub is_new l ready small =
      after_simple w words (add_out words) l sub is_new (simple_word_id f clock w is_new l) ready
        (omega arith) (simple_out f clock w is_new l ready.kept (omega arith))

  -- From a lexicon, with identifiers left, whatever the store answers.
  pub start_out :
      (words : List SimpleWord) (l : Lexicon State)
      → IsLexicon l
      → l.current_id + 2 * length words < 2 ^ 32
      → AddOut l words 0 (add_loop f clock words 0 false l)
  start_out words l h small =
      add_out words 0 false l
        (record { kept = h; sub_le = omega arith; start = λ z. refl; fresh = λ t. absurd (cc) })
        small
