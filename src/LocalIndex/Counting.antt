-- ===== src/LocalIndex/Counting.antt =====
-- getLocalLength against getLocalDef: the terms of a document counted, and decoded.
use nind.Prelude.{
  ℕ, zero, suc, ◌+◌, ◌^◌, ◌%◌, ◌<◌, ◌≡◌, refl, ap, sym, ◌-◌, ◌∙◌, List, ◌∷◌, length, Bool-cases,
  inl, inr, arith,
}
use nind.Prelude.Exec.{Result, ok, err, pure, continue, ◌>>=◌, ◌>>◌}
use nind.ReadBuffer.{ReadBuffer, Read, end_of_in_buffer, get_int1, get_s_int_lat}
use nind.LocalIndex.{Term}
use nind.LocalIndex.Terms.{plus32, get_localisations, get_term, get_terms, get_donnejes}
use nind.LocalIndex.Queries.{skip_localisations, count_terms, count_donnejes}

-- A result through a function; an exception stays.
abbrev pub through : {A B : Type 0} → (A → B) → Result A → Result B
through h (ok a) = ok (h a)
through h (err e) = err e

-- `n` does what `m` does, and returns its value through `h`.
abbrev pub Follows : {A B : Type 0} → (A → B) → Read A → Read B → Type 0
Follows h m n = (r : ReadBuffer) → n r ≡ (through h (m r).0, (m r).1)

continue-Follows :
    {A B C D : Type 0} (h : A → B) (k : C → D) (f : A → Read C) (g : B → Read D)
    → ((a : A) → Follows k (f a) (g (h a)))
    → (x : Result A) (s : ReadBuffer)
    → continue (through h x) g s ≡ (through k (continue x f s).0, (continue x f s).1)
continue-Follows h k f g hf (ok a) s = hf a s
continue-Follows h k f g hf (err e) s = refl

bind-Follows :
    {A B C D : Type 0} (h : A → B) (k : C → D) (m : Read A) (n : Read B) (f : A → Read C)
    (g : B → Read D)
    → Follows h m n
    → ((a : A) → Follows k (f a) (g (h a)))
    → Follows k (m >>= f) (n >>= g)
bind-Follows h k m n f g hm hf r =
    ap (λ x. continue x.0 g x.1) (hm r) ∙ continue-Follows h k f g hf (m r).0 (m r).1

itself :
    {A C D : Type 0} (k : C → D) (f : A → Read C) (g : A → Read D)
    → ((a : A) → Follows k (f a) (g a))
    → (x : Result A) (s : ReadBuffer)
    → continue x g s ≡ (through k (continue x f s).0, (continue x f s).1)
itself k f g hf (ok a) s = hf a s
itself k f g hf (err e) s = refl

-- The same operation first.
same-Follows :
    {A C D : Type 0} (k : C → D) (m : Read A) (f : A → Read C) (g : A → Read D)
    → ((a : A) → Follows k (f a) (g a))
    → Follows k (m >>= f) (m >>= g)
same-Follows k m f g hf r = itself k f g hf (m r).0 (m r).1

-- What is made of the last value makes no difference to the buffer.
last_value :
    {A B C : Type 0} (h : A → B) (k : C → B) (g : A → C)
    → ((a : A) → h a ≡ k (g a))
    → (x : Result A) (s : ReadBuffer)
    → ◌≡◌ {A = Result B × ReadBuffer}
        (through h x, s)
        (through k (continue x (λ a. pure (g a)) s).0, (continue x (λ a. pure (g a)) s).1)
last_value {B = B} h k g e (ok a) s = ap (λ (b : B). (ok b, s)) (e a)
last_value h k g e (err x) s = refl

last-Follows :
    {A B C : Type 0} (h : A → B) (k : C → B) (m : Read A) (n : Read B) (g : A → C)
    → ((a : A) → h a ≡ k (g a))
    → Follows h m n
    → Follows k (m >>= λ a. pure (g a)) n
last-Follows h k m n g e hm r = hm r ∙ last_value h k g e (m r).0 (m r).1

abbrev done : {A : Type 0} → A → Unit {0}
done a = tt

skip_localisations-Follows :
    (n position : ℕ) → Follows done (get_localisations n position) (skip_localisations n)
unfolding get_localisations skip_localisations
skip_localisations-Follows zero position = λ r. refl
skip_localisations-Follows (suc n) position = same-Follows done get_s_int_lat _ _ (λ z.
    same-Follows done get_int1 _ _ (λ l.
      last-Follows done done (get_localisations n (plus32 position z)) (skip_localisations n)
        (λ others. (others.0, record { position = plus32 position z; length = l } ∷ others.1))
        (λ a. refl) (skip_localisations-Follows n (plus32 position z))))

unfoldable skip_term : Read (Unit {0})
skip_term = do
  get_s_int_lat
  get_int1
  nbre_localisations ← get_int1
  skip_localisations nbre_localisations

skip_term-Follows : (ident position : ℕ) → Follows done (get_term ident position) skip_term
unfolding get_term skip_term
skip_term-Follows ident position = same-Follows done get_s_int_lat _ _ (λ z.
    same-Follows done get_int1 _ _ (λ c. same-Follows done get_int1 _ _ (λ n.
      last-Follows done done (get_localisations n position) (skip_localisations n)
        (λ found. (found.0, record { term = plus32 ident z; cg = c; localisation = found.1 }))
        (λ a. refl) (skip_localisations-Follows n position))))

assoc_at :
    {A B C : Type 0} (f : A → Read B) (g : B → Read C) (x : Result A) (s : ReadBuffer)
    → continue (continue x f s).0 g (continue x f s).1 ≡ continue x (λ a. f a >>= g) s
assoc_at f g (ok a) s = refl
assoc_at f g (err e) s = refl

assoc :
    {A B C : Type 0} (m : Read A) (f : A → Read B) (g : B → Read C)
    → ((m >>= f) >>= g) ≡ (m >>= λ a. f a >>= g)
assoc m f g = λ i r. assoc_at f g (m r).0 (m r).1 i

skip_term_then :
    (rest : Read ℕ)
    → (skip_term >>= λ _. rest) ≡ (do
      get_s_int_lat
      get_int1
      nbre_localisations ← get_int1
      skip_localisations nbre_localisations
      rest)
unfolding skip_term
skip_term_then rest = assoc get_s_int_lat _ (λ _. rest) ∙ (λ i. get_s_int_lat >>= λ _.
    (assoc get_int1 (λ _. get_int1 >>= skip_localisations) (λ _. rest)
        ∙ (λ j. get_int1 >>= λ _. assoc get_int1 skip_localisations (λ _. rest) j))
      i)

unfoldable counted : ℕ → List Term → ℕ
counted n ts = (n + length ts) % 2 ^ 32

-- One round of both loops, with what follows it.
round-Follows :
    (fuel n ident position : ℕ)
    → ((ident position : ℕ)
        → Follows
            (counted ((n + 1) % 2 ^ 32))
            (get_terms fuel ident position)
            (count_terms fuel ((n + 1) % 2 ^ 32)))
    → Follows
        (counted n)
        (do
          found ← get_term ident position
          others ← get_terms fuel (found.1.term) (found.0)
          pure (found.1 ∷ others))
        (do
          get_s_int_lat
          get_int1
          nbre_localisations ← get_int1
          skip_localisations nbre_localisations
          count_terms fuel ((n + 1) % 2 ^ 32))
unfolding counted
round-Follows fuel n ident position h r =
    ap (λ m. m r) (sym (skip_term_then (count_terms fuel ((n + 1) % 2 ^ 32))))
    ∙ bind-Follows done (counted n) (get_term ident position) skip_term
        (λ found. get_terms fuel (found.1.term) (found.0) >>= λ others. pure (found.1 ∷ others))
        (λ _. count_terms fuel ((n + 1) % 2 ^ 32)) (skip_term-Follows ident position)
        (λ found.
          last-Follows (counted ((n + 1) % 2 ^ 32)) (counted n)
            (get_terms fuel (found.1.term) (found.0)) (count_terms fuel ((n + 1) % 2 ^ 32))
            (λ others. found.1 ∷ others) (λ others. omega arith) (h (found.1.term) (found.0)))
        r

count_terms-Follows :
    (fuel n ident position : ℕ)
    → n < 2 ^ 32
    → Follows (counted n) (get_terms fuel ident position) (count_terms fuel n)
unfolding get_terms count_terms counted
count_terms-Follows zero n ident position small r = elim (Bool-cases (end_of_in_buffer r)) [
  | inl at_end ↦ rw at_end (ap (λ (k : ℕ). (ok k, r)) (omega arith))
  | inr before ↦ rw before refl
]
count_terms-Follows (suc fuel) n ident position small r = elim (Bool-cases (end_of_in_buffer r)) [
  | inl at_end ↦ rw (at_end, get_terms, count_terms) (ap (λ (k : ℕ). (ok k, r)) (omega arith))
  | inr before ↦
      rw (before, get_terms, count_terms)
        (round-Follows fuel n ident position
          (λ ident position.
            count_terms-Follows fuel ((n + 1) % 2 ^ 32) ident position (omega arith))
          r)
]

from_zero : (ts : List Term) → counted 0 ts ≡ length ts % 2 ^ 32
unfolding counted
from_zero ts = omega arith

-- On any bytes, also where it throws, getLocalLength counts the terms that getLocalDef decodes, modulo
-- 2 ^ 32, and leaves the buffer where decoding leaves it.
pub count_donnejes-get_donnejes :
    (r : ReadBuffer)
    → count_donnejes r ≡ (through (λ ts. length ts % 2 ^ 32) (get_donnejes r).0, (get_donnejes r).1)
unfolding count_donnejes get_donnejes counted
count_donnejes-get_donnejes r =
    count_terms-Follows (r.end - r.ptr) 0 0 0 (omega arith) r
    ∙ ap
        (λ (h : List Term → ℕ).
          (through h (get_terms (r.end - r.ptr) 0 0 r).0, (get_terms (r.end - r.ptr) 0 0 r).1))
        (λ i ts. from_zero ts i)
