-- ===== src/Lexicon.antt =====
-- src/cpp/NindLexicon/NindLexicon.cpp: the lexicon of words in memory.
-- A simple word is its bytes; a word is the list of its components. m_lexiconSW and m_lexiconCW
-- are maps to identifiers. What is written for a new word goes to a store (NindLexiconFile), which
-- the lexicon knows by its interface. `clock` gives the time at which the word of an identifier is
-- created. Identifiers are `unsigned int`.
pub mod Invariant
pub mod Words
pub mod Denote
pub mod Simple
pub mod Compound
pub mod Add
use nind.Prelude.{
  ℕ, ◌+◌, ◌%◌, ◌^◌, List, [], ◌∷◌, Bool, true, false, Option, none, some, ◌==◌, if◌then◌else◌, not,
}
use nind.Prelude.Exec.{
  Exec, Result, ok, err, Error, pure, throw, bad_use, nind_lexicon, ◌>>=◌, ◌>>◌,
}
use nind.Prelude.Map.{Map, find, insert, nat_eq, list_eq, pair_eq}

abbrev pub SimpleWord : Type 0
SimpleWord = List ℕ

-- The operations of NindLexiconFile that the lexicon calls when it makes a word.
pub record WordStore : Type 1 where
  pub State : Type 0
  pub write_simple_word_definition : ℕ → SimpleWord → ℕ → ℕ → Exec State (Unit {0})
  pub write_compound_word_definition : ℕ → ℕ × ℕ → ℕ → ℕ → Exec State (Unit {0})

pub record Lexicon (State : Type 0) : Type 0 where
  pub is_writer : Bool
  pub current_id : ℕ
  pub identification : ℕ
  pub simple : Map SimpleWord ℕ
  pub compound : Map (ℕ × ℕ) ℕ
  pub store : State

-- `++m_currentId`
abbrev pub next_id : ℕ → ℕ
next_id n = (n + 1) % 2 ^ 32

-- The identifier of `sub`, the components before, followed by one more; `sub` is 0 at the start.
unfoldable pub sub_lookup : {State : Type 0} → Lexicon State → ℕ → ℕ → Option ℕ
sub_lookup l sub simple_id = if sub == 0 then some simple_id else find (sub, simple_id) l.compound

-- The loop of `getId`.
unfoldable pub lookup_loop : {State : Type 0} → Lexicon State → List SimpleWord → ℕ → ℕ
unfolding sub_lookup
lookup_loop l [] sub = sub
lookup_loop l (word ∷ words) sub = elim (find word l.simple) [
  | none ↦ 0
  | some simple_id ↦ elim (sub_lookup l sub simple_id) [
    | none ↦ 0
    | some id ↦ lookup_loop l words id
  ]
]

-- `getId` of a lexicon that has no update of its file to read.
unfoldable pub lookup_id : {State : Type 0} → Lexicon State → List SimpleWord → ℕ
lookup_id l components = lookup_loop l components 0

unfoldable pub get_identification : {State : Type 0} → Lexicon State → ℕ × ℕ
get_identification l = (l.current_id, l.identification)

-- `catch (FileException &) { throw NindLexiconException }`
abbrev pub rethrown : {A S : Type 0} → Result A × S → Result A × S
rethrown (ok a, s) = (ok a, s)
rethrown (err e, s) = (err nind_lexicon, s)

module _ (f : WordStore) (clock : ℕ → ℕ) where
  open f use {State, write_simple_word_definition, write_compound_word_definition}

  -- A call of the store.
  unfoldable pub stored : Exec State (Unit {0}) → Exec (Lexicon State) (Unit {0})
  stored m l = let (r, s) = m l.store in (r, record l { store = s })

  -- A new simple word: in memory first, then in the store.
  unfoldable pub new_simple : SimpleWord → Exec (Lexicon State) ℕ
  new_simple word l =
      let id = next_id l.current_id in
      (do stored (write_simple_word_definition id word id (clock id)); pure id)
        (record l { current_id = id; simple = insert word id l.simple; identification = clock id })

  unfoldable pub new_compound : ℕ × ℕ → Exec (Lexicon State) ℕ
  new_compound pair l =
      let id = next_id l.current_id in
      (do stored (write_compound_word_definition id pair id (clock id)); pure id)
        (record l {
          current_id = id;
          compound = insert pair id l.compound;
          identification = clock id;
        })

  -- The identifier of a simple word, with the flag isNew as it is afterwards.
  unfoldable pub simple_word_id : SimpleWord → Bool → Exec (Lexicon State) (ℕ × Bool)
  simple_word_id word is_new l = elim (find word l.simple) [
    | some id ↦ (ok (id, is_new), l)
    | none ↦ (do id ← new_simple word; pure (id, true)) l
  ]

  -- The identifier of the components so far. Where one of them is new, the compound is too, and it
  -- is not looked for.
  unfoldable pub sub_word_id : ℕ → ℕ → Bool → Exec (Lexicon State) (ℕ × Bool)
  sub_word_id sub simple_id is_new l =
      if sub == 0
      then (ok (simple_id, is_new), l)
      else if is_new
      then (do id ← new_compound (sub, simple_id); pure (id, true)) l
      else elim (find (sub, simple_id) l.compound) [
        | some id ↦ (ok (id, false), l)
        | none ↦ (do id ← new_compound (sub, simple_id); pure (id, true)) l
      ]

  unfoldable pub add_loop : List SimpleWord → ℕ → Bool → Exec (Lexicon State) ℕ
  add_loop [] sub is_new = pure sub
  add_loop (word ∷ words) sub is_new = do
    (simple_id, new1) ← simple_word_id word is_new
    (sub', new2) ← sub_word_id sub simple_id new1
    add_loop words sub' new2

  -- Every exception leaves as a NindLexiconException.
  unfoldable pub add_word : List SimpleWord → Exec (Lexicon State) ℕ
  add_word components l =
      if not l.is_writer then (err nind_lexicon, l) else rethrown (add_loop components 0 false l)
