-- ===== src/Prelude/Exec.antt =====
-- Operations that change an object and may throw. What was changed before an exception stays
-- changed, so the state comes back beside the exception too. The exceptions are those of
-- src/cpp/NindExceptions.h; `undefined` and `endless` are none of them: an access outside the
-- object's memory, and a loop that was cut off.
use mathlib.Core.Bool.{Bool, true, false}

pub data Error : Type 0 where
  eof format_file incompatible_file invalid_file open_file read_file seek_file write_file : Error
  out_read_buffer out_write_buffer bad_alloc out_of_bound bad_use : Error
  nind_pad_file nind_index nind_lexicon nind_local_index nind_term_index decode_error integrity :
      Error
  undefined endless : Error

pub data Result {ℓ} (A : Type ℓ) : Type ℓ where
  ok : A → Result A
  err : Error → Result A

abbrev pub Exec : Type 0 → Type 0 → Type 0
Exec S A = S → Result A × S

module _ {S A : Type 0} where
  abbrev pub pure : A → Exec S A
  pure a s = (ok a, s)

  abbrev pub throw : Error → Exec S A
  throw e s = (err e, s)

  abbrev pub gets : (S → A) → Exec S A
  gets f s = (ok (f s), s)

abbrev pub when_true : {S : Type 0} → Bool → Error → Exec S (Unit {0})
when_true true e s = (err e, s)
when_true false e s = (ok tt, s)

module _ {S A B : Type 0} where
  abbrev pub continue : Result A → (A → Exec S B) → Exec S B
  continue (ok a) f s = f a s
  continue (err e) f s = (err e, s)

  infixl 5 ◌>>=◌ ◌>>◌
  abbrev pub ◌>>=◌ : Exec S A → (A → Exec S B) → Exec S B
  ◌>>=◌ m f s = let (r, s') = m s in continue r f s'

  abbrev pub ◌>>◌ : Exec S A → Exec S B → Exec S B
  m >> n = m >>= λ _. n
