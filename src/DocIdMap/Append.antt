-- ===== src/DocIdMap/Append.antt =====
-- `appendFlat`: what stands at each position afterwards, in each of its four cases.
use nind.Prelude.{
  ℕ, zero, suc, ◌+◌, ◌<◌, ◌≤◌, ◌≡◌, refl, ap, ◌⊎◌, List, [], ◌∷◌, ◌++◌, length, length-append,
  get_or, false, ◌==◌, if◌then◌else◌, arith,
}
use nind.Prelude.Map.{nat_eq}
use nind.DocIdMap.{DocIdMap, ident_at, last_flat, numbered, prepare_append, push_back, append_flat}

length-numbered : (n s : ℕ) → length (numbered s n) ≡ n
unfolding numbered
length-numbered zero s = refl
length-numbered (suc n) s = ap suc (length-numbered n (s + 1))

get_or-numbered : (n s p : ℕ) → p < n → get_or (numbered s n) p 0 ≡ s + p
unfolding numbered
get_or-numbered zero s p lt = absurd (omega arith)
get_or-numbered (suc n) s zero lt = omega arith
get_or-numbered (suc n) s (suc p) lt = omega (arith, get_or-numbered n (s + 1) p (omega arith))

pub get_or-append :
    (xs : List ℕ) (x p : ℕ)
    → get_or (xs ++ (x ∷ [])) p 0 ≡ (if p == length xs then x else get_or xs p 0)
get_or-append [] x zero = refl
get_or-append [] x (suc p) = ground arith
get_or-append (y ∷ ys) x zero = ground arith
get_or-append (y ∷ ys) x (suc p) = ground (arith, get_or-append ys x p)

-- An identifier after the last flat one.
abbrev pub IsLast : DocIdMap → ℕ → Type 0
IsLast m i = (length m.internals ≡ 0) ⊎ (last_flat m < i)

module _ (i v : ℕ) (m : DocIdMap)
    (same_length : m.consecutive ≡ false → length m.idents ≡ length m.internals)
    (last : IsLast m i) where
  pub append_flat-internals : (append_flat i v m).internals ≡ m.internals ++ (v ∷ [])
  unfolding append_flat push_back prepare_append
  append_flat-internals = ground arith

  pub append_flat-others : (append_flat i v m).others ≡ m.others
  unfolding append_flat push_back prepare_append
  append_flat-others = ground arith

  pub append_flat-count : (append_flat i v m).count ≡ m.count
  unfolding append_flat push_back prepare_append
  append_flat-count = ground arith

  pub append_flat-idents_length :
      (append_flat i v m).consecutive ≡ false
      → length (append_flat i v m).idents ≡ suc (length m.internals)
  unfolding append_flat push_back prepare_append
  append_flat-idents_length c = ground (
    arith,
    same_length,
    length-append m.idents (i ∷ []),
    length-append (numbered m.first (length m.internals)) (i ∷ []),
    length-numbered (length m.internals) m.first,
  )

  -- The arrays have the new identifier behind those they had.
  pub ident_at-append_flat :
      (p : ℕ)
      → p ≤ length m.internals
      → ident_at (append_flat i v m) p ≡ (if p == length m.internals then i else ident_at m p)
  unfolding append_flat push_back prepare_append ident_at last_flat
  ident_at-append_flat p le = ground (
    arith,
    same_length,
    last,
    get_or-append m.idents i p,
    get_or-append (numbered m.first (length m.internals)) i p,
    length-numbered (length m.internals) m.first,
    get_or-numbered (length m.internals) m.first p,
  )
