-- ===== src/DocIdMap/Merge.antt =====
-- The merge that `forEach` makes of the flat arrays with the map of the others, on lists in order.
use nind.Prelude.{
  ℕ, suc, ◌+◌, ◌≡◌, refl, [], ◌∷◌, ◌++◌, length, length-append, Option, none, some, ◌==◌,
  if◌then◌else◌, arith, ◌⊎◌, inl, inr, Option-cases,
}
use nind.Prelude.Map.{Map, nat_eq, find}
use nind.Prelude.Ordered.{After, Sorted, find-After}
use nind.Prelude.Merge.{
  AtLeast, or_else, before, from, find-append, After→AtLeast, find-before, find-from, from-Sorted,
  from-After, After-from, length-before-from, After-before_append, before_append-Sorted,
}

-- Two lists in order, merged; of the first, the entries of 0 are left out.
unfoldable pub merge_nonzero : Map ℕ ℕ → Map ℕ ℕ → Map ℕ ℕ
merge_nonzero [] other = other
merge_nonzero ((k, v) ∷ entries) other =
    before k other ++ ((if v == 0 then [] else (k, v) ∷ []) ++ merge_nonzero entries (from k other))

-- What an entry of the first list counts for.
abbrev pub nonzero : ℕ → Option ℕ
nonzero v = if v == 0 then none else some v

unfoldable pub nonzero_entries : Map ℕ ℕ → ℕ
nonzero_entries [] = 0
nonzero_entries ((k, v) ∷ entries) =
    let rest = nonzero_entries entries in if v == 0 then rest else suc rest

abbrev pub Disjoint : Map ℕ ℕ → Map ℕ ℕ → Type 0
Disjoint entries other = (j v : ℕ) → find j entries ≡ some v → find j other ≡ none

abbrev pub merged : Option ℕ → Option ℕ → Option ℕ
merged none o = o
merged (some v) o = nonzero v

After-merge_nonzero :
    (l : ℕ) (entries other : Map ℕ ℕ)
    → After l entries
    → After l other
    → After l (merge_nonzero entries other)
unfolding merge_nonzero
After-merge_nonzero l [] other h ho = ho
After-merge_nonzero l ((k, v) ∷ entries) other (h, hs) ho =
    After-before_append l k other _ ho
      (ground (arith, After-merge_nonzero l entries (from k other) hs (After-from l k other ho)))

pub length-merge_nonzero :
    (entries other : Map ℕ ℕ)
    → length (merge_nonzero entries other) ≡ nonzero_entries entries + length other
unfolding merge_nonzero nonzero_entries
length-merge_nonzero [] other = omega arith
length-merge_nonzero ((k, v) ∷ entries) other = ground (
  arith,
  length-append (before k other)
      ((if v == 0 then [] else (k, v) ∷ []) ++ merge_nonzero entries (from k other)),
  length-before-from k other,
  length-merge_nonzero entries (from k other),
)

either_none :
    (entries other : Map ℕ ℕ)
    → Disjoint entries other
    → (j : ℕ) → (find j entries ≡ none) ⊎ (find j other ≡ none)
either_none entries other d j = elim (Option-cases (find j entries)) [
  | inl e ↦ inl e
  | inr (v, e) ↦ inr (d j v e)
]

module _ (k v : ℕ) (entries other : Map ℕ ℕ) (disjoint : Disjoint ((k, v) ∷ entries) other) where
  Disjoint-head : find k other ≡ none
  unfolding find
  Disjoint-head = disjoint k v (ground arith)

  Disjoint-rest : After k entries → Disjoint entries other
  unfolding find
  Disjoint-rest h j w e = disjoint j w (ground (arith, find-After k entries h))

  Disjoint-tail : After k entries → Sorted other → Disjoint entries (from k other)
  unfolding find
  Disjoint-tail h so j w e =
      ground (arith, find-from k j other so, disjoint j w, find-After k entries h)

-- One entry, left out where it is 0, before entries after it.
abbrev kept : ℕ → ℕ → Map ℕ ℕ → Map ℕ ℕ
kept k v rest = (if v == 0 then [] else (k, v) ∷ []) ++ rest

kept-AtLeast : (k v : ℕ) (rest : Map ℕ ℕ) → After k rest → AtLeast k (kept k v rest)
kept-AtLeast k v rest h = ground (arith, After→AtLeast k k rest)

kept-Sorted : (k v : ℕ) (rest : Map ℕ ℕ) → After k rest → Sorted rest → Sorted (kept k v rest)
kept-Sorted k v rest h s = ground arith

find-kept :
    (k v j : ℕ) (rest : Map ℕ ℕ)
    → find j (kept k v rest) ≡ or_else (if k == j then nonzero v else none) (find j rest)
unfolding find
find-kept k v j rest = ground arith

pub merge_nonzero-Sorted :
    (entries other : Map ℕ ℕ)
    → Sorted entries
    → Sorted other
    → Disjoint entries other
    → Sorted (merge_nonzero entries other)
unfolding merge_nonzero
merge_nonzero-Sorted [] other h ho d = ho
merge_nonzero-Sorted ((k, v) ∷ entries) other (h, hs) ho d =
    before_append-Sorted k other _ ho (kept-AtLeast k v _ behind) (
      kept-Sorted k v _ behind (
        merge_nonzero-Sorted entries (from k other) hs (from-Sorted k other ho)
          (Disjoint-tail k v entries other d h ho)))
  where
    behind : After k (merge_nonzero entries (from k other))
    behind =
        After-merge_nonzero k entries (from k other) h
          (from-After k other ho (Disjoint-head k v entries other d))

pub find-merge_nonzero :
    (entries other : Map ℕ ℕ) (j : ℕ)
    → Sorted entries
    → Sorted other
    → Disjoint entries other
    → find j (merge_nonzero entries other) ≡ merged (find j entries) (find j other)
unfolding merge_nonzero find
find-merge_nonzero [] other j h ho d = refl
find-merge_nonzero ((k, v) ∷ entries) other j (h, hs) ho d = ground (
  arith,
  find-append j (before k other) (kept k v (merge_nonzero entries (from k other))),
  find-before k j other ho,
  find-kept k v j (merge_nonzero entries (from k other)),
  find-merge_nonzero entries (from k other) j hs (from-Sorted k other ho)
      (Disjoint-tail k v entries other d h ho),
  find-from k j other ho,
  find-After k entries h,
  Disjoint-head k v entries other d,
  either_none entries other (Disjoint-rest k v entries other d h) j,
)
