-- ===== src/DocIdMap/Branches.antt =====
-- The tables that `set` and `erase` leave, in each branch.
use nind.Prelude.{
  ℕ, ◌+◌, ◌-◌, ◌≡◌, refl, length, get_or, true, false, ◌||◌, none, some, ltb, ◌==◌, if◌then◌else◌,
}
use nind.Prelude.Map.{nat_eq, find}
use nind.Prelude.Ordered.{insert_ordered, erase_key}
use nind.DocIdMap.{
  DocIdMap, last_flat, append_flat, flat_position, set_doc, set_other, erase_doc, found_count,
}
use nind.DocIdMap.Find.{replaced, with_others}

module _ (m : DocIdMap) (i v : ℕ) where
  unfoldable pub bumped : ℕ → ℕ
  bumped p = if get_or m.internals p 0 == 0 then m.count + 1 else m.count

  unfoldable pub lowered : ℕ → ℕ
  lowered p = if get_or m.internals p 0 == 0 then m.count else m.count - 1

  pub set_flat : (p : ℕ) → flat_position m i ≡ some p → set_doc i v m ≡ replaced p v (bumped p) m
  unfolding set_doc bumped
  set_flat p e = rw (e, set_doc) refl

  pub set_known :
      (old : ℕ)
      → flat_position m i ≡ none
      → find i m.others ≡ some old
      → set_doc i v m ≡ with_others (insert_ordered i v m.others) m.count m
  unfolding set_doc set_other
  set_known old off e = rw (off, e, set_doc) refl

  pub set_last :
      flat_position m i ≡ none
      → find i m.others ≡ none
      → (length m.internals == 0 || ltb (last_flat m) i) ≡ true
      → set_doc i v m ≡ append_flat i v (record m { count = m.count + 1 })
  unfolding set_doc set_other
  set_last off e last = rw (off, e, set_doc) (rw last refl)

  pub set_between :
      flat_position m i ≡ none
      → find i m.others ≡ none
      → (length m.internals == 0 || ltb (last_flat m) i) ≡ false
      → set_doc i v m ≡ with_others (insert_ordered i v m.others) (m.count + 1) m
  unfolding set_doc set_other
  set_between off e last = rw (off, e, set_doc) (rw last refl)

  pub erase_flat : (p : ℕ) → flat_position m i ≡ some p → erase_doc i m ≡ replaced p 0 (lowered p) m
  unfolding erase_doc lowered
  erase_flat p e = rw (e, erase_doc) refl

  pub erase_other :
      flat_position m i ≡ none
      → erase_doc i m
        ≡ with_others (erase_key i m.others) (m.count - found_count (find i m.others)) m
  unfolding erase_doc
  erase_other off = rw (off, erase_doc) refl
