-- ===== src/DocIdMap/Keeps.antt =====
-- The well-formedness of the tables that `set` and `erase` make.
use nind.Prelude.{
  ℕ, zero, suc, ◌+◌, ◌-◌, ◌<◌, ◌≤◌, ◌≡◌, ◌≢◌, ap, ap₂, subst, sym, ◌∙◌, List, [], ◌∷◌, ◌++◌, length,
  length-append, length-set, get_or, set, false, Option, none, some, ◌==◌, if◌then◌else◌, arith,
}
use nind.Prelude.Map.{nat_eq, find}
use nind.Prelude.Ordered.{Sorted}
use nind.DocIdMap.{DocIdMap, ident_at, last_flat, append_flat, flat_position}
use nind.DocIdMap.Invariant.{IsDocIdMap, nonzeros, flat_position_complete}
use nind.DocIdMap.Append.{
  IsLast, append_flat-internals, append_flat-others, append_flat-count, append_flat-idents_length,
  ident_at-append_flat,
}
use nind.DocIdMap.Find.{replaced, with_others}

-- How many elements are not erased, where `one v` of them is `v`.
unfoldable pub one : ℕ → ℕ
one v = if v == 0 then 0 else 1

one_pos : (v : ℕ) → v ≢ 0 → one v ≡ 1
unfolding one
one_pos v h = ground arith

nonzeros-append : (xs : List ℕ) (v : ℕ) → nonzeros (xs ++ (v ∷ [])) ≡ nonzeros xs + one v
unfolding nonzeros one
nonzeros-append [] v = ground arith
nonzeros-append (x ∷ xs) v = ground (arith, nonzeros-append xs v)

pub nonzeros-set :
    (xs : List ℕ) (p v : ℕ)
    → p < length xs
    → nonzeros (set xs p v) + one (get_or xs p 0) ≡ nonzeros xs + one v
unfolding nonzeros one
nonzeros-set [] p v lt = absurd (omega arith)
nonzeros-set (x ∷ xs) zero v lt = ground arith
nonzeros-set (x ∷ xs) (suc p) v lt = ground (arith, nonzeros-set xs p v)

module _ (m : DocIdMap) (h : IsDocIdMap m) (i : ℕ) where
  pub replaced-IsDocIdMap :
      (p v n : ℕ)
      → p < length m.internals
      → n + one (get_or m.internals p 0) ≡ m.count + one v
      → IsDocIdMap (replaced p v n m)
  unfolding ident_at
  replaced-IsDocIdMap p v n lt counts = record {
    idents_length = λ c. h.idents_length c ∙ sym (length-set m.internals p v);
    increasing = λ a b ab hb. h.increasing a b ab (ground (arith, length-set m.internals p v));
    apart = λ a ha. h.apart a (ground (arith, length-set m.internals p v));
    others_sorted = h.others_sorted;
    others_internal = h.others_internal;
    counted = ground (arith, h.counted, nonzeros-set m.internals p v lt);
  }

  -- Where the identifier is in no flat array, its entry in the others is free to change.
  pub not_flat : flat_position m i ≡ none → (p : ℕ) → p < length m.internals → ident_at m p ≢ i
  not_flat e p lt same = absurd (cc (flat_position_complete m h i p lt same))

  pub with_others-IsDocIdMap :
      (others : List (ℕ × ℕ)) (n : ℕ) (new : Option ℕ)
      → flat_position m i ≡ none
      → Sorted others
      → ((j : ℕ) → find j others ≡ (if i == j then new else find j m.others))
      → ((v : ℕ) → new ≡ some v → v ≢ 0)
      → n + length m.others ≡ m.count + length others
      → IsDocIdMap (with_others others n m)
  unfolding ident_at
  with_others-IsDocIdMap others n new e sorted changed internal counts = record {
    idents_length = h.idents_length;
    increasing = h.increasing;
    apart = λ a ha. ground (arith, changed (ident_at m a), not_flat e a ha, h.apart a ha);
    others_sorted = sorted;
    others_internal = λ j v found. ground (arith, changed j, internal v, h.others_internal j v);
    counted = ground (arith, h.counted);
  }

  unfoldable pub grown : DocIdMap
  grown = record m { count = m.count + 1 }

  grown-IsLast : IsLast m i → IsLast grown i
  unfolding last_flat grown
  grown-IsLast last = last

  last_flat_lem : 0 < length m.internals → last_flat m ≡ ident_at m (length m.internals - 1)
  unfolding last_flat ident_at
  last_flat_lem pos = ground (arith, h.idents_length)

  pub before_last : IsLast m i → (p : ℕ) → p < length m.internals → ident_at m p < i
  before_last last p lt =
      ground (arith, last, last_flat_lem (omega arith), h.increasing p (length m.internals - 1))

  module _ (v : ℕ) (last : IsLast m i) where
    unfoldable pub appended : DocIdMap
    appended = append_flat i v grown

    pub appended-internals : appended.internals ≡ m.internals ++ (v ∷ [])
    unfolding appended grown
    appended-internals = append_flat-internals i v grown h.idents_length (grown-IsLast last)

    pub appended-length : length appended.internals ≡ suc (length m.internals)
    appended-length =
        ap length appended-internals ∙ omega (arith, length-append m.internals (v ∷ []))

    pub appended-others : appended.others ≡ m.others
    unfolding appended grown
    appended-others = append_flat-others i v grown h.idents_length (grown-IsLast last)

    appended-count : appended.count ≡ m.count + 1
    unfolding appended grown
    appended-count = append_flat-count i v grown h.idents_length (grown-IsLast last)

    pub appended-ident_at :
        (p : ℕ)
        → p ≤ length m.internals
        → ident_at appended p ≡ (if p == length m.internals then i else ident_at m p)
    unfolding appended grown ident_at
    appended-ident_at p le = ident_at-append_flat i v grown h.idents_length (grown-IsLast last) p le

    appended-idents_length :
        appended.consecutive ≡ false → length appended.idents ≡ length appended.internals
    unfolding appended grown
    appended-idents_length c =
        append_flat-idents_length i v grown h.idents_length (grown-IsLast last) c
        ∙ sym appended-length

    pub appended-IsDocIdMap : v ≢ 0 → find i m.others ≡ none → IsDocIdMap appended
    appended-IsDocIdMap pos unknown = record {
      idents_length = appended-idents_length;
      increasing = λ a b ab hb. ground (
        arith,
        appended-length,
        appended-ident_at a,
        appended-ident_at b,
        h.increasing a b ab,
        before_last last a,
      );
      apart =
          λ a ha. ground (arith, appended-length, appended-ident_at a, appended-others, h.apart a);
      others_sorted = subst Sorted (sym appended-others) h.others_sorted;
      others_internal = λ j w e. h.others_internal j w (ap (find j) (sym appended-others) ∙ e);
      counted =
          appended-count
          ∙ omega (arith, h.counted, nonzeros-append m.internals v, one_pos v pos)
          ∙ ap₂ (λ xs ys. nonzeros xs + length ys) (sym appended-internals) (sym appended-others);
    }
