-- ===== src/PadFile/Chain/Walk.antt =====
-- src/cpp/NindBasics/NindPadFile.cpp: the rounds of `mapEntriesBlocks` together.
use nind.Prelude.{
  ℕ, zero, suc, ◌+◌, ◌-◌, ◌≤◌, ◌≡◌, ◌≢◌, refl, ap, ◌∙◌, inl, inr, length, some, ◌==◌, arith,
  Bool-cases,
}
use nind.Prelude.Exec.{Result, ok, err, Error, continue, endless}
use nind.File.{set_pos, displaced, base}
use nind.PadFile.{
  Allocator, PadFile, Pad, on_file, go_to, block_header_size, publish_entries_map,
  get_specifics_and_identification_size, taille_entete_fixe,
}
use nind.PadFile.Reading.{map_block, map_blocks, clear_map, map_entries_blocks}
use nind.PadFile.Positions.{Chained, Chained-snoc}
use nind.PadFile.Chain.{
  Result-cases, SameLayout, Pushed, map_block-SameLayout, map_block-ends, map_block-Pushed,
}

SameLayout-trans : (s t u : PadFile) → SameLayout s t → SameLayout t u → SameLayout s u
SameLayout-trans s t u h k = record {
  content_same = k.content_same ∙ h.content_same;
  specifics_same = k.specifics_same ∙ h.specifics_same;
  entry_same = k.entry_same ∙ h.entry_same;
  addr_same = k.addr_same ∙ h.addr_same;
}

-- Where the blocks may end: the head of the specifics.
unfoldable pub tail_start : PadFile → ℕ
tail_start s = length s.file.content - get_specifics_and_identification_size s

-- The end of a walk over the blocks.
record Walk (s : PadFile) (from : ℕ) (r : Result (Unit {0})) (t : PadFile) : Type 0 where
  layout : SameLayout s t
  walk_ends : r ≢ err endless
  mapped : r ≡ ok tt → Chained s.data_entry_size t.entries_blocks_map from (tail_start s)

-- The same walk, from the state after a round.
Walk-before :
    (s t : PadFile) (from : ℕ) (r : Result (Unit {0})) (u : PadFile)
    → SameLayout s t
    → Walk t from r u
    → Walk s from r u
unfolding tail_start get_specifics_and_identification_size
Walk-before s t from r u same w = record {
  layout = SameLayout-trans s t u same w.layout;
  walk_ends = w.walk_ends;
  mapped = λ e. rw (← same.entry_same, ← same.content_same, ← same.specifics_same) (w.mapped e);
}

-- The state as a walk finds it at the address of a block.
record Ready (s : PadFile) (from : ℕ) : Type 0 where
  so_far :
      Chained s.data_entry_size s.entries_blocks_map from (s.file.position + block_header_size s)

module _ (t : PadFile) (next_addr : ℕ) where
  -- The file moved to the next block.
  moved : PadFile
  moved = (on_file (go_to next_addr) t).1

  moved-SameLayout : (s : PadFile) → SameLayout s t → SameLayout s moved
  unfolding moved on_file go_to set_pos displaced base
  moved-SameLayout s same = record {
    content_same = same.content_same;
    specifics_same = same.specifics_same;
    entry_same = same.entry_same;
    addr_same = same.addr_same;
  }

  moved-position : moved.file.position ≡ next_addr
  unfolding moved on_file go_to set_pos displaced base
  moved-position = omega arith

module _ (s t : PadFile) (next_addr from : ℕ) (same : SameLayout s t) (ready : Ready s from)
    (p : Pushed s t next_addr) where
  Chained-last : Chained s.data_entry_size t.entries_blocks_map from (tail_start s)
  unfolding tail_start
  Chained-last = rw p.map_after (
      Chained-snoc s.data_entry_size s.entries_blocks_map from _ _ p.entries_nb _ ready.so_far
        (omega arith) (omega (arith, p.block_inside)))

  moved-Ready : next_addr ≢ 0 → Ready (moved t next_addr) from
  unfolding moved on_file go_to set_pos displaced base block_header_size
  moved-Ready more = record {
    so_far =
        rw (p.map_after, same.entry_same, same.addr_same)
          (Chained-snoc s.data_entry_size s.entries_blocks_map from _ _ p.entries_nb _ ready.so_far
            (omega arith) (omega (arith, (p.next_after more).0)));
  }

module _ (al : Allocator) (fuel : ℕ) (s : PadFile) where
  map_blocks-throws :
      (e : Error)
      → (map_block al s).0 ≡ err e
      → map_blocks al (suc fuel) s ≡ (err e, (map_block al s).1)
  unfolding map_blocks
  map_blocks-throws e eq = ground arith

  map_blocks-last :
      (next_addr : ℕ)
      → (map_block al s).0 ≡ ok next_addr
      → next_addr ≡ 0
      → map_blocks al (suc fuel) s ≡ (ok tt, (map_block al s).1)
  unfolding map_blocks
  map_blocks-last next_addr eq last = ground arith

  map_blocks-more :
      (next_addr : ℕ)
      → (map_block al s).0 ≡ ok next_addr
      → next_addr ≢ 0
      → map_blocks al (suc fuel) s ≡ map_blocks al fuel (moved (map_block al s).1 next_addr)
  unfolding map_blocks moved on_file go_to
  map_blocks-more next_addr eq more = ground arith

module _ (al : Allocator) (from fuel : ℕ) (s : PadFile) (ready : Ready s from) where
  -- A round, and the walk from the block that it moves to.
  step_on :
      ((next_addr : ℕ)
        → Pushed s (map_block al s).1 next_addr
        → next_addr ≢ 0
        → Ready (moved (map_block al s).1 next_addr) from
        → Walk
            (moved (map_block al s).1 next_addr)
            from
            (map_blocks al fuel (moved (map_block al s).1 next_addr)).0
            (map_blocks al fuel (moved (map_block al s).1 next_addr)).1)
      → Walk s from (map_blocks al (suc fuel) s).0 (map_blocks al (suc fuel) s).1
  step_on rest =
      let same = map_block-SameLayout al s in
      elim (Result-cases (map_block al s).0) [
        | inr (e, eq) ↦ rw (map_blocks-throws al fuel s e eq) (record {
          layout = same;
          walk_ends = λ h. map_block-ends al s (ground (arith, eq, h));
          mapped = λ h. absurd (ground arith);
        })
        | inl (next_addr, eq) ↦
            let p = map_block-Pushed al s next_addr eq in
            elim (Bool-cases (next_addr == 0)) [
              | inl last ↦ rw (map_blocks-last al fuel s next_addr eq (ground arith)) (record {
                layout = same;
                walk_ends = ground arith;
                mapped = λ _. Chained-last s (map_block al s).1 next_addr from same ready p;
              })
              | inr more ↦
                  let pos : next_addr ≢ 0 = ground arith in
                  rw (map_blocks-more al fuel s next_addr eq pos) (
                    Walk-before s _ from _ _ (moved-SameLayout _ next_addr s same) (
                      rest next_addr p pos
                        (moved-Ready s (map_block al s).1 next_addr from same ready p pos)))
            ]
      ]

module _ (al : Allocator) (from : ℕ) where
  walk :
      (fuel : ℕ) (s : PadFile)
      → length s.file.content ≤ s.file.position + fuel
      → Ready s from
      → Walk s from (map_blocks al (suc fuel) s).0 (map_blocks al (suc fuel) s).1
  unfolding block_header_size
  walk zero s enough ready =
      step_on al from zero s ready λ next_addr p more _. absurd (ground (arith, p.next_after more))
  walk (suc fuel) s enough ready = step_on al from (suc fuel) s ready λ next_addr p more ready'.
      walk fuel (moved (map_block al s).1 next_addr)
        (rw
          (
            moved-position (map_block al s).1 next_addr,
            (moved-SameLayout (map_block al s).1 next_addr s
                (map_block-SameLayout al s)).content_same,
          )
          (ground (arith, p.next_after more)))
        ready'

infixl 5 ◌>=>◌
abbrev ◌>=>◌ : Result (Unit {0}) × PadFile → Pad (Unit {0}) → Result (Unit {0}) × PadFile
(r, s) >=> m = continue r (λ _. m) s

module _ (al : Allocator) (s : PadFile) where
  -- The state that the walk begins with.
  begun : PadFile
  begun = (on_file (go_to taille_entete_fixe) (clear_map s).1).1

  begun-SameLayout : SameLayout s begun
  unfolding begun clear_map on_file go_to set_pos displaced base
  begun-SameLayout = record {
    content_same = refl;
    specifics_same = refl;
    entry_same = refl;
    addr_same = refl;
  }

  begun-Ready : Ready begun (taille_entete_fixe + block_header_size s)
  unfolding begun clear_map on_file go_to set_pos displaced base block_header_size
  begun-Ready = record { so_far = omega arith }

  begun-Walk :
      Walk s
        (taille_entete_fixe + block_header_size s)
        (map_blocks al (suc (length s.file.content)) begun).0
        (map_blocks al (suc (length s.file.content)) begun).1
  begun-Walk = Walk-before s begun _ _ _ begun-SameLayout (
      walk al _ (length s.file.content) begun
        (omega (arith, ap length begun-SameLayout.content_same)) begun-Ready)

  mapped_from : Result (Unit {0}) × PadFile
  mapped_from = map_blocks al (suc (length s.file.content)) begun

  map_entries_blocks-mapped : map_entries_blocks al s ≡ (mapped_from >=> publish_entries_map)
  unfolding map_entries_blocks mapped_from begun clear_map on_file go_to
  map_entries_blocks-mapped = refl

  -- Where mapping the blocks succeeds, the map that it leaves and publishes lists blocks one after
  -- the other between the header of the file and its tail, and the file keeps its content and the
  -- sizes of its layout.
  pub map_entries_blocks-Chained :
      (map_entries_blocks al s).0 ≡ ok tt
      → let t = (map_entries_blocks al s).1 in
        Chained s.data_entry_size t.entries_blocks_map
          (taille_entete_fixe + block_header_size s)
          (tail_start s)
        × (t.shared.shared_map ≡ some t.entries_blocks_map)
        × (t.file.content ≡ s.file.content)
        × (t.data_entry_size ≡ s.data_entry_size)
  unfolding publish_entries_map mapped_from
  map_entries_blocks-Chained = rw map_entries_blocks-mapped (elim (Result-cases mapped_from.0) [
    | inr (x, eq) ↦ λ e. absurd (ground (arith, eq, e))
    | inl (done, eq) ↦ rw eq (λ e.
        (begun-Walk.mapped eq, refl, begun-Walk.layout.content_same, begun-Walk.layout.entry_same))
  ])

  -- The walk over the blocks is never cut off: one round more than the file has bytes is enough.
  pub map_entries_blocks-ends : (map_entries_blocks al s).0 ≢ err endless
  unfolding publish_entries_map mapped_from
  map_entries_blocks-ends = rw map_entries_blocks-mapped (ground (arith, begun-Walk.walk_ends))
