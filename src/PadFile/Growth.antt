-- ===== src/PadFile/Growth.antt =====
-- src/cpp/NindBasics/NindPadFile.cpp: a block of entries added in bulk mode.
use nind.Prelude.{ℕ, ◌+◌, ◌*◌, ◌^◌, ◌<◌, ◌≡◌, refl, ◌∙◌, [], ◌∷◌, ◌++◌, some, arith}
use nind.Prelude.Exec.{ok, ◌>>◌}
use nind.File.{write_value}
use nind.PadFile.{Allocator, PadFile, on_file, block_header_size, publish_entries_map}
use nind.PadFile.Writing.{extend_bulk, push_entries, block_bytes, add_entries_block_bulk}
use nind.PadFile.Positions.{Chained, Chained-snoc, total, total-snoc}
use nind.PadFile.Bulk.{Tracks}
use nind.PadFile.Tracking.{
  Triple, >>-Triple, Known, IsAt, on_write_buffer-Known, bulk_write-IsAt, write_value-IsAt,
  chain_bulk-Known,
}

module _ (s0 : PadFile) where
  extend_bulk-Known : (old end : ℕ) → Triple (IsAt s0 old end) (extend_bulk end) (Known s0 end)
  unfolding IsAt Known extend_bulk
  extend_bulk-Known old end s (same, e) _ = (
    record {
      map_same = same.map_same;
      addr_size_same = same.addr_size_same;
      bloc_size_same = same.bloc_size_same;
      entry_size_same = same.entry_size_same;
      end_at = refl;
    },
    λ at eq. ground arith,
  )

  -- A block of entries has been added behind the data.
  pub record Grown (t : PadFile) : Type 0 where
    pub position_tracked : Tracks t
    pub map_grown :
        t.entries_blocks_map
        ≡ s0.entries_blocks_map
          ++ ((s0.bulk_end + block_header_size s0, s0.data_entries_bloc_size) ∷ [])
    pub end_grown :
        t.bulk_end
        ≡ s0.bulk_end + block_header_size s0 + s0.data_entries_bloc_size * s0.data_entry_size
    pub entry_kept : t.data_entry_size ≡ s0.data_entry_size
    pub map_published : t.shared.shared_map ≡ some t.entries_blocks_map

  pushed :
      (end : ℕ)
      → end ≡ s0.bulk_end + block_header_size s0 + s0.data_entries_bloc_size * s0.data_entry_size
      → Triple (Known s0 end) (do push_entries s0.bulk_end; publish_entries_map) Grown
  unfolding Known push_entries publish_entries_map block_header_size
  pushed end e s (same, tracks) _ = record {
    position_tracked = tracks;
    map_grown = ground (arith, same.map_same, same.addr_size_same, same.bloc_size_same);
    end_grown = same.end_at ∙ e;
    entry_kept = same.entry_size_same;
    map_published = refl;
  }

  add_entries_block_bulk-Grown :
      (al : Allocator)
      → Tracks s0
      → 0 < s0.next_block_addr_size
      → s0.data_entries_bloc_size * s0.data_entry_size < 2 ^ 32
      → (add_entries_block_bulk al s0).0 ≡ ok tt
      → Grown (add_entries_block_bulk al s0).1
  unfolding add_entries_block_bulk block_header_size Known
  add_entries_block_bulk-Grown al tracks positive fits =
      let end0 = s0.bulk_end in
      let hs = block_header_size s0 in
      let bytes = s0.data_entries_bloc_size * s0.data_entry_size in
      let K0 = Known s0 end0 in
      let end1 = end0 + hs + bytes in
      let K1 = Known s0 end1 in
      let count : block_bytes s0 ≡ bytes = omega arith in
      let entries : Triple (IsAt s0 end0 (end0 + hs))
          (on_file (write_value al.granted 0 (block_bytes s0))) (IsAt s0 end0 end1) =
        rw count (write_value-IsAt s0 end0 al 0 bytes (end0 + hs)) in
      >>-Triple K0 K0 Grown _ _ (on_write_buffer-Known s0 end0 _)
        (>>-Triple K0 K0 Grown _ _ (on_write_buffer-Known s0 end0 _) (
          >>-Triple K0 (IsAt s0 end0 (end0 + hs)) Grown _ _
            (bulk_write-IsAt s0 end0 end0 0 hs (omega arith))
            (>>-Triple (IsAt s0 end0 (end0 + hs)) (IsAt s0 end0 end1) Grown _ _ entries (
              >>-Triple (IsAt s0 end0 end1) K1 Grown _ _ (extend_bulk-Known end0 end1) (
                >>-Triple K1 K1 Grown _ _ (chain_bulk-Known s0 end1 al end0 positive)
                  (pushed end1 refl))))))
        s0
        (
          record {
            map_same = refl;
            addr_size_same = refl;
            bloc_size_same = refl;
            entry_size_same = refl;
            end_at = refl;
          },
          tracks,
        )

-- What bulk mode keeps: the known position is the one of the stream, and the blocks lie one after
-- the other, from an address on, before the end of the data.
abbrev pub IsBulk : ℕ → PadFile → Type 0
IsBulk from s = Tracks s × Chained s.data_entry_size s.entries_blocks_map from s.bulk_end

-- A block of entries that is added in bulk mode, its bytes counted below 2 ^ 32, keeps what bulk
-- mode keeps, adds as many entries as a block has, and publishes the map.
pub add_entries_block_bulk-IsBulk :
    (al : Allocator) (s : PadFile) (from : ℕ)
    → IsBulk from s
    → 0 < s.next_block_addr_size
    → s.data_entries_bloc_size * s.data_entry_size < 2 ^ 32
    → (add_entries_block_bulk al s).0 ≡ ok tt
    → let t = (add_entries_block_bulk al s).1 in
      IsBulk from t
      × (total t.entries_blocks_map ≡ total s.entries_blocks_map + s.data_entries_bloc_size)
      × (t.shared.shared_map ≡ some t.entries_blocks_map)
add_entries_block_bulk-IsBulk al s from (tracks, chain) positive fits e =
    let g = add_entries_block_bulk-Grown s al tracks positive fits e in
    (
      (
        g.position_tracked,
        rw (g.map_grown, g.end_grown, g.entry_kept)
            (Chained-snoc s.data_entry_size s.entries_blocks_map from s.bulk_end _
              s.data_entries_bloc_size _ chain (omega arith) (omega arith)),
      ),
      rw g.map_grown (total-snoc s.entries_blocks_map _ s.data_entries_bloc_size),
      g.map_published,
    )
