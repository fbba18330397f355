-- ===== src/PadFile/Tracking.antt =====
-- src/cpp/NindBasics/NindPadFile.cpp: what the steps of adding a block in bulk mode make of the position
-- of the stream, and of the position that the object knows.
use nind.Prelude.{ℕ, ◌+◌, ◌<◌, ◌≡◌, refl, ap, ◌∙◌, inl, inr, arith, Option-cases}
use nind.Prelude.Exec.{Exec, Result, ok, err, continue, ◌>>◌}
use nind.WriteBuffer.{Write}
use nind.File.{write_buffer, write_value}
use nind.File.Puts.{write_buffer-position, write_value-position}
use nind.PadFile.{Allocator, PadFile, Pad, on_file, on_write_buffer}
use nind.PadFile.Writing.{set_bulk_pos, bulk_write, chain_bulk, back}
use nind.PadFile.Bulk.{Tracks, bulk_write-there, there}

-- Where the operation succeeds from a state of `P`, it ends in one of `Q`.
abbrev pub Triple : (PadFile → Type 0) → Pad (Unit {0}) → (PadFile → Type 0) → Type 0
Triple P m Q = (s : PadFile) → P s → (m s).0 ≡ ok tt → Q (m s).1

continue-ok :
    {S A B : Type 0} (r : Result A) (k : A → Exec S B) (s : S) (b : B)
    → (continue r k s).0 ≡ ok b
    → (a : A) × (r ≡ ok a)
continue-ok (ok a) k s b e = (a, refl)
continue-ok (err x) k s b e = absurd (ground arith)

pub >>-Triple :
    (P Q R : PadFile → Type 0) (m n : Pad (Unit {0}))
    → Triple P m Q
    → Triple Q n R
    → Triple P (m >> n) R
>>-Triple P Q R m n hm hn s p e =
    let (a, first) = continue-ok (m s).0 (λ _. n) (m s).1 tt e in
    rw first (hn (m s).1 (hm s p first) (second (m s).0 first e))
  where
    second :
        (r : Result (Unit {0}))
        → r ≡ ok tt
        → (continue r (λ _. n) (m s).1).0 ≡ ok tt
        → (n (m s).1).0 ≡ ok tt
    second (ok _) e h = h
    second (err x) e h = absurd (ground arith)

-- The map and the sizes are those of another state, and the data end at an address.
pub record SameMap (s : PadFile) (end : ℕ) (t : PadFile) : Type 0 where
  pub map_same : t.entries_blocks_map ≡ s.entries_blocks_map
  pub addr_size_same : t.next_block_addr_size ≡ s.next_block_addr_size
  pub bloc_size_same : t.data_entries_bloc_size ≡ s.data_entries_bloc_size
  pub entry_size_same : t.data_entry_size ≡ s.data_entry_size
  pub end_at : t.bulk_end ≡ end

module _ (s0 : PadFile) (end : ℕ) where
  -- The stream is where the object knows it to be.
  unfoldable pub Known : PadFile → Type 0
  Known s = SameMap s0 end s × Tracks s

  -- The stream is at a position.
  unfoldable pub IsAt : ℕ → PadFile → Type 0
  IsAt at s = SameMap s0 end s × (s.file.position ≡ at)

  pub on_write_buffer-Known : (m : Write) → Triple Known (on_file (on_write_buffer m)) Known
  unfolding Known on_file on_write_buffer
  on_write_buffer-Known m s (same, tracks) e = (
    record {
      map_same = same.map_same;
      addr_size_same = same.addr_size_same;
      bloc_size_same = same.bloc_size_same;
      entry_size_same = same.entry_size_same;
      end_at = same.end_at;
    },
    tracks,
  )

  pub bulk_write-same :
      (address start len : ℕ) (s : PadFile)
      → Known s
      → SameMap s0 end (bulk_write address start len s).1
  unfolding Known there on_file set_bulk_pos
  bulk_write-same address start len s (same, tracks) =
      rw (bulk_write-there address start len s tracks) (record {
        map_same = ground (arith, same.map_same);
        addr_size_same = ground (arith, same.addr_size_same);
        bloc_size_same = ground (arith, same.bloc_size_same);
        entry_size_same = ground (arith, same.entry_size_same);
        end_at = ground (arith, same.end_at);
      })

  pub bulk_write-IsAt :
      (address start len : ℕ)
      → 0 < len
      → Triple Known (bulk_write address start len) (IsAt (address + len))
  unfolding Known IsAt there on_file set_bulk_pos
  bulk_write-IsAt address start len positive s k e = (
    bulk_write-same address start len s k,
    at (rw (← bulk_write-there address start len s k.1) e),
  )
    where
      at :
          ((do on_file (write_buffer start len); set_bulk_pos (address + len)) (there address s)).0
            ≡ ok tt
          → (bulk_write address start len s).1.file.position ≡ address + len
      at e =
          rw (bulk_write-there address start len s k.1)
            (ground (arith, write_buffer-position start len (there address s).file positive))

  pub bulk_write-Known :
      (address start len : ℕ) → 0 < len → Triple Known (bulk_write address start len) Known
  unfolding Known there on_file set_bulk_pos
  bulk_write-Known address start len positive s k e = (
    bulk_write-same address start len s k,
    known (rw (← bulk_write-there address start len s k.1) e),
  )
    where
      known :
          ((do on_file (write_buffer start len); set_bulk_pos (address + len)) (there address s)).0
            ≡ ok tt
          → Tracks (bulk_write address start len s).1
      known e =
          rw (bulk_write-there address start len s k.1) (λ at eq.
            ground (arith, write_buffer-position start len (there address s).file positive))

  pub write_value-IsAt :
      (al : Allocator) (value count at : ℕ)
      → Triple (IsAt at) (on_file (write_value al.granted value count)) (IsAt (at + count))
  unfolding IsAt on_file
  write_value-IsAt al value count at s (same, e) ok_eq = (
    record {
      map_same = same.map_same;
      addr_size_same = same.addr_size_same;
      bloc_size_same = same.bloc_size_same;
      entry_size_same = same.entry_size_same;
      end_at = same.end_at;
    },
    write_value-position al.granted value count s.file ok_eq ∙ ap (λ p. p + count) e,
  )

  pub chain_bulk-Known :
      (al : Allocator) (entries_block : ℕ)
      → 0 < s0.next_block_addr_size
      → Triple Known (chain_bulk al entries_block) Known
  unfolding chain_bulk Known
  chain_bulk-Known al entries_block positive s k = elim (Option-cases (back s.entries_blocks_map)) [
    | inl first ↦ rw (first, chain_bulk) (λ _. k)
    | inr (block, last) ↦
        rw (last, chain_bulk)
          (>>-Triple Known Known Known _ _ (on_write_buffer-Known _)
            (>>-Triple Known Known Known _ _ (on_write_buffer-Known _)
              (bulk_write-Known _ 0 s.next_block_addr_size (omega (arith, k.0.addr_size_same))))
            s k)
  ]
