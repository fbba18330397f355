-- ===== src/PadFile/Chain.antt =====
-- src/cpp/NindBasics/NindPadFile.cpp: the walk over the chain of the blocks of entries.
pub mod Walk
use nind.Prelude.{
  ℕ, zero, suc, ◌+◌, ◌-◌, ◌*◌, ◌^◌, ◌≤◌, ◌<◌, ◌≡◌, ◌≢◌, ◌⊎◌, refl, ap, sym, ◌∙◌, inl, inr, List, [],
  ◌∷◌, ◌++◌, length, Bool, true, false, not, some, ltb, ◌==◌, ==_iff, if◌then◌else◌, arith,
  Bool-cases,
}
use nind.Prelude.Exec.{
  Exec, Result, ok, Error, err, continue, pure, gets, when_true, endless, nind_pad_file, ◌>>=◌,
  ◌>>◌,
}
use nind.ReadBuffer.{
  ReadBuffer, Read, get_int1, get_int3, get_int4, get_int5, get_int6, need, next, peek, advance,
}
use nind.File.{File, Io, on_in_buffer, read_buffer}
use nind.File.Moves.{Moved, read_buffer-Moved, Stays, on_in_buffer-Stays}
use nind.PadFile.{
  Allocator, PadFile, Pad, Blocks, on_file, go_to, block_header_size, get_next_block_addr,
  check_entries_block, get_specifics_and_identification_size, taille_entete_fixe,
  publish_entries_map, flag_indexej,
}
use nind.PadFile.Reading.{
  read_new, get_block_header, read_block_header, push_block, map_block, map_blocks, clear_map,
  map_entries_blocks,
}
use nind.PadFile.Positions.{Chained}

-- An operation is not a loop that was cut off.
abbrev pub Ends : {S A : Type 0} → Exec S A → Type 0
Ends {S} m = (s : S) → (m s).0 ≢ err endless

continue-Ends :
    {S A B : Type 0} (r : Result A) (k : A → Exec S B) (s : S)
    → r ≢ err endless
    → ((a : A) → Ends (k a))
    → (continue r k s).0 ≢ err endless
continue-Ends (ok a) k s h hk = hk a s
continue-Ends (err e) k s h hk = λ eq. h (ground arith)

>>=-Ends :
    {S A B : Type 0} (m : Exec S A) (k : A → Exec S B)
    → Ends m
    → ((a : A) → Ends (k a))
    → Ends (m >>= k)
>>=-Ends m k h hk s = continue-Ends (m s).0 k (m s).1 (h s) hk

get_int1-Ends : Ends get_int1
unfolding get_int1 need next peek advance
get_int1-Ends r = ground arith

get_int3-Ends : Ends get_int3
unfolding get_int3 need next peek advance
get_int3-Ends r = ground arith

get_int5-Ends : Ends get_int5
unfolding get_int5 need next peek advance
get_int5-Ends r = ground arith

get_int6-Ends : Ends get_int6
unfolding get_int6 need next peek advance
get_int6-Ends r = ground arith

get_next_block_addr-Ends : (size : ℕ) → Ends (get_next_block_addr size)
unfolding get_next_block_addr
get_next_block_addr-Ends size r = ground (arith, get_int5-Ends r, get_int6-Ends r)

get_block_header-Ends : (size : ℕ) → Ends (get_block_header size)
unfolding get_block_header
get_block_header-Ends size = >>=-Ends get_int1 _ get_int1-Ends λ flag.
    >>=-Ends (when_true (not (flag == flag_indexej)) nind_pad_file) _ (λ r. ground arith)
      λ _.
        >>=-Ends (get_next_block_addr size) _ (get_next_block_addr-Ends size)
          λ next_addr. >>=-Ends get_int3 _ get_int3-Ends λ nb r. ground arith

-- What reading the header of a block does to the file.
record Header (size : ℕ) (f : File) (r : Result (ℕ × ℕ)) (g : File) : Type 0 where
  content_kept : g.content ≡ f.content
  after_header : (v : ℕ × ℕ) → r ≡ ok v → g.position ≡ f.position + 4 + size
  header_inside : (v : ℕ × ℕ) → r ≡ ok v → f.position + 4 + size ≤ length f.content
  header_ends : r ≢ err endless

read_block_header-Header :
    (al : Allocator) (size : ℕ) (f : File)
    → Header size f (read_block_header al size f).0 (read_block_header al size f).1
unfolding read_block_header on_in_buffer
read_block_header-Header al size f =
    let m = read_buffer-Moved al.granted (al.fresh (4 + size)) f in
    let len = al.length-fresh (4 + size) in
    record {
      content_kept = ground (arith, m.same_content);
      after_header = ground (arith, m.moved, len);
      header_inside = ground (arith, m.within, len);
      header_ends =
          ground (arith, m.ends, get_block_header-Ends size (read_new al (4 + size) f).1.in_buffer);
    }

pub Result-cases :
    {A : Type 0} (r : Result A) → ((a : A) × (r ≡ ok a)) ⊎ ((e : Error) × (r ≡ err e))
Result-cases (ok a) = inl (a, refl)
Result-cases (err e) = inr (e, refl)

-- The two states have the same content and the same sizes.
record SameLayout (s t : PadFile) : Type 0 where
  content_same : t.file.content ≡ s.file.content
  specifics_same : t.specifics_size ≡ s.specifics_size
  entry_same : t.data_entry_size ≡ s.data_entry_size
  addr_same : t.next_block_addr_size ≡ s.next_block_addr_size

-- A block that a round of the walk has put in the map, with the address that follows it.
record Pushed (s t : PadFile) (next_addr : ℕ) : Type 0 where
  entries_nb : ℕ
  map_after :
      t.entries_blocks_map
      ≡ s.entries_blocks_map ++ ((s.file.position + block_header_size s, entries_nb) ∷ [])
  block_inside :
      s.file.position
        + block_header_size s
        + entries_nb * s.data_entry_size
        + get_specifics_and_identification_size s
      ≤ length s.file.content
  next_after :
      next_addr ≢ 0
      → (s.file.position + block_header_size s + entries_nb * s.data_entry_size ≤ next_addr)
        × (next_addr + block_header_size s + get_specifics_and_identification_size s
            ≤ length s.file.content)

record Round (s : PadFile) (r : Result ℕ) (t : PadFile) : Type 0 where
  layout : SameLayout s t
  round_ends : r ≢ err endless
  pushed : (next_addr : ℕ) → r ≡ ok next_addr → Pushed s t next_addr

module _ (al : Allocator) (s : PadFile) where
  map_block-SameLayout : SameLayout s (map_block al s).1
  unfolding map_block on_file push_block check_entries_block
  map_block-SameLayout =
      let h = read_block_header-Header al s.next_block_addr_size s.file in
      record {
        content_same = ground (arith, h.content_kept);
        specifics_same = ground arith;
        entry_same = ground arith;
        addr_same = ground arith;
      }

  map_block-ends : (map_block al s).0 ≢ err endless
  unfolding map_block on_file push_block check_entries_block
  map_block-ends =
      let h = read_block_header-Header al s.next_block_addr_size s.file in
      ground (arith, h.header_ends)

  map_block-Pushed :
      (next_addr : ℕ) → (map_block al s).0 ≡ ok next_addr → Pushed s (map_block al s).1 next_addr
  unfolding map_block on_file push_block check_entries_block block_header_size
      get_specifics_and_identification_size
  map_block-Pushed next_addr e =
      elim (Result-cases (read_block_header al s.next_block_addr_size s.file).0) [
        | inr (e', eq) ↦ absurd (ground arith)
        | inl (v, eq) ↦
            let h = read_block_header-Header al s.next_block_addr_size s.file in
            record {
              entries_nb = v.1;
              map_after = ground (arith, h.after_header v eq);
              block_inside = ground (arith, h.after_header v eq, h.content_kept);
              next_after = ground (arith, h.after_header v eq, h.content_kept);
            }
      ]
