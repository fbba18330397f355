-- ===== src/PadFile/Stats.antt =====
-- src/cpp/NindBasics/NindPadFile.{h,cpp}: the statistics of a file: the holes between the ranges of
-- bytes in use, and the walk that measures and validates the envelope. Counts are `unsigned int`;
-- sizes are sums of parts of a file, and are not cut; the casts to `int64_t` in `chercheVides` are not
-- written out, since they differ only for addresses from 2 ^ 63 on, which no position reaches. Of `calculeRejpartition`, which divides and
-- takes roots in floating point, nothing is here.
use nind.Prelude.{
  ℕ, zero, suc, ◌+◌, ◌-◌, ◌*◌, ◌^◌, ◌%◌, List, [], ◌∷◌, ◌++◌, ◌||◌, ◌&&◌, length, Bool, true, false,
  not, none, some, ltb, ◌==◌, if◌then◌else◌,
}
use nind.Prelude.Exec.{
  Result, ok, err, pure, throw, gets, when_true, nind_pad_file, endless, ◌>>=◌, ◌>>◌,
}
use nind.Prelude.Map.{Map, nat_eq, find}
use nind.Prelude.Ordered.{insert_ordered}
use nind.ReadBuffer.{Read, get_int1}
use nind.Prelude.Int.{pos}
use nind.File.{Io, seek_end, set_pos, read_int1, on_in_buffer}
use nind.PadFile.{
  Allocator, Pad, Identification, flag_spejcifique, flag_identification, taille_entete_fixe,
  on_file, go_to, go_to_specifics, block_header_size, check_entries_block,
}
use nind.PadFile.Reading.{read_new, read_block_header, get_file_identification}

-- Ranges of bytes: address and length.
abbrev pub Ranges : Type 0
Ranges = List (ℕ × ℕ)

pub record HoleStats : Type 0 where
  pub holes_count : ℕ
  pub holes_size : ℕ
  pub hole_size_histogram : Map ℕ ℕ
  pub occupied_size_histogram : Map ℕ ℕ

-- `m[k]++`
unfoldable pub increment : ℕ → Map ℕ ℕ → Map ℕ ℕ
increment k m = elim (find k m) [
  | none ↦ insert_ordered k 1 m
  | some n ↦ insert_ordered k ((n + 1) % 2 ^ 32) m
]

-- `operator<` of pairs
unfoldable pub pair_lt : ℕ × ℕ → ℕ × ℕ → Bool
pair_lt a b = ltb a.0 b.0 || ((a.0 == b.0) && ltb a.1 b.1)

-- `std::list::sort`
unfoldable pub insert_range : ℕ × ℕ → Ranges → Ranges
insert_range x [] = x ∷ []
insert_range x (y ∷ ys) =
    let rest = insert_range x ys in if pair_lt y x then y ∷ rest else x ∷ y ∷ ys

unfoldable pub sort : Ranges → Ranges
sort [] = []
sort (x ∷ xs) = insert_range x (sort xs)

-- A hole of a positive length.
unfoldable pub count_hole : ℕ → HoleStats → HoleStats
count_hole size stats = if size == 0 then stats else record stats {
  holes_count = (stats.holes_count + 1) % 2 ^ 32;
  holes_size = stats.holes_size + size;
  hole_size_histogram = increment size stats.hole_size_histogram;
}

unfoldable pub count_occupied : ℕ → HoleStats → HoleStats
count_occupied size stats = record stats {
  occupied_size_histogram = increment size stats.occupied_size_histogram;
}

-- `end` is `addressePrec + longueurPrec`: the length of the hole is negative where a range begins
-- before it.
unfoldable pub holes : Ranges → ℕ → HoleStats → Result HoleStats
holes [] end stats = ok stats
holes ((address, len) ∷ ranges) end stats =
    let rest =
      holes ranges (address + len) (count_hole (address - end) (count_occupied len stats)) in
    if ltb address end then err nind_pad_file else rest

unfoldable pub no_holes : HoleStats
no_holes = record {
  holes_count = 0;
  holes_size = 0;
  hole_size_histogram = [];
  occupied_size_histogram = [];
}

unfoldable pub cherche_vides : Ranges → Result HoleStats
cherche_vides ranges = holes (sort ranges) 0 no_holes

pub record BlockStats : Type 0 where
  pub block_addr : ℕ
  pub block_num : ℕ
  pub entries_used : ℕ
  pub entries_total : ℕ
  pub en_vrac_addr : ℕ
  pub en_vrac_size : ℕ

pub record PadFileStats : Type 0 where
  pub data_entry_size : ℕ
  pub specifics_size : ℕ
  pub blocks : List BlockStats
  pub index_total_size : ℕ
  pub en_vrac_total_size : ℕ
  pub identification : Identification
  pub file_size : ℕ

-- `for (j = 0; j < n; j++) somme += getInt1()`
unfoldable pub sum_bytes : ℕ → ℕ → Read ℕ
sum_bytes zero somme = pure somme
sum_bytes (suc n) somme = do byte ← get_int1; sum_bytes n (somme + byte)

-- An entry of zeros is not in use.
unfoldable pub used_entries : Allocator → ℕ → ℕ → ℕ → Io ℕ
used_entries al size zero used = pure used
used_entries al size (suc n) used = do
  read_new al size
  somme ← on_in_buffer (sum_bytes size 0)
  used_entries al size n (if somme == 0 then used else used + 1)

-- Where the free data behind a block end: at the next block, or at the tail.
unfoldable pub en_vrac_end : ℕ → Pad ℕ
en_vrac_end next_addr =
    if next_addr == 0 then (do go_to_specifics; gets (λ s. s.file.position)) else pure next_addr

unfoldable pub add_block : BlockStats → ℕ → PadFileStats → PadFileStats
add_block block size stats = record stats {
  blocks = stats.blocks ++ (block ∷ []);
  index_total_size = stats.index_total_size + size;
  en_vrac_total_size = stats.en_vrac_total_size + block.en_vrac_size;
}

unfoldable pub analyse_block : Allocator → ℕ → ℕ → PadFileStats → Pad (ℕ × PadFileStats)
analyse_block al addr num stats s =
    (do
      on_file (go_to addr)
      header ← on_file (read_block_header al s.next_block_addr_size)
      check_entries_block addr (header.1) (header.0)
      used ← on_file (used_entries al s.data_entry_size (header.1) 0)
      en_vrac_addr ← gets (λ s. s.file.position)
      end ← en_vrac_end (header.0)
      let block : BlockStats = record {
        block_addr = addr;
        block_num = num;
        entries_used = used;
        entries_total = header.1;
        en_vrac_addr = en_vrac_addr;
        en_vrac_size = end - en_vrac_addr;
      }
      pure (header.0, add_block block (block_header_size s + header.1 * s.data_entry_size) stats))
      s

unfoldable pub analyse_blocks : Allocator → ℕ → ℕ → ℕ → PadFileStats → Pad PadFileStats
analyse_blocks al zero addr num stats = throw endless
analyse_blocks al (suc fuel) addr num stats = do
  next ← analyse_block al addr num stats
  elim (next.0 == 0) [
    | true ↦ pure (next.1)
    | false ↦ analyse_blocks al fuel (next.0) (num + 1) (next.1)
  ]

-- `for (i = 0; i < n; i++) m_file.readInt1()`
unfoldable pub skip_bytes : ℕ → Io (Unit {0})
skip_bytes zero = pure tt
skip_bytes (suc n) = do read_int1; skip_bytes n

-- `m_file.setPos(0, SEEK_END)`
unfoldable pub go_to_end : Io (Unit {0})
go_to_end f = (ok tt, (set_pos (pos 0) seek_end f).1)

-- The flags of the tail, one byte at a time.
unfoldable pub analyse_tail : Pad (Unit {0})
analyse_tail s =
    (do
      go_to_specifics
      flag ← on_file read_int1
      when_true (not (flag == flag_spejcifique)) nind_pad_file
      on_file (skip_bytes s.specifics_size)
      flag' ← on_file read_int1
      when_true (not (flag' == flag_identification)) nind_pad_file)
      s

unfoldable pub analyse_pad_file : Allocator → Pad PadFileStats
analyse_pad_file al s =
    (do
      when_true s.is_bulk nind_pad_file
      stats ← analyse_blocks al (suc (length s.file.content)) taille_entete_fixe 1 (record {
        data_entry_size = s.data_entry_size;
        specifics_size = s.specifics_size;
        blocks = [];
        index_total_size = 0;
        en_vrac_total_size = 0;
        identification = record { lexicon_words_nb = 0; lexicon_time = 0 };
        file_size = 0;
      })
      analyse_tail
      id ← get_file_identification al
      on_file go_to_end
      file_size ← gets (λ s. s.file.position)
      pure (record stats { identification = id; file_size = file_size }))
      s
