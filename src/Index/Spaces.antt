-- ===== src/Index/Spaces.antt =====
-- src/cpp/NindIndex/NindIndex.cpp: the constructor, which maps the empty spaces of an existing file,
-- and the statistics of an index.
use nind.Prelude.{
  ℕ, zero, suc, ◌+◌, List, [], ◌∷◌, ◌++◌, length, Bool, true, false, Option, ◌==◌, if◌then◌else◌,
}
use nind.Prelude.Exec.{Result, ok, err, pure, gets, when_true, nind_index, ◌>>=◌, ◌>>◌}
use nind.File.{File}
use nind.PadFile.{
  Allocator, PadFile, Identification, go_to_specifics, get_max_ident, taille_entete_fixe,
  get_specifics_and_identification_size,
}
use nind.PadFile.Reading.{get_entry_pos}
use nind.PadFile.Opening.{Layout, new_pad_file}
use nind.PadFile.Stats.{HoleStats, cherche_vides}
use nind.Index.{Areas, Index, Indexing, on_pad, read_indirection}
use nind.Index.Areas.{block_ranges, empty_between}

-- The places that the indirections from `ident` on give, up to the first identifier that has none;
-- the fuel is how many there are.
unfoldable pub used_places : Allocator → ℕ → ℕ → Indexing Areas
used_places al zero ident = pure []
used_places al (suc fuel) ident = do
  indirection ← on_pad (get_entry_pos al ident)
  elim (indirection == 0) [
    | true ↦ pure []
    | false ↦ (do
      place ← read_indirection al indirection
      places ← used_places al fuel (ident + 1)
      pure (if place.0 == 0 then places else place ∷ places))
  ]

-- Where it throws, in the constructor, no object is made.
unfoldable pub set_empty_areas : Result Areas → Indexing (Unit {0})
set_empty_areas (ok areas) s = (ok tt, record s { empty_areas = areas })
set_empty_areas (err e) s = (err e, record s { empty_areas = [] })

-- The tail, as a range.
unfoldable pub tail_range : Indexing (ℕ × ℕ)
tail_range = do
  on_pad go_to_specifics
  position ← gets (λ s. s.pad.file.position)
  queue ← gets (λ s. get_specifics_and_identification_size s.pad)
  pure (position, queue)

unfoldable pub map_empty_spaces : Allocator → Indexing (Unit {0})
map_empty_spaces al = do
  idents ← gets (λ s. get_max_ident s.pad)
  places ← used_places al (idents + 1) 0
  tail ← tail_range
  pad ← gets (λ s. s.pad)
  set_empty_areas (empty_between pad (places ++ (tail ∷ [])))

-- The layout that NindIndex gives to a pad file: entries of 10 bytes, of 8 in format v1.
unfoldable pub index_layout : Identification → ℕ → ℕ → Layout
index_layout id specifics_size indirection_bloc_size = record {
  reference_identification = id;
  specifics_size = specifics_size;
  data_entry_size = 10;
  data_entries_bloc_size = indirection_bloc_size;
  next_block_addr_size = 6;
  legacy_data_entry_size = 8;
}

unfoldable pub over : PadFile → ℕ → Index
over p minimum = record {
  pad = p;
  definition_minimum_size = minimum;
  empty_areas = [];
  bulk_indirections = [];
}

unfoldable pub mapped : Result (Unit {0}) × Index → Result Index
mapped (ok _, s) = ok s
mapped (err e, s) = err e

unfoldable pub new_index :
    Allocator → Layout → ℕ → Bool → Bool → Option File → Option File → Result Index
new_index al l minimum is_writer locked existing created =
    elim (new_pad_file al l is_writer locked existing created) [
      | err e ↦ err e
      | ok p ↦
          if p.is_existing_writer
          then mapped (map_empty_spaces al (over p minimum))
          else ok (over p minimum)
    ]

pub record IndexStats : Type 0 where
  pub max_ident : ℕ
  pub used_count : ℕ
  pub holes : HoleStats
  pub definition_sizes : List ℕ

-- Every identifier must have an indirection.
unfoldable pub definition_ranges : Allocator → ℕ → ℕ → Indexing Areas
definition_ranges al zero ident = pure []
definition_ranges al (suc left) ident = do
  indirection ← on_pad (get_entry_pos al ident)
  when_true (indirection == 0) nind_index
  place ← read_indirection al indirection
  places ← definition_ranges al left (ident + 1)
  pure (if place.0 == 0 then places else place ∷ places)

abbrev pub lengths : Areas → List ℕ
lengths [] = []
lengths ((address, len) ∷ areas) = len ∷ lengths areas

unfoldable pub holes_of : Areas → Indexing HoleStats
holes_of areas s = (cherche_vides areas, s)

unfoldable pub analyse_index : Allocator → Indexing IndexStats
analyse_index al s =
    let max_ident = get_max_ident s.pad in
    let blocks = block_ranges s.pad s.pad.entries_blocks_map in
    (do
      when_true s.pad.is_bulk nind_index
      places ← definition_ranges al max_ident 0
      tail ← tail_range
      holes ← holes_of ((0, taille_entete_fixe) ∷ (blocks ++ (places ++ (tail ∷ []))))
      pure (record {
        max_ident = max_ident;
        used_count = length places;
        holes = holes;
        definition_sizes = lengths places;
      }))
      s
