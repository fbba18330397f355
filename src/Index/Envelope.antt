-- ===== src/Index/Envelope.antt =====
-- src/cpp/NindIndex/NindIndex.cpp: what `setDefinitionBulk` leaves of the envelope, and how
-- `setDefinition` and `getDefinition` come to their branches in bulk mode.
use nind.Prelude.{
  ℕ, ◌-◌, ◌≡◌, ◌≢◌, ◌==◌, ◌∙◌, ap, refl, Bool, true, false, get_elem?, arith, inl, inr,
  Option-cases, take, drop,
}
use nind.Prelude.Exec.{ok}
use nind.WriteBuffer.{copy_out_buffer}
use nind.PadFile.Reading.{get_entry_pos}
use nind.PadFile.{
  Allocator, get_just_entry_pos, just_pos_in, get_specifics_and_identification_size, PadFile,
  Blocks, on_file, on_write_buffer,
}
use nind.PadFile.Writing.{bulk_write, set_bulk_tail, set_bulk_pos}
use nind.Index.Areas.{find_new_area, data_end}
use nind.Index.{Index, on_pad, on_index_file}
use nind.Index.Defining.{
  get_definition, get_definition_bulk, set_definition, place_bulk, place_elsewhere_bulk, new_area,
  extend_data, vacate, set_definition_of, set_definition_bulk, resize_indirections,
  set_bulk_indirection,
}

-- What the entries of a file depend on.
abbrev pub envelope : PadFile → Bool × Bool × Blocks × ℕ
envelope p = (p.is_writer, p.is_bulk, p.entries_blocks_map, p.data_entry_size)

bulk_write-envelope :
    (address start len : ℕ) (p : PadFile) → envelope (bulk_write address start len p).1 ≡ envelope p
unfolding bulk_write on_file set_bulk_pos
bulk_write-envelope address start len p = ground arith

extend_data-envelope :
    (b : Bool) (d : ℕ) (p : PadFile) → envelope (extend_data b d p).1 ≡ envelope p
unfolding extend_data
extend_data-envelope true d p = refl
extend_data-envelope false d p = refl

place_elsewhere_bulk-envelope :
    (ident d : ℕ) (old : ℕ × ℕ) (s : Index)
    → envelope (place_elsewhere_bulk ident d old s).1.pad ≡ envelope s.pad
unfolding place_elsewhere_bulk on_pad new_area vacate set_bulk_indirection
place_elsewhere_bulk-envelope ident d old s =
    let found = find_new_area d s.definition_minimum_size s.empty_areas (data_end s.pad) in
    ground (
      arith,
      bulk_write-envelope found.place.0 0 d s.pad,
      extend_data-envelope found.is_at_end d (bulk_write found.place.0 0 d s.pad).1,
    )

place_bulk-envelope :
    (ident d : ℕ) (old : ℕ × ℕ) (s : Index)
    → envelope (place_bulk ident d old s).1.pad ≡ envelope s.pad
unfolding place_bulk on_pad vacate set_bulk_indirection
place_bulk-envelope ident d old s =
    ground (arith, bulk_write-envelope old.0 0 d s.pad, place_elsewhere_bulk-envelope ident d old s)

set_definition_of-envelope :
    (ident queue : ℕ) (s : Index)
    → envelope (set_definition_of ident queue s).1.pad ≡ envelope s.pad
unfolding set_definition_of on_index_file on_pad on_file on_write_buffer copy_out_buffer
    set_bulk_tail
set_definition_of-envelope ident queue s =
    elim (Option-cases (get_elem? s.bulk_indirections ident)) [
      | inl absent ↦ rw (absent, set_definition_of) refl
      | inr (old, found) ↦
          let at = s.pad.file.out_buffer.ptr - queue in
          let tail = take queue (drop at s.pad.file.out_buffer.bytes) in
          ground (
            arith,
            found,
            place_bulk-envelope ident at old
                (record s { pad = record (s.pad) { bulk_tail = tail } }),
          )
    ]

pub set_definition_bulk-envelope :
    (ident queue : ℕ) (s : Index)
    → envelope (set_definition_bulk ident queue s).1.pad ≡ envelope s.pad
unfolding set_definition_bulk resize_indirections
set_definition_bulk-envelope ident queue s = set_definition_of-envelope ident queue _

get_entry_pos-writer :
    (al : Allocator) (ident : ℕ) (p : PadFile)
    → p.is_writer ≡ true
    → get_entry_pos al ident p ≡ (ok (get_just_entry_pos ident p), p)
unfolding get_entry_pos
get_entry_pos-writer al ident p writer = rw (writer, get_entry_pos) refl

-- Where an identifier has an entry in memory, setting and getting its definition in bulk mode go to
-- their branches for it.
pub set_definition-in_bulk :
    (al : Allocator) (ident : ℕ) (s : Index)
    → s.pad.is_writer ≡ true
    → s.pad.is_bulk ≡ true
    → get_just_entry_pos ident s.pad ≢ 0
    → set_definition al ident s
      ≡ set_definition_bulk ident (get_specifics_and_identification_size s.pad) s
unfolding set_definition on_pad
set_definition-in_bulk al ident s writer in_bulk entry =
    let somewhere : (get_just_entry_pos ident s.pad == 0) ≡ false = ground (arith, entry) in
    rw (get_entry_pos-writer al ident s.pad writer, somewhere, in_bulk, set_definition) refl

same_entry :
    (ident : ℕ) (p q : PadFile)
    → envelope q ≡ envelope p
    → get_just_entry_pos ident q ≡ get_just_entry_pos ident p
unfolding get_just_entry_pos
same_entry ident p q same = ap (λ e. just_pos_in e.2 ident 0 e.3) same

pub get_definition-in_bulk :
    (al : Allocator) (ident : ℕ) (s t : Index)
    → s.pad.is_writer ≡ true
    → s.pad.is_bulk ≡ true
    → get_just_entry_pos ident s.pad ≢ 0
    → envelope t.pad ≡ envelope s.pad
    → get_definition al ident 0 t ≡ get_definition_bulk al ident 0 t
unfolding get_definition on_pad
get_definition-in_bulk al ident s t writer in_bulk entry same =
    let somewhere : (get_just_entry_pos ident t.pad == 0) ≡ false =
      ground (arith, entry, same_entry ident s.pad t.pad same) in
    rw
      (
        get_entry_pos-writer al ident t.pad (ap (λ e. e.0) same ∙ writer),
        somewhere,
        ap (λ e. e.1) same ∙ in_bulk,
        get_definition,
      )
      refl
