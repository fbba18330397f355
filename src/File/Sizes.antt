-- ===== src/File/Sizes.antt =====
-- The size of the file that NindFile remembers, over its operations.
use nind.Prelude.{
  ℕ, ◌+◌, ◌≤◌, ◌≢◌, refl, inl, inr, List, length, take, drop, replicate, Bool, true, false, not,
  ltb, ◌==◌, if◌then◌else◌, arith, Option-cases,
}
use nind.Prelude.Exec.{Result, ok, err, write_file}
use nind.Prelude.Int.{ℤ}
use nind.WriteBuffer.{WriteBuffer}
use nind.File.{
  File, Origin, fread, fwrite, displaced, base, set_pos, read_bytes, read_buffer, write_buffer,
  write_value, set_bulk, bool_eq, remember_size,
}
use nind.File.Leaves.{
  Kept, Leaves, IsMeasured, IsWithin, remember_size-Kept, fwrite-Remembers, fwrite-IsWithin,
  fread-Kept, out-Remembers, leaves, refused, if-Leaves, read_buffer-Leaves,
}

module _ (start f : File) (h : Kept start f) (inside : f.position ≤ length f.content) where
  read-Leaves : (n : ℕ) → Leaves start (read_bytes n f)
  unfolding read_bytes
  read-Leaves n =
      if-Leaves start (length (fread n f).0 == n) _ _ (λ _. leaves start _ (fread-Kept start n f h))
        (λ _.
          if-Leaves start f.fails _ _ (λ _. leaves start _ (fread-Kept start n f h))
            (λ _. leaves start _ (fread-Kept start n f h)))

  set_pos-Kept : (offset : ℤ) (origin : Origin) → Kept start (set_pos offset origin f).1
  unfolding IsMeasured IsWithin set_pos
  set_pos-Kept offset origin = elim (Option-cases (displaced (base origin f) offset)) [
    | inl e ↦ rw (e, set_pos) h
    | inr (target, e) ↦ rw (e, set_pos) h
  ]

  bulk_on : Kept start (record f { is_bulk = true })
  unfolding IsMeasured IsWithin
  bulk_on = (h.0, λ m e. absurd (cc))

  bulk_off : Kept start (record f { is_bulk = false; file_size = length f.content })
  unfolding IsMeasured IsWithin
  bulk_off = (omega arith, λ m e. refl)

  still-IsWithin : IsWithin (record f { is_bulk = false })
  unfolding IsWithin
  still-IsWithin = h.0

  set_bulk-Leaves : (seeks bulk : Bool) → Leaves start (set_bulk seeks bulk f)
  unfolding set_bulk
  set_bulk-Leaves seeks bulk =
      if-Leaves start (bool_eq bulk f.is_bulk) _ _ (λ _. leaves start _ h)
        (λ _.
          if-Leaves start f.fails _ _ (λ _. leaves start _ h)
            (λ _.
              if-Leaves start bulk _ _ (λ _. leaves start _ bulk_on)
                (λ _.
                  if-Leaves start (not seeks) _ _ (λ _. refused start _ still-IsWithin)
                    (λ _. leaves start _ bulk_off))))

  -- What is written, whole or cut short.
  written-Leaves :
      (new : List ℕ) (whole : Bool) (w : WriteBuffer)
      → Leaves start (
          if whole
          then remember_size (record ((fwrite new f).1) { out_buffer = w })
          else (err write_file, record ((fwrite new f).1) { out_buffer = w }))
  unfolding IsWithin
  written-Leaves new whole w =
      if-Leaves start whole _ _
        (λ _. leaves start _ (
          remember_size-Kept start _
            (out-Remembers start _ w (fwrite-Remembers start f h inside new))))
        (λ _. refused start _ (fwrite-IsWithin start f h inside new))

  write_value-Leaves :
      (granted : Bool) (value count : ℕ) → Leaves start (write_value granted value count f)
  unfolding write_value
  write_value-Leaves granted value count =
      if-Leaves start (not granted) _ _ (λ _. leaves start _ h)
        (λ _.
          written-Leaves (replicate count value) ((fwrite (replicate count value) f).0 == count)
            (fwrite (replicate count value) f).1.out_buffer)

  abbrev size : ℕ → ℕ
  size len = if len == 0 then f.out_buffer.ptr else len

  write_buffer-Leaves : (from len : ℕ) → Leaves start (write_buffer from len f)
  unfolding write_buffer
  write_buffer-Leaves from len =
      let chunk = take (size len) (drop from f.out_buffer.bytes) in
      if-Leaves start (ltb (length f.out_buffer.bytes) (from + size len)) _ _
        (λ _. leaves start _ h)
        (λ _.
          written-Leaves chunk ((fwrite chunk f).0 == size len) (record (f.out_buffer) { ptr = 0 }))

-- The operations on a file.
pub data Operation : Type 0 where
  read : (bytes_nb : ℕ) → Operation
  read_in : (granted : Bool) (fresh : List ℕ) → Operation
  seek : (offset : ℤ) (origin : Origin) → Operation
  write : (start len : ℕ) → Operation
  write_values : (granted : Bool) (value count : ℕ) → Operation
  bulk_mode : (seeks bulk : Bool) → Operation

-- The value of an operation left out, its exception kept.
abbrev pub finished : {A : Type 0} → Result A × File → Result (Unit {0}) × File
finished (ok a, f) = (ok tt, f)
finished (err e, f) = (err e, f)

finished-Leaves :
    {A : Type 0} (start : File) (s : Result A × File) → Leaves start s → Leaves start (finished s)
finished-Leaves start (ok a, f) (within, right) = (within, λ _. right (λ e. cc))
finished-Leaves start (err e, f) (within, right) =
    (within, λ other. right (λ same. other (cc (same))))

-- An operation ends, or throws, and leaves a file.
abbrev pub run : Operation → File → Result (Unit {0}) × File
run (read bytes_nb) f = finished (read_bytes bytes_nb f)
run (read_in granted fresh) f = read_buffer granted fresh f
run (seek offset origin) f = (ok tt, (set_pos offset origin f).1)
run (write start len) f = write_buffer start len f
run (write_values granted value count) f = write_value granted value count f
run (bulk_mode seeks bulk) f = set_bulk seeks bulk f

-- The remembered size of a file is never more than its length; out of bulk mode it is its length,
-- unless a write or a change of bulk mode has thrown WriteFileException: every operation that begins
-- inside the file keeps this, on a device that takes a write whole, cuts it short or refuses it.
pub run-IsMeasured :
    (op : Operation) (f : File)
    → IsWithin f
    → f.position ≤ length f.content
    → IsWithin (run op f).1
      × ((run op f).0 ≢ err write_file → IsMeasured f → IsMeasured (run op f).1)
run-IsMeasured op f within inside = after op
  where
    h : Kept f f
    h = (within, λ m. m)

    after : (op : Operation) → Leaves f (run op f)
    after (read bytes_nb) = finished-Leaves f _ (read-Leaves f f h inside bytes_nb)
    after (read_in granted fresh) = read_buffer-Leaves f granted fresh f h
    after (seek offset origin) = leaves f _ (set_pos-Kept f f h inside offset origin)
    after (write start len) = write_buffer-Leaves f f h inside start len
    after (write_values granted value count) = write_value-Leaves f f h inside granted value count
    after (bulk_mode seeks bulk) = set_bulk-Leaves f f h inside seeks bulk
