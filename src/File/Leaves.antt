-- ===== src/File/Leaves.antt =====
-- What keeps the remembered size of a file: single steps, and steps one after another.
use nind.Prelude.{
  ℕ, ◌+◌, ◌≤◌, ◌≡◌, ◌≢◌, refl, max, inl, inr, List, length, splice, Bool, true, false, ltb, ltb→lt,
  ◌==◌, if◌then◌else◌, arith, Bool-cases,
}
use nind.Prelude.Exec.{Result, ok, err, Exec, Error, eof, write_file, continue, when_true, ◌>>=◌}
use nind.File.{
  File, Io, fread, accepted, fwrite, read_into, on_in_buffer, with_bytes, read_size_check_threshold,
  read_buffer, remember_size,
}
use nind.ReadBuffer.{ReadBuffer, clear, prepare}
use nind.WriteBuffer.{WriteBuffer}
use nind.File.Content.{length-overwrite}

-- Out of bulk mode, the remembered size is the length of the file.
unfoldable pub IsMeasured : File → Type 0
IsMeasured f = f.is_bulk ≡ false → f.file_size ≡ length f.content

-- The remembered size is at most the length of the file, in bulk mode too.
unfoldable pub IsWithin : File → Type 0
IsWithin f = f.file_size ≤ length f.content

-- What holds of the size of `f`, which comes from `start`: it is not too large, and it is right where
-- it was right at the start.
abbrev pub Kept : File → File → Type 0
Kept start f = IsWithin f × (IsMeasured start → IsMeasured f)

-- The file that an operation leaves beside its result: the size that is remembered may be too small
-- where it throws WriteFileException.
abbrev pub Leaves : {A : Type 0} → File → Result A × File → Type 0
Leaves start s = IsWithin s.1 × (s.0 ≢ err write_file → IsMeasured start → IsMeasured s.1)

module _ (start : File) where
  -- Where the size is at least the position, it is that of `Kept`.
  unfoldable pub Remembers : File → Type 0
  Remembers f =
      (max f.file_size f.position ≤ length f.content)
      × (IsMeasured start → f.is_bulk ≡ false → max f.file_size f.position ≡ length f.content)

  pub remember_size-Kept : (f : File) → Remembers f → Kept start (remember_size f).1
  unfolding IsMeasured IsWithin Remembers remember_size
  remember_size-Kept f h = elim (Bool-cases f.is_bulk) [
    | inl bulk ↦ rw (bulk, remember_size) (omega (arith, h.0), λ m e. absurd (cc))
    | inr synced ↦ elim (Bool-cases (ltb f.file_size f.position)) [
      | inl past ↦
          rw (synced, past, remember_size)
            (
              omega (arith, h.0, ltb→lt f.file_size f.position past),
              λ m e. omega (arith, h.1 m synced, ltb→lt f.file_size f.position past),
            )
      | inr within ↦
          rw (synced, within, remember_size)
            (ground (arith, h.0), λ m e. ground (arith, h.1 m synced))
    ]
  ]

  module _ (f : File) (h : Kept start f) (inside : f.position ≤ length f.content) where
    pub fwrite-Remembers : (new : List ℕ) → Remembers (fwrite new f).1
    unfolding IsMeasured IsWithin Remembers fwrite
    fwrite-Remembers new = elim (Bool-cases (length (accepted new f) == 0)) [
      | inl none_written ↦
          rw (none_written, fwrite) (omega (arith, h.0), λ m synced. omega (arith, h.1 m synced))
      | inr written ↦
          let len = length-overwrite f.content f.position (accepted new f) in
          rw (written, fwrite)
            (omega (arith, h.0, len), λ m synced. omega (arith, h.1 m synced, len))
    ]

    -- A write that is cut short leaves a file that is not shorter.
    pub fwrite-IsWithin : (new : List ℕ) → IsWithin (fwrite new f).1
    unfolding IsWithin Remembers
    fwrite-IsWithin new = omega (arith, (fwrite-Remembers new).0)

  pub out-Remembers :
      (f : File) (w : WriteBuffer) → Remembers f → Remembers (record f { out_buffer = w })
  unfolding Remembers
  out-Remembers f w h = h

  in-Kept : (f : File) (r : ReadBuffer) → Kept start f → Kept start (record f { in_buffer = r })
  unfolding IsMeasured IsWithin
  in-Kept f r h = h

  pub leaves : {A : Type 0} (s : Result A × File) → Kept start s.1 → Leaves start s
  leaves s (within, right) = (within, λ _. right)

  -- WriteFileException.
  pub refused : {A : Type 0} (f : File) → IsWithin f → Leaves {A = A} start (err write_file, f)
  refused f within = (within, λ other. absurd (other refl))

  pub if-Leaves :
      {A : Type 0} (b : Bool) (x y : Result A × File)
      → (b ≡ true → Leaves start x)
      → (b ≡ false → Leaves start y)
      → Leaves start (if b then x else y)
  if-Leaves true x y hx hy = hx refl
  if-Leaves false x y hx hy = hy refl

  continue-Leaves :
      {A B : Type 0} (r : Result A) (k : A → Io B) (f : File)
      → Leaves start (r, f)
      → ((a : A) → Kept start f → Leaves start (k a f))
      → Leaves start (continue r k f)
  continue-Leaves (ok a) k f (within, right) hk = hk a (within, right (λ e. cc))
  continue-Leaves (err e) k f (within, right) hk =
      (within, λ other. right (λ same. other (cc (same))))

  bind-Leaves :
      {A B : Type 0} (m : Io A) (k : A → Io B) (f : File)
      → Leaves start (m f)
      → ((a : A) (g : File) → Kept start g → Leaves start (k a g))
      → Leaves start ((m >>= k) f)
  bind-Leaves m k f h hk = continue-Leaves (m f).0 k (m f).1 h (λ a. hk a (m f).1)

  pub fread-Kept : (n : ℕ) (f : File) → Kept start f → Kept start (fread n f).1
  unfolding IsMeasured IsWithin fread
  fread-Kept n f h = elim (Bool-cases f.fails) [ inl e ↦ rw (e, fread) h | inr e ↦ rw (e, fread) h ]

  on_in_buffer-Leaves :
      {A : Type 0} (m : Exec ReadBuffer A) (f : File)
      → Kept start f
      → Leaves start (on_in_buffer m f)
  unfolding on_in_buffer
  on_in_buffer-Leaves m f h = leaves _ (in-Kept f (m f.in_buffer).1 h)

  when_true-Leaves :
      (b : Bool) (e : Error) (f : File) → Kept start f → Leaves start (when_true b e f)
  when_true-Leaves true e f h = leaves (err e, f) h
  when_true-Leaves false e f h = leaves (ok tt, f) h

  read_into-Leaves : (fresh : List ℕ) (f : File) → Kept start f → Leaves start (read_into fresh f)
  unfolding read_into
  read_into-Leaves fresh f h =
      if-Leaves (length (fread (length fresh) f).0 == length fresh) _ _ (λ _. leaves _ read)
        (λ _. if-Leaves f.fails _ _ (λ _. leaves _ read) (λ _. leaves _ read))
    where
      read :
          Kept start
            (with_bytes (splice fresh 0 (fread (length fresh) f).0) (fread (length fresh) f).1)
      read = in-Kept _ _ (fread-Kept (length fresh) f h)

  pub read_buffer-Leaves :
      (granted : Bool) (fresh : List ℕ) (f : File)
      → Kept start f
      → Leaves start (read_buffer granted fresh f)
  unfolding read_buffer
  read_buffer-Leaves granted fresh f h =
      bind-Leaves (on_in_buffer clear) _ f (on_in_buffer-Leaves clear f h) (λ _ g1 h1.
        bind-Leaves (when_true over eof) _ g1 (when_true-Leaves over eof g1 h1) (λ _ g2 h2.
          bind-Leaves (on_in_buffer (prepare granted fresh)) _ g2
            (on_in_buffer-Leaves (prepare granted fresh) g2 h2)
            (λ _ g3 h3. read_into-Leaves fresh g3 h3)))
    where
      over : Bool
      over =
          if ltb read_size_check_threshold (length fresh)
          then ltb (length f.content) (f.position + length fresh)
          else false
