-- ===== src/File/ReadIn.antt =====
-- `readBuffer` where the file has the bytes that are asked for.
use nind.Prelude.{
  ℕ, zero, suc, ◌+◌, ◌≤◌, ◌≡◌, refl, ap, sym, ◌∙◌, inl, inr, List, [], ◌∷◌, length, take, drop,
  length-take, length-drop, splice, append-nil, Bool, true, false, ltb, ==_iff, if◌then◌else◌,
  arith, Bool-cases, le→ltb,
}
use nind.Prelude.Exec.{Result, ok, when_true, eof, ◌>>◌}
use nind.ReadBuffer.{ReadBuffer, clear, prepare}
use nind.File.{File, Io, fread, read_into, on_in_buffer, read_buffer, read_size_check_threshold}

splice_all : (xs new : List ℕ) → length new ≡ length xs → splice xs 0 new ≡ new
splice_all xs new e = rw (beyond (0 + length new) xs (omega arith)) (append-nil new)
  where
    beyond : (n : ℕ) (xs : List ℕ) → length xs ≤ n → drop n xs ≡ []
    beyond zero [] le = refl
    beyond (suc n) [] le = refl
    beyond zero (x ∷ xs) le = absurd (omega arith)
    beyond (suc n) (x ∷ xs) le = beyond n xs (omega arith)

-- A read buffer made for bytes that it is then filled with.
pub record Holds (r : ReadBuffer) (bytes : List ℕ) : Type 0 where
  pub bytes_held : r.bytes ≡ bytes
  pub end_held : r.end ≡ length bytes
  pub ptr_held : r.ptr ≡ 0

module _ (f : File) (fresh : List ℕ) (sound : f.fails ≡ false)
    (inside : f.position + length fresh ≤ length f.content) where
  unfoldable pub chunk : List ℕ
  chunk = take (length fresh) (drop f.position f.content)

  length-chunk : length chunk ≡ length fresh
  unfolding chunk
  length-chunk = omega (
    arith,
    length-take (length fresh) (drop f.position f.content),
    length-drop f.position f.content,
  )

  fread_lem : fread (length fresh) f ≡ (chunk, record f { position = f.position + length chunk })
  unfolding fread chunk
  fread_lem = rw (sound, fread) refl

  read_into_lem :
      ((read_into fresh f).0 ≡ ok tt)
      × ((read_into fresh f).1.in_buffer ≡ record (f.in_buffer) { bytes = chunk })
  unfolding read_into
  read_into_lem =
      rw (fread_lem, read_into)
        (rw ((==_iff (length chunk) (length fresh)).1 length-chunk) (
          refl,
          ap (λ b. record (f.in_buffer) { bytes = b }) (splice_all fresh chunk length-chunk),
        ))

-- A read buffer that was made for the bytes, whatever its capacity.
made : ℕ → List ℕ → ReadBuffer
made capacity fresh = record { bytes = fresh; end = length fresh; ptr = 0; capacity = capacity }

module _ (f : File) (fresh : List ℕ) (sound : f.fails ≡ false)
    (inside : f.position + length fresh ≤ length f.content) where
  unfoldable pub Reads : Result (Unit {0}) × File → Type 0
  Reads s = (s.0 ≡ ok tt) × Holds (s.1.in_buffer) (chunk f fresh sound inside)

  read_into-made :
      (capacity : ℕ) → Reads (read_into fresh (record f { in_buffer = made capacity fresh }))
  unfolding Reads made chunk
  read_into-made capacity =
      let g = record f { in_buffer = made capacity fresh } in
      let (e, b) = read_into_lem g fresh sound inside in
      (
        e,
        record {
          bytes_held = ap (λ r. r.bytes) b;
          end_held = ap (λ r. r.end) b ∙ sym (length-chunk f fresh sound inside);
          ptr_held = ap (λ r. r.ptr) b;
        },
      )

  over : Bool
  over =
      if ltb read_size_check_threshold (length fresh)
      then ltb (length f.content) (f.position + length fresh)
      else false

  not_over : over ≡ false
  unfolding over
  not_over = elim (Bool-cases (ltb read_size_check_threshold (length fresh))) [
    | inl long ↦ rw (long, over) (le→ltb (length f.content) (f.position + length fresh) inside)
    | inr short ↦ rw (short, over) refl
  ]

  after_check :
      (b : Bool) (rest : Io (Unit {0})) (g : File)
      → b ≡ false
      → Reads (rest g)
      → Reads ((when_true b eof >> rest) g)
  after_check true rest g e h = absurd (cc)
  after_check false rest g e h = h

  prepared :
      (r : ReadBuffer)
      → Reads ((on_in_buffer (prepare true fresh) >> read_into fresh) (record f { in_buffer = r }))
  unfolding on_in_buffer prepare made
  prepared r = elim (Bool-cases (ltb r.capacity (length fresh))) [
    | inl small ↦ rw (small, prepare) (read_into-made (length fresh))
    | inr large ↦ rw (large, prepare) (read_into-made r.capacity)
  ]

  pub read_buffer_lem : Reads (read_buffer true fresh f)
  unfolding read_buffer on_in_buffer clear over
  read_buffer_lem = after_check over _ _ not_over (prepared _)
