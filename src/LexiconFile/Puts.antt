-- ===== src/LexiconFile/Puts.antt =====
-- A record put into the write buffer piece by piece.
use nind.Prelude.{
  ℕ, ◌+◌, ◌^◌, ◌<◌, ◌≤◌, ◌≡◌, refl, ap, List, [], ◌∷◌, ◌++◌, length, length-append, length-splice,
  All, arith,
}
use nind.Prelude.Exec.{ok, ◌>>◌}
use nind.WriteBuffer.{WriteBuffer, Write, put_int1, put_int3, put_int4, put_string}
use nind.WriteBuffer.Written.{HasRoom, written, written-written}
use nind.WriteBuffer.Fixed.{
  le3_bytes, le4_bytes, put_int1-written, put_int3-written, put_int4-written,
}
use nind.Codec.Text.{IsByte, put_string-written}
use nind.File.{File}
use nind.File.{write_buffer}
use nind.Lexicon.{SimpleWord}
use nind.LexiconFile.{
  on_out_buffer, simple_word_flag, compound_word_flag, identification_flag, write_identification,
  move_back,
}

-- The file with bytes put into its write buffer.
abbrev pub with_put : File → List ℕ → File
with_put f bytes = record f { out_buffer = written f.out_buffer bytes }

-- `put` puts these bytes wherever there is room.
abbrev pub Puts : Write → List ℕ → Type 0
Puts put bytes = (w : WriteBuffer) → HasRoom w (length bytes) → put w ≡ (ok tt, written w bytes)

module _ (f : File) where
  pub first_put :
      (put : Write) (bytes : List ℕ)
      → Puts put bytes
      → HasRoom f.out_buffer (length bytes)
      → on_out_buffer put f ≡ (ok tt, with_put f bytes)
  unfolding on_out_buffer
  first_put put bytes h room = rw (h f.out_buffer room, on_out_buffer) refl

  pub next_put :
      (put : Write) (before bytes : List ℕ)
      → Puts put bytes
      → HasRoom f.out_buffer (length before + length bytes)
      → on_out_buffer put (with_put f before) ≡ (ok tt, with_put f (before ++ bytes))
  unfolding on_out_buffer
  next_put put before bytes h room =
      rw (h (written f.out_buffer before) (omega (arith, kept)), on_out_buffer)
        (ap (λ w. (ok tt, record f { out_buffer = w }))
          (written-written f.out_buffer before bytes (omega arith)))
    where
      kept : length (written f.out_buffer before).bytes ≡ length f.out_buffer.bytes
      kept = length-splice f.out_buffer.bytes f.out_buffer.ptr before (omega arith)

module _ (f : File) (ident : ℕ) (word : SimpleWord) (max_ident identification : ℕ) where
  unfoldable pub whole : List ℕ
  whole =
      simple_word_flag
      ∷ (le3_bytes ident
          ++ (length word
              ∷ (((word ++ (identification_flag ∷ [])) ++ le3_bytes max_ident)
                  ++ le4_bytes identification)))

  pub put_simple :
      ident < 2 ^ 24
      → max_ident < 2 ^ 24
      → identification < 2 ^ 32
      → All IsByte word
      → length word ≤ 254
      → HasRoom f.out_buffer (length word + 13)
      → (do
        on_out_buffer (put_int1 simple_word_flag)
        on_out_buffer (put_int3 ident)
        on_out_buffer (put_string word)
        write_identification max_ident identification)
          f
        ≡ (do write_buffer 0 0; move_back 7) (with_put f whole)
  unfolding write_identification whole
  put_simple small small_max small_id bytes short room =
      rw
        (
          first_put f (put_int1 simple_word_flag) (simple_word_flag ∷ [])
              (λ w h. put_int1-written simple_word_flag w h (omega arith)) (omega arith),
          next_put f (put_int3 ident) (simple_word_flag ∷ []) (le3_bytes ident)
              (λ w h. put_int3-written ident w h small) (omega arith),
          next_put f (put_string word) (simple_word_flag ∷ le3_bytes ident) (length word ∷ word)
              (λ w h. put_string-written word w bytes short (omega arith)) (omega arith),
          next_put f (put_int1 identification_flag)
              (simple_word_flag ∷ (le3_bytes ident ++ (length word ∷ word)))
              (identification_flag ∷ [])
              (λ w h. put_int1-written identification_flag w h (omega arith)) (omega arith),
          next_put f (put_int3 max_ident)
              (simple_word_flag
                ∷ (le3_bytes ident ++ (length word ∷ (word ++ (identification_flag ∷ [])))))
              (le3_bytes max_ident) (λ w h. put_int3-written max_ident w h small_max)
              (omega (arith, length-append word (identification_flag ∷ []))),
          next_put f (put_int4 identification)
              (simple_word_flag
                ∷ (le3_bytes ident
                    ++ (length word
                        ∷ ((word ++ (identification_flag ∷ [])) ++ le3_bytes max_ident))))
              (le4_bytes identification) (λ w h. put_int4-written identification w h small_id)
              (omega (
                arith,
                length-append word (identification_flag ∷ []),
                length-append (word ++ (identification_flag ∷ [])) (le3_bytes max_ident),
              )),
        )
        refl

module _ (f : File) (ident first second max_ident identification : ℕ) where
  unfoldable pub whole_compound : List ℕ
  whole_compound =
      compound_word_flag
      ∷ (le3_bytes ident
          ++ (le3_bytes first
              ++ (le3_bytes second
                  ++ (identification_flag ∷ (le3_bytes max_ident ++ le4_bytes identification)))))

  pub put_compound :
      ident < 2 ^ 24
      → first < 2 ^ 24
      → second < 2 ^ 24
      → max_ident < 2 ^ 24
      → identification < 2 ^ 32
      → HasRoom f.out_buffer 18
      → (do
        on_out_buffer (put_int1 compound_word_flag)
        on_out_buffer (put_int3 ident)
        on_out_buffer (put_int3 first)
        on_out_buffer (put_int3 second)
        write_identification max_ident identification)
          f
        ≡ (do write_buffer 0 0; move_back 7) (with_put f whole_compound)
  unfolding write_identification whole_compound
  put_compound small small1 small2 small_max small_id room =
      let flag = compound_word_flag ∷ [] in
      let b1 = flag ++ le3_bytes ident in
      let b2 = b1 ++ le3_bytes first in
      let b3 = b2 ++ le3_bytes second in
      let b4 = b3 ++ (identification_flag ∷ []) in
      let b5 = b4 ++ le3_bytes max_ident in
      rw
        (
          first_put f (put_int1 compound_word_flag) flag
              (λ w h. put_int1-written compound_word_flag w h (omega arith)) (omega arith),
          next_put f (put_int3 ident) flag (le3_bytes ident)
              (λ w h. put_int3-written ident w h small) (omega arith),
          next_put f (put_int3 first) b1 (le3_bytes first)
              (λ w h. put_int3-written first w h small1) (omega arith),
          next_put f (put_int3 second) b2 (le3_bytes second)
              (λ w h. put_int3-written second w h small2) (omega arith),
          next_put f (put_int1 identification_flag) b3 (identification_flag ∷ [])
              (λ w h. put_int1-written identification_flag w h (omega arith)) (omega arith),
          next_put f (put_int3 max_ident) b4 (le3_bytes max_ident)
              (λ w h. put_int3-written max_ident w h small_max) (omega arith),
          next_put f (put_int4 identification) b5 (le4_bytes identification)
              (λ w h. put_int4-written identification w h small_id) (omega arith),
        )
        refl
