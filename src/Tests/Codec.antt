-- ===== src/Tests/Codec.antt =====
-- The encoders and decoders of src/cpp/NindBasics on concrete bytes.
use nind.Prelude.{ℕ, ◌^◌, ◌≡◌, refl, List, [], ◌∷◌, arith, replicate}
use nind.Prelude.Exec.{ok, err, out_of_bound}
use nind.Prelude.Int.{negsuc, within, pattern32}
use nind.ReadBuffer.{get_u_int_lat, get_s_int_lat, get_u_int_lat64, get_string}
use nind.WriteBuffer.{
  WriteBuffer, put_u_int_lat, put_s_int_lat, put_u_int_lat64, put_string, put_int3, room, move,
  store, sign_word,
}
use nind.Codec.{ReadsBack}
use nind.Codec.Unsigned.{get_u_int_lat-put}
use nind.Codec.Signed.{get_s_int_lat-put}
use nind.Codec.Wide.{get_u_int_lat64-put}
use nind.Codec.Text.{get_string-put}
use nind.Codec.Fixed.{five, put_fixed, get_fixed, get_fixed-put}

-- A buffer of twelve bytes with two of them put.
abbrev buffer : WriteBuffer
buffer = record { bytes = replicate 12 0xAA; ptr = 2 }

put_300 :
    put_u_int_lat 300 buffer
    ≡ (ok tt, record { bytes = 0xAA ∷ 0xAA ∷ 0x81 ∷ 0x2C ∷ replicate 8 0xAA; ptr = 4 })
unfolding put_u_int_lat room move store
put_300 = refl

put_minus_two :
    put_s_int_lat (negsuc 1) buffer
    ≡ (ok tt, record { bytes = 0xAA ∷ 0xAA ∷ 0x7E ∷ replicate 9 0xAA; ptr = 3 })
unfolding put_s_int_lat room move store within pattern32 sign_word
put_minus_two = refl

put_int3_refused : put_int3 0x1000000 buffer ≡ (err out_of_bound, buffer)
unfolding put_int3
put_int3_refused = refl

get_u_int_lat-put_example : ReadsBack (put_u_int_lat 300) get_u_int_lat 300 buffer
get_u_int_lat-put_example = get_u_int_lat-put 300 buffer (omega arith) (omega arith)

get_s_int_lat-put_example : ReadsBack (put_s_int_lat (negsuc 70)) get_s_int_lat (negsuc 70) buffer
get_s_int_lat-put_example = get_s_int_lat-put (negsuc 70) buffer (omega arith) (omega arith)

get_u_int_lat64-put_example : ReadsBack (put_u_int_lat64 (2 ^ 40)) get_u_int_lat64 (2 ^ 40) buffer
get_u_int_lat64-put_example = get_u_int_lat64-put (2 ^ 40) buffer (omega arith) (omega arith)

get_fixed-put_example : ReadsBack (put_fixed five 0x123456789A) (get_fixed five) 0x123456789A buffer
get_fixed-put_example = get_fixed-put five 0x123456789A buffer (omega arith) (omega arith)

abbrev chat : List ℕ
chat = b'c' ∷ b'h' ∷ b'a' ∷ b't' ∷ []

get_string-put_example : ReadsBack (put_string chat) get_string chat buffer
get_string-put_example = get_string-put chat buffer (omega arith) (omega arith) (omega arith)
