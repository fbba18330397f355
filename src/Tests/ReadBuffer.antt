-- ===== src/Tests/ReadBuffer.antt =====
-- The read buffer on concrete bytes.
use nind.Prelude.{◌≡◌, refl, [], ◌∷◌, arith}
use nind.Prelude.Exec.{ok, err, undefined, ◌>>◌}
use nind.ReadBuffer.{
  ReadBuffer, get_bytes, get_u_int_lat, set_abs_end_in_buffer, set_in_buffer_ptr, need, peek,
  advance,
}
use nind.Bytes.{lat_bits}
use nind.ReadBuffer.Safety.{u_int_lat, run, run-Sound, get_bytes-past_end}
use nind.ReadBuffer.Safety.Rules.{Sound}

abbrev four_bytes : ReadBuffer
four_bytes = record { bytes = 0xC1 ∷ 0x02 ∷ 0x03 ∷ 0x04 ∷ []; end = 4; ptr = 0; capacity = 4 }

-- The logical end set to one byte, and the pointer set past it.
abbrev past_end : ReadBuffer
past_end = record { bytes = 0xC1 ∷ 0x02 ∷ 0x03 ∷ 0x04 ∷ []; end = 1; ptr = 3; capacity = 4 }

past_end_reached : (set_abs_end_in_buffer 1 >> set_in_buffer_ptr 3) four_bytes ≡ (ok tt, past_end)
unfolding set_abs_end_in_buffer set_in_buffer_ptr
past_end_reached = refl

get_three_bytes : (get_u_int_lat four_bytes).0 ≡ ok 0x10203
unfolding get_u_int_lat need peek advance lat_bits
get_three_bytes = refl

run-Sound_example : Sound four_bytes (run u_int_lat four_bytes)
run-Sound_example = run-Sound u_int_lat four_bytes (omega arith)

get_bytes-past_end_example : (get_bytes 100 past_end).0 ≡ err undefined
get_bytes-past_end_example =
    get_bytes-past_end 100 past_end (omega arith) (omega arith) (omega arith) (omega arith)
