-- ===== src/Codec/Unsigned.antt =====
-- Round trips of the variable-length unsigned integers.
use nind.Prelude.{ℕ, ◌+◌, ◌/◌, ◌%◌, ◌^◌, ◌<◌, ◌≤◌, arith}
use native.Mathlib.Decide.{dec_lt}
use nind.Prelude.{◌≡◌, List, length}
use nind.Prelude.Exec.{ok}
use nind.Bytes.{byte}
use nind.ReadBuffer.{get_u_int_lat}
use nind.ReadBuffer.Decode.{
  get_u_int_lat1, get_u_int_lat2, get_u_int_lat3, get_u_int_lat4, get_u_int_lat5,
}
use nind.WriteBuffer.{WriteBuffer, put_u_int_lat}
use nind.WriteBuffer.Written.{
  HasRoom, written, lat1, lat2, lat3, lat4, lat5, put_u_int_lat1, put_u_int_lat2, put_u_int_lat3,
  put_u_int_lat4, put_u_int_lat5,
}
use nind.Codec.Defs.{ReadsBack}
use nind.Codec.Reread.{Decodes, reads_back}

lat1-Decodes : (v : ℕ) → v < 128 → Decodes get_u_int_lat (lat1 v) v
lat1-Decodes v h r a = get_u_int_lat1 r v a h

lat2-Decodes : (v : ℕ) → 128 ≤ v → v < 16384 → Decodes get_u_int_lat (lat2 v) v
lat2-Decodes v lo hi r a = ground (arith, get_u_int_lat2 r (v / 256 + 128) (v % 256) a)

lat3-Decodes : (v : ℕ) → 16384 ≤ v → v < 2097152 → Decodes get_u_int_lat (lat3 v) v
lat3-Decodes v lo hi r a =
    ground (arith, get_u_int_lat3 r (v / 65536 + 192) (v / 256 % 256) (v % 256) a)

lat4-Decodes : (v : ℕ) → 2097152 ≤ v → v < 268435456 → Decodes get_u_int_lat (lat4 v) v
lat4-Decodes v lo hi r a =
    ground
      (arith, get_u_int_lat4 r (v / 16777216 + 224) (v / 65536 % 256) (v / 256 % 256) (v % 256) a)

lat5-Decodes : (v : ℕ) → 268435456 ≤ v → v < 2 ^ 32 → Decodes get_u_int_lat (lat5 v) v
lat5-Decodes v lo hi r a =
    ground (
      arith,
      get_u_int_lat5 r 240 (v / 16777216 % 256) (v / 65536 % 256) (v / 256 % 256) (v % 256) a,
    )

-- The bytes that are put for `v`, with what is known of them; the first is never the mark 0xF8.
abbrev pub Encoded : ℕ → WriteBuffer → Type 0
Encoded v w =
    (bytes : List ℕ) × HasRoom w (length bytes)
    × (put_u_int_lat v w ≡ (ok tt, written w bytes))
    × Decodes get_u_int_lat bytes v
    × (0 < length bytes)
    × (byte bytes 0 < 248)

pub encoded : (v : ℕ) (w : WriteBuffer) → v < 2 ^ 32 → HasRoom w 5 → Encoded v w
encoded v w fits room = elim (dec_lt v 128) [
  | yes h1 ↦ (
    lat1 v,
    omega arith,
    put_u_int_lat1 v w (omega arith) h1,
    lat1-Decodes v h1,
    omega arith,
    omega arith,
  )
  | no n1 ↦ elim (dec_lt v 16384) [
    | yes h2 ↦ (
      lat2 v,
      omega arith,
      put_u_int_lat2 v w (omega arith) (omega arith) h2,
      lat2-Decodes v (omega arith) h2,
      omega arith,
      omega arith,
    )
    | no n2 ↦ elim (dec_lt v 2097152) [
      | yes h3 ↦ (
        lat3 v,
        omega arith,
        put_u_int_lat3 v w (omega arith) (omega arith) h3,
        lat3-Decodes v (omega arith) h3,
        omega arith,
        omega arith,
      )
      | no n3 ↦ elim (dec_lt v 268435456) [
        | yes h4 ↦ (
          lat4 v,
          omega arith,
          put_u_int_lat4 v w (omega arith) (omega arith) h4,
          lat4-Decodes v (omega arith) h4,
          omega arith,
          omega arith,
        )
        | no n4 ↦ (
          lat5 v,
          room,
          put_u_int_lat5 v w room (omega arith) fits,
          lat5-Decodes v (omega arith) fits,
          omega arith,
          omega arith,
        )
      ]
    ]
  ]
]

-- With room for five bytes, a number of 32 bits put as a latecon integer is read back.
pub get_u_int_lat-put :
    (v : ℕ) (w : WriteBuffer)
    → v < 2 ^ 32
    → HasRoom w 5
    → ReadsBack (put_u_int_lat v) get_u_int_lat v w
get_u_int_lat-put v w fits room =
    let (bytes, inside, done, decodes, _, _) = encoded v w fits room in
    reads_back (put_u_int_lat v) get_u_int_lat v w bytes inside done decodes
