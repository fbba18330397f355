-- ===== src/Tests/LocalIndex.antt =====
-- Documents of a local index: their terms put and got again, and a document set.
use nind.Prelude.{
  ℕ, zero, suc, ◌+◌, ◌%◌, ◌≡◌, ◌≢◌, refl, List, [], ◌∷◌, length, replicate, All, ◌==◌,
  if◌then◌else◌, arith, true, ◌^◌,
}
use nind.Prelude.Exec.{Result, ok, err, out_write_buffer, nind_local_index}
use nind.Prelude.Int.{within, pattern32}
use nind.ReadBuffer.{
  ReadBuffer, need, peek, next, advance, end_of_in_buffer, get_int1, get_s_int_lat,
}
use nind.Prelude.Map.{find}
use nind.Bytes.{lat_bits, sign_extend}
use nind.WriteBuffer.{WriteBuffer, room, move, store, put_int1, put_s_int_lat, sign_word}
use nind.Codec.{reread}
use nind.DocIdMap.{empty_map, find_doc, set_doc, flat_position}
use nind.DocIdMap.Changes.{empty_map-IsDocIdMap}
use nind.DocIdMap.Documents.{set_doc-IsDocIdMap, find_doc-set_doc}
use nind.LocalIndex.{Term, LocalIndex}
use nind.LocalIndex.Terms.{
  put_localisations, put_term, put_terms, get_localisations, get_term, get_terms, get_donnejes,
}
use nind.LocalIndex.Terms.Coding.{
  IsTerm, slat, localisations_bytes, last_position, term_bytes, terms_bytes,
}
use nind.LocalIndex.Terms.Again.{as_read, saturated}
use nind.LocalIndex.Documents.{put_document, set_local_def, taille_maximum, has_too_many}
use nind.LocalIndex.Queries.{decode_local_def, count_donnejes}
use nind.LocalIndex.Counting.{through, count_donnejes-get_donnejes}
use nind.LocalIndex.Decoded.{decode_local_def-put}
use nind.LocalIndex.Numbering.{IsNumbered, set_local_def-IsNumbered}
use nind.Tests.PadFile.{zeroed}
use nind.Tests.Index.{index}

-- Two terms, the second with a smaller identifier and with positions before those of the first.
abbrev document : List Term
document =
    record {
      term = 700;
      cg = 3;
      localisation =
          record { position = 40; length = 300 } ∷ record { position = 2; length = 5 } ∷ [];
    }
    ∷ record { term = 6; cg = 1; localisation = record { position = 1; length = 4 } ∷ [] }
    ∷ []

abbrev buffer : WriteBuffer
buffer = record { bytes = replicate 20 0; ptr = 1 }

document_put : put_terms 0 0 document buffer ≡ (
  ok tt,
  record {
    bytes =
        0
        ∷ 0x82
        ∷ 0xBC
        ∷ 3
        ∷ 2
        ∷ 40
        ∷ 255
        ∷ 0x5A
        ∷ 5
        ∷ 0xBD
        ∷ 0x4A
        ∷ 1
        ∷ 1
        ∷ 0x7F
        ∷ 4
        ∷ replicate 5 0;
    ptr = 15;
  },
)
unfolding put_terms put_term put_localisations put_s_int_lat put_int1 room move store within
    pattern32 sign_word
document_put = refl

abbrev read_buffer : ReadBuffer
read_buffer = record {
  bytes = 0x82 ∷ 0xBC ∷ 3 ∷ 2 ∷ 40 ∷ 255 ∷ 0x5A ∷ 5 ∷ 0xBD ∷ 0x4A ∷ 1 ∷ 1 ∷ 0x7F ∷ 4 ∷ 99 ∷ [];
  end = 14;
  ptr = 0;
  capacity = 15;
}

document_got : (get_donnejes read_buffer).0 ≡ ok (as_read document)
unfolding get_donnejes get_terms get_term get_localisations as_read saturated end_of_in_buffer
    get_int1 get_s_int_lat need peek next advance lat_bits sign_extend pattern32
document_got = refl

count_donnejes-get_donnejes_example : count_donnejes read_buffer ≡ (
  through (λ ts. length ts % 2 ^ 32) (get_donnejes read_buffer).0,
  (get_donnejes read_buffer).1,
)
count_donnejes-get_donnejes_example = count_donnejes-get_donnejes read_buffer

document-IsTerm : All IsTerm document
document-IsTerm = (
  record {
    term_fits = omega arith;
    cg_fits = omega arith;
    few = omega arith;
    positions_fit = ground arith;
  },
  (
    record {
      term_fits = omega arith;
      cg_fits = omega arith;
      few = omega arith;
      positions_fit = ground arith;
    },
    tt,
  ),
)

document_length : length (terms_bytes 0 0 document) ≡ 14
unfolding terms_bytes term_bytes localisations_bytes last_position slat within pattern32
document_length = refl

-- Document 2 ^ 40, in format v2.
abbrev fresh : List ℕ
fresh = replicate 50 7

abbrev put : Result (Unit {0}) × WriteBuffer
put = put_document true (2 ^ 40) 2 document (record { bytes = fresh; ptr = 0 })

decode_local_def-put_example :
    (put.0 ≡ ok tt)
    × ((decode_local_def true (2 ^ 40) 2 (reread (record { bytes = fresh; ptr = 0 }) put.1)).0
        ≡ ok (as_read document))
decode_local_def-put_example =
    decode_local_def-put true (2 ^ 40) 2 document (omega (arith, document_length)) (omega arith)
      (omega arith) document-IsTerm fresh (omega (arith, document_length)) (omega arith)

abbrev first_ident : ℕ
first_ident = 1

-- Document 9 is the first of the index.
abbrev local_index : LocalIndex
local_index = record { index = index; doc_id_trad_ext_int = set_doc 9 1 empty_map; curr_ident = 1 }

one : first_ident ≢ 0
one e = absurd (omega arith)

found : (j : ℕ) → find_doc (set_doc 9 1 empty_map) j ≡ (if 9 == j then 1 else find_doc empty_map j)
found j = find_doc-set_doc empty_map 9 1 j empty_map-IsDocIdMap one

nothing : (j : ℕ) → find_doc empty_map j ≡ 0
unfolding find_doc empty_map flat_position find
nothing j = refl

local_index-IsNumbered : IsNumbered (set_doc 9 1 empty_map) 1
local_index-IsNumbered = record {
  well_formed = (set_doc-IsDocIdMap empty_map 9 1 empty_map-IsDocIdMap one).0;
  at_most = λ i. ground (arith, found i, nothing i);
  apart = λ i j some same. ground (arith, found i, found j, nothing i, nothing j);
}

abbrev set_twelve : LocalIndex
set_twelve =
    (set_local_def zeroed 12 document (record { lexicon_words_nb = 3; lexicon_time = 7 })
      local_index).1

set_local_def-IsNumbered_example :
    IsNumbered set_twelve.doc_id_trad_ext_int set_twelve.curr_ident
    × ((j : ℕ)
        → 12 ≢ j
        → find_doc set_twelve.doc_id_trad_ext_int j ≡ find_doc (set_doc 9 1 empty_map) j)
set_local_def-IsNumbered_example =
    set_local_def-IsNumbered 12 local_index local_index-IsNumbered (omega arith) zeroed document
      (record { lexicon_words_nb = 3; lexicon_time = 7 })

-- A term of 256 localisations is refused, and nothing changes.
refused :
    set_local_def zeroed 12
      (record {
        term = 1;
        cg = 0;
        localisation = replicate 256 (record { position = 1; length = 1 });
      }
        ∷ [])
      (record { lexicon_words_nb = 3; lexicon_time = 7 })
      local_index
    ≡ (err nind_local_index, local_index)
unfolding set_local_def has_too_many
refused = refl

-- Terms far apart, at positions far apart: ten bytes each, where eight are reckoned.
abbrev far_apart : ℕ → ℕ → List Term
far_apart zero position = []
far_apart (suc n) position =
    record {
      term = if n % 2 == 0 then 1 else 2000000;
      cg = 0;
      localisation = record { position = position; length = 1 } ∷ [];
    }
    ∷ far_apart n (position + 10000)

too_small :
    (put_terms 0 0
      (far_apart 70 0)
      (record { bytes = replicate (taille_maximum 0 (far_apart 70 0)) 0; ptr = 0 })).0
    ≡ err out_write_buffer
unfolding put_terms put_term put_localisations put_s_int_lat put_int1 room move store within
    pattern32 sign_word taille_maximum
too_small = refl
