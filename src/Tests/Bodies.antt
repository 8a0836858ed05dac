-- ===== src/Tests/Bodies.antt =====
-- Bodies in chunks and of given lengths, and the theorems at these.
use packet_replay.Base.{
  ◌≡◌, ◌↔◌, refl, [], ◌∷◌, ◌++◌, Bytes, true, false, codes, ok, err, fault, length, drop, arith,
}
use packet_replay.Base.Int.{pos}
use packet_replay.Http.Numbers.{is_hex, hex_of, hex_value}
use packet_replay.Http.ContentLen
use packet_replay.Http.ContentLen.Pieces.{filled, process_overflow}
use packet_replay.Http.Chunked
use packet_replay.Http.Chunked.{ChunkedProcessor, new_chunked, c_string}
use packet_replay.Http.Chunked.Rounds.{IsEnd, process_terminates}
use packet_replay.Http.Chunked.SizeLine.{sized}
use packet_replay.Http.Chunked.Stream.{Chunk, IsChunk, texts}
use packet_replay.Http.Chunked.Decode.{encode, chunked_decoded}
use packet_replay.Http.Chunked.SplitLine.{split_line_skips}
use packet_replay.Http.Chunked.Compare.{compare_with_lem}

-- A body of four bytes that comes with five.
process_overflow_example : ContentLen.process (filled 4 (codes "ab")) (codes "cde") ≡ err fault
process_overflow_example = process_overflow 4 (codes "ab") (codes "cde") (omega arith) (omega arith)

abbrev pub first_chunk : Chunk
first_chunk = record { digits = codes "3"; text = codes "abc" }

abbrev pub last_chunk : Chunk
last_chunk = record { digits = codes "0"; text = [] }

pub first_chunk-IsChunk : IsChunk first_chunk
unfolding hex_value hex_of is_hex
first_chunk-IsChunk = record {
  size_is = record {
    hex = ground arith;
    some_digit = λ h. cc;
    fits = omega arith;
    in_range = omega arith;
  };
  value_is = ground arith;
  not_huge = omega arith;
}

pub last_chunk-IsChunk : IsChunk last_chunk
unfolding hex_value hex_of is_hex
last_chunk-IsChunk = record {
  size_is = record {
    hex = ground arith;
    some_digit = λ h. cc;
    fits = omega arith;
    in_range = omega arith;
  };
  value_is = ground arith;
  not_huge = omega arith;
}

chunked_decoded_example :
    (d : ChunkedProcessor) × (Chunked.process new_chunked
        (encode (first_chunk ∷ last_chunk ∷ []) ++ codes "HTTP")
      ≡ ok (d, true))
    × (d.complete ≡ true)
    × (d.body ≡ texts (first_chunk ∷ last_chunk ∷ []))
chunked_decoded_example =
    chunked_decoded first_chunk (last_chunk ∷ []) (codes "HTTP")
      (first_chunk-IsChunk, ((λ h. cc), (last_chunk-IsChunk, refl)))

process_terminates_example : IsEnd (Chunked.process new_chunked (codes "zz"))
process_terminates_example =
    process_terminates new_chunked (codes "zz") (record { few = omega arith; within = refl })

-- The line "3\r\n" comes in two reads: of the data "abc" the second skips the first byte.
split_line_skips_example :
    (Chunked.process new_chunked (codes "3")
      ≡ ok (record new_chunked { tmp_buf = codes "3" }, false))
    × (Chunked.process (record new_chunked { tmp_buf = codes "3" }) ((13 ∷ 10 ∷ []) ++ codes "abc")
        ≡ Chunked.process
            (sized new_chunked (codes "3") (codes "abc"))
            (drop (length (codes "3")) (codes "abc")))
unfolding is_hex hex_value hex_of
split_line_skips_example =
    split_line_skips new_chunked (codes "3") (13 ∷ 10 ∷ []) (codes "3") (codes "abc")
      (record { size_unknown = refl; none_read = refl; buffer_empty = refl; no_end = refl })
      (record {
        hex = ground arith;
        some_digit = λ h. cc;
        fits = omega arith;
        in_range = omega arith;
      })
      refl (λ h. cc) (λ h. cc)

-- The two bodies differ behind a zero byte.
abbrev zero_byte : Bytes → ChunkedProcessor
zero_byte s = record new_chunked { body = codes "a" ++ 0 ∷ s }

compare_with_example :
    (Chunked.compare_with (zero_byte (codes "b")) (zero_byte (codes "c")) ≡ ok (pos 0)) ↔ (
      (length (zero_byte (codes "b")).body ≡ length (zero_byte (codes "c")).body)
      × (c_string (zero_byte (codes "b")).body ≡ c_string (zero_byte (codes "c")).body))
compare_with_example = compare_with_lem (zero_byte (codes "b")) (zero_byte (codes "c"))
