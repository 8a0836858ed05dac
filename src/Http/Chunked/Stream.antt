-- ===== src/Http/Chunked/Stream.antt =====
-- src/http_replay/http_response_processor.cc: a body in chunks, as it
-- is sent and as it arrives in pieces, and where the processor stands in it.
use packet_replay.Base.{
  ℕ, ◌+◌, ◌<◌, ◌^◌, ◌≡◌, ◌≢◌, Bool, true, false, List, [], ◌∷◌, ◌++◌, Bytes, length,
}
use packet_replay.Base.Int.{pos, negsuc}
use packet_replay.Http.Numbers.{hex_value}
use packet_replay.Http.Chunked.{ChunkedProcessor}
use packet_replay.Http.Chunked.SizeLine.{IsSize}

-- A chunk as the sender writes it: the digits of its size, and its data.
pub record Chunk : Type 0 where
  pub digits : Bytes
  pub text : Bytes

pub record IsChunk (k : Chunk) : Type 0 where
  pub size_is : IsSize k.digits
  pub value_is : hex_value 0 k.digits ≡ length k.text
  pub not_huge : length k.text < 2 ^ 31

-- The data of every chunk but the last is not empty, and that of the last is.
abbrev pub IsBody : List Chunk → Type 0
IsBody [] = ⊥
IsBody (k ∷ []) = IsChunk k × (k.text ≡ [])
IsBody (k ∷ l ∷ ks) = IsChunk k × ((k.text ≢ []) × IsBody (l ∷ ks))

-- Where the reading of a body stands: before a chunk, in the data of one with `left` to come and
-- the other chunks after it, before the line feed that ends one, or at the end.
pub data Place : Type 0 where
  at_size : List Chunk → Place
  in_data : Bytes → List Chunk → Place
  at_line_feed : List Chunk → Place
  finished : Place

abbrev pub texts : List Chunk → Bytes
texts [] = []
texts (k ∷ ks) = k.text ++ texts ks

-- The data still to come.
abbrev pub to_come : Place → Bytes
to_come (at_size ks) = texts ks
to_come (in_data left ks) = left ++ texts ks
to_come (at_line_feed ks) = texts ks
to_come finished = []

-- The pieces that a read may give, from one place to the next: any, but that the line with a size
-- comes whole. What follows the last chunk is not looked at.
pub data Takes : Place → Bytes → Place → Type 0 where
  nothing : {p : Place} → Takes p [] p
  size_line :
      {k : Chunk} {ks : List Chunk} {x : Bytes} {q : Place}
      → Takes (in_data k.text ks) x q
      → Takes (at_size (k ∷ ks)) (k.digits ++ 13 ∷ 10 ∷ x) q
  some_data : (a b : Bytes) {ks : List Chunk} → Takes (in_data (a ++ b) ks) a (in_data b ks)
  all_data :
      (a : Bytes) {ks : List Chunk} {x : Bytes} {q : Place}
      → Takes (in_data [] ks) x q
      → Takes (in_data a ks) (a ++ x) q
  carriage_return :
      {ks : List Chunk} {x : Bytes} {q : Place}
      → Takes (at_line_feed ks) x q
      → Takes (in_data [] ks) (13 ∷ x) q
  line_feed :
      {k : Chunk} {ks : List Chunk} {x : Bytes} {q : Place}
      → Takes (at_size (k ∷ ks)) x q
      → Takes (at_line_feed (k ∷ ks)) (10 ∷ x) q
  last_line_feed : (x : Bytes) → Takes (at_line_feed []) (10 ∷ x) finished

-- The processor at a place: what it knows of the chunk.
abbrev pub InChunk : ChunkedProcessor → ℕ → List Chunk → ℕ → Type 0
InChunk c left ks count =
    (n : ℕ) × (c.chunk_size ≡ pos n)
    × (c.chunk_read + left ≡ n)
    × (c.chunk_end_char_count ≡ count)
    × (n ≡ 0 → ks ≡ [])
    × (ks ≡ [] → n ≡ 0)

abbrev pub LaterChunks : List Chunk → Type 0
LaterChunks [] = Unit
LaterChunks (k ∷ ks) = IsBody (k ∷ ks)

abbrev pub Knows : ChunkedProcessor → Place → Type 0
Knows c (at_size ks) =
    IsBody ks
    × (c.chunk_size ≡ negsuc 0)
    × (c.chunk_read ≡ 0)
    × (c.tmp_buf ≡ [])
    × (c.chunk_end_char_count ≡ 0)
    × (c.complete ≡ false)
Knows c (in_data left ks) = LaterChunks ks × InChunk c (length left) ks 0 × (c.complete ≡ false)
Knows c (at_line_feed ks) = LaterChunks ks × InChunk c 0 ks 1 × (c.complete ≡ false)
Knows c finished = c.complete ≡ true

-- Its body and the data to come make up the whole.
pub record At (c : ChunkedProcessor) (whole : Bytes) (p : Place) : Type 0 where
  pub knows : Knows c p
  pub body_is : c.body ++ to_come p ≡ whole

abbrev pub is_finished : Place → Bool
is_finished finished = true
is_finished _ = false
