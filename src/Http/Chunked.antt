-- ===== src/Http/Chunked.antt =====
-- src/http_replay/http_response_processor.cc: `ChunkedProcessor`, the body of a response in chunks.
-- `tmp_buf` holds the first `tmp_buf_size_` bytes of `tmp_buf_`, which are all that was written.
pub mod Rounds
pub mod SizeLine
pub mod Stream
pub mod Steps
pub mod Ends
pub mod Decode
pub mod SplitLine
pub mod Compare
use packet_replay.Base.{
  ℕ, zero, suc, ◌+◌, ◌-◌, ◌≤◌, Bool, true, false, ◌&&◌, ◌||◌, [], ◌∷◌, ◌++◌, Bytes, Result, ok, err,
  fault, runtime_error, diverges, ◌>>=◌, length, take, drop, leb, ◌==◌, if◌then◌else◌, Ordering,
  compare,
}
use packet_replay.Base.Int.{ℤ, pos, negsuc, sub_ℕ, to_int}
use packet_replay.Util.{split_at}
use packet_replay.Http.Numbers.{strtoul16}
use packet_replay.Http.ContentLen.{sign}

abbrev pub tmp_siz : ℕ
tmp_siz = 1024

pub record ChunkedProcessor : Type 0 where
  pub chunk_size : ℤ
  pub chunk_read : ℕ
  pub tmp_buf : Bytes
  pub chunk_end_char_count : ℕ
  pub body : Bytes
  pub complete : Bool

abbrev pub new_chunked : ChunkedProcessor
new_chunked = record {
  chunk_size = negsuc 0;
  chunk_read = 0;
  tmp_buf = [];
  chunk_end_char_count = 0;
  body = [];
  complete = false;
}

-- The C string at the start of a buffer that ends with a zero byte.
unfoldable pub c_string : Bytes → Bytes
unfolding split_at
c_string s = (split_at 0 s).0

abbrev starts_lf : Bytes → Bool
starts_lf [] = false
starts_lf (d ∷ t) = d == 10

-- `strstr(s, "\r\n") != nullptr`
unfoldable pub has_line_end : Bytes → Bool
has_line_end [] = false
has_line_end (c ∷ s) = (c == 13 && starts_lf s) || has_line_end s

-- What a round of the loop does: it returns, or goes on with the state and the rest of the data.
pub data Outcome : Type 0 where
  stop : Result (ChunkedProcessor × Bool) → Outcome
  more : ChunkedProcessor → Bytes → Outcome

-- The size of a chunk, from the bytes gathered; `rest` is the data of this call.
size_found : ChunkedProcessor → Bytes → ℕ × ℕ → Outcome
size_found c rest (v, zero) = stop (err runtime_error)
size_found c rest (v, suc n) = more (record c { chunk_size = to_int v }) (drop (suc n + 2) rest)

unfoldable pub size_round : ChunkedProcessor → Bytes → Outcome
unfolding size_found has_line_end c_string strtoul16
size_round c rest =
    let tmp = c.tmp_buf ++ take (tmp_siz - length c.tmp_buf) rest in
    let d = record c { tmp_buf = tmp } in
    if has_line_end (c_string tmp)
    then size_found d rest (strtoul16 (c_string tmp))
    else if length tmp == tmp_siz
    then stop (err runtime_error)
    else stop (ok (d, false))

-- `"invalid chunk terminator char " + data[nprocessed]` moves the pointer to the text, which has 30
-- characters, by the value of the byte.
bad_terminator : ℕ → Outcome
bad_terminator b = stop (err (if leb b 30 then runtime_error else fault))

-- The last chunk has the size 0; after another the state is reset for the next.
after_chunk : ChunkedProcessor → Bytes → ℤ → Outcome
after_chunk c rest (pos zero) = stop (ok (record c { complete = true }, true))
after_chunk c rest _ =
    more
      (record c { chunk_size = negsuc 0; chunk_read = 0; tmp_buf = []; chunk_end_char_count = 0 })
      rest

-- The bytes '\r' and '\n' after a chunk.
unfoldable pub end_round : ChunkedProcessor → ℕ → Bytes → ℕ → Outcome
unfolding bad_terminator after_chunk
end_round c b rest zero =
    if b == 13 then more (record c { chunk_end_char_count = 1 }) rest else bad_terminator b
end_round c b rest (suc zero) =
    if b == 10 then after_chunk c rest c.chunk_size else bad_terminator b
end_round c b rest (suc (suc n)) = more c (b ∷ rest)

-- `data_.insert(...)` of as much as there is of the chunk.
unfoldable pub data_round : ChunkedProcessor → ℕ → Bytes → Outcome
data_round c size rest =
    if leb c.chunk_read size
    then more
        (record c {
          body = c.body ++ take (size - c.chunk_read) rest;
          chunk_read = c.chunk_read + length (take (size - c.chunk_read) rest);
        })
        (drop (size - c.chunk_read) rest)
    else stop (err fault)

-- One round of the loop, on data that is not at its end: b and the rest.
unfoldable pub round : ChunkedProcessor → ℕ → Bytes → ℤ → Outcome
unfolding size_round end_round data_round
round c b rest (negsuc n) = size_round c (b ∷ rest)
round c b rest (pos size) =
    if c.chunk_read == size
    then end_round c b rest c.chunk_end_char_count
    else data_round c size (b ∷ rest)

unfoldable pub process_loop : ℕ → ChunkedProcessor → Bytes → Result (ChunkedProcessor × Bool)
process_loop fuel c [] = ok (c, false)
process_loop zero c (b ∷ rest) = err diverges
process_loop (suc fuel) c (b ∷ rest) = elim (round c b rest c.chunk_size) [
  | stop r ↦ r
  | more d rest' ↦ process_loop fuel d rest'
]

-- `process`: every round takes a byte at least.
unfoldable pub process : ChunkedProcessor → Bytes → Result (ChunkedProcessor × Bool)
unfolding process_loop round
process c bytes = process_loop (length bytes) c bytes

-- `strncmp`: two strings of at most n bytes, which end at a zero byte. A read past the end of a
-- buffer is a fault.
unfoldable pub strncmp : Bytes → Bytes → ℕ → Result Ordering
strncmp p q zero = ok Ordering.eq
strncmp (a ∷ p) (b ∷ q) (suc n) =
    let later = strncmp p q n in
    elim (compare a b) [
      | Ordering.eq ↦ if a == 0 then ok Ordering.eq else later
      | Ordering.lt ↦ ok Ordering.lt
      | Ordering.gt ↦ ok Ordering.gt
    ]
strncmp _ _ (suc n) = err fault

-- `compare` with a processor of the same kind.
unfoldable pub compare_with : ChunkedProcessor → ChunkedProcessor → Result ℤ
unfolding strncmp
compare_with c d =
    if length c.body == length d.body
    then (do o ← strncmp c.body d.body (length c.body); ok (sign o))
    else ok (sub_ℕ (length c.body) (length d.body))
