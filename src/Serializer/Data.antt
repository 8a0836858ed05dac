-- ===== src/Serializer/Data.antt =====
-- src/lib/conversation_serializer.cc: `read_action_data`, which reads up to the tag behind the data.
pub mod Steps
pub mod Runs
pub mod Loop
pub mod Short
pub mod Total
use packet_replay.Base.{
  ℕ, zero, suc, ◌+◌, ◌-◌, Bool, true, false, not, ◌||◌, [], ◌∷◌, ◌++◌, Option, none, some, Bytes,
  Result, ok, err, fault, runtime_error, diverges, guard, ◌>>◌, ◌>>=◌, length, take, drop, leb,
  bytes_eq, ◌==◌, if◌then◌else◌,
}
use packet_replay.Stream.{Stream, peek, get_byte, get_until, is_nil}
use packet_replay.Serializer.{data_end_tag}

-- `buf_size` in `read_action_data`.
abbrev pub buf_size : ℕ
buf_size = 8192

-- The bytes of `buf` before `read_ptr`, of which `end_tag_len` is 12, and the data so far.
pub record DataBuffer : Type 0 where
  pub found : Bytes
  pub buf : Bytes

-- What a round of the loop does: it leaves the loop, or goes on.
pub data Step : Type 0 where
  leave : Bytes → Stream → Step
  again : DataBuffer → Stream → Step

abbrev pub eof_byte : Option ℕ → ℕ
eof_byte none = 255
eof_byte (some c) = c

-- The end of a round: `if (input.eof()) break`.
abbrev pub end_step : DataBuffer → Stream → Step
end_step b s = if s.eof then leave b.found s else again b s

-- With a delimiter next, or at the end of the stream: the last bytes of `buf`, with the next, may be
-- the tag. Bytes of `buf` that were never written are not to be read.
unfoldable pub check_tag : DataBuffer → Stream → Result Step
unfolding get_byte
check_tag b s = do
  guard (leb 12 (length b.buf)) fault
  let (c, t) = get_byte s
  let last = take 12 b.buf ++ (eof_byte c ∷ [])
  ok (
      if bytes_eq (drop 1 last) data_end_tag
      then leave (b.found ++ take 1 last) t
      else end_step (record b { buf = last }) t)

-- The new bytes go behind those of `buf`; all but the last 12 are data, which are moved to the front
-- by `memcpy`. Where the two places overlap the standard leaves that undefined; `overlap_copies` is
-- whether the library's `memcpy` copies then.
unfoldable pub take_chunk : Bool → DataBuffer → Bytes → Result DataBuffer
take_chunk overlap_copies b chunk = do
  let all = b.buf ++ chunk
  let more = length all - 12
  guard (leb 12 (length all)) fault
  guard (overlap_copies || leb 12 more) fault
  ok record { found = b.found ++ take more all; buf = drop more all }

abbrev pub is_delim : Option ℕ → Bool
is_delim none = false
is_delim (some c) = c == b'>'

-- The round with the chunk that was read. A chunk that is shorter than the room for it ends at a
-- delimiter, or with the stream.
unfoldable pub got_chunk : Bool → ℕ → DataBuffer → Bytes × Stream → Result Step
got_chunk overlap_copies room b (chunk, t) = do
  guard (not (is_nil chunk)) runtime_error
  d ← take_chunk overlap_copies b chunk
  if length chunk == room then ok (end_step d t) else check_tag d t

-- The room is `size - 1`.
unfoldable pub chunk_round : Bool → ℕ → DataBuffer → Stream → Result Step
chunk_round overlap_copies room b s = got_chunk overlap_copies room b (get_until b'>' room s)

-- One round.
unfoldable pub read_round : Bool → DataBuffer → Stream → Result Step
unfolding peek
read_round overlap_copies b s =
    let (c, t) = peek s in
    if is_delim c
    then check_tag b t
    else chunk_round overlap_copies (buf_size - length b.buf - 1) b t

-- The loop: every round takes a byte at least, or ends it.
unfoldable pub data_loop : ℕ → Bool → DataBuffer → Stream → Result (Bytes × Stream)
unfolding read_round
data_loop zero overlap_copies b s = err diverges
data_loop (suc fuel) overlap_copies b s = do
  step ← read_round overlap_copies b s
  elim step [ leave found t ↦ ok (found, t) | again d t ↦ data_loop fuel overlap_copies d t ]

-- `read_action_data`
unfoldable pub read_action_data : Bool → Stream → Result (Bytes × Stream)
unfolding data_loop
read_action_data overlap_copies s =
    data_loop (suc (length s.left)) overlap_copies (record { found = []; buf = [] }) s
