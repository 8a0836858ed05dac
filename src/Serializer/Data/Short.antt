-- ===== src/Serializer/Data/Short.antt =====
-- src/lib/conversation_serializer.cc: `read_action_data` when the first '>' comes early.
use packet_replay.Base.{
  ℕ, ◌<◌, ◌≡◌, refl, ap, ◌∙◌, Bool, false, [], ◌∷◌, ◌++◌, Bytes, err, fault, length, leb, arith,
}
use packet_replay.Stream.{Stream, stream_of, peek}
use packet_replay.Util.Tokens.{Lacks}
use packet_replay.Serializer.Data.{
  DataBuffer, check_tag, take_chunk, got_chunk, chunk_round, read_round, data_loop,
  read_action_data,
}
use packet_replay.Serializer.Data.Steps.{get_until-append, no_delim}

abbrev no_data : DataBuffer
no_data = record { found = []; buf = [] }

got_chunk-short :
    (overlap_copies : Bool) (n c : ℕ) (t : Bytes) (s : Stream)
    → length (c ∷ t) < 12
    → got_chunk overlap_copies n no_data (c ∷ t, s) ≡ err fault
unfolding got_chunk take_chunk
got_chunk-short overlap_copies n c t s h = rw few refl
  where
    few : leb 12 (length (c ∷ t)) ≡ false
    few = ground arith

read_round-fault :
    (overlap_copies : Bool) (run s : Bytes)
    → Lacks b'>' run
    → length run < 12
    → read_round overlap_copies no_data (stream_of (run ++ b'>' ∷ s)) ≡ err fault
unfolding read_round chunk_round peek check_tag
read_round-fault overlap_copies [] s l h = refl
read_round-fault overlap_copies (c ∷ t) s l h = rw (no_delim c l.0) (
    ap (got_chunk overlap_copies 8191 no_data) (get_until-append 8191 c t s (omega arith) l)
    ∙ got_chunk-short overlap_copies 8191 c t (stream_of (b'>' ∷ s)) h)

-- If the first '>' of the text comes before its thirteenth byte, `read_action_data` copies from a
-- range that ends before it starts or reads bytes of the buffer that were never written: whatever is
-- behind the '>', its behaviour is undefined. So it is for the text "<#DATA_END#>" that `write` writes
-- for an action without data.
pub short_run_faults :
    (overlap_copies : Bool) (run s : Bytes)
    → Lacks b'>' run
    → length run < 12
    → read_action_data overlap_copies (stream_of (run ++ b'>' ∷ s)) ≡ err fault
unfolding read_action_data data_loop
short_run_faults overlap_copies run s l h = rw (read_round-fault overlap_copies run s l h) refl
