-- ===== src/Http/Chunked/Ends.antt =====
-- src/http_replay/http_response_processor.cc: `ChunkedProcessor::process` on the line end behind the
-- data of a chunk.
use packet_replay.Base.{
  ℕ, zero, suc, ◌≡◌, ◌≢◌, refl, ap, sym, ◌∙◌, true, List, [], ◌∷◌, Bytes, ok, arith, subst,
}
use packet_replay.Base.Int.{pos}
use packet_replay.Http.Chunked.{
  ChunkedProcessor, stop, more, round, end_round, after_chunk, process,
}
use packet_replay.Http.Chunked.Rounds.{Within, process-more, process-stop}
use packet_replay.Http.Chunked.Stream.{Chunk, at_size, in_data, at_line_feed, finished, At}
use packet_replay.Http.Chunked.Steps.{with_count, for_next}

pub take_cr :
    (c : ChunkedProcessor) (whole : Bytes) (ks : List Chunk) (x : Bytes)
    → At c whole (in_data [] ks)
    → (process c (13 ∷ x) ≡ process (with_count c 1) x)
      × At (with_count c 1) whole (at_line_feed ks)
unfolding round end_round
take_cr c whole ks x at =
    let (later, (n, cs, l, e, z, z'), f) = at.knows in
    let r : c.chunk_read ≡ n = omega arith in
    (
      process-more c (with_count c 1) 13 x x
          (record {
            few = omega arith;
            within = subst (λ y. Within y c.chunk_read) (sym cs) (omega arith);
          })
          (rw (cs, e, round, r) (ground arith)),
      record { knows = (later, (n, cs, l, refl, z, z'), f); body_is = at.body_is },
    )

-- The line feed after a chunk, and after the last.
lf_round :
    (c : ChunkedProcessor) (x : Bytes) (n : ℕ)
    → c.chunk_size ≡ pos n
    → c.chunk_read ≡ n
    → c.chunk_end_char_count ≡ 1
    → n ≢ 0
    → round c 10 x c.chunk_size ≡ more (for_next c) x
unfolding round end_round after_chunk
lf_round c x zero cs r e h = absurd (h refl)
lf_round c x (suc n) cs r e h = rw (cs, e, round, r) (ground (arith, cs))

last_lf_round :
    (c : ChunkedProcessor) (x : Bytes)
    → c.chunk_size ≡ pos 0
    → c.chunk_read ≡ 0
    → c.chunk_end_char_count ≡ 1
    → round c 10 x c.chunk_size ≡ stop (ok (record c { complete = true }, true))
unfolding round end_round after_chunk
last_lf_round c x cs r e = rw (cs, e, round, r) (ground (arith, cs))

pub take_lf :
    (c : ChunkedProcessor) (whole : Bytes) (k : Chunk) (ks : List Chunk) (x : Bytes)
    → At c whole (at_line_feed (k ∷ ks))
    → (process c (10 ∷ x) ≡ process (for_next c) x) × At (for_next c) whole (at_size (k ∷ ks))
take_lf c whole k ks x at =
    let (later, (n, cs, l, e, z, z'), f) = at.knows in
    (
      process-more c (for_next c) 10 x x
          (record {
            few = omega arith;
            within = subst (λ y. Within y c.chunk_read) (sym cs) (omega arith);
          })
          (lf_round c x n cs (omega arith) e (λ h. cc (z h))),
      record { knows = (later, refl, refl, refl, refl, f); body_is = at.body_is },
    )

pub take_last :
    (c : ChunkedProcessor) (whole : Bytes) (x : Bytes)
    → At c whole (at_line_feed [])
    → (process c (10 ∷ x) ≡ ok (record c { complete = true }, true))
      × At (record c { complete = true }) whole finished
take_last c whole x at =
    let (later, (n, cs, l, e, z, z'), f) = at.knows in
    (
      process-stop c 10 x (ok (record c { complete = true }, true))
          (last_lf_round c x (cs ∙ ap pos (z' refl)) (omega (arith, z' refl)) e),
      record { knows = refl; body_is = at.body_is },
    )
