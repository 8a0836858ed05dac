-- ===== src/Http/Chunked/SplitLine.antt =====
-- src/http_replay/http_response_processor.cc: a line with the size of a chunk that comes in two
-- reads.
use mathlib.Core.List.{append_assoc}
use packet_replay.Base.{
  ℕ, suc, ◌+◌, ◌≤◌, ◌<◌, ◌-◌, take, ◌≡◌, ◌≢◌, refl, ap, sym, ◌∙◌, false, [], ◌∷◌, ◌++◌, Bytes, ok,
  length, length-append, drop, arith, subst,
}
use packet_replay.Base.Int.{negsuc}
use packet_replay.Http.Numbers.{is_hex}
use packet_replay.Http.Numbers.Hex.{AllHex}
use packet_replay.Http.Chunked.{
  ChunkedProcessor, round, size_round, has_line_end, c_string, process, tmp_siz, stop, more,
}
use packet_replay.Http.Chunked.Rounds.{Within, process-stop}
use packet_replay.Http.Chunked.SizeLine.{IsSize, sized, size_round_line}
use packet_replay.Http.Chunked.Steps.{process-more_of, take_long}

-- What holds of a processor before a chunk.
pub record IsFresh (c : ChunkedProcessor) : Type 0 where
  pub size_unknown : c.chunk_size ≡ negsuc 0
  pub none_read : c.chunk_read ≡ 0
  pub buffer_empty : c.tmp_buf ≡ []
  pub no_end : c.chunk_end_char_count ≡ 0

-- The first part of a line holds neither the end of the line nor a zero byte.
part_of_line :
    (a b d : Bytes)
    → a ++ b ≡ d ++ 13 ∷ 10 ∷ []
    → b ≢ []
    → AllHex d
    → (c_string a ≡ a) × (has_line_end a ≡ false) × (length a ≤ length d + 1)
unfolding c_string has_line_end is_hex
part_of_line [] b d e n h = (refl, refl, omega arith)
part_of_line (y ∷ []) b [] e n h =
    let e' : y ≡ 13 = cc in (ground (arith, e'), ground arith, omega arith)
part_of_line (y ∷ z ∷ a) [] [] e n h = absurd (n refl)
part_of_line (y ∷ z ∷ a) (x ∷ b) [] e n h =
    absurd (omega (arith, ap length e, length-append {0} a (x ∷ b)))
part_of_line (y ∷ a) b (c ∷ d) e n (hc, h) =
    let e' : y ≡ c = cc in
    let (s, l, k) = part_of_line a b d (cc) n h in
    (ground (arith, e', s), ground (arith, e', l), omega arith)

append-ne-nil_left : (b x : Bytes) → b ≢ [] → b ++ x ≢ []
append-ne-nil_left [] x h = absurd (h refl)
append-ne-nil_left (y ∷ b) x h = λ e. cc

drop_add : (b x : Bytes) (k : ℕ) → drop (length b + k) (b ++ x) ≡ drop k x
drop_add [] x k = ap (λ n. drop n x) (omega arith)
drop_add (y ∷ b) x k = ap (λ n. drop n (y ∷ (b ++ x))) (suc_add (length b) k) ∙ drop_add b x k
  where
    suc_add : (n k : ℕ) → suc n + k ≡ suc (n + k)
    suc_add n k = omega arith

-- A round that does not find the end of the line keeps the bytes.
size_round_short :
    (c : ChunkedProcessor) (s t : Bytes)
    → c.tmp_buf ++ take (tmp_siz - length c.tmp_buf) s ≡ t
    → has_line_end (c_string t) ≡ false
    → length t < tmp_siz
    → size_round c s ≡ stop (ok (record c { tmp_buf = t }, false))
unfolding size_round
size_round_short c s t e l h = rw (size_round, e, l) (ground (arith, h))

first_part :
    (c : ChunkedProcessor) (a b d : Bytes)
    → IsFresh c
    → IsSize d
    → a ++ b ≡ d ++ 13 ∷ 10 ∷ []
    → a ≢ []
    → b ≢ []
    → process c a ≡ ok (record c { tmp_buf = a }, false)
unfolding round
first_part c [] b d f w e na nb = absurd (na refl)
first_part c (y ∷ a) b d f w e na nb =
    let (s, l, k) = part_of_line (y ∷ a) b d e nb w.hex in
    process-stop c y a (ok (record c { tmp_buf = y ∷ a }, false)) (
      ap (λ z. round c y a z) f.size_unknown
      ∙ size_round_short c (y ∷ a) (y ∷ a)
          (ap (λ m. m ++ take (tmp_siz - length m) (y ∷ a)) f.buffer_empty
            ∙ take_long 1024 (y ∷ a) (omega (arith, w.fits)))
          (ap has_line_end s ∙ l) (omega (arith, w.fits)))

-- The two parts of a line are read in two calls. The second call goes on too far, by the length of
-- the first part: so many bytes of the chunk are skipped.
pub split_line_skips :
    (c : ChunkedProcessor) (a b d x : Bytes)
    → IsFresh c
    → IsSize d
    → a ++ b ≡ d ++ 13 ∷ 10 ∷ []
    → a ≢ []
    → b ≢ []
    → (process c a ≡ ok (record c { tmp_buf = a }, false))
      × (process (record c { tmp_buf = a }) (b ++ x) ≡ process (sized c d x) (drop (length a) x))
unfolding round
split_line_skips c a b d x f w e na nb =
    let g = record c { tmp_buf = a } in
    (
      first_part c a b d f w e na nb,
      process-more_of g (sized c d x) (b ++ x) (drop (length a) x) (negsuc 0)
          (record {
            few = omega (arith, f.no_end);
            within = subst (λ z. Within z c.chunk_read) (sym f.size_unknown) f.none_read;
          })
          (append-ne-nil_left b x nb) f.size_unknown
          (λ y s q.
            size_round_line g (y ∷ s) d x w
              (omega (arith, (part_of_line a b d e nb w.hex).2, w.fits))
              (ap (λ t. a ++ t) (sym q)
                ∙ sym (append_assoc a b x)
                ∙ ap (λ t. t ++ x) e
                ∙ append_assoc d (13 ∷ 10 ∷ []) x)
            ∙ ap (more (sized c d x)) (
                ap (drop (length d + 2)) (sym q)
                ∙ ap (λ n. drop n (b ++ x))
                    (omega (
                      arith,
                      length-append {0} a b,
                      length-append {0} d (13 ∷ 10 ∷ []),
                      ap length e,
                    ))
                ∙ drop_add b x (length a))),
    )
