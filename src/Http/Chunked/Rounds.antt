-- ===== src/Http/Chunked/Rounds.antt =====
-- src/http_replay/http_response_processor.cc: the loop of `ChunkedProcessor::process` ends on any
-- data, since each of its rounds takes a byte at least.
use packet_replay.Base.{
  ℕ, zero, suc, ◌+◌, ◌-◌, ◌≤◌, ◌<◌, ◌≡◌, ◌≢◌, refl, ap, sym, ◌∙◌, Bool, true, Bool-cases, inl, inr,
  [], ◌∷◌, ◌++◌, Bytes, Result, ok, err, diverges, length, length-drop, length-take, take, leb,
  ◌==◌, arith, subst,
}
use packet_replay.Base.Int.{ℤ, pos, negsuc, to_int}
use packet_replay.Http.Chunked.{
  ChunkedProcessor, Outcome, stop, more, has_line_end, c_string, size_found, size_round,
  after_chunk, end_round, data_round, round, process_loop, process, bad_terminator, tmp_siz,
}
use packet_replay.Http.Numbers.{strtoul16}

-- Not more than the chunk was read, and nothing before its size is known.
abbrev pub Within : ℤ → ℕ → Type 0
Within (pos n) r = r ≤ n
Within (negsuc n) r = r ≡ 0

-- What holds between two rounds.
pub record Inv (c : ChunkedProcessor) : Type 0 where
  pub few : c.chunk_end_char_count ≤ 1
  pub within : Within c.chunk_size c.chunk_read

-- What a call returns: a processor with the invariant, or an error of the code.
abbrev pub IsEnd : Result (ChunkedProcessor × Bool) → Type 0
IsEnd (ok r) = Inv r.0
IsEnd (err e) = e ≢ diverges

-- A round that keeps the invariant, takes a byte of the n there are, and does not give up.
abbrev pub IsGood : ℕ → Outcome → Type 0
IsGood n (stop r) = IsEnd r
IsGood n (more d rest) = Inv d × (length rest < n)

Within-zero : (z : ℤ) (r : ℕ) → r ≡ 0 → Within z r
Within-zero (pos n) r h = omega arith
Within-zero (negsuc n) r h = h

size_found-IsGood :
    (c : ChunkedProcessor) (b : ℕ) (rest : Bytes) (v used : ℕ)
    → c.chunk_end_char_count ≤ 1
    → c.chunk_read ≡ 0
    → IsGood (suc (length rest)) (size_found c (b ∷ rest) (v, used))
unfolding size_found
size_found-IsGood c b rest v zero f r = λ h. cc
size_found-IsGood c b rest v (suc n) f r = (
  record { few = f; within = Within-zero (to_int v) c.chunk_read r },
  omega (arith, length-drop (suc n + 2) (b ∷ rest)),
)

size_round-IsGood :
    (c : ChunkedProcessor) (b : ℕ) (rest : Bytes)
    → c.chunk_end_char_count ≤ 1
    → c.chunk_read ≡ 0
    → IsGood (suc (length rest)) (size_round c (b ∷ rest))
unfolding size_round
size_round-IsGood c b rest f r =
    let tmp = c.tmp_buf ++ take (tmp_siz - length c.tmp_buf) (b ∷ rest) in
    let read = strtoul16 (c_string tmp) in
    elim (Bool-cases (has_line_end (c_string tmp))) [
      | inl found ↦
          rw (found, size_round)
            (size_found-IsGood (record c { tmp_buf = tmp }) b rest read.0 read.1 f r)
      | inr none' ↦ elim (Bool-cases (length tmp == tmp_siz)) [
        | inl full ↦ rw (none', full, size_round) (λ h. cc)
        | inr room ↦
            rw (none', room, size_round)
              (record { few = f; within = Within-zero c.chunk_size c.chunk_read r })
      ]
    ]

after_chunk-IsGood :
    (c : ChunkedProcessor) (rest : Bytes) (size : ℤ)
    → Inv c
    → IsGood (suc (length rest)) (after_chunk c rest size)
unfolding after_chunk
after_chunk-IsGood c rest (pos zero) i = record { few = i.few; within = i.within }
after_chunk-IsGood c rest (pos (suc n)) i = omega arith
after_chunk-IsGood c rest (negsuc n) i = omega arith

bad_terminator-IsGood : (b n : ℕ) → IsGood n (bad_terminator b)
unfolding bad_terminator
bad_terminator-IsGood b n = ground arith

end_round-IsGood :
    (c : ChunkedProcessor) (b : ℕ) (rest : Bytes) (k : ℕ)
    → Inv c
    → k ≤ 1
    → IsGood (suc (length rest)) (end_round c b rest k)
unfolding end_round bad_terminator
end_round-IsGood c b rest zero i h = elim (Bool-cases (b == 13)) [
  | inl cr ↦ rw cr (record { few = omega arith; within = i.within }, omega arith)
  | inr other ↦ rw other (bad_terminator-IsGood b (suc (length rest)))
]
end_round-IsGood c b rest (suc zero) i h = elim (Bool-cases (b == 10)) [
  | inl lf ↦ rw lf (after_chunk-IsGood c rest c.chunk_size i)
  | inr other ↦ rw other (bad_terminator-IsGood b (suc (length rest)))
]
end_round-IsGood c b rest (suc (suc k)) i h = absurd (omega arith)

data_round-IsGood :
    (c : ChunkedProcessor) (n b : ℕ) (rest : Bytes)
    → Inv c
    → c.chunk_size ≡ pos n
    → c.chunk_read ≤ n
    → c.chunk_read ≢ n
    → IsGood (suc (length rest)) (data_round c n (b ∷ rest))
unfolding data_round
data_round-IsGood c n b rest i e l ne =
    let size = n - c.chunk_read in
    rw (leb_true c.chunk_read n l, data_round)
      (
        record {
          few = i.few;
          within =
              subst (λ z. Within z (c.chunk_read + length (take size (b ∷ rest)))) (sym e)
                (omega (arith, length-take size (b ∷ rest)));
        },
        omega (arith, length-drop size (b ∷ rest)),
      )
  where
    leb_true : (a b : ℕ) → a ≤ b → leb a b ≡ true
    leb_true a b h = ground arith

round-IsGood :
    (c : ChunkedProcessor) (b : ℕ) (rest : Bytes) (size : ℤ)
    → Inv c
    → c.chunk_size ≡ size
    → IsGood (suc (length rest)) (round c b rest size)
unfolding round
round-IsGood c b rest (negsuc n) i e =
    size_round-IsGood c b rest i.few (subst (λ z. Within z c.chunk_read) e i.within)
round-IsGood c b rest (pos n) i e = elim (Bool-cases (c.chunk_read == n)) [
  | inl full ↦ rw full (end_round-IsGood c b rest c.chunk_end_char_count i i.few)
  | inr part ↦ rw part (
      data_round-IsGood c n b rest i e (subst (λ z. Within z c.chunk_read) e i.within)
        (ground (arith, part)))
]

-- What the loop does after a round, for the outcome of the round.
abbrev after : ℕ → Outcome → Result (ChunkedProcessor × Bool)
after fuel (stop r) = r
after fuel (more d rest) = process_loop fuel d rest

process_loop-after :
    (fuel : ℕ) (c : ChunkedProcessor) (b : ℕ) (rest : Bytes)
    → process_loop (suc fuel) c (b ∷ rest) ≡ after fuel (round c b rest c.chunk_size)
unfolding process_loop
process_loop-after fuel c b rest = ground arith

-- More fuel than bytes changes nothing.
process_loop-enough :
    (f g : ℕ) (c : ChunkedProcessor) (s : Bytes)
    → Inv c
    → length s ≤ f
    → length s ≤ g
    → process_loop f c s ≡ process_loop g c s
unfolding process_loop
process_loop-enough zero zero c [] i hf hg = refl
process_loop-enough zero (suc g) c [] i hf hg = refl
process_loop-enough (suc f) zero c [] i hf hg = refl
process_loop-enough (suc f) (suc g) c [] i hf hg = refl
process_loop-enough zero g c (b ∷ s) i hf hg = absurd (omega arith)
process_loop-enough (suc f) zero c (b ∷ s) i hf hg = absurd (omega arith)
process_loop-enough (suc f) (suc g) c (b ∷ s) i hf hg =
    process_loop-after f c b s
    ∙ after-enough (round c b s c.chunk_size) (round-IsGood c b s c.chunk_size i refl)
        (λ d rest j l. process_loop-enough f g d rest j (omega arith) (omega arith))
    ∙ sym (process_loop-after g c b s)
  where
    after-enough :
        (o : Outcome)
        → IsGood (suc (length s)) o
        → ((d : ChunkedProcessor) (rest : Bytes)
            → Inv d
            → length rest < suc (length s)
            → process_loop f d rest ≡ process_loop g d rest)
        → after f o ≡ after g o
    after-enough (stop r) h ih = refl
    after-enough (more d rest) (j, l) ih = ih d rest j l

process_loop-ends :
    (f : ℕ) (c : ChunkedProcessor) (s : Bytes) → Inv c → length s ≤ f → IsEnd (process_loop f c s)
unfolding process_loop
process_loop-ends zero c [] i h = i
process_loop-ends (suc f) c [] i h = i
process_loop-ends zero c (b ∷ s) i h = absurd (omega arith)
process_loop-ends (suc f) c (b ∷ s) i h = subst IsEnd (sym (process_loop-after f c b s)) (
    after-ends (round c b s c.chunk_size) (round-IsGood c b s c.chunk_size i refl)
      (λ d rest j l. process_loop-ends f d rest j (omega arith)))
  where
    after-ends :
        (o : Outcome)
        → IsGood (suc (length s)) o
        → ((d : ChunkedProcessor) (rest : Bytes)
            → Inv d
            → length rest < suc (length s)
            → IsEnd (process_loop f d rest))
        → IsEnd (after f o)
    after-ends (stop r) h ih = h
    after-ends (more d rest) (j, l) ih = ih d rest j l

-- On a processor that has not read beyond its chunk, `process` ends, whatever the data: it returns
-- such a processor again, or one of the errors of the code.
pub process_terminates : (c : ChunkedProcessor) (s : Bytes) → Inv c → IsEnd (process c s)
unfolding process
process_terminates c s i = process_loop-ends (length s) c s i (omega arith)

-- The loop, round by round.
pub process-more :
    (c d : ChunkedProcessor) (b : ℕ) (s rest : Bytes)
    → Inv c
    → round c b s c.chunk_size ≡ more d rest
    → process c (b ∷ s) ≡ process d rest
unfolding process
process-more c d b s rest i e =
    let good = subst (IsGood (suc (length s))) e (round-IsGood c b s c.chunk_size i refl) in
    process_loop-after (length s) c b s
    ∙ ap (after (length s)) e
    ∙ process_loop-enough (length s) (length rest) d rest good.0 (omega (arith, good.1))
        (omega arith)

pub process-stop :
    (c : ChunkedProcessor) (b : ℕ) (s : Bytes) (r : Result (ChunkedProcessor × Bool))
    → round c b s c.chunk_size ≡ stop r
    → process c (b ∷ s) ≡ r
unfolding process
process-stop c b s r e = process_loop-after (length s) c b s ∙ ap (after (length s)) e
