-- ===== src/Http/Chunked/Steps.antt =====
-- src/http_replay/http_response_processor.cc: `ChunkedProcessor::process` on the parts of a chunk.
use mathlib.Core.List.{append_assoc, append-nil}
use packet_replay.Base.{
  ℕ, zero, suc, ◌+◌, ◌-◌, ◌≤◌, ◌<◌, ◌^◌, ◌≡◌, ◌≢◌, refl, ap, sym, ◌∙◌, true, false, List, [], ◌∷◌,
  ◌++◌, Bytes, ok, length, length-append, drop, drop-append, take, take-append, leb, ◌==◌, arith,
  subst,
}
use packet_replay.Base.Int.{ℤ, pos, negsuc, to_int}
use packet_replay.Http.Chunked.{ChunkedProcessor, more, round, data_round, process}
use packet_replay.Http.Chunked.Rounds.{Inv, Within, process-more}
use packet_replay.Http.Chunked.SizeLine.{sized, size_round_line}
use packet_replay.Http.Chunked.Stream.{
  Chunk, IsChunk, IsBody, at_size, in_data, texts, InChunk, LaterChunks, At,
}

to_int_lem : (n : ℕ) → n < 2 ^ 31 → to_int n ≡ pos n
to_int_lem n h = ground arith

-- The states that the parts of a chunk lead to.
abbrev pub with_data : ChunkedProcessor → Bytes → ChunkedProcessor
with_data c a = record c { body = c.body ++ a; chunk_read = c.chunk_read + length a }

abbrev pub with_count : ChunkedProcessor → ℕ → ChunkedProcessor
with_count c n = record c { chunk_end_char_count = n }

abbrev pub for_next : ChunkedProcessor → ChunkedProcessor
for_next c = record c {
  chunk_size = negsuc 0;
  chunk_read = 0;
  tmp_buf = [];
  chunk_end_char_count = 0;
}

IsBody-head : (k : Chunk) (ks : List Chunk) → IsBody (k ∷ ks) → IsChunk k × LaterChunks ks
IsBody-head k [] h = (h.0, tt)
IsBody-head k (l ∷ ks) h = (h.0, h.1.1)

sized-InChunk :
    (c : ChunkedProcessor) (k : Chunk) (ks : List Chunk) (x : Bytes)
    → IsBody (k ∷ ks)
    → c.chunk_read ≡ 0
    → c.chunk_end_char_count ≡ 0
    → InChunk (sized c k.digits x) (length k.text) ks 0
sized-InChunk c k ks x h r e =
    let w = (IsBody-head k ks h).0 in
    (
      length k.text,
      ap to_int w.value_is ∙ to_int_lem (length k.text) w.not_huge,
      omega arith,
      e,
      only_last k ks h,
      last_only k ks h,
    )
  where
    length-zero : (t : Bytes) → length t ≡ 0 → t ≡ []
    length-zero [] h = refl
    length-zero (b ∷ t) h = absurd (omega arith)

    only_last : (k : Chunk) (ks : List Chunk) → IsBody (k ∷ ks) → length k.text ≡ 0 → ks ≡ []
    only_last k [] h z = refl
    only_last k (l ∷ ks) h z = absurd (h.1.0 (length-zero k.text z))

    last_only : (k : Chunk) (ks : List Chunk) → IsBody (k ∷ ks) → ks ≡ [] → length k.text ≡ 0
    last_only k [] h z = ap length h.1
    last_only k (l ∷ ks) h z = cc

cons_of : (d : Bytes) (x : Bytes) → d ≢ [] → (b : ℕ) × (s : Bytes) × (d ++ x ≡ b ∷ s)
cons_of [] x h = absurd (h refl)
cons_of (b ∷ d) x h = (b, d ++ x, refl)

pub process-more_of :
    (c d : ChunkedProcessor) (t rest : Bytes) (z : ℤ)
    → Inv c
    → t ≢ []
    → c.chunk_size ≡ z
    → ((b : ℕ) (s : Bytes) → t ≡ b ∷ s → round c b s z ≡ more d rest)
    → process c t ≡ process d rest
process-more_of c d [] rest z i n e h = absurd (n refl)
process-more_of c d (b ∷ s) rest z i n e h =
    process-more c d b s rest i (ap (λ y. round c b s y) e ∙ h b s refl)

drop_line : (d x : Bytes) → drop (length d + 2) (d ++ 13 ∷ 10 ∷ x) ≡ x
drop_line d x =
    ap (λ n. drop n (d ++ 13 ∷ 10 ∷ x)) (sym (length-append d (13 ∷ 10 ∷ [])))
    ∙ ap (drop (length (d ++ 13 ∷ 10 ∷ []))) (sym (append_assoc d (13 ∷ 10 ∷ []) x))
    ∙ drop-append (d ++ 13 ∷ 10 ∷ []) x

pub append-ne-nil : (d x : Bytes) (b : ℕ) → d ++ b ∷ x ≢ []
append-ne-nil [] x b h = cc
append-ne-nil (y ∷ d) x b h = cc

pub take_size :
    (c : ChunkedProcessor) (whole : Bytes) (k : Chunk) (ks : List Chunk) (x : Bytes)
    → At c whole (at_size (k ∷ ks))
    → (process c (k.digits ++ 13 ∷ 10 ∷ x) ≡ process (sized c k.digits x) x)
      × At (sized c k.digits x) whole (in_data k.text ks)
unfolding round
take_size c whole k ks x at =
    let (hb, cs, r, t, e, f) = at.knows in
    let w = IsBody-head k ks hb in
    let line = k.digits ++ 13 ∷ 10 ∷ x in
    (
      process-more_of c (sized c k.digits x) line x (negsuc 0)
          (record { few = omega arith; within = subst (λ z. Within z c.chunk_read) (sym cs) r })
          (append-ne-nil k.digits (10 ∷ x) 13) cs
          (λ b s q.
            size_round_line c (b ∷ s) k.digits x w.0.size_is (omega (arith, ap length t))
              (ap (λ m. m ++ b ∷ s) t ∙ sym q)
            ∙ ap (more (sized c k.digits x))
                (ap (drop (length k.digits + 2)) (sym q) ∙ drop_line k.digits x)),
      record { knows = (w.1, sized-InChunk c k ks x hb r e, f); body_is = at.body_is },
    )

with_data-nil : (c : ChunkedProcessor) → c ≡ with_data c []
with_data-nil c = same (sym (append-nil c.body)) (omega arith)
  where
    same :
        {b : Bytes} {n : ℕ}
        → c.body ≡ b
        → c.chunk_read ≡ n
        → c ≡ record c { body = b; chunk_read = n }
    same p q = λ i. record c { body = p i; chunk_read = q i }

ne_test : (i j : ℕ) → i < j → (i == j) ≡ false
ne_test i j h = ground arith

-- A round on the data of a chunk: all that is given, or all that is left of the chunk.
data_round_lem :
    (c : ChunkedProcessor) (n : ℕ) (a x : Bytes)
    → c.chunk_read + length a ≤ n
    → take (n - c.chunk_read) (a ++ x) ≡ a
    → drop (n - c.chunk_read) (a ++ x) ≡ x
    → data_round c n (a ++ x) ≡ more (with_data c a) x
unfolding data_round
data_round_lem c n a x l t d = rw (leb_true c.chunk_read n (omega arith), t, d) refl
  where
    leb_true : (i j : ℕ) → i ≤ j → leb i j ≡ true
    leb_true i j h = ground arith

pub take_all :
    (c : ChunkedProcessor) (whole a : Bytes) (ks : List Chunk) (x : Bytes)
    → At c whole (in_data a ks)
    → (process c (a ++ x) ≡ process (with_data c a) x) × At (with_data c a) whole (in_data [] ks)
unfolding round
take_all c whole [] ks x at = (
  ap (λ d. process d x) (with_data-nil c),
  subst (λ d. At d whole (in_data [] ks)) (with_data-nil c) at,
)
take_all c whole (b ∷ a) ks x at =
    let (later, (n, cs, l, e, z, z'), f) = at.knows in
    (
      process-more_of c (with_data c (b ∷ a)) (b ∷ (a ++ x)) x (pos n)
          (record {
            few = omega arith;
            within = subst (λ y. Within y c.chunk_read) (sym cs) (omega arith);
          })
          (λ h. cc) cs
          (λ d s q.
            rw (ne_test c.chunk_read n (omega arith))
              (ap (data_round c n) (sym q) ∙ whole_rest n l)),
      record {
        knows = (later, (n, cs, omega (arith, l), e, z, z'), f);
        body_is = append_assoc c.body (b ∷ a) (texts ks) ∙ at.body_is;
      },
    )
  where
    whole_rest :
        (n : ℕ)
        → c.chunk_read + suc (length a) ≡ n
        → data_round c n ((b ∷ a) ++ x) ≡ more (with_data c (b ∷ a)) x
    whole_rest n l =
        let k : n - c.chunk_read ≡ length (b ∷ a) = omega arith in
        data_round_lem c n (b ∷ a) x (omega arith) (rw k (take-append (b ∷ a) x))
          (rw k (drop-append (b ∷ a) x))

pub take_long : (k : ℕ) (xs : Bytes) → length xs ≤ k → take k xs ≡ xs
take_long zero [] h = refl
take_long zero (x ∷ xs) h = absurd (omega arith)
take_long (suc k) [] h = refl
take_long (suc k) (x ∷ xs) h = ap (◌∷◌ x) (take_long k xs (omega arith))

drop_long : (k : ℕ) (xs : Bytes) → length xs ≤ k → drop k xs ≡ []
drop_long zero [] h = refl
drop_long zero (x ∷ xs) h = absurd (omega arith)
drop_long (suc k) [] h = refl
drop_long (suc k) (x ∷ xs) h = drop_long k xs (omega arith)

pub process-nil : (c : ChunkedProcessor) → process c [] ≡ ok (c, false)
unfolding process
process-nil c = refl

some_read :
    (c : ChunkedProcessor) (n : ℕ) (a : Bytes)
    → c.chunk_size ≡ pos n
    → c.chunk_read + length a ≤ n
    → c.chunk_end_char_count ≡ 0
    → process c a ≡ ok (with_data c a, false)
unfolding round
some_read c n [] cs l e = process-nil c ∙ ap (λ d. ok (d, false)) (with_data-nil c)
some_read c n (b ∷ a) cs l e =
    process-more_of c (with_data c (b ∷ a)) (b ∷ a) [] (pos n)
      (record {
        few = omega arith;
        within = subst (λ y. Within y c.chunk_read) (sym cs) (omega arith);
      })
      (λ h. cc) cs
      (λ d s q. rw (ne_test c.chunk_read n (omega arith)) (ap (data_round c n) (sym q) ∙ all_read))
    ∙ process-nil (with_data c (b ∷ a))
  where
    all_read : data_round c n (b ∷ a) ≡ more (with_data c (b ∷ a)) []
    all_read =
        subst (λ t. data_round c n t ≡ more (with_data c (b ∷ a)) []) (append-nil (b ∷ a))
          (data_round_lem c n (b ∷ a) [] l
            (rw append-nil (take_long (n - c.chunk_read) (b ∷ a) (omega arith)))
            (rw append-nil (drop_long (n - c.chunk_read) (b ∷ a) (omega arith))))

-- A piece that ends inside a chunk.
pub take_some :
    (c : ChunkedProcessor) (whole a b : Bytes) (ks : List Chunk)
    → At c whole (in_data (a ++ b) ks)
    → (process c a ≡ ok (with_data c a, false)) × At (with_data c a) whole (in_data b ks)
take_some c whole a b ks at =
    let (later, (n, cs, l, e, z, z'), f) = at.knows in
    (
      some_read c n a cs (omega (arith, length-append {0} a b)) e,
      record {
        knows = (later, (n, cs, omega (arith, l, length-append {0} a b), e, z, z'), f);
        body_is =
            append_assoc c.body a (b ++ texts ks)
            ∙ ap (λ t. c.body ++ t) (sym (append_assoc a b (texts ks)))
            ∙ at.body_is;
      },
    )
