-- ===== src/Serializer/Data/Steps.antt =====
-- src/lib/conversation_serializer.cc: one round of `read_action_data`, on a text that goes on to a
-- '>' at least.
use mathlib.Core.List.{append_assoc, append-nil, append_cancel_right}
use packet_replay.Base.{
  ℕ, zero, suc, ◌+◌, ◌-◌, ◌≤◌, ◌<◌, ◌≡◌, ◌≢◌, refl, ap, sym, ◌∙◌, Bool, true, false, [], ◌∷◌, ◌++◌,
  some, Bytes, Result, ok, fault, guard, ◌>>=◌, length, length-append, length-drop, take, drop, leb,
  ltb, bytes_eq, codes, ◌==◌, if◌then◌else◌, arith, compare_bytes_refl, Bool-cases, inl, inr,
}
use packet_replay.Stream.{Stream, stream_of, peek, get_byte, get_until, cut_at, is_nil}
use packet_replay.StringMap.Laws.{bytes_eq-eq}
use packet_replay.Util.Tokens.{Lacks}
use packet_replay.Serializer.{data_end_tag}
use packet_replay.Serializer.Data.{
  DataBuffer, leave, again, buf_size, check_tag, take_chunk, got_chunk, chunk_round, end_step,
  read_round,
}

-- The tag without its last byte.
abbrev pub tag_body : Bytes
tag_body = codes "<#DATA_END#"

pub take-drop : (k : ℕ) (xs : Bytes) → take k xs ++ drop k xs ≡ xs
take-drop zero xs = refl
take-drop (suc k) [] = refl
take-drop (suc k) (x ∷ xs) = λ i. x ∷ take-drop k xs i

cut_at-append :
    (d n : ℕ) (t s : Bytes) → length t < n → Lacks d t → cut_at d n (t ++ d ∷ s) ≡ (t, d ∷ s)
unfolding cut_at
cut_at-append d zero t s h l = absurd (omega arith)
cut_at-append d (suc n) [] s h l = ground arith
cut_at-append d (suc n) (c ∷ t) s h (lc, l) = ground (arith, cut_at-append d n t s)

cut_at-long :
    (d n : ℕ) (t s : Bytes)
    → n ≤ length t
    → Lacks d t
    → cut_at d n (t ++ s) ≡ (take n t, drop n t ++ s)
unfolding cut_at
cut_at-long d zero t s h l = refl
cut_at-long d (suc n) [] s h l = absurd (omega arith)
cut_at-long d (suc n) (c ∷ t) s h (lc, l) = ground (arith, cut_at-long d n t s)

pub get_until-append :
    (n c : ℕ) (t s : Bytes)
    → length (c ∷ t) < n
    → Lacks b'>' (c ∷ t)
    → get_until b'>' n (stream_of (c ∷ (t ++ b'>' ∷ s))) ≡ (c ∷ t, stream_of (b'>' ∷ s))
unfolding get_until
get_until-append n c t s h l =
    rw (get_until, cut_at-append b'>' n (c ∷ t) s h l)
      (ap (λ e. (c ∷ t, record { left = b'>' ∷ s; eof = e; failed = false }))
        (either_false (ltb (length (c ∷ t)) n)))
  where
    either_false : (t : Bool) → (if t then false else false) ≡ false
    either_false true = refl
    either_false false = refl

pub length-take_le : (n : ℕ) (t : Bytes) → n ≤ length t → length (take n t) ≡ n
length-take_le zero t h = refl
length-take_le (suc n) [] h = absurd (omega arith)
length-take_le (suc n) (c ∷ t) h = omega (arith, length-take_le n t)

-- A buffer of 12 bytes behind the data.
pub record IsMoved (b : DataBuffer) (whole : Bytes) : Type 0 where
  pub twelve : length b.buf ≡ 12
  pub whole_is : b.found ++ b.buf ≡ whole

take_chunk-IsMoved :
    (b : DataBuffer) (chunk : Bytes)
    → 12 ≤ length b.buf + length chunk
    → (d : DataBuffer) × (take_chunk true b chunk ≡ ok d) × IsMoved d (b.found ++ (b.buf ++ chunk))
unfolding take_chunk
take_chunk-IsMoved b chunk h =
    let all = b.buf ++ chunk in
    (
      record { found = b.found ++ take (length all - 12) all; buf = drop (length all - 12) all },
      enough (leb 12 (length all)) long,
      record {
        twelve =
            omega (arith, length-drop {0} (length all - 12) all, length-append {0} b.buf chunk);
        whole_is =
            append_assoc b.found (take (length all - 12) all) (drop (length all - 12) all)
            ∙ ap (λ s. b.found ++ s) (take-drop (length all - 12) all);
      },
    )
  where
    long : leb 12 (length (b.buf ++ chunk)) ≡ true
    long = ground (arith, length-append {0} b.buf chunk)

    enough :
        {d : DataBuffer} (t : Bool)
        → t ≡ true
        → ◌>>=◌ {U = DataBuffer} (guard t fault) (λ _. ok d) ≡ ok d
    enough t e = rw e refl

get_until-long :
    (n c : ℕ) (t s : Bytes)
    → suc n ≤ length (c ∷ t)
    → Lacks b'>' (c ∷ t)
    → get_until b'>' (suc n) (stream_of (c ∷ (t ++ s)))
      ≡ (take (suc n) (c ∷ t), stream_of (drop (suc n) (c ∷ t) ++ s))
unfolding get_until
get_until-long n c t s h l =
    rw (get_until, cut_at-long b'>' (suc n) (c ∷ t) s h l)
      (ap (λ e. (c ∷ take n t, record { left = drop n t ++ s; eof = e; failed = false }))
        (no_end (ltb (length (c ∷ take n t)) (suc n)) (is_nil (drop n t ++ s)) all_taken))
  where
    all_taken : ltb (length (c ∷ take n t)) (suc n) ≡ false
    all_taken = ground (arith, length-take_le n t)

    no_end : (b : Bool) (x : Bool) → b ≡ false → (if b then x else false) ≡ false
    no_end b x e = rw e refl

take-length_is : (n : ℕ) (xs : Bytes) → length xs ≡ n → take n xs ≡ xs
take-length_is zero [] h = refl
take-length_is zero (x ∷ xs) h = absurd (omega arith)
take-length_is (suc n) [] h = absurd (omega arith)
take-length_is (suc n) (x ∷ xs) h = λ i. x ∷ take-length_is n xs (omega arith) i

-- What `check_tag` finds in front of a '>'.
check_tag-step :
    (found : Bytes) (x : ℕ) (xs s : Bytes)
    → length xs ≡ 11
    → check_tag (record { found = found; buf = x ∷ xs }) (stream_of (b'>' ∷ s))
      ≡ ok (
          if bytes_eq (xs ++ b'>' ∷ []) data_end_tag
          then leave (found ++ x ∷ []) (stream_of s)
          else again (record { found = found; buf = x ∷ (xs ++ b'>' ∷ []) }) (stream_of s))
unfolding check_tag get_byte
check_tag-step found x xs s h = rw (check_tag, long, take-length_is 11 xs h) refl
  where
    long : leb 12 (length (x ∷ xs)) ≡ true
    long = ground arith

-- A '>' that no tag ends with.
pub check_tag-other :
    (found : Bytes) (x : ℕ) (xs s : Bytes)
    → length xs ≡ 11
    → xs ≢ tag_body
    → check_tag (record { found = found; buf = x ∷ xs }) (stream_of (b'>' ∷ s))
      ≡ ok (again (record { found = found; buf = x ∷ (xs ++ b'>' ∷ []) }) (stream_of s))
check_tag-other found x xs s h n = rw (check_tag-step found x xs s h, no_tag) refl
  where
    no_tag : bytes_eq (xs ++ b'>' ∷ []) data_end_tag ≡ false
    no_tag = elim (Bool-cases (bytes_eq (xs ++ b'>' ∷ []) data_end_tag)) [
      | inl e ↦ absurd (n (append_cancel_right xs tag_body (b'>' ∷ []) (bytes_eq-eq _ _ e)))
      | inr e ↦ e
    ]

-- The '>' of a tag.
pub check_tag-tag :
    (found : Bytes) (x : ℕ) (s : Bytes)
    → check_tag (record { found = found; buf = x ∷ tag_body }) (stream_of (b'>' ∷ s))
      ≡ ok (leave (found ++ x ∷ []) (stream_of s))
unfolding packet_replay.Base.compare_bytes
check_tag-tag found x s = check_tag-step found x tag_body s refl

-- What the loop may start a round with: a buffer and what is left of the bytes before a '>'.
pub record IsReady (b : DataBuffer) (rest : Bytes) : Type 0 where
  pub at_most : length b.buf ≤ 13
  pub enough : 12 ≤ length b.buf + length rest
  pub twelve : rest ≡ [] → length b.buf ≡ 12

abbrev pub room : DataBuffer → ℕ
room b = buf_size - length b.buf - 1

pub no_delim : (c : ℕ) → c ≢ b'>' → (c == b'>') ≡ false
no_delim c n = ground arith

got_chunk-ok :
    (b d : DataBuffer) (chunk : Bytes) (n : ℕ) (t : Stream)
    → is_nil chunk ≡ false
    → take_chunk true b chunk ≡ ok d
    → got_chunk true n b (chunk, t)
      ≡ (if length chunk == n then ok (end_step d t) else check_tag d t)
unfolding got_chunk
got_chunk-ok b d chunk n t h e = rw (h, e) refl

-- A round that meets the '>'.
pub read_round-short :
    (b : DataBuffer) (rest s : Bytes)
    → IsReady b rest
    → Lacks b'>' rest
    → length rest < room b
    → (d : DataBuffer) × (read_round true b (stream_of (rest ++ b'>' ∷ s))
        ≡ check_tag d (stream_of (b'>' ∷ s)))
      × IsMoved d (b.found ++ (b.buf ++ rest))
unfolding read_round chunk_round peek
read_round-short b [] s r l h = (
  b,
  refl,
  record { twelve = r.twelve refl; whole_is = ap (λ x. b.found ++ x) (sym (append-nil b.buf)) },
)
read_round-short b (c ∷ t) s r l h =
    let (d, e, m) = take_chunk-IsMoved b (c ∷ t) r.enough in
    (
      d,
      rw (no_delim c l.0) (
          ap (got_chunk true (room b) b) (get_until-append (room b) c t s h l)
          ∙ got_chunk-ok b d (c ∷ t) (room b) (stream_of (b'>' ∷ s)) refl e
          ∙ rw differs refl),
      m,
    )
  where
    differs : (length (c ∷ t) == room b) ≡ false
    differs = ground arith

-- A round that does not. The room is `n + 1`.
pub read_round-long :
    (b : DataBuffer) (rest s : Bytes) (n : ℕ)
    → IsReady b rest
    → Lacks b'>' rest
    → room b ≡ suc n
    → suc n ≤ length rest
    → (d : DataBuffer) × (read_round true b (stream_of (rest ++ s))
        ≡ ok (again d (stream_of (drop (suc n) rest ++ s))))
      × IsMoved d (b.found ++ (b.buf ++ take (suc n) rest))
unfolding read_round chunk_round peek
read_round-long b [] s n r l e h = absurd (omega arith)
read_round-long b (c ∷ t) s n r l e h =
    let (d, f, m) = take_chunk-IsMoved b (take (suc n) (c ∷ t)) moved in
    (
      d,
      rw (no_delim c l.0) (
          ap (λ k. chunk_round true k b (stream_of (c ∷ (t ++ s)))) e
          ∙ ap (got_chunk true (suc n) b) (get_until-long n c t s h l)
          ∙ got_chunk-ok b d (c ∷ take n t) (suc n) (stream_of (drop n t ++ s)) refl f
          ∙ rw same refl),
      m,
    )
  where
    moved : 12 ≤ length b.buf + length (take (suc n) (c ∷ t))
    moved = omega (arith, length-take_le n t, r.at_most)

    same : (length (take (suc n) (c ∷ t)) == suc n) ≡ true
    same = ground (arith, length-take_le n t)
