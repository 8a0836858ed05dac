-- ===== src/Http/Response/Pieces.antt =====
-- src/http_replay/http_response_processor.cc: a response that arrives in pieces, the first of which
-- holds the head.
use mathlib.Core.List.{append_assoc}
use packet_replay.Base.{
  ℕ, ◌+◌, ◌≡◌, refl, ap, sym, ◌∙◌, Bool, true, false, List, [], ◌∷◌, ◌++◌, some, Bytes, All, Result,
  ok, err, fault, required, ◌>>=◌, length, length-append, take, drop, take-append, drop-append, ltb,
  if◌then◌else◌, arith,
}
use packet_replay.Base.Int.{pos, negsuc}
use packet_replay.Http.Header.Fields.{
  StatusLine, IsStatusLine, Field, IsField, head_text, put_fields, header_parsed,
}
use packet_replay.Http.Response.{
  HttpResponseProcessor, DataProcessor, reset, head_end, find_end, find_end_from, process_data,
  process_head, process_body, start_body, choose_processor, feed, is_complete,
}
use packet_replay.Http.Response.Errors.{find_end-head_text}

-- A processor whose head is read.
abbrev pub in_body :
    HttpResponseProcessor → StatusLine → List Field → DataProcessor → HttpResponseProcessor
in_body r l fs q = record {
  header_str = head_text l fs ++ head_end;
  head = record { status_code = pos l.code; headers = put_fields r.headers fs };
  data_processor = some q;
}

length_head : (t : Bytes) → length (t ++ head_end) ≡ length t + 4
length_head t = omega (arith, length-append {0} t head_end)

take_head : (t x : Bytes) → take (length t + 4) (t ++ (head_end ++ x)) ≡ t ++ head_end
take_head t x =
    ap (λ k. take k (t ++ (head_end ++ x))) (sym (length_head t))
    ∙ ap (take (length (t ++ head_end))) (sym (append_assoc t head_end x))
    ∙ take-append (t ++ head_end) x

drop_head : (t x : Bytes) → drop (length t + 4) (t ++ (head_end ++ x)) ≡ x
drop_head t x =
    ap (λ k. drop k (t ++ (head_end ++ x))) (sym (length_head t))
    ∙ ap (drop (length (t ++ head_end))) (sym (append_assoc t head_end x))
    ∙ drop-append (t ++ head_end) x

rest_fed :
    (t x : Bytes) (p : DataProcessor)
    → feed p [] ≡ ok p
    → (if ltb (length t + 4) (length (t ++ (head_end ++ x))) then feed p x else ok p) ≡ feed p x
rest_fed t [] p e = rw (nothing_behind t, e) refl
  where
    nothing_behind : (t : Bytes) → ltb (length t + 4) (length (t ++ (head_end ++ []))) ≡ false
    nothing_behind t = ground (arith, length-append {0} t head_end)
rest_fed t (b ∷ x) p e = rw (more_behind t b x) refl
  where
    more_behind :
        (t : Bytes) (b : ℕ) (x : Bytes)
        → ltb (length t + 4) (length (t ++ (head_end ++ b ∷ x))) ≡ true
    more_behind t b x = ground (arith, length-append {0} t (head_end ++ b ∷ x))

start_body-head_text :
    (r : HttpResponseProcessor) (l : StatusLine) (fs : List Field) (x : Bytes) (p : DataProcessor)
    → IsStatusLine l
    → All IsField fs
    → choose_processor (put_fields r.headers fs) ≡ ok p
    → feed p [] ≡ ok p
    → start_body
        (record (reset r) { header_str = head_text l fs ++ (head_end ++ x) })
        (length (head_text l fs))
      ≡ (do q ← feed p x; ok (in_body r l fs q))
unfolding start_body reset
start_body-head_text r l fs x p w ws c e =
    rw
      (
        start_body,
        take-append (head_text l fs) (head_end ++ x),
        header_parsed (record { status_code = negsuc 0; headers = r.headers }) l fs w ws,
        c,
        drop_head (head_text l fs) x,
        take_head (head_text l fs) x,
      )
      (ap (λ o. ◌>>=◌ {U = HttpResponseProcessor} o (λ q. ok (in_body r l fs q)))
        (rest_fed (head_text l fs) x p e))

process_head-found :
    (r : HttpResponseProcessor) (bytes : Bytes) (n : ℕ)
    → ltb 3 (0 + length bytes) ≡ true
    → find_end bytes ≡ some n
    → process_head (reset r) bytes ≡ start_body (record (reset r) { header_str = bytes }) n
unfolding process_head reset find_end_from
process_head-found r bytes n h e =
    rw e (taken (ltb 3 (0 + length bytes)) (record (reset r) { header_str = bytes }) _ h)
  where
    taken :
        (t : Bool) (s : HttpResponseProcessor) (o : Result HttpResponseProcessor)
        → t ≡ true
        → (if t then start_body s (0 + n) else o) ≡ start_body s n
    taken t s o h = rw h (ap (start_body s) (omega arith))

-- What the first piece does, when a head asks for a processor that is content with no data.
pub process_data-head :
    (r : HttpResponseProcessor) (l : StatusLine) (fs : List Field) (x : Bytes) (p : DataProcessor)
    → IsStatusLine l
    → All IsField fs
    → choose_processor (put_fields r.headers fs) ≡ ok p
    → feed p [] ≡ ok p
    → process_data (reset r) (head_text l fs ++ (head_end ++ x))
      ≡ (do q ← feed p x; ok (in_body r l fs q, is_complete q))
unfolding process_data reset
process_data-head r l fs x p w ws c e =
    finish (reset r) (head_text l fs ++ (head_end ++ x)) (feed p x) refl (
      process_head-found r _ _ (long (head_text l fs) x) (find_end-head_text l fs x w ws)
      ∙ start_body-head_text r l fs x p w ws c e)
  where
    long : (t x : Bytes) → ltb 3 (0 + length (t ++ (head_end ++ x))) ≡ true
    long t x = ground (arith, length-append {0} t (head_end ++ x))

    finish :
        (s : HttpResponseProcessor) (bytes : Bytes) (o : Result DataProcessor)
        → s.status_code ≡ negsuc 0
        → process_head s bytes ≡ (do q ← o; ok (in_body r l fs q))
        → process_data s bytes ≡ (do q ← o; ok (in_body r l fs q, is_complete q))
    finish s bytes (err g) m h = rw (h, m) refl
    finish s bytes (ok q) m h = rw (h, m) refl

-- A call for each piece; what the calls return is not used.
unfoldable pub process_all : HttpResponseProcessor → List Bytes → Result HttpResponseProcessor
process_all r [] = ok r
process_all r (x ∷ xs) = do (s, done) ← process_data r x; process_all s xs

abbrev pub feed_all : DataProcessor → List Bytes → Result DataProcessor
feed_all p [] = ok p
feed_all p (x ∷ xs) = do q ← feed p x; feed_all q xs

pub process_data-in_body :
    (r : HttpResponseProcessor) (l : StatusLine) (fs : List Field) (p : DataProcessor) (x : Bytes)
    → process_data (in_body r l fs p) x ≡ (do q ← feed p x; ok (in_body r l fs q, is_complete q))
unfolding process_data process_body
process_data-in_body r l fs p x = with_result (feed p x)
  where
    with_result :
        (o : Result DataProcessor)
        → ◌>>=◌ {U = HttpResponseProcessor × Bool}
            (◌>>=◌ {U = HttpResponseProcessor} o (λ q. ok (in_body r l fs q)))
            (λ s. do p ← required s.data_processor fault; ok (s, is_complete p))
          ≡ (do q ← o; ok (in_body r l fs q, is_complete q))
    with_result (err g) = refl
    with_result (ok q) = refl

pub process_all-in_body :
    (r : HttpResponseProcessor) (l : StatusLine) (fs : List Field) (p : DataProcessor)
    (xs : List Bytes)
    → process_all (in_body r l fs p) xs ≡ (do q ← feed_all p xs; ok (in_body r l fs q))
unfolding process_all
process_all-in_body r l fs p [] = refl
process_all-in_body r l fs p (x ∷ xs) =
    ap (λ o. ◌>>=◌ {U = HttpResponseProcessor} o (λ s. process_all s.0 xs))
      (process_data-in_body r l fs p x)
    ∙ after (feed p x) (λ q. process_all-in_body r l fs q xs)
  where
    after :
        (o : Result DataProcessor)
        → ((q : DataProcessor)
            → process_all (in_body r l fs q) xs ≡ (do q' ← feed_all q xs; ok (in_body r l fs q')))
        → ◌>>=◌ {U = HttpResponseProcessor}
            (◌>>=◌ {U = HttpResponseProcessor × Bool} o (λ q. ok (in_body r l fs q, is_complete q)))
            (λ s. process_all s.0 xs)
          ≡ (do q ← (do q ← o; feed_all q xs); ok (in_body r l fs q))
    after (err g) f = refl
    after (ok q) f = f q
