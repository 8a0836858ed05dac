-- ===== src/Http/Response/Completes.antt =====
-- src/http_replay/http_response_processor.cc: the pieces that make a response complete, as a reader
-- of `complete` before every piece sees them.
use mathlib.Core.List.{append_assoc, append-nil}
use packet_replay.Base.{
  ℕ, ◌+◌, ◌≤◌, ◌<◌, ◌≡◌, ◌≢◌, refl, ap, sym, ◌∙◌, Bool, true, false, List, [], ◌∷◌, ◌++◌, Bytes,
  All, Result, ok, ◌>>=◌, length, length-append, arith, subst,
}
use packet_replay.Http.ContentLen
use packet_replay.Http.ContentLen.{ContentLenProcessor}
use packet_replay.Http.ContentLen.Pieces.{filled, concat, process-filled}
use packet_replay.Http.Chunked
use packet_replay.Http.Chunked.{ChunkedProcessor, new_chunked}
use packet_replay.Http.Chunked.Stream.{
  Chunk, IsBody, Place, at_size, in_data, at_line_feed, finished, At, texts,
}
use packet_replay.Http.Chunked.Decode.{Arrives, last, next, process-Takes, new_chunked-At}
use packet_replay.Http.Chunked.Steps.{process-nil}
use packet_replay.Http.Header.Fields.{
  StatusLine, IsStatusLine, Field, IsField, head_text, put_fields,
}
use packet_replay.Http.Response.{
  HttpResponseProcessor, DataProcessor, content_len, chunked, reset, head_end, feed, complete,
  is_complete, process_data, choose_processor,
}
use packet_replay.Http.Response.Pieces.{in_body, process_data-head, process_data-in_body}
use packet_replay.Http.Response.Received.{SaysLength, SaysChunked, choose_length, choose_chunked}

-- The pieces take a processor to another that is complete, and no sooner than with the last.
pub data Completes : HttpResponseProcessor → List Bytes → HttpResponseProcessor → Type 0 where
  at_end : {r : HttpResponseProcessor} → complete r ≡ ok true → Completes r [] r
  one_more :
      {r q s : HttpResponseProcessor} {x : Bytes} {xs : List Bytes} {finished : Bool}
      → complete r ≡ ok false
      → process_data r x ≡ ok (q, finished)
      → Completes q xs s
      → Completes r (x ∷ xs) s

complete-in_body :
    (r : HttpResponseProcessor) (l : StatusLine) (fs : List Field) (p : DataProcessor)
    → complete (in_body r l fs p) ≡ ok (is_complete p)
unfolding complete
complete-in_body r l fs p = refl

fed :
    (r : HttpResponseProcessor) (l : StatusLine) (fs : List Field) (q : DataProcessor)
    {o : Result DataProcessor}
    → o ≡ ok q
    → ◌>>=◌ {U = HttpResponseProcessor × Bool} o (λ q'. ok (in_body r l fs q', is_complete q'))
      ≡ ok (in_body r l fs q, is_complete q)
fed r l fs q e = rw e refl

-- The first piece, and the rest from a processor that has fed on it.
Completes-first :
    (r : HttpResponseProcessor) (l : StatusLine) (fs : List Field) (p q : DataProcessor) (x : Bytes)
    (xs : List Bytes) {s : HttpResponseProcessor}
    → IsStatusLine l
    → All IsField fs
    → choose_processor (put_fields r.headers fs) ≡ ok p
    → feed p [] ≡ ok p
    → feed p x ≡ ok q
    → Completes (in_body r l fs q) xs s
    → Completes (reset r) ((head_text l fs ++ (head_end ++ x)) ∷ xs) s
unfolding complete reset
Completes-first r l fs p q x xs w ws c e f rest =
    one_more refl (process_data-head r l fs x p w ws c e ∙ fed r l fs q f) rest

Completes-next :
    (r : HttpResponseProcessor) (l : StatusLine) (fs : List Field) (p q : DataProcessor) (x : Bytes)
    (xs : List Bytes) {s : HttpResponseProcessor}
    → is_complete p ≡ false
    → feed p x ≡ ok q
    → Completes (in_body r l fs q) xs s
    → Completes (in_body r l fs p) (x ∷ xs) s
Completes-next r l fs p q x xs n f rest =
    one_more (complete-in_body r l fs p ∙ ap ok n)
      (process_data-in_body r l fs p x ∙ fed r l fs q f) rest

feed-filled :
    (n : ℕ) (got bytes : Bytes)
    → length got + length bytes ≤ n
    → feed (content_len (filled n got)) bytes ≡ ok (content_len (filled n (got ++ bytes)))
unfolding feed ContentLen.process
feed-filled n got bytes h = rw (feed, process-filled n got bytes h) refl

-- The pieces are not empty, as what `read` gives.
abbrev pub NoneEmpty : List Bytes → Type 0
NoneEmpty xs = All (λ x. x ≢ []) xs

is_complete-short :
    (n : ℕ) (got : Bytes) → length got < n → is_complete (content_len (filled n got)) ≡ false
unfolding is_complete
is_complete-short n got h = ground arith

is_complete-full :
    (n : ℕ) (got : Bytes) → length got ≡ n → is_complete (content_len (filled n got)) ≡ true
unfolding is_complete
is_complete-full n got h = ground arith

length-ne-nil : (x : Bytes) → x ≢ [] → 0 < length x
length-ne-nil [] n = absurd (n refl)
length-ne-nil (b ∷ x) n = omega arith

Completes-filled :
    (r : HttpResponseProcessor) (l : StatusLine) (fs : List Field) (n : ℕ) (got : Bytes)
    (xs : List Bytes)
    → NoneEmpty xs
    → length (got ++ concat xs) ≡ n
    → Completes
        (in_body r l fs (content_len (filled n got)))
        xs
        (in_body r l fs (content_len (filled n (got ++ concat xs))))
Completes-filled r l fs n got [] m h =
    subst
      (λ g.
        Completes (in_body r l fs (content_len (filled n got))) []
          (in_body r l fs (content_len (filled n g))))
      (sym (append-nil got))
      (at_end (
        complete-in_body r l fs _
        ∙ ap ok (is_complete-full n got (omega (arith, ap length (append-nil got))))))
Completes-filled r l fs n got (x ∷ xs) (m, ms) h =
    Completes-next r l fs _ _ x xs
      (is_complete-short n got (omega (arith, length-ne-nil x m, sizes)))
      (feed-filled n got x (omega (arith, sizes)))
      (subst
        (λ g.
          Completes (in_body r l fs (content_len (filled n (got ++ x)))) xs
            (in_body r l fs (content_len (filled n g))))
        (append_assoc got x (concat xs))
        (Completes-filled r l fs n (got ++ x) xs ms
          (ap length (append_assoc got x (concat xs)) ∙ h)))
  where
    sizes : length got + (length x + length (concat xs)) ≡ n
    sizes = omega (arith, length-append {0} got (x ++ concat xs), length-append {0} x (concat xs))

pub response-Completes :
    (r : HttpResponseProcessor) (l : StatusLine) (fs : List Field) (n : ℕ) (x : Bytes)
    (xs : List Bytes)
    → IsStatusLine l
    → All IsField fs
    → SaysLength (put_fields r.headers fs) n
    → NoneEmpty xs
    → length (concat (x ∷ xs)) ≡ n
    → Completes
        (reset r)
        ((head_text l fs ++ (head_end ++ x)) ∷ xs)
        (in_body r l fs (content_len (filled n (concat (x ∷ xs)))))
response-Completes r l fs n x xs w ws says m h =
    Completes-first r l fs (content_len (filled n [])) (content_len (filled n x)) x xs w ws
      (choose_length _ n says) (feed-filled n [] [] (omega arith))
      (feed-filled n [] x (omega (arith, length-append {0} x (concat xs))))
      (Completes-filled r l fs n x xs m h)

incomplete_before_end :
    (c : ChunkedProcessor) (whole : Bytes) (p : Place)
    → p ≢ finished
    → At c whole p
    → is_complete (chunked c) ≡ false
unfolding is_complete
incomplete_before_end c whole (at_size ks) n at = let (b, s, r, t, e, open') = at.knows in open'
incomplete_before_end c whole (in_data left ks) n at = let (b, i, open') = at.knows in open'
incomplete_before_end c whole (at_line_feed ks) n at = let (b, i, open') = at.knows in open'
incomplete_before_end c whole finished n at = absurd (n refl)

feed-chunked :
    (c d : ChunkedProcessor) (b : Bool) (x : Bytes)
    → Chunked.process c x ≡ ok (d, b)
    → feed (chunked c) x ≡ ok (chunked d)
unfolding feed
feed-chunked c d b x e = rw (feed, e) refl

Completes-Arrives :
    (r : HttpResponseProcessor) (l : StatusLine) (fs : List Field) (c : ChunkedProcessor)
    (whole : Bytes) {p : Place} {xs : List Bytes}
    → Arrives p xs
    → At c whole p
    → (d : ChunkedProcessor) × Completes
        (in_body r l fs (chunked c))
        xs
        (in_body r l fs (chunked d))
      × At d whole finished
unfolding is_complete
Completes-Arrives r l fs c whole {p} (last {x = x} n t) at =
    let (d, e, there) = process-Takes t c whole n at in
    (
      d,
      Completes-next r l fs (chunked c) (chunked d) x [] (incomplete_before_end c whole p n at)
          (feed-chunked c d _ x e)
          (at_end (complete-in_body r l fs (chunked d) ∙ ap ok there.knows)),
      there,
    )
Completes-Arrives r l fs c whole {p} (next {x = x} {xs = xs} n t a) at =
    let (d, e, there) = process-Takes t c whole n at in
    let (f, more, end') = Completes-Arrives r l fs d whole a there in
    (
      f,
      Completes-next r l fs (chunked c) (chunked d) x xs (incomplete_before_end c whole p n at)
          (feed-chunked c d _ x e) more,
      end',
    )

start_chunked :
    (r : HttpResponseProcessor) (l : StatusLine) (fs : List Field) (x : Bytes) (xs : List Bytes)
    (d : ChunkedProcessor) (b : Bool) {s : HttpResponseProcessor}
    → IsStatusLine l
    → All IsField fs
    → SaysChunked (put_fields r.headers fs)
    → Chunked.process new_chunked x ≡ ok (d, b)
    → Completes (in_body r l fs (chunked d)) xs s
    → Completes (reset r) ((head_text l fs ++ (head_end ++ x)) ∷ xs) s
start_chunked r l fs x xs d b w ws says e rest =
    Completes-first r l fs (chunked new_chunked) (chunked d) x xs w ws (choose_chunked _ says)
      (feed-chunked new_chunked new_chunked false [] (process-nil new_chunked))
      (feed-chunked new_chunked d b x e) rest

text_of : (d : ChunkedProcessor) (whole : Bytes) → At d whole finished → d.body ≡ whole
text_of d whole at = sym (append-nil d.body) ∙ at.body_is

pub response-Completes-Arrives :
    (r : HttpResponseProcessor) (l : StatusLine) (fs : List Field) (ks : List Chunk) (x : Bytes)
    (xs : List Bytes)
    → IsStatusLine l
    → All IsField fs
    → SaysChunked (put_fields r.headers fs)
    → IsBody ks
    → Arrives (at_size ks) (x ∷ xs)
    → (d : ChunkedProcessor) × Completes
        (reset r)
        ((head_text l fs ++ (head_end ++ x)) ∷ xs)
        (in_body r l fs (chunked d))
      × (d.body ≡ texts ks)
      × (d.complete ≡ true)
unfolding is_complete
response-Completes-Arrives r l fs ks x xs w ws says body (last n t) =
    let (d, e, there) = process-Takes t new_chunked (texts ks) n (new_chunked-At ks body) in
    (
      d,
      start_chunked r l fs x [] d _ w ws says e
          (at_end (complete-in_body r l fs (chunked d) ∙ ap ok there.knows)),
      text_of d (texts ks) there,
      there.knows,
    )
response-Completes-Arrives r l fs ks x xs w ws says body (next n t a) =
    let (d, e, there) = process-Takes t new_chunked (texts ks) n (new_chunked-At ks body) in
    let (f, more, end') = Completes-Arrives r l fs d (texts ks) a there in
    (f, start_chunked r l fs x xs d _ w ws says e more, text_of f (texts ks) end', end'.knows)
