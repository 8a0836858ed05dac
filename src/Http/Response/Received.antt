-- ===== src/Http/Response/Received.antt =====
-- src/http_replay/http_response_processor.cc: whole responses, with a body of a given length or in
-- chunks, as they are received in pieces.
use packet_replay.Base.{
  ℕ, ◌≤◌, ◌<◌, ◌^◌, ◌≡◌, ◌↔◌, refl, ap, ◌∙◌, Bool, true, List, [], ◌∷◌, ◌++◌, none, some, Bytes,
  All, Result, ok, err, ok-injective, ◌>>=◌, length, replicate, arith, codes,
}
use packet_replay.Base.Int.{pos}
use packet_replay.Util.{to_lower}
use packet_replay.Util.Number.{stoul}
use packet_replay.StringMap.{StringMap, lookup}
use packet_replay.Http.ContentLen
use packet_replay.Http.ContentLen.{ContentLenProcessor, new_content_len}
use packet_replay.Http.ContentLen.Pieces
use packet_replay.Http.ContentLen.Pieces.{filled, concat, process-filled, pieces_collected}
use packet_replay.Http.Chunked
use packet_replay.Http.Chunked.{ChunkedProcessor, new_chunked, c_string}
use packet_replay.Http.Chunked.Stream.{Chunk, IsBody, at_size, texts}
use packet_replay.Http.Chunked.Decode
use packet_replay.Http.Chunked.Decode.{Arrives, pieces_decoded}
use packet_replay.Http.Chunked.Steps.{process-nil}
use packet_replay.Http.Header.Fields.{
  StatusLine, IsStatusLine, Field, IsField, head_text, put_fields, to_int_small,
}
use packet_replay.Http.Response.{
  HttpResponseProcessor, DataProcessor, content_len, chunked, reset, head_end, choose_processor,
  feed, complete, is_complete,
}
use packet_replay.Http.Response.Pieces.{
  in_body, process_all, feed_all, process_data-head, process_all-in_body,
}

-- The header gives the length of the body.
pub record SaysLength (headers : StringMap Bytes) (n : ℕ) : Type 0 where
  pub said : Bytes
  pub found : lookup (codes "content-length") headers ≡ some said
  pub number : stoul said ≡ ok n
  pub not_huge : n < 2 ^ 31

-- The header gives no length, and says that the body comes in chunks.
pub record SaysChunked (headers : StringMap Bytes) : Type 0 where
  pub no_length : lookup (codes "content-length") headers ≡ none
  pub said : Bytes
  pub found : lookup (codes "transfer-encoding") headers ≡ some said
  pub chunks : to_lower (c_string said) ≡ codes "chunked"

pub choose_length :
    (m : StringMap Bytes) (n : ℕ)
    → SaysLength m n
    → choose_processor m ≡ ok (content_len (filled n []))
unfolding choose_processor new_content_len
choose_length m n s =
    rw (choose_processor, s.found, new_content_len, s.number, to_int_small n s.not_huge)
      (ap
        (λ k.
          ok (content_len (record { payload = replicate k 0; payload_size = n; payload_read = 0 })))
        (omega arith))

pub choose_chunked :
    (m : StringMap Bytes) → SaysChunked m → choose_processor m ≡ ok (chunked new_chunked)
unfolding choose_processor
choose_chunked m s = rw (choose_processor, s.no_length, s.found, s.chunks) refl

process_all-response :
    (r : HttpResponseProcessor) (l : StatusLine) (fs : List Field) (p : DataProcessor) (x : Bytes)
    (xs : List Bytes)
    → IsStatusLine l
    → All IsField fs
    → choose_processor (put_fields r.headers fs) ≡ ok p
    → feed p [] ≡ ok p
    → process_all (reset r) ((head_text l fs ++ (head_end ++ x)) ∷ xs)
      ≡ (do q ← feed_all p (x ∷ xs); ok (in_body r l fs q))
unfolding process_all
process_all-response r l fs p x xs w ws c e =
    ap (λ o. ◌>>=◌ {U = HttpResponseProcessor} o (λ s. process_all s.0 xs))
      (process_data-head r l fs x p w ws c e)
    ∙ after (feed p x)
  where
    after :
        (o : Result DataProcessor)
        → ◌>>=◌ {U = HttpResponseProcessor}
            (◌>>=◌ {U = HttpResponseProcessor × Bool} o (λ q. ok (in_body r l fs q, is_complete q)))
            (λ s. process_all s.0 xs)
          ≡ (do q ← (do q ← o; feed_all q xs); ok (in_body r l fs q))
    after (err g) = refl
    after (ok q) = process_all-in_body r l fs q xs

feed_all-content_len :
    (c : ContentLenProcessor) (xs : List Bytes)
    → feed_all (content_len c) xs
      ≡ (do d ← ContentLen.Pieces.process_pieces c xs; ok (content_len d))
unfolding feed ContentLen.Pieces.process_pieces
feed_all-content_len c [] = refl
feed_all-content_len c (x ∷ xs) = after (ContentLen.process c x) (λ d. feed_all-content_len d xs)
  where
    after :
        (o : Result ContentLenProcessor)
        → ((d : ContentLenProcessor)
            → feed_all (content_len d) xs
              ≡ (do e ← ContentLen.Pieces.process_pieces d xs; ok (content_len e)))
        → ◌>>=◌ {U = DataProcessor} (do d ← o; ok (content_len d)) (λ q. feed_all q xs)
          ≡ (do e ← (do d ← o; ContentLen.Pieces.process_pieces d xs); ok (content_len e))
    after (err g) f = refl
    after (ok d) f = f d

feed_all-chunked :
    (c : ChunkedProcessor) (xs : List Bytes)
    → feed_all (chunked c) xs ≡ (do d ← Chunked.Decode.process_pieces c xs; ok (chunked d))
unfolding feed Chunked.Decode.process_pieces
feed_all-chunked c [] = refl
feed_all-chunked c (x ∷ xs) = after (Chunked.process c x) (λ d. feed_all-chunked d xs)
  where
    after :
        (o : Result (ChunkedProcessor × Bool))
        → ((d : ChunkedProcessor)
            → feed_all (chunked d) xs ≡ (do e ← Chunked.Decode.process_pieces d xs; ok (chunked e)))
        → ◌>>=◌ {U = DataProcessor}
            (◌>>=◌ {U = DataProcessor} o (λ d. ok (chunked d.0)))
            (λ q. feed_all q xs)
          ≡ (do e ← (do d ← o; Chunked.Decode.process_pieces d.0 xs); ok (chunked e))
    after (err g) f = refl
    after (ok d) f = f d.0

-- A processor that was reset is given a response in pieces: a head that a server writes, which says
-- that the body has n bytes, with the start of the body in the same piece, and more of the body in
-- others, not more than n bytes in all. It holds the status and the body received, in order,
-- whatever the pieces are, and it is complete exactly when all n bytes are there.
pub response_collected :
    (r : HttpResponseProcessor) (l : StatusLine) (fs : List Field) (n : ℕ) (x : Bytes)
    (xs : List Bytes)
    → IsStatusLine l
    → All IsField fs
    → SaysLength (put_fields r.headers fs) n
    → length (concat (x ∷ xs)) ≤ n
    → (s : HttpResponseProcessor) × (process_all
          (reset r)
          ((head_text l fs ++ (head_end ++ x)) ∷ xs)
        ≡ ok s)
      × (s.status_code ≡ pos l.code)
      × (s.data_processor ≡ some (content_len (filled n (concat (x ∷ xs)))))
      × ((complete s ≡ ok true) ↔ (length (concat (x ∷ xs)) ≡ n))
unfolding complete feed ContentLen.process
response_collected r l fs n x xs w ws says few =
    let whole = concat (x ∷ xs) in
    let (e, done) = pieces_collected n [] (x ∷ xs) few in
    (
      in_body r l fs (content_len (filled n whole)),
      process_all-response r l fs (content_len (filled n [])) x xs w ws (choose_length _ n says) (
            ap (λ o. ◌>>=◌ {U = DataProcessor} o (λ d. ok (content_len d)))
              (process-filled n [] [] (omega arith)))
          ∙ ap (λ o. ◌>>=◌ {U = HttpResponseProcessor} o (λ q. ok (in_body r l fs q)))
              (feed_all-content_len (filled n []) (x ∷ xs)
                ∙ ap (λ o. ◌>>=◌ {U = DataProcessor} o (λ d. ok (content_len d))) e),
      refl,
      refl,
      ((λ h. done.0 (ok-injective h)), (λ h. ap ok (done.1 h))),
    )

-- A processor that was reset is given a response in pieces: a head that a server writes, which says
-- that the body comes in chunks, with the start of the body in the same piece, and the rest of the
-- body in others that may end anywhere but inside a line with a size. It is complete after the last,
-- and holds the status and the data of the chunks.
pub response_decoded :
    (r : HttpResponseProcessor) (l : StatusLine) (fs : List Field) (ks : List Chunk) (x : Bytes)
    (xs : List Bytes)
    → IsStatusLine l
    → All IsField fs
    → SaysChunked (put_fields r.headers fs)
    → IsBody ks
    → Arrives (at_size ks) (x ∷ xs)
    → (s : HttpResponseProcessor) × (d : ChunkedProcessor) × (process_all
          (reset r)
          ((head_text l fs ++ (head_end ++ x)) ∷ xs)
        ≡ ok s)
      × (s.status_code ≡ pos l.code)
      × (s.data_processor ≡ some (chunked d))
      × (d.body ≡ texts ks)
      × (complete s ≡ ok true)
unfolding complete feed Chunked.process
response_decoded r l fs ks x xs w ws says body arrives =
    let (d, e, done, text) = pieces_decoded ks (x ∷ xs) body arrives in
    (
      in_body r l fs (chunked d),
      d,
      process_all-response r l fs (chunked new_chunked) x xs w ws (choose_chunked _ says) (
            ap (λ o. ◌>>=◌ {U = DataProcessor} o (λ d. ok (chunked d.0))) (process-nil new_chunked))
          ∙ ap (λ o. ◌>>=◌ {U = HttpResponseProcessor} o (λ q. ok (in_body r l fs q)))
              (feed_all-chunked new_chunked (x ∷ xs)
                ∙ ap (λ o. ◌>>=◌ {U = DataProcessor} o (λ d. ok (chunked d))) e),
      refl,
      refl,
      text,
      ap ok done,
    )
