-- ===== src/Http/Chunked/Decode.antt =====
-- src/http_replay/http_response_processor.cc: `ChunkedProcessor` decodes a body in chunks.
use mathlib.Core.List.{append_assoc, append-nil}
use packet_replay.Base.{
  ◌≡◌, ◌≢◌, refl, ap, sym, ◌∙◌, true, false, List, [], ◌∷◌, ◌++◌, Bytes, Result, ok, ◌>>=◌, subst,
}
use packet_replay.Http.Chunked.{ChunkedProcessor, new_chunked, process}
use packet_replay.Http.Chunked.Stream.{
  Chunk, IsBody, Place, at_size, in_data, at_line_feed, finished, texts, Takes, nothing, size_line,
  some_data, all_data, carriage_return, line_feed, last_line_feed, At, is_finished,
}
use packet_replay.Http.Chunked.Steps.{take_size, take_all, take_some, process-nil, with_data}
use packet_replay.Http.Chunked.Ends.{take_cr, take_lf, take_last}

-- What a call with a piece gives.
abbrev Gives : ChunkedProcessor → Bytes → Bytes → Place → Type 0
Gives c x whole q = (d : ChunkedProcessor) × (process c x ≡ ok (d, is_finished q)) × At d whole q

is_finished_of_ne : (p : Place) → p ≢ finished → is_finished p ≡ false
is_finished_of_ne (at_size ks) n = refl
is_finished_of_ne (in_data left ks) n = refl
is_finished_of_ne (at_line_feed ks) n = refl
is_finished_of_ne finished n = absurd (n refl)

-- One call, with a piece that takes the processor from one place to another.
pub process-Takes :
    {p q : Place} {x : Bytes} (t : Takes p x q) (c : ChunkedProcessor) (whole : Bytes)
    → (p ≢ finished)
    → At c whole p
    → Gives c x whole q
process-Takes (nothing {p}) c whole n at =
    (c, process-nil c ∙ ap (λ b. ok (c, b)) (sym (is_finished_of_ne p n)), at)
process-Takes (size_line {k} {ks} {x} t) c whole n at =
    let (e, next) = take_size c whole k ks x at in
    let (d, g, there) = process-Takes t _ whole (λ h. cc) next in (d, e ∙ g, there)
process-Takes (some_data a b {ks}) c whole n at =
    let (e, next) = take_some c whole a b ks at in (with_data c a, e, next)
process-Takes (all_data a {ks} {x} t) c whole n at =
    let (e, next) = take_all c whole a ks x at in
    let (d, g, there) = process-Takes t _ whole (λ h. cc) next in (d, e ∙ g, there)
process-Takes (carriage_return {ks} {x} t) c whole n at =
    let (e, next) = take_cr c whole ks x at in
    let (d, g, there) = process-Takes t _ whole (λ h. cc) next in (d, e ∙ g, there)
process-Takes (line_feed {k} {ks} {x} t) c whole n at =
    let (e, next) = take_lf c whole k ks x at in
    let (d, g, there) = process-Takes t _ whole (λ h. cc) next in (d, e ∙ g, there)
process-Takes (last_line_feed x) c whole n at =
    let (e, next) = take_last c whole x at in (record c { complete = true }, e, next)

-- A call for each piece; what the calls return is not used.
unfoldable pub process_pieces : ChunkedProcessor → List Bytes → Result ChunkedProcessor
process_pieces c [] = ok c
process_pieces c (x ∷ xs) = do (d, done) ← process c x; process_pieces d xs

-- The pieces of a body: each takes the processor further, and the last to the end.
pub data Arrives : Place → List Bytes → Type 0 where
  last : {p : Place} {x : Bytes} → p ≢ finished → Takes p x finished → Arrives p (x ∷ [])
  next :
      {p : Place} {x : Bytes} {q : Place} {xs : List Bytes}
      → p ≢ finished
      → Takes p x q
      → Arrives q xs
      → Arrives p (x ∷ xs)

process_pieces-Arrives :
    {p : Place} {xs : List Bytes} (a : Arrives p xs) (c : ChunkedProcessor) (whole : Bytes)
    → At c whole p
    → (d : ChunkedProcessor) × (process_pieces c xs ≡ ok d) × At d whole finished
unfolding process_pieces
process_pieces-Arrives (last n t) c whole at =
    let (d, e, there) = process-Takes t c whole n at in (d, rw e, there)
process_pieces-Arrives (next {xs = xs} n t a) c whole at =
    let (d, e, there) = process-Takes t c whole n at in
    let (f, g, end') = process_pieces-Arrives a d whole there in
    (f, ap (λ r. do y ← r; process_pieces y.0 xs) e ∙ g, end')

pub new_chunked-At : (ks : List Chunk) → IsBody ks → At new_chunked (texts ks) (at_size ks)
new_chunked-At ks w = record { knows = (w, refl, refl, refl, refl, refl); body_is = refl }

-- A body in chunks, of which the last and no other is empty, arrives in pieces that may end
-- anywhere but inside a line with a size: the processor is complete after the last, and its data is
-- that of the chunks.
pub pieces_decoded :
    (ks : List Chunk) (xs : List Bytes)
    → IsBody ks
    → Arrives (at_size ks) xs
    → (d : ChunkedProcessor) × (process_pieces new_chunked xs ≡ ok d)
      × (d.complete ≡ true)
      × (d.body ≡ texts ks)
pieces_decoded ks xs w a =
    let (d, e, there) = process_pieces-Arrives a new_chunked (texts ks) (new_chunked-At ks w) in
    (d, e, there.knows, sym (append-nil d.body) ∙ there.body_is)

-- The body as it is sent.
abbrev pub encode : List Chunk → Bytes
encode [] = []
encode (k ∷ ks) = k.digits ++ 13 ∷ 10 ∷ (k.text ++ 13 ∷ 10 ∷ encode ks)

encode-append :
    (k : Chunk) (ks : List Chunk) (x : Bytes)
    → encode (k ∷ ks) ++ x ≡ k.digits ++ 13 ∷ 10 ∷ (k.text ++ 13 ∷ 10 ∷ (encode ks ++ x))
encode-append k ks x =
    append_assoc k.digits (13 ∷ 10 ∷ (k.text ++ 13 ∷ 10 ∷ encode ks)) x
    ∙ ap (λ t. k.digits ++ 13 ∷ 10 ∷ t) (append_assoc k.text (13 ∷ 10 ∷ encode ks) x)

-- A chunk, when the reading of what follows its data is given.
Takes-chunk :
    (k : Chunk) (ks : List Chunk) (x : Bytes)
    → Takes (at_line_feed ks) (10 ∷ (encode ks ++ x)) finished
    → Takes (at_size (k ∷ ks)) (encode (k ∷ ks) ++ x) finished
Takes-chunk k ks x t =
    subst (λ y. Takes (at_size (k ∷ ks)) y finished) (sym (encode-append k ks x))
      (size_line (all_data k.text (carriage_return t)))

Takes-encode :
    (k : Chunk) (ks : List Chunk) (x : Bytes)
    → Takes (at_size (k ∷ ks)) (encode (k ∷ ks) ++ x) finished
Takes-encode k [] x = Takes-chunk k [] x (last_line_feed x)
Takes-encode k (l ∷ ks) x = Takes-chunk k (l ∷ ks) x (line_feed (Takes-encode l ks x))

-- One call of `process` on a new processor, with a body in chunks, of which the last and no other is
-- empty, as it is sent, and any bytes behind it, answers that the body is complete: so says the
-- processor too, and its data is that of the chunks, in order.
pub chunked_decoded :
    (k : Chunk) (ks : List Chunk) (x : Bytes)
    → IsBody (k ∷ ks)
    → (d : ChunkedProcessor) × (process new_chunked (encode (k ∷ ks) ++ x) ≡ ok (d, true))
      × (d.complete ≡ true)
      × (d.body ≡ texts (k ∷ ks))
chunked_decoded k ks x w =
    let (d, e, there) =
      process-Takes (Takes-encode k ks x) new_chunked (texts (k ∷ ks)) (λ h. cc)
        (new_chunked-At (k ∷ ks) w) in
    (d, e, there.knows, sym (append-nil d.body) ∙ there.body_is)
