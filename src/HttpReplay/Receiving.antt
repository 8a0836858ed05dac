-- ===== src/HttpReplay/Receiving.antt =====
-- src/http_replay/http_replay.cc: the loop of RECV, when the server's answer arrives.
use packet_replay.Base.{
  ℕ, zero, suc, ◌≤◌, ◌≡◌, refl, ap, true, List, [], ◌∷◌, ◌++◌, some, Bytes, All, ok, length, arith,
}
use packet_replay.Base.Int.{ℤ, pos}
use packet_replay.Network.{Network}
use packet_replay.Http.ContentLen.Pieces.{filled, concat}
use packet_replay.Http.Chunked.{ChunkedProcessor}
use packet_replay.Http.Chunked.Stream.{Chunk, IsBody, at_size, texts}
use packet_replay.Http.Chunked.Decode.{Arrives}
use packet_replay.Http.Header.Fields.{
  StatusLine, IsStatusLine, Field, IsField, head_text, put_fields,
}
use packet_replay.Http.Response.{
  HttpResponseProcessor, content_len, chunked, reset, head_end, complete,
}
use packet_replay.Http.Response.Pieces.{in_body}
use packet_replay.Http.Response.Received.{SaysLength, SaysChunked}
use packet_replay.Http.Response.Completes.{
  Completes, at_end, one_more, NoneEmpty, response-Completes, response-Completes-Arrives,
}
use packet_replay.HttpReplay.{bufsiz, read_loop}

-- Calls of `read` on a socket give the pieces, one after another, and each gives a byte at least.
pub data Delivers {W : Type 0} (net : Network W) (s : ℤ) : W → List Bytes → W → Type 0 where
  no_more : {w : W} → Delivers net s w [] w
  piece :
      {w v u : W} {b : ℕ} {bytes : Bytes} {xs : List Bytes}
      → net.read s bufsiz w ≡ (v, some (b ∷ bytes))
      → Delivers net s v xs u
      → Delivers net s w ((b ∷ bytes) ∷ xs) u

module _ {W : Type 0} (net : Network W) where
  Delivers-NoneEmpty : {s : ℤ} {w v : W} {xs : List Bytes} → Delivers net s w xs v → NoneEmpty xs
  Delivers-NoneEmpty no_more = tt
  Delivers-NoneEmpty (piece e d) = ((λ h. cc), Delivers-NoneEmpty d)

  pub Delivers-rest :
      {s : ℤ} {w v : W} {x : Bytes} {xs : List Bytes} → Delivers net s w (x ∷ xs) v → NoneEmpty xs
  Delivers-rest (piece e d) = Delivers-NoneEmpty d

  -- The loop reads the pieces that complete the response, and no more.
  pub read_loop-Completes :
      {s : ℤ} {r q : HttpResponseProcessor} {xs : List Bytes} {w v : W}
      → Completes r xs q
      → Delivers net s w xs v
      → (fuel : ℕ) → length xs ≤ fuel
      → read_loop net fuel s r w ≡ ok (q, v)
  unfolding read_loop
  read_loop-Completes (at_end e) no_more zero h = rw (read_loop, e) refl
  read_loop-Completes (at_end e) no_more (suc fuel) h = rw (read_loop, e) refl
  read_loop-Completes (one_more n p c) (piece e d) zero h = absurd (omega arith)
  read_loop-Completes (one_more n p c) (piece e d) (suc fuel) h =
      rw (read_loop, n, ap (λ o. o.1) e, p, ap (λ o. o.0) e)
        (read_loop-Completes c d fuel (omega arith))

  -- When calls of `read` deliver a response with a body of the length that its header gives, in any
  -- pieces of which the first holds the head, RECV, with fuel for as many calls as there are pieces,
  -- ends after the last: it holds the status and the body, and the response is complete.
  pub length_read :
      (s : ℤ) (r : HttpResponseProcessor) (w v : W) (fuel : ℕ) (l : StatusLine) (fs : List Field)
      (n : ℕ) (x : Bytes) (xs : List Bytes)
      → IsStatusLine l
      → All IsField fs
      → SaysLength (put_fields r.headers fs) n
      → length (concat (x ∷ xs)) ≡ n
      → Delivers net s w ((head_text l fs ++ (head_end ++ x)) ∷ xs) v
      → suc (length xs) ≤ fuel
      → (q : HttpResponseProcessor) × (read_loop net fuel s (reset r) w ≡ ok (q, v))
        × (q.status_code ≡ pos l.code)
        × (q.data_processor ≡ some (content_len (filled n (concat (x ∷ xs)))))
        × (complete q ≡ ok true)
  unfolding complete
  length_read s r w v fuel l fs n x xs ws is_fs says all d f = (
    in_body r l fs (content_len (filled n (concat (x ∷ xs)))),
    read_loop-Completes (response-Completes r l fs n x xs ws is_fs says (Delivers-rest d) all) d
        fuel f,
    refl,
    refl,
    ap ok (ground arith),
  )

  -- When calls of `read` deliver a response with a body in chunks, in pieces of which the first holds
  -- the head and that may end anywhere else but inside a line with a size, RECV, with fuel for as
  -- many calls as there are pieces, ends after the last: it holds the status and the data of the
  -- chunks, and the response is complete.
  pub chunks_read :
      (s : ℤ) (r : HttpResponseProcessor) (w v : W) (fuel : ℕ) (l : StatusLine) (fs : List Field)
      (ks : List Chunk) (x : Bytes) (xs : List Bytes)
      → IsStatusLine l
      → All IsField fs
      → SaysChunked (put_fields r.headers fs)
      → IsBody ks
      → Arrives (at_size ks) (x ∷ xs)
      → Delivers net s w ((head_text l fs ++ (head_end ++ x)) ∷ xs) v
      → suc (length xs) ≤ fuel
      → (q : HttpResponseProcessor) × (c : ChunkedProcessor) × (read_loop net fuel s (reset r) w
          ≡ ok (q, v))
        × (q.status_code ≡ pos l.code)
        × (q.data_processor ≡ some (chunked c))
        × (c.body ≡ texts ks)
        × (complete q ≡ ok true)
  unfolding complete packet_replay.Http.Response.is_complete
  chunks_read s r w v fuel l fs ks x xs ws is_fs says body a d f =
      let (c, done, text, ended) = response-Completes-Arrives r l fs ks x xs ws is_fs says body a in
      (
        in_body r l fs (chunked c),
        c,
        read_loop-Completes done d fuel f,
        refl,
        refl,
        text,
        ap ok ended,
      )
