-- ===== src/Tests/Replays.antt =====
-- A server and a network for the replay clients, and the theorems at these.
use packet_replay.Base.{
  ℕ, ◌≤◌, ◌≡◌, ◌↔◌, ◌⊎◌, inr, refl, ap, sym, List, [], ◌∷◌, ◌++◌, Option, none, some, Bytes, true,
  codes, ok, err, runtime_error, length, take, arith,
}
use packet_replay.Base.Int.{ℤ, pos, negsuc}
use packet_replay.Action.{with_bytes, send, recv}
use packet_replay.Conversation.{PacketConversation}
use packet_replay.Tcp.{TcpConversation, closed}
use packet_replay.Network.{Network}
use packet_replay.Http.ContentLen.Pieces.{filled, concat}
use packet_replay.Http.Chunked.{ChunkedProcessor}
use packet_replay.Http.Chunked.Stream.{
  at_size, size_line, some_data, all_data, carriage_return, line_feed, last_line_feed,
}
use packet_replay.Http.Chunked.Decode.{Arrives, last, next}
use packet_replay.Http.Header.Fields.{head_text}
use packet_replay.Http.Response.{
  HttpResponseProcessor, new_response, reset, content_len, chunked, complete, head_end,
}
use packet_replay.HttpReplay.{HttpReplayClient, new_client, read_loop, replay_loop, send_action}
use packet_replay.HttpReplay.Sending.{IsWriter, SomeFailure, send_action_lem}
use packet_replay.HttpReplay.Receiving.{Delivers, no_more, piece, length_read, chunks_read}
use packet_replay.HttpReplay.Exchange.{Response, IsResponse, message, pieces_of, exchange_replayed}
use packet_replay.Tests.Answers.{
  ok_line, length_field, chunks_field, ok_line-IsStatusLine, length_field-IsField,
  chunks_field-IsField, says_five, says_chunks,
}
use packet_replay.Tests.Bodies.{first_chunk, last_chunk, first_chunk-IsChunk, last_chunk-IsChunk}

-- The client sends, and at the first read the server starts to answer. Each keeps what was sent, and
-- what follows an answer is marked.
data World : Type 0 where
  sending : Bytes → World
  answering : Bytes → List Bytes → World

abbrev sent_to : ℤ → World → Bytes
sent_to s (sending out) = out
sent_to s (answering out rest) = 255 ∷ out

-- Two bytes at most go at once.
abbrev write_two : Bytes → World → World × ℤ
write_two bytes (sending out) = (sending (out ++ take 2 bytes), pos (length (take 2 bytes)))
write_two bytes (answering out rest) =
    (answering (out ++ take 2 bytes) rest, pos (length (take 2 bytes)))

abbrev read_one : List Bytes → World → World × Option Bytes
read_one [] (sending out) = (sending out, none)
read_one (x ∷ xs) (sending out) = (answering out xs, some x)
read_one answers (answering out []) = (answering out [], none)
read_one answers (answering out (x ∷ xs)) = (answering out xs, some x)

abbrev server : List Bytes → Network World
server answers = record {
  socket = λ family type w. (w, pos 3);
  connect = λ s address size w. (w, pos 0);
  write = λ s bytes w. write_two bytes w;
  read = λ s size w. read_one answers w;
  close = λ s w. w;
  sendto = λ s bytes address size w. (w, negsuc 0);
  recvfrom = λ s size w. (w, none);
}

take_two : (bytes : Bytes) → take (length (take 2 bytes)) bytes ≡ take 2 bytes
take_two [] = refl
take_two (a ∷ []) = refl
take_two (a ∷ b ∷ bytes) = refl

two_fit : (bytes : Bytes) → length (take 2 bytes) ≤ length bytes
two_fit [] = omega arith
two_fit (a ∷ []) = omega arith
two_fit (a ∷ b ∷ bytes) = omega arith

server-IsWriter : (answers : List Bytes) → IsWriter (server answers) sent_to
server-IsWriter answers s bytes (sending out) =
    inr (length (take 2 bytes), refl, two_fit bytes, ap (λ t. out ++ t) (sym (take_two bytes)))
server-IsWriter answers s bytes (answering out rest) =
    inr
      (length (take 2 bytes), refl, two_fit bytes, ap (λ t. 255 ∷ out ++ t) (sym (take_two bytes)))

server_writes : (answers : List Bytes) → ¬ SomeFailure (server answers) (pos 3)
server_writes answers (sending out, b, [], f) = f
server_writes answers (sending out, b, c ∷ rest, f) = f
server_writes answers (answering out left, b, [], f) = f
server_writes answers (answering out left, b, c ∷ rest, f) = f

abbrev five : Response
five = record { line = ok_line; fields = length_field ∷ []; text = codes "hello" }

five-IsResponse : IsResponse new_response five
five-IsResponse = record {
  line_is = ok_line-IsStatusLine;
  fields_are = (length_field-IsField, tt);
  says = says_five;
}

abbrev pub sample_base : PacketConversation
sample_base = record {
  action_queue = [];
  addr_family = 2;
  addr_size = 4;
  sock_addr_size = 16;
  test_sock_addr = [];
  cap_src_addr = [];
  cap_dest_addr = [];
  test_dest_addr = [];
  cap_dest_port = 0;
  cap_src_port = 0;
  test_dest_port = 0;
}

abbrev sample_conversation : TcpConversation
sample_conversation = record {
  base = sample_base;
  socket = negsuc 0;
  cap_tcp_state = closed;
  closed_sockets = [];
}

abbrev sample_client : HttpReplayClient World
sample_client = record (new_client sample_conversation (sending [])) { socket = pos 3 }

abbrev answer : List Bytes
answer = pieces_of five (codes "he") (codes "llo" ∷ [])

delivered :
    (v : World)
    → sent_to (pos 3) v ≡ codes "GET"
    → (u : World) × Delivers (server answer) (pos 3) v answer u
delivered (sending out) h = (answering out [], piece refl (piece refl no_more))
delivered (answering out rest) h = absurd (omega (arith, ap first h))
  where
    first : Bytes → ℕ
    first [] = 0
    first (b ∷ bytes) = b

send_action_lem_example :
    ((send_action (server answer) sample_client (codes "GET") ≡ err runtime_error)
      × SomeFailure (server answer) (pos 3))
    ⊎ ((v : World) × (send_action (server answer) sample_client (codes "GET")
          ≡ ok (record sample_client {
            expected_processor = reset new_response;
            test_processor = reset new_response;
            world = v;
          }))
        × (sent_to (pos 3) v ≡ codes "GET"))
send_action_lem_example =
    send_action_lem (server answer) sent_to (server-IsWriter answer) sample_client (codes "GET")

exchange_replayed_example :
    (d : HttpReplayClient World) × (replay_loop
        (server answer)
        2
        (with_bytes send (codes "GET") ∷ with_bytes recv (message five) ∷ [])
        sample_client
      ≡ replay_loop (server answer) 2 [] d)
    × (d.socket ≡ pos 3)
    × ((d.differences ≡ 0) ↔ ((five.line.code ≡ five.line.code) × (five.text ≡ five.text)))
exchange_replayed_example =
    exchange_replayed (server answer) sent_to sample_client 2 (codes "GET") [] five five
      (codes "he") (codes "llo" ∷ []) (server-IsWriter answer) (server_writes answer)
      five-IsResponse five-IsResponse refl delivered (omega arith)

length_read_example :
    (q : HttpResponseProcessor) × (read_loop
        (server answer)
        2
        (pos 3)
        (reset new_response)
        (sending [])
      ≡ ok (q, answering [] []))
    × (q.status_code ≡ pos 200)
    × (q.data_processor ≡ some (content_len (filled 5 (concat (codes "he" ∷ codes "llo" ∷ [])))))
    × (complete q ≡ ok true)
length_read_example =
    length_read (server answer) (pos 3) new_response (sending []) (answering [] []) 2 ok_line
      (length_field ∷ []) 5 (codes "he") (codes "llo" ∷ []) ok_line-IsStatusLine
      (length_field-IsField, tt) says_five refl (piece refl (piece refl no_more)) (omega arith)

abbrev chunk_pieces : List Bytes
chunk_pieces =
    (codes "3" ++ 13 ∷ 10 ∷ codes "ab")
    ∷ (codes "c" ++ 13 ∷ 10 ∷ (codes "0" ++ 13 ∷ 10 ∷ 13 ∷ 10 ∷ []))
    ∷ []

chunk_pieces-Arrives : Arrives (at_size (first_chunk ∷ last_chunk ∷ [])) chunk_pieces
chunk_pieces-Arrives =
    next (λ h. cc) (size_line (some_data (codes "ab") (codes "c")))
      (last (λ h. cc)
        (all_data (codes "c")
          (carriage_return (line_feed (size_line (carriage_return (last_line_feed [])))))))

abbrev chunked_answer : List Bytes
chunked_answer =
    (head_text ok_line (chunks_field ∷ []) ++ (head_end ++ (codes "3" ++ 13 ∷ 10 ∷ codes "ab")))
    ∷ (codes "c" ++ 13 ∷ 10 ∷ (codes "0" ++ 13 ∷ 10 ∷ 13 ∷ 10 ∷ []))
    ∷ []

chunks_read_example :
    (q : HttpResponseProcessor) × (c : ChunkedProcessor) × (read_loop
        (server chunked_answer)
        2
        (pos 3)
        (reset new_response)
        (sending [])
      ≡ ok (q, answering [] []))
    × (q.status_code ≡ pos 200)
    × (q.data_processor ≡ some (chunked c))
    × (c.body ≡ codes "abc")
    × (complete q ≡ ok true)
chunks_read_example =
    chunks_read (server chunked_answer) (pos 3) new_response (sending []) (answering [] []) 2
      ok_line (chunks_field ∷ []) (first_chunk ∷ last_chunk ∷ [])
      (codes "3" ++ 13 ∷ 10 ∷ codes "ab")
      ((codes "c" ++ 13 ∷ 10 ∷ (codes "0" ++ 13 ∷ 10 ∷ 13 ∷ 10 ∷ [])) ∷ []) ok_line-IsStatusLine
      (chunks_field-IsField, tt) says_chunks
      (first_chunk-IsChunk, ((λ h. cc), (last_chunk-IsChunk, refl))) chunk_pieces-Arrives
      (piece refl (piece refl no_more)) (omega arith)
