-- ===== src/HttpReplay.antt =====
-- src/http_replay/http_replay.cc: `HttpReplayClient`. An exception ends the replay; what was done
-- before it is not kept then.
pub mod Sending
pub mod Receiving
pub mod Exchange
pub mod Program
use packet_replay.Base.{
  ℕ, zero, suc, ◌+◌, Bool, true, false, not, List, [], ◌∷◌, Option, none, some, Bytes, Result, ok,
  err, runtime_error, diverges, ◌>>=◌, guard, ◌>>◌, length, drop, if◌then◌else◌,
}
use packet_replay.Base.Int.{ℤ, pos, negsuc, is_negative}
use packet_replay.Validator.{int_eq}
use packet_replay.Action.{Action, ActionType, connect, send, recv, close}
use packet_replay.Conversation.{PacketConversation}
use packet_replay.Tcp.{TcpConversation}
use packet_replay.Network.{Network, stream}
use packet_replay.Http.Response.{
  HttpResponseProcessor, new_response, reset, process_data, complete, compare_responses,
}

-- `BUFSIZ` of the system's C library.
abbrev pub bufsiz : ℕ
bufsiz = 8192

-- The client while it replays, with the two processors of `replay`. `differences` counts the lines
-- that it has written on the console.
pub record HttpReplayClient (W : Type 0) : Type 0 where
  pub conversation : TcpConversation
  pub socket : ℤ
  pub expected_processor : HttpResponseProcessor
  pub test_processor : HttpResponseProcessor
  pub differences : ℕ
  pub world : W

module _ {W : Type 0} where
  -- `HttpReplayClient(conversation)`, at the start of `replay`.
  abbrev pub new_client : TcpConversation → W → HttpReplayClient W
  new_client c w = record {
    conversation = c;
    socket = negsuc 0;
    expected_processor = new_response;
    test_processor = new_response;
    differences = 0;
    world = w;
  }

  abbrev pub pop_action : List Action → HttpReplayClient W → HttpReplayClient W
  pop_action queue c = record c {
    conversation = record c.conversation {
      base = record c.conversation.base { action_queue = queue };
    };
  }

-- The data of the capture, for the response expected.
unfoldable pub expect : HttpResponseProcessor → Bytes → Result HttpResponseProcessor
unfolding process_data complete
expect e bytes = do
  done ← complete e
  if done then ok e else (do (f, finished) ← process_data e bytes; ok f)

-- Whether there is a difference to report.
unfoldable pub is_different : HttpResponseProcessor → HttpResponseProcessor → Result Bool
unfolding compare_responses complete
is_different e r = do
  done ← complete e
  if done then (do z ← compare_responses e r; ok (not (int_eq z (pos 0)))) else ok false

module _ {W : Type 0} (net : Network W) where
  unfoldable pub connect_action : HttpReplayClient W → Result (HttpReplayClient W)
  connect_action c =
      let (w, s) = net.socket c.conversation.addr_family stream c.world in
      let (v, r) = net.connect s c.conversation.test_sock_addr c.conversation.sock_addr_size w in
      (do
        guard (not (is_negative s)) runtime_error
        guard (int_eq r (pos 0)) runtime_error
        ok (record c { socket = s; world = v }))

  -- The loop of SEND, on the data that is not written yet. A call that succeeds writes a byte at
  -- least.
  unfoldable pub write_loop : ℕ → ℤ → Bytes → W → Result W
  write_loop fuel s [] w = ok w
  write_loop zero s (b ∷ bytes) w = err diverges
  write_loop (suc fuel) s (b ∷ bytes) w =
      let (v, n) = net.write s (b ∷ bytes) w in
      elim n [
        | negsuc k ↦ err runtime_error
        | pos zero ↦ err runtime_error
        | pos (suc k) ↦ write_loop fuel s (drop k bytes) v
      ]

  unfoldable pub send_action : HttpReplayClient W → Bytes → Result (HttpReplayClient W)
  unfolding write_loop reset
  send_action c bytes = do
    w ← write_loop (length bytes) c.socket bytes c.world
    ok (record c {
      expected_processor = reset c.expected_processor;
      test_processor = reset c.test_processor;
      world = w;
    })

  -- The loop of RECV, until the response is complete.
  unfoldable pub read_loop : ℕ → ℤ → HttpResponseProcessor → W → Result (HttpResponseProcessor × W)
  unfolding process_data complete
  read_loop zero s r w = do done ← complete r; guard done diverges; ok (r, w)
  read_loop (suc fuel) s r w = do
    done ← complete r
    elim done [
      | true ↦ ok (r, w)
      | false ↦
          (let (v, got) = net.read s bufsiz w in
            elim got [
              | none ↦ err runtime_error
              | some [] ↦ err runtime_error
              | some (b ∷ bytes) ↦ (do
                (q, finished) ← process_data r (b ∷ bytes)
                read_loop fuel s q v)
            ])
    ]

  unfoldable pub recv_action : ℕ → HttpReplayClient W → Bytes → Result (HttpReplayClient W)
  unfolding read_loop expect is_different
  recv_action fuel c bytes = do
    e ← expect c.expected_processor bytes
    (r, w) ← read_loop fuel c.socket c.test_processor c.world
    different ← is_different e r
    ok (record c {
      expected_processor = e;
      test_processor = r;
      differences = c.differences + (if different then 1 else 0);
      world = w;
    })

  unfoldable pub close_action : HttpReplayClient W → Result (HttpReplayClient W)
  close_action c = ok (record c { socket = negsuc 0; world = net.close c.socket c.world })

  -- The `switch` on the type of an action.
  unfoldable pub act : ℕ → HttpReplayClient W → ActionType → Bytes → Result (HttpReplayClient W)
  unfolding connect_action send_action recv_action close_action
  act fuel c connect bytes = connect_action c
  act fuel c send bytes = send_action c bytes
  act fuel c recv bytes = recv_action fuel c bytes
  act fuel c close bytes = close_action c

  -- The loop over the actions of the queue; the fuel bounds the reads of each RECV.
  unfoldable pub replay_loop : ℕ → List Action → HttpReplayClient W → Result (HttpReplayClient W)
  unfolding act
  replay_loop fuel [] c = ok c
  replay_loop fuel (a ∷ queue) c = do
    d ← act fuel c a.type a.bytes
    replay_loop fuel queue (pop_action queue d)

  unfoldable pub replay : ℕ → TcpConversation → W → Result (HttpReplayClient W)
  unfolding replay_loop
  replay fuel c w = replay_loop fuel c.action_queue (new_client c w)

  -- The loop of `main` over the conversations of the store, and the differences reported.
  unfoldable pub replay_all : ℕ → List TcpConversation → W → Result (ℕ × W)
  unfolding replay
  replay_all fuel [] w = ok (0, w)
  replay_all fuel (c ∷ cs) w = do
    d ← replay fuel c w
    (n, v) ← replay_all fuel cs d.world
    ok (d.differences + n, v)
