-- ===== src/Tests/Wires.antt =====
-- A network for datagrams, and the theorems at it.
use packet_replay.Base.{
  ℕ, ◌≡◌, ◌⊎◌, inl, inr, refl, List, [], ◌∷◌, ◌++◌, Option, none, some, Bytes, true, false, codes,
  err, fault, length, take,
}
use packet_replay.Base.Int.{ℤ, pos, negsuc, is_negative}
use packet_replay.Action.{Action, with_bytes, send, recv}
use packet_replay.Udp.{UdpConversation}
use packet_replay.Validator.{validate}
use packet_replay.Network.{Network}
use packet_replay.UdpReplay
use packet_replay.UdpReplay.{UdpReplayClient}
use packet_replay.UdpReplay.Datagrams.{IsWire, Ends, replay_ends}
use packet_replay.UdpReplay.Lifetime.{second_client_faults}
use packet_replay.Tests.Replays.{sample_base}

-- Datagrams: all that is sent arrives, and the answers wait.
pub data Lines : Type 0 where
  lines : List Bytes → List Bytes → List Bytes → Lines

abbrev sent_lines : Lines → List Bytes
sent_lines (lines s r left) = s

abbrev received_lines : Lines → List Bytes
received_lines (lines s r left) = r

abbrev send_line : Bytes → Lines → Lines × ℤ
send_line bytes (lines s r left) = (lines (s ++ bytes ∷ []) r left, pos (length bytes))

abbrev receive_line : ℕ → Lines → Lines × Option Bytes
receive_line size (lines s r []) = (lines s r [], none)
receive_line size (lines s r (x ∷ left)) =
    (lines s (r ++ take size x ∷ []) left, some (take size x))

abbrev pub wire : Network Lines
wire = record {
  socket = λ family type w. (w, pos 4);
  connect = λ s address size w. (w, negsuc 0);
  write = λ s bytes w. (w, negsuc 0);
  read = λ s size w. (w, none);
  close = λ s w. w;
  sendto = λ s bytes address size w. send_line bytes w;
  recvfrom = λ s size w. receive_line size w;
}

wire-sends :
    (bytes : Bytes) (w : Lines)
    → (is_negative (send_line bytes w).1 ≡ true)
      ⊎ ((is_negative (send_line bytes w).1 ≡ false)
          × (sent_lines (send_line bytes w).0 ≡ sent_lines w ++ bytes ∷ [])
          × (received_lines (send_line bytes w).0 ≡ received_lines w))
wire-sends bytes (lines s r left) = inr (refl, refl, refl)

wire-receives :
    (n : ℕ) (w : Lines)
    → ((receive_line n w).1 ≡ none)
      ⊎ ((x : Bytes) × ((receive_line n w).1 ≡ some x)
          × (sent_lines (receive_line n w).0 ≡ sent_lines w)
          × (received_lines (receive_line n w).0 ≡ received_lines w ++ x ∷ []))
wire-receives n (lines s r []) = inl refl
wire-receives n (lines s r (x ∷ left)) = inr (take n x, refl, refl, refl)

-- All sockets and addresses are one.
wire-IsWire : IsWire wire (λ s addr n. sent_lines) (λ s. received_lines)
wire-IsWire = record {
  sends = λ s bytes addr n w. wire-sends bytes w;
  receives = λ s n addr m w. wire-receives n w;
}

abbrev sample_queue : List Action
sample_queue = with_bytes send (codes "q") ∷ with_bytes recv (codes "a") ∷ []

abbrev udp_conversation : UdpConversation
udp_conversation = record { base = record sample_base { action_queue = sample_queue } }

abbrev between : Lines
between = lines (codes "q" ∷ []) (codes "a" ∷ []) (codes "a" ∷ [])

abbrev udp_client : UdpReplayClient Lines
udp_client = record {
  conversation = udp_conversation;
  socket = pos 4;
  validator_lives = true;
  differences = 0;
  world = lines [] [] (codes "b" ∷ []);
}

replay_ends_example :
    Ends wire
      (λ s addr n. sent_lines)
      (λ s. received_lines)
      sample_queue
      udp_client
      (UdpReplay.replay_loop wire validate sample_queue udp_client)
replay_ends_example =
    replay_ends wire (λ s addr n. sent_lines) (λ s. received_lines) wire-IsWire sample_queue
      udp_client refl

abbrev first_client : UdpReplayClient Lines
first_client = record udp_client { world = lines [] [] (codes "a" ∷ codes "a" ∷ []) }

abbrev first_played : UdpReplayClient Lines
first_played = record first_client {
  conversation = record udp_conversation {
    base = record udp_conversation.base { action_queue = [] };
  };
  world = between;
}

abbrev second_client : UdpReplayClient Lines
second_client = record udp_client { validator_lives = false; world = between }

-- The second client receives an answer, and has it compared.
second_client_faults_example :
    UdpReplay.replay_all wire validate true
      (udp_conversation ∷ udp_conversation ∷ [])
      (lines [] [] (codes "a" ∷ codes "a" ∷ []))
    ≡ err fault
unfolding UdpReplay.new_client UdpReplay.replay UdpReplay.destroy validate
second_client_faults_example =
    second_client_faults wire validate udp_conversation udp_conversation []
      (lines [] [] (codes "a" ∷ codes "a" ∷ [])) between first_client first_played second_client
      refl refl refl refl (refl, (codes "a", refl))
