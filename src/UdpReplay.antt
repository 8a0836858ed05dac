-- ===== src/UdpReplay.antt =====
-- src/udp_replay/udp_replay.cc and .h: `UdpReplayClient`. An exception ends the replay; what was done
-- before it is not kept then.
pub mod Datagrams
pub mod Lifetime
pub mod Program
use packet_replay.Base.{
  ℕ, ◌+◌, Bool, true, false, List, [], ◌∷◌, Option, none, some, Bytes, Result, ok, err, fault,
  runtime_error, invalid_argument, ◌>>=◌, guard, ◌>>◌, length, if◌then◌else◌, bytes_eq, codes,
}
use packet_replay.Base.Int.{ℤ, pos, negsuc, is_negative}
use packet_replay.Memory.{Pointer}
use packet_replay.Util.{tokenize, to_lower}
use packet_replay.Action.{Action, ActionType, connect, send, recv, close}
use packet_replay.Conversation.{PacketConversation}
use packet_replay.Udp.{UdpConversation}
use packet_replay.Network.{Network, dgram}

-- The method `validate` of the packet validator, which may be that of a class of its own.
abbrev pub Validate : Type 0
Validate = Pointer → ℤ → Pointer → ℤ → Result Bool

-- `validator_lives` is false when the validator that the client points to was deleted. `differences`
-- counts the lines written on the console.
pub record UdpReplayClient (W : Type 0) : Type 0 where
  pub conversation : UdpConversation
  pub socket : ℤ
  pub validator_lives : Bool
  pub differences : ℕ
  pub world : W

abbrev pub pop_action : {W : Type 0} → List Action → UdpReplayClient W → UdpReplayClient W
pop_action queue c = record c {
  conversation = record c.conversation {
    base = record c.conversation.base { action_queue = queue };
  };
}

module _ {W : Type 0} (net : Network W) where
  -- `UdpReplayClient(conversation, validator)`
  unfoldable pub new_client : UdpConversation → Bool → W → Result (UdpReplayClient W)
  new_client c lives w =
      let (v, s) = net.socket c.addr_family dgram w in
      if is_negative s
      then err runtime_error
      else ok record {
        conversation = c;
        socket = s;
        validator_lives = lives;
        differences = 0;
        world = v;
      }

  unfoldable pub send_action : UdpReplayClient W → Bytes → Result (UdpReplayClient W)
  send_action c bytes =
      let (v, n) =
        net.sendto c.socket bytes c.conversation.test_sock_addr c.conversation.sock_addr_size
          c.world in
      if is_negative n then err runtime_error else ok (record c { world = v })

  -- The destructor deletes the validator; to delete what was deleted is undefined.
  unfoldable pub destroy : UdpReplayClient W → Result W
  destroy c = do
    guard c.validator_lives fault
    ok (if is_negative c.socket then c.world else net.close c.socket c.world)

module _ {W : Type 0} (net : Network W) (validate : Validate) where
  -- The buffer has room for 1024 bytes more than are expected. The validator is followed.
  unfoldable pub recv_action : UdpReplayClient W → Bytes → Result (UdpReplayClient W)
  recv_action c bytes =
      let (v, got) = net.recvfrom c.socket (length bytes + 1024) c.world in
      elim got [
        | none ↦ err runtime_error
        | some actual ↦ (do
          guard c.validator_lives fault
          same ← validate bytes (pos (length bytes)) actual (pos (length actual))
          ok (record c { differences = c.differences + (if same then 0 else 1); world = v }))
      ]

  -- The `switch` on the type of an action, which knows two of them.
  unfoldable pub act : UdpReplayClient W → ActionType → Bytes → Result (UdpReplayClient W)
  unfolding send_action recv_action
  act c send bytes = send_action net c bytes
  act c recv bytes = recv_action c bytes
  act c connect bytes = ok c
  act c close bytes = ok c

  -- The loop over the actions of the queue.
  unfoldable pub replay_loop : List Action → UdpReplayClient W → Result (UdpReplayClient W)
  unfolding act
  replay_loop [] c = ok c
  replay_loop (a ∷ queue) c = do d ← act c a.type a.bytes; replay_loop queue (pop_action queue d)

  unfoldable pub replay : UdpReplayClient W → Result (UdpReplayClient W)
  unfolding replay_loop
  replay c = replay_loop c.conversation.action_queue c

  -- The loop of `main` over the conversations of the store, with one validator for all of them.
  unfoldable pub replay_all : Bool → List UdpConversation → W → Result (ℕ × W)
  unfolding new_client replay destroy
  replay_all lives [] w = ok (0, w)
  replay_all lives (c ∷ cs) w = do
    client ← new_client net c lives w
    played ← replay client
    v ← destroy net played
    (n, u) ← replay_all false cs v
    ok (played.differences + n, u)

-- `parseValidator`: the file and the function of a specification `python:<file>:<function>`.
unfoldable pub parse_validator : Bytes → Result (Bytes × Bytes)
unfolding tokenize to_lower
parse_validator spec = elim (tokenize spec b':') [
  | kind ∷ file ∷ function ∷ [] ↦
      if bytes_eq (to_lower kind) (codes "python")
      then ok (file, function)
      else err invalid_argument
  | _ ↦ err invalid_argument
]
