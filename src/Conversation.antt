-- ===== src/Conversation.antt =====
-- src/include/packet_conversation.h and target_test_server.h: what TCP and UDP conversations share.
-- An operation that changes the object returns the new record.
pub mod Address
use packet_replay.Base.{
  ℕ, ◌+◌, ◌-◌, ◌%◌, ◌≡◌, refl, Bool, true, false, List, [], ◌∷◌, ◌++◌, Option, none, some, Bytes,
  Result, ok, err, fault, required, ◌>>=◌, replicate, Ordering,
}
use packet_replay.Base.Int.{ℤ, pos, negsuc}
use packet_replay.Memory.{Pointer, ntohs, read_bytes, memcmp}
use packet_replay.Layers.{
  Layer, network, transport, get_addr_family, get_addr_size, get_sock_addr_size, get_src_addr,
  get_dest_addr, get_src_port, get_dest_port,
}
use packet_replay.Layers.Inet.{Inet, get_addr_from_string, get_sock_addr}
use packet_replay.Packet.{TransportPacket, get_layer}
use packet_replay.Action.{Action}

-- A target test server, to use instead of the one in the capture. The port is an `int`.
pub record TargetTestServer : Type 0 where
  pub test_addr : Bytes
  pub test_port : ℤ

-- `htons` of an `int`, which is first cut to 16 bits.
abbrev pub to_u16 : ℤ → ℕ
to_u16 (pos n) = n % 65536
to_u16 (negsuc n) = 65535 - n % 65536

unfoldable pub htons : ℤ → ℕ
unfolding ntohs
htons z = ntohs (to_u16 z)

pub record PacketConversation : Type 0 where
  pub action_queue : List Action
  pub addr_family : ℕ
  pub addr_size : ℕ
  pub sock_addr_size : ℕ
  pub test_sock_addr : Bytes
  pub cap_src_addr : Bytes
  pub cap_dest_addr : Bytes
  pub test_dest_addr : Bytes
  pub cap_dest_port : ℕ
  pub cap_src_port : ℕ
  pub test_dest_port : ℕ

-- `dynamic_cast<Layer3 *>(packet.getLayer(NETWORK))`, which the caller follows at once.
unfoldable pub layer3 : TransportPacket → Result Layer
unfolding get_layer
layer3 p = required (get_layer p network) fault

unfoldable pub layer4 : TransportPacket → Result Layer
unfolding get_layer
layer4 p = required (get_layer p transport) fault

-- The address and the port to replay to: the configured server's, or else those of the capture.
module _ (net : Inet) where
  unfoldable pub test_target :
      Layer → Option TargetTestServer → Bytes → ℕ → Bytes → Result (Bytes × ℕ)
  test_target l none dest port zeros = ok (dest, port)
  test_target l (some server) dest port zeros = do
    (_, addr) ← get_addr_from_string net l server.test_addr zeros
    ok (addr, htons server.test_port)

  -- `PacketConversation(packet, target_test_server)`. Buffers from `make_unique` are zero at first.
  unfoldable pub new_conversation :
      TransportPacket → Option TargetTestServer → Result PacketConversation
  new_conversation p server = do
    l3 ← layer3 p
    l4 ← layer4 p
    family ← get_addr_family l3
    n ← get_addr_size l3
    sn ← get_sock_addr_size l3
    src_ptr ← get_src_addr l3
    src ← read_bytes src_ptr n
    dest_ptr ← get_dest_addr l3
    dest ← read_bytes dest_ptr n
    src_port ← get_src_port l4
    dest_port ← get_dest_port l4
    (test_addr, test_port) ← test_target l3 server dest dest_port (replicate n 0)
    sock_addr ← get_sock_addr l3 test_addr test_port (replicate sn 0)
    ok record {
      action_queue = [];
      addr_family = family;
      addr_size = n;
      sock_addr_size = sn;
      test_sock_addr = sock_addr;
      cap_src_addr = src;
      cap_dest_addr = dest;
      test_dest_addr = test_addr;
      cap_dest_port = dest_port;
      cap_src_port = src_port;
      test_dest_port = test_port;
    }

  -- `PacketConversation(layer3, target_test_server)`. What belongs to a captured packet is not set:
  -- the pointers to its addresses are null and its ports have no value.
  unfoldable pub test_conversation : Layer → TargetTestServer → Result PacketConversation
  test_conversation l3 server = do
    family ← get_addr_family l3
    n ← get_addr_size l3
    sn ← get_sock_addr_size l3
    (_, test_addr) ← get_addr_from_string net l3 server.test_addr (replicate n 0)
    sock_addr ← get_sock_addr l3 test_addr (htons server.test_port) (replicate sn 0)
    ok record {
      action_queue = [];
      addr_family = family;
      addr_size = n;
      sock_addr_size = sn;
      test_sock_addr = sock_addr;
      cap_src_addr = [];
      cap_dest_addr = [];
      test_dest_addr = test_addr;
      cap_dest_port = 0;
      cap_src_port = 0;
      test_dest_port = htons server.test_port;
    }

abbrev pub action_push : PacketConversation → Action → PacketConversation
action_push c a = record c { action_queue = c.action_queue ++ a ∷ [] }

-- `action_queue_.front()`: on an empty deque it is undefined.
unfoldable pub action_front : PacketConversation → Result Action
action_front c = elim c.action_queue [ [] ↦ err fault | a ∷ q ↦ ok a ]

unfoldable pub action_empty : PacketConversation → Bool
action_empty c = elim c.action_queue [ [] ↦ true | a ∷ q ↦ false ]

unfoldable pub action_pop : PacketConversation → Result PacketConversation
action_pop c = elim c.action_queue [ [] ↦ err fault | a ∷ q ↦ ok (record c { action_queue = q }) ]

abbrev pub is_eq : Ordering → Bool
is_eq Ordering.eq = true
is_eq _ = false

-- `memcmp(layer3->getSrcAddr(), addr, addr_size_) == 0`
unfoldable pub source_is : PacketConversation → TransportPacket → Bytes → Result Bool
source_is c p addr = do
  l3 ← layer3 p
  src ← get_src_addr l3
  o ← memcmp src addr c.addr_size
  ok (is_eq o)

-- `a && b`, where `b` is computed only if `a` holds.
abbrev pub and_then : Result Bool → Result Bool → Result Bool
and_then (ok true) n = n
and_then (ok false) n = ok false
and_then (err e) n = err e
