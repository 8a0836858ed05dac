-- ===== src/Factory.antt =====
-- src/lib/conversation_factory.cc: the texts under which conversations and configured servers are
-- kept, found from a packet.
pub mod Key
pub mod Spec
pub mod Configured
use packet_replay.Base.{
  ℕ, ◌++◌, List, [], ◌∷◌, Bytes, Result, ok, ◌>>=◌, Ordering, ltb, if◌then◌else◌,
}
use packet_replay.Base.Int.{pos}
use packet_replay.Memory.{memcmp}
use packet_replay.Layers.{get_src_addr, get_dest_addr, get_src_port, get_dest_port, get_addr_size}
use packet_replay.Layers.Inet.{Inet, get_src_addr_str}
use packet_replay.Packet.{TransportPacket}
use packet_replay.Conversation.{layer3, layer4}
use packet_replay.Util.{bytes_to_hex_string}
use packet_replay.Util.Number.{to_string}

unfoldable pub generate_key : Bytes → ℕ → Bytes → ℕ → Bytes
generate_key addr1 port1 addr2 port2 =
    addr1 ++ b':' ∷ (to_string port1 ++ b':' ∷ (addr2 ++ b':' ∷ to_string port2))

-- The branches on the comparison of the two addresses: the smaller end comes first.
unfoldable pub ordered_key : Ordering → Bytes → ℕ → Bytes → ℕ → Bytes
unfolding generate_key
ordered_key Ordering.eq src src_port dest dest_port =
    if ltb src_port dest_port
    then generate_key src src_port dest dest_port
    else generate_key dest dest_port src src_port
ordered_key Ordering.lt src src_port dest dest_port = generate_key src src_port dest dest_port
ordered_key Ordering.gt src src_port dest dest_port = generate_key dest dest_port src src_port

unfoldable pub tcp_ip_get_key : TransportPacket → Result Bytes
tcp_ip_get_key p = do
  l3 ← layer3 p
  l4 ← layer4 p
  src ← get_src_addr l3
  dest ← get_dest_addr l3
  src_port ← get_src_port l4
  dest_port ← get_dest_port l4
  n ← get_addr_size l3
  src_str ← bytes_to_hex_string src (pos n)
  dest_str ← bytes_to_hex_string dest (pos n)
  comp ← memcmp src dest n
  ok (ordered_key comp src_str src_port dest_str dest_port)

-- The keys of a configured server, the most specific first. The port is in network order.
unfoldable pub tcp_ip_get_target_test_server_keys : Inet → TransportPacket → Result (List Bytes)
tcp_ip_get_target_test_server_keys net p = do
  l3 ← layer3 p
  l4 ← layer4 p
  addr ← get_src_addr_str net l3
  port ← get_src_port l4
  addr' ← get_src_addr_str net l3
  ok ((addr ++ b':' ∷ to_string port) ∷ addr' ∷ [])
