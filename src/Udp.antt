-- ===== src/Udp.antt =====
-- src/include/udp_conversation.h and src/lib/udp_conversation.cc: every datagram is one action.
-- The member `socket_` is never given a value and never read, so it is left out.
pub mod Record
use packet_replay.Base.{
  ℕ, Bool, true, false, List, [], ◌∷◌, ◌++◌, Option, none, some, Result, ok, err, ◌>>=◌, ◌==◌,
  if◌then◌else◌, Bytes, codes,
}
use packet_replay.Layers.{Layer, View, udp, transport, get_data, get_data_size, get_src_port}
use packet_replay.Layers.Inet.{Inet}
use packet_replay.Packet.{TransportPacket, get_layer}
use packet_replay.Action.{Action, send, recv, from_packet}
use packet_replay.Conversation.{
  PacketConversation, TargetTestServer, new_conversation, action_push, source_is, and_then,
}

pub record UdpConversation : Type 0 where
  pub base : PacketConversation
  pub open base use *

abbrev pub prot_name : Bytes
prot_name = codes "UDP"

unfoldable pub new_udp_conversation :
    Inet → TransportPacket → Option TargetTestServer → Result UdpConversation
new_udp_conversation net p server = do
  base ← new_conversation net p server
  ok record { base = base }

-- `dynamic_cast<UdpLayer *>(layer)`
abbrev pub as_udp : Option Layer → Option View
as_udp (some (udp v)) = some v
as_udp _ = none

record_datagram : UdpConversation → TransportPacket → View → Result UdpConversation
record_datagram c p v = do
  start ← get_data (udp v)
  sent ←
      and_then (source_is c.base p c.cap_src_addr)
        (do port ← get_src_port (udp v); ok (c.cap_src_port == port))
  size ← get_data_size (udp v)
  action ← from_packet (if sent then send else recv) start size
  ok record { base = action_push c.base action }

unfoldable pub process_capture_packet : UdpConversation → TransportPacket → Result UdpConversation
unfolding record_datagram
process_capture_packet c p = elim (as_udp (get_layer p transport)) [
  | none ↦ ok c
  | some v ↦ record_datagram c p v
]
