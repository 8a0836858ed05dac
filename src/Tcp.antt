-- ===== src/Tcp.antt =====
-- src/include/tcp_conversation.h and src/lib/tcp_conversation.cc: the state machine that turns the
-- captured segments of one connection into the actions of a replay.
pub mod Handlers
pub mod Script
pub mod Segments
pub mod Session
use packet_replay.Base.{
  ℕ, Bool, true, false, not, List, [], ◌∷◌, ◌++◌, Option, none, some, Result, ok, err, ◌>>=◌, ◌==◌,
  if◌then◌else◌, Bytes, codes,
}
use packet_replay.Base.Int.{ℤ, pos, negsuc}
use packet_replay.Layers.{
  Layer, View, tcp, transport, get_data, get_data_size, get_src_port, get_flags, has_syn, has_ack,
  has_rst, has_fin, th_syn,
}
use packet_replay.Layers.Inet.{Inet}
use packet_replay.Packet.{TransportPacket, get_layer}
use packet_replay.Action.{Action, connect, send, recv, close, plain, from_packet}
use packet_replay.Conversation.{
  PacketConversation, TargetTestServer, new_conversation, test_conversation, action_push, source_is,
  and_then,
}

pub data TcpState : Type 0 where
  syn_sent syn_received established closed : TcpState

-- `closed_sockets` is not a field of the class: it records the calls of `close`, in order.
pub record TcpConversation : Type 0 where
  pub base : PacketConversation
  pub open base use *
  pub socket : ℤ
  pub cap_tcp_state : TcpState
  pub closed_sockets : List ℤ

abbrev pub prot_name : Bytes
prot_name = codes "TCP"

-- `TcpConversation(packet, target_test_server)`; the socket is -1.
unfoldable pub new_tcp_conversation :
    Inet → TransportPacket → Option TargetTestServer → Result TcpConversation
new_tcp_conversation net p server = do
  base ← new_conversation net p server
  ok record { base = base; socket = negsuc 0; cap_tcp_state = closed; closed_sockets = [] }

-- `TcpConversation(networkLayer, target_test_server)`
unfoldable pub new_test_conversation : Inet → Layer → TargetTestServer → Result TcpConversation
new_test_conversation net l3 server = do
  base ← test_conversation net l3 server
  ok record { base = base; socket = negsuc 0; cap_tcp_state = closed; closed_sockets = [] }

abbrev pub push : TcpConversation → Action → TcpConversation
push c a = record c { base = action_push c.base a }

-- `dynamic_cast<TcpLayer *>(layer)`
abbrev pub as_tcp : Option Layer → Option View
as_tcp (some (tcp v)) = some v
as_tcp _ = none

-- `socket_ != -1`
abbrev pub is_open : ℤ → Bool
is_open (pos n) = true
is_open (negsuc n) = not (n == 0)

-- `if (socket_ != -1) close(socket_);`, which leaves the field as it is.
abbrev pub close_socket : TcpConversation → TcpConversation
close_socket c =
    if is_open c.socket then record c { closed_sockets = c.closed_sockets ++ c.socket ∷ [] } else c

abbrev pub has_data : ℤ → Bool
has_data (pos n) = not (n == 0)
has_data (negsuc n) = true

abbrev pub enter : TcpState → TcpConversation → TcpConversation
enter s c = record c { cap_tcp_state = s }

-- A packet that opens nothing changes nothing; its size is read, and not used.
unfoldable pub close_process : TcpConversation → TransportPacket → View → Result TcpConversation
close_process c p v = do
  opening ←
      and_then (source_is c.base p c.cap_src_addr) (do flags ← get_flags v; ok (flags == th_syn))
  if opening
      then ok (
          enter syn_sent
            (if is_open c.socket then record (close_socket c) { socket = negsuc 0 } else c))
      else (do _ ← get_data_size (tcp v); ok c)

unfoldable pub syn_sent_process : TcpConversation → TransportPacket → View → Result TcpConversation
syn_sent_process c p v = do
  answered ← and_then (source_is c.base p c.cap_dest_addr) (and_then (has_ack v) (has_syn v))
  ok (if answered then enter syn_received c else c)

unfoldable pub syn_recv_process : TcpConversation → TransportPacket → View → Result TcpConversation
syn_recv_process c p v = do
  acknowledged ← and_then (source_is c.base p c.cap_src_addr) (has_ack v)
  ok (if acknowledged then push (enter established c) (plain connect) else c)

-- The packet comes from the captured client's address and port.
unfoldable pub from_client : TcpConversation → TransportPacket → View → Result Bool
from_client c p v =
    and_then (source_is c.base p c.cap_src_addr)
      (do port ← get_src_port (tcp v); ok (port == c.cap_src_port))

-- A packet with data: who sent it, and the action that copies the data.
capture_data : TcpConversation → TransportPacket → View → ℤ → Result TcpConversation
capture_data c p v size = do
  start ← get_data (tcp v)
  sent ← from_client c p v
  action ← from_packet (if sent then send else recv) start size
  ok (push c action)

-- `if (data_size) { ... action_queue_.push_back(action); }`
pub record_data : TcpConversation → TransportPacket → View → Result TcpConversation
unfolding capture_data
record_data c p v = do
  size ← get_data_size (tcp v)
  if has_data size then capture_data c p v size else ok c

unfoldable pub est_process : TcpConversation → TransportPacket → View → Result TcpConversation
unfolding record_data
est_process c p v = do
  d ← record_data c p v
  fin ← has_fin v
  ok (if fin then push (enter closed d) (plain close) else d)

-- The `switch` on the state.
unfoldable pub dispatch :
    TcpState → TcpConversation → TransportPacket → View → Result TcpConversation
unfolding close_process syn_sent_process syn_recv_process est_process
dispatch closed c p v = close_process c p v
dispatch syn_sent c p v = syn_sent_process c p v
dispatch syn_received c p v = syn_recv_process c p v
dispatch established c p v = est_process c p v

-- A TCP segment: a reset ends the connection, whatever its state.
unfoldable pub segment : TcpConversation → TransportPacket → View → Result TcpConversation
unfolding dispatch
segment c p v = do
  rst ← has_rst v
  if rst then ok (enter closed (close_socket c)) else dispatch c.cap_tcp_state c p v

-- A packet that is not TCP changes nothing.
unfoldable pub process_capture_packet : TcpConversation → TransportPacket → Result TcpConversation
process_capture_packet c p = elim (as_tcp (get_layer p transport)) [
  | none ↦ ok c
  | some v ↦ segment c p v
]

-- All the packets of a capture that belong to the conversation, in order.
unfoldable pub process_all : TcpConversation → List TransportPacket → Result TcpConversation
process_all c [] = ok c
process_all c (p ∷ ps) = do d ← process_capture_packet c p; process_all d ps
