-- ===== src/Tcp/Segments.antt =====
-- src/lib/tcp_conversation.cc against a machine over segments: a source, the flags and the data.
use packet_replay.Base.{
  ℕ, Bool, true, false, ◌&&◌, List, [], ◌∷◌, ◌++◌, some, ok, ◌≡◌, refl, List-cases, inl, inr, arith,
  if◌then◌else◌, length, Bytes, ◌==◌, bytes_eq,
}
use mathlib.Core.List.{append-nil}
use packet_replay.Base.Int.{pos, negsuc}
use packet_replay.Memory.{Pointer, read_range, read_bytes, memcmp}
use packet_replay.Layers.{
  Layer, View, tcp, transport, get_src_addr, get_src_port, get_data, get_data_size, get_flags,
  has_syn, has_ack, has_rst, has_fin, has_flag, th_fin, th_syn, th_rst, th_ack,
}
use packet_replay.Packet.{TransportPacket, get_layer}
use packet_replay.Action.{Action, connect, send, recv, close, plain, with_bytes, from_packet}
use packet_replay.Conversation.{layer3, source_is}
use packet_replay.Tcp.{
  TcpConversation, TcpState, established, closed, syn_sent, syn_received, from_client, capture_data,
  record_data, close_process, syn_sent_process, syn_recv_process, est_process, dispatch,
  process_capture_packet, segment, as_tcp,
}
use packet_replay.Tcp.Handlers.{close_socket_unopened}

-- What a TCP segment says, with the bytes of its headers forgotten.
pub record Segment : Type 0 where
  pub src_addr : Bytes
  pub src_port : ℕ
  pub flags : ℕ
  pub payload : Bytes

-- The two ends of the captured connection.
pub record Ends : Type 0 where
  pub client_addr : Bytes
  pub client_port : ℕ
  pub server_addr : Bytes

pub record Progress : Type 0 where
  pub state : TcpState
  pub actions : List Action

is_empty : Bytes → Bool
is_empty [] = true
is_empty (b ∷ bs) = false

-- The data of a segment of an open connection, in one action.
unfoldable pub data_action : Ends → Segment → List Action
unfolding is_empty
data_action e g =
    if is_empty g.payload
    then []
    else with_bytes
        (if bytes_eq g.src_addr e.client_addr && g.src_port == e.client_port then send else recv)
        g.payload
      ∷ []

-- One segment that does not reset the connection.
unfoldable pub follow : Ends → Segment → TcpState → List Action → Progress
unfolding data_action
follow e g closed q = record {
  state = if bytes_eq g.src_addr e.client_addr && g.flags == th_syn then syn_sent else closed;
  actions = q;
}
follow e g syn_sent q = record {
  state =
      if bytes_eq g.src_addr e.server_addr && (has_flag g.flags th_ack && has_flag g.flags th_syn)
      then syn_received
      else syn_sent;
  actions = q;
}
follow e g syn_received q =
    if bytes_eq g.src_addr e.client_addr && has_flag g.flags th_ack
    then record { state = established; actions = q ++ plain connect ∷ [] }
    else record { state = syn_received; actions = q }
follow e g established q =
    if has_flag g.flags th_fin
    then record { state = closed; actions = (q ++ data_action e g) ++ plain close ∷ [] }
    else record { state = established; actions = q ++ data_action e g }

unfoldable pub advance : Ends → Progress → Segment → Progress
unfolding follow
advance e s g =
    if has_flag g.flags th_rst
    then record { state = closed; actions = s.actions }
    else follow e g s.state s.actions

-- The packet holds the segment: every read that the handlers make of it is inside the buffer.
pub record Holds (n : ℕ) (p : TransportPacket) (g : Segment) : Type 0 where
  pub view : View
  pub network : Layer
  pub addr : Pointer
  pub start : Pointer
  pub is_tcp : as_tcp (get_layer p transport) ≡ some view
  pub is_network : layer3 p ≡ ok network
  pub addr_at : get_src_addr network ≡ ok addr
  pub addr_is : read_bytes addr n ≡ ok g.src_addr
  pub port_is : get_src_port (tcp view) ≡ ok g.src_port
  pub flags_are : get_flags view ≡ ok g.flags
  pub size_is : get_data_size (tcp view) ≡ ok (pos (length g.payload))
  pub start_at : get_data (tcp view) ≡ ok start
  pub payload_is : read_bytes start (length g.payload) ≡ ok g.payload

abbrev pub ends : TcpConversation → Ends
ends c = record {
  client_addr = c.cap_src_addr;
  client_port = c.cap_src_port;
  server_addr = c.cap_dest_addr;
}

abbrev pub progress : TcpConversation → Progress
progress c = record { state = c.cap_tcp_state; actions = c.action_queue }

-- The conversation with another state and another queue, and all else as it was.
abbrev pub with_progress : TcpConversation → Progress → TcpConversation
with_progress c s = record c {
  base = record c.base { action_queue = s.actions };
  cap_tcp_state = s.state;
}

-- What the class keeps of itself: the addresses have the size that it compares, and the socket is
-- never opened.
pub record IsReady (c : TcpConversation) : Type 0 where
  pub client_reads : read_bytes c.cap_src_addr c.addr_size ≡ ok c.cap_src_addr
  pub server_reads : read_bytes c.cap_dest_addr c.addr_size ≡ ok c.cap_dest_addr
  pub unopened : c.socket ≡ negsuc 0

module _ (c : TcpConversation) (p : TransportPacket) (g : Segment) (h : Holds c.addr_size p g) where
  source_is_held :
      (a : Bytes)
      → read_bytes a c.addr_size ≡ ok a
      → source_is c.base p a ≡ ok (bytes_eq g.src_addr a)
  unfolding source_is memcmp
  source_is_held a r = ground (arith, h.is_network, h.addr_at, h.addr_is)

  flags_held :
      (has_syn h.view ≡ ok (has_flag g.flags th_syn))
      × (has_ack h.view ≡ ok (has_flag g.flags th_ack))
      × (has_rst h.view ≡ ok (has_flag g.flags th_rst))
      × (has_fin h.view ≡ ok (has_flag g.flags th_fin))
  unfolding has_syn has_ack has_rst has_fin
  flags_held = ground (arith, h.flags_are)

  from_client_held :
      IsReady c
      → from_client c p h.view
        ≡ ok (bytes_eq g.src_addr c.cap_src_addr && g.src_port == c.cap_src_port)
  unfolding from_client
  from_client_held r = ground (arith, source_is_held c.cap_src_addr r.client_reads, h.port_is)

  record_data_held :
      IsReady c
      → record_data c p h.view
        ≡ ok (
            with_progress c (record {
              state = c.cap_tcp_state;
              actions = c.action_queue ++ data_action (ends c) g;
            }))
  unfolding record_data capture_data data_action is_empty from_packet read_range
  record_data_held r = elim (List-cases g.payload) [
    | inl e ↦ ground (arith, h.size_is, append-nil c.action_queue)
    | inr (b, bs, e) ↦ ground (arith, h.size_is, h.start_at, h.payload_is, from_client_held r)
  ]

  close_held :
      IsReady c
      → c.cap_tcp_state ≡ closed
      → close_process c p h.view ≡ ok (with_progress c (follow (ends c) g closed c.action_queue))
  unfolding close_process follow
  close_held r s =
      ground
        (arith, source_is_held c.cap_src_addr r.client_reads, h.flags_are, h.size_is, r.unopened)

  syn_sent_held :
      IsReady c
      → c.cap_tcp_state ≡ syn_sent
      → syn_sent_process c p h.view
        ≡ ok (with_progress c (follow (ends c) g syn_sent c.action_queue))
  unfolding syn_sent_process follow
  syn_sent_held r s = ground (arith, source_is_held c.cap_dest_addr r.server_reads, flags_held)

  syn_recv_held :
      IsReady c
      → c.cap_tcp_state ≡ syn_received
      → syn_recv_process c p h.view
        ≡ ok (with_progress c (follow (ends c) g syn_received c.action_queue))
  unfolding syn_recv_process follow
  syn_recv_held r s = ground (arith, source_is_held c.cap_src_addr r.client_reads, flags_held)

  est_held :
      IsReady c
      → c.cap_tcp_state ≡ established
      → est_process c p h.view ≡ ok (with_progress c (follow (ends c) g established c.action_queue))
  unfolding est_process follow
  est_held r s = ground (arith, record_data_held r, flags_held)

  dispatch_held :
      (s : TcpState)
      → IsReady c
      → c.cap_tcp_state ≡ s
      → dispatch s c p h.view ≡ ok (with_progress c (follow (ends c) g s c.action_queue))
  unfolding dispatch
  dispatch_held closed r e = close_held r e
  dispatch_held syn_sent r e = syn_sent_held r e
  dispatch_held syn_received r e = syn_recv_held r e
  dispatch_held established r e = est_held r e

  -- On a packet that holds a segment, `processCapturePacket` of a conversation whose addresses can
  -- be read and whose socket was never opened returns, and does to the state and to the queue what
  -- the machine over segments does. Nothing else of the conversation changes.
  pub process_refines_advance :
      IsReady c
      → process_capture_packet c p ≡ ok (with_progress c (advance (ends c) (progress c) g))
  unfolding process_capture_packet segment advance
  process_refines_advance r = ground (
    arith,
    h.is_tcp,
    flags_held,
    close_socket_unopened c r.unopened,
    dispatch_held c.cap_tcp_state r refl,
  )
