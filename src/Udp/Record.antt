-- ===== src/Udp/Record.antt =====
-- src/lib/udp_conversation.cc: what is recorded of a sequence of datagrams.
use mathlib.Core.List.{append_assoc, append-nil}
use packet_replay.Base.{
  ℕ, ◌&&◌, List, [], ◌∷◌, ◌++◌, some, Bytes, Result, ok, ◌>>=◌, ◌≡◌, refl, ap, sym, ◌∙◌, length,
  bytes_eq, ◌==◌, if◌then◌else◌, arith,
}
use packet_replay.Base.Int.{pos}
use packet_replay.Memory.{Pointer, read_bytes, read_range, memcmp}
use packet_replay.Layers.{
  Layer, View, udp, transport, get_src_addr, get_src_port, get_data, get_data_size,
}
use packet_replay.Packet.{TransportPacket, get_layer}
use packet_replay.Action.{Action, send, recv, with_bytes, from_packet}
use packet_replay.Conversation.{layer3, source_is}
use packet_replay.Udp.{UdpConversation, as_udp, record_datagram, process_capture_packet}

pub record Datagram : Type 0 where
  pub src_addr : Bytes
  pub src_port : ℕ
  pub payload : Bytes

-- The packet holds the datagram: every read that the handler makes of it is inside the buffer.
pub record Holds (n : ℕ) (p : TransportPacket) (g : Datagram) : Type 0 where
  pub view : View
  pub network : Layer
  pub addr : Pointer
  pub start : Pointer
  pub is_udp : as_udp (get_layer p transport) ≡ some view
  pub is_network : layer3 p ≡ ok network
  pub addr_at : get_src_addr network ≡ ok addr
  pub addr_is : read_bytes addr n ≡ ok g.src_addr
  pub port_is : get_src_port (udp view) ≡ ok g.src_port
  pub size_is : get_data_size (udp view) ≡ ok (pos (length g.payload))
  pub start_at : get_data (udp view) ≡ ok start
  pub payload_is : read_bytes start (length g.payload) ≡ ok g.payload

-- A datagram from the client's address and port is sent again, any other is waited for.
unfoldable pub datagram_action : UdpConversation → Datagram → Action
datagram_action c g =
    with_bytes
      (if bytes_eq g.src_addr c.cap_src_addr && c.cap_src_port == g.src_port then send else recv)
      g.payload

abbrev pub with_actions : UdpConversation → List Action → UdpConversation
with_actions c q = record { base = record c.base { action_queue = q } }

module _ (c : UdpConversation) (p : TransportPacket) (g : Datagram)
    (h : Holds c.addr_size p g) where
  source_held :
      read_bytes c.cap_src_addr c.addr_size ≡ ok c.cap_src_addr
      → source_is c.base p c.cap_src_addr ≡ ok (bytes_eq g.src_addr c.cap_src_addr)
  unfolding source_is memcmp
  source_held r = ground (arith, h.is_network, h.addr_at, h.addr_is)

  datagram_recorded :
      read_bytes c.cap_src_addr c.addr_size ≡ ok c.cap_src_addr
      → process_capture_packet c p
        ≡ ok (with_actions c (c.action_queue ++ datagram_action c g ∷ []))
  unfolding process_capture_packet record_datagram datagram_action from_packet read_range
  datagram_recorded r =
      ground (arith, h.is_udp, h.start_at, source_held r, h.port_is, h.size_is, h.payload_is)

unfoldable pub process_all : UdpConversation → List TransportPacket → Result UdpConversation
process_all c [] = ok c
process_all c (p ∷ ps) = do d ← process_capture_packet c p; process_all d ps

abbrev pub AllHold : ℕ → List TransportPacket → List Datagram → Type 0
AllHold n [] [] = Unit
AllHold n (p ∷ ps) (g ∷ gs) = Holds n p g × AllHold n ps gs
AllHold n _ _ = ⊥

pub datagram_actions : UdpConversation → List Datagram → List Action
datagram_actions c [] = []
datagram_actions c (g ∷ gs) = datagram_action c g ∷ datagram_actions c gs

datagram_actions-with_actions :
    (c : UdpConversation) (q : List Action) (gs : List Datagram)
    → datagram_actions (with_actions c q) gs ≡ datagram_actions c gs
unfolding datagram_actions datagram_action
datagram_actions-with_actions c q [] = refl
datagram_actions-with_actions c q (g ∷ gs) =
    ap (◌∷◌ (datagram_action c g)) (datagram_actions-with_actions c q gs)

-- A conversation whose client address can be read records packets that hold datagrams without
-- failure: one action for each, in order, with all its bytes, also for those that are empty; SEND
-- for those from the client's address and port, RECV for all others.
pub datagrams_recorded :
    (c : UdpConversation) (ps : List TransportPacket) (gs : List Datagram)
    → read_bytes c.cap_src_addr c.addr_size ≡ ok c.cap_src_addr
    → AllHold c.addr_size ps gs
    → process_all c ps ≡ ok (with_actions c (c.action_queue ++ datagram_actions c gs))
unfolding process_all datagram_actions
datagrams_recorded c [] [] r h = ap (λ q. ok (with_actions c q)) (sym (append-nil c.action_queue))
datagrams_recorded c [] (g ∷ gs) r h = absurd h
datagrams_recorded c (p ∷ ps) [] r h = absurd h
datagrams_recorded c (p ∷ ps) (g ∷ gs) r (h, hs) =
    let q = c.action_queue ++ datagram_action c g ∷ [] in
    rw (process_all, datagram_recorded c p g h r)
      (datagrams_recorded (with_actions c q) ps gs r hs
        ∙ ap (λ xs. ok (with_actions c (q ++ xs))) (datagram_actions-with_actions c q gs)
        ∙ ap (λ xs. ok (with_actions c xs))
            (append_assoc c.action_queue (datagram_action c g ∷ []) (datagram_actions c gs)))
