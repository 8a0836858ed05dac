-- ===== src/Tcp/Handlers.antt =====
-- src/lib/tcp_conversation.cc: what each handler of a state may do to a conversation.
use packet_replay.Base.{
  Bool, true, [], ok, ◌≡◌, ◌≢◌, Bool-cases, ◌⊎◌, inl, inr, bind-eq-ok, arith, if◌then◌else◌, Bytes,
}
use packet_replay.Base.Int.{ℤ, pos, negsuc}
use packet_replay.Memory.{Pointer, read_range}
use packet_replay.Memory.Laws.{length-read_bytes}
use packet_replay.Layers.{View, tcp, get_data, get_data_size}
use packet_replay.Packet.{TransportPacket}
use packet_replay.Action.{Action, connect, send, recv, plain, from_packet}
use packet_replay.Tcp.{
  TcpConversation, established, syn_sent, syn_received, push, enter, has_data, from_client,
  capture_data, record_data, close_process, syn_sent_process, syn_recv_process, close_socket,
}

pub close_socket_unopened : (c : TcpConversation) → c.socket ≡ negsuc 0 → close_socket c ≡ c
close_socket_unopened c h = ground arith

-- What each handler may do to a conversation whose socket was never opened.
pub close_process_cases :
    (c d : TcpConversation) (p : TransportPacket) (v : View)
    → c.socket ≡ negsuc 0
    → close_process c p v ≡ ok d
    → (d ≡ c) ⊎ (d ≡ enter syn_sent c)
unfolding close_process
close_process_cases c d p v u h = ground arith

pub syn_sent_process_cases :
    (c d : TcpConversation) (p : TransportPacket) (v : View)
    → syn_sent_process c p v ≡ ok d
    → (d ≡ c) ⊎ (d ≡ enter syn_received c)
unfolding syn_sent_process
syn_sent_process_cases c d p v h = ground arith

pub syn_recv_process_cases :
    (c d : TcpConversation) (p : TransportPacket) (v : View)
    → syn_recv_process c p v ≡ ok d
    → (d ≡ c) ⊎ (d ≡ push (enter established c) (plain connect))
unfolding syn_recv_process
syn_recv_process_cases c d p v h = ground arith

-- Data goes into one action, which is not empty.
abbrev pub IsDataAction : Action → Type 0
IsDataAction a = ((a.type ≡ send) ⊎ (a.type ≡ recv)) × (a.bytes ≢ [])

read_range-ne-nil :
    (q : Pointer) (n : ℤ) {bs : Bytes} → has_data n ≡ true → read_range q n ≡ ok bs → bs ≢ []
unfolding read_range
read_range-ne-nil q (pos n) {bs} h e z = ground (arith, length-read_bytes q n {bs = bs} e, z)
read_range-ne-nil q (negsuc n) h e z = cc

from_packet_lem :
    (sent : Bool) (q : Pointer) (n : ℤ) (a : Action)
    → has_data n ≡ true
    → from_packet (if sent then send else recv) q n ≡ ok a
    → IsDataAction a
unfolding from_packet
from_packet_lem sent q n a h e =
    let (bs, r, k) = bind-eq-ok (read_range q n) _ e in
    ground (arith, read_range-ne-nil q n {bs = bs} h r)

capture_data_cases :
    (c d : TcpConversation) (p : TransportPacket) (v : View) (size : ℤ)
    → has_data size ≡ true
    → capture_data c p v size ≡ ok d
    → (a : Action) × IsDataAction a × (d ≡ push c a)
unfolding capture_data
capture_data_cases c d p v size n h =
    let (start, e1, k1) = bind-eq-ok (get_data (tcp v)) _ h in
    let (sent, e2, k2) = bind-eq-ok (from_client c p v) _ k1 in
    let (a, e3, k3) = bind-eq-ok (from_packet (if sent then send else recv) start size) _ k2 in
    (a, from_packet_lem sent start size a n e3, ground arith)

pub record_data_cases :
    (c d : TcpConversation) (p : TransportPacket) (v : View)
    → record_data c p v ≡ ok d
    → (d ≡ c) ⊎ ((a : Action) × IsDataAction a × (d ≡ push c a))
unfolding record_data
record_data_cases c d p v h =
    let (size, e, k) = bind-eq-ok (get_data_size (tcp v)) _ h in
    elim (Bool-cases (has_data size)) [
      | inl full ↦ inr (capture_data_cases c d p v size full (rw full at k))
      | inr empty ↦ inl (ground arith)
    ]
