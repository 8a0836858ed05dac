-- ===== src/Tcp/Script.antt =====
-- src/lib/tcp_conversation.cc: whatever packets are captured, the recorded actions can be replayed.
use packet_replay.Base.{
  Bool, true, false, List, [], ◌∷◌, ◌++◌, Option, none, some, ok, ◌≡◌, ◌≢◌, refl, All, All-append,
  Bool-cases, Option-cases, inl, inr, bind-eq-ok, ◌∙◌, subst, ok-injective, arith, Bytes,
}
use packet_replay.Base.Int.{negsuc}
use packet_replay.Layers.{View, has_rst, has_fin, transport}
use packet_replay.Layers.Inet.{Inet}
use packet_replay.Packet.{TransportPacket, get_layer}
use packet_replay.Action.{Action, ActionType, connect, send, recv, close, plain}
use packet_replay.Conversation.{TargetTestServer, new_conversation}
use packet_replay.Conversation.Address.{new_conversation-Origin}
use packet_replay.Tcp.{
  TcpConversation, TcpState, established, closed, syn_sent, syn_received, new_tcp_conversation,
  push, enter, record_data, est_process, dispatch, process_capture_packet, segment, as_tcp,
  close_socket, process_all,
}
use packet_replay.Tcp.Handlers.{
  IsDataAction, close_process_cases, syn_sent_process_cases, syn_recv_process_cases,
  record_data_cases, close_socket_unopened,
}

-- One action, from a client that is connected or not: whether it is connected then, or nothing if
-- the action makes no sense. A connection may be opened again while one is open.
abbrev pub allowed : Bool → ActionType → Option Bool
allowed b connect = some true
allowed false _ = none
allowed true send = some true
allowed true recv = some true
allowed true close = some false

pub play : Bool → List Action → Option Bool
play b [] = some b
play b (a ∷ q) = elim (allowed b a.type) [ none ↦ none | some c ↦ play c q ]

-- Data is sent and received in pieces that are not empty; the other actions carry none.
abbrev Carries : ActionType → Bytes → Type 0
Carries connect d = d ≡ []
Carries close d = d ≡ []
Carries send d = d ≢ []
Carries recv d = d ≢ []

abbrev pub IsProper : Action → Type 0
IsProper a = Carries a.type a.bytes

-- What holds of a conversation between two packets. The socket is never opened, so nothing is
-- closed.
pub record Inv (c : TcpConversation) : Type 0 where
  pub connected : Bool
  pub played : play false c.action_queue ≡ some connected
  pub live : c.cap_tcp_state ≡ established → connected ≡ true
  pub proper : All IsProper c.action_queue
  pub unopened : c.socket ≡ negsuc 0
  pub none_closed : c.closed_sockets ≡ []

play-concat :
    (b : Bool) (q : List Action) (a : Action) {c : Bool}
    → play b q ≡ some c
    → play b (q ++ a ∷ []) ≡ allowed c a.type
unfolding play
play-concat b [] a h = ground arith
play-concat b (x ∷ q) a {c} h = elim (Option-cases (allowed b x.type)) [
  | inl stuck ↦ ground arith
  | inr (d, e) ↦ rw (e, play) (play-concat d q a {c = c} (rw (e, play) at h))
]

-- One more action, in the state that comes after it.
push-Inv :
    (c : TcpConversation) (i : Inv c) (s : TcpState) (a : Action) (b : Bool)
    → allowed i.connected a.type ≡ some b
    → IsProper a
    → (s ≡ established → b ≡ true)
    → Inv (enter s (push c a))
push-Inv c i s a b e f l = record {
  connected = b;
  played = play-concat false c.action_queue a i.played ∙ e;
  live = l;
  proper = All-append IsProper c.action_queue (a ∷ []) i.proper (f, tt);
  unopened = i.unopened;
  none_closed = i.none_closed;
}

-- A state in which no connection is needed.
enter-Inv : (c : TcpConversation) → Inv c → (s : TcpState) → s ≢ established → Inv (enter s c)
enter-Inv c i s n = record {
  connected = i.connected;
  played = i.played;
  live = λ h. absurd (n h);
  proper = i.proper;
  unopened = i.unopened;
  none_closed = i.none_closed;
}

push-Inv_of_data :
    (c : TcpConversation) (i : Inv c) (a : Action)
    → c.cap_tcp_state ≡ established
    → IsDataAction a
    → Inv (push c a) × (c.cap_tcp_state ≡ established)
push-Inv_of_data c i a s (t, n) =
    (push-Inv c i c.cap_tcp_state a true (ground (arith, i.live s)) (ground arith) (λ _. refl), s)

-- A segment of an established connection: its data, and then the end of the connection.
record_data-Inv :
    (c d : TcpConversation) (p : TransportPacket) (v : View)
    → Inv c
    → c.cap_tcp_state ≡ established
    → record_data c p v ≡ ok d
    → Inv d × (d.cap_tcp_state ≡ established)
record_data-Inv c d p v i s h = elim (record_data_cases c d p v h) [
  | inl e ↦ rw e (i, s)
  | inr (a, isdata, e) ↦ rw e (push-Inv_of_data c i a s isdata)
]

est_process-Inv :
    (c d : TcpConversation) (p : TransportPacket) (v : View)
    → Inv c
    → c.cap_tcp_state ≡ established
    → est_process c p v ≡ ok d
    → Inv d
unfolding est_process
est_process-Inv c d p v i s h =
    let (e, r, k1) = bind-eq-ok (record_data c p v) _ h in
    let (fin, f, k2) = bind-eq-ok (has_fin v) _ k1 in
    let (j, t) = record_data-Inv c e p v i s r in
    elim (Bool-cases fin) [
      | inl yes' ↦
          subst Inv (ok-injective (rw yes' at k2))
            (push-Inv e j closed (plain close) false (ground (arith, j.live t)) refl (λ z. cc))
      | inr no' ↦ subst Inv (ok-injective (rw no' at k2)) j
    ]

dispatch-Inv :
    (s : TcpState) (c d : TcpConversation) (p : TransportPacket) (v : View)
    → c.cap_tcp_state ≡ s
    → Inv c
    → dispatch s c p v ≡ ok d
    → Inv d
unfolding dispatch
dispatch-Inv closed c d p v e i h = elim (close_process_cases c d p v i.unopened h) [
  | inl same ↦ rw same i
  | inr e' ↦ rw e' (enter-Inv c i syn_sent (λ z. cc))
]
dispatch-Inv syn_sent c d p v e i h = elim (syn_sent_process_cases c d p v h) [
  | inl same ↦ rw same i
  | inr e' ↦ rw e' (enter-Inv c i syn_received (λ z. cc))
]
dispatch-Inv syn_received c d p v e i h = elim (syn_recv_process_cases c d p v h) [
  | inl same ↦ rw same i
  | inr e' ↦ rw e' (push-Inv c i established (plain connect) true refl refl (λ _. refl))
]
dispatch-Inv established c d p v e i h = est_process-Inv c d p v i e h

reset-Inv : (c : TcpConversation) → Inv c → Inv (enter closed (close_socket c))
reset-Inv c i = rw (close_socket_unopened c i.unopened) (enter-Inv c i closed (λ z. cc))

segment-Inv :
    (c d : TcpConversation) (p : TransportPacket) (v : View) → Inv c → segment c p v ≡ ok d → Inv d
unfolding segment
segment-Inv c d p v i h =
    let (rst, r, k) = bind-eq-ok (has_rst v) _ h in
    elim (Bool-cases rst) [
      | inl reset ↦ subst Inv (ok-injective (rw reset at k)) (reset-Inv c i)
      | inr none' ↦ dispatch-Inv c.cap_tcp_state c d p v refl i (rw none' at k)
    ]

-- Every packet, in every state, keeps the invariant.
pub process_capture_packet-Inv :
    (c d : TcpConversation) (p : TransportPacket)
    → Inv c
    → process_capture_packet c p ≡ ok d
    → Inv d
unfolding process_capture_packet
process_capture_packet-Inv c d p i h = elim (Option-cases (as_tcp (get_layer p transport))) [
  | inl e ↦ subst Inv (ok-injective (rw (e, process_capture_packet) at h)) i
  | inr (v, e) ↦ segment-Inv c d p v i (rw (e, process_capture_packet) at h)
]

pub process_all-Inv :
    (c d : TcpConversation) (ps : List TransportPacket) → Inv c → process_all c ps ≡ ok d → Inv d
unfolding process_all
process_all-Inv c d [] i h = subst Inv (ok-injective h) i
process_all-Inv c d (p ∷ ps) i h =
    let (e, s, k) = bind-eq-ok (process_capture_packet c p) _ h in
    process_all-Inv e d ps (process_capture_packet-Inv c e p i s) k

new-Inv :
    (net : Inet) (p : TransportPacket) (server : Option TargetTestServer) (c : TcpConversation)
    → new_tcp_conversation net p server ≡ ok c
    → Inv c
unfolding new_tcp_conversation play
new-Inv net p server c h =
    let (b, e, k) = bind-eq-ok (new_conversation net p server) _ h in
    subst Inv (ok-injective k) (record {
      connected = false;
      played = ground (arith, (new_conversation-Origin net p server b e).empty_is);
      live = λ z. cc;
      proper = rw ((new_conversation-Origin net p server b e).empty_is) tt;
      unopened = refl;
      none_closed = refl;
    })

-- Whatever packets a new conversation processes without an exception, the actions recorded can be
-- played in their order: nothing is sent, received or closed before a connection is opened or
-- after it is closed, every SEND and RECV has data, and no CONNECT or CLOSE has any; in the state
-- `established` the client is connected. The socket was neither opened nor closed.
pub script_replayable :
    (net : Inet) (p : TransportPacket) (server : Option TargetTestServer) (c d : TcpConversation)
    (ps : List TransportPacket)
    → new_tcp_conversation net p server ≡ ok c
    → process_all c ps ≡ ok d
    → Inv d
script_replayable net p server c d ps h k = process_all-Inv c d ps (new-Inv net p server c h) k
