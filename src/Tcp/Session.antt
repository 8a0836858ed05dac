-- ===== src/Tcp/Session.antt =====
-- src/lib/tcp_conversation.cc: whole captures. What a conversation has recorded after a sequence
-- of segments, and what it has recorded of a connection from its first segment to its last.
use mathlib.Core.List.{append_assoc, append-nil}
use packet_replay.Base.{
  ℕ, Bool, true, not, ◌&&◌, List, [], ◌∷◌, ◌++◌, Option, ok, bind-eq-ok, ok-injective, subst, ◌≡◌,
  refl, ◌∙◌, ap, arith, ◌==◌, bytes_eq,
}
use packet_replay.Memory.Laws.{read_bytes_copy}
use packet_replay.Layers.{has_flag, th_fin, th_syn, th_rst, th_ack}
use packet_replay.Layers.Inet.{Inet}
use packet_replay.Packet.{TransportPacket}
use packet_replay.Action.{Action, connect, close, plain}
use packet_replay.Conversation.{TargetTestServer, new_conversation}
use packet_replay.Conversation.Address.{new_conversation-Origin}
use packet_replay.Tcp.{TcpConversation, established, closed, new_tcp_conversation, process_all}
use packet_replay.Tcp.Segments.{
  Segment, Ends, Progress, Holds, IsReady, ends, progress, with_progress, data_action, follow,
  advance, process_refines_advance,
}

unfoldable pub advance_all : Ends → Progress → List Segment → Progress
advance_all e s [] = s
advance_all e s (g ∷ gs) = advance_all e (advance e s g) gs

-- The packets hold the segments, one each, in order.
abbrev pub AllHold : ℕ → List TransportPacket → List Segment → Type 0
AllHold n [] [] = Unit
AllHold n (p ∷ ps) (g ∷ gs) = Holds n p g × AllHold n ps gs
AllHold n _ _ = ⊥

pub new-IsReady :
    (net : Inet) (p : TransportPacket) (server : Option TargetTestServer) (c : TcpConversation)
    → new_tcp_conversation net p server ≡ ok c
    → IsReady c × (progress c ≡ record { state = closed; actions = [] })
unfolding new_tcp_conversation
new-IsReady net p server c h =
    let (b, e, k) = bind-eq-ok (new_conversation net p server) _ h in
    let o = new_conversation-Origin net p server b e in
    subst (λ d. IsReady d × (progress d ≡ record { state = closed; actions = [] })) (ok-injective k)
      (
        record {
          client_reads = read_bytes_copy o.src_ptr b.addr_size o.src_is;
          server_reads = read_bytes_copy o.dest_ptr b.addr_size o.dest_is;
          unopened = refl;
        },
        ap (λ q. record { state = closed; actions = q }) o.empty_is,
      )

with_progress-IsReady :
    (c : TcpConversation) (s : Progress) → IsReady c → IsReady (with_progress c s)
with_progress-IsReady c s r = record {
  client_reads = r.client_reads;
  server_reads = r.server_reads;
  unopened = r.unopened;
}

-- On packets that hold segments the recording never fails, and it is that of the machine over
-- segments.
pub process_all_refines :
    (c : TcpConversation) (ps : List TransportPacket) (gs : List Segment)
    → IsReady c
    → AllHold c.addr_size ps gs
    → process_all c ps ≡ ok (with_progress c (advance_all (ends c) (progress c) gs))
unfolding process_all advance_all
process_all_refines c [] [] r h = refl
process_all_refines c [] (g ∷ gs) r h = absurd h
process_all_refines c (p ∷ ps) [] r h = absurd h
process_all_refines c (p ∷ ps) (g ∷ gs) r (h, hs) = rw (process_refines_advance c p g h r) (
    process_all_refines (with_progress c (advance (ends c) (progress c) g)) ps gs
      (with_progress-IsReady c _ r) hs)

-- The segments of a connection: the three of the opening, data, and the end.
abbrev pub is_opening : Ends → Segment → Bool
is_opening e g = bytes_eq g.src_addr e.client_addr && g.flags == th_syn

abbrev pub is_answer : Ends → Segment → Bool
is_answer e g =
    bytes_eq g.src_addr e.server_addr
    && (has_flag g.flags th_ack && (has_flag g.flags th_syn && not (has_flag g.flags th_rst)))

abbrev pub is_acknowledgement : Ends → Segment → Bool
is_acknowledgement e g =
    bytes_eq g.src_addr e.client_addr && (has_flag g.flags th_ack && not (has_flag g.flags th_rst))

abbrev pub is_ordinary : Segment → Bool
is_ordinary g = not (has_flag g.flags th_fin) && not (has_flag g.flags th_rst)

abbrev pub is_last : Segment → Bool
is_last g = has_flag g.flags th_fin && not (has_flag g.flags th_rst)

abbrev pub all_ordinary : List Segment → Bool
all_ordinary [] = true
all_ordinary (g ∷ gs) = is_ordinary g && all_ordinary gs

-- The data of the segments, in order, an action for each segment that has some.
pub data_actions : Ends → List Segment → List Action
data_actions e [] = []
data_actions e (g ∷ gs) = data_action e g ++ data_actions e gs

advance_ordinary :
    (e : Ends) (q : List Action) (g : Segment)
    → is_ordinary g ≡ true
    → advance e (record { state = established; actions = q }) g
      ≡ record { state = established; actions = q ++ data_action e g }
unfolding advance follow
advance_ordinary e q g h = ground arith

advance_data :
    (e : Ends) (q : List Action) (gs : List Segment) (rest : List Segment)
    → all_ordinary gs ≡ true
    → advance_all e (record { state = established; actions = q }) (gs ++ rest)
      ≡ advance_all e (record { state = established; actions = q ++ data_actions e gs }) rest
unfolding advance_all data_actions
advance_data e q [] rest h = rw append-nil
advance_data e q (g ∷ gs) rest h =
    rw (advance_all, data_actions, advance_ordinary e q g (ground arith), ← append_assoc)
      (advance_data e (q ++ data_action e g) gs rest (ground arith))

advance_opening :
    (e : Ends) (q : List Action) (a b c : Segment)
    → is_opening e a ≡ true
    → is_answer e b ≡ true
    → is_acknowledgement e c ≡ true
    → advance e (advance e (advance e (record { state = closed; actions = q }) a) b) c
      ≡ record { state = established; actions = q ++ plain connect ∷ [] }
unfolding advance follow
advance_opening e q a b c ha hb hc = ground arith

advance_last :
    (e : Ends) (q : List Action) (g : Segment)
    → is_last g ≡ true
    → advance e (record { state = established; actions = q }) g
      ≡ record { state = closed; actions = (q ++ data_action e g) ++ plain close ∷ [] }
unfolding advance follow
advance_last e q g h = ground arith

-- What is recorded of a whole connection.
abbrev pub session_actions : Ends → List Segment → Segment → List Action
session_actions e gs last =
    plain connect ∷ (data_actions e gs ++ (data_action e last ++ plain close ∷ []))

advance_session :
    (e : Ends) (q : List Action) (a b c : Segment) (gs : List Segment) (last : Segment)
    → is_opening e a ≡ true
    → is_answer e b ≡ true
    → is_acknowledgement e c ≡ true
    → all_ordinary gs ≡ true
    → is_last last ≡ true
    → advance_all e (record { state = closed; actions = q }) (a ∷ b ∷ c ∷ (gs ++ last ∷ []))
      ≡ record { state = closed; actions = q ++ session_actions e gs last }
unfolding advance_all
advance_session e q a b c gs last ha hb hc hg hl =
    rw (advance_all, advance_opening e q a b c ha hb hc)
      (advance_data e (q ++ plain connect ∷ []) gs (last ∷ []) hg
        ∙ advance_last e ((q ++ plain connect ∷ []) ++ data_actions e gs) last hl
        ∙ ap (λ r. record { state = closed; actions = r }) (simp append_assoc))

-- A conversation in the state `closed`, whose addresses can be read and whose socket was never
-- opened, is given packets that hold the segments of a connection: the three of the handshake, any
-- that neither end nor reset it, and one with a FIN and no reset. It records them without failure,
-- as CONNECT, one SEND or RECV for each segment with data, in order, and CLOSE, behind what was
-- recorded before, and is `closed` again.
pub session_recorded :
    (k : TcpConversation) (ps : List TransportPacket) (a b c : Segment) (gs : List Segment)
    (last : Segment)
    → IsReady k
    → k.cap_tcp_state ≡ closed
    → AllHold k.addr_size ps (a ∷ b ∷ c ∷ (gs ++ last ∷ []))
    → is_opening (ends k) a ≡ true
    → is_answer (ends k) b ≡ true
    → is_acknowledgement (ends k) c ≡ true
    → all_ordinary gs ≡ true
    → is_last last ≡ true
    → process_all k ps
      ≡ ok (
          with_progress k (record {
            state = closed;
            actions = k.action_queue ++ session_actions (ends k) gs last;
          }))
session_recorded k ps a b c gs last r s h ha hb hc hg hl =
    process_all_refines k ps (a ∷ b ∷ c ∷ (gs ++ last ∷ [])) r h
    ∙ ap (λ t. ok (with_progress k t))
        (ap
            (λ st.
              advance_all (ends k) (record { state = st; actions = k.action_queue })
                (a ∷ b ∷ c ∷ (gs ++ last ∷ [])))
            s
          ∙ advance_session (ends k) k.action_queue a b c gs last ha hb hc hg hl)
