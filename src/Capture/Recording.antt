-- ===== src/Capture/Recording.antt =====
-- src/lib/capture.cc, from the frames to the actions: a capture of one connection that is loaded
-- into a store without configured servers.
use packet_replay.Base.{
  ℕ, ◌%◌, ◌≡◌, refl, ap, ◌∙◌, true, List, [], ◌∷◌, ◌++◌, Option, none, some, Bytes, All, Result, ok,
  err, ◌>>=◌, arith, compare_bytes_refl,
}
use packet_replay.StringMap.{lookup, insert}
use packet_replay.Layers.Inet.{Inet}
use packet_replay.Packet.{TransportPacket}
use packet_replay.Factory.{tcp_ip_get_key, tcp_ip_get_target_test_server_keys}
use packet_replay.Tcp
use packet_replay.Tcp.{TcpConversation, closed, new_tcp_conversation, process_all}
use packet_replay.Tcp.Segments.{Segment, ends, with_progress}
use packet_replay.Tcp.Session.{
  AllHold, is_opening, is_answer, is_acknowledgement, all_ordinary, is_last, session_actions,
  session_recorded, new-IsReady,
}
use packet_replay.Store.{
  ConversationFactory, ConversationStore, empty_store, admitted, get_conversation, deliver,
}
use packet_replay.Store.Selection.{configured_server-nil}
use packet_replay.Store.Routing.{deliver_all, process_list}
use packet_replay.Store.Instances.{tcp_conversation_factory}
use packet_replay.Capture.{
  PcapHeader, CaptureFile, dissect, deliver_found, packet_handler, pcap_loop, load,
}
use packet_replay.Capture.Load.{Dissected, done, skip, keep}

-- A store of one conversation, for which no server is configured.
abbrev pub holding : {T : Type 0} → Bytes → T → ConversationStore T
holding key c = record { test_servers = []; conversations = (key, c) ∷ [] }

module _ {T : Type 0} (f : ConversationFactory T) where
  handler-found :
      (datalink : ℕ) (s : ConversationStore T) (h : PcapHeader) (bytes : Bytes)
      (o : Option TransportPacket)
      → h.caplen ≡ h.len
      → dissect datalink h bytes ≡ ok o
      → packet_handler f datalink s h bytes ≡ deliver_found f s o
  unfolding packet_handler
  handler-found datalink s h bytes o c e = ground (arith, c, e)

  -- The loop over complete frames is the loop over the packets that they hold, exceptions included.
  pcap_loop-Dissected :
      (datalink : ℕ) (s : ConversationStore T) {frames : List (PcapHeader × Bytes)}
      {ps : List TransportPacket}
      → Dissected datalink frames ps
      → pcap_loop f datalink s frames ≡ deliver_all f s ps
  unfolding pcap_loop deliver_all
  pcap_loop-Dissected datalink s done = refl
  pcap_loop-Dissected datalink s {frames = (h, bytes) ∷ frames} (skip c e d) =
      ap (λ r. do t ← r; pcap_loop f datalink t frames) (handler-found datalink s h bytes none c e)
      ∙ pcap_loop-Dissected datalink s d
  pcap_loop-Dissected datalink s {frames = (h, bytes) ∷ frames} {ps = p ∷ ps} (keep c e d) =
      ap (λ r. do t ← r; pcap_loop f datalink t frames)
        (handler-found datalink s h bytes (some p) c e)
      ∙ after (deliver f s p) (λ t. pcap_loop-Dissected datalink t d)
    where
      after :
          (r : Result (ConversationStore T))
          → ((t : ConversationStore T) → pcap_loop f datalink t frames ≡ deliver_all f t ps)
          → (do t ← r; pcap_loop f datalink t frames) ≡ (do t ← r; deliver_all f t ps)
      after (err x) ih = refl
      after (ok t) ih = ih t

  deliver-holding :
      (key : Bytes) (c : T) (p : TransportPacket)
      → f.get_key p ≡ ok key
      → deliver f (holding key c) p ≡ (do d ← f.process_capture_packet c p; ok (holding key d))
  unfolding deliver get_conversation lookup insert
  deliver-holding key c p k = ground (arith, k, compare_bytes_refl key)

  deliver-first :
      (key : Bytes) (keys : List Bytes) (c : T) (p : TransportPacket)
      → f.get_key p ≡ ok key
      → f.get_target_test_server_keys p ≡ ok keys
      → f.create_conversation p none ≡ ok c
      → deliver f empty_store p ≡ deliver f (holding key c) p
  unfolding deliver get_conversation lookup insert admitted
  deliver-first key keys c p k e n =
      ground (arith, k, e, n, configured_server-nil f keys, compare_bytes_refl key)

  deliver_all-holding :
      (key : Bytes) (c : T) (ps : List TransportPacket)
      → All (λ p. f.get_key p ≡ ok key) ps
      → deliver_all f (holding key c) ps ≡ (do d ← process_list f c ps; ok (holding key d))
  unfolding deliver_all process_list
  deliver_all-holding key c [] h = refl
  deliver_all-holding key c (p ∷ ps) (k, h) =
      ap (λ r. do t ← r; deliver_all f t ps) (deliver-holding key c p k)
      ∙ after (f.process_capture_packet c p) (λ d. deliver_all-holding key d ps h)
    where
      after :
          (r : Result T)
          → ((d : T)
              → deliver_all f (holding key d) ps ≡ (do x ← process_list f d ps; ok (holding key x)))
          → (do t ← (do d ← r; ok (holding key d)); deliver_all f t ps)
            ≡ (do x ← (do d ← r; process_list f d ps); ok (holding key x))
      after (err x) ih = refl
      after (ok d) ih = ih d

  -- A first packet that a conversation can be made from, and packets that have its key.
  pub loaded_as_one :
      (key : Bytes) (keys : List Bytes) (c : T) (p : TransportPacket) (ps : List TransportPacket)
      → f.get_target_test_server_keys p ≡ ok keys
      → f.create_conversation p none ≡ ok c
      → All (λ q. f.get_key q ≡ ok key) (p ∷ ps)
      → deliver_all f empty_store (p ∷ ps) ≡ (do d ← process_list f c (p ∷ ps); ok (holding key d))
  unfolding deliver_all
  loaded_as_one key keys c p ps e n (k, h) =
      ap (λ r. do t ← r; deliver_all f t ps) (deliver-first key keys c p k e n)
      ∙ deliver_all-holding key c (p ∷ ps) (k, h)

pub process_list-process_all :
    (net : Inet) (c : TcpConversation) (ps : List TransportPacket)
    → process_list (tcp_conversation_factory net) c ps ≡ process_all c ps
unfolding process_list process_all
process_list-process_all net c [] = refl
process_list-process_all net c (p ∷ ps) =
    after (Tcp.process_capture_packet c p) (λ d. process_list-process_all net d ps)
  where
    after :
        (r : Result TcpConversation)
        → ((d : TcpConversation)
            → process_list (tcp_conversation_factory net) d ps ≡ process_all d ps)
        → (do d ← r; process_list (tcp_conversation_factory net) d ps)
          ≡ (do d ← r; process_all d ps)
    after (err x) ih = refl
    after (ok d) ih = ih d

load-loop :
    (net : Inet) (file : CaptureFile) {t : ConversationStore TcpConversation}
    → file.opened ≡ true
    → file.read_to_end ≡ true
    → pcap_loop (tcp_conversation_factory net) (file.datalink % 256) empty_store file.frames ≡ ok t
    → load (tcp_conversation_factory net) empty_store file ≡ ok t
unfolding load
load-loop net file o e h = rw (o, h, e) refl

-- The packets of a capture file that can be opened and read to its end, all of one key, hold the
-- segments of a TCP connection: the three of the handshake, any that neither end nor reset it, and
-- one with a FIN and no reset; and a conversation can be made of the first. Then loading the file
-- into an empty store without configured servers succeeds, and the store holds this conversation
-- alone, with the actions CONNECT, one SEND or RECV for each segment with data, in order, and CLOSE.
pub capture_recorded :
    (net : Inet) (file : CaptureFile) (key : Bytes) (keys : List Bytes) (k : TcpConversation)
    (p : TransportPacket) (ps : List TransportPacket) (a b c : Segment) (gs : List Segment)
    (last : Segment)
    → file.opened ≡ true
    → file.read_to_end ≡ true
    → Dissected (file.datalink % 256) file.frames (p ∷ ps)
    → All (λ q. tcp_ip_get_key q ≡ ok key) (p ∷ ps)
    → tcp_ip_get_target_test_server_keys net p ≡ ok keys
    → new_tcp_conversation net p none ≡ ok k
    → AllHold k.addr_size (p ∷ ps) (a ∷ b ∷ c ∷ (gs ++ last ∷ []))
    → is_opening (ends k) a ≡ true
    → is_answer (ends k) b ≡ true
    → is_acknowledgement (ends k) c ≡ true
    → all_ordinary gs ≡ true
    → is_last last ≡ true
    → load (tcp_conversation_factory net) empty_store file
      ≡ ok (
          holding key (
            with_progress k
              (record { state = closed; actions = session_actions (ends k) gs last })))
capture_recorded net file key keys k p ps a b c gs last o r d ks e n h ha hb hc hg hl =
    let f = tcp_conversation_factory net in
    let (ready, fresh) = new-IsReady net p none k n in
    load-loop net file o r (
      pcap_loop-Dissected f (file.datalink % 256) empty_store d
      ∙ loaded_as_one f key keys k p ps e n ks
      ∙ ap (λ m. do x ← m; ok (holding key x))
          (process_list-process_all net k (p ∷ ps)
            ∙ session_recorded k (p ∷ ps) a b c gs last ready (ap (λ s. s.state) fresh) h ha hb hc
                hg hl
            ∙ ap
                (λ q. ok (
                  with_progress k
                    (record { state = closed; actions = q ++ session_actions (ends k) gs last })))
                (ap (λ s. s.actions) fresh)))
