-- ===== src/Capture/Load.antt =====
-- src/lib/capture.cc: what `load` makes of a whole capture.
use packet_replay.Base.{
  ℕ, ◌%◌, ◌≡◌, refl, sym, subst, List, [], ◌∷◌, Option, none, some, Bytes, ok, runtime_error,
  ok-injective, bind-eq-ok, guard, ◌==◌, arith,
}
use packet_replay.StringMap.{lookup}
use packet_replay.Packet.{TransportPacket}
use packet_replay.Store.{ConversationFactory, ConversationStore, empty_store}
use packet_replay.Store.Selection.{FollowsOne, deliver-FollowsOne}
use packet_replay.Store.Routing.{
  deliver_all, process_list, packets_of, conversation_sees_own_packets,
}
use packet_replay.Capture.{
  PcapHeader, CaptureFile, dissect, deliver_found, packet_handler, pcap_loop, load,
}

-- The packets that the frames hold, in order.
pub data Dissected (datalink : ℕ) : List (PcapHeader × Bytes) → List TransportPacket → Type 0 where
  done : Dissected datalink [] []
  skip :
      {h : PcapHeader} {bytes : Bytes} {frames : List (PcapHeader × Bytes)}
      {ps : List TransportPacket}
      → h.caplen ≡ h.len
      → dissect datalink h bytes ≡ ok none
      → Dissected datalink frames ps
      → Dissected datalink ((h, bytes) ∷ frames) ps
  keep :
      {h : PcapHeader} {bytes : Bytes} {frames : List (PcapHeader × Bytes)} {p : TransportPacket}
      {ps : List TransportPacket}
      → h.caplen ≡ h.len
      → dissect datalink h bytes ≡ ok (some p)
      → Dissected datalink frames ps
      → Dissected datalink ((h, bytes) ∷ frames) (p ∷ ps)

module _ {T : Type 0} (f : ConversationFactory T) where
  deliver_found-FollowsOne :
      (s : ConversationStore T) (o : Option TransportPacket) {t : ConversationStore T}
      → FollowsOne f s
      → deliver_found f s o ≡ ok t
      → FollowsOne f t
  deliver_found-FollowsOne s none i h = subst (FollowsOne f) (ok-injective h) i
  deliver_found-FollowsOne s (some p) {t} i h = deliver-FollowsOne f s p {t = t} i h

  pcap_loop-FollowsOne :
      (datalink : ℕ) (s : ConversationStore T) (frames : List (PcapHeader × Bytes))
      {t : ConversationStore T}
      → FollowsOne f s
      → pcap_loop f datalink s frames ≡ ok t
      → FollowsOne f t
  unfolding pcap_loop packet_handler
  pcap_loop-FollowsOne datalink s [] i h = subst (FollowsOne f) (ok-injective h) i
  pcap_loop-FollowsOne datalink s ((h, bytes) ∷ frames) {t} i e =
      let (u, e1, k1) = bind-eq-ok (packet_handler f datalink s h bytes) _ e in
      let (_, e2, k2) = bind-eq-ok (guard (h.caplen == h.len) runtime_error) _ e1 in
      let (o, e3, k3) = bind-eq-ok (dissect datalink h bytes) _ k2 in
      pcap_loop-FollowsOne datalink u frames {t = t} (deliver_found-FollowsOne s o {t = u} i k3) k1

  -- If a capture is loaded without an exception into an empty store in which no server is
  -- configured, the store has one conversation at most.
  pub load_one :
      (file : CaptureFile) {t : ConversationStore T}
      → load f empty_store file ≡ ok t
      → FollowsOne f t
  unfolding load
  load_one file {t} h =
      let (_, e1, k1) = bind-eq-ok (guard file.opened runtime_error) _ h in
      let (u, e2, k2) =
        bind-eq-ok (pcap_loop f (file.datalink % 256) empty_store file.frames) _ k1 in
      let (_, e3, k3) = bind-eq-ok (guard file.read_to_end runtime_error) _ k2 in
      pcap_loop-FollowsOne (file.datalink % 256) empty_store file.frames {t = t}
        (record { unconfigured = refl; sorted = tt; at_most_one = omega arith })
        (subst (λ v. pcap_loop f (file.datalink % 256) empty_store file.frames ≡ ok v)
          (ok-injective k3) e2)

  -- One frame of a loop that goes on: it is complete, and its packet, if it holds one, is delivered.
  packet_handler-eq-ok :
      (datalink : ℕ) (s : ConversationStore T) (h : PcapHeader) (bytes : Bytes)
      {u : ConversationStore T}
      → packet_handler f datalink s h bytes ≡ ok u
      → (h.caplen ≡ h.len)
        × ((o : Option TransportPacket) × (dissect datalink h bytes ≡ ok o)
            × (deliver_found f s o ≡ ok u))
  unfolding packet_handler
  packet_handler-eq-ok datalink s h bytes e =
      let (_, e2, k2) = bind-eq-ok (guard (h.caplen == h.len) runtime_error) _ e in
      let (o, e3, k3) = bind-eq-ok (dissect datalink h bytes) _ k2 in
      (ground (arith, e2), (o, e3, k3))

  cons_frame :
      (datalink : ℕ) (s u t : ConversationStore T) (h : PcapHeader) (bytes : Bytes)
      (frames : List (PcapHeader × Bytes)) (o : Option TransportPacket) (ps : List TransportPacket)
      → h.caplen ≡ h.len
      → dissect datalink h bytes ≡ ok o
      → deliver_found f s o ≡ ok u
      → Dissected datalink frames ps
      → deliver_all f u ps ≡ ok t
      → (qs : List TransportPacket) × Dissected datalink ((h, bytes) ∷ frames) qs
        × (deliver_all f s qs ≡ ok t)
  unfolding deliver_all
  cons_frame datalink s u t h bytes frames none ps c e v d a =
      (ps, skip c e d, subst (λ w. deliver_all f w ps ≡ ok t) (sym (ok-injective v)) a)
  cons_frame datalink s u t h bytes frames (some p) ps c e v d a =
      (p ∷ ps, keep c e d, rw (deliver_all, v) a)

  -- The loop over the frames is the loop over the packets that they hold.
  pub pcap_loop_delivers :
      (datalink : ℕ) (s : ConversationStore T) (frames : List (PcapHeader × Bytes))
      {t : ConversationStore T}
      → pcap_loop f datalink s frames ≡ ok t
      → (ps : List TransportPacket) × Dissected datalink frames ps × (deliver_all f s ps ≡ ok t)
  unfolding pcap_loop deliver_all
  pcap_loop_delivers datalink s [] e = ([], done, e)
  pcap_loop_delivers datalink s ((h, bytes) ∷ frames) {t} e =
      let (u, e1, k1) = bind-eq-ok (packet_handler f datalink s h bytes) _ e in
      let (c, (o, e2, k2)) = packet_handler-eq-ok datalink s h bytes {u = u} e1 in
      let (ps, d, a) = pcap_loop_delivers datalink u frames {t = t} k1 in
      cons_frame datalink s u t h bytes frames o ps c e2 k2 d a

  -- If a loop over the frames of a capture ends without an exception, every frame was complete and
  -- was either cut into the layers of a packet or ignored, and a conversation that was in the
  -- store when the loop started has processed the packets of its key, in order, and no other.
  pub pcap_loop_routes :
      (datalink : ℕ) (s : ConversationStore T) (frames : List (PcapHeader × Bytes)) (k : Bytes)
      (c : T) {t : ConversationStore T}
      → lookup k s.conversations ≡ some c
      → pcap_loop f datalink s frames ≡ ok t
      → (ps : List TransportPacket) × Dissected datalink frames ps
        × ((d : T) × (process_list f c (packets_of f k ps) ≡ ok d)
            × (lookup k t.conversations ≡ some d))
  pcap_loop_routes datalink s frames k c {t} l e =
      let (ps, d, a) = pcap_loop_delivers datalink s frames {t = t} e in
      (ps, d, conversation_sees_own_packets f s ps k c {t = t} l a)
