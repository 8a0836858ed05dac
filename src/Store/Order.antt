-- ===== src/Store/Order.antt =====
-- src/include/conversation_store.h: the map of conversations keeps one entry for each key, in the
-- order of the keys, in which the conversations are replayed.
use packet_replay.Base.{
  ◌≡◌, subst, List, [], ◌∷◌, Option, none, some, Bytes, ok, ok-injective, bind-eq-ok, required,
  fault,
}
use packet_replay.StringMap.{lookup}
use packet_replay.StringMap.Laws.{IsSorted, insert-IsSorted}
use packet_replay.Packet.{TransportPacket}
use packet_replay.Store.{
  ConversationFactory, ConversationStore, get_conversation, process_in, deliver,
}
use packet_replay.Store.Selection.{Found, known, refused, made, get_conversation-Found}
use packet_replay.Store.Routing.{deliver_all}

module _ {T : Type 0} (f : ConversationFactory T) where
  Found-IsSorted :
      {s : ConversationStore T} {p : TransportPacket} {u : ConversationStore T}
      {handle : Option Bytes}
      → IsSorted s.conversations
      → Found f s p u handle
      → IsSorted u.conversations
  Found-IsSorted i (known key c e1 e2 e3 e4) = rw e3 i
  Found-IsSorted i (refused key keys e1 e2 e3 e4 e5 e6) = rw e5 i
  Found-IsSorted {s} i (made key keys server c e1 e2 e3 e4 e5 e6 e7) =
      rw e6 (insert-IsSorted key c s.conversations i)

  process_in-IsSorted :
      (u : ConversationStore T) (p : TransportPacket) (handle : Option Bytes)
      {t : ConversationStore T}
      → IsSorted u.conversations
      → process_in f u p handle ≡ ok t
      → IsSorted t.conversations
  unfolding process_in
  process_in-IsSorted u p none i h = subst (λ v. IsSorted v.conversations) (ok-injective h) i
  process_in-IsSorted u p (some key) i h =
      let (c, e1, k1) = bind-eq-ok (required (lookup key u.conversations) fault) _ h in
      let (d, e2, k2) = bind-eq-ok (f.process_capture_packet c p) _ k1 in
      subst (λ v. IsSorted v.conversations) (ok-injective k2)
        (insert-IsSorted key d u.conversations i)

  -- If packets are delivered without an exception to a store whose conversations stand in the
  -- order of their keys, one for each key, this holds of the store afterwards.
  pub deliver_all-IsSorted :
      (s : ConversationStore T) (ps : List TransportPacket) {t : ConversationStore T}
      → IsSorted s.conversations
      → deliver_all f s ps ≡ ok t
      → IsSorted t.conversations
  unfolding deliver_all deliver
  deliver_all-IsSorted s [] i h = subst (λ v. IsSorted v.conversations) (ok-injective h) i
  deliver_all-IsSorted s (p ∷ ps) {t} i h =
      let (v, e, r) = bind-eq-ok (deliver f s p) _ h in
      let ((u, handle), e2, r2) = bind-eq-ok (get_conversation f s p) _ e in
      deliver_all-IsSorted v ps {t = t}
        (process_in-IsSorted u p handle {t = v} (Found-IsSorted i (get_conversation-Found f s p e2))
          r2)
        r
