-- ===== src/Store/Routing.antt =====
-- src/include/conversation_store.h and capture.cc: a conversation sees the packets that have its
-- key, all of them, in order, and no other.
use packet_replay.Base.{
  ◌≡◌, refl, sym, ap, subst, ◌∙◌, Bool, true, false, Bool-cases, List, [], ◌∷◌, Option, none, some,
  Bytes, bytes_eq, Result, ok, err, ok-injective, some-injective, bind-eq-ok, required-eq-ok,
  required, fault, ◌>>=◌, if◌then◌else◌, inl, inr, ◌⊎◌, arith,
}
use packet_replay.StringMap.{StringMap, lookup}
use packet_replay.StringMap.Laws.{lookup-insert, bytes_eq-eq}
use packet_replay.Packet.{TransportPacket}
use packet_replay.Store.{
  ConversationFactory, ConversationStore, get_conversation, process_in, deliver,
}
use packet_replay.Store.Selection.{Found, known, refused, made, get_conversation-Found}

module _ {T : Type 0} (f : ConversationFactory T) where
  -- The packets, one after another.
  unfoldable pub deliver_all :
      ConversationStore T → List TransportPacket → Result (ConversationStore T)
  deliver_all s [] = ok s
  deliver_all s (p ∷ ps) = do t ← deliver f s p; deliver_all t ps

  unfoldable pub process_list : T → List TransportPacket → Result T
  process_list c [] = ok c
  process_list c (p ∷ ps) = do d ← f.process_capture_packet c p; process_list d ps

  abbrev pub has_key : Bytes → TransportPacket → Bool
  has_key k p = elim (f.get_key p) [ ok j ↦ bytes_eq k j | err e ↦ false ]

  -- The packets with a key, in their order.
  unfoldable pub packets_of : Bytes → List TransportPacket → List TransportPacket
  packets_of k [] = []
  packets_of k (p ∷ ps) = let rest = packets_of k ps in if has_key k p then p ∷ rest else rest

  -- What one packet does to the conversation kept under `k`.
  Seen : Bytes → T → TransportPacket → ConversationStore T → Type 0
  Seen k c p t =
      ((has_key k p ≡ true)
        × (d : T) × (f.process_capture_packet c p ≡ ok d)
        × (lookup k t.conversations ≡ some d))
      ⊎ ((has_key k p ≡ false) × (lookup k t.conversations ≡ some c))

  has_key_of_get_key :
      (k : Bytes) (p : TransportPacket) {key : Bytes}
      → f.get_key p ≡ ok key
      → has_key k p ≡ bytes_eq k key
  has_key_of_get_key k p e = ground (arith, e)

  process_in-Seen :
      (u : ConversationStore T) (p : TransportPacket) (key k : Bytes) (c : T)
      {t : ConversationStore T}
      → f.get_key p ≡ ok key
      → lookup k u.conversations ≡ some c
      → process_in f u p (some key) ≡ ok t
      → Seen k c p t
  unfolding process_in Seen
  process_in-Seen u p key k c {t} g l h =
      let (c', e1, k1) = bind-eq-ok (required (lookup key u.conversations) fault) _ h in
      let (d, e2, k2) = bind-eq-ok (f.process_capture_packet c' p) _ k1 in
      let found = required-eq-ok (lookup key u.conversations) fault e1 in
      let after = ap (λ s. lookup k s.conversations) (ok-injective k2) in
      elim (Bool-cases (bytes_eq k key)) [
        | inl same ↦
            let e = bytes_eq-eq k key same in
            inl (
              has_key_of_get_key k p g ∙ same,
              d,
              ap (λ x. f.process_capture_packet x p)
                    (some-injective (sym l ∙ ap (λ j. lookup j u.conversations) e ∙ found))
                  ∙ e2,
              sym after
                  ∙ lookup-insert key k d u.conversations
                  ∙ ap (λ b. if b then some d else lookup k u.conversations) same,
            )
        | inr other ↦ inr (
          has_key_of_get_key k p g ∙ other,
          sym after
              ∙ lookup-insert key k d u.conversations
              ∙ ap (λ b. if b then some d else lookup k u.conversations) other
              ∙ l,
        )
      ]

  -- A key that is not in the map is another key than one that is.
  bytes_eq_of_absent :
      (k key : Bytes) (m : StringMap T) {c : T}
      → lookup k m ≡ some c
      → lookup key m ≡ none
      → bytes_eq k key ≡ false
  bytes_eq_of_absent k key m {c} l n = elim (Bool-cases (bytes_eq k key)) [
    | inl same ↦ absurd (cc (sym l ∙ ap (λ j. lookup j m) (bytes_eq-eq k key same) ∙ n))
    | inr other ↦ other
  ]

  Found-Seen :
      (s : ConversationStore T) (p : TransportPacket) (u : ConversationStore T)
      (handle : Option Bytes) (k : Bytes) (c : T) {t : ConversationStore T}
      → Found f s p u handle
      → lookup k s.conversations ≡ some c
      → process_in f u p handle ≡ ok t
      → Seen k c p t
  unfolding Seen process_in
  Found-Seen s p u handle k c {t} (known key x e1 e2 e3 e4) l h =
      process_in-Seen u p key k c {t = t} e1 (rw e3 l) (rw e4 at h)
  Found-Seen s p u handle k c {t} (refused key keys e1 e2 e3 e4 e5 e6) l h = inr (
    has_key_of_get_key k p e1 ∙ bytes_eq_of_absent k key s.conversations {c = c} l e2,
    subst (λ v. lookup k v.conversations ≡ some c)
        (sym e5 ∙ ok-injective (subst (λ x. process_in f u p x ≡ ok t) e6 h)) l,
  )
  Found-Seen s p u handle k c {t} (made key keys server x e1 e2 e3 e4 e5 e6 e7) l h =
      process_in-Seen u p key k c {t = t} e1
        (subst (λ v. lookup k v.conversations ≡ some c) (sym e6)
          (lookup-insert key k x s.conversations
            ∙ ap (λ b. if b then some x else lookup k s.conversations)
                (bytes_eq_of_absent k key s.conversations {c = c} l e2)
            ∙ l))
        (subst (λ y. process_in f u p y ≡ ok t) e7 h)

  deliver-Seen :
      (s : ConversationStore T) (p : TransportPacket) (k : Bytes) (c : T) {t : ConversationStore T}
      → lookup k s.conversations ≡ some c
      → deliver f s p ≡ ok t
      → Seen k c p t
  unfolding deliver
  deliver-Seen s p k c {t} l h =
      let ((u, handle), e, r) = bind-eq-ok (get_conversation f s p) _ h in
      Found-Seen s p u handle k c {t = t} (get_conversation-Found f s p e) l r

  -- If packets are delivered without an exception, a conversation that the store kept before them
  -- ends as it would after just the packets that have its key, one after another in the order of
  -- the capture, whatever packets lie between them.
  pub conversation_sees_own_packets :
      (s : ConversationStore T) (ps : List TransportPacket) (k : Bytes) (c : T)
      {t : ConversationStore T}
      → lookup k s.conversations ≡ some c
      → deliver_all s ps ≡ ok t
      → (d : T) × (process_list c (packets_of k ps) ≡ ok d) × (lookup k t.conversations ≡ some d)
  unfolding deliver_all process_list packets_of Seen
  conversation_sees_own_packets s [] k c l h =
      (c, refl, subst (λ v. lookup k v.conversations ≡ some c) (ok-injective h) l)
  conversation_sees_own_packets s (p ∷ ps) k c {t} l h =
      let (u, e, r) = bind-eq-ok (deliver f s p) _ h in
      elim (deliver-Seen s p k c {t = u} l e) [
        | inl (own, d, e', l') ↦
            let (x, g, m) = conversation_sees_own_packets u ps k d {t = t} l' r in
            (x, rw (own, packets_of, process_list, e') g, m)
        | inr (other, l') ↦
            let (x, g, m) = conversation_sees_own_packets u ps k c {t = t} l' r in
            (x, rw (other, packets_of) g, m)
      ]
