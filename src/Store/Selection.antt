-- ===== src/Store/Selection.antt =====
-- src/include/conversation_store.h: when a conversation is found, made or refused, and that a
-- store without configured servers follows one conversation.
use packet_replay.Base.{
  ◌≤◌, ◌≡◌, refl, sym, ap, subst, List, [], ◌∷◌, Option, none, some, Bytes, ok, ok-injective,
  bind-eq-ok, required-eq-ok, required, fault, length, arith,
}
use packet_replay.StringMap.{StringMap, lookup, insert}
use packet_replay.StringMap.Laws.{IsSorted, insert-IsSorted, length-insert_old, length-insert-le}
use packet_replay.Packet.{TransportPacket}
use packet_replay.Conversation.{TargetTestServer}
use packet_replay.Store.{
  ConversationFactory, ConversationStore, configured_server, admitted, create_in, find_in,
  get_conversation, process_in, deliver,
}

module _ {T : Type 0} (f : ConversationFactory T) where
  -- The ways in which a packet may find its conversation.
  pub data Found (s : ConversationStore T) (p : TransportPacket) (t : ConversationStore T)
      (handle : Option Bytes) : Type 0 where
    known :
        (key : Bytes) (c : T)
        → f.get_key p ≡ ok key
        → lookup key s.conversations ≡ some c
        → t ≡ s
        → handle ≡ some key
        → Found s p t handle
    refused :
        (key : Bytes) (keys : List Bytes)
        → f.get_key p ≡ ok key
        → lookup key s.conversations ≡ none
        → f.get_target_test_server_keys p ≡ ok keys
        → admitted keys s.test_servers s.conversations ≡ none
        → t ≡ s
        → handle ≡ none
        → Found s p t handle
    made :
        (key : Bytes) (keys : List Bytes) (server : Option TargetTestServer) (c : T)
        → f.get_key p ≡ ok key
        → lookup key s.conversations ≡ none
        → f.get_target_test_server_keys p ≡ ok keys
        → admitted keys s.test_servers s.conversations ≡ some server
        → f.create_conversation p server ≡ ok c
        → t ≡ record s { conversations = insert key c s.conversations }
        → handle ≡ some key
        → Found s p t handle

  create_in-Found :
      (s : ConversationStore T) (p : TransportPacket) (key : Bytes) (keys : List Bytes)
      (r : Option (Option TargetTestServer)) (t : ConversationStore T) (handle : Option Bytes)
      → f.get_key p ≡ ok key
      → lookup key s.conversations ≡ none
      → f.get_target_test_server_keys p ≡ ok keys
      → admitted keys s.test_servers s.conversations ≡ r
      → create_in f s p key r ≡ ok (t, handle)
      → Found s p t handle
  unfolding create_in
  create_in-Found s p key keys none t handle e1 e2 e3 e4 h =
      refused key keys e1 e2 e3 e4 (ap (λ r. r.0) (sym (ok-injective h)))
        (ap (λ r. r.1) (sym (ok-injective h)))
  create_in-Found s p key keys (some server) t handle e1 e2 e3 e4 h =
      let (c, e5, k) = bind-eq-ok (f.create_conversation p server) _ h in
      made key keys server c e1 e2 e3 e4 e5 (ap (λ r. r.0) (sym (ok-injective k)))
        (ap (λ r. r.1) (sym (ok-injective k)))

  find_in-Found :
      (s : ConversationStore T) (p : TransportPacket) (key : Bytes) (o : Option T)
      (t : ConversationStore T) (handle : Option Bytes)
      → f.get_key p ≡ ok key
      → lookup key s.conversations ≡ o
      → find_in f s p key o ≡ ok (t, handle)
      → Found s p t handle
  unfolding find_in
  find_in-Found s p key none t handle e1 e2 h =
      let (keys, e3, k) = bind-eq-ok (f.get_target_test_server_keys p) _ h in
      create_in-Found s p key keys _ t handle e1 e2 e3 refl k
  find_in-Found s p key (some c) t handle e1 e2 h =
      known key c e1 e2 (ap (λ r. r.0) (sym (ok-injective h)))
        (ap (λ r. r.1) (sym (ok-injective h)))

  -- The branches that `getConversation` may have taken.
  pub get_conversation-Found :
      (s : ConversationStore T) (p : TransportPacket) {t : ConversationStore T}
      {handle : Option Bytes}
      → get_conversation f s p ≡ ok (t, handle)
      → Found s p t handle
  unfolding get_conversation
  get_conversation-Found s p {t} {handle} h =
      let (key, e1, k) = bind-eq-ok (f.get_key p) _ h in find_in-Found s p key _ t handle e1 refl k

  -- A store with no server configured: one conversation at most.
  pub record FollowsOne (s : ConversationStore T) : Type 0 where
    pub unconfigured : s.test_servers ≡ []
    pub sorted : IsSorted s.conversations
    pub at_most_one : length s.conversations ≤ 1

  pub configured_server-nil : (keys : List Bytes) → configured_server keys [] ≡ none
  unfolding configured_server lookup
  configured_server-nil [] = refl
  configured_server-nil (k ∷ keys) = configured_server-nil keys

  -- Without servers a conversation is made only in an empty store.
  admitted_first :
      (keys : List Bytes) (m : StringMap T) {server : Option TargetTestServer}
      → admitted keys [] m ≡ some server
      → m ≡ []
  unfolding admitted
  admitted_first keys [] h = refl
  admitted_first keys (e ∷ m) h = ground (arith, configured_server-nil keys)

  first_made :
      (s : ConversationStore T) (key : Bytes) (keys : List Bytes) (c : T)
      {server : Option TargetTestServer}
      → FollowsOne s
      → admitted keys s.test_servers s.conversations ≡ some server
      → FollowsOne (record s { conversations = insert key c s.conversations })
  first_made s key keys c {server} i h = record {
    unconfigured = i.unconfigured;
    sorted = insert-IsSorted key c s.conversations i.sorted;
    at_most_one = omega (
      arith,
      length-insert-le key c s.conversations,
      ap length (
          admitted_first keys s.conversations {server = server}
            (subst (λ m. admitted keys m s.conversations ≡ some server) i.unconfigured h)),
    );
  }

  Found-FollowsOne :
      {s : ConversationStore T} {p : TransportPacket} {t : ConversationStore T}
      {handle : Option Bytes}
      → FollowsOne s
      → Found s p t handle
      → FollowsOne t
  Found-FollowsOne i (known key c e1 e2 e3 e4) = rw e3 i
  Found-FollowsOne i (refused key keys e1 e2 e3 e4 e5 e6) = rw e5 i
  Found-FollowsOne {s} i (made key keys server c e1 e2 e3 e4 e5 e6 e7) =
      rw e6 (first_made s key keys c {server = server} i e4)

  process_in-FollowsOne :
      (s : ConversationStore T) (p : TransportPacket) (handle : Option Bytes)
      {t : ConversationStore T}
      → FollowsOne s
      → process_in f s p handle ≡ ok t
      → FollowsOne t
  unfolding process_in
  process_in-FollowsOne s p none i h = subst FollowsOne (ok-injective h) i
  process_in-FollowsOne s p (some key) {t} i h =
      let (c, e1, k1) = bind-eq-ok (required (lookup key s.conversations) fault) _ h in
      let (d, e2, k2) = bind-eq-ok (f.process_capture_packet c p) _ k1 in
      subst FollowsOne (ok-injective k2) (record {
        unconfigured = i.unconfigured;
        sorted = insert-IsSorted key d s.conversations i.sorted;
        at_most_one =
            rw
              (length-insert_old key d c s.conversations i.sorted
                (required-eq-ok (lookup key s.conversations) fault e1))
              i.at_most_one;
      })

  pub deliver-FollowsOne :
      (s : ConversationStore T) (p : TransportPacket) {t : ConversationStore T}
      → FollowsOne s
      → deliver f s p ≡ ok t
      → FollowsOne t
  unfolding deliver
  deliver-FollowsOne s p {t} i h =
      let ((u, handle), e, k) = bind-eq-ok (get_conversation f s p) _ h in
      process_in-FollowsOne u p handle {t = t} (Found-FollowsOne i (get_conversation-Found s p e)) k
