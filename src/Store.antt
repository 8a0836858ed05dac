-- ===== src/Store.antt =====
-- src/include/conversation_store.h and conversation_factory.h: which conversation a packet belongs
-- to. A pointer to a conversation is the key under which the store owns it, so that a conversation
-- is changed in the store and nowhere else. A configured server may be a null pointer.
pub mod Selection
pub mod Selected
pub mod Routing
pub mod Order
pub mod Instances
use packet_replay.Base.{
  Bool, true, false, ◌&&◌, ◌||◌, List, [], ◌∷◌, Option, none, some, Bytes, Result, ok, err, fault,
  required, ◌>>=◌, if◌then◌else◌,
}
use packet_replay.StringMap.{StringMap, lookup, insert, is_empty, values}
use packet_replay.Packet.{TransportPacket}
use packet_replay.Conversation.{TargetTestServer}

-- `ConversationFactory<T>`, with the virtual `processCapturePacket` of the conversations of type T.
pub record ConversationFactory (T : Type 0) : Type 0 where
  pub create_target_test_server : Bytes → Result (Bytes × Option TargetTestServer)
  pub get_target_test_server_keys : TransportPacket → Result (List Bytes)
  pub get_key : TransportPacket → Result Bytes
  pub create_conversation : TransportPacket → Option TargetTestServer → Result T
  pub process_capture_packet : T → TransportPacket → Result T

-- `TypedConversationStore<T>`
pub record ConversationStore (T : Type 0) : Type 0 where
  pub test_servers : StringMap (Option TargetTestServer)
  pub conversations : StringMap T

abbrev pub empty_store : {T : Type 0} → ConversationStore T
empty_store = record { test_servers = []; conversations = [] }

-- The loop over the keys of a packet: the first that a server is configured for.
unfoldable pub configured_server :
    List Bytes → StringMap (Option TargetTestServer) → Option (Option TargetTestServer)
configured_server [] servers = none
configured_server (k ∷ ks) servers =
    let later = configured_server ks servers in
    elim (lookup k servers) [ none ↦ later | some s ↦ some s ]

-- The server of a conversation that is to be made, if one is to be made: the configured one, or
-- none for the first conversation of a store without servers.
unfoldable pub admitted {ℓ} :
    {T : Type ℓ}
    → List Bytes
    → StringMap (Option TargetTestServer)
    → StringMap T
    → Option (Option TargetTestServer)
unfolding configured_server
admitted keys servers conversations = elim (configured_server keys servers) [
  | some s ↦ some s
  | none ↦ if is_empty servers && is_empty conversations then some none else none
]

module _ {T : Type 0} (f : ConversationFactory T) where
  create_in :
      ConversationStore T
      → TransportPacket
      → Bytes
      → Option (Option TargetTestServer)
      → Result (ConversationStore T × Option Bytes)
  create_in s p key none = ok (s, none)
  create_in s p key (some server) = do
    c ← f.create_conversation p server
    ok (record s { conversations = insert key c s.conversations }, some key)

  -- The branches on what the store keeps under the packet's key.
  find_in :
      ConversationStore T
      → TransportPacket
      → Bytes
      → Option T
      → Result (ConversationStore T × Option Bytes)
  unfolding create_in
  find_in s p key (some c) = ok (s, some key)
  find_in s p key none = do
    keys ← f.get_target_test_server_keys p
    create_in s p key (admitted keys s.test_servers s.conversations)

  unfoldable pub get_conversation :
      ConversationStore T → TransportPacket → Result (ConversationStore T × Option Bytes)
  unfolding find_in
  get_conversation s p = do key ← f.get_key p; find_in s p key (lookup key s.conversations)

  unfoldable pub add_target_test_server : ConversationStore T → Bytes → Result (ConversationStore T)
  add_target_test_server s spec = do
    (key, server) ← f.create_target_test_server spec
    ok (record s { test_servers = insert key server s.test_servers })

  -- `if (conversation) conversation->processCapturePacket(packet);`, the end of `packetHandler`.
  process_in : ConversationStore T → TransportPacket → Option Bytes → Result (ConversationStore T)
  process_in s p none = ok s
  process_in s p (some key) = do
    c ← required (lookup key s.conversations) fault
    d ← f.process_capture_packet c p
    ok (record s { conversations = insert key d s.conversations })

  unfoldable pub deliver : ConversationStore T → TransportPacket → Result (ConversationStore T)
  unfolding process_in
  deliver s p = do (t, handle) ← get_conversation s p; process_in t p handle

unfoldable pub get_conversations : {T : Type 0} → ConversationStore T → List T
get_conversations s = values s.conversations
