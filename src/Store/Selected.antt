-- ===== src/Store/Selected.antt =====
-- src/include/conversation_store.h: which conversation `getConversation` gives, said without its code.
use packet_replay.Base.{
  ◌≡◌, ◌≢◌, ◌&&◌, ◌∙◌, refl, sym, ap, subst, List, [], ◌∷◌, ◌++◌, Option, none, some, Bytes,
  bytes_eq, All, ok, ◌⊎◌, inl, inr, if◌then◌else◌, Option-cases,
}
use packet_replay.StringMap.{StringMap, lookup, is_empty}
use packet_replay.StringMap.Laws.{lookup-insert}
use packet_replay.Packet.{TransportPacket}
use packet_replay.Conversation.{TargetTestServer}
use packet_replay.Store.{
  ConversationFactory, ConversationStore, configured_server, admitted, get_conversation,
}
use packet_replay.Store.Selection.{Found, known, refused, made, get_conversation-Found}

-- No server is configured for any of the keys.
abbrev pub Unconfigured : StringMap (Option TargetTestServer) → List Bytes → Type 0
Unconfigured servers keys = All (λ k. lookup k servers ≡ none) keys

-- Whether a new conversation is to be made, and with which server.
pub data Admission {T : Type 0} (s : ConversationStore T) (keys : List Bytes)
    : Option (Option TargetTestServer) → Type 0 where
  -- The first key that has a server gives it.
  configured :
      (before after : List Bytes) (k : Bytes) (server : Option TargetTestServer)
      → keys ≡ before ++ k ∷ after
      → Unconfigured s.test_servers before
      → lookup k s.test_servers ≡ some server
      → Admission s keys (some server)
  -- Nothing is configured, and nothing is kept yet.
  first :
      Unconfigured s.test_servers keys
      → s.test_servers ≡ []
      → s.conversations ≡ []
      → Admission s keys (some none)
  rejected :
      Unconfigured s.test_servers keys
      → (s.test_servers ≢ []) ⊎ (s.conversations ≢ [])
      → Admission s keys none

module _ (servers : StringMap (Option TargetTestServer)) where
  -- The first key of a list that has a server, if one has.
  FirstOf : List Bytes → Option (Option TargetTestServer) → Type 0
  FirstOf keys none = Unconfigured servers keys
  FirstOf keys (some server) =
      (before : List Bytes) × (k : Bytes) × (after : List Bytes) × (keys ≡ before ++ k ∷ after)
      × Unconfigured servers before
      × (lookup k servers ≡ some server)

  FirstOf-cons :
      (k : Bytes) (keys : List Bytes) (r : Option (Option TargetTestServer))
      → lookup k servers ≡ none
      → FirstOf keys r
      → FirstOf (k ∷ keys) r
  unfolding FirstOf
  FirstOf-cons k keys none e h = (e, h)
  FirstOf-cons k keys (some server) e (before, j, after, split, others, h) =
      (k ∷ before, j, after, ap (λ ks. k ∷ ks) split, (e, others), h)

  configured_server-skip :
      (k : Bytes) (keys : List Bytes)
      → lookup k servers ≡ none
      → configured_server (k ∷ keys) servers ≡ configured_server keys servers
  unfolding configured_server
  configured_server-skip k keys e = rw (configured_server, e) refl

  configured_server-take :
      (k : Bytes) (keys : List Bytes) {server : Option TargetTestServer}
      → lookup k servers ≡ some server
      → configured_server (k ∷ keys) servers ≡ some server
  unfolding configured_server
  configured_server-take k keys e = rw (configured_server, e) refl

  configured_server-FirstOf : (keys : List Bytes) → FirstOf keys (configured_server keys servers)
  unfolding configured_server FirstOf
  configured_server-FirstOf [] = tt
  configured_server-FirstOf (k ∷ keys) = elim (Option-cases (lookup k servers)) [
    | inl e ↦
        subst (FirstOf (k ∷ keys)) (sym (configured_server-skip k keys e))
          (FirstOf-cons k keys _ e (configured_server-FirstOf keys))
    | inr (server, e) ↦
        subst (FirstOf (k ∷ keys)) (sym (configured_server-take k keys e))
          ([], k, keys, refl, tt, e)
  ]

module _ {T : Type 0} (s : ConversationStore T) (keys : List Bytes) where
  Unconfigured-Admission :
      (servers : StringMap (Option TargetTestServer)) (conversations : StringMap T)
      → s.test_servers ≡ servers
      → s.conversations ≡ conversations
      → Unconfigured s.test_servers keys
      → Admission s keys (if is_empty servers && is_empty conversations then some none else none)
  Unconfigured-Admission [] [] e1 e2 h = first h e1 e2
  Unconfigured-Admission [] (c ∷ cs) e1 e2 h = rejected h (inr (λ e. cc (sym e2 ∙ e)))
  Unconfigured-Admission (t ∷ ts) cs e1 e2 h = rejected h (inl (λ e. cc (sym e1 ∙ e)))

  FirstOf-Admission :
      (r : Option (Option TargetTestServer))
      → FirstOf s.test_servers keys r
      → Admission s keys (elim r [
        | some server ↦ some server
        | none ↦ if is_empty s.test_servers && is_empty s.conversations then some none else none
      ])
  unfolding FirstOf
  FirstOf-Admission none h = Unconfigured-Admission s.test_servers s.conversations refl refl h
  FirstOf-Admission (some server) (before, k, after, split, others, h) =
      configured before after k server split others h

  admitted-Admission : Admission s keys (admitted keys s.test_servers s.conversations)
  unfolding admitted
  admitted-Admission = FirstOf-Admission _ (configured_server-FirstOf s.test_servers keys)

module _ {T : Type 0} (f : ConversationFactory T) where
  -- What `getConversation` gives for a packet: the store behind it, and the key of the conversation.
  -- `other` is a key that is looked up in that store.
  pub data Selected (s : ConversationStore T) (p : TransportPacket) (t : ConversationStore T)
      (other : Bytes) : Option Bytes → Type 0 where
    kept :
        (key : Bytes) (c : T)
        → f.get_key p ≡ ok key
        → lookup key s.conversations ≡ some c
        → t ≡ s
        → Selected s p t other (some key)
    created :
        (key : Bytes) (keys : List Bytes) (server : Option TargetTestServer) (c : T)
        → f.get_key p ≡ ok key
        → lookup key s.conversations ≡ none
        → f.get_target_test_server_keys p ≡ ok keys
        → Admission s keys (some server)
        → f.create_conversation p server ≡ ok c
        → t.test_servers ≡ s.test_servers
        → lookup other t.conversations
          ≡ (if bytes_eq other key then some c else lookup other s.conversations)
        → Selected s p t other (some key)
    ignored :
        (key : Bytes) (keys : List Bytes)
        → f.get_key p ≡ ok key
        → lookup key s.conversations ≡ none
        → f.get_target_test_server_keys p ≡ ok keys
        → Admission s keys none
        → t ≡ s
        → Selected s p t other none

  Found-Selected :
      (s : ConversationStore T) (p : TransportPacket) (t : ConversationStore T) (other : Bytes)
      (handle : Option Bytes)
      → Found f s p t handle
      → Selected s p t other handle
  Found-Selected s p t other handle (known key c e1 e2 e3 e4) = rw e4 (kept key c e1 e2 e3)
  Found-Selected s p t other handle (refused key keys e1 e2 e3 e4 e5 e6) =
      rw e6 (ignored key keys e1 e2 e3 (subst (Admission s keys) e4 (admitted-Admission s keys)) e5)
  Found-Selected s p t other handle (made key keys server c e1 e2 e3 e4 e5 e6 e7) = rw e7 (
      created key keys server c e1 e2 e3 (subst (Admission s keys) e4 (admitted-Admission s keys))
        e5 (ap (λ u. u.test_servers) e6)
        (ap (λ u. lookup other u.conversations) e6 ∙ lookup-insert key other c s.conversations))

  -- If `getConversation` returns, it gives the conversation kept under the packet's key, and changes
  -- nothing. Or none was kept, and it makes one and keeps it under this key, where every other key
  -- finds what it found before, and the servers are the same: it has the server of the first of the
  -- packet's server keys that one is configured for, or, where none of them has one, no server, which
  -- happens only when no server at all is configured and no conversation kept. Or none was kept, none
  -- of the server keys has a server, and a server is configured or a conversation kept: it gives none
  -- and changes nothing.
  pub get_conversation-Selected :
      (s : ConversationStore T) (p : TransportPacket) (t : ConversationStore T) (other : Bytes)
      (handle : Option Bytes)
      → get_conversation f s p ≡ ok (t, handle)
      → Selected s p t other handle
  get_conversation-Selected s p t other handle h =
      Found-Selected s p t other handle (get_conversation-Found f s p h)
