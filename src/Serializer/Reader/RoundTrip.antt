-- ===== src/Serializer/Reader/RoundTrip.antt =====
-- src/lib/conversation_serializer.cc: `read_actions` on what `write` has written.
use mathlib.Core.List.{List, append_assoc, append-nil}
use packet_replay.Base.{
  ℕ, zero, suc, ◌+◌, ◌≤◌, ◌<◌, ◌≡◌, ◌≢◌, refl, ap, sym, ◌∙◌, Bool, true, false, [], ◌∷◌, ◌++◌, none,
  some, Bytes, Result, ok, err, ◌>>=◌, length, length-append, codes, replicate, if◌then◌else◌,
  arith, Bool-cases, inl, inr, All, map,
}
use packet_replay.Stream.{Stream, stream_of, read_line, cut_line}
use packet_replay.Properties.{Properties, put, empty_properties, write}
use packet_replay.Conversation.{PacketConversation, action_push}
use packet_replay.Action.{Action, ActionType}
use packet_replay.Serializer.{
  action_type_to_string, is_binary, data_start_tag, data_end_tag, write_action, write_actions,
  create_action,
}
use packet_replay.Serializer.Places.{create_action-total}
use packet_replay.Serializer.Data.Runs.{IsStorable}
use packet_replay.Serializer.Data.Loop.{read_action_data_lem}
use packet_replay.Serializer.Reader.{
  next_line, is_comment, find_type, read_props, decode, read_action, read_actions,
}
use packet_replay.Serializer.Reader.Lines.{
  find_type-blank, find_type-separator, find_type-type, encoded, read_props-encoding,
  read_props-start,
}

-- An action whose data, as it is written, can be read back.
abbrev pub IsWritable : (Bytes → Bytes) → Action → Type 0
IsWritable to_base64 a = IsStorable (if is_binary a.bytes then to_base64 a.bytes else a.bytes)

-- The properties in front of the data of an action.
abbrev props_of : Bool → Properties
props_of binary = if binary then encoded else empty_properties

abbrev pub stored : Bool → Bytes → Bytes → Bytes
stored binary text tail =
    (if binary
      then write ((codes "Encoding", codes "BASE64") ∷ []) ++ (data_start_tag ++ b'\n' ∷ text)
      else data_start_tag ++ b'\n' ∷ text)
    ++ (data_end_tag ++ tail)

read_props-stored :
    (fuel : ℕ) (binary : Bool) (bytes tail : Bytes)
    → IsStorable bytes
    → read_props (suc (suc fuel)) true empty_properties (stream_of (stored binary bytes tail))
      ≡ ok (props_of binary, (bytes, stream_of tail))
unfolding write
read_props-stored fuel true bytes tail h =
    read_props-encoding (suc fuel) (data_start_tag ++ b'\n' ∷ (bytes ++ (data_end_tag ++ tail)))
    ∙ read_props-start fuel encoded _ tail bytes (read_action_data_lem bytes tail h)
read_props-stored fuel false bytes tail h =
    read_props-start (suc fuel) empty_properties (bytes ++ (data_end_tag ++ tail)) tail bytes
      (read_action_data_lem bytes tail h)

decode-props_of :
    (to_base64 : Bytes → Bytes) (from_base64 : Bytes → Result Bytes) (binary : Bool) (bytes : Bytes)
    → ((s : Bytes) → from_base64 (to_base64 s) ≡ ok s)
    → decode from_base64 (props_of binary) (if binary then to_base64 bytes else bytes) ≡ ok bytes
unfolding decode put packet_replay.StringMap.insert packet_replay.StringMap.lookup
    packet_replay.Base.compare_bytes
decode-props_of to_base64 from_base64 true bytes h = h bytes
decode-props_of to_base64 from_base64 false bytes h = refl

read_action-ok :
    (from_base64 : Bytes → Result Bytes) (s t u : Stream) (type : ActionType) (p : Properties)
    (bytes d : Bytes)
    → find_type (suc (suc (length s.left))) s ≡ ok (some type, t)
    → read_props (suc (suc (length t.left))) true empty_properties t ≡ ok (p, (bytes, u))
    → decode from_base64 p bytes ≡ ok d
    → {a : Action} → create_action type d ≡ ok a
    → read_action true from_base64 s ≡ ok (some a, u)
unfolding read_action
read_action-ok from_base64 s t u type p bytes d e f g h = rw (e, f, g, h) refl

-- The text that stands for the data of an action.
abbrev pub text_of : (Bytes → Bytes) → Bool → Bytes → Bytes
text_of to_base64 binary bytes = if binary then to_base64 bytes else bytes

pub write_action-append :
    (to_base64 : Bytes → Bytes) (a : Action) (tail : Bytes)
    → write_action to_base64 a ++ tail
      ≡ action_type_to_string a.type
        ++ b'\n'
          ∷ stored
              (is_binary a.bytes)
              (text_of to_base64 (is_binary a.bytes) a.bytes)
              (b'\n' ∷ tail)
unfolding write_action
write_action-append to_base64 a tail =
    append_assoc (action_type_to_string a.type) _ tail
    ∙ ap (λ v. action_type_to_string a.type ++ b'\n' ∷ v)
        (append_assoc (written (is_binary a.bytes)) _ tail ∙ behind (is_binary a.bytes))
  where
    written : Bool → Bytes
    written binary =
        if binary
        then write ((codes "Encoding", codes "BASE64") ∷ [])
          ++ (data_start_tag ++ b'\n' ∷ to_base64 a.bytes)
        else data_start_tag ++ b'\n' ∷ a.bytes

    behind :
        (binary : Bool)
        → written binary ++ (data_end_tag ++ b'\n' ∷ tail)
          ≡ stored binary (text_of to_base64 binary a.bytes) (b'\n' ∷ tail)
    behind true = refl
    behind false = refl

abbrev pub separated : Bytes → Bytes
separated s = replicate 30 b'#' ++ b'\n' ∷ b'\n' ∷ s

-- An action is found behind some text.
abbrev pub IsLead : Bytes → ActionType → Type 0
IsLead lead type =
    (s : Bytes)
    → let text = lead ++ separated (action_type_to_string type ++ b'\n' ∷ s) in
      find_type (suc (suc (length text))) (stream_of text) ≡ ok (some type, stream_of s)

-- The stream behind the last read.
abbrev pub at_end : Stream
at_end = record { left = []; eof = true; failed = true }

-- The action that is read: what `create_action` makes of the type and the data. It makes one of any,
-- as the lemma below says, so the case of an error does not occur.
abbrev pub restored : Action → Action
restored a = elim (create_action a.type a.bytes) [ ok b ↦ b | err e ↦ a ]

create_action-restored : (a : Action) → create_action a.type a.bytes ≡ ok (restored a)
create_action-restored a =
    let (b, e) = create_action-total a.type a.bytes in go (create_action a.type a.bytes) b e
  where
    go : (r : Result Action) (b : Action) → r ≡ ok b → r ≡ ok (elim r [ ok b ↦ b | err e ↦ a ])
    go (ok x) b e = refl
    go (err x) b e = cc

abbrev pub with_actions : PacketConversation → List Action → PacketConversation
with_actions c queue = record c { action_queue = c.action_queue ++ map restored queue }

pub with_actions-nil : (c : PacketConversation) → c ≡ with_actions c []
with_actions-nil c = ap (λ q. record c { action_queue = q }) (sym (append-nil c.action_queue))

pub with_actions-push :
    (c : PacketConversation) (a : Action) (queue : List Action)
    → with_actions (action_push c (restored a)) queue ≡ with_actions c (a ∷ queue)
with_actions-push c a queue =
    ap (λ q. record c { action_queue = q })
      (append_assoc c.action_queue (restored a ∷ []) (map restored queue))

module _ (to_base64 : Bytes → Bytes) (from_base64 : Bytes → Result Bytes)
    (decoded : (s : Bytes) → from_base64 (to_base64 s) ≡ ok s) where
  -- A round of `read_actions` on the text of an action.
  read_action-write_action :
      (lead : Bytes) (a : Action) (tail : Bytes)
      → IsLead lead a.type
      → IsWritable to_base64 a
      → read_action true from_base64
          (stream_of (lead ++ separated (write_action to_base64 a ++ tail)))
        ≡ ok (some (restored a), stream_of (b'\n' ∷ tail))
  read_action-write_action lead a tail found w =
      let binary = is_binary a.bytes in
      let text = text_of to_base64 binary a.bytes in
      let rest = stored binary text (b'\n' ∷ tail) in
      ap (λ s. read_action true from_base64 (stream_of (lead ++ separated s)))
        (write_action-append to_base64 a tail)
      ∙ read_action-ok from_base64 _ (stream_of rest) (stream_of (b'\n' ∷ tail)) a.type
          (props_of binary) text a.bytes (found rest)
          (read_props-stored (length rest) binary text (b'\n' ∷ tail) w)
          (decode-props_of to_base64 from_base64 binary a.bytes decoded) (create_action-restored a)

  pub read_actions-lead :
      (fuel : ℕ) (c : PacketConversation) (lead : Bytes) (a : Action) (queue : List Action)
      → IsLead lead a.type
      → IsWritable to_base64 a
      → read_actions
          (suc fuel)
          true
          from_base64
          (stream_of
            (lead ++ separated (write_action to_base64 a ++ write_actions to_base64 queue)))
          c
        ≡ read_actions fuel true from_base64
            (stream_of (b'\n' ∷ write_actions to_base64 queue))
            (action_push c (restored a))
  unfolding read_actions
  read_actions-lead fuel c lead a queue found w =
      rw (read_action-write_action lead a (write_actions to_base64 queue) found w) refl

  read_action-end : read_action true from_base64 (stream_of (b'\n' ∷ [])) ≡ ok (none, at_end)
  unfolding read_action find_type read_props next_line read_line cut_line is_comment
  read_action-end = refl

  pub read_actions-end :
      (fuel : ℕ) (c : PacketConversation) → read_actions fuel true from_base64 at_end c ≡ ok c
  unfolding read_actions
  read_actions-end zero c = refl
  read_actions-end (suc fuel) c = refl

  -- The rounds behind an action.
  pub read_actions-behind :
      (fuel : ℕ) (c : PacketConversation) (queue : List Action)
      → All (IsWritable to_base64) queue
      → length queue < fuel
      → read_actions fuel true from_base64 (stream_of (b'\n' ∷ write_actions to_base64 queue)) c
        ≡ ok (with_actions c queue)
  unfolding read_actions write_actions
  read_actions-behind zero c queue w h = absurd (omega arith)
  read_actions-behind (suc fuel) c [] w h =
      rw read_action-end (read_actions-end fuel c ∙ ap ok (with_actions-nil c))
  read_actions-behind (suc fuel) c (a ∷ queue) (wa, w) h =
      read_actions-lead fuel c (b'\n' ∷ b'\n' ∷ []) a queue blank_lines wa
      ∙ read_actions-behind fuel (action_push c (restored a)) queue w (omega arith)
      ∙ ap ok (with_actions-push c a queue)
    where
      blank_lines : IsLead (b'\n' ∷ b'\n' ∷ []) a.type
      blank_lines s =
          find_type-blank _ _
          ∙ find_type-blank _ _
          ∙ find_type-separator _ _
          ∙ find_type-type _ a.type s
