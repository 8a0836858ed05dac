-- ===== src/Serializer/Reader/NoData.antt =====
-- src/lib/conversation_serializer.cc: `read` on a written action without data.
use mathlib.Core.List.{List}
use packet_replay.Base.{
  ℕ, zero, suc, ◌≤◌, ◌<◌, ◌≡◌, refl, ap, ◌∙◌, Bool, true, false, [], ◌∷◌, ◌++◌, none, some, Option,
  Bytes, Result, ok, err, fault, ◌>>=◌, length, arith, All,
}
use packet_replay.Stream.{Stream, stream_of, read_line, cut_line}
use packet_replay.Layers.Inet.{Inet}
use packet_replay.Properties.{empty_properties, write}
use packet_replay.Properties.Lines.{put_all}
use packet_replay.Conversation.{PacketConversation}
use packet_replay.Tcp.{TcpConversation}
use packet_replay.Action.{Action, ActionType}
use packet_replay.Serializer.{
  action_type_to_string, is_binary, data_start_tag, data_end_tag, write_action, write_actions,
}
use packet_replay.Serializer.Data.Steps.{tag_body}
use packet_replay.Serializer.Data.Short.{short_run_faults}
use packet_replay.Serializer.Reader.{
  is_comment, find_type, read_props, read_action, read_actions, new_for, read_conversation,
}
use packet_replay.Serializer.Reader.Lines.{find_type-separator, find_type-type}
use packet_replay.Serializer.Reader.RoundTrip.{separated, write_action-append}
use packet_replay.Serializer.Reader.Script.{
  IsHeader, behind_headers, read_headers-write, length-write,
}

-- The text behind the type of an action without data.
abbrev no_data : Bytes → Bytes
no_data tail = data_start_tag ++ b'\n' ∷ (data_end_tag ++ tail)

read_props-no_data :
    (fuel : ℕ) (overlap_copies : Bool) (tail : Bytes)
    → read_props (suc fuel) overlap_copies empty_properties (stream_of (no_data tail)) ≡ err fault
unfolding read_props read_line cut_line is_comment packet_replay.Base.compare_bytes
read_props-no_data fuel overlap_copies tail =
    rw (short_run_faults overlap_copies tag_body tail (ground arith) (omega arith)) refl

read_action-fault :
    (overlap_copies : Bool) (from_base64 : Bytes → Result Bytes) (s t : Stream) (type : ActionType)
    → find_type (suc (suc (length s.left))) s ≡ ok (some type, t)
    → read_props (suc (suc (length t.left))) overlap_copies empty_properties t ≡ err fault
    → read_action overlap_copies from_base64 s ≡ err fault
unfolding read_action
read_action-fault overlap_copies from_base64 s t type e f = rw (e, f) refl

write_action-no_data :
    (to_base64 : Bytes → Bytes) (a : Action) (tail : Bytes)
    → a.bytes ≡ []
    → write_action to_base64 a ++ tail
      ≡ action_type_to_string a.type ++ b'\n' ∷ no_data (b'\n' ∷ tail)
unfolding is_binary
write_action-no_data to_base64 a tail e = write_action-append to_base64 a tail ∙ rw e refl

read_action-no_data :
    (overlap_copies : Bool) (to_base64 : Bytes → Bytes) (from_base64 : Bytes → Result Bytes)
    (a : Action) (tail : Bytes)
    → a.bytes ≡ []
    → read_action overlap_copies from_base64
        (stream_of (separated (write_action to_base64 a ++ tail)))
      ≡ err fault
read_action-no_data overlap_copies to_base64 from_base64 a tail e =
    ap (λ s. read_action overlap_copies from_base64 (stream_of (separated s)))
      (write_action-no_data to_base64 a tail e)
    ∙ read_action-fault overlap_copies from_base64 _ (stream_of (no_data (b'\n' ∷ tail))) a.type
        (find_type-separator _ _ ∙ find_type-type _ a.type (no_data (b'\n' ∷ tail)))
        (read_props-no_data _ overlap_copies (b'\n' ∷ tail))

read_actions-no_data :
    (overlap_copies : Bool) (to_base64 : Bytes → Bytes) (from_base64 : Bytes → Result Bytes)
    (fuel : ℕ) (c : PacketConversation) (a : Action) (queue : List Action)
    → a.bytes ≡ []
    → read_actions (suc fuel) overlap_copies from_base64 (behind_headers to_base64 (a ∷ queue)) c
      ≡ err fault
unfolding read_actions
read_actions-no_data overlap_copies to_base64 from_base64 fuel c a queue e =
    rw
      (read_action-no_data overlap_copies to_base64 from_base64 a (write_actions to_base64 queue) e)
      refl

-- A script whose first action has no data, as a recorded connect has none, is written in a way that
-- `read` does not take: if the headers are entries that lines can hold, whose lines are no comments,
-- and they ask for a conversation, the behaviour of `read` on it is undefined.
pub no_data_unreadable :
    (net : Inet) (family_of : Bytes → Option ℕ) (to_base64 : Bytes → Bytes)
    (from_base64 : Bytes → Result Bytes) (overlap_copies : Bool) (es : List (Bytes × Bytes))
    (a : Action) (queue : List Action) (c : TcpConversation)
    → All IsHeader es
    → a.bytes ≡ []
    → new_for net family_of (put_all empty_properties es) ≡ ok (some c)
    → read_conversation net family_of from_base64 overlap_copies
        (stream_of (write es ++ write_actions to_base64 (a ∷ queue)))
      ≡ err fault
unfolding read_conversation
no_data_unreadable net family_of to_base64 from_base64 overlap_copies es a queue c h e n =
    rw
      (
        read_headers-write to_base64 _ empty_properties es (a ∷ queue) h
            (length-write es (write_actions to_base64 (a ∷ queue))),
        n,
        read_actions-no_data overlap_copies to_base64 from_base64 _ c.base a queue e,
      )
      refl
