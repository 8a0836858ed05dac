-- ===== src/Tests/Scripts.antt =====
-- Scripts, their texts, and the theorems on the reader of scripts at these inputs.
use mathlib.Core.List.{List}
use packet_replay.Base.{
  ℕ, ◌≡◌, ◌≢◌, refl, ap, true, false, [], ◌∷◌, ◌++◌, some, Option, Bytes, ok, err, fault, diverges,
  out_of_range, codes, arith, All,
}
use packet_replay.Base.Int.{negsuc}
use packet_replay.Stream.{stream_of}
use packet_replay.Tests.Net.{sample_net, undotted}
use packet_replay.Layers.{af_inet, get_addr_family, get_addr_size, get_sock_addr_size}
use packet_replay.Layers.Inet.{get_addr_from_string, get_sock_addr}
use packet_replay.Memory.{load16, read_bytes, ntohs}
use packet_replay.StringMap.{lookup, insert}
use packet_replay.Util.{split_at}
use packet_replay.Util.Number.{to_string}
use packet_replay.Properties.{empty_properties, put, write}
use packet_replay.Properties.Lines.{put_all}
use packet_replay.Conversation.{PacketConversation, test_conversation, htons}
use packet_replay.Tcp.{TcpConversation, closed, new_test_conversation}
use packet_replay.Action.{Action, connect, send}
use packet_replay.Serializer.{data_end_tag, create_action, write_actions, write_conversation}
use packet_replay.Serializer.Data.{read_action_data}
use packet_replay.Serializer.Data.Steps.{tag_body}
use packet_replay.Serializer.Data.Runs.{IsStorable, no_tag}
use packet_replay.Serializer.Data.Loop.{read_action_data_lem}
use packet_replay.Serializer.Reader.{is_comment, new_for, read_conversation}
use packet_replay.Serializer.Reader.RoundTrip.{with_actions}
use packet_replay.Serializer.Reader.Script.{IsHeader}
use packet_replay.Serializer.Reader.Terminates.{read_terminates}
use packet_replay.Serializer.Reader.NoAddress.{written_unreadable}
use packet_replay.Serializer.Reader.NoData.{no_data_unreadable}

-- Data with a '>' in it.
abbrev page : Bytes
page = codes "<html lang=en>hello"

abbrev first_byte : Bytes → ℕ
first_byte [] = 0
first_byte (c ∷ s) = c

page-IsStorable : IsStorable page
page-IsStorable = record {
  run = codes "<html lang=en";
  more = (codes "hello" ++ tag_body) ∷ [];
  twelve = omega arith;
  lacks = ground arith;
  runs = (no_tag (codes "<h") (codes "tml lang=en") refl other, cc, ground arith, refl);
}
  where
    other : codes "tml lang=en" ≢ tag_body
    other e = absurd (omega (arith, ap first_byte e))

read_action_data_example :
    read_action_data true (stream_of (page ++ (data_end_tag ++ b'\n' ∷ [])))
    ≡ ok (page, stream_of (b'\n' ∷ []))
read_action_data_example = read_action_data_lem page (b'\n' ∷ []) page-IsStorable

abbrev headers : List (Bytes × Bytes)
headers =
    (codes "TestAddress", codes "10.0.0.1")
    ∷ (codes "TestPort", codes "80")
    ∷ (codes "Protocol", codes "TCP")
    ∷ []

headers-IsHeader : All IsHeader headers
unfolding packet_replay.Util.isspace is_comment
headers-IsHeader = (
  ((((refl, refl), (ground arith, ((refl, refl), ground arith))), refl)),
  (
    ((((refl, refl), (ground arith, ((refl, refl), ground arith))), refl)),
    (((((refl, refl), (ground arith, ((refl, refl), ground arith))), refl)), tt),
  ),
)

abbrev family_of : Bytes → Option ℕ
family_of s = some af_inet

abbrev send_page : Action
send_page = record { type = send; bytes = page; sub_tokens = [] }

abbrev connect_only : Action
connect_only = record { type = connect; bytes = []; sub_tokens = [] }

-- What the headers ask for.
abbrev script_conversation : TcpConversation
script_conversation = record {
  base = record {
    action_queue = [];
    addr_family = af_inet;
    addr_size = 4;
    sock_addr_size = 16;
    test_sock_addr = 2 ∷ 0 ∷ 0 ∷ 80 ∷ 10 ∷ 0 ∷ 0 ∷ 1 ∷ 0 ∷ 0 ∷ 0 ∷ 0 ∷ 0 ∷ 0 ∷ 0 ∷ 0 ∷ [];
    cap_src_addr = [];
    cap_dest_addr = [];
    test_dest_addr = 10 ∷ 0 ∷ 0 ∷ 1 ∷ [];
    cap_dest_port = 0;
    cap_src_port = 0;
    test_dest_port = 20480;
  };
  socket = negsuc 0;
  cap_tcp_state = closed;
  closed_sockets = [];
}

new_for_headers :
    new_for sample_net family_of (put_all empty_properties headers) ≡ ok (some script_conversation)
unfolding new_for lookup put_all put insert new_test_conversation test_conversation get_addr_family
    get_addr_size get_sock_addr_size get_addr_from_string undotted get_sock_addr htons split_at
new_for_headers = refl

no_data_unreadable_example :
    read_conversation sample_net family_of ok true
      (stream_of (write headers ++ write_actions (λ s. s) (connect_only ∷ send_page ∷ [])))
    ≡ err fault
no_data_unreadable_example =
    no_data_unreadable sample_net family_of (λ s. s) ok true headers connect_only (send_page ∷ [])
      script_conversation headers-IsHeader refl new_for_headers

abbrev written_text : Bytes
written_text =
    write ((codes "Protocol", codes "TCP") ∷ (codes "TestPort", codes "80") ∷ [])
    ++ write_actions (λ s. s) (send_page ∷ [])

abbrev recorded : PacketConversation
recorded = with_actions script_conversation.base (send_page ∷ [])

written_unreadable_example :
    read_conversation sample_net family_of ok true (stream_of written_text) ≡ err out_of_range
unfolding write_conversation load16 read_bytes to_string ntohs create_action
written_unreadable_example =
    written_unreadable sample_net family_of (λ s. s) ok true (λ es. es) (λ P es h. h) (codes "TCP")
      recorded written_text (refl, refl) (ground arith) refl

-- A text that is no script.
read_terminates_example :
    read_conversation sample_net family_of ok false (stream_of (codes "TestPort 80")) ≢ err diverges
read_terminates_example =
    read_terminates sample_net family_of ok false (λ s. cc) (codes "TestPort 80")
