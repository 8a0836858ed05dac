-- ===== src/Tests/Runs.antt =====
-- What is recorded of the sample connection, and the theorems about recording at it.
use packet_replay.Base.{
  ℕ, ◌≡◌, refl, List, [], ◌∷◌, Bytes, codes, none, some, ok, arith, compare_bytes,
}
use packet_replay.Base.Int.{negsuc}
use packet_replay.Memory.{read_bytes, read_range, memcmp}
use packet_replay.Layers.{
  get_addr_family, get_addr_size, get_sock_addr_size, get_src_addr, get_dest_addr, get_src_port,
  get_dest_port, get_data, get_data_size, get_flags, has_syn, has_ack, has_rst, has_fin,
}
use packet_replay.Layers.Fields.{addr4_bytes}
use packet_replay.Layers.Inet.{get_sock_addr}
use packet_replay.Packet.{TransportPacket, empty_packet, add_layer, get_layer}
use packet_replay.Action.{connect, send, recv, close, plain, with_bytes, from_packet}
use packet_replay.Conversation.{layer3, layer4, test_target, new_conversation, source_is}
use packet_replay.Tcp.{
  TcpConversation, closed, new_tcp_conversation, from_client, dispatch, segment,
  process_capture_packet, process_all,
}
use packet_replay.Tcp.Script.{Inv, script_replayable}
use packet_replay.Tcp.Segments.{
  Segment, IsReady, with_progress, ends, progress, advance, process_refines_advance,
}
use packet_replay.Tcp.Session.{
  AllHold, advance_all, session_actions, session_recorded, process_all_refines,
}
use packet_replay.Capture.{dlt_en10mb, dissect}
use packet_replay.Capture.Dissect.{frame_segment, tcp_frame, tcp_frame_dissected}
use packet_replay.Tcp.Segments
use packet_replay.Tests.Net.{sample_net}
use packet_replay.Tests.Frames.{
  four, client, server, ip_from, tcp_out, tcp_in, padding, packet-Holds, out_packet, packets,
}

abbrev pub sample_conversation : TcpConversation
sample_conversation = record {
  base = record {
    action_queue = [];
    addr_family = 2;
    addr_size = 4;
    sock_addr_size = 16;
    test_sock_addr = 2 ∷ 0 ∷ 0 ∷ 80 ∷ 10 ∷ 0 ∷ 0 ∷ 2 ∷ 0 ∷ 0 ∷ 0 ∷ 0 ∷ 0 ∷ 0 ∷ 0 ∷ 0 ∷ [];
    cap_src_addr = addr4_bytes client;
    cap_dest_addr = addr4_bytes server;
    test_dest_addr = addr4_bytes server;
    cap_dest_port = 20480;
    cap_src_port = 16540;
    test_dest_port = 20480;
  };
  socket = negsuc 0;
  cap_tcp_state = closed;
  closed_sockets = [];
}

abbrev first_packet : TransportPacket
first_packet = out_packet 2 [] (omega arith)

pub made_from_first : new_tcp_conversation sample_net first_packet none ≡ ok sample_conversation
unfolding new_tcp_conversation new_conversation layer3 layer4 get_layer add_layer empty_packet
    get_addr_family get_addr_size get_sock_addr_size get_src_addr get_dest_addr get_src_port
    get_dest_port read_bytes test_target get_sock_addr
made_from_first = refl

sample_conversation-IsReady : IsReady sample_conversation
unfolding read_bytes
sample_conversation-IsReady = record { client_reads = refl; server_reads = refl; unopened = refl }

abbrev pub seg_out : ℕ → Bytes → Segment
seg_out flags bytes = frame_segment (ip_from client server) (tcp_out flags) bytes

abbrev pub seg_in : ℕ → Bytes → Segment
seg_in flags bytes = frame_segment (ip_from server client) (tcp_in flags) bytes

abbrev pub segments : List Segment
segments =
    seg_out 2 []
    ∷ seg_in 0x12 []
    ∷ seg_out 0x10 []
    ∷ seg_out 0x18 (codes "GET")
    ∷ seg_in 0x18 (codes "OK")
    ∷ seg_out 0x11 []
    ∷ []

pub packets-AllHold : AllHold 4 packets segments
packets-AllHold = (
  packet-Holds (ip_from client server) (tcp_out 2) [] (omega arith) (omega arith),
  (
    packet-Holds (ip_from server client) (tcp_in 0x12) [] (omega arith) (omega arith),
    (
      packet-Holds (ip_from client server) (tcp_out 0x10) [] (omega arith) (omega arith),
      (
        packet-Holds (ip_from client server) (tcp_out 0x18) (codes "GET") (omega arith)
            (omega arith),
        (
          packet-Holds (ip_from server client) (tcp_in 0x18) (codes "OK") (omega arith)
              (omega arith),
          (packet-Holds (ip_from client server) (tcp_out 0x11) [] (omega arith) (omega arith), tt),
        ),
      ),
    ),
  ),
)

abbrev pub recorded : TcpConversation
recorded = with_progress sample_conversation (record {
  state = closed;
  actions =
      plain connect
      ∷ with_bytes send (codes "GET")
      ∷ with_bytes recv (codes "OK")
      ∷ plain close
      ∷ [];
})

session_recorded_example :
    process_all sample_conversation packets
    ≡ ok (
        with_progress sample_conversation (record {
          state = closed;
          actions =
              session_actions
                (ends sample_conversation)
                (seg_out 0x18 (codes "GET") ∷ seg_in 0x18 (codes "OK") ∷ [])
                (seg_out 0x11 []);
        }))
unfolding compare_bytes
session_recorded_example =
    session_recorded sample_conversation packets (seg_out 2 []) (seg_in 0x12 []) (seg_out 0x10 [])
      (seg_out 0x18 (codes "GET") ∷ seg_in 0x18 (codes "OK") ∷ []) (seg_out 0x11 [])
      sample_conversation-IsReady refl packets-AllHold refl refl refl refl refl

-- The whole recording, run.
process_all-packets : process_all sample_conversation packets ≡ ok recorded
unfolding process_all process_capture_packet segment dispatch get_layer add_layer empty_packet
    layer3 get_src_addr get_src_port get_data get_data_size get_flags has_syn has_ack has_rst
    has_fin source_is memcmp from_client from_packet read_range compare_bytes
process_all-packets = refl

script_replayable_example : Inv recorded
script_replayable_example =
    script_replayable sample_net first_packet none sample_conversation recorded packets
      made_from_first process_all-packets

process_refines_advance_example :
    process_capture_packet sample_conversation first_packet
    ≡ ok (
        with_progress sample_conversation
          (advance (ends sample_conversation) (progress sample_conversation) (seg_out 2 [])))
process_refines_advance_example =
    process_refines_advance sample_conversation first_packet (seg_out 2 [])
      (packet-Holds (ip_from client server) (tcp_out 2) [] (omega arith) (omega arith))
      sample_conversation-IsReady

tcp_frame_dissected_example :
    (p : TransportPacket) × (dissect dlt_en10mb
        (record { caplen = 63; len = 63 })
        (tcp_frame
          (four 2 0 0 0)
          (four 0 1 2 0)
          (four 0 0 0 2)
          (ip_from client server)
          (tcp_out 0x18)
          (codes "GET")
          padding)
      ≡ ok (some p))
    × Segments.Holds 4 p (seg_out 0x18 (codes "GET"))
tcp_frame_dissected_example =
    tcp_frame_dissected (four 2 0 0 0) (four 0 1 2 0) (four 0 0 0 2) (ip_from client server)
      (tcp_out 0x18) (codes "GET") padding 63 63 (omega arith) (omega arith) refl

process_all_refines_example :
    process_all sample_conversation packets
    ≡ ok (
        with_progress sample_conversation
          (advance_all (ends sample_conversation) (progress sample_conversation) segments))
process_all_refines_example =
    process_all_refines sample_conversation packets segments sample_conversation-IsReady
      packets-AllHold
