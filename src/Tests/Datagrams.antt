-- ===== src/Tests/Datagrams.antt =====
-- A datagram and the answer to it, what is recorded of them, and the fields of sample packets.
use packet_replay.Base.{◌≡◌, refl, [], ◌∷◌, Bytes, codes, ok, List}
use packet_replay.Base.Int.{pos}
use packet_replay.Memory.{read_bytes}
use packet_replay.Layers.{View, ip, udp, get_src_addr, get_src_port, get_data, get_data_size}
use packet_replay.Layers.Fields.{Ip4Header, UdpHeader, ip4_packet, udp_packet, addr4_bytes}
use packet_replay.Packet.{TransportPacket, empty_packet, add_layer, get_layer}
use packet_replay.Conversation.{layer3}
use packet_replay.Udp.{UdpConversation}
use packet_replay.Udp.Record.{
  Datagram, Holds, with_actions, datagram_actions, process_all, datagrams_recorded,
}
use packet_replay.Capture.{ipproto_udp}
use packet_replay.Tests.Runs.{sample_conversation}
use packet_replay.Tests.Frames.{client, server, ip_from}

abbrev udp_header : UdpHeader
udp_header = record {
  src_hi = 0x9c;
  src_lo = 0x40;
  dest_hi = 0;
  dest_lo = 80;
  checksum_hi = 0;
  checksum_lo = 0;
}

abbrev answer_header : UdpHeader
answer_header = record {
  src_hi = 0;
  src_lo = 80;
  dest_hi = 0x9c;
  dest_lo = 0x40;
  checksum_hi = 0;
  checksum_lo = 0;
}

abbrev over_udp : Ip4Header → Ip4Header
over_udp h = record h { protocol = ipproto_udp }

abbrev udp_view : UdpHeader → Bytes → View
udp_view k bytes = record { packet = udp_packet k bytes []; packet_size = pos 64 }

abbrev ip_view : Ip4Header → UdpHeader → Bytes → View
ip_view h k bytes = record {
  packet = ip4_packet (over_udp h) (udp_packet k bytes []) [];
  packet_size = pos 64;
}

abbrev datagram_packet : Ip4Header → UdpHeader → Bytes → TransportPacket
datagram_packet h k bytes =
    add_layer (add_layer empty_packet (ip (ip_view h k bytes))) (udp (udp_view k bytes))

abbrev sample_udp : UdpConversation
sample_udp = record { base = sample_conversation.base }

abbrev question : Datagram
question = record { src_addr = addr4_bytes client; src_port = 16540; payload = codes "hi" }

abbrev answer : Datagram
answer = record { src_addr = addr4_bytes server; src_port = 20480; payload = codes "ho" }

question-Holds : Holds 4 (datagram_packet (ip_from client server) udp_header (codes "hi")) question
unfolding get_layer add_layer empty_packet layer3 get_src_addr read_bytes get_src_port get_data
    get_data_size
question-Holds = record {
  view = udp_view udp_header (codes "hi");
  network = ip (ip_view (ip_from client server) udp_header (codes "hi"));
  addr = _;
  start = _;
  is_udp = refl;
  is_network = refl;
  addr_at = refl;
  addr_is = refl;
  port_is = refl;
  size_is = refl;
  start_at = refl;
  payload_is = refl;
}

answer-Holds : Holds 4 (datagram_packet (ip_from server client) answer_header (codes "ho")) answer
unfolding get_layer add_layer empty_packet layer3 get_src_addr read_bytes get_src_port get_data
    get_data_size
answer-Holds = record {
  view = udp_view answer_header (codes "ho");
  network = ip (ip_view (ip_from server client) answer_header (codes "ho"));
  addr = _;
  start = _;
  is_udp = refl;
  is_network = refl;
  addr_at = refl;
  addr_is = refl;
  port_is = refl;
  size_is = refl;
  start_at = refl;
  payload_is = refl;
}

abbrev datagram_packets : List TransportPacket
datagram_packets =
    datagram_packet (ip_from client server) udp_header (codes "hi")
    ∷ datagram_packet (ip_from server client) answer_header (codes "ho")
    ∷ []

datagrams_recorded_example :
    process_all sample_udp datagram_packets
    ≡ ok (with_actions sample_udp (datagram_actions sample_udp (question ∷ answer ∷ [])))
unfolding read_bytes
datagrams_recorded_example =
    datagrams_recorded sample_udp datagram_packets (question ∷ answer ∷ []) refl
      (question-Holds, (answer-Holds, tt))
