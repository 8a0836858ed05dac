-- ===== src/Tests/Frames.antt =====
-- The frames of a short connection from 10.0.0.1 to 10.0.0.2, and the packets that they hold.
use packet_replay.Base.{ℕ, List, [], ◌∷◌, ◌++◌, Bytes, codes, length, arith}
use packet_replay.Base.Int.{pos, ◌-ℤ◌}
use packet_replay.Layers.{ethernet, ip, tcp}
use packet_replay.Layers.Fields.{Addr4, Ip4Header, IsIp4, TcpHeader, IsTcp, tcp_header, tcp_view}
use packet_replay.Packet.{TransportPacket}
use packet_replay.Tcp.Segments.{Holds}
use packet_replay.Capture.{PcapHeader, ipproto_tcp}
use packet_replay.Capture.Dissect.{tcp_frame, frame_segment, three_layers, ip_view, Holds-segment}

abbrev pub four : ℕ → ℕ → ℕ → ℕ → Addr4
four a b c d = record { a0 = a; a1 = b; a2 = c; a3 = d }

abbrev pub client : Addr4
client = four 10 0 0 1

abbrev pub server : Addr4
server = four 10 0 0 2

abbrev pub ip_from : Addr4 → Addr4 → Ip4Header
ip_from a b = record {
  service = 0;
  ident_hi = 0;
  ident_lo = 1;
  fragment_hi = 64;
  fragment_lo = 0;
  ttl = 64;
  protocol = ipproto_tcp;
  checksum_hi = 0;
  checksum_lo = 0;
  src = a;
  dest = b;
  words = 0;
  options = [];
}

-- Client port 40000, server port 80.
abbrev pub tcp_out : ℕ → TcpHeader
tcp_out flags = record {
  src_hi = 0x9c;
  src_lo = 0x40;
  dest_hi = 0;
  dest_lo = 80;
  seq = four 0 0 0 0;
  ack = four 0 0 0 0;
  reserved = 0;
  flags = flags;
  window_hi = 1;
  window_lo = 0;
  checksum_hi = 0;
  checksum_lo = 0;
  urgent_hi = 0;
  urgent_lo = 0;
  words = 0;
  options = [];
}

abbrev pub tcp_in : ℕ → TcpHeader
tcp_in flags = record (tcp_out flags) { src_hi = 0; src_lo = 80; dest_hi = 0x9c; dest_lo = 0x40 }

-- A frame with six bytes of padding.
abbrev pub padding : Bytes
padding = 0 ∷ 0 ∷ 0 ∷ 0 ∷ 0 ∷ 0 ∷ []

abbrev pub frame : Ip4Header → TcpHeader → Bytes → Bytes
frame h k bytes = tcp_frame (four 2 0 0 0) (four 0 1 2 0) (four 0 0 0 2) h k bytes padding

abbrev pub captured : Bytes → PcapHeader × Bytes
captured bytes = (record { caplen = length bytes; len = length bytes }, bytes)

module _ (h : Ip4Header) (k : TcpHeader) (bytes : Bytes) (wi : IsIp4 h (tcp_header k ++ bytes))
    (wt : IsTcp k) where
  abbrev pub packet : TransportPacket
  packet =
      three_layers
        (ethernet
          (record { packet = frame h k bytes; packet_size = pos (length (frame h k bytes)) }))
        (ip (ip_view h k bytes padding (pos (length (frame h k bytes)) -ℤ 14) wi wt))
        (tcp (tcp_view k bytes padding))

  pub packet-Holds : Holds 4 packet (frame_segment h k bytes)
  packet-Holds =
      Holds-segment h k bytes padding (pos (length (frame h k bytes)) -ℤ 14) wi wt
        (record { packet = frame h k bytes; packet_size = pos (length (frame h k bytes)) })

abbrev pub out_packet :
    (flags : ℕ) (bytes : Bytes)
    → IsIp4 (ip_from client server) (tcp_header (tcp_out flags) ++ bytes)
    → TransportPacket
out_packet flags bytes w = packet (ip_from client server) (tcp_out flags) bytes w (omega arith)

abbrev pub in_packet :
    (flags : ℕ) (bytes : Bytes)
    → IsIp4 (ip_from server client) (tcp_header (tcp_in flags) ++ bytes)
    → TransportPacket
in_packet flags bytes w = packet (ip_from server client) (tcp_in flags) bytes w (omega arith)

abbrev pub packets : List TransportPacket
packets =
    out_packet 2 [] (omega arith)
    ∷ in_packet 0x12 [] (omega arith)
    ∷ out_packet 0x10 [] (omega arith)
    ∷ out_packet 0x18 (codes "GET") (omega arith)
    ∷ in_packet 0x18 (codes "OK") (omega arith)
    ∷ out_packet 0x11 [] (omega arith)
    ∷ []

abbrev pub frames : List (PcapHeader × Bytes)
frames =
    captured (frame (ip_from client server) (tcp_out 2) [])
    ∷ captured (frame (ip_from server client) (tcp_in 0x12) [])
    ∷ captured (frame (ip_from client server) (tcp_out 0x10) [])
    ∷ captured (frame (ip_from client server) (tcp_out 0x18) (codes "GET"))
    ∷ captured (frame (ip_from server client) (tcp_in 0x18) (codes "OK"))
    ∷ captured (frame (ip_from client server) (tcp_out 0x11) [])
    ∷ []
