-- ===== src/Capture/Dissect.antt =====
-- src/lib/capture.cc and src/include/network_layers.h: what is made of a frame that a sender has
-- put together, byte by byte.
use mathlib.Core.List.{append_assoc}
use packet_replay.Base.{
  ℕ, ◌≡◌, refl, ap, ◌∙◌, ◌∷◌, ◌++◌, some, Bytes, ok, ◌>>=◌, length-append, arith,
}
use packet_replay.Base.Int.{ℤ, pos, ◌-ℤ◌}
use packet_replay.Memory.Laws.{read_bytes-append}
use packet_replay.Layers.{
  Layer, View, ethernet, ip, tcp, get_ether_type, get_data, get_data_size, get_next_protocol,
}
use packet_replay.Layers.Fields.{
  Ip4Header, IsIp4, ReadsIp4, ip4_packet, ip4_packet-ReadsIp4, Addr4, addr4_bytes, TcpHeader, IsTcp,
  tcp_header, tcp_view, tcp_view-ReadsTcp, host_port,
}
use packet_replay.Packet.{TransportPacket, empty_packet, add_layer, get_layer}
use packet_replay.Conversation.{layer3}
use packet_replay.Tcp.Segments.{Segment, Holds}
use packet_replay.Capture.{
  dlt_en10mb, ipproto_tcp, ethernet_frame, link_layer, payload, transport_layer, dissect,
  and_transport,
}

-- The two link addresses of an Ethernet header, in three groups of four bytes.
abbrev pub ethernet_bytes : Addr4 → Addr4 → Addr4 → Bytes → Bytes
ethernet_bytes m n o rest =
    addr4_bytes m ++ (addr4_bytes n ++ (addr4_bytes o ++ 0x08 ∷ 0x00 ∷ rest))

-- A TCP segment in an IPv4 packet in an Ethernet frame, which may be padded at its end.
abbrev pub tcp_frame : Addr4 → Addr4 → Addr4 → Ip4Header → TcpHeader → Bytes → Bytes → Bytes
tcp_frame m n o h k bytes trailer =
    ethernet_bytes m n o (ip4_packet h (tcp_header k ++ bytes) trailer)

-- The segment that the frame carries.
abbrev pub frame_segment : Ip4Header → TcpHeader → Bytes → Segment
frame_segment h k bytes = record {
  src_addr = addr4_bytes h.src;
  src_port = host_port k.src_hi k.src_lo;
  flags = k.flags;
  payload = bytes;
}

-- The three layers of a packet.
abbrev pub three_layers : Layer → Layer → Layer → TransportPacket
three_layers a b c = add_layer (add_layer (add_layer empty_packet a) b) c

payload_lem :
    (l : Layer) {start : Bytes} {size : ℤ}
    → get_data l ≡ ok start
    → get_data_size l ≡ ok size
    → payload l ≡ ok (record { packet = start; packet_size = size })
unfolding payload
payload_lem l e f = rw (e, f)

tcp_layer_lem :
    (p : TransportPacket) (l : Layer) {v : View}
    → get_next_protocol l ≡ ok ipproto_tcp
    → payload l ≡ ok v
    → transport_layer (p, l) ≡ ok (some (add_layer (add_layer p l) (tcp v)))
unfolding transport_layer
tcp_layer_lem p l e f = rw (e, f)

ethernet_lem :
    (m n o : Addr4) (rest : Bytes) (caplen len : ℕ)
    → ethernet_frame (record { caplen = caplen; len = len }) (ethernet_bytes m n o rest)
      ≡ ok (
          some (
            add_layer empty_packet (
                ethernet (record { packet = ethernet_bytes m n o rest; packet_size = pos caplen })),
            ip (record { packet = rest; packet_size = pos caplen -ℤ 14 }),
          ))
unfolding ethernet_frame get_ether_type get_data get_data_size
ethernet_lem m n o rest caplen len = refl

View-eq : (v w : View) → v.packet ≡ w.packet → v.packet_size ≡ w.packet_size → v ≡ w
View-eq v w e f = λ i. record { packet = e i; packet_size = f i }

-- The layers of a packet are those that were added.
layers_of_three :
    (a b : View) (c : View)
    → let p = three_layers (ethernet a) (ip b) (tcp c) in
      (get_layer p 2 ≡ some (ethernet a))
      × (get_layer p 3 ≡ some (ip b))
      × (get_layer p 4 ≡ some (tcp c))
unfolding add_layer empty_packet get_layer
layers_of_three a b c = (refl, refl, refl)

module _ (h : Ip4Header) (k : TcpHeader) (bytes trailer : Bytes) (size : ℤ)
    (wi : IsIp4 h (tcp_header k ++ bytes)) (wt : IsTcp k) where
  abbrev pub ip_view : View
  ip_view = record { packet = ip4_packet h (tcp_header k ++ bytes) trailer; packet_size = size }

  ip_reads : ReadsIp4 h (tcp_header k ++ bytes) trailer ip_view
  ip_reads = ip4_packet-ReadsIp4 h (tcp_header k ++ bytes) trailer size wi

  payload_is : payload (ip ip_view) ≡ ok (tcp_view k bytes trailer)
  payload_is =
      payload_lem (ip ip_view) ip_reads.payload_at ip_reads.payload_size
      ∙ ap ok (
          View-eq _ (tcp_view k bytes trailer) (append_assoc (tcp_header k) bytes trailer)
            (ap pos (omega (arith, wt, length-append {0} (tcp_header k) bytes))))

  pub Holds-segment :
      (a : View)
      → Holds 4
          (three_layers (ethernet a) (ip ip_view) (tcp (tcp_view k bytes trailer)))
          (frame_segment h k bytes)
  unfolding layer3
  Holds-segment a =
      let l = layers_of_three a ip_view (tcp_view k bytes trailer) in
      let r = tcp_view-ReadsTcp k bytes trailer wt in
      record {
        view = tcp_view k bytes trailer;
        network = ip ip_view;
        addr = ip_reads.src_is.0;
        start = bytes ++ trailer;
        is_tcp = rw l.2;
        is_network = rw l.1;
        addr_at = ip_reads.src_is.1;
        addr_is = ip_reads.src_is.2;
        port_is = r.src_port_is;
        flags_are = r.flags_are;
        size_is = r.payload_size;
        start_at = r.payload_at;
        payload_is = read_bytes-append bytes trailer;
      }

-- An Ethernet frame that carries a TCP segment over IPv4, with options in both headers of the
-- lengths that their length fields say, a total below 65536 bytes and any padding at its end, is
-- cut into a packet that holds exactly that segment: the source, the flags and the data that were
-- sent, and nothing of the padding.
pub tcp_frame_dissected :
    (m n o : Addr4) (h : Ip4Header) (k : TcpHeader) (bytes trailer : Bytes) (caplen len : ℕ)
    → IsIp4 h (tcp_header k ++ bytes)
    → IsTcp k
    → h.protocol ≡ ipproto_tcp
    → (p : TransportPacket) × (dissect dlt_en10mb
          (record { caplen = caplen; len = len })
          (tcp_frame m n o h k bytes trailer)
        ≡ ok (some p))
      × Holds 4 p (frame_segment h k bytes)
unfolding dissect link_layer
tcp_frame_dissected m n o h k bytes trailer caplen len wi wt e =
    let size = pos caplen -ℤ 14 in
    let v = ip_view h k bytes trailer size wi wt in
    let a : View = record {
      packet = tcp_frame m n o h k bytes trailer;
      packet_size = pos caplen;
    } in
    let pl = ip4_packet h (tcp_header k ++ bytes) trailer in
    (
      three_layers (ethernet a) (ip v) (tcp (tcp_view k bytes trailer)),
      ap (λ r. do found ← r; and_transport found) (ethernet_lem m n o pl caplen len)
          ∙ tcp_layer_lem (add_layer empty_packet (ethernet a)) (ip v)
              ((ip_reads h k bytes trailer size wi wt).protocol_is ∙ ap ok e)
              (payload_is h k bytes trailer size wi wt),
      Holds-segment h k bytes trailer size wi wt a,
    )
