-- ===== src/Layers/Fields.antt =====
-- src/include/network_layers.h: the views read back what a sender writes. The headers here follow
-- the protocols' own layouts, with every field present and the options of any length allowed.
use packet_replay.Base.{
  ℕ, ◌+◌, ◌*◌, ◌/◌, ◌%◌, ◌<◌, ◌≤◌, ◌≡◌, refl, ap, [], ◌∷◌, ◌++◌, Bytes, ok, length, drop,
  drop-append, arith,
}
use packet_replay.Base.Int.{ℤ, pos}
use packet_replay.Memory.{Pointer, read_bytes}
use packet_replay.Layers.{
  View, ip, tcp, udp, get_data, get_data_size, get_src_addr, get_dest_addr, get_next_protocol,
  get_src_port, get_dest_port, get_flags,
}

-- An IPv4 address, in network order.
pub record Addr4 : Type 0 where
  pub a0 : ℕ
  pub a1 : ℕ
  pub a2 : ℕ
  pub a3 : ℕ

abbrev pub addr4_bytes : Addr4 → Bytes
addr4_bytes a = a.a0 ∷ a.a1 ∷ a.a2 ∷ a.a3 ∷ []

-- The fields of an IPv4 header. The options fill `words` words of 4 bytes; the total length is
-- that of the header and the payload.
pub record Ip4Header : Type 0 where
  pub service : ℕ
  pub ident_hi : ℕ
  pub ident_lo : ℕ
  pub fragment_hi : ℕ
  pub fragment_lo : ℕ
  pub ttl : ℕ
  pub protocol : ℕ
  pub checksum_hi : ℕ
  pub checksum_lo : ℕ
  pub src : Addr4
  pub dest : Addr4
  pub words : ℕ
  pub options : Bytes

abbrev pub ip4_length : Ip4Header → Bytes → ℕ
ip4_length h payload = 20 + 4 * h.words + length payload

abbrev pub ip4_header : Ip4Header → Bytes → Bytes
ip4_header h payload =
    (64 + 5 + h.words)
    ∷ h.service
    ∷ (ip4_length h payload / 256)
    ∷ (ip4_length h payload % 256)
    ∷ h.ident_hi
    ∷ h.ident_lo
    ∷ h.fragment_hi
    ∷ h.fragment_lo
    ∷ h.ttl
    ∷ h.protocol
    ∷ h.checksum_hi
    ∷ h.checksum_lo
    ∷ (addr4_bytes h.src ++ (addr4_bytes h.dest ++ h.options))

-- The header can be written: its options have the size that it says, and its lengths fit.
pub record IsIp4 (h : Ip4Header) (payload : Bytes) : Type 0 where
  pub words_fit : h.words ≤ 10
  pub options_size : length h.options ≡ 4 * h.words
  pub length_fits : ip4_length h payload < 65536

-- The packet as it lies in the capture, with whatever a link layer puts behind it.
abbrev pub ip4_packet : Ip4Header → Bytes → Bytes → Bytes
ip4_packet h payload trailer = ip4_header h payload ++ (payload ++ trailer)

drop_by : (n : ℕ) (xs ys : Bytes) → n ≡ length xs → drop n (xs ++ ys) ≡ ys
drop_by n xs ys e = rw e (drop-append xs ys)

-- What the view of an IPv4 packet gives. The size comes from the header, so that a trailer is no
-- part of the payload.
pub record ReadsIp4 (h : Ip4Header) (payload trailer : Bytes) (v : View) : Type 0 where
  pub payload_at : get_data (ip v) ≡ ok (payload ++ trailer)
  pub payload_size : get_data_size (ip v) ≡ ok (pos (length payload))
  pub protocol_is : get_next_protocol (ip v) ≡ ok h.protocol
  pub src_is :
      (p : Pointer) × (get_src_addr (ip v) ≡ ok p) × (read_bytes p 4 ≡ ok (addr4_bytes h.src))
  pub dest_is :
      (p : Pointer) × (get_dest_addr (ip v) ≡ ok p) × (read_bytes p 4 ≡ ok (addr4_bytes h.dest))

-- An IPv4 packet with options of any length that its header allows and with any bytes behind it: the
-- accessors give the payload's start, its size without those bytes, the protocol and both addresses.
pub ip4_packet-ReadsIp4 :
    (h : Ip4Header) (payload trailer : Bytes) (size : ℤ)
    → IsIp4 h payload
    → ReadsIp4 h payload trailer
        (record { packet = ip4_packet h payload trailer; packet_size = size })
unfolding get_data get_data_size get_next_protocol get_src_addr get_dest_addr read_bytes
ip4_packet-ReadsIp4 h payload trailer size w = record {
  payload_at = ap ok (
      drop_by ((64 + 5 + h.words) % 16 * 4) (ip4_header h payload) (payload ++ trailer)
        (omega (arith, w)));
  payload_size = ground (arith, w);
  protocol_is = refl;
  src_is = (_, refl, refl);
  dest_is = (_, refl, refl);
}

-- The fields of a TCP header; a port is the two bytes that are sent, the high one first.
pub record TcpHeader : Type 0 where
  pub src_hi : ℕ
  pub src_lo : ℕ
  pub dest_hi : ℕ
  pub dest_lo : ℕ
  pub seq : Addr4
  pub ack : Addr4
  pub reserved : ℕ
  pub flags : ℕ
  pub window_hi : ℕ
  pub window_lo : ℕ
  pub checksum_hi : ℕ
  pub checksum_lo : ℕ
  pub urgent_hi : ℕ
  pub urgent_lo : ℕ
  pub words : ℕ
  pub options : Bytes

abbrev pub tcp_header : TcpHeader → Bytes
tcp_header h =
    h.src_hi
    ∷ h.src_lo
    ∷ h.dest_hi
    ∷ h.dest_lo
    ∷ (addr4_bytes h.seq
        ++ (addr4_bytes h.ack
            ++ ((16 * (5 + h.words) + h.reserved)
                ∷ h.flags
                ∷ h.window_hi
                ∷ h.window_lo
                ∷ h.checksum_hi
                ∷ h.checksum_lo
                ∷ h.urgent_hi
                ∷ h.urgent_lo
                ∷ h.options)))

pub record IsTcp (h : TcpHeader) : Type 0 where
  pub reserved_fits : h.reserved < 16
  pub words_fit : h.words ≤ 10
  pub options_size : length h.options ≡ 4 * h.words

-- A port as the program holds it: the two bytes as a word of the little-endian host.
abbrev pub host_port : ℕ → ℕ → ℕ
host_port hi lo = hi + 256 * lo

pub record ReadsTcp (h : TcpHeader) (payload trailer : Bytes) (v : View) : Type 0 where
  pub payload_at : get_data (tcp v) ≡ ok (payload ++ trailer)
  pub payload_size : get_data_size (tcp v) ≡ ok (pos (length payload))
  pub src_port_is : get_src_port (tcp v) ≡ ok (host_port h.src_hi h.src_lo)
  pub dest_port_is : get_dest_port (tcp v) ≡ ok (host_port h.dest_hi h.dest_lo)
  pub flags_are : get_flags v ≡ ok h.flags

-- The view of a segment whose size is that of its header and its payload.
abbrev pub tcp_view : TcpHeader → Bytes → Bytes → View
tcp_view h payload trailer = record {
  packet = tcp_header h ++ (payload ++ trailer);
  packet_size = pos (20 + 4 * h.words + length payload);
}

-- A TCP segment with options of any length that its header allows and with any bytes behind it: the
-- accessors give the payload's start, its size, both ports as read from memory and the flags.
pub tcp_view-ReadsTcp :
    (h : TcpHeader) (payload trailer : Bytes)
    → IsTcp h
    → ReadsTcp h payload trailer (tcp_view h payload trailer)
unfolding get_data get_data_size get_src_port get_dest_port get_flags
tcp_view-ReadsTcp h payload trailer w = record {
  payload_at = ap ok (
      drop_by ((16 * (5 + h.words) + h.reserved) / 16 * 4) (tcp_header h) (payload ++ trailer)
        (omega (arith, w)));
  payload_size = ground (arith, w);
  src_port_is = refl;
  dest_port_is = refl;
  flags_are = refl;
}

-- The fields of a UDP header; the length is that of the header and the payload.
pub record UdpHeader : Type 0 where
  pub src_hi : ℕ
  pub src_lo : ℕ
  pub dest_hi : ℕ
  pub dest_lo : ℕ
  pub checksum_hi : ℕ
  pub checksum_lo : ℕ

abbrev pub udp_packet : UdpHeader → Bytes → Bytes → Bytes
udp_packet h payload trailer =
    h.src_hi
    ∷ h.src_lo
    ∷ h.dest_hi
    ∷ h.dest_lo
    ∷ ((8 + length payload) / 256)
    ∷ ((8 + length payload) % 256)
    ∷ h.checksum_hi
    ∷ h.checksum_lo
    ∷ (payload ++ trailer)

pub record ReadsUdp (h : UdpHeader) (payload trailer : Bytes) (v : View) : Type 0 where
  pub payload_at : get_data (udp v) ≡ ok (payload ++ trailer)
  pub payload_size : get_data_size (udp v) ≡ ok (pos (length payload))
  pub src_port_is : get_src_port (udp v) ≡ ok (host_port h.src_hi h.src_lo)
  pub dest_port_is : get_dest_port (udp v) ≡ ok (host_port h.dest_hi h.dest_lo)

-- A datagram of less than 65536 bytes with any bytes behind it: the accessors give the payload's
-- start, its size without those bytes, and both ports as read from memory.
pub udp_packet-ReadsUdp :
    (h : UdpHeader) (payload trailer : Bytes) (size : ℤ)
    → 8 + length payload < 65536
    → ReadsUdp h payload trailer
        (record { packet = udp_packet h payload trailer; packet_size = size })
unfolding get_data get_data_size get_src_port get_dest_port
udp_packet-ReadsUdp h payload trailer size w = record {
  payload_at = refl;
  payload_size = ground (arith, w);
  src_port_is = refl;
  dest_port_is = refl;
}
