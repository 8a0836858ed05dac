-- ===== src/Capture.antt =====
-- src/lib/capture.cc: a captured frame is cut into layers and given to the conversation that it
-- belongs to. libpcap, which reads the file, is a parameter: the frames that `pcap_loop` hands to
-- the handler, the link type, and whether opening and reading succeed.
pub mod Dissect
pub mod Load
pub mod Recording
use packet_replay.Base.{
  ℕ, ◌-◌, ◌%◌, Bool, true, false, ◌||◌, List, [], ◌∷◌, Option, none, some, Bytes, Result, ok, err,
  fault, runtime_error, guard, ◌>>=◌, ◌>>◌, drop, ◌==◌, if◌then◌else◌,
}
use packet_replay.Base.Int.{ℤ, pos, ◌-ℤ◌}
use packet_replay.Memory.{load8}
use packet_replay.Layers.{
  Layer, View, ethernet, ip, ipv6, tcp, udp, af_inet, get_data, get_data_size, get_ether_type,
  get_next_protocol,
}
use packet_replay.Packet.{TransportPacket, empty_packet, add_layer}
use packet_replay.Store.{ConversationFactory, ConversationStore, deliver}

-- `pcap_pkthdr`: the bytes captured and the bytes on the wire.
pub record PcapHeader : Type 0 where
  pub caplen : ℕ
  pub len : ℕ

-- The link types, ether types and IP protocols that the handler knows.
abbrev pub dlt_null : ℕ
dlt_null = 0

abbrev pub dlt_en10mb : ℕ
dlt_en10mb = 1

abbrev pub ethertype_ip : ℕ
ethertype_ip = 0x0800

abbrev pub ethertype_ipv6 : ℕ
ethertype_ipv6 = 0x86dd

abbrev pub ipproto_tcp : ℕ
ipproto_tcp = 6

abbrev pub ipproto_udp : ℕ
ipproto_udp = 17

-- `bytes[0] == AF_INET || bytes[3] == AF_INET`
abbrev pub is_loopback_ip : Bytes → Result Bool
is_loopback_ip bytes = do
  first ← load8 bytes 0
  if first == af_inet then ok true else (do fourth ← load8 bytes 3; ok (fourth == af_inet))

-- The frame's layers so far and its network layer, or nothing for a frame that is ignored.
unfoldable pub ethernet_frame : PcapHeader → Bytes → Result (Option (TransportPacket × Layer))
ethernet_frame h bytes = do
  let v : View = record { packet = bytes; packet_size = pos h.caplen }
  let p = add_layer empty_packet (ethernet v)
  t ← get_ether_type v
  start ← get_data (ethernet v)
  size ← get_data_size (ethernet v)
  let net : View = record { packet = start; packet_size = size }
  ok (
      if t == ethertype_ip
      then some (p, ip net)
      else if t == ethertype_ipv6
      then some (p, ipv6 net)
      else none)

unfoldable pub loopback_frame : PcapHeader → Bytes → Result (Option (TransportPacket × Layer))
loopback_frame h bytes = do
  known ← is_loopback_ip bytes
  ok (
      if known
      then some
          (empty_packet, ip (record { packet = drop 4 bytes; packet_size = pos h.caplen -ℤ 4 }))
      else none)

-- The `switch` on the link type.
unfoldable pub link_layer : ℕ → PcapHeader → Bytes → Result (Option (TransportPacket × Layer))
unfolding ethernet_frame loopback_frame
link_layer datalink h bytes =
    if datalink == dlt_null
    then loopback_frame h bytes
    else if datalink == dlt_en10mb
    then ethernet_frame h bytes
    else ok none

-- The payload of the network layer, as the view of a transport layer.
unfoldable pub payload : Layer → Result View
payload l = do
  start ← get_data l
  size ← get_data_size l
  ok record { packet = start; packet_size = size }

-- The `switch` on the protocol of the network layer.
unfoldable pub transport_layer : TransportPacket × Layer → Result (Option TransportPacket)
unfolding payload
transport_layer (p, l) = do
  let q = add_layer p l
  proto ← get_next_protocol l
  if proto == ipproto_tcp
      then (do v ← payload l; ok (some (add_layer q (tcp v))))
      else if proto == ipproto_udp
      then (do v ← payload l; ok (some (add_layer q (udp v))))
      else ok none

abbrev pub and_transport : Option (TransportPacket × Layer) → Result (Option TransportPacket)
and_transport none = ok none
and_transport (some f) = transport_layer f

-- The packet that a frame holds, if it is one that the program looks at.
unfoldable pub dissect : ℕ → PcapHeader → Bytes → Result (Option TransportPacket)
unfolding link_layer transport_layer
dissect datalink h bytes = do found ← link_layer datalink h bytes; and_transport found

module _ {T : Type 0} (f : ConversationFactory T) where
  abbrev pub deliver_found :
      ConversationStore T → Option TransportPacket → Result (ConversationStore T)
  deliver_found s none = ok s
  deliver_found s (some p) = deliver f s p

  -- `Capture::packetHandler`. The store is where a conversation changes.
  unfoldable pub packet_handler :
      ℕ → ConversationStore T → PcapHeader → Bytes → Result (ConversationStore T)
  packet_handler datalink s h bytes = do
    guard (h.caplen == h.len) runtime_error
    found ← dissect datalink h bytes
    deliver_found s found

  -- The calls that `pcap_loop` makes; an exception leaves the loop.
  unfoldable pub pcap_loop :
      ℕ → ConversationStore T → List (PcapHeader × Bytes) → Result (ConversationStore T)
  pcap_loop datalink s [] = ok s
  pcap_loop datalink s ((h, bytes) ∷ frames) = do
    t ← packet_handler datalink s h bytes
    pcap_loop datalink t frames

-- What libpcap makes of a capture file.
pub record CaptureFile : Type 0 where
  pub opened : Bool
  pub datalink : ℕ
  pub frames : List (PcapHeader × Bytes)
  pub read_to_end : Bool

-- `Capture::load`. The link type is kept in an `unsigned char`.
unfoldable pub load :
    {T : Type 0}
    → ConversationFactory T
    → ConversationStore T
    → CaptureFile
    → Result (ConversationStore T)
load f s file = do
  guard file.opened runtime_error
  t ← pcap_loop f (file.datalink % 256) s file.frames
  guard file.read_to_end runtime_error
  ok t
