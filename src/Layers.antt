-- ===== src/Layers.antt =====
-- src/include/network_layers.h: views of the protocol headers in a captured packet.
-- A view is the pointer and the size that its constructor is given; a field is read from the
-- bytes each time it is asked for. Sizes are `int`: a header's length field can make one negative.
-- A `dynamic_cast` is a match on the constructor.
pub mod Fields
pub mod Inet
pub mod Total
use packet_replay.Base.{
  ℕ, ◌+◌, ◌*◌, ◌/◌, ◌%◌, Bool, true, false, not, Bytes, Result, ok, err, fault, runtime_error,
  ◌>>=◌, drop, ◌==◌, if◌then◌else◌,
}
use packet_replay.Base.Int.{ℤ, pos, ◌-ℤ◌}
use packet_replay.Memory.{Pointer, load8, load16, ntohs, read_bytes}

pub data Protocol : Type 0 where
  proto_ethernet proto_ip proto_ipv6 proto_tcp proto_udp : Protocol

-- `LayerNumber`: the OSI number of a layer, PHYSICAL = 1.
abbrev pub data_link : ℕ
data_link = 2

abbrev pub network : ℕ
network = 3

abbrev pub transport : ℕ
transport = 4

-- The fields of `Layer`: `packet_` and `packet_size_`.
pub record View : Type 0 where
  pub packet : Pointer
  pub packet_size : ℤ

-- The classes below `Layer` that can be made. The two specs hold no packet.
pub data Layer : Type 0 where
  ethernet : View → Layer
  ip : View → Layer
  ipv6 : View → Layer
  ip_spec : Layer
  ipv6_spec : Layer
  tcp : View → Layer
  udp : View → Layer

unfoldable pub get_protocol : Layer → Protocol
get_protocol (ethernet v) = proto_ethernet
get_protocol (ip v) = proto_ip
get_protocol (ipv6 v) = proto_ipv6
get_protocol ip_spec = proto_ip
get_protocol ipv6_spec = proto_ipv6
get_protocol (tcp v) = proto_tcp
get_protocol (udp v) = proto_udp

unfoldable pub get_layer_number : Layer → ℕ
get_layer_number (ethernet v) = data_link
get_layer_number (tcp v) = transport
get_layer_number (udp v) = transport
get_layer_number _ = network

-- sizeof of `ether_header`, `ip6_hdr` and `udphdr`
abbrev pub ether_header_size : ℕ
ether_header_size = 14

abbrev pub ip6_header_size : ℕ
ip6_header_size = 40

abbrev pub udp_header_size : ℕ
udp_header_size = 8

-- A bit field: `ip_hl` is the low half of byte 0, `th_off` the high half of byte 12.
unfoldable pub ip_header_size : View → Result ℕ
unfolding load8
ip_header_size v = do b ← load8 v.packet 0; ok (b % 16 * 4)

unfoldable pub tcp_header_size : View → Result ℕ
unfolding load8
tcp_header_size v = do b ← load8 v.packet 12; ok (b / 16 * 4)

-- getData of each class that has a packet: where the payload starts.
abbrev ethernet_data : View → Result Pointer
ethernet_data v = ok (drop ether_header_size v.packet)

abbrev ip_data : View → Result Pointer
ip_data v = do n ← ip_header_size v; ok (drop n v.packet)

abbrev ipv6_data : View → Result Pointer
ipv6_data v = ok (drop ip6_header_size v.packet)

abbrev tcp_data : View → Result Pointer
tcp_data v = do n ← tcp_header_size v; ok (drop n v.packet)

abbrev udp_data : View → Result Pointer
udp_data v = ok (drop udp_header_size v.packet)

-- The virtual method. The specs throw.
unfoldable pub get_data : Layer → Result Pointer
unfolding ip_header_size tcp_header_size
get_data (ethernet v) = ethernet_data v
get_data (ip v) = ip_data v
get_data (ipv6 v) = ipv6_data v
get_data ip_spec = err runtime_error
get_data ipv6_spec = err runtime_error
get_data (tcp v) = tcp_data v
get_data (udp v) = udp_data v

-- getDataSize: the IP and UDP views trust the length in their header, the others subtract.
abbrev ethernet_data_size : View → Result ℤ
ethernet_data_size v = ok (v.packet_size -ℤ ether_header_size)

abbrev ip_data_size : View → Result ℤ
ip_data_size v = do len ← load16 v.packet 2; n ← ip_header_size v; ok (pos (ntohs len) -ℤ n)

abbrev ipv6_data_size : View → Result ℤ
ipv6_data_size v = do len ← load16 v.packet 4; ok (pos (ntohs len))

abbrev tcp_data_size : View → Result ℤ
tcp_data_size v = do n ← tcp_header_size v; ok (v.packet_size -ℤ n)

abbrev udp_data_size : View → Result ℤ
udp_data_size v = do len ← load16 v.packet 4; ok (pos (ntohs len) -ℤ udp_header_size)

-- The virtual method.
unfoldable pub get_data_size : Layer → Result ℤ
unfolding ip_header_size tcp_header_size load16 ntohs
get_data_size (ethernet v) = ethernet_data_size v
get_data_size (ip v) = ip_data_size v
get_data_size (ipv6 v) = ipv6_data_size v
get_data_size ip_spec = err runtime_error
get_data_size ipv6_spec = err runtime_error
get_data_size (tcp v) = tcp_data_size v
get_data_size (udp v) = udp_data_size v

unfoldable pub get_ether_type : View → Result ℕ
unfolding load16 ntohs
get_ether_type v = do t ← load16 v.packet 12; ok (ntohs t)

-- `Layer3`: the methods that only network layers have; a spec inherits the ones that throw. On a
-- layer of another kind the cast gives a null pointer, and following that is a fault.
unfoldable pub get_src_addr : Layer → Result Pointer
get_src_addr (ip v) = ok (drop 12 v.packet)
get_src_addr (ipv6 v) = ok (drop 8 v.packet)
get_src_addr ip_spec = err runtime_error
get_src_addr ipv6_spec = err runtime_error
get_src_addr _ = err fault

unfoldable pub get_dest_addr : Layer → Result Pointer
get_dest_addr (ip v) = ok (drop 16 v.packet)
get_dest_addr (ipv6 v) = ok (drop 24 v.packet)
get_dest_addr ip_spec = err runtime_error
get_dest_addr ipv6_spec = err runtime_error
get_dest_addr _ = err fault

unfoldable pub get_next_protocol : Layer → Result ℕ
unfolding load8
get_next_protocol (ip v) = load8 v.packet 9
get_next_protocol (ipv6 v) = load8 v.packet 6
get_next_protocol ip_spec = err runtime_error
get_next_protocol ipv6_spec = err runtime_error
get_next_protocol _ = err fault

-- The address families of Linux.
abbrev pub af_inet : ℕ
af_inet = 2

abbrev pub af_inet6 : ℕ
af_inet6 = 10

unfoldable pub get_addr_family : Layer → Result ℕ
get_addr_family (ip v) = ok af_inet
get_addr_family ip_spec = ok af_inet
get_addr_family (ipv6 v) = ok af_inet6
get_addr_family ipv6_spec = ok af_inet6
get_addr_family _ = err fault

unfoldable pub get_addr_size : Layer → Result ℕ
get_addr_size (ip v) = ok 4
get_addr_size ip_spec = ok 4
get_addr_size (ipv6 v) = ok 16
get_addr_size ipv6_spec = ok 16
get_addr_size _ = err fault

-- sizeof of `sockaddr_in` and `sockaddr_in6`
unfoldable pub get_sock_addr_size : Layer → Result ℕ
get_sock_addr_size (ip v) = ok 16
get_sock_addr_size ip_spec = ok 16
get_sock_addr_size (ipv6 v) = ok 28
get_sock_addr_size ipv6_spec = ok 28
get_sock_addr_size _ = err fault

-- `Layer4`: the ports stand in the header in network order, and are read with no conversion.
unfoldable pub get_src_port : Layer → Result ℕ
unfolding load16
get_src_port (tcp v) = load16 v.packet 0
get_src_port (udp v) = load16 v.packet 0
get_src_port _ = err fault

unfoldable pub get_dest_port : Layer → Result ℕ
unfolding load16
get_dest_port (tcp v) = load16 v.packet 2
get_dest_port (udp v) = load16 v.packet 2
get_dest_port _ = err fault

-- `TcpLayer`: byte 13 holds the flags, FIN = 1, SYN = 2, RST = 4, ACK = 16.
unfoldable pub get_flags : View → Result ℕ
unfolding load8
get_flags v = load8 v.packet 13

abbrev pub th_fin : ℕ
th_fin = 1

abbrev pub th_syn : ℕ
th_syn = 2

abbrev pub th_rst : ℕ
th_rst = 4

abbrev pub th_ack : ℕ
th_ack = 16

-- `flags & mask` for a mask of one bit.
abbrev pub has_flag : ℕ → ℕ → Bool
has_flag flags mask = not (flags / mask % 2 == 0)

unfoldable pub has_syn : View → Result Bool
unfolding get_flags
has_syn v = do flags ← get_flags v; ok (has_flag flags th_syn)

unfoldable pub has_ack : View → Result Bool
unfolding get_flags
has_ack v = do flags ← get_flags v; ok (has_flag flags th_ack)

unfoldable pub has_rst : View → Result Bool
unfolding get_flags
has_rst v = do flags ← get_flags v; ok (has_flag flags th_rst)

unfoldable pub has_fin : View → Result Bool
unfolding get_flags
has_fin v = do flags ← get_flags v; ok (has_flag flags th_fin)
