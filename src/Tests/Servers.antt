-- ===== src/Tests/Servers.antt =====
-- Specifications of clients, and the theorems about them at sample addresses.
use packet_replay.Base.{◌≡◌, refl, [], ◌∷◌, ◌++◌, Bytes, codes, none, some, ok, arith, length}
use packet_replay.Base.Int.{pos, ◌-ℤ◌}
use packet_replay.Memory.{ntohs, read_bytes}
use packet_replay.Layers.{Layer, ip, tcp, get_src_addr, get_src_port}
use packet_replay.Layers.Fields.{addr4_bytes, tcp_view}
use packet_replay.Capture.Dissect.{ip_view}
use packet_replay.Layers.Inet.{get_src_addr_str}
use packet_replay.Packet.{TransportPacket, empty_packet, add_layer, get_layer}
use packet_replay.Conversation.{layer3, layer4}
use packet_replay.Util.{tokenize}
use packet_replay.Util.Number.{to_string}
use packet_replay.Util.Tokens.{join}
use packet_replay.Factory.{tcp_ip_get_target_test_server_keys}
use packet_replay.Factory.Spec.{parse_port, tcp_ip_create_target_test_server}
use packet_replay.Factory.Configured.{spec_of_server, source_is_found}
use packet_replay.Tests.Net.{sample_net, sample_net-IsInet, dotted, undotted}
use packet_replay.Tests.Frames.{client, server, out_packet, ip_from, tcp_out, padding, frame}

abbrev client_addr : Bytes
client_addr = addr4_bytes client

abbrev server_addr : Bytes
server_addr = addr4_bytes server

-- The texts of the two addresses and ports, parsed.
spec_parsed :
    tcp_ip_create_target_test_server sample_net (codes "10.0.0.1:40000:10.0.0.2:8080")
    ≡ ok (
      codes "10.0.0.1:16540",
      some (record { test_addr = codes "10.0.0.2"; test_port = pos 8080 }),
    )
unfolding tcp_ip_create_target_test_server parse_port undotted tokenize to_string
spec_parsed = refl

spec_of_server_example :
    tcp_ip_create_target_test_server sample_net
      (join (dotted client_addr ∷ to_string 40000 ∷ dotted server_addr ∷ to_string 8080 ∷ []))
    ≡ ok (
      dotted client_addr ++ b':' ∷ to_string (ntohs 40000),
      some (record { test_addr = dotted server_addr; test_port = pos 8080 }),
    )
spec_of_server_example =
    spec_of_server sample_net sample_net-IsInet client_addr 40000 server_addr 8080 (omega arith)
      (omega arith) (omega arith) (omega arith)

abbrev first_packet : TransportPacket
first_packet = out_packet 2 [] (omega arith)

-- The network and the transport layer of the first packet.
abbrev network : Layer
network = ip (
    ip_view (ip_from client server) (tcp_out 2) [] padding
      (pos (length (frame (ip_from client server) (tcp_out 2) [])) -ℤ 14) (omega arith)
      (omega arith))

abbrev transport : Layer
transport = tcp (tcp_view (tcp_out 2) [] padding)

source_is_found_example :
    (key : Bytes) × (tcp_ip_create_target_test_server sample_net
        (join (dotted client_addr ∷ to_string 40000 ∷ []))
      ≡ ok (key, none))
    × (tcp_ip_create_target_test_server sample_net
          (join (dotted client_addr ∷ to_string 40000 ∷ dotted server_addr ∷ to_string 8080 ∷ []))
        ≡ ok (key, some (record { test_addr = dotted server_addr; test_port = pos 8080 })))
    × (tcp_ip_get_target_test_server_keys sample_net first_packet
        ≡ ok (key ∷ dotted client_addr ∷ []))
unfolding layer3 layer4 get_layer add_layer empty_packet get_src_addr_str get_src_addr get_src_port
    read_bytes ntohs
source_is_found_example =
    source_is_found sample_net sample_net-IsInet first_packet network transport client_addr 40000
      server_addr 8080 refl refl (omega arith) (omega arith) (omega arith) (omega arith) refl refl
