-- ===== src/Tests/Stores.antt =====
-- The sample connection in the store of conversations, from its frames to its actions.
use packet_replay.Base.{
  ◌≡◌, refl, List, [], ◌∷◌, Bytes, codes, some, ok, arith, true, length, compare_bytes, ◌⊎◌,
}
use packet_replay.Base.Int.{pos, ◌-ℤ◌}
use packet_replay.Memory.{read_bytes, read_range, memcmp, ntohs}
use packet_replay.Util.{bytes_to_hex_string, hex_string}
use packet_replay.Util.Number.{to_string}
use packet_replay.StringMap.{lookup, insert}
use packet_replay.Layers.{
  ip, tcp, get_addr_family, get_addr_size, get_sock_addr_size, get_src_addr, get_dest_addr,
  get_src_port, get_dest_port, get_data, get_data_size, get_flags, has_syn, has_ack, has_rst,
  has_fin, get_ether_type, get_next_protocol,
}
use packet_replay.Layers.Fields.{addr4_bytes, tcp_view}
use packet_replay.Layers.Inet.{get_sock_addr, get_src_addr_str}
use packet_replay.Packet.{TransportPacket, empty_packet, add_layer, get_layer}
use packet_replay.Action.{from_packet}
use packet_replay.Conversation.{layer3, layer4, test_target, new_conversation, source_is}
use packet_replay.Factory.{
  generate_key, ordered_key, tcp_ip_get_key, tcp_ip_get_target_test_server_keys,
}
use packet_replay.Factory.Key.{Endpoint, Goes, key_of_reverse, key_determines_ends}
use packet_replay.Tcp
use packet_replay.Tcp.{
  TcpConversation, closed, established, new_tcp_conversation, from_client, est_process, dispatch,
  segment,
}
use packet_replay.Store.{
  ConversationStore, empty_store, configured_server, admitted, get_conversation, deliver,
}
use packet_replay.Store.Selection.{FollowsOne}
use packet_replay.Store.Selected.{Selected, get_conversation-Selected}
use packet_replay.Store.Routing.{
  deliver_all, process_list, packets_of, conversation_sees_own_packets,
}
use packet_replay.Store.Instances.{tcp_conversation_factory}
use packet_replay.Capture.{CaptureFile, dlt_en10mb, dissect, packet_handler, pcap_loop, load}
use packet_replay.Capture.Dissect.{ip_view}
use packet_replay.Capture.Load.{Dissected, load_one, pcap_loop_routes}
use packet_replay.Tests.Net.{sample_net}
use packet_replay.Tests.Runs.{sample_conversation, recorded}
use packet_replay.Tests.Frames.{
  client, server, ip_from, tcp_out, tcp_in, padding, frame, out_packet, in_packet, packets, frames,
}

abbrev client_end : Endpoint
client_end = record { addr = addr4_bytes client; port = 16540 }

abbrev server_end : Endpoint
server_end = record { addr = addr4_bytes server; port = 20480 }

abbrev first_packet : TransportPacket
first_packet = out_packet 2 [] (omega arith)

abbrev answer_packet : TransportPacket
answer_packet = in_packet 0x12 [] (omega arith)

first_packet-Goes : Goes first_packet client_end server_end
unfolding layer3 layer4 get_layer add_layer empty_packet get_src_addr get_dest_addr get_addr_size
    read_bytes get_src_port get_dest_port
first_packet-Goes = record {
  l3 = ip (
      ip_view (ip_from client server) (tcp_out 2) [] padding
        (pos (length (frame (ip_from client server) (tcp_out 2) [])) -ℤ 14) (omega arith)
        (omega arith));
  l4 = tcp (tcp_view (tcp_out 2) [] padding);
  src = _;
  dest = _;
  size = 4;
  l3_is = refl;
  l4_is = refl;
  src_at = refl;
  dest_at = refl;
  size_is = refl;
  src_is = refl;
  dest_is = refl;
  src_port_is = refl;
  dest_port_is = refl;
}

answer_packet-Goes : Goes answer_packet server_end client_end
unfolding layer3 layer4 get_layer add_layer empty_packet get_src_addr get_dest_addr get_addr_size
    read_bytes get_src_port get_dest_port
answer_packet-Goes = record {
  l3 = ip (
      ip_view (ip_from server client) (tcp_in 0x12) [] padding
        (pos (length (frame (ip_from server client) (tcp_in 0x12) [])) -ℤ 14) (omega arith)
        (omega arith));
  l4 = tcp (tcp_view (tcp_in 0x12) [] padding);
  src = _;
  dest = _;
  size = 4;
  l3_is = refl;
  l4_is = refl;
  src_at = refl;
  dest_at = refl;
  size_is = refl;
  src_is = refl;
  dest_is = refl;
  src_port_is = refl;
  dest_port_is = refl;
}

key_of_reverse_example : tcp_ip_get_key first_packet ≡ tcp_ip_get_key answer_packet
key_of_reverse_example =
    key_of_reverse first_packet answer_packet client_end server_end first_packet-Goes
      answer_packet-Goes

key_determines_ends_example :
    ((client_end ≡ server_end) × (server_end ≡ client_end))
    ⊎ ((client_end ≡ client_end) × (server_end ≡ server_end))
key_determines_ends_example =
    key_determines_ends first_packet answer_packet client_end server_end server_end client_end
      first_packet-Goes answer_packet-Goes (omega arith) (omega arith) (omega arith) (omega arith)
      key_of_reverse_example

abbrev sample_key : Bytes
sample_key = codes "0a000001:16540:0a000002:20480"

abbrev holding : TcpConversation → ConversationStore TcpConversation
holding c = record { test_servers = []; conversations = (sample_key, c) ∷ [] }

-- The capture of the sample connection, loaded into an empty store: one conversation, with what
-- was recorded of it.
sample_loaded :
    pcap_loop (tcp_conversation_factory sample_net) dlt_en10mb empty_store frames
    ≡ ok (holding recorded)
unfolding pcap_loop packet_handler dissect get_ether_type get_next_protocol deliver get_conversation
    configured_server admitted lookup insert tcp_ip_get_key tcp_ip_get_target_test_server_keys
    ordered_key generate_key to_string bytes_to_hex_string hex_string get_src_addr_str
    new_tcp_conversation new_conversation layer3 layer4 get_layer add_layer empty_packet
    get_addr_family get_addr_size get_sock_addr_size get_src_addr get_dest_addr get_src_port
    get_dest_port read_bytes test_target get_sock_addr get_data get_data_size get_flags has_syn
    has_ack has_rst has_fin source_is memcmp from_client from_packet read_range compare_bytes ntohs
    Tcp.process_capture_packet segment dispatch
sample_loaded = refl

abbrev sample_file : CaptureFile
sample_file = record { opened = true; datalink = dlt_en10mb; frames = frames; read_to_end = true }

file_loaded :
    load (tcp_conversation_factory sample_net) empty_store sample_file ≡ ok (holding recorded)
unfolding load
file_loaded = rw sample_loaded

load_one_example : FollowsOne (tcp_conversation_factory sample_net) (holding recorded)
load_one_example =
    load_one (tcp_conversation_factory sample_net) sample_file {t = holding recorded} file_loaded

sample_kept : (c : TcpConversation) → lookup sample_key (holding c).conversations ≡ some c
unfolding lookup compare_bytes
sample_kept c = refl

-- The same frames, when the conversation is there already.
sample_resumed :
    pcap_loop (tcp_conversation_factory sample_net) dlt_en10mb (holding sample_conversation) frames
    ≡ ok (holding recorded)
unfolding pcap_loop packet_handler dissect get_ether_type get_next_protocol deliver get_conversation
    configured_server admitted lookup insert tcp_ip_get_key tcp_ip_get_target_test_server_keys
    ordered_key generate_key to_string bytes_to_hex_string hex_string get_src_addr_str
    new_tcp_conversation new_conversation layer3 layer4 get_layer add_layer empty_packet
    get_addr_family get_addr_size get_sock_addr_size get_src_addr get_dest_addr get_src_port
    get_dest_port read_bytes test_target get_sock_addr get_data get_data_size get_flags has_syn
    has_ack has_rst has_fin source_is memcmp from_client from_packet read_range compare_bytes ntohs
    Tcp.process_capture_packet segment dispatch
sample_resumed = refl

pcap_loop_routes_example :
    (ps : List TransportPacket) × Dissected dlt_en10mb frames ps
    × ((d : TcpConversation) × (process_list
            (tcp_conversation_factory sample_net)
            sample_conversation
            (packets_of (tcp_conversation_factory sample_net) sample_key ps)
          ≡ ok d)
        × (lookup sample_key (holding recorded).conversations ≡ some d))
pcap_loop_routes_example =
    pcap_loop_routes (tcp_conversation_factory sample_net) dlt_en10mb (holding sample_conversation)
      frames sample_key sample_conversation {t = holding recorded} (sample_kept sample_conversation)
      sample_resumed

packets_delivered :
    deliver_all (tcp_conversation_factory sample_net) (holding sample_conversation) packets
    ≡ ok (holding recorded)
unfolding deliver_all deliver get_conversation configured_server admitted lookup insert
    tcp_ip_get_key tcp_ip_get_target_test_server_keys ordered_key generate_key to_string
    bytes_to_hex_string hex_string get_src_addr_str new_tcp_conversation new_conversation layer3
    layer4 get_layer add_layer empty_packet get_addr_family get_addr_size get_sock_addr_size
    get_src_addr get_dest_addr get_src_port get_dest_port read_bytes test_target get_sock_addr
    get_data get_data_size get_flags has_syn has_ack has_rst has_fin source_is memcmp from_client
    from_packet read_range compare_bytes ntohs Tcp.process_capture_packet segment dispatch
packets_delivered = refl

conversation_sees_own_packets_example :
    (d : TcpConversation) × (process_list
        (tcp_conversation_factory sample_net)
        sample_conversation
        (packets_of (tcp_conversation_factory sample_net) sample_key packets)
      ≡ ok d)
    × (lookup sample_key (holding recorded).conversations ≡ some d)
conversation_sees_own_packets_example =
    conversation_sees_own_packets (tcp_conversation_factory sample_net)
      (holding sample_conversation) packets sample_key sample_conversation {t = holding recorded}
      (sample_kept sample_conversation) packets_delivered

first_found :
    get_conversation (tcp_conversation_factory sample_net) empty_store first_packet
    ≡ ok (holding sample_conversation, some sample_key)
unfolding get_conversation configured_server admitted lookup insert tcp_ip_get_key
    tcp_ip_get_target_test_server_keys ordered_key generate_key to_string bytes_to_hex_string
    hex_string get_src_addr_str new_tcp_conversation new_conversation layer3 layer4 get_layer
    add_layer empty_packet get_addr_family get_addr_size get_sock_addr_size get_src_addr
    get_dest_addr get_src_port get_dest_port read_bytes test_target get_sock_addr get_data
    get_data_size get_flags has_syn has_ack has_rst has_fin source_is memcmp from_client from_packet
    read_range compare_bytes ntohs Tcp.process_capture_packet segment dispatch
first_found = refl

get_conversation-Selected_example :
    Selected
      (tcp_conversation_factory sample_net)
      empty_store
      first_packet
      (holding sample_conversation)
      (codes "other")
      (some sample_key)
get_conversation-Selected_example =
    get_conversation-Selected (tcp_conversation_factory sample_net) empty_store first_packet
      (holding sample_conversation) (codes "other") (some sample_key) first_found
