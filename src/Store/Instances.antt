-- ===== src/Store/Instances.antt =====
-- src/include/conversation_factory.h: the two factories, for TCP and for UDP conversations.
use packet_replay.Layers.Inet.{Inet}
use packet_replay.Factory.{tcp_ip_get_key, tcp_ip_get_target_test_server_keys}
use packet_replay.Factory.Spec.{tcp_ip_create_target_test_server}
use packet_replay.Tcp
use packet_replay.Tcp.{TcpConversation, new_tcp_conversation}
use packet_replay.Udp
use packet_replay.Udp.{UdpConversation, new_udp_conversation}
use packet_replay.Store.{ConversationFactory}

abbrev pub tcp_conversation_factory : Inet → ConversationFactory TcpConversation
tcp_conversation_factory net = record {
  create_target_test_server = tcp_ip_create_target_test_server net;
  get_target_test_server_keys = tcp_ip_get_target_test_server_keys net;
  get_key = tcp_ip_get_key;
  create_conversation = new_tcp_conversation net;
  process_capture_packet = Tcp.process_capture_packet;
}

abbrev pub udp_conversation_factory : Inet → ConversationFactory UdpConversation
udp_conversation_factory net = record {
  create_target_test_server = tcp_ip_create_target_test_server net;
  get_target_test_server_keys = tcp_ip_get_target_test_server_keys net;
  get_key = tcp_ip_get_key;
  create_conversation = new_udp_conversation net;
  process_capture_packet = Udp.process_capture_packet;
}
