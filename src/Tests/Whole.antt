-- ===== src/Tests/Whole.antt =====
-- A capture file with the sample connection, loaded.
use packet_replay.Base.{◌≡◌, refl, arith, true, [], ◌∷◌, Bytes, codes, ok, All, compare_bytes}
use packet_replay.Memory.{read_bytes, memcmp, ntohs}
use packet_replay.Util.{bytes_to_hex_string, hex_string}
use packet_replay.Util.Number.{to_string}
use packet_replay.Layers.{
  get_src_addr, get_dest_addr, get_src_port, get_dest_port, get_addr_size, get_data, get_data_size,
  get_ether_type, get_next_protocol,
}
use packet_replay.Layers.Inet.{get_src_addr_str}
use packet_replay.Packet.{empty_packet, add_layer, get_layer}
use packet_replay.Conversation.{layer3, layer4}
use packet_replay.Factory.{
  generate_key, ordered_key, tcp_ip_get_key, tcp_ip_get_target_test_server_keys,
}
use packet_replay.Tcp.{closed}
use packet_replay.Tcp.Segments.{ends, with_progress}
use packet_replay.Tcp.Session.{session_actions}
use packet_replay.Store.{empty_store}
use packet_replay.Store.Instances.{tcp_conversation_factory}
use packet_replay.Capture.{CaptureFile, dlt_en10mb, dissect, load}
use packet_replay.Capture.Load.{Dissected, done, keep}
use packet_replay.Capture.Recording.{holding, capture_recorded}
use packet_replay.Tests.Net.{sample_net, dotted}
use packet_replay.Tests.Frames.{frames, packets, out_packet}
use packet_replay.Tests.Runs.{
  sample_conversation, seg_out, seg_in, made_from_first, packets-AllHold,
}

abbrev pub sample_file : CaptureFile
sample_file = record { opened = true; datalink = dlt_en10mb; frames = frames; read_to_end = true }

abbrev pub sample_key : Bytes
sample_key = codes "0a000001:16540:0a000002:20480"

pub frames-Dissected : Dissected dlt_en10mb frames packets
unfolding dissect get_ether_type get_data get_data_size get_next_protocol ntohs
frames-Dissected =
    keep refl refl
      (keep refl refl (keep refl refl (keep refl refl (keep refl refl (keep refl refl done)))))

pub packets_of_one_key : All (λ p. tcp_ip_get_key p ≡ ok sample_key) packets
unfolding tcp_ip_get_key layer3 layer4 get_layer add_layer empty_packet get_src_addr get_dest_addr
    get_src_port get_dest_port get_addr_size bytes_to_hex_string hex_string read_bytes memcmp
    compare_bytes ordered_key generate_key to_string
packets_of_one_key = (refl, (refl, (refl, (refl, (refl, (refl, tt))))))

capture_recorded_example :
    load (tcp_conversation_factory sample_net) empty_store sample_file
    ≡ ok (
        holding sample_key (
          with_progress sample_conversation (record {
            state = closed;
            actions =
                session_actions
                  (ends sample_conversation)
                  (seg_out 0x18 (codes "GET") ∷ seg_in 0x18 (codes "OK") ∷ [])
                  (seg_out 0x11 []);
          })))
unfolding compare_bytes tcp_ip_get_target_test_server_keys layer3 layer4 get_layer add_layer
    empty_packet get_src_addr get_src_port get_src_addr_str read_bytes to_string dotted
capture_recorded_example =
    capture_recorded sample_net sample_file sample_key
      (codes "10.0.0.1:16540" ∷ codes "10.0.0.1" ∷ []) sample_conversation
      (out_packet 2 [] (omega arith)) _ (seg_out 2 []) (seg_in 0x12 []) (seg_out 0x10 [])
      (seg_out 0x18 (codes "GET") ∷ seg_in 0x18 (codes "OK") ∷ []) (seg_out 0x11 []) refl refl
      frames-Dissected packets_of_one_key refl made_from_first packets-AllHold refl refl refl refl
      refl
