-- ===== src/Conversation/Address.antt =====
-- src/include/packet_conversation.h: what the constructor from a packet sets.
use packet_replay.Base.{Option, ok, bind-eq-ok, ok-injective, subst, [], ◌≡◌, refl, replicate}
use packet_replay.Memory.{Pointer, read_bytes}
use packet_replay.Layers.{
  Layer, get_addr_family, get_addr_size, get_sock_addr_size, get_src_addr, get_dest_addr,
  get_src_port, get_dest_port,
}
use packet_replay.Layers.Inet.{Inet, get_sock_addr}
use packet_replay.Packet.{TransportPacket}
use packet_replay.Conversation.{
  PacketConversation, TargetTestServer, layer3, layer4, test_target, new_conversation,
}

-- Where each field of a new conversation comes from.
pub record Origin (net : Inet) (p : TransportPacket) (server : Option TargetTestServer)
    (c : PacketConversation) : Type 0 where
  pub l3 : Layer
  pub l4 : Layer
  pub src_ptr : Pointer
  pub dest_ptr : Pointer
  pub l3_is : layer3 p ≡ ok l3
  pub l4_is : layer4 p ≡ ok l4
  pub family_is : get_addr_family l3 ≡ ok c.addr_family
  pub size_is : get_addr_size l3 ≡ ok c.addr_size
  pub sock_size_is : get_sock_addr_size l3 ≡ ok c.sock_addr_size
  pub src_at : get_src_addr l3 ≡ ok src_ptr
  pub src_is : read_bytes src_ptr c.addr_size ≡ ok c.cap_src_addr
  pub dest_at : get_dest_addr l3 ≡ ok dest_ptr
  pub dest_is : read_bytes dest_ptr c.addr_size ≡ ok c.cap_dest_addr
  pub src_port_is : get_src_port l4 ≡ ok c.cap_src_port
  pub dest_port_is : get_dest_port l4 ≡ ok c.cap_dest_port
  pub target_is :
      test_target net l3 server c.cap_dest_addr c.cap_dest_port (replicate c.addr_size 0)
      ≡ ok (c.test_dest_addr, c.test_dest_port)
  pub sock_is :
      get_sock_addr l3 c.test_dest_addr c.test_dest_port (replicate c.sock_addr_size 0)
      ≡ ok c.test_sock_addr
  pub empty_is : c.action_queue ≡ []

pub new_conversation-Origin :
    (net : Inet) (p : TransportPacket) (server : Option TargetTestServer) (c : PacketConversation)
    → new_conversation net p server ≡ ok c
    → Origin net p server c
unfolding new_conversation
new_conversation-Origin net p server c h =
    let (l3, e1, h) = bind-eq-ok (layer3 p) _ h in
    let (l4, e2, h) = bind-eq-ok (layer4 p) _ h in
    let (family, e3, h) = bind-eq-ok (get_addr_family l3) _ h in
    let (n, e4, h) = bind-eq-ok (get_addr_size l3) _ h in
    let (sn, e5, h) = bind-eq-ok (get_sock_addr_size l3) _ h in
    let (src_ptr, e6, h) = bind-eq-ok (get_src_addr l3) _ h in
    let (src, e7, h) = bind-eq-ok (read_bytes src_ptr n) _ h in
    let (dest_ptr, e8, h) = bind-eq-ok (get_dest_addr l3) _ h in
    let (dest, e9, h) = bind-eq-ok (read_bytes dest_ptr n) _ h in
    let (src_port, e10, h) = bind-eq-ok (get_src_port l4) _ h in
    let (dest_port, e11, h) = bind-eq-ok (get_dest_port l4) _ h in
    let (target, e12, h) =
      bind-eq-ok (test_target net l3 server dest dest_port (replicate n 0)) _ h in
    let (sock, e13, h) = bind-eq-ok (get_sock_addr l3 target.0 target.1 (replicate sn 0)) _ h in
    subst (Origin net p server) (ok-injective h) (record {
      l3 = l3;
      l4 = l4;
      src_ptr = src_ptr;
      dest_ptr = dest_ptr;
      l3_is = e1;
      l4_is = e2;
      family_is = e3;
      size_is = e4;
      sock_size_is = e5;
      src_at = e6;
      src_is = e7;
      dest_at = e8;
      dest_is = e9;
      src_port_is = e10;
      dest_port_is = e11;
      target_is = e12;
      sock_is = e13;
      empty_is = refl;
    })
