-- ===== src/Factory/Key.antt =====
-- src/lib/conversation_factory.cc: `tcpIpGetKey` gives the two directions of a connection one key,
-- and two connections different keys.
use packet_replay.Base.{
  ℕ, ◌≡◌, sym, ap, ◌∙◌, ◌⊎◌, inl, inr, [], ◌∷◌, List, Bytes, All, ok, ok-injective, compare_bytes,
  compare_bytes-flip, compare_bytes-eq, arith,
}
use packet_replay.Memory.{Pointer, read_bytes, memcmp}
use packet_replay.Layers.{
  Layer, get_src_addr, get_dest_addr, get_src_port, get_dest_port, get_addr_size,
}
use packet_replay.Packet.{TransportPacket}
use packet_replay.Conversation.{layer3, layer4}
use packet_replay.Util.{bytes_to_hex_string, hex_string, tokenize}
use packet_replay.Util.Number.{to_string, to_string-Lacks, to_string-injective, to_string-ne-nil}
use packet_replay.Util.Hex.{IsByte, hex_string-injective, hex_string-Lacks}
use packet_replay.Util.Tokens.{Lacks, join, tokenize-join}
use packet_replay.Factory.{generate_key, ordered_key, tcp_ip_get_key}

-- An end of a connection: an address and a port.
pub record Endpoint : Type 0 where
  pub addr : Bytes
  pub port : ℕ

-- The packet goes from one end to another: what the fields of its headers say.
pub record Goes (p : TransportPacket) (a b : Endpoint) : Type 0 where
  pub l3 : Layer
  pub l4 : Layer
  pub src : Pointer
  pub dest : Pointer
  pub size : ℕ
  pub l3_is : layer3 p ≡ ok l3
  pub l4_is : layer4 p ≡ ok l4
  pub src_at : get_src_addr l3 ≡ ok src
  pub dest_at : get_dest_addr l3 ≡ ok dest
  pub size_is : get_addr_size l3 ≡ ok size
  pub src_is : read_bytes src size ≡ ok a.addr
  pub dest_is : read_bytes dest size ≡ ok b.addr
  pub src_port_is : get_src_port l4 ≡ ok a.port
  pub dest_port_is : get_dest_port l4 ≡ ok b.port

-- The key in terms of the two ends.
pub connection_key : Endpoint → Endpoint → Bytes
connection_key a b =
    ordered_key (compare_bytes a.addr b.addr) (hex_string a.addr) a.port (hex_string b.addr) b.port

pub tcp_ip_get_key_lem :
    (p : TransportPacket) (a b : Endpoint) → Goes p a b → tcp_ip_get_key p ≡ ok (connection_key a b)
unfolding tcp_ip_get_key connection_key bytes_to_hex_string memcmp
tcp_ip_get_key_lem p a b g = rw (g.l3_is, g.l4_is) (ground (arith, g.src_at))

connection_key_comm : (a b : Endpoint) → connection_key a b ≡ connection_key b a
unfolding connection_key ordered_key
connection_key_comm a b =
    ground (arith, compare_bytes-flip a.addr b.addr, compare_bytes-eq a.addr b.addr)

-- A packet from one end to another and a packet that goes the other way between them have the same
-- key.
pub key_of_reverse :
    (p q : TransportPacket) (a b : Endpoint)
    → Goes p a b
    → Goes q b a
    → tcp_ip_get_key p ≡ tcp_ip_get_key q
key_of_reverse p q a b g h =
    tcp_ip_get_key_lem p a b g ∙ ap ok (connection_key_comm a b) ∙ sym (tcp_ip_get_key_lem q b a h)

-- The parts of a key, in order.
abbrev key_parts : Bytes → ℕ → Bytes → ℕ → List Bytes
key_parts x p y q = x ∷ to_string p ∷ y ∷ to_string q ∷ []

generate_key-injective :
    (x : Bytes) (p : ℕ) (y : Bytes) (q : ℕ) (x' : Bytes) (p' : ℕ) (y' : Bytes) (q' : ℕ)
    → Lacks b':' x
    → Lacks b':' y
    → Lacks b':' x'
    → Lacks b':' y'
    → generate_key x p y q ≡ generate_key x' p' y' q'
    → key_parts x p y q ≡ key_parts x' p' y' q'
unfolding generate_key
generate_key-injective x p y q x' p' y' q' hx hy hx' hy' h =
    sym (parts x p y q hx hy) ∙ ap (λ s. tokenize s b':') h ∙ parts x' p' y' q' hx' hy'
  where
    parts :
        (x : Bytes) (p : ℕ) (y : Bytes) (q : ℕ)
        → Lacks b':' x
        → Lacks b':' y
        → tokenize (join (key_parts x p y q)) b':' ≡ key_parts x p y q
    parts x p y q hx hy =
        tokenize-join (key_parts x p y q) b':'
          (hx, (to_string-Lacks p, (hy, (to_string-Lacks q, to_string-ne-nil q))))

connection_key_cases :
    (a b : Endpoint)
    → (connection_key a b ≡ generate_key (hex_string a.addr) a.port (hex_string b.addr) b.port)
      ⊎ (connection_key a b ≡ generate_key (hex_string b.addr) b.port (hex_string a.addr) a.port)
unfolding connection_key ordered_key
connection_key_cases a b = ground arith

abbrev pub IsEndpoint : Endpoint → Type 0
IsEndpoint a = All IsByte a.addr

-- Two keys made of the ends in the order given.
ends_of_key :
    (a b c d : Endpoint)
    → IsEndpoint a
    → IsEndpoint b
    → IsEndpoint c
    → IsEndpoint d
    → generate_key (hex_string a.addr) a.port (hex_string b.addr) b.port
      ≡ generate_key (hex_string c.addr) c.port (hex_string d.addr) d.port
    → (a ≡ c) × (b ≡ d)
ends_of_key a b c d ha hb hc hd h =
    let e =
      generate_key-injective (hex_string a.addr) a.port (hex_string b.addr) b.port
        (hex_string c.addr) c.port (hex_string d.addr) d.port (hex_string-Lacks a.addr ha)
        (hex_string-Lacks b.addr hb) (hex_string-Lacks c.addr hc) (hex_string-Lacks d.addr hd) h in
    (
      Endpoint-eq a c (hex_string-injective a.addr c.addr ha hc (cc e))
          (to_string-injective a.port c.port (cc e)),
      Endpoint-eq b d (hex_string-injective b.addr d.addr hb hd (cc e))
          (to_string-injective b.port d.port (cc e)),
    )
  where
    Endpoint-eq : (x y : Endpoint) → x.addr ≡ y.addr → x.port ≡ y.port → x ≡ y
    Endpoint-eq x y e f = λ i. record { addr = e i; port = f i }

-- Two packets, whose headers give two ends each with addresses made of bytes, have the same key
-- only if they go between the same two ends, in the same direction or in the other.
pub key_determines_ends :
    (p q : TransportPacket) (a b c d : Endpoint)
    → Goes p a b
    → Goes q c d
    → IsEndpoint a
    → IsEndpoint b
    → IsEndpoint c
    → IsEndpoint d
    → tcp_ip_get_key p ≡ tcp_ip_get_key q
    → ((a ≡ c) × (b ≡ d)) ⊎ ((a ≡ d) × (b ≡ c))
key_determines_ends p q a b c d g h ha hb hc hd e =
    let k : connection_key a b ≡ connection_key c d =
      ok-injective (sym (tcp_ip_get_key_lem p a b g) ∙ e ∙ tcp_ip_get_key_lem q c d h) in
    elim (connection_key_cases a b) [
      | inl x ↦ elim (connection_key_cases c d) [
        | inl y ↦ inl (ends_of_key a b c d ha hb hc hd (sym x ∙ k ∙ y))
        | inr y ↦ inr (ends_of_key a b d c ha hb hd hc (sym x ∙ k ∙ y))
      ]
      | inr x ↦ elim (connection_key_cases c d) [
        | inl y ↦ inr (swap (ends_of_key b a c d hb ha hc hd (sym x ∙ k ∙ y)))
        | inr y ↦ inl (swap (ends_of_key b a d c hb ha hd hc (sym x ∙ k ∙ y)))
      ]
    ]
  where
    swap : {A B : Type 0} → A × B → B × A
    swap t = (t.1, t.0)
