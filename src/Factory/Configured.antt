-- ===== src/Factory/Configured.antt =====
-- src/lib/conversation_factory.cc: what the texts of a specification configure, and that a server
-- configured for a source is found from the packets of that source.
use packet_replay.Base.{
  ℕ, ◌<◌, ◌≡◌, ◌≢◌, refl, sym, ap, subst, ◌∙◌, List, [], ◌∷◌, ◌++◌, none, some, Bytes, true, All,
  List-cases, inl, inr, ok, ◌>>=◌, arith,
}
use mathlib.Core.List.{append-nil}
use native.Mathlib.Nat.{mod-eq_of_lt}
use packet_replay.Base.Int.{pos, negsuc}
use packet_replay.Memory.{ntohs}
use packet_replay.Memory.Laws.{ntohs_involutive, ntohs-lt}
use packet_replay.Layers.{Layer, get_src_port}
use packet_replay.Layers.Inet.{Inet, IsInet, IsAddr, is_dotted, get_src_addr_str}
use packet_replay.Packet.{TransportPacket}
use packet_replay.Conversation.{htons, layer3, layer4}
use packet_replay.Util.Number.{
  isdigit, to_string, stoul-to_string, to_string-Lacks, to_string-ne-nil,
}
use packet_replay.Util.Tokens.{Lacks, join, IsTokenList, tokenize-join}
use packet_replay.Factory.{tcp_ip_get_target_test_server_keys}
use packet_replay.Factory.Spec.{
  Parsed, parse_port, server_key, configuration, valid4, parse_tokens, parse_ip_v4_spec,
  tcp_ip_create_target_test_server,
}

dotted-Lacks : (s : Bytes) → All (λ c. is_dotted c ≡ true) s → Lacks b':' s
unfolding isdigit
dotted-Lacks [] h = tt
dotted-Lacks (c ∷ s) (hc, h) = (ground arith, dotted-Lacks s h)

-- The text of a port comes back as the port in network order.
parse_port-to_string : (n : ℕ) → n < 65536 → parse_port (to_string n) ≡ ok (pos (ntohs n))
unfolding parse_port htons
parse_port-to_string n h =
    rw (stoul-to_string n (omega arith)) (ap (λ k. ok (pos (ntohs k))) (omega arith))

-- A text that starts with a byte of a dotted text is parsed as an IPv4 specification.
create_of_dotted :
    (net : Inet) (s : Bytes) (rest : Bytes)
    → All (λ c. is_dotted c ≡ true) s
    → s ≢ []
    → tcp_ip_create_target_test_server net (s ++ rest) ≡ parse_ip_v4_spec net (s ++ rest)
unfolding tcp_ip_create_target_test_server isdigit
create_of_dotted net [] rest h n = absurd (n refl)
create_of_dotted net (c ∷ s) rest (hc, h) n = ground arith

htons-ntohs : (m : ℕ) → m < 65536 → htons (pos (ntohs m)) ≡ m
unfolding htons
htons-ntohs m h = ap ntohs (mod-eq_of_lt (ntohs-lt m)) ∙ ntohs_involutive m h

-- A test address makes a server of the two test values; the port is swapped back.
configuration_with_server :
    (r : Parsed)
    → r.test_addr ≢ []
    → configuration r ≡ (
      server_key r.src_addr r.src_port,
      some (record { test_addr = r.test_addr; test_port = pos (htons r.test_port) }),
    )
unfolding configuration
configuration_with_server r n = elim (List-cases r.test_addr) [
  | inl e ↦ absurd (n e)
  | inr (c, s, e) ↦ ground arith
]

module _ (net : Inet) (w : IsInet net) where
  ntop4-ne-nil : (a : Bytes) → IsAddr 4 a → net.ntop4 a ≢ []
  ntop4-ne-nil a h e = let t = sym (w.pton4-ntop4 a h) ∙ ap net.pton4 e ∙ w.pton4-nil in cc t

  valid4-ntop4 : (a : Bytes) → IsAddr 4 a → valid4 net (net.ntop4 a) ≡ ok (net.ntop4 a)
  unfolding valid4
  valid4-ntop4 a h = rw (w.pton4-ntop4 a h)

  ntop4-Lacks : (a : Bytes) → IsAddr 4 a → Lacks b':' (net.ntop4 a)
  ntop4-Lacks a h = dotted-Lacks (net.ntop4 a) (w.ntop4_text a h)

  parse_join :
      (t : Bytes) (ts : List Bytes)
      → All (λ c. is_dotted c ≡ true) t
      → t ≢ []
      → IsTokenList (t ∷ ts)
      → tcp_ip_create_target_test_server net (join (t ∷ ts))
        ≡ (do r ← parse_tokens net (t ∷ ts); ok (configuration r))
  unfolding parse_ip_v4_spec
  parse_join t [] d n h =
      subst (λ s. tcp_ip_create_target_test_server net s ≡ parse_ip_v4_spec net s) (append-nil t)
        (create_of_dotted net t [] d n)
      ∙ ap (λ ts. do r ← parse_tokens net ts; ok (configuration r)) (tokenize-join (t ∷ []) b':' h)
  parse_join t (u ∷ us) d n h =
      create_of_dotted net t (b':' ∷ join (u ∷ us)) d n
      ∙ ap (λ ts. do r ← parse_tokens net ts; ok (configuration r))
          (tokenize-join (t ∷ u ∷ us) b':' h)

  -- Given address conversions that do what is documented, a specification that is an IPv4 address
  -- alone gives the address as the key, and no server.
  pub spec_of_address :
      (a : Bytes)
      → IsAddr 4 a
      → tcp_ip_create_target_test_server net (net.ntop4 a) ≡ ok (net.ntop4 a, none)
  unfolding parse_tokens configuration
  spec_of_address a h =
      parse_join (net.ntop4 a) [] (w.ntop4_text a h) (ntop4-ne-nil a h)
        (ntop4-Lacks a h, ntop4-ne-nil a h)
      ∙ ground (arith, valid4-ntop4 a h)

  configured_tokens :
      (ts : List Bytes) (r : Parsed)
      → r.test_addr ≢ []
      → parse_tokens net ts ≡ ok r
      → (do x ← parse_tokens net ts; ok (configuration x))
        ≡ ok (
          server_key r.src_addr r.src_port,
          some (record { test_addr = r.test_addr; test_port = pos (htons r.test_port) }),
        )
  configured_tokens ts r n e = rw e (ap ok (configuration_with_server r n))

  port_tokens : (a : Bytes) (n : ℕ) → IsAddr 4 a → IsTokenList (net.ntop4 a ∷ to_string n ∷ [])
  port_tokens a n h = (ntop4-Lacks a h, (to_string-Lacks n, to_string-ne-nil n))

  -- The key of a source with a port holds the port in network order.
  abbrev pub source_key : Bytes → ℕ → Bytes
  source_key a n = net.ntop4 a ++ b':' ∷ to_string (ntohs n)

  -- The source's address and port.
  pub spec_of_source :
      (a : Bytes) (n : ℕ)
      → IsAddr 4 a
      → n < 65536
      → tcp_ip_create_target_test_server net (join (net.ntop4 a ∷ to_string n ∷ []))
        ≡ ok (source_key a n, none)
  unfolding parse_tokens configuration
  spec_of_source a n h b =
      parse_join (net.ntop4 a) (to_string n ∷ []) (w.ntop4_text a h) (ntop4-ne-nil a h)
        (port_tokens a n h)
      ∙ ground (arith, valid4-ntop4 a h, parse_port-to_string n b)

  -- Given address conversions that do what is documented, a specification of source address,
  -- source port and test address, without a test port, gives a server with the port 65535,
  -- whatever the port in the capture.
  pub spec_without_test_port :
      (a : Bytes) (n : ℕ) (t : Bytes)
      → IsAddr 4 a
      → n < 65536
      → IsAddr 4 t
      → tcp_ip_create_target_test_server net (join (net.ntop4 a ∷ to_string n ∷ net.ntop4 t ∷ []))
        ≡ ok (source_key a n, some (record { test_addr = net.ntop4 t; test_port = pos 65535 }))
  unfolding parse_tokens htons ntohs
  spec_without_test_port a n t h b k =
      parse_join (net.ntop4 a) (to_string n ∷ net.ntop4 t ∷ []) (w.ntop4_text a h)
        (ntop4-ne-nil a h)
        (ntop4-Lacks a h, (to_string-Lacks n, (ntop4-Lacks t k, ntop4-ne-nil t k)))
      ∙ configured_tokens (net.ntop4 a ∷ to_string n ∷ net.ntop4 t ∷ [])
          (record {
            src_addr = net.ntop4 a;
            src_port = pos (ntohs n);
            test_addr = net.ntop4 t;
            test_port = negsuc 0;
          })
          (ntop4-ne-nil t k)
          (ground (arith, valid4-ntop4 a h, valid4-ntop4 t k, parse_port-to_string n b))

  -- Given address conversions that do what is documented, an IPv4 specification of all four parts,
  -- an IPv4 source address, a source port, an IPv4 test address and a test port, with the addresses
  -- in the text that `inet_ntop` gives, the ports below 65536 in decimal and a ':' between parts,
  -- gives the key of the source, which is its address and its port in network order, and the server
  -- with the test address and the test port.
  pub spec_of_server :
      (a : Bytes) (n : ℕ) (t : Bytes) (m : ℕ)
      → IsAddr 4 a
      → n < 65536
      → IsAddr 4 t
      → m < 65536
      → tcp_ip_create_target_test_server net
          (join (net.ntop4 a ∷ to_string n ∷ net.ntop4 t ∷ to_string m ∷ []))
        ≡ ok (source_key a n, some (record { test_addr = net.ntop4 t; test_port = pos m }))
  unfolding parse_tokens
  spec_of_server a n t m h b k c =
      parse_join (net.ntop4 a) (to_string n ∷ net.ntop4 t ∷ to_string m ∷ []) (w.ntop4_text a h)
        (ntop4-ne-nil a h)
        (
          ntop4-Lacks a h,
          (to_string-Lacks n, (ntop4-Lacks t k, (to_string-Lacks m, to_string-ne-nil m))),
        )
      ∙ configured_tokens (net.ntop4 a ∷ to_string n ∷ net.ntop4 t ∷ to_string m ∷ [])
          (record {
            src_addr = net.ntop4 a;
            src_port = pos (ntohs n);
            test_addr = net.ntop4 t;
            test_port = pos (ntohs m);
          })
          (ntop4-ne-nil t k)
          (ground (
            arith,
            valid4-ntop4 a h,
            valid4-ntop4 t k,
            parse_port-to_string n b,
            parse_port-to_string m c,
          ))
      ∙ ap (λ q. ok (source_key a n, some (record { test_addr = net.ntop4 t; test_port = pos q })))
          (htons-ntohs m c)

-- Given address conversions that do what is documented, take an IPv4 source address and a port below
-- 65536, and a packet that comes from them. The IPv4 specification of the two alone gives a key and
-- no server, that of the two and a test server's IPv4 address and port below 65536 gives the same key
-- and that server, and the packet is looked up first under this key, and next under the address.
pub source_is_found :
    (net : Inet) (w : IsInet net) (p : TransportPacket) (l3 l4 : Layer) (a : Bytes) (n : ℕ)
    (t : Bytes) (m : ℕ)
    → layer3 p ≡ ok l3
    → layer4 p ≡ ok l4
    → IsAddr 4 a
    → n < 65536
    → IsAddr 4 t
    → m < 65536
    → get_src_addr_str net l3 ≡ ok (net.ntop4 a)
    → get_src_port l4 ≡ ok (ntohs n)
    → (key : Bytes) × (tcp_ip_create_target_test_server net (join (net.ntop4 a ∷ to_string n ∷ []))
        ≡ ok (key, none))
      × (tcp_ip_create_target_test_server net
            (join (net.ntop4 a ∷ to_string n ∷ net.ntop4 t ∷ to_string m ∷ []))
          ≡ ok (key, some (record { test_addr = net.ntop4 t; test_port = pos m })))
      × (tcp_ip_get_target_test_server_keys net p ≡ ok (key ∷ net.ntop4 a ∷ []))
unfolding tcp_ip_get_target_test_server_keys
source_is_found net w p l3 l4 a n t m e3 e4 h b k c es ep = (
  source_key net w a n,
  spec_of_source net w a n h b,
  spec_of_server net w a n t m h b k c,
  ground arith,
)
