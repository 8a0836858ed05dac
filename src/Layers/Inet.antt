-- ===== src/Layers/Inet.antt =====
-- src/include/network_layers.h: conversions between addresses, their text and socket addresses.
-- `inet_pton` and `inet_ntop` belong to the operating system and are a parameter.
use packet_replay.Base.{
  ℕ, Bool, true, false, Option, none, some, ◌≡◌, Bytes, Result, ok, err, fault, runtime_error,
  ◌>>=◌, length, All, ◌||◌, ◌==◌, [],
}
use packet_replay.Memory.{read_bytes, write_bytes, bytes16}
use packet_replay.Util.Number.{isdigit}
use packet_replay.Util.Hex.{IsByte}
use packet_replay.Layers.{Layer, ip, ipv6, ip_spec, ipv6_spec, af_inet, af_inet6, get_src_addr}

-- `inet_pton` gives the bytes of an address in network order, or nothing for a text that is no
-- address; `inet_ntop` gives the text.
pub record Inet : Type 0 where
  pub pton4 : Bytes → Option Bytes
  pub ntop4 : Bytes → Bytes
  pub pton6 : Bytes → Option Bytes
  pub ntop6 : Bytes → Bytes

-- The bytes of an address of n bytes.
abbrev pub IsAddr : ℕ → Bytes → Type 0
IsAddr n a = (length a ≡ n) × All IsByte a

-- The bytes of a dotted text.
abbrev pub is_dotted : ℕ → Bool
is_dotted c = isdigit c || c == b'.'

-- What is documented of the two functions: the text of an address is read back as that address,
-- the text of an IPv4 address holds digits and dots, and the empty text is no address.
pub record IsInet (net : Inet) : Type 0 where
  pub pton4-ntop4 : (a : Bytes) → IsAddr 4 a → net.pton4 (net.ntop4 a) ≡ some a
  pub ntop4_text : (a : Bytes) → IsAddr 4 a → All (λ c. is_dotted c ≡ true) (net.ntop4 a)
  pub pton4-nil : net.pton4 [] ≡ none

module _ (net : Inet) where
  unfoldable pub get_src_addr_str : Layer → Result Bytes
  unfolding get_src_addr read_bytes
  get_src_addr_str (ip v) = do p ← get_src_addr (ip v); a ← read_bytes p 4; ok (net.ntop4 a)
  get_src_addr_str (ipv6 v) = do p ← get_src_addr (ipv6 v); a ← read_bytes p 16; ok (net.ntop6 a)
  get_src_addr_str ip_spec = err runtime_error
  get_src_addr_str ipv6_spec = err runtime_error
  get_src_addr_str _ = err fault

  -- What `inet_pton` returns, and the buffer, which it leaves alone when it fails.
  abbrev pub converted : Option Bytes → Bytes → Result (Bool × Bytes)
  converted none buf = ok (false, buf)
  converted (some a) buf = do r ← write_bytes buf 0 a; ok (true, r)

  unfoldable pub get_addr_from_string : Layer → Bytes → Bytes → Result (Bool × Bytes)
  unfolding write_bytes
  get_addr_from_string (ip v) s buf = converted (net.pton4 s) buf
  get_addr_from_string ip_spec s buf = converted (net.pton4 s) buf
  get_addr_from_string (ipv6 v) s buf = converted (net.pton6 s) buf
  get_addr_from_string ipv6_spec s buf = converted (net.pton6 s) buf
  get_addr_from_string _ s buf = err fault

-- `struct sockaddr_in`: family at 0, port at 2, address at 4.
sockaddr_in : Bytes → ℕ → Bytes → Result Bytes
sockaddr_in addr port buf = do
  b1 ← write_bytes buf 0 (bytes16 af_inet)
  a ← read_bytes addr 4
  b2 ← write_bytes b1 4 a
  write_bytes b2 2 (bytes16 port)

-- `struct sockaddr_in6`: family at 0, port at 2, flow information at 4, address at 8, scope at 24.
sockaddr_in6 : Bytes → ℕ → Bytes → Result Bytes
sockaddr_in6 addr port buf = do
  b1 ← write_bytes buf 0 (bytes16 af_inet6)
  a ← read_bytes addr 16
  b2 ← write_bytes b1 8 a
  write_bytes b2 2 (bytes16 port)

unfoldable pub get_sock_addr : Layer → Bytes → ℕ → Bytes → Result Bytes
unfolding sockaddr_in sockaddr_in6 write_bytes read_bytes
get_sock_addr (ip v) addr port buf = sockaddr_in addr port buf
get_sock_addr ip_spec addr port buf = sockaddr_in addr port buf
get_sock_addr (ipv6 v) addr port buf = sockaddr_in6 addr port buf
get_sock_addr ipv6_spec addr port buf = sockaddr_in6 addr port buf
get_sock_addr _ addr port buf = err fault
