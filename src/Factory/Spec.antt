-- ===== src/Factory/Spec.antt =====
-- src/lib/conversation_factory.cc: the specification of a client, `src IP:src port:test IP:test
-- port` with the ends left off, or with IPv6 addresses in brackets. The argument is a C string: a
-- read at its end gives the terminating zero.
use packet_replay.Base.{
  ℕ, zero, suc, List, [], ◌∷◌, ◌++◌, Option, none, some, Bytes, Bool, true, false, Result, ok, err,
  fault, invalid_argument, required, guard, ◌>>=◌, ◌>>◌, drop, ◌==◌, if◌then◌else◌,
}
use packet_replay.Base.Int.{ℤ, pos, negsuc}
use packet_replay.Memory.{Pointer}
use packet_replay.Layers.Inet.{Inet}
use packet_replay.Conversation.{TargetTestServer, htons}
use packet_replay.Util.{tokenize, token}
use packet_replay.Util.Number.{to_string, stoul}

-- `NO_PORT` is -1; a port is kept as `htons` made it, in an `int`.
abbrev pub no_port : ℤ
no_port = negsuc 0

-- The variables that the parsers fill.
pub record Parsed : Type 0 where
  pub src_addr : Bytes
  pub src_port : ℤ
  pub test_addr : Bytes
  pub test_port : ℤ

abbrev pub nothing : Parsed
nothing = record { src_addr = []; src_port = no_port; test_addr = []; test_port = no_port }

-- `htons(stoul(token))`; `invalid_argument` is thrown again as itself.
unfoldable pub parse_port : Bytes → Result ℤ
unfolding htons stoul
parse_port s = do n ← stoul s; ok (pos (htons (pos n)))

abbrev is_nil : Bytes → Bool
is_nil [] = true
is_nil (c ∷ s) = false

-- `src_port != NO_PORT ? src_addr + ":" + std::to_string(src_port) : src_addr`
abbrev pub server_key : Bytes → ℤ → Bytes
server_key addr (pos port) = addr ++ b':' ∷ to_string port
server_key addr (negsuc n) = addr

-- The key and the server. The port is swapped again; without one it is `htons(-1)`.
unfoldable pub configuration : Parsed → Bytes × Option TargetTestServer
unfolding htons
configuration r = (
  server_key r.src_addr r.src_port,
  if is_nil r.test_addr
      then none
      else some (record { test_addr = r.test_addr; test_port = pos (htons r.test_port) }),
)

module _ (net : Inet) where
  -- `inet_pton(AF_INET, ...) <= 0` throws.
  unfoldable pub valid4 : Bytes → Result Bytes
  valid4 s = do _ ← required (net.pton4 s) invalid_argument; ok s

  -- The cases of the `switch` on the number of tokens: each falls through to the one with a token
  -- less, whose token is looked at next.
  unfoldable pub case1 : Parsed → Bytes → Result Parsed
  unfolding valid4
  case1 r t0 = do a ← valid4 t0; ok (record r { src_addr = a })

  unfoldable pub case2 : Parsed → Bytes → Bytes → Result Parsed
  unfolding case1
  case2 r t0 t1 = do p ← parse_port t1; case1 (record r { src_port = p }) t0

  unfoldable pub case3 : Parsed → Bytes → Bytes → Bytes → Result Parsed
  unfolding case2
  case3 r t0 t1 t2 = do a ← valid4 t2; case2 (record r { test_addr = a }) t0 t1

  unfoldable pub case4 : Parsed → Bytes → Bytes → Bytes → Bytes → Result Parsed
  unfolding case3
  case4 r t0 t1 t2 t3 = do p ← parse_port t3; case3 (record r { test_port = p }) t0 t1 t2

  unfoldable pub parse_tokens : List Bytes → Result Parsed
  unfolding case4
  parse_tokens (t0 ∷ []) = case1 nothing t0
  parse_tokens (t0 ∷ t1 ∷ []) = case2 nothing t0 t1
  parse_tokens (t0 ∷ t1 ∷ t2 ∷ []) = case3 nothing t0 t1 t2
  parse_tokens (t0 ∷ t1 ∷ t2 ∷ t3 ∷ []) = case4 nothing t0 t1 t2 t3
  parse_tokens _ = err invalid_argument

  unfoldable pub parse_ip_v4_spec : Bytes → Result (Bytes × Option TargetTestServer)
  unfolding parse_tokens configuration
  parse_ip_v4_spec spec = do r ← parse_tokens (tokenize spec b':'); ok (configuration r)

  -- `normalizeIpV6`: the text that the system itself writes for the address.
  unfoldable pub normalize_ip_v6 : Bytes → Result Bytes
  normalize_ip_v6 s = do a ← required (net.pton6 s) invalid_argument; ok (net.ntop6 a)

  -- `*(p + i)` in a C string.
  c_char : Bytes → ℕ → Result ℕ
  c_char [] zero = ok 0
  c_char [] (suc i) = err fault
  c_char (c ∷ s) zero = ok c
  c_char (c ∷ s) (suc i) = c_char s i

  -- A token that is empty leaves the port as it is.
  port_or : ℤ → Bytes → Result ℤ
  port_or p [] = ok p
  port_or p (c ∷ s) = parse_port (c ∷ s)

  -- The test server in brackets, with its port behind it.
  bracketed_test : Parsed → Pointer → Bytes → Result Parsed
  unfolding c_char port_or normalize_ip_v6
  bracketed_test r p t = do
    first ← c_char t 0
    guard (first == b'[') invalid_argument
    a ← normalize_ip_v6 (drop 1 t)
    next ← c_char p 1
    guard (next == b':') invalid_argument
    let rest = token (drop 2 p) b':'
    port ← elim rest.0 [ some q ↦ err invalid_argument | none ↦ port_or no_port rest.1 ]
    ok (record r { test_addr = a; test_port = port })

  -- What follows the source, from where the last delimiter was found: nothing, an address to the
  -- end of the text, or an address in brackets.
  test_part : Parsed → Option Pointer × Bytes → Result Parsed
  unfolding bracketed_test
  test_part r (q, []) = ok r
  test_part r (none, c ∷ t) = do a ← normalize_ip_v6 (c ∷ t); ok (record r { test_addr = a })
  test_part r (some q, c ∷ t) = bracketed_test r q (c ∷ t)

  after_source : Parsed → Option Pointer → Result Parsed
  unfolding test_part
  after_source r none = ok r
  after_source r (some p) = test_part r (token (drop 1 p) b']')

  -- The port of the source, if a ':' follows the bracket. Without a bracket the code goes on from
  -- a null pointer.
  source_part : Option Pointer × Bytes → Result Parsed
  unfolding after_source
  source_part (none, t) = err fault
  source_part (some p, t) = do
    a ← normalize_ip_v6 (drop 1 t)
    let r = record nothing { src_addr = a }
    next ← c_char p 1
    if next == b':'
        then (do
          let rest = token (drop 2 p) b':'
          port ← port_or no_port rest.1
          after_source (record r { src_port = port }) rest.0)
        else after_source r (some p)

  unfoldable pub parse_ip_v6_spec : Bytes → Result (Bytes × Option TargetTestServer)
  unfolding source_part configuration token
  parse_ip_v6_spec spec = do r ← source_part (token spec b']'); ok (configuration r)

  -- `spec[0] == '['` chooses the parser.
  unfoldable pub tcp_ip_create_target_test_server : Bytes → Result (Bytes × Option TargetTestServer)
  unfolding parse_ip_v4_spec parse_ip_v6_spec
  tcp_ip_create_target_test_server [] = parse_ip_v4_spec []
  tcp_ip_create_target_test_server (c ∷ s) =
      if c == b'[' then parse_ip_v6_spec (c ∷ s) else parse_ip_v4_spec (c ∷ s)
