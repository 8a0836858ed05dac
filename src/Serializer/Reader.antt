-- ===== src/Serializer/Reader.antt =====
-- src/lib/conversation_serializer.cc: the reader of recorded conversations. The base64 library and
-- `getaddrinfo` are arguments.
pub mod Lines
pub mod RoundTrip
pub mod Script
pub mod NoAddress
pub mod NoData
pub mod Total
pub mod Terminates
use packet_replay.Base.{
  ℕ, zero, suc, Bool, true, false, ◌∷◌, [], Option, none, some, Bytes, Result, ok, err, fault,
  runtime_error, diverges, guard, ◌>>◌, ◌>>=◌, length, bytes_eq, codes, ◌==◌, if◌then◌else◌,
}
use packet_replay.Stream.{Stream, read_line, is_nil}
use packet_replay.Util.{isspace, trim, trim_left}
use packet_replay.Layers.{ip_spec, af_inet}
use packet_replay.Layers.Inet.{Inet}
use packet_replay.Conversation.{PacketConversation, action_push}
use packet_replay.Tcp
use packet_replay.Tcp.{TcpConversation}
use packet_replay.Udp
use packet_replay.Properties.{Properties, empty_properties, put_line, has, get, get_as_int}
use packet_replay.Action.{Action, ActionType}
use packet_replay.Serializer.{string_to_action_type, create_action, data_start_tag}
use packet_replay.Serializer.Data.{read_action_data}

-- `is_comment`: the first byte that is no blank is '#'.
unfoldable pub is_comment : Bytes → Bool
unfolding isspace
is_comment [] = false
is_comment (c ∷ line) = let rest = is_comment line in if isspace c then rest else c == b'#'

-- `getline`: the next line that is no comment. Each takes a byte at least, or is the last.
unfoldable pub next_line : ℕ → Stream → Result (Option Bytes × Stream)
next_line zero s = err diverges
next_line (suc fuel) s =
    let (found, t) = read_line s in
    elim found [
      | none ↦ ok (none, t)
      | some line ↦
          (let rest = next_line fuel t in if is_comment line then rest else ok (some line, t))
    ]

abbrev pub get_line : Stream → Result (Option Bytes × Stream)
get_line s = next_line (suc (suc (length s.left))) s

-- The first loop of a round of `read_actions`: blank lines, up to one with the type of an action.
unfoldable pub find_type : ℕ → Stream → Result (Option ActionType × Stream)
unfolding next_line trim string_to_action_type
find_type zero s = err diverges
find_type (suc fuel) s = do
  (found, t) ← get_line s
  elim found [
    | none ↦ ok (none, t)
    | some line ↦
        (let rest = find_type fuel t in
          if is_nil (trim line)
          then rest
          else (do type ← string_to_action_type (trim line); ok (some type, t)))
  ]

-- The second loop: lines with properties, up to the tag before the data.
unfoldable pub read_props : ℕ → Bool → Properties → Stream → Result (Properties × (Bytes × Stream))
unfolding next_line trim put_line
read_props zero overlap_copies p s = err diverges
read_props (suc fuel) overlap_copies p s = do
  (found, t) ← get_line s
  elim found [
    | none ↦ ok (p, ([], t))
    | some line ↦
        (let more = read_props fuel overlap_copies p t in
          let rest = read_props fuel overlap_copies (put_line p (trim line)).0 t in
          if is_nil (trim line)
          then more
          else if bytes_eq (trim line) data_start_tag
          then (do r ← read_action_data overlap_copies t; ok (p, r))
          else rest)
  ]

-- Data that is said to be in base 64.
unfoldable pub decode : (Bytes → Result Bytes) → Properties → Bytes → Result Bytes
unfolding has get
decode from_base64 p bytes =
    if has p (codes "Encoding")
    then (do
      e ← get p (codes "Encoding")
      if bytes_eq e (codes "BASE64") then from_base64 bytes else ok bytes)
    else ok bytes

-- What a round of `read_actions` adds to the queue, if it has found an action.
unfoldable pub read_action :
    Bool → (Bytes → Result Bytes) → Stream → Result (Option Action × Stream)
read_action overlap_copies from_base64 s = do
  (found, t) ← find_type (suc (suc (length s.left))) s
  (p, (bytes, u)) ← read_props (suc (suc (length t.left))) overlap_copies empty_properties t
  elim found [
    | none ↦ ok (none, u)
    | some type ↦ (do d ← decode from_base64 p bytes; a ← create_action type d; ok (some a, u))
  ]

abbrev pub pushed : PacketConversation → Option Action → PacketConversation
pushed c none = c
pushed c (some a) = action_push c a

-- `read_actions`. A round that does not meet the end of the stream takes a byte at least.
unfoldable pub read_actions :
    ℕ → Bool → (Bytes → Result Bytes) → Stream → PacketConversation → Result PacketConversation
read_actions zero overlap_copies from_base64 s c = if s.eof then ok c else err diverges
read_actions (suc fuel) overlap_copies from_base64 s c = elim s.eof [
  | true ↦ ok c
  | false ↦ (do
    (a, t) ← read_action overlap_copies from_base64 s
    read_actions fuel overlap_copies from_base64 t (pushed c a))
]

-- The loop of `read` over the header lines, up to a blank one; it takes the blanks off the left.
unfoldable pub read_headers : ℕ → Properties → Stream → Result (Properties × Stream)
read_headers zero p s = err diverges
read_headers (suc fuel) p s = do
  (found, t) ← get_line s
  elim found [
    | none ↦ ok (p, t)
    | some line ↦
        (let rest = read_headers fuel (put_line p (trim_left line)).0 t in
          if is_nil (trim_left line) then ok (p, t) else rest)
  ]

-- The conversation that the headers ask for. `family_of` is what `getaddrinfo` says of a numeric
-- address, if it is one. For a protocol that is not known there is
-- none.
unfoldable pub new_for : Inet → (Bytes → Option ℕ) → Properties → Result (Option TcpConversation)
unfolding get get_as_int
new_for net family_of headers = do
  address ← get headers (codes "TestAddress")
  elim (family_of address) [
    | none ↦ err runtime_error
    | some family ↦ (do
      guard (family == af_inet) runtime_error
      protocol ← get headers (codes "Protocol")
      if bytes_eq protocol Tcp.prot_name
          then (do
            port ← get_as_int headers (codes "TestPort")
            c ←
                Tcp.new_test_conversation net ip_spec
                  (record { test_addr = address; test_port = port })
            ok (some c))
          else if bytes_eq protocol Udp.prot_name
          then err runtime_error
          else ok none)
  ]

-- `read`. Without a conversation a null pointer is followed.
unfoldable pub read_conversation :
    Inet → (Bytes → Option ℕ) → (Bytes → Result Bytes) → Bool → Stream → Result TcpConversation
read_conversation net family_of from_base64 overlap_copies s = do
  (headers, t) ← read_headers (suc (suc (length s.left))) empty_properties s
  found ← new_for net family_of headers
  elim found [
    | none ↦ err fault
    | some c ↦ (do
      b ← read_actions (suc (length t.left)) overlap_copies from_base64 t c.base
      ok (record c { base = b }))
  ]
