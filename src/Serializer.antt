-- ===== src/Serializer.antt =====
-- src/lib/conversation_serializer.cc: the text of recorded conversations. The writer, and the
-- places in an action that stand for a value.
pub mod Places
pub mod Data
pub mod Reader
use packet_replay.Base.{
  ℕ, zero, suc, ◌+◌, ◌-◌, Bool, true, false, not, ◌&&◌, ◌||◌, List, [], ◌∷◌, ◌++◌, Option, none,
  some, Bytes, Result, ok, err, runtime_error, diverges, ◌>>=◌, length, take, drop, reverse, leb,
  bytes_eq, codes, replicate, ◌==◌, if◌then◌else◌,
}
use packet_replay.Base.Int.{ℤ, pos}
use packet_replay.Memory.{load16, ntohs, read_bytes}
use packet_replay.Util.{isspace}
use packet_replay.Util.Number.{to_string}
use packet_replay.Layers.{af_inet, af_inet6}
use packet_replay.Layers.Inet.{Inet}
use packet_replay.Conversation.{PacketConversation}
use packet_replay.Properties.{write}
use packet_replay.Util.Search.{find_from}
use packet_replay.Action.{Action, ActionType, SubToken, connect, send, recv, close}

-- `action_type_to_string`
abbrev pub action_type_to_string : ActionType → Bytes
action_type_to_string connect = codes "CONNECT"
action_type_to_string send = codes "SEND"
action_type_to_string recv = codes "RECV"
action_type_to_string close = codes "CLOSE"

-- `string_to_action_type`
unfoldable pub string_to_action_type : Bytes → Result ActionType
string_to_action_type s =
    if bytes_eq s (codes "CONNECT")
    then ok connect
    else if bytes_eq s (codes "SEND")
    then ok send
    else if bytes_eq s (codes "RECV")
    then ok recv
    else if bytes_eq s (codes "CLOSE")
    then ok close
    else err runtime_error

abbrev pub sub_prefix : Bytes
sub_prefix = codes "${"

abbrev pub sub_suffix : Bytes
sub_suffix = codes "}"

-- The loop of `create_action` from an index. A round goes on behind what it has found.
unfoldable pub create_loop : ℕ → Bytes → ℕ → Result (List SubToken)
unfolding find_from
create_loop zero view start = err diverges
create_loop (suc fuel) view start = elim (find_from sub_prefix view start) [
  | none ↦ ok []
  | some s ↦ elim (find_from sub_suffix view (s + 2)) [
    | none ↦ ok []
    | some e ↦ (do
      later ← create_loop fuel view (e + 1)
      ok (
          record { token = take e (drop (s + 2) view); begin_idx = pos s; end_idx = pos (e + 1) }
          ∷ later))
  ]
]

-- `create_action`
unfoldable pub create_action : ActionType → Bytes → Result Action
unfolding create_loop
create_action t bytes = do
  tokens ← create_loop (suc (length bytes)) bytes 0
  ok (record { type = t; bytes = bytes; sub_tokens = tokens })

-- `isprint` in the "C" locale.
abbrev isprint : ℕ → Bool
isprint c = leb 32 c && leb c 126

unfoldable pub some_binary : Bytes → Bool
unfolding isspace
some_binary [] = false
some_binary (c ∷ s) = (not (isprint c) && not (isspace c)) || some_binary s

-- The test of `write_action` for data that is not text: `i > data_size - 50` compares without a
-- sign, so of data of less than 50 bytes nothing is looked at, and otherwise the last 49 bytes.
unfoldable pub is_binary : Bytes → Bool
unfolding some_binary
is_binary bytes = if leb 50 (length bytes) then some_binary (take 49 (reverse bytes)) else false

abbrev pub data_start_tag : Bytes
data_start_tag = codes "<#DATA_START#>"

abbrev pub data_end_tag : Bytes
data_end_tag = codes "<#DATA_END#>"

-- `write_action`, given the function `to_base64` of the base64 library.
unfoldable pub write_action : (Bytes → Bytes) → Action → Bytes
unfolding is_binary write
write_action to_base64 a =
    action_type_to_string a.type
    ++ b'\n'
      ∷ ((if is_binary a.bytes
            then write ((codes "Encoding", codes "BASE64") ∷ [])
              ++ (data_start_tag ++ b'\n' ∷ to_base64 a.bytes)
            else data_start_tag ++ b'\n' ∷ a.bytes)
          ++ (data_end_tag ++ b'\n' ∷ []))

-- What `write_headers` reads from the socket address: its port, and its address as a text.
unfoldable pub port_and_address : Inet → PacketConversation → Result (ℕ × Bytes)
port_and_address net c =
    if c.addr_family == af_inet
    then (do
      port ← load16 c.test_sock_addr 2
      a ← read_bytes (drop 4 c.test_sock_addr) 4
      ok (ntohs port, net.ntop4 a))
    else if c.addr_family == af_inet6
    then (do
      port ← load16 c.test_sock_addr 2
      a ← read_bytes (drop 8 c.test_sock_addr) 16
      ok (ntohs port, net.ntop6 a))
    else err runtime_error

-- `write_headers`. Of the port and the address only the port is put. The map has no order that is
-- documented: an argument puts the entries in one.
unfoldable pub write_headers :
    Inet → (List (Bytes × Bytes) → List (Bytes × Bytes)) → Bytes → PacketConversation → Result Bytes
unfolding port_and_address write
write_headers net order protocol c = do
  (port, address) ← port_and_address net c
  ok (write (order ((codes "Protocol", protocol) ∷ (codes "TestPort", to_string port) ∷ [])))

-- The separator, between empty lines, in front of each action.
unfoldable pub write_actions : (Bytes → Bytes) → List Action → Bytes
unfolding write_action
write_actions to_base64 [] = []
write_actions to_base64 (a ∷ queue) =
    b'\n'
    ∷ (replicate 30 b'#'
        ++ b'\n' ∷ b'\n' ∷ (write_action to_base64 a ++ write_actions to_base64 queue))

-- `write`
unfoldable pub write_conversation :
    Inet
    → (Bytes → Bytes)
    → (List (Bytes × Bytes) → List (Bytes × Bytes))
    → Bytes
    → PacketConversation
    → Result Bytes
unfolding write_headers write_actions
write_conversation net to_base64 order protocol c = do
  headers ← write_headers net order protocol c
  ok (headers ++ write_actions to_base64 c.action_queue)
