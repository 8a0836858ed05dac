-- ===== src/HttpReplay/Program.antt =====
-- src/http_replay/http_replay.cc: `main`, from the command line to the exit code.
use packet_replay.Base.{ℕ, List, [], ◌∷◌, Option, none, some, Bytes, Result, ok, ◌>>=◌}
use packet_replay.Base.Int.{ℤ, pos}
use packet_replay.Layers.Inet.{Inet}
use packet_replay.Network.{Network}
use packet_replay.Tcp.{TcpConversation}
use packet_replay.Store.{ConversationStore, empty_store, add_target_test_server, get_conversations}
use packet_replay.Store.Instances.{tcp_conversation_factory}
use packet_replay.Capture.{CaptureFile, load}
use packet_replay.CommandLine.{CommandOption, client_spec, failure, exit_code, operand}
use packet_replay.HttpReplay.{replay_all}

-- The loop over the options: the store with their servers, or nothing when the usage is printed.
unfoldable pub read_options :
    Inet
    → List CommandOption
    → ConversationStore TcpConversation
    → Result (Option (ConversationStore TcpConversation))
read_options inet [] s = ok (some s)
read_options inet (client_spec spec ∷ options) s = do
  t ← add_target_test_server (tcp_conversation_factory inet) s spec
  read_options inet options t
read_options inet (_ ∷ options) s = ok none

module _ {W : Type 0} (net : Network W) (inet : Inet) (capture_at : Bytes → CaptureFile) where
  -- The capture is loaded, and every conversation is replayed.
  unfoldable pub replay_file : ℕ → ConversationStore TcpConversation → Bytes → W → Result ℤ
  replay_file fuel s file w = do
    t ← load (tcp_conversation_factory inet) s (capture_at file)
    _ ← replay_all net fuel (get_conversations t) w
    ok (pos 0)

  -- `main`
  unfoldable pub main : ℕ → List CommandOption → List Bytes → W → Result ℤ
  unfolding read_options
  main fuel options operands w = exit_code (do
    accepted ← read_options inet options empty_store
    elim accepted [
      | none ↦ ok failure
      | some s ↦ elim (operand operands) [
        | none ↦ ok failure
        | some file ↦ replay_file fuel s file w
      ]
    ])
