-- ===== src/UdpReplay/Program.antt =====
-- src/udp_replay/udp_replay.cc: `main`, from the command line to the exit code. What the validator of
-- a specification answers is an argument.
use packet_replay.Base.{
  ℕ, ◌≡◌, ◌≢◌, refl, true, List, [], ◌∷◌, Option, none, some, Bytes, Result, ok, err, fault,
  runtime_error, invalid_argument, out_of_range, bad_alloc, diverges, ◌>>=◌,
}
use packet_replay.Base.Int.{ℤ, pos}
use packet_replay.Layers.Inet.{Inet}
use packet_replay.Network.{Network}
use packet_replay.Udp.{UdpConversation}
use packet_replay.Store.{ConversationStore, empty_store, add_target_test_server, get_conversations}
use packet_replay.Store.Instances.{udp_conversation_factory}
use packet_replay.Capture.{CaptureFile, load}
use packet_replay.CommandLine.{
  CommandOption, client_spec, validator_spec, unknown, failure, exit_code, operand,
}
use packet_replay.UdpReplay.{Validate, replay_all, parse_validator}
use packet_replay.UdpReplay.Lifetime.{second_client_fails}
use packet_replay.Validator.{validate}

-- What the loop over the options sets.
pub record Configured : Type 0 where
  pub store : ConversationStore UdpConversation
  pub validator : Validate

-- At its start: no server, and the validator of the library.
abbrev pub unconfigured : Configured
unconfigured = record { store = empty_store; validator = validate }

module _ (inet : Inet) (new_validator : Bytes × Bytes → Result Validate) where
  -- The loop over the options. The last validator counts.
  unfoldable pub read_options : List CommandOption → Configured → Result (Option Configured)
  read_options [] c = ok (some c)
  read_options (client_spec spec ∷ options) c = do
    t ← add_target_test_server (udp_conversation_factory inet) c.store spec
    read_options options (record c { store = t })
  read_options (validator_spec spec ∷ options) c = do
    script ← parse_validator spec
    v ← new_validator script
    read_options options (record c { validator = v })
  read_options (unknown ∷ options) c = ok none

module _ {W : Type 0} (net : Network W) (inet : Inet) (capture_at : Bytes → CaptureFile) where
  -- The capture is loaded, and every conversation is replayed, with the one validator.
  unfoldable pub replay_file : Configured → Bytes → W → Result ℤ
  replay_file c file w = do
    t ← load (udp_conversation_factory inet) c.store (capture_at file)
    _ ← replay_all net c.validator true (get_conversations t) w
    ok (pos 0)

  -- `main`
  unfoldable pub main :
      (Bytes × Bytes → Result Validate) → List CommandOption → List Bytes → W → Result ℤ
  main new_validator options operands w = exit_code (do
    accepted ← read_options inet new_validator options unconfigured
    elim accepted [
      | none ↦ ok failure
      | some c ↦ elim (operand operands) [ none ↦ ok failure | some file ↦ replay_file c file w ]
    ])

  not_zero :
      (r : Result (ℕ × W))
      → ((x : ℕ × W) → r ≢ ok x)
      → exit_code (do _ ← r; ok (pos 0)) ≢ ok (pos 0)
  not_zero (ok x) n h = n x refl
  not_zero (err fault) n h = cc
  not_zero (err runtime_error) n h = cc
  not_zero (err invalid_argument) n h = cc
  not_zero (err out_of_range) n h = cc
  not_zero (err bad_alloc) n h = cc
  not_zero (err diverges) n h = cc

  -- When the options are accepted and the capture file that is the only operand has two UDP
  -- conversations or more to replay, `main` does not return 0, whatever the network and the validator
  -- do.
  pub two_conversations_fail :
      (new_validator : Bytes × Bytes → Result Validate) (options : List CommandOption)
      (c : Configured) (path : Bytes) (w : W) (t : ConversationStore UdpConversation)
      (a b : UdpConversation) (cs : List UdpConversation)
      → read_options inet new_validator options unconfigured ≡ ok (some c)
      → load (udp_conversation_factory inet) c.store (capture_at path) ≡ ok t
      → get_conversations t ≡ a ∷ b ∷ cs
      → main new_validator options (path ∷ []) w ≢ ok (pos 0)
  unfolding main replay_file
  two_conversations_fail new_validator options c path w t a b cs accepted loaded several =
      rw (main, accepted, replay_file, loaded, several)
        (not_zero (replay_all net c.validator true (a ∷ b ∷ cs) w)
          (second_client_fails net c.validator a b cs w))
