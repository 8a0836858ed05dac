-- ===== src/CommandLine.antt =====
-- The command lines of src/http_replay/http_replay.cc and src/udp_replay/udp_replay.cc. `getopt` is a
-- parameter: the options that it gives one after another, and the operands that are left.
use packet_replay.Base.{List, [], ◌∷◌, Option, none, some, Bytes, Result, ok, err, fault, diverges}
use packet_replay.Base.Int.{ℤ, negsuc}

-- `-c`, `-k`, and what `getopt` returns for an option that it does not know.
pub data CommandOption : Type 0 where
  client_spec : Bytes → CommandOption
  validator_spec : Bytes → CommandOption
  unknown : CommandOption

-- The code for an exception, and after the usage.
abbrev pub failure : ℤ
failure = negsuc 0

-- The `catch` of `main`, which takes every exception; undefined behaviour is none.
abbrev pub exit_code : Result ℤ → Result ℤ
exit_code (ok n) = ok n
exit_code (err fault) = err fault
exit_code (err diverges) = err diverges
exit_code (err _) = ok failure

-- The only operand.
abbrev pub operand : List Bytes → Option Bytes
operand (file ∷ []) = some file
operand _ = none
