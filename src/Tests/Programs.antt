-- ===== src/Tests/Programs.antt =====
-- The program on the sample capture file.
use packet_replay.Base.{◌>>=◌}
use packet_replay.HttpReplay.Program
