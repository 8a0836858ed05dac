-- ===== src/Network.antt =====
-- The system calls of the replay clients, src/http_replay/http_replay.cc and
-- src/udp_replay/udp_replay.cc: operations on the state W of the system and of all that is behind it.
use packet_replay.Base.{ℕ, Bytes, Option}
use packet_replay.Base.Int.{ℤ}

-- SOCK_STREAM and SOCK_DGRAM.
pub data SocketType : Type 0 where
  stream dgram : SocketType

-- What a call returns stands beside the new state: a number, which is negative if the call failed, or
-- the bytes put into the buffer, of which there are as many as the call says, or nothing if it failed.
pub record Network (W : Type 0) : Type 0 where
  -- socket(family, type, 0)
  pub socket : ℕ → SocketType → W → W × ℤ
  -- connect(socket, address, size)
  pub connect : ℤ → Bytes → ℕ → W → W × ℤ
  -- write(socket, data, size)
  pub write : ℤ → Bytes → W → W × ℤ
  -- read(socket, buffer, size)
  pub read : ℤ → ℕ → W → W × Option Bytes
  -- close(socket)
  pub close : ℤ → W → W
  -- sendto(socket, data, size, 0, address, address_size)
  pub sendto : ℤ → Bytes → Bytes → ℕ → W → W × ℤ
  -- recvfrom(socket, buffer, size, 0, nullptr, nullptr)
  pub recvfrom : ℤ → ℕ → W → W × Option Bytes
