-- ===== src/Layers/Total.antt =====
-- src/include/network_layers.h: the socket address of an IPv4 address does not run out of fuel.
use packet_replay.Base.{ℕ, zero, suc, [], ◌∷◌, Option, none, some, Bytes}
use packet_replay.Memory.{read_bytes, write_bytes, bytes16}
use packet_replay.Stream.Bounds.{Ends, Ends-bind}
use packet_replay.Layers.{ip_spec, af_inet}
use packet_replay.Layers.Inet.{Inet, converted, get_addr_from_string, get_sock_addr}

read_bytes-Ends : (p : Bytes) (n : ℕ) → Ends (λ _. Unit) (read_bytes p n)
unfolding read_bytes
read_bytes-Ends p zero = tt
read_bytes-Ends [] (suc n) = cc
read_bytes-Ends (b ∷ p) (suc n) =
    Ends-bind (λ _. Unit) (λ _. Unit) (read_bytes p n) _ (read_bytes-Ends p n) (λ _ _. tt)

write_bytes-Ends : (buf : Bytes) (i : ℕ) (bs : Bytes) → Ends (λ _. Unit) (write_bytes buf i bs)
unfolding write_bytes
write_bytes-Ends buf zero [] = tt
write_bytes-Ends [] zero (b ∷ bs) = cc
write_bytes-Ends (c ∷ buf) zero (b ∷ bs) =
    Ends-bind (λ _. Unit) (λ _. Unit) (write_bytes buf zero bs) _ (write_bytes-Ends buf zero bs)
      (λ _ _. tt)
write_bytes-Ends [] (suc i) bs = cc
write_bytes-Ends (c ∷ buf) (suc i) bs =
    Ends-bind (λ _. Unit) (λ _. Unit) (write_bytes buf i bs) _ (write_bytes-Ends buf i bs)
      (λ _ _. tt)

pub get_sock_addr-Ends :
    (addr : Bytes) (port : ℕ) (buf : Bytes) → Ends (λ _. Unit) (get_sock_addr ip_spec addr port buf)
unfolding get_sock_addr
get_sock_addr-Ends addr port buf =
    Ends-bind (λ _. Unit) (λ _. Unit) (write_bytes buf 0 (bytes16 af_inet)) _
      (write_bytes-Ends buf 0 (bytes16 af_inet))
      (λ b _.
        Ends-bind (λ _. Unit) (λ _. Unit) (read_bytes addr 4) _ (read_bytes-Ends addr 4)
          (λ a _.
            Ends-bind (λ _. Unit) (λ _. Unit) (write_bytes b 4 a) _ (write_bytes-Ends b 4 a)
              (λ d _. write_bytes-Ends d 2 (bytes16 port))))

converted-Ends :
    (net : Inet) (o : Option Bytes) (buf : Bytes) → Ends (λ _. Unit) (converted net o buf)
converted-Ends net none buf = tt
converted-Ends net (some a) buf =
    Ends-bind (λ _. Unit) (λ _. Unit) (write_bytes buf 0 a) _ (write_bytes-Ends buf 0 a) (λ _ _. tt)

pub get_addr_from_string-Ends :
    (net : Inet) (s buf : Bytes) → Ends (λ _. Unit) (get_addr_from_string net ip_spec s buf)
unfolding get_addr_from_string
get_addr_from_string-Ends net s buf = converted-Ends net (net.pton4 s) buf
