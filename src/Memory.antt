-- ===== src/Memory.antt =====
-- Pointers into packet data (`const uint8_t*`), and the byte order of 16-bit words.
-- A pointer is the rest of its buffer from where it points, so `p + n` is `drop n p`, which stops
-- at the end of the buffer. A read or a write past the end is undefined behaviour, and is a `fault`.
pub mod Laws
use packet_replay.Base.{
  ℕ, zero, suc, ◌+◌, ◌*◌, ◌/◌, ◌%◌, List, [], ◌∷◌, Bytes, Result, ok, err, fault, ◌>>=◌, drop,
  get_elem?, required, Ordering, compare_bytes,
}
use packet_replay.Base.Int.{ℤ, pos, negsuc}

abbrev pub Pointer : Type 0
Pointer = Bytes

-- p[i]
unfoldable pub load8 : Pointer → ℕ → Result ℕ
load8 p i = required (get_elem? p i) fault

-- A `uint16_t` that a little-endian host reads at `p + i`.
unfoldable pub load16 : Pointer → ℕ → Result ℕ
unfolding load8
load16 p i = do lo ← load8 p i; hi ← load8 p (suc i); ok (lo + 256 * hi)

-- `ntohs` and `htons` of a little-endian host: both take the low 16 bits and swap the two bytes.
unfoldable pub ntohs : ℕ → ℕ
ntohs w = w % 256 * 256 + w / 256 % 256

-- The n bytes at `p`, as `memcpy` and an insertion of the range `p`, `p + n` read them.
unfoldable pub read_bytes : Pointer → ℕ → Result Bytes
read_bytes p zero = ok []
read_bytes [] (suc n) = err fault
read_bytes (b ∷ p) (suc n) = do bs ← read_bytes p n; ok (b ∷ bs)

-- The same with a length of type `int`. A range that ends before it begins is undefined.
unfoldable pub read_range : Pointer → ℤ → Result Bytes
unfolding read_bytes
read_range p (pos n) = read_bytes p n
read_range p (negsuc n) = err fault

-- `memcmp` reads all n bytes of both sides.
unfoldable pub memcmp : Pointer → Pointer → ℕ → Result Ordering
unfolding read_bytes compare_bytes
memcmp p q n = do a ← read_bytes p n; b ← read_bytes q n; ok (compare_bytes a b)

-- The bytes of a `uint16_t` in the memory of a little-endian host; a wider value loses its top.
abbrev pub bytes16 : ℕ → Bytes
bytes16 w = (w % 256) ∷ (w / 256 % 256) ∷ []

-- `memcpy(buf + i, bs, ...)` into a buffer that is given whole.
unfoldable pub write_bytes : Bytes → ℕ → Bytes → Result Bytes
write_bytes buf zero [] = ok buf
write_bytes [] zero (b ∷ bs) = err fault
write_bytes (c ∷ buf) zero (b ∷ bs) = do r ← write_bytes buf zero bs; ok (b ∷ r)
write_bytes [] (suc i) bs = err fault
write_bytes (c ∷ buf) (suc i) bs = do r ← write_bytes buf i bs; ok (c ∷ r)
