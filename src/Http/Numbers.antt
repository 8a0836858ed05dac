-- ===== src/Http/Numbers.antt =====
-- `strtoul` with base 16, which reads the size of a chunk.
pub mod Hex
use packet_replay.Base.{
  ℕ, ◌+◌, ◌-◌, ◌*◌, ◌%◌, ◌^◌, Bool, true, false, ◌&&◌, ◌||◌, [], ◌∷◌, Bytes, leb, ltb, ◌==◌,
  if◌then◌else◌, length, drop,
}
use packet_replay.Util.{isspace, trim_left, split_at}

unfoldable pub is_hex : ℕ → Bool
is_hex c = (leb b'0' c && leb c b'9') || ((leb b'a' c && leb c b'f') || (leb b'A' c && leb c b'F'))

unfoldable pub hex_of : ℕ → ℕ
hex_of c = if leb c b'9' then c - b'0' else if leb b'a' c then c - b'a' + 10 else c - b'A' + 10

unfoldable pub leading_hex : Bytes → Bytes
unfolding is_hex
leading_hex [] = []
leading_hex (c ∷ s) = let rest = leading_hex s in if is_hex c then c ∷ rest else []

unfoldable pub hex_value : ℕ → Bytes → ℕ
unfolding hex_of
hex_value acc [] = acc
hex_value acc (c ∷ s) = hex_value (16 * acc + hex_of c) s

-- A prefix "0x" counts if a digit follows it.
unfoldable pub has_prefix : Bytes → Bool
unfolding is_hex
has_prefix (a ∷ b ∷ c ∷ s) = a == b'0' && ((b == b'x' || b == b'X') && is_hex c)
has_prefix _ = false

abbrev pub ulong_max : ℕ
ulong_max = 2 ^ 64 - 1

-- The value and the bytes used, which are none if there is no digit; a value that is too large is
-- `ULONG_MAX`.
unfoldable pub digits_read : ℕ → Bytes → ℕ × ℕ
unfolding hex_value
digits_read skipped [] = (0, 0)
digits_read skipped (c ∷ ds) = (
  if leb (hex_value 0 (c ∷ ds)) ulong_max then hex_value 0 (c ∷ ds) else ulong_max,
  skipped + length (c ∷ ds),
)

unfoldable pub unsigned_read : ℕ → Bytes → ℕ × ℕ
unfolding digits_read has_prefix leading_hex
unsigned_read skipped s =
    if has_prefix s
    then digits_read (skipped + 2) (leading_hex (drop 2 s))
    else digits_read skipped (leading_hex s)

-- A minus sign negates in unsigned arithmetic, except `ULONG_MAX` for a value that is too large.
abbrev negated : ℕ × ℕ → ℕ × ℕ
negated (v, n) = (if v == ulong_max then v else (2 ^ 64 - v) % 2 ^ 64, n)

unfoldable pub signed_read : ℕ → Bytes → ℕ × ℕ
unfolding unsigned_read
signed_read skipped [] = (0, 0)
signed_read skipped (c ∷ s) =
    if c == b'-'
    then negated (unsigned_read (skipped + 1) s)
    else if c == b'+'
    then unsigned_read (skipped + 1) s
    else unsigned_read skipped (c ∷ s)

unfoldable pub strtoul16 : Bytes → ℕ × ℕ
unfolding signed_read trim_left
strtoul16 s = signed_read (length s - length (trim_left s)) (trim_left s)
