-- ===== src/Util.antt =====
-- src/lib/util.cc: string helpers. A `std::string` is a list of bytes, and a helper that changes
-- its argument in place and returns it returns the new string.
pub mod Tokens
pub mod Hex
pub mod Trim
pub mod Number
pub mod Search
use packet_replay.Base.{
  ℕ, zero, suc, ◌+◌, ◌-◌, ◌/◌, ◌%◌, Bool, true, false, not, ◌&&◌, ◌||◌, List, [], ◌∷◌, ◌++◌, map,
  reverse, Option, none, some, Bytes, Result, ok, ◌>>=◌, length, leb, ltb, ◌==◌, if◌then◌else◌,
}
use packet_replay.Base.Int.{ℤ, pos, negsuc}
use packet_replay.Memory.{Pointer, read_bytes}

-- `std::getline(stream, token, delimiter)`: the token and what is left of the stream, or nothing
-- when the stream is at its end. The delimiter is taken off the stream and kept nowhere.
unfoldable pub split_at : ℕ → Bytes → Bytes × Bytes
split_at d [] = ([], [])
split_at d (c ∷ s) = let (t, rest) = split_at d s in if c == d then ([], s) else (c ∷ t, rest)

unfoldable pub getline : ℕ → Bytes → Option (Bytes × Bytes)
unfolding split_at
getline d [] = none
getline d (c ∷ s) = some (split_at d (c ∷ s))

-- The loop of `tokenize`, on the bytes left. It reads up to ':' whatever the delimiter is.
pub tokenize_loop : ℕ → Bytes → List Bytes
tokenize_loop zero s = []
tokenize_loop (suc fuel) s = elim (getline b':' s) [
  | none ↦ []
  | some (t, rest) ↦ t ∷ tokenize_loop fuel rest
]

-- Each round takes at least one byte, so the length of the string bounds the rounds.
unfoldable pub tokenize : Bytes → ℕ → List Bytes
unfolding tokenize_loop getline
tokenize s delimiter = tokenize_loop (suc (length s)) s

unfoldable pub hex_digit : ℕ → ℕ
hex_digit d = if ltb d 10 then b'0' + d else b'a' + (d - 10)

-- `setw(2)` with fill '0' before a byte written in base 16.
unfoldable pub hex_byte : ℕ → Bytes
unfolding hex_digit
hex_byte b = hex_digit (b / 16) ∷ hex_digit (b % 16) ∷ []

unfoldable pub hex_string : Bytes → Bytes
unfolding hex_byte
hex_string [] = []
hex_string (b ∷ bs) = hex_byte b ++ hex_string bs

-- The loop `for (int i = 0; i < size; i++)` reads size bytes, and none if size is negative.
abbrev rounds : ℤ → ℕ
rounds (pos n) = n
rounds (negsuc n) = 0

unfoldable pub bytes_to_hex_string : Pointer → ℤ → Result Bytes
unfolding hex_string
bytes_to_hex_string p size = do bs ← read_bytes p (rounds size); ok (hex_string bs)

-- `isspace` in the "C" locale: space, \t, \n, \v, \f, \r.
unfoldable pub isspace : ℕ → Bool
isspace c = c == b' ' || (leb 9 c && leb c 13)

unfoldable pub trim_left : Bytes → Bytes
unfolding isspace
trim_left [] = []
trim_left (c ∷ s) = let rest = trim_left s in if isspace c then rest else c ∷ s

-- `find_if` from the back: erase the trailing blanks.
unfoldable pub trim_right : Bytes → Bytes
unfolding trim_left
trim_right s = reverse (trim_left (reverse s))

unfoldable pub trim : Bytes → Bytes
unfolding trim_right
trim s = trim_right (trim_left s)

-- `tolower` in the "C" locale.
unfoldable pub lower : ℕ → ℕ
lower c = if leb b'A' c && leb c b'Z' then c + 32 else c

unfoldable pub to_lower : Bytes → Bytes
unfolding lower
to_lower s = map lower s

-- `token`: the text before the first delimiter with a pointer to that delimiter, or the whole text
-- with a null pointer.
unfoldable pub strchr : Bytes → ℕ → Option Pointer
strchr [] d = none
strchr (c ∷ s) d = let rest = strchr s d in if c == d then some (c ∷ s) else rest

unfoldable pub token : Bytes → ℕ → Option Pointer × Bytes
unfolding strchr split_at
token s d = elim (strchr s d) [ none ↦ (none, s) | some end ↦ (some end, (split_at d s).0) ]
