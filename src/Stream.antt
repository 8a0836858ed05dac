-- ===== src/Stream.antt =====
-- `std::istream` on a text that is there from the start, as src/lib/conversation_serializer.cc reads
-- it: what is left, and the bits `eofbit` and `failbit`. A read from a stream that is not good sets
-- `failbit` and takes nothing.
pub mod Bounds
use packet_replay.Base.{
  ℕ, zero, suc, Bool, true, false, ◌||◌, [], ◌∷◌, Option, none, some, Bytes, ◌==◌, length, ltb,
  if◌then◌else◌,
}

pub record Stream : Type 0 where
  pub left : Bytes
  pub eof : Bool
  pub failed : Bool

abbrev pub stream_of : Bytes → Stream
stream_of s = record { left = s; eof = false; failed = false }

abbrev pub is_bad : Stream → Bool
is_bad s = s.eof || s.failed

-- The bytes up to a line feed, and what is behind it, if there is one.
unfoldable pub cut_line : Bytes → Bytes × Option Bytes
cut_line [] = ([], none)
cut_line (c ∷ s) =
    let (line, rest) = cut_line s in if c == b'\n' then ([], some s) else (c ∷ line, rest)

-- The line of a stream that is not at its end. A last line without a line feed sets `eofbit`.
abbrev pub line_at : Bytes × Option Bytes → Option Bytes × Stream
line_at (line, none) = (some line, record { left = []; eof = true; failed = false })
line_at (line, some rest) = (some line, stream_of rest)

abbrev pub good_line : Bytes → Option Bytes × Stream
good_line [] = (none, record { left = []; eof = true; failed = true })
good_line (c ∷ s) = line_at (cut_line (c ∷ s))

-- `std::getline(input, line)`: nothing when the stream has failed after it.
unfoldable pub read_line : Stream → Option Bytes × Stream
unfolding cut_line
read_line s = if is_bad s then (none, record s { failed = true }) else good_line s.left

abbrev pub good_peek : Bytes → Option ℕ × Stream
good_peek [] = (none, record { left = []; eof = true; failed = false })
good_peek (c ∷ s) = (some c, stream_of (c ∷ s))

-- `input.peek()`
unfoldable pub peek : Stream → Option ℕ × Stream
peek s = if is_bad s then (none, record s { failed = true }) else good_peek s.left

abbrev pub good_get : Bytes → Option ℕ × Stream
good_get [] = (none, record { left = []; eof = true; failed = true })
good_get (c ∷ s) = (some c, stream_of s)

-- `input.get()`
unfoldable pub get_byte : Stream → Option ℕ × Stream
get_byte s = if is_bad s then (none, record s { failed = true }) else good_get s.left

-- At most so many bytes, up to a delimiter, which stays.
unfoldable pub cut_at : ℕ → ℕ → Bytes → Bytes × Bytes
cut_at d zero s = ([], s)
cut_at d (suc n) [] = ([], [])
cut_at d (suc n) (c ∷ s) =
    let (t, rest) = cut_at d n s in if c == d then ([], c ∷ s) else (c ∷ t, rest)

abbrev pub is_nil : Bytes → Bool
is_nil [] = true
is_nil (c ∷ s) = false

-- The end of the stream is met when fewer bytes than asked for are there and none is left.
abbrev after_get : ℕ → Bytes × Bytes → Bytes × Stream
after_get n (t, rest) = (
  t,
  record { left = rest; eof = if ltb (length t) n then is_nil rest else false; failed = is_nil t },
)

-- `input.get(buf, n + 1, d)`, with the bytes that `gcount` counts.
unfoldable pub get_until : ℕ → ℕ → Stream → Bytes × Stream
unfolding cut_at
get_until d n s =
    if is_bad s then ([], record s { failed = true }) else after_get n (cut_at d n s.left)
