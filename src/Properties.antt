-- ===== src/Properties.antt =====
-- src/include/properties.h and src/lib/properties.cc: texts under keys, and the lines that hold
-- them. The member `delimiter_` is ":" and never changes. The map is unordered; it is kept sorted
-- here, and the order of an iteration over it is an argument of `write`.
pub mod Lines
pub mod Numbers
use packet_replay.Base.{
  ℕ, ◌-◌, ◌^◌, Bool, true, false, List, [], ◌∷◌, ◌++◌, Option, none, some, Bytes, Result, ok, err,
  invalid_argument, out_of_range, required, ◌>>=◌, ltb, leb, ◌==◌, if◌then◌else◌, drop,
}
use packet_replay.Base.Int.{ℤ, pos, negsuc}
use packet_replay.Util.{trim, trim_left, strchr, split_at}
use packet_replay.Util.Number.{leading_digits, value}
use packet_replay.StringMap.{StringMap, lookup, insert, contains}

pub record Properties : Type 0 where
  pub entries : StringMap Bytes

abbrev pub empty_properties : Properties
empty_properties = record { entries = [] }

-- `put(key, value)`, in all its overloads.
unfoldable pub put : Properties → Bytes → Bytes → Properties
put p key value = record { entries = insert key value p.entries }

unfoldable pub has : Properties → Bytes → Bool
has p key = contains key p.entries

-- `data_.at(key)` throws `out_of_range` for a key that is not there.
unfoldable pub get : Properties → Bytes → Result Bytes
get p key = required (lookup key p.entries) out_of_range

-- -n as an `int`; `clear` of the map.
abbrev minus : ℕ → ℤ
minus n = if n == 0 then pos 0 else negsuc (n - 1)

abbrev clear : Properties → Properties
clear p = empty_properties

-- `std::stoi`: the digits after blanks and a sign, if they are in the range of `int`.
stoi_digits : Bool → Bytes → Result ℤ
unfolding value
stoi_digits negative [] = err invalid_argument
stoi_digits true (c ∷ s) =
    if leb (value 0 (c ∷ s)) (2 ^ 31) then ok (minus (value 0 (c ∷ s))) else err out_of_range
stoi_digits false (c ∷ s) =
    if ltb (value 0 (c ∷ s)) (2 ^ 31) then ok (pos (value 0 (c ∷ s))) else err out_of_range

stoi_sign : Bytes → Result ℤ
unfolding stoi_digits leading_digits
stoi_sign [] = err invalid_argument
stoi_sign (c ∷ s) =
    if c == b'-'
    then stoi_digits true (leading_digits s)
    else if c == b'+'
    then stoi_digits false (leading_digits s)
    else stoi_digits false (leading_digits (c ∷ s))

unfoldable pub stoi : Bytes → Result ℤ
unfolding stoi_sign trim_left
stoi s = stoi_sign (trim_left s)

unfoldable pub get_as_int : Properties → Bytes → Result ℤ
unfolding get stoi
get_as_int p key = do s ← get p key; stoi s

-- `put(line)`: false, and no change, without a ':'.
unfoldable pub put_line : Properties → Bytes → Properties × Bool
unfolding strchr trim put
put_line p line = elim (strchr line b':') [
  | none ↦ (p, false)
  | some from ↦ (put p (trim (split_at b':' line).0) (trim (drop 1 from)), true)
]

-- One entry, as `write` puts it on a line; `std::endl` ends the line.
abbrev pub line_of : Bytes × Bytes → Bytes
line_of (key, value) = key ++ b':' ∷ b' ' ∷ value

-- `write`, with the entries in the order of the iteration.
unfoldable pub write : List (Bytes × Bytes) → Bytes
write [] = []
write (e ∷ es) = line_of e ++ b'\n' ∷ write es
