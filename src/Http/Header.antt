-- ===== src/Http/Header.antt =====
-- src/http_replay/http_response_processor.cc: `parseHeader`, on the bytes before the empty line.
pub mod Fields
use packet_replay.Base.{
  ℕ, zero, suc, List, [], ◌∷◌, Option, none, some, Bytes, Result, ok, ◌>>=◌, length,
}
use packet_replay.Base.Int.{ℤ, to_int}
use packet_replay.Util.{split_at, getline, trim, to_lower}
use packet_replay.Util.Number.{stoul}
use packet_replay.StringMap.{StringMap, insert}

-- What `parseHeader` sets: `status_code_` and `headers_`.
pub record Head : Type 0 where
  pub status_code : ℤ
  pub headers : StringMap Bytes

-- The second word of the status line, if there are two.
unfoldable pub second_word : Bytes → Option Bytes
unfolding getline
second_word line = elim (getline b' ' line) [
  | none ↦ none
  | some (first, rest) ↦ elim (getline b' ' rest) [ none ↦ none | some (w, more) ↦ some w ]
]

-- A status line with one word leaves the status as it was.
unfoldable pub parse_status : ℤ → Bytes → Result ℤ
unfolding second_word
parse_status status line = elim (second_word line) [
  | none ↦ ok status
  | some w ↦ (do n ← stoul w; ok (to_int n))
]

-- One line: the key up to ':', the value from there up to '\r'. `std::getline` gives an empty text
-- where the line is at its end.
unfoldable pub put_field : StringMap Bytes → Bytes → StringMap Bytes
unfolding split_at
put_field headers line =
    let (key, rest) = split_at b':' line in
    insert (to_lower (trim key)) (trim (split_at 13 rest).0) headers

-- The lines after the first; each takes a byte at least.
unfoldable pub parse_fields : ℕ → StringMap Bytes → Bytes → StringMap Bytes
unfolding put_field
parse_fields zero headers s = headers
parse_fields (suc fuel) headers s = elim (getline b'\n' s) [
  | none ↦ headers
  | some (line, rest) ↦ parse_fields fuel (put_field headers line) rest
]

unfoldable pub parse_header : Head → Bytes → Result Head
unfolding parse_status parse_fields
parse_header h s = elim (getline b'\n' s) [
  | none ↦ ok h
  | some (line, rest) ↦ (do
    status ← parse_status h.status_code line
    ok record { status_code = status; headers = parse_fields (length rest) h.headers rest })
]
