-- ===== src/Validator.antt =====
-- src/lib/packet_validator.cc: the comparison of the bytes expected with the bytes received. The
-- validator that calls a Python function is left out.
pub mod Compare
use packet_replay.Base.{
  ℕ, ◌+◌, ◌-◌, Bool, true, false, List, [], ◌∷◌, Bytes, Result, ok, err, fault, ◌>>=◌, drop, length,
  Ordering, compare_bytes, ltb, ◌==◌, if◌then◌else◌,
}
use packet_replay.Base.Int.{ℤ, pos, negsuc, sub_ℕ}
use packet_replay.Memory.{Pointer, read_range}
use packet_replay.Action.{SubToken}
use packet_replay.Conversation.{is_eq}
use packet_replay.Properties.{Properties, has, get}

-- Arithmetic of `int`.
abbrev neg : ℤ → ℤ
neg (pos n) = sub_ℕ 0 n
neg (negsuc n) = pos (n + 1)

abbrev pub add : ℤ → ℤ → ℤ
add (pos a) (pos b) = pos (a + b)
add (pos a) (negsuc b) = sub_ℕ a (b + 1)
add (negsuc a) (pos b) = sub_ℕ b (a + 1)
add (negsuc a) (negsuc b) = negsuc (a + b + 1)

abbrev pub minus : ℤ → ℤ → ℤ
minus a b = add a (neg b)

abbrev pub int_eq : ℤ → ℤ → Bool
int_eq (pos a) (pos b) = a == b
int_eq (negsuc a) (negsuc b) = a == b
int_eq _ _ = false

abbrev is_positive : ℤ → Bool
is_positive (pos n) = ltb 0 n
is_positive (negsuc n) = false

-- `p + i`; a pointer in front of its buffer is undefined.
abbrev pub offset : Pointer → ℤ → Result Pointer
offset p (pos n) = ok (drop n p)
offset p (negsuc n) = err fault

-- `memcmp(p, q, n) == 0`; a negative `int` becomes a huge size.
unfoldable pub same_bytes : Pointer → Pointer → ℤ → Result Bool
unfolding read_range compare_bytes
same_bytes p q n = do a ← read_range p n; b ← read_range q n; ok (is_eq (compare_bytes a b))

-- `PacketValidator::validate` without tokens.
unfoldable pub validate : Pointer → ℤ → Pointer → ℤ → Result Bool
unfolding same_bytes
validate expected expected_len actual actual_len =
    if int_eq expected_len actual_len then same_bytes expected actual expected_len else ok false

-- The end of `validate` with tokens: it compares what is left of `actual` with what lies behind
-- the end of `expected`.
unfoldable pub validate_end : Pointer → ℤ → Pointer → ℤ → ℤ → ℤ → Result Bool
unfolding same_bytes
validate_end expected expected_len actual actual_len actual_idx start_idx = do
  let remaining = minus actual_len actual_idx
  if int_eq remaining (minus expected_len start_idx)
      then (do
        a ← offset actual actual_idx
        e ← offset expected expected_len
        same_bytes a e remaining)
      else ok false

-- A token: the bytes of its value if the context has one, and its own bytes in `expected` if not.
-- Whether they are the same, and by how much `actual_idx` grows then.
token_size : Pointer → Pointer → ℤ → ℤ → SubToken → Properties → Result (Bool × ℤ)
unfolding same_bytes has get
token_size expected actual actual_idx start_idx t context =
    if has context t.token
    then (do
      value ← get context t.token
      at ← offset actual start_idx
      same ← same_bytes value at (pos (length value))
      ok (same, pos (length value)))
    else (do
      e ← offset expected start_idx
      a ← offset actual actual_idx
      same ← same_bytes e a (minus t.end_idx t.begin_idx)
      ok (same, minus t.end_idx t.begin_idx))

-- The bytes in front of a token; there may be none.
same_before : Pointer → Pointer → ℤ → ℤ → Result Bool
unfolding same_bytes
same_before expected actual start_idx len =
    if is_positive len
    then (do e ← offset expected start_idx; a ← offset actual start_idx; same_bytes e a len)
    else ok true

-- The loop over the tokens, with `actual_idx` and `start_idx`.
unfoldable pub validate_tokens :
    Pointer → ℤ → Pointer → ℤ → List SubToken → Properties → ℤ → ℤ → Result Bool
unfolding validate_end token_size same_before
validate_tokens expected expected_len actual actual_len [] context actual_idx start_idx =
    validate_end expected expected_len actual actual_len actual_idx start_idx
validate_tokens expected expected_len actual actual_len (t ∷ ts) context actual_idx start_idx = do
  before ← same_before expected actual start_idx (minus t.begin_idx start_idx)
  if before
      then (do
        (same, size) ← token_size expected actual actual_idx start_idx t context
        if same
            then validate_tokens expected expected_len actual actual_len ts context
                (add actual_idx size) t.end_idx
            else ok false)
      else ok false

-- `PacketValidator::validate` with tokens.
unfoldable pub validate_with_tokens :
    Pointer → ℤ → Pointer → ℤ → List SubToken → Properties → Result Bool
unfolding validate_tokens
validate_with_tokens expected expected_len actual actual_len ts context =
    validate_tokens expected expected_len actual actual_len ts context (pos 0) (pos 0)
