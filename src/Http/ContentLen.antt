-- ===== src/Http/ContentLen.antt =====
-- src/http_replay/http_response_processor.h: `ContentLenProcessor`, the body of a response whose
-- header gives its length.
pub mod Pieces
use packet_replay.Base.{
  ℕ, ◌+◌, Bool, true, false, [], ◌∷◌, Bytes, Result, ok, err, bad_alloc, out_of_range, ◌>>=◌,
  length, replicate, ◌==◌, if◌then◌else◌, Ordering, Option,
}
use packet_replay.Base.Int.{ℤ, pos, negsuc, sub_ℕ, to_int}
use packet_replay.Memory.{write_bytes, memcmp}
use packet_replay.Util.Number.{stoul}

-- The buffer is not initialised; nothing reads it before all of it is written.
pub record ContentLenProcessor : Type 0 where
  pub payload : Bytes
  pub payload_size : ℕ
  pub payload_read : ℕ

-- `new uint8_t[payload_size_]`, which refuses a negative size.
allocated : ℤ → Result ContentLenProcessor
allocated (negsuc n) = err bad_alloc
allocated (pos n) = ok record { payload = replicate n 0; payload_size = n; payload_read = 0 }

-- The constructor, given the value of the header. `payload_size_` is an `int`.
unfoldable pub new_content_len : Bytes → Result ContentLenProcessor
unfolding allocated
new_content_len value = do n ← stoul value; allocated (to_int n)

abbrev pub is_complete : ContentLenProcessor → Bool
is_complete c = c.payload_size == c.payload_read

-- `process`: the copy does not look at the size of the buffer.
unfoldable pub process : ContentLenProcessor → Bytes → Result ContentLenProcessor
unfolding write_bytes
process c bytes = do
  b ← write_bytes c.payload c.payload_read bytes
  ok (record c { payload = b; payload_read = c.payload_read + length bytes })

-- Of the result of `memcmp` only the sign is documented.
abbrev pub sign : Ordering → ℤ
sign Ordering.lt = negsuc 0
sign Ordering.eq = pos 0
sign Ordering.gt = pos 1

-- `compare` with a processor of the same kind.
unfoldable pub compare_with : ContentLenProcessor → ContentLenProcessor → Result ℤ
unfolding memcmp
compare_with c d =
    if d.payload_size == c.payload_size
    then (do o ← memcmp c.payload d.payload c.payload_size; ok (sign o))
    else ok (sub_ℕ c.payload_size d.payload_size)
