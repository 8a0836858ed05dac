-- ===== src/Validator/Compare.antt =====
-- src/lib/packet_validator.cc: what `validate` answers.
use packet_replay.Base.{
  ℕ, ◌<◌, ◌≤◌, ◌≡◌, ◌≢◌, refl, [], ◌∷◌, ◌++◌, Bytes, Bool, ok, err, fault, arith, length, bytes_eq,
  drop, compare_bytes,
}
use packet_replay.Base.Int.{pos}
use packet_replay.Memory.{read_range}
use packet_replay.Memory.Laws.{read_bytes-append, read_bytes_fault, read_bytes_defined}
use packet_replay.Properties.{Properties}
use packet_replay.Validator.{
  same_bytes, validate, validate_end, validate_tokens, validate_with_tokens,
}

bytes_eq-length : (e a : Bytes) → length e ≢ length a → bytes_eq e a ≡ Bool.false
unfolding compare_bytes
bytes_eq-length [] [] h = absurd (h refl)
bytes_eq-length [] (b ∷ a) h = refl
bytes_eq-length (c ∷ e) [] h = refl
bytes_eq-length (c ∷ e) (b ∷ a) h = ground (arith, bytes_eq-length e a)

-- Without tokens `validate` answers whether the two packets are the same bytes, whatever lies
-- behind them in their buffers.
pub validate_lem :
    (e x a y : Bytes)
    → validate (e ++ x) (pos (length e)) (a ++ y) (pos (length a)) ≡ ok (bytes_eq e a)
unfolding validate same_bytes read_range
validate_lem e x a y =
    ground (arith, read_bytes-append e x, read_bytes-append a y, bytes_eq-length e a)

-- A read of some bytes at the end of a buffer.
same_bytes_of_nil : (p : Bytes) (n : ℕ) → 0 < n → n ≤ length p → same_bytes p [] (pos n) ≡ err fault
unfolding same_bytes read_range
same_bytes_of_nil p n h k =
    let (bs, e) = read_bytes_defined p n k in rw (e, read_bytes_fault [] n h)

drop_all : (xs : Bytes) → drop (length xs) xs ≡ []
drop_all [] = refl
drop_all (x ∷ xs) = drop_all xs

-- With an empty list of tokens, two packets of the same length that is not 0, each in a buffer that
-- ends with it: `validate` reads behind the end of the expected packet.
pub validate_reads_past_end :
    (e a : Bytes) (context : Properties)
    → e ≢ []
    → length e ≡ length a
    → validate_with_tokens e (pos (length e)) a (pos (length a)) [] context ≡ err fault
unfolding validate_with_tokens validate_tokens validate_end
validate_reads_past_end [] a context n h = absurd (n refl)
validate_reads_past_end (c ∷ e) a context n h =
    ground (arith, drop_all e, same_bytes_of_nil a (length a))
