-- ===== src/Http/ContentLen/Pieces.antt =====
-- src/http_replay/http_response_processor.h: a body of a given length that arrives in pieces.
use mathlib.Core.List.{append_assoc, append-nil}
use packet_replay.Base.{
  ℕ, zero, suc, ◌+◌, ◌-◌, ◌≤◌, ◌<◌, ◌≡◌, ◌↔◌, true, refl, ap, sym, ◌∙◌, List, [], ◌∷◌, ◌++◌, Bytes,
  Result, ok, err, fault, ◌>>=◌, length, length-append, replicate, arith,
}
use packet_replay.Memory.{write_bytes}
use packet_replay.Http.ContentLen.{ContentLenProcessor, process, is_complete}

write_zeros :
    (k : ℕ) (bytes : Bytes)
    → length bytes ≤ k
    → write_bytes (replicate k 0) 0 bytes ≡ ok (bytes ++ replicate (k - length bytes) 0)
unfolding write_bytes
write_zeros zero [] h = refl
write_zeros zero (b ∷ bytes) h = absurd (omega arith)
write_zeros (suc k) [] h = ground arith
write_zeros (suc k) (b ∷ bytes) h = ground (arith, write_zeros k bytes)

write_zeros_fault :
    (k : ℕ) (bytes : Bytes) → k < length bytes → write_bytes (replicate k 0) 0 bytes ≡ err fault
unfolding write_bytes
write_zeros_fault zero [] h = absurd (omega arith)
write_zeros_fault zero (b ∷ bytes) h = refl
write_zeros_fault (suc k) [] h = absurd (omega arith)
write_zeros_fault (suc k) (b ∷ bytes) h = ground (arith, write_zeros_fault k bytes)

write_bytes-append :
    (got room bytes : Bytes)
    → write_bytes (got ++ room) (length got) bytes
      ≡ (do r ← write_bytes room 0 bytes; ok (got ++ r))
unfolding write_bytes
write_bytes-append [] room bytes = ground arith
write_bytes-append (g ∷ got) room bytes = ground (arith, write_bytes-append got room bytes)

-- The processor of a body of n bytes that has got the first of them.
abbrev pub filled : ℕ → Bytes → ContentLenProcessor
filled n got = record {
  payload = got ++ replicate (n - length got) 0;
  payload_size = n;
  payload_read = length got;
}

pub process-filled :
    (n : ℕ) (got bytes : Bytes)
    → length got + length bytes ≤ n
    → process (filled n got) bytes ≡ ok (filled n (got ++ bytes))
unfolding process
process-filled n got bytes h =
    rw
      (
        process,
        write_bytes-append got (replicate (n - length got) 0) bytes,
        write_zeros (n - length got) bytes (omega arith),
      )
      (ap ok (processor_eq n _ _ _ _ room (sym (length-append got bytes))))
  where
    processor_eq :
        (n : ℕ) (p q : Bytes) (a b : ℕ)
        → p ≡ q
        → a ≡ b
        → ◌≡◌ {A = ContentLenProcessor}
            (record { payload = p; payload_size = n; payload_read = a })
            (record { payload = q; payload_size = n; payload_read = b })
    processor_eq n p q a b e f = λ i. record { payload = e i; payload_size = n; payload_read = f i }

    room :
        got ++ (bytes ++ replicate (n - length got - length bytes) 0)
        ≡ (got ++ bytes) ++ replicate (n - length (got ++ bytes)) 0
    room =
        sym (append_assoc got bytes (replicate (n - length got - length bytes) 0))
        ∙ ap (λ k. (got ++ bytes) ++ replicate k 0) (omega (arith, length-append {0} got bytes))

-- A body that is longer than its header says is written past the end of the buffer.
pub process_overflow :
    (n : ℕ) (got bytes : Bytes)
    → length got ≤ n
    → n < length got + length bytes
    → process (filled n got) bytes ≡ err fault
unfolding process
process_overflow n got bytes l h = rw (
  process,
  write_bytes-append got (replicate (n - length got) 0) bytes,
  write_zeros_fault (n - length got) bytes (omega arith),
)

unfoldable pub process_pieces : ContentLenProcessor → List Bytes → Result ContentLenProcessor
process_pieces c [] = ok c
process_pieces c (b ∷ bs) = do d ← process c b; process_pieces d bs

abbrev pub concat : List Bytes → Bytes
concat [] = []
concat (b ∷ bs) = b ++ concat bs

collected :
    (n : ℕ) (got : Bytes) (bs : List Bytes)
    → length (got ++ concat bs) ≤ n
    → process_pieces (filled n got) bs ≡ ok (filled n (got ++ concat bs))
unfolding process_pieces
collected n got [] h = ap (λ s. ok (filled n s)) (sym (append-nil got))
collected n got (b ∷ bs) h =
    rw
      (
        process-filled n got b (
            omega (
              arith,
              length-append {0} (got ++ b) (concat bs),
              length-append {0} got b,
              ap length (append_assoc got b (concat bs)),
            )),
        process_pieces,
      )
      (collected n (got ++ b) bs (omega (arith, ap length (append_assoc got b (concat bs))))
        ∙ ap (λ s. ok (filled n s)) (append_assoc got b (concat bs)))

-- A processor of a body of n bytes, which has got the first of them, is given the next in pieces,
-- not more than are left in all: it has them in order, whatever the pieces are, and it is complete
-- exactly when all n are there.
pub pieces_collected :
    (n : ℕ) (got : Bytes) (bs : List Bytes)
    → length (got ++ concat bs) ≤ n
    → (process_pieces (filled n got) bs ≡ ok (filled n (got ++ concat bs)))
      × ((is_complete (filled n (got ++ concat bs)) ≡ true) ↔ (length (got ++ concat bs) ≡ n))
pieces_collected n got bs h = (collected n got bs h, (ground arith, ground arith))
