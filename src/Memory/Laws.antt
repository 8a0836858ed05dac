-- ===== src/Memory/Laws.antt =====
-- What reads return inside a buffer, and that swapping the bytes of a word twice is no change.
use packet_replay.Base.{
  ℕ, zero, suc, ◌<◌, ◌≤◌, ◌≡◌, refl, [], ◌∷◌, ◌++◌, Bytes, ok, err, fault, length, arith,
}
use packet_replay.Memory.{Pointer, ntohs, read_bytes}

pub ntohs_involutive : (w : ℕ) → w < 65536 → ntohs (ntohs w) ≡ w
unfolding ntohs
ntohs_involutive w h = omega arith

pub ntohs-lt : (w : ℕ) → ntohs w < 65536
unfolding ntohs
ntohs-lt w = omega arith

pub read_bytes-append : (xs p : Bytes) → read_bytes (xs ++ p) (length xs) ≡ ok xs
unfolding read_bytes
read_bytes-append [] p = refl
read_bytes-append (x ∷ xs) p = ground (arith, read_bytes-append xs p)

pub length-read_bytes : (p : Pointer) (n : ℕ) {bs : Bytes} → read_bytes p n ≡ ok bs → length bs ≡ n
unfolding read_bytes
length-read_bytes p zero h = ground arith
length-read_bytes [] (suc n) h = ground arith
length-read_bytes (b ∷ p) (suc n) {bs = []} h = ground arith
length-read_bytes (b ∷ p) (suc n) {bs = c ∷ bs} h = ground (arith, length-read_bytes p n {bs = bs})

-- A read of n bytes is defined exactly when the buffer has n bytes left.
pub read_bytes_fault : (p : Pointer) (n : ℕ) → length p < n → read_bytes p n ≡ err fault
unfolding read_bytes
read_bytes_fault p zero h = elim h [ ]
read_bytes_fault [] (suc n) h = refl
read_bytes_fault (b ∷ p) (suc n) h = ground (arith, read_bytes_fault p n)

pub read_bytes_defined :
    (p : Pointer) (n : ℕ) → n ≤ length p → (bs : Bytes) × (read_bytes p n ≡ ok bs)
unfolding read_bytes
read_bytes_defined p zero h = ([], refl)
read_bytes_defined [] (suc n) h = elim h [ ]
read_bytes_defined (b ∷ p) (suc n) h =
    let (bs, e) = read_bytes_defined p n (omega arith) in (b ∷ bs, ground arith)

-- What was read can be read again from the copy.
pub read_bytes_copy :
    (p : Pointer) (n : ℕ) {bs : Bytes} → read_bytes p n ≡ ok bs → read_bytes bs n ≡ ok bs
unfolding read_bytes
read_bytes_copy p zero h = ground arith
read_bytes_copy [] (suc n) h = ground arith
read_bytes_copy (b ∷ p) (suc n) {bs = []} h = ground arith
read_bytes_copy (b ∷ p) (suc n) {bs = c ∷ bs} h = ground (arith, read_bytes_copy p n {bs = bs})
