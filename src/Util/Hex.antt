-- ===== src/Util/Hex.antt =====
-- src/lib/util.cc: `bytes_to_hex_string` writes each byte in two lower-case digits, so the text
-- determines the bytes.
use packet_replay.Base.{ℕ, ◌*◌, ◌/◌, ◌%◌, ◌<◌, ◌≡◌, ◌≢◌, refl, [], ◌∷◌, Bytes, All, length, arith}
use packet_replay.Util.{hex_digit, hex_string}
use packet_replay.Util.Tokens.{Lacks}

-- Eight bits.
abbrev pub IsByte : ℕ → Type 0
IsByte b = b < 256

hex_digit-injective : (a b : ℕ) → a < 16 → b < 16 → hex_digit a ≡ hex_digit b → a ≡ b
unfolding hex_digit
hex_digit-injective a b ha hb h = ground arith

hex_byte-injective :
    (a b : ℕ)
    → IsByte a
    → IsByte b
    → hex_digit (a / 16) ≡ hex_digit (b / 16)
    → hex_digit (a % 16) ≡ hex_digit (b % 16)
    → a ≡ b
hex_byte-injective a b ha hb h k = omega (
  arith,
  hex_digit-injective (a / 16) (b / 16) (omega arith) (omega arith) h,
  hex_digit-injective (a % 16) (b % 16) (omega arith) (omega arith) k,
)

-- Two sequences of bytes with the same text in base 16 are the same.
pub hex_string-injective :
    (xs ys : Bytes) → All IsByte xs → All IsByte ys → hex_string xs ≡ hex_string ys → xs ≡ ys
unfolding hex_string
hex_string-injective [] [] hx hy h = refl
hex_string-injective [] (y ∷ ys) hx hy h = cc
hex_string-injective (x ∷ xs) [] hx hy h = cc
hex_string-injective (x ∷ xs) (y ∷ ys) (bx, hx) (b_y, hy) h =
    ground (arith, hex_byte-injective x y bx b_y, hex_string-injective xs ys hx hy)

hex_digit-ne-colon : (d : ℕ) → d < 16 → hex_digit d ≢ b':'
unfolding hex_digit
hex_digit-ne-colon d h = ground arith

pub hex_string-Lacks : (xs : Bytes) → All IsByte xs → Lacks b':' (hex_string xs)
unfolding hex_string
hex_string-Lacks [] h = tt
hex_string-Lacks (x ∷ xs) (b, h) = (
  hex_digit-ne-colon (x / 16) (omega arith),
  (hex_digit-ne-colon (x % 16) (omega arith), hex_string-Lacks xs h),
)

pub length-hex_string : (xs : Bytes) → length (hex_string xs) ≡ 2 * length xs
unfolding hex_string
length-hex_string [] = refl
length-hex_string (x ∷ xs) = omega (arith, length-hex_string xs)
