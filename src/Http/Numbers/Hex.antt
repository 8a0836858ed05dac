-- ===== src/Http/Numbers/Hex.antt =====
-- What `strtoul` with base 16 reads from digits that end before a carriage return.
use packet_replay.Base.{
  ℕ, ◌-◌, ◌≤◌, ◌≡◌, ◌≢◌, refl, ◌∙◌, true, false, ◌||◌, ◌==◌, [], ◌∷◌, ◌++◌, Bytes, All, length,
  arith,
}
use packet_replay.Util.{isspace, trim_left}
use packet_replay.Http.Numbers.{
  is_hex, hex_value, leading_hex, has_prefix, digits_read, unsigned_read, signed_read, strtoul16,
  ulong_max,
}

abbrev pub AllHex : Bytes → Type 0
AllHex s = All (λ c. is_hex c ≡ true) s

leading_hex-append : (d x : Bytes) → AllHex d → leading_hex (d ++ 13 ∷ x) ≡ d
unfolding leading_hex is_hex
leading_hex-append [] x h = refl
leading_hex-append (c ∷ d) x (hc, h) = ground (arith, leading_hex-append d x h)

hex-ne-x : (b : ℕ) → is_hex b ≡ true → (b == b'x' || b == b'X') ≡ false
unfolding is_hex
hex-ne-x b h = ground arith

has_prefix-append : (d x : Bytes) → AllHex d → has_prefix (d ++ 13 ∷ x) ≡ false
unfolding has_prefix
has_prefix-append [] [] h = refl
has_prefix-append [] (y ∷ []) h = refl
has_prefix-append [] (y ∷ z ∷ x) h = refl
has_prefix-append (a ∷ []) [] h = refl
has_prefix-append (a ∷ []) (z ∷ x) h = ground arith
has_prefix-append (a ∷ b ∷ []) x (ha, (hb, h)) = ground (arith, hex-ne-x b hb)
has_prefix-append (a ∷ b ∷ c ∷ d) x (ha, (hb, h)) = ground (arith, hex-ne-x b hb)

digits_read_lem :
    (d : Bytes) → d ≢ [] → hex_value 0 d ≤ ulong_max → digits_read 0 d ≡ (hex_value 0 d, length d)
unfolding digits_read
digits_read_lem [] n b = absurd (n refl)
digits_read_lem (c ∷ d) n b = ground arith

unsigned_read_lem :
    (d x : Bytes)
    → AllHex d
    → d ≢ []
    → hex_value 0 d ≤ ulong_max
    → unsigned_read 0 (d ++ 13 ∷ x) ≡ (hex_value 0 d, length d)
unfolding unsigned_read
unsigned_read_lem d x h n b =
    rw (has_prefix-append d x h, leading_hex-append d x h) (digits_read_lem d n b)

-- A digit is neither white space nor a sign.
signed_read_lem :
    (c : ℕ) (s : Bytes) → is_hex c ≡ true → signed_read 0 (c ∷ s) ≡ unsigned_read 0 (c ∷ s)
unfolding signed_read is_hex
signed_read_lem c s h = ground arith

trim_left_of_digit : (c : ℕ) (s : Bytes) → is_hex c ≡ true → trim_left (c ∷ s) ≡ c ∷ s
unfolding trim_left isspace is_hex
trim_left_of_digit c s h = ground arith

self_sub : (n : ℕ) → n - n ≡ 0
self_sub n = omega arith

pub strtoul16_lem :
    (d x : Bytes)
    → AllHex d
    → d ≢ []
    → hex_value 0 d ≤ ulong_max
    → strtoul16 (d ++ 13 ∷ x) ≡ (hex_value 0 d, length d)
unfolding strtoul16
strtoul16_lem [] x h n b = absurd (n refl)
strtoul16_lem (c ∷ d) x (hc, h) n b =
    rw (strtoul16, trim_left_of_digit c (d ++ 13 ∷ x) hc, self_sub (length (c ∷ (d ++ 13 ∷ x))))
      (signed_read_lem c (d ++ 13 ∷ x) hc ∙ unsigned_read_lem (c ∷ d) x (hc, h) n b)
