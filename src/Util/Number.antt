-- ===== src/Util/Number.antt =====
-- Numbers as text: `std::to_string` of a number that is not negative, and `std::stoul`, which the
-- parsers of specifications and of HTTP headers call.
use packet_replay.Base.{
  ℕ, zero, suc, ◌+◌, ◌-◌, ◌*◌, ◌/◌, ◌%◌, ◌^◌, ◌<◌, ◌≡◌, ◌≢◌, refl, ap, sym, ◌∙◌, Bool, true, false,
  ◌&&◌, Bool-cases, inl, inr, [], ◌∷◌, ◌++◌, Bytes, All, All-append, Result, ok, err,
  invalid_argument, out_of_range, leb, ltb, ◌==◌, if◌then◌else◌, arith,
}
use mathlib.Core.List.{concat-ne-nil}
use packet_replay.Util.{isspace, trim_left}
use packet_replay.Util.Tokens.{Lacks}

-- The digits, the last one found first; the fuel is more than the number.
unfoldable pub to_string_loop : ℕ → ℕ → Bytes
to_string_loop zero n = []
to_string_loop (suc fuel) n =
    let front = to_string_loop fuel (n / 10) in
    if ltb n 10 then (b'0' + n) ∷ [] else front ++ (b'0' + n % 10) ∷ []

unfoldable pub to_string : ℕ → Bytes
unfolding to_string_loop
to_string n = to_string_loop (suc n) n

unfoldable pub isdigit : ℕ → Bool
isdigit c = leb b'0' c && leb c b'9'

unfoldable pub leading_digits : Bytes → Bytes
unfolding isdigit
leading_digits [] = []
leading_digits (c ∷ s) = let rest = leading_digits s in if isdigit c then c ∷ rest else []

unfoldable pub value : ℕ → Bytes → ℕ
value acc [] = acc
value acc (c ∷ s) = value (10 * acc + (c - b'0')) s

-- `unsigned long` has 64 bits.
abbrev pub ulong_mod : ℕ
ulong_mod = 2 ^ 64

-- What `strtoul` makes of the digits; a minus sign negates in unsigned arithmetic.
unfoldable pub from_digits : Bool → Bytes → Result ℕ
unfolding value
from_digits negative [] = err invalid_argument
from_digits negative (c ∷ s) =
    if ltb (value 0 (c ∷ s)) ulong_mod
    then ok (if negative then (ulong_mod - value 0 (c ∷ s)) % ulong_mod else value 0 (c ∷ s))
    else err out_of_range

unfoldable pub after_sign : Bytes → Result ℕ
unfolding from_digits leading_digits
after_sign [] = err invalid_argument
after_sign (c ∷ s) =
    if c == b'-'
    then from_digits true (leading_digits s)
    else if c == b'+'
    then from_digits false (leading_digits s)
    else from_digits false (leading_digits (c ∷ s))

-- `std::stoul`: leading blanks and a sign are allowed, and what follows the digits is ignored.
unfoldable pub stoul : Bytes → Result ℕ
unfolding after_sign trim_left
stoul s = after_sign (trim_left s)

abbrev pub AllDigits : Bytes → Type 0
AllDigits s = All (λ c. isdigit c ≡ true) s

value-concat :
    (acc : ℕ) (s : Bytes) (c : ℕ) → value acc (s ++ c ∷ []) ≡ 10 * value acc s + (c - b'0')
unfolding value
value-concat acc [] c = refl
value-concat acc (x ∷ s) c = value-concat (10 * acc + (x - b'0')) s c

to_string_loop-AllDigits : (fuel n : ℕ) → AllDigits (to_string_loop fuel n)
unfolding to_string_loop isdigit
to_string_loop-AllDigits zero n = tt
to_string_loop-AllDigits (suc fuel) n = elim (Bool-cases (ltb n 10)) [
  | inl small ↦ rw small (ground arith, tt)
  | inr large ↦ rw large (
      All-append (λ c. isdigit c ≡ true) (to_string_loop fuel (n / 10)) ((b'0' + n % 10) ∷ [])
        (to_string_loop-AllDigits fuel (n / 10)) (ground arith, tt))
]

-- The fuel is enough: the digits stand for the number.
value-to_string_loop : (fuel n : ℕ) → n < fuel → value 0 (to_string_loop fuel n) ≡ n
unfolding to_string_loop value
value-to_string_loop zero n h = elim h [ ]
value-to_string_loop (suc fuel) n h = ground (
  arith,
  value-concat 0 (to_string_loop fuel (n / 10)) (b'0' + n % 10),
  value-to_string_loop fuel (n / 10),
)

pub value-to_string : (n : ℕ) → value 0 (to_string n) ≡ n
unfolding to_string
value-to_string n = value-to_string_loop (suc n) n (omega arith)

pub to_string-AllDigits : (n : ℕ) → AllDigits (to_string n)
unfolding to_string
to_string-AllDigits n = to_string_loop-AllDigits (suc n) n

pub to_string-injective : (a b : ℕ) → to_string a ≡ to_string b → a ≡ b
to_string-injective a b h = sym (value-to_string a) ∙ ap (value 0) h ∙ value-to_string b

AllDigits-Lacks : (s : Bytes) → AllDigits s → Lacks b':' s
unfolding isdigit
AllDigits-Lacks [] h = tt
AllDigits-Lacks (c ∷ s) (hc, h) = (ground arith, AllDigits-Lacks s h)

pub to_string-Lacks : (n : ℕ) → Lacks b':' (to_string n)
to_string-Lacks n = AllDigits-Lacks (to_string n) (to_string-AllDigits n)

pub to_string-ne-nil : (n : ℕ) → to_string n ≢ []
unfolding to_string to_string_loop
to_string-ne-nil n h = ground (arith, concat-ne-nil (b'0' + n % 10) (to_string_loop n (n / 10)))

leading_digits_of_AllDigits : (s : Bytes) → AllDigits s → leading_digits s ≡ s
unfolding leading_digits
leading_digits_of_AllDigits [] h = refl
leading_digits_of_AllDigits (c ∷ s) (hc, h) = ground (arith, leading_digits_of_AllDigits s h)

stoul_of_digits :
    (s : Bytes) → AllDigits s → s ≢ [] → value 0 s < ulong_mod → stoul s ≡ ok (value 0 s)
unfolding stoul isdigit from_digits after_sign trim_left isspace
stoul_of_digits [] h n v = absurd (n refl)
stoul_of_digits (c ∷ s) h n v = ground (arith, leading_digits_of_AllDigits (c ∷ s) h)

-- `stoul` reads back what `to_string` wrote.
pub stoul-to_string : (n : ℕ) → n < ulong_mod → stoul (to_string n) ≡ ok n
stoul-to_string n h =
    stoul_of_digits (to_string n) (to_string-AllDigits n) (to_string-ne-nil n)
      (rw (value-to_string n) h)
    ∙ ap ok (value-to_string n)
