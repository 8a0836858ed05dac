-- ===== src/Tests/Net.antt =====
-- An implementation of the address conversions for IPv4, which has the documented properties. It
-- knows no IPv6 address.
use packet_replay.Base.{
  ℕ, ◌≡◌, ◌≢◌, refl, [], ◌∷◌, ◌++◌, Option, none, some, Bytes, true, All, All-append, arith,
}
use packet_replay.Util.{split_at}
use packet_replay.Util.Tokens.{Lacks, split_at-append}
use packet_replay.Util.Number.{
  isdigit, to_string, value, value-to_string, to_string-AllDigits, AllDigits,
}
use packet_replay.Layers.Inet.{Inet, IsInet, IsAddr, is_dotted}

unfoldable pub dotted : Bytes → Bytes
dotted (a ∷ b ∷ c ∷ d ∷ []) =
    to_string a ++ b'.' ∷ (to_string b ++ b'.' ∷ (to_string c ++ b'.' ∷ to_string d))
dotted _ = []

parts : Bytes → Option Bytes
parts s =
    let (a, r) = split_at b'.' s in
    let (b, q) = split_at b'.' r in
    let (c, d) = split_at b'.' q in some (value 0 a ∷ value 0 b ∷ value 0 c ∷ value 0 d ∷ [])

unfoldable pub undotted : Bytes → Option Bytes
unfolding parts
undotted [] = none
undotted (x ∷ s) = parts (x ∷ s)

abbrev pub sample_net : Inet
sample_net = record { pton4 = undotted; ntop4 = dotted; pton6 = λ s. none; ntop6 = λ a. [] }

AllDigits-Lacks_dot : (s : Bytes) → AllDigits s → Lacks b'.' s
unfolding isdigit
AllDigits-Lacks_dot [] h = tt
AllDigits-Lacks_dot (c ∷ s) (hc, h) = (ground arith, AllDigits-Lacks_dot s h)

part-Lacks : (n : ℕ) → Lacks b'.' (to_string n)
part-Lacks n = AllDigits-Lacks_dot (to_string n) (to_string-AllDigits n)

undotted-parts : (s : Bytes) → s ≢ [] → undotted s ≡ parts s
unfolding undotted
undotted-parts [] h = absurd (h refl)
undotted-parts (x ∷ s) h = refl

append-cons-ne-nil : (xs : Bytes) (y : ℕ) (ys : Bytes) → xs ++ y ∷ ys ≢ []
append-cons-ne-nil [] y ys h = cc
append-cons-ne-nil (x ∷ xs) y ys h = cc

undotted-dotted : (a : Bytes) → IsAddr 4 a → undotted (dotted a) ≡ some a
unfolding dotted parts
undotted-dotted [] (h, _) = absurd (omega arith)
undotted-dotted (a ∷ b ∷ c ∷ d ∷ []) h = rw (
  undotted-parts (dotted (a ∷ b ∷ c ∷ d ∷ [])) (
      append-cons-ne-nil (to_string a) b'.'
        (to_string b ++ b'.' ∷ (to_string c ++ b'.' ∷ to_string d))),
  parts,
  split_at-append b'.' (to_string a) (to_string b ++ b'.' ∷ (to_string c ++ b'.' ∷ to_string d))
      (part-Lacks a),
  split_at-append b'.' (to_string b) (to_string c ++ b'.' ∷ to_string d) (part-Lacks b),
  split_at-append b'.' (to_string c) (to_string d) (part-Lacks c),
  value-to_string a,
  value-to_string b,
  value-to_string c,
  value-to_string d,
)
undotted-dotted _ (h, _) = absurd (omega arith)

AllDotted : Bytes → Type 0
AllDotted s = All (λ c. is_dotted c ≡ true) s

digits-AllDotted : (s : Bytes) → AllDigits s → AllDotted s
unfolding AllDotted
digits-AllDotted [] h = tt
digits-AllDotted (c ∷ s) (hc, h) = (rw hc, digits-AllDotted s h)

cons_part : (n : ℕ) (s : Bytes) → AllDotted s → AllDotted (to_string n ++ b'.' ∷ s)
unfolding AllDotted
cons_part n s h =
    All-append (λ c. is_dotted c ≡ true) (to_string n) (b'.' ∷ s)
      (digits-AllDotted (to_string n) (to_string-AllDigits n)) (ground arith, h)

dotted-AllDotted : (a : Bytes) → IsAddr 4 a → AllDotted (dotted a)
unfolding dotted AllDotted
dotted-AllDotted [] h = tt
dotted-AllDotted (a ∷ b ∷ c ∷ d ∷ []) h =
    cons_part a _
      (cons_part b _ (cons_part c _ (digits-AllDotted (to_string d) (to_string-AllDigits d))))
dotted-AllDotted _ h = tt

pub sample_net-IsInet : IsInet sample_net
unfolding AllDotted undotted
sample_net-IsInet = record {
  pton4-ntop4 = undotted-dotted;
  ntop4_text = dotted-AllDotted;
  pton4-nil = refl;
}
