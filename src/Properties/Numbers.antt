-- ===== src/Properties/Numbers.antt =====
-- src/include/properties.h: `getAsInt` does not run out of fuel.
use packet_replay.Base.{
  ◌^◌, Bool, true, false, [], ◌∷◌, Bytes, ok, err, out_of_range, leb, ltb, ◌==◌,
}
use packet_replay.Base.Int.{pos}
use packet_replay.Util.{trim_left}
use packet_replay.Util.Number.{leading_digits, value}
use packet_replay.Stream.Bounds.{Ends, Ends-if}
use packet_replay.Properties.{minus, stoi_digits, stoi_sign, stoi}

stoi_digits-Ends : (negative : Bool) (s : Bytes) → Ends (λ _. Unit) (stoi_digits negative s)
unfolding stoi_digits
stoi_digits-Ends negative [] = cc
stoi_digits-Ends true (c ∷ s) =
    Ends-if (λ _. Unit) (leb (value 0 (c ∷ s)) (2 ^ 31)) (ok (minus (value 0 (c ∷ s))))
      (err out_of_range) tt cc
stoi_digits-Ends false (c ∷ s) =
    Ends-if (λ _. Unit) (ltb (value 0 (c ∷ s)) (2 ^ 31)) (ok (pos (value 0 (c ∷ s))))
      (err out_of_range) tt cc

stoi_sign-Ends : (s : Bytes) → Ends (λ _. Unit) (stoi_sign s)
unfolding stoi_sign
stoi_sign-Ends [] = cc
stoi_sign-Ends (c ∷ s) =
    Ends-if (λ _. Unit) (c == b'-') (stoi_digits true (leading_digits s)) _
      (stoi_digits-Ends true (leading_digits s))
      (Ends-if (λ _. Unit) (c == b'+') (stoi_digits false (leading_digits s))
        (stoi_digits false (leading_digits (c ∷ s))) (stoi_digits-Ends false (leading_digits s))
        (stoi_digits-Ends false (leading_digits (c ∷ s))))

pub stoi-Ends : (s : Bytes) → Ends (λ _. Unit) (stoi s)
unfolding stoi
stoi-Ends s = stoi_sign-Ends (trim_left s)
