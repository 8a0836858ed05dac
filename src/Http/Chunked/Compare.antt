-- ===== src/Http/Chunked/Compare.antt =====
-- src/http_replay/http_response_processor.cc: what `compare` tells of two bodies in chunks.
use packet_replay.Base.{
  ℕ, ◌≡◌, ◌↔◌, refl, ap, sym, ◌∙◌, true, false, [], ◌∷◌, Bytes, Result, ok, err, ok-injective,
  ◌>>=◌, length, ◌==◌, Ordering, arith, Bool-cases, inl, inr,
}
use packet_replay.Base.Int.{ℤ, pos, sub_ℕ}
use packet_replay.Util.{split_at}
use packet_replay.Http.ContentLen.{sign}
use packet_replay.Http.Chunked.{ChunkedProcessor, c_string, strncmp, compare_with}

strncmp-eq :
    (p q : Bytes)
    → length p ≡ length q
    → strncmp p q (length p) ≡ ok Ordering.eq
    → c_string p ≡ c_string q
unfolding strncmp c_string split_at
strncmp-eq [] [] l h = refl
strncmp-eq [] (b ∷ q) l h = absurd (omega arith)
strncmp-eq (a ∷ p) [] l h = absurd (omega arith)
strncmp-eq (a ∷ p) (b ∷ q) l h = ground (arith, strncmp-eq p q)

strncmp_of_eq :
    (p q : Bytes)
    → length p ≡ length q
    → c_string p ≡ c_string q
    → strncmp p q (length p) ≡ ok Ordering.eq
unfolding strncmp c_string split_at
strncmp_of_eq [] [] l h = refl
strncmp_of_eq [] (b ∷ q) l h = absurd (omega arith)
strncmp_of_eq (a ∷ p) [] l h = absurd (omega arith)
strncmp_of_eq (a ∷ p) (b ∷ q) l h = ground (arith, strncmp_of_eq p q)

pub sign_zero : (o : Ordering) → sign o ≡ pos 0 → o ≡ Ordering.eq
sign_zero Ordering.lt h = cc
sign_zero Ordering.eq h = refl
sign_zero Ordering.gt h = cc

lengths_differ : (a b : ℕ) → (a == b) ≡ false → ok (sub_ℕ a b) ≡ ok (pos 0) → ⊥
lengths_differ a b h e = ground arith

compare_same :
    (c d : ChunkedProcessor)
    → (length c.body == length d.body) ≡ true
    → compare_with c d ≡ (do o ← strncmp c.body d.body (length c.body); ok (sign o))
unfolding compare_with
compare_same c d e = rw e refl

compare_differ :
    (c d : ChunkedProcessor)
    → (length c.body == length d.body) ≡ false
    → compare_with c d ≡ ok (sub_ℕ (length c.body) (length d.body))
unfolding compare_with
compare_differ c d e = rw e refl

strncmp_of_sign :
    (o : Result Ordering) → ◌>>=◌ {U = ℤ} o (λ x. ok (sign x)) ≡ ok (pos 0) → o ≡ ok Ordering.eq
strncmp_of_sign (err g) h = cc
strncmp_of_sign (ok o) h = ap ok (sign_zero o (ok-injective h))

-- Two bodies in chunks are the same to `compare` exactly if they are of the same length and the
-- same up to the first zero byte: what is behind a zero byte is not looked at.
pub compare_with_lem :
    (c d : ChunkedProcessor)
    → (compare_with c d ≡ ok (pos 0))
      ↔ ((length c.body ≡ length d.body) × (c_string c.body ≡ c_string d.body))
compare_with_lem c d = elim (Bool-cases (length c.body == length d.body)) [
  | inl same ↦ (
    (λ h. (
      ground arith,
      strncmp-eq c.body d.body (ground arith) (strncmp_of_sign _ (sym (compare_same c d same) ∙ h)),
    )),
    (λ h.
        compare_same c d same
        ∙ ap (λ o. ◌>>=◌ {U = ℤ} o (λ x. ok (sign x))) (strncmp_of_eq c.body d.body h.0 h.1)),
  )
  | inr differ ↦ (
    (λ h. absurd (lengths_differ _ _ differ (sym (compare_differ c d differ) ∙ h))),
    (λ h. absurd (ground arith)),
  )
]
