-- ===== src/Util/Tokens.antt =====
-- src/lib/util.cc: `tokenize` and the pieces between two delimiters.
use packet_replay.Base.{
  ℕ, zero, suc, ◌<◌, ◌≤◌, ◌≡◌, ◌≢◌, refl, ap, ◌⊎◌, inl, inr, List, [], ◌∷◌, ◌++◌, some, Bytes, All,
  length, length-append, arith, sym, subst,
}
use mathlib.Core.List.{append_assoc}
use packet_replay.Util.{split_at, getline, tokenize_loop, tokenize}

-- The delimiter does not occur in the text.
abbrev pub Lacks : ℕ → Bytes → Type 0
Lacks d s = All (λ c. c ≢ d) s

-- The texts with one ':' between each two of them.
abbrev pub join : List Bytes → Bytes
join [] = []
join (t ∷ []) = t
join (t ∷ u ∷ ts) = t ++ b':' ∷ join (u ∷ ts)

-- Texts that `tokenize` can tell apart: none holds a ':', and the last is not empty.
abbrev pub IsTokenList : List Bytes → Type 0
IsTokenList [] = Unit
IsTokenList (t ∷ []) = Lacks b':' t × (t ≢ [])
IsTokenList (t ∷ u ∷ ts) = Lacks b':' t × IsTokenList (u ∷ ts)

pub split_at-Lacks : (d : ℕ) (t : Bytes) → Lacks d t → split_at d t ≡ (t, [])
unfolding split_at
split_at-Lacks d [] h = refl
split_at-Lacks d (c ∷ t) (hc, h) = ground (arith, split_at-Lacks d t h)

pub split_at-append : (d : ℕ) (t rest : Bytes) → Lacks d t → split_at d (t ++ d ∷ rest) ≡ (t, rest)
unfolding split_at
split_at-append d [] rest h = ground arith
split_at-append d (c ∷ t) rest (hc, h) = ground (arith, split_at-append d t rest h)

pub getline-Lacks : (d : ℕ) (t : Bytes) → Lacks d t → t ≢ [] → getline d t ≡ some (t, [])
unfolding getline
getline-Lacks d [] h n = absurd (n refl)
getline-Lacks d (c ∷ t) h n = ap some (split_at-Lacks d (c ∷ t) h)

pub getline-append :
    (d : ℕ) (t rest : Bytes) → Lacks d t → getline d (t ++ d ∷ rest) ≡ some (t, rest)
unfolding getline
getline-append d [] rest h = ap some (split_at-append d [] rest tt)
getline-append d (c ∷ t) rest h = ap some (split_at-append d (c ∷ t) rest h)

-- What a split loses is the delimiter.
split_at-join :
    (d : ℕ) (s : Bytes)
    → (((split_at d s).0 ≡ s) × ((split_at d s).1 ≡ []))
      ⊎ ((split_at d s).0 ++ d ∷ (split_at d s).1 ≡ s)
unfolding split_at
split_at-join d [] = inl (refl, refl)
split_at-join d (c ∷ s) = ground (arith, split_at-join d s)

split_at-length : (d : ℕ) (s : Bytes) → length (split_at d s).1 ≤ length s
unfolding split_at
split_at-length d [] = omega arith
split_at-length d (c ∷ s) = ground (arith, split_at-length d s)

tokenize_loop-nil : (fuel : ℕ) → tokenize_loop fuel [] ≡ []
unfolding tokenize_loop getline
tokenize_loop-nil zero = refl
tokenize_loop-nil (suc fuel) = refl

tokenize_loop-join :
    (ts : List Bytes) (fuel : ℕ)
    → IsTokenList ts
    → length (join ts) < fuel
    → tokenize_loop fuel (join ts) ≡ ts
unfolding tokenize_loop
tokenize_loop-join ts zero h f = elim f [ ]
tokenize_loop-join [] (suc fuel) h f = tokenize_loop-nil (suc fuel)
tokenize_loop-join (t ∷ []) (suc fuel) (l, n) f =
    rw (getline-Lacks b':' t l n, tokenize_loop) (ap (◌∷◌ t) (tokenize_loop-nil fuel))
tokenize_loop-join (t ∷ u ∷ ts) (suc fuel) (l, h) f =
    rw (getline-append b':' t (join (u ∷ ts)) l, tokenize_loop)
      (ap (◌∷◌ t) (
        tokenize_loop-join (u ∷ ts) fuel h
          (omega (arith, length-append {0} t (b':' ∷ join (u ∷ ts))))))

-- Texts without a ':', of which the last is not empty, joined by ':', come back from `tokenize`,
-- whatever delimiter it is called with.
pub tokenize-join :
    (ts : List Bytes) (delimiter : ℕ) → IsTokenList ts → tokenize (join ts) delimiter ≡ ts
unfolding tokenize
tokenize-join ts delimiter h = tokenize_loop-join ts (suc (length (join ts))) h (omega arith)

join_cons : (t : Bytes) (ts : List Bytes) → ts ≢ [] → join (t ∷ ts) ≡ t ++ b':' ∷ join ts
join_cons t [] h = absurd (h refl)
join_cons t (u ∷ ts) h = refl

-- The string again, with or without a ':' at its end.
abbrev pub IsJoinOf : Bytes → List Bytes → Type 0
IsJoinOf s ts = (s ≡ join ts) ⊎ (s ≡ join ts ++ b':' ∷ [])

-- One round, where the rest has been cut up already.
IsJoinOf-cons :
    (t rest : Bytes) (ts : List Bytes)
    → IsJoinOf rest ts
    → (ts ≡ [] → rest ≡ [])
    → IsJoinOf (t ++ b':' ∷ rest) (t ∷ ts)
IsJoinOf-cons t rest [] h n = inr (rw (n refl))
IsJoinOf-cons t rest (u ∷ ts) (inl e) n = inl (rw e)
IsJoinOf-cons t rest (u ∷ ts) (inr e) n =
    inr (rw e (sym (append_assoc t (b':' ∷ join (u ∷ ts)) (b':' ∷ []))))

abbrev IsCut : Bytes → List Bytes → Type 0
IsCut s ts = IsJoinOf s ts × (ts ≡ [] → s ≡ [])

IsCut-cons :
    (t rest s : Bytes) (ts : List Bytes) → t ++ b':' ∷ rest ≡ s → IsCut rest ts → IsCut s (t ∷ ts)
IsCut-cons t rest s ts e (j, n) =
    (subst (λ x. IsJoinOf x (t ∷ ts)) e (IsJoinOf-cons t rest ts j n), λ h. cc)

IsCut-one :
    (t rest s : Bytes) (fuel : ℕ) → t ≡ s → rest ≡ [] → IsCut s (t ∷ tokenize_loop fuel rest)
IsCut-one t rest s fuel e n = rw (n, tokenize_loop-nil fuel) (inl (sym e), λ h. cc)

tokenize_loop-IsCut : (fuel : ℕ) (s : Bytes) → length s < fuel → IsCut s (tokenize_loop fuel s)
unfolding tokenize_loop getline
tokenize_loop-IsCut zero s h = elim h [ ]
tokenize_loop-IsCut (suc fuel) [] h = (inl refl, λ _. refl)
tokenize_loop-IsCut (suc fuel) (c ∷ s) h = elim (split_at-join b':' (c ∷ s)) [
  | inl (e, n) ↦ IsCut-one _ _ (c ∷ s) fuel e n
  | inr e ↦ IsCut-cons _ _ (c ∷ s) _ e (
      tokenize_loop-IsCut fuel (split_at b':' (c ∷ s)).1 (
        omega (
          arith,
          ap length e,
          length-append {0} (split_at b':' (c ∷ s)).0 (b':' ∷ (split_at b':' (c ∷ s)).1),
        )))
]

-- `tokenize` loses nothing but a ':' at the very end: its tokens, joined by ':', are the string
-- again, or the string without a last ':'.
pub tokenize-IsJoinOf : (s : Bytes) (delimiter : ℕ) → IsJoinOf s (tokenize s delimiter)
unfolding tokenize
tokenize-IsJoinOf s delimiter = (tokenize_loop-IsCut (suc (length s)) s (omega arith)).0

-- The delimiter that a caller names plays no part.
pub tokenize_any_delimiter : (s : Bytes) (d e : ℕ) → tokenize s d ≡ tokenize s e
unfolding tokenize
tokenize_any_delimiter s d e = refl
