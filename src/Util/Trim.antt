-- ===== src/Util/Trim.antt =====
-- src/lib/util.cc: `trim` takes the blanks off both ends of a string and nothing else.
use mathlib.Core.List.{reverse-append, reverse-reverse}
use packet_replay.Base.{
  ◌≡◌, refl, sym, ap, subst, ◌∙◌, inl, inr, true, false, Bool-cases, [], ◌∷◌, ◌++◌, reverse, Bytes,
  All, All-append,
}
use packet_replay.Util.{isspace, trim_left, trim_right, trim}

abbrev pub AllSpace : Bytes → Type 0
AllSpace s = All (λ c. isspace c ≡ true) s

-- The first byte is no blank.
abbrev pub StartsSolid : Bytes → Type 0
StartsSolid [] = Unit
StartsSolid (c ∷ s) = isspace c ≡ false

AllSpace-reverse : (s : Bytes) → AllSpace s → AllSpace (reverse s)
AllSpace-reverse [] h = tt
AllSpace-reverse (c ∷ s) (hc, h) =
    subst AllSpace (sym (reverse-append (c ∷ []) s))
      (All-append (λ c. isspace c ≡ true) (reverse s) (c ∷ []) (AllSpace-reverse s h) (hc, tt))

pub trim_left-splits : (s : Bytes) → (pre : Bytes) × (s ≡ pre ++ trim_left s) × AllSpace pre
unfolding trim_left
trim_left-splits [] = ([], refl, tt)
trim_left-splits (c ∷ s) = elim (Bool-cases (isspace c)) [
  | inl blank ↦
      let (pre, e, h) = trim_left-splits s in (c ∷ pre, rw blank (ap (◌∷◌ c) e), (blank, h))
  | inr solid ↦ ([], rw solid, tt)
]

pub trim_left-StartsSolid : (s : Bytes) → StartsSolid (trim_left s)
unfolding trim_left
trim_left-StartsSolid [] = tt
trim_left-StartsSolid (c ∷ s) = elim (Bool-cases (isspace c)) [
  | inl blank ↦ rw blank (trim_left-StartsSolid s)
  | inr solid ↦ rw solid solid
]

pub trim_right-splits : (s : Bytes) → (post : Bytes) × (s ≡ trim_right s ++ post) × AllSpace post
unfolding trim_right
trim_right-splits s =
    let (pre, e, h) = trim_left-splits (reverse s) in
    (
      reverse pre,
      sym (reverse-reverse s) ∙ ap reverse e ∙ reverse-append pre (trim_left (reverse s)),
      AllSpace-reverse pre h,
    )

pub trim_right-EndsSolid : (s : Bytes) → StartsSolid (reverse (trim_right s))
unfolding trim_right
trim_right-EndsSolid s = rw reverse-reverse (trim_left-StartsSolid (reverse s))

StartsSolid-append : (s t : Bytes) → StartsSolid (s ++ t) → StartsSolid s
StartsSolid-append [] t h = tt
StartsSolid-append (c ∷ s) t h = h

trim_left_of_StartsSolid : (s : Bytes) → StartsSolid s → trim_left s ≡ s
unfolding trim_left
trim_left_of_StartsSolid [] h = refl
trim_left_of_StartsSolid (c ∷ s) h = rw h

-- `t` is `s` with blanks taken off both ends, and has none left there.
pub record IsTrimOf (s t : Bytes) : Type 0 where
  pub before : Bytes
  pub after : Bytes
  pub splits : s ≡ before ++ (t ++ after)
  pub before_blank : AllSpace before
  pub after_blank : AllSpace after
  pub starts : StartsSolid t
  pub ends : StartsSolid (reverse t)

-- `trim` takes white space off both ends, all of it and nothing else.
pub trim-IsTrimOf : (s : Bytes) → IsTrimOf s (trim s)
unfolding trim
trim-IsTrimOf s =
    let (pre, e, hpre) = trim_left-splits s in
    let (post, k, hpost) = trim_right-splits (trim_left s) in
    record {
      before = pre;
      after = post;
      splits = e ∙ ap (◌++◌ pre) k;
      before_blank = hpre;
      after_blank = hpost;
      starts =
          StartsSolid-append (trim_right (trim_left s)) post
            (subst StartsSolid k (trim_left-StartsSolid s));
      ends = trim_right-EndsSolid (trim_left s);
    }

-- A string with no blank at either end is left alone.
pub trim_of_solid : (s : Bytes) → StartsSolid s → StartsSolid (reverse s) → trim s ≡ s
unfolding trim trim_right
trim_of_solid s h k =
    rw (trim_left_of_StartsSolid s h, trim_left_of_StartsSolid (reverse s) k, reverse-reverse)

-- Trimming twice is trimming once.
pub trim_idem : (s : Bytes) → trim (trim s) ≡ trim s
trim_idem s = trim_of_solid (trim s) (trim-IsTrimOf s).starts (trim-IsTrimOf s).ends
