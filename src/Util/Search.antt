-- ===== src/Util/Search.antt =====
-- `find` of `std::string` and `std::string_view`.
use packet_replay.Base.{
  ℕ, suc, ◌+◌, ◌≤◌, ◌<◌, ◌≡◌, refl, Bool, true, false, ◌&&◌, [], ◌∷◌, ◌++◌, Option, none, some,
  Bytes, length, drop, length-drop, ◌==◌, if◌then◌else◌, arith, sym, ◌∙◌, some-injective,
  Bool-cases, inl, inr, ap, ◌≢◌, drop-append,
}
use packet_replay.Util.Tokens.{Lacks}

abbrev pub starts_with : Bytes → Bytes → Bool
starts_with [] s = true
starts_with (c ∷ p) [] = false
starts_with (c ∷ p) (d ∷ s) = (c == d) && starts_with p s

-- `s.find(p)`, where p is not empty.
unfoldable pub find : Bytes → Bytes → Option ℕ
find p [] = none
find p (c ∷ s) =
    let later = find p s in
    if starts_with p (c ∷ s) then some 0 else elim later [ none ↦ none | some n ↦ some (n + 1) ]

-- `s.find(p, start)`
unfoldable pub find_from : Bytes → Bytes → ℕ → Option ℕ
unfolding find
find_from p s start = elim (find p (drop start s)) [ none ↦ none | some n ↦ some (start + n) ]

later-lt :
    (o : Option ℕ) (n bound : ℕ)
    → ◌≡◌ {A = Option ℕ} (elim o [ none ↦ none | some m ↦ some (m + 1) ]) (some n)
    → ((m : ℕ) → o ≡ some m → m < bound)
    → n < suc bound
later-lt none n bound h f = absurd (none_ne_some h)
  where
    none_ne_some : {n : ℕ} → ◌≡◌ {A = Option ℕ} none (some n) → ⊥
    none_ne_some h = cc
later-lt (some m) n bound h f = omega (arith, f m refl, some-injective h)

find-lt : (p s : Bytes) (n : ℕ) → find p s ≡ some n → n < length s
unfolding find
find-lt p [] n h = cc
find-lt p (c ∷ s) n h = elim (Bool-cases (starts_with p (c ∷ s))) [
  | inl here ↦ omega (arith, some-injective (sym (found here) ∙ h))
  | inr not_here ↦ later-lt (find p s) n (length s) (sym (not_found not_here) ∙ h) (find-lt p s)
]
  where
    found : starts_with p (c ∷ s) ≡ true → find p (c ∷ s) ≡ some 0
    found e = rw e refl

    not_found :
        starts_with p (c ∷ s) ≡ false
        → find p (c ∷ s) ≡ (elim (find p s) [ none ↦ none | some m ↦ some (m + 1) ])
    not_found e = rw e refl

-- What is found lies in the text, and not before the start.
pub find_from-range :
    (p s : Bytes) (start n : ℕ) → find_from p s start ≡ some n → (start ≤ n) × (n < length s)
unfolding find_from
find_from-range p s start n h =
    in_range (find p (drop start s)) h (λ m e. find-lt p (drop start s) m e)
  where
    in_range :
        (o : Option ℕ)
        → ◌≡◌ {A = Option ℕ} (elim o [ none ↦ none | some m ↦ some (start + m) ]) (some n)
        → ((m : ℕ) → o ≡ some m → m < length (drop start s))
        → (start ≤ n) × (n < length s)
    in_range none h f = absurd (none_ne_some h)
      where
        none_ne_some : {n : ℕ} → ◌≡◌ {A = Option ℕ} none (some n) → ⊥
        none_ne_some h = cc
    in_range (some m) h f = (
      omega (arith, some-injective h),
      omega (arith, f m refl, some-injective h, length-drop {0} start s),
    )

-- A first part without the first byte of what is looked for.
pub find-append :
    (c : ℕ) (p l s : Bytes) (n : ℕ)
    → Lacks c l
    → find (c ∷ p) s ≡ some n
    → find (c ∷ p) (l ++ s) ≡ some (length l + n)
unfolding find
find-append c p [] s n h e = e ∙ ap some (omega arith)
find-append c p (d ∷ l) s n (hd, h) e =
    rw (not_here d c p (l ++ s) hd, find-append c p l s n h e) (ap some (omega arith))
  where
    not_here : (d c : ℕ) (p s : Bytes) → d ≢ c → starts_with (c ∷ p) (d ∷ s) ≡ false
    not_here d c p s h = ground arith

pub find-Lacks : (c : ℕ) (p s : Bytes) → Lacks c s → find (c ∷ p) s ≡ none
unfolding find
find-Lacks c p [] h = refl
find-Lacks c p (d ∷ s) (hd, h) = rw (not_here d c p s hd, find-Lacks c p s h) refl
  where
    not_here : (d c : ℕ) (p s : Bytes) → d ≢ c → starts_with (c ∷ p) (d ∷ s) ≡ false
    not_here d c p s h = ground arith

-- A search that starts behind a part of the text.
pub find_from-append :
    (p pre s view : Bytes) (start : ℕ) {n : ℕ}
    → view ≡ pre ++ s
    → start ≡ length pre
    → find p s ≡ some n
    → find_from p view start ≡ some (start + n)
unfolding find_from
find_from-append p pre s view start {n} e f g = rw (find_from, behind, g) refl
  where
    behind : drop start view ≡ s
    behind = ap (λ v. drop start v) e ∙ ap (λ k. drop k (pre ++ s)) f ∙ drop-append pre s

pub find_from-none :
    (p pre s view : Bytes) (start : ℕ)
    → view ≡ pre ++ s
    → start ≡ length pre
    → find p s ≡ none
    → find_from p view start ≡ none
unfolding find_from
find_from-none p pre s view start e f g = rw (find_from, behind, g) refl
  where
    behind : drop start view ≡ s
    behind = ap (λ v. drop start v) e ∙ ap (λ k. drop k (pre ++ s)) f ∙ drop-append pre s
