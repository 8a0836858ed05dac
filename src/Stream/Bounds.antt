-- ===== src/Stream/Bounds.antt =====
-- `std::istream`: what the reads take. A computation that ends is described by what holds of its
-- result, if it gives one.
use mathlib.Core.Bool.{true≢false}
use packet_replay.Base.{
  ℕ, zero, suc, ◌+◌, ◌≤◌, ◌<◌, ◌≡◌, ◌≢◌, refl, some-injective, ap, sym, ◌∙◌, Bool, true, false, [],
  ◌∷◌, Option, none, some, Bytes, Result, ok, err, Error, diverges, guard, ◌>>=◌, length, ◌==◌,
  if◌then◌else◌, arith,
}
use packet_replay.Stream.{
  Stream, stream_of, cut_line, read_line, peek, get_byte, cut_at, get_until, is_nil, good_line,
  line_at,
}

-- The computation does not run out of fuel, and its result, if there is one, satisfies `P`.
abbrev pub Ends {ℓ} : {A : Type ℓ} → (A → Type 0) → Result A → Type 0
Ends P (ok x) = P x
Ends P (err e) = e ≢ diverges

pub Ends-bind {ℓ κ} :
    {A : Type ℓ} {B : Type κ} (P : A → Type 0) (Q : B → Type 0) (r : Result A) (next : A → Result B)
    → Ends P r
    → ((x : A) → P x → Ends Q (next x))
    → Ends Q (r >>= next)
Ends-bind P Q (ok x) next p h = h x p
Ends-bind P Q (err e) next p h = p

pub Ends-weaken {ℓ} :
    {A : Type ℓ} (P Q : A → Type 0) (r : Result A) → Ends P r → ((x : A) → P x → Q x) → Ends Q r
Ends-weaken P Q (ok x) p h = h x p
Ends-weaken P Q (err e) p h = p

pub Ends-if {ℓ} :
    {A : Type ℓ} (P : A → Type 0) (b : Bool) (x y : Result A)
    → Ends P x
    → Ends P y
    → Ends P (if b then x else y)
Ends-if P true x y p q = p
Ends-if P false x y p q = q

-- A stream fails only at its end.
abbrev pub IsSound : Stream → Type 0
IsSound s = s.failed ≡ true → s.eof ≡ true

-- What a read leaves of a stream.
pub record Leaves (s t : Stream) : Type 0 where
  pub sound : IsSound t
  pub no_more : length t.left ≤ length s.left
  pub at_end : s.eof ≡ true → t.eof ≡ true

-- Something was taken.
pub record Takes (s t : Stream) : Type 0 where
  pub leaves : Leaves s t
  pub less : length t.left < length s.left

-- A read that gives something takes something; one that gives nothing has met the end.
abbrev pub Reads {ℓ} : {A : Type ℓ} → Stream → Option A × Stream → Type 0
Reads s (none, t) = Leaves s t × (t.eof ≡ true)
Reads s (some x, t) = Takes s t

abbrev stream : Bytes → Bool → Bool → Stream
stream l e f = record { left = l; eof = e; failed = f }

-- A read from a stream that is not good.
fails : (l : Bytes) (f : Bool) → Leaves (stream l true f) (stream l true true)
fails l f = record { sound = λ h. refl; no_more = omega arith; at_end = λ h. refl }

-- A result with the stream that is left.
abbrev pub LeavesWith {ℓ} : {A : Type ℓ} → Stream → A × Stream → Type 0
LeavesWith s (x, t) = Leaves s t

cut_line-length : (s rest : Bytes) → (cut_line s).1 ≡ some rest → length rest < length s
unfolding cut_line
cut_line-length [] rest e = absurd cc
cut_line-length (c ∷ s) rest e = go (c == b'\n') (cut_line-length s rest) e
  where
    go :
        (b : Bool)
        → ((cut_line s).1 ≡ some rest → length rest < length s)
        → (if◌then◌else◌ {A = Bytes × Option Bytes} b
            ([], some s)
            (c ∷ (cut_line s).0, (cut_line s).1)).1
          ≡ some rest
        → length rest < suc (length s)
    go true h f = omega (arith, ap length (some-injective f))
    go false h f = omega (arith, h f)

good_line-Reads : (s : Bytes) → Reads (stream_of s) (good_line s)
good_line-Reads [] = (record { sound = λ h. refl; no_more = omega arith; at_end = λ h. refl }, refl)
good_line-Reads (c ∷ s) = go (cut_line (c ∷ s)).0 (cut_line (c ∷ s)).1 refl
  where
    go :
        (l : Bytes) (o : Option Bytes)
        → (cut_line (c ∷ s)).1 ≡ o
        → Reads (stream_of (c ∷ s)) (line_at (l, o))
    go l none e = record {
      leaves = record { sound = λ h. refl; no_more = omega arith; at_end = λ h. refl };
      less = omega arith;
    }
    go l (some rest) e =
        let shorter = cut_line-length (c ∷ s) rest e in
        record {
          leaves = record { sound = λ h. h; no_more = omega arith; at_end = λ h. h };
          less = shorter;
        }

read_line-cases :
    (l : Bytes) (e f : Bool)
    → (f ≡ true → e ≡ true)
    → Reads (stream l e f) (read_line (stream l e f))
unfolding read_line
read_line-cases l true f h = (fails l f, refl)
read_line-cases l false true h = absurd (true≢false (sym (h refl)))
read_line-cases l false false h = good_line-Reads l

pub read_line-Reads : (s : Stream) → IsSound s → Reads s (read_line s)
read_line-Reads s sound = read_line-cases s.left s.eof s.failed sound

get_byte-cases :
    (l : Bytes) (e f : Bool)
    → (f ≡ true → e ≡ true)
    → Reads (stream l e f) (get_byte (stream l e f))
unfolding get_byte
get_byte-cases l true f h = (fails l f, refl)
get_byte-cases l false true h = absurd (true≢false (sym (h refl)))
get_byte-cases [] false false h =
    (record { sound = λ h. refl; no_more = omega arith; at_end = λ h. refl }, refl)
get_byte-cases (c ∷ l) false false h = record {
  leaves = record { sound = λ h. h; no_more = omega arith; at_end = λ h. h };
  less = omega arith;
}

pub get_byte-Reads : (s : Stream) → IsSound s → Reads s (get_byte s)
get_byte-Reads s sound = get_byte-cases s.left s.eof s.failed sound

peek-cases :
    (l : Bytes) (e f : Bool) → (f ≡ true → e ≡ true) → Leaves (stream l e f) (peek (stream l e f)).1
unfolding peek
peek-cases l true f h = fails l f
peek-cases l false true h = absurd (true≢false (sym (h refl)))
peek-cases [] false false h = record {
  sound = λ h. refl;
  no_more = omega arith;
  at_end = λ h. refl;
}
peek-cases (c ∷ l) false false h = record { sound = λ h. h; no_more = omega arith; at_end = λ h. h }

pub peek-Leaves : (s : Stream) → IsSound s → Leaves s (peek s).1
peek-Leaves s sound = peek-cases s.left s.eof s.failed sound

cut_at-length : (d n : ℕ) (s : Bytes) → length (cut_at d n s).0 + length (cut_at d n s).1 ≡ length s
unfolding cut_at
cut_at-length d zero s = omega arith
cut_at-length d (suc n) [] = refl
cut_at-length d (suc n) (c ∷ s) = go (c == d) (cut_at-length d n s)
  where
    go :
        (b : Bool)
        → length (cut_at d n s).0 + length (cut_at d n s).1 ≡ length s
        → let r =
            if◌then◌else◌ {A = Bytes × Bytes} b
              ([], c ∷ s)
              (c ∷ (cut_at d n s).0, (cut_at d n s).1) in
          length r.0 + length r.1 ≡ suc (length s)
    go true h = omega arith
    go false h = omega arith

nil-length : (t : Bytes) → is_nil t ≡ false → 1 ≤ length t
nil-length [] h = absurd (true≢false h)
nil-length (c ∷ t) h = omega arith

get_until-cases :
    (d n : ℕ) (l : Bytes) (e f : Bool)
    → is_nil (get_until d n (stream l e f)).0 ≡ false
    → Takes (stream l e f) (get_until d n (stream l e f)).1
unfolding get_until
get_until-cases d n l true f h = absurd (true≢false h)
get_until-cases d n l false true h = absurd (true≢false h)
get_until-cases d n l false false h =
    let some_read = nil-length (cut_at d n l).0 h in
    let all = cut_at-length d n l in
    record {
      leaves = record {
        sound = λ k. absurd (true≢false (sym k ∙ h));
        no_more = omega arith;
        at_end = λ k. absurd (true≢false (sym k));
      };
      less = omega arith;
    }

-- A read up to a delimiter takes something when it gives something.
pub get_until-Takes :
    (d n : ℕ) (s : Stream) → is_nil (get_until d n s).0 ≡ false → Takes s (get_until d n s).1
get_until-Takes d n s = get_until-cases d n s.left s.eof s.failed

pub Leaves-trans : (s t u : Stream) → Leaves s t → Leaves t u → Leaves s u
Leaves-trans s t u a b = record {
  sound = b.sound;
  no_more = omega (arith, a.no_more, b.no_more);
  at_end = λ h. b.at_end (a.at_end h);
}

pub Takes-after : (s t u : Stream) → Leaves s t → Takes t u → Takes s u
Takes-after s t u a b = record {
  leaves = Leaves-trans s t u a b.leaves;
  less = omega (arith, a.no_more, b.less);
}

pub Takes-before : (s t u : Stream) → Takes s t → Leaves t u → Takes s u
Takes-before s t u a b = record {
  leaves = Leaves-trans s t u a.leaves b;
  less = omega (arith, b.no_more, a.less);
}

pub guard-Ends : (b : Bool) (e : Error) → e ≢ diverges → Ends (λ _. b ≡ true) (guard b e)
guard-Ends true e h = refl
guard-Ends false e h = h

pub LeavesWith-after {ℓ} :
    {A : Type ℓ} (s t : Stream) (r : A × Stream) → Leaves s t → LeavesWith t r → LeavesWith s r
LeavesWith-after s t (x, u) a b = Leaves-trans s t u a b
