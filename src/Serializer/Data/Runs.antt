-- ===== src/Serializer/Data/Runs.antt =====
-- src/lib/conversation_serializer.cc: `read_action_data` on a text of runs, each of which has no '>'
-- and is followed by one, up to the tag.
use mathlib.Core.List.{List, append_assoc}
use packet_replay.Base.{
  ◌≤◌, ◌≡◌, ◌≢◌, refl, ap, sym, ◌∙◌, [], ◌∷◌, ◌++◌, Bytes, ok, length, length-append, arith,
}
use packet_replay.Stream.{stream_of}
use packet_replay.Util.Tokens.{Lacks}
use packet_replay.Serializer.{data_end_tag}
use packet_replay.Serializer.Data.{DataBuffer, leave, again, check_tag}
use packet_replay.Serializer.Data.Steps.{tag_body, check_tag-other, check_tag-tag}

-- What follows a run: a '>', and behind it the text `tail`, or a run more.
abbrev pub more_text : List Bytes → Bytes → Bytes
more_text [] tail = b'>' ∷ tail
more_text (r ∷ rs) tail = b'>' ∷ (r ++ more_text rs tail)

-- The text `whole` with the runs behind it is the data `bytes` and the tag without its '>'; no '>' before
-- ends a tag, and no two of them are neighbours.
abbrev pub IsRuns : Bytes → List Bytes → Bytes → Type 0
IsRuns whole [] bytes = whole ≡ bytes ++ tag_body
IsRuns whole (r ∷ rs) bytes =
    ((z : Bytes) → whole ≢ z ++ tag_body)
    × (r ≢ [])
    × Lacks b'>' r
    × IsRuns (whole ++ b'>' ∷ r) rs bytes

append-same_length : (s t u v : Bytes) → length u ≡ length v → s ++ u ≡ t ++ v → (s ≡ t) × (u ≡ v)
append-same_length [] [] u v h e = (refl, e)
append-same_length [] (y ∷ t) u v h e =
    absurd (omega (arith, ap length e, length-append {0} (y ∷ t) v))
append-same_length (x ∷ s) [] u v h e =
    absurd (omega (arith, ap length e, length-append {0} (x ∷ s) u))
append-same_length (x ∷ s) (y ∷ t) u v h e = let (f, g) = append-same_length s t u v h cc in (cc, g)

-- A text whose last 11 bytes are not the tag's.
pub no_tag : (u v : Bytes) → length v ≡ 11 → v ≢ tag_body → (z : Bytes) → u ++ v ≢ z ++ tag_body
no_tag u v h n z e = n (append-same_length u z v tag_body h e).1

pub check_tag-IsMoved :
    (found buf bytes tail : Bytes)
    → length buf ≡ 12
    → found ++ buf ≡ bytes ++ tag_body
    → check_tag (record { found = found; buf = buf }) (stream_of (b'>' ∷ tail))
      ≡ ok (leave bytes (stream_of tail))
check_tag-IsMoved found [] bytes tail h e = absurd (omega arith)
check_tag-IsMoved found (x ∷ xs) bytes tail h e =
    let (f, t) =
      append-same_length (found ++ x ∷ []) bytes xs tag_body (omega arith)
        (append_assoc found (x ∷ []) xs ∙ e) in
    rw (t, sym f) (check_tag-tag found x tail)

-- The buffer behind a '>' that ends no tag.
pub record IsBehind (e : DataBuffer) (whole : Bytes) : Type 0 where
  pub thirteen : length e.buf ≡ 13
  pub whole_is : e.found ++ e.buf ≡ whole ++ b'>' ∷ []

pub check_tag-IsBehind :
    (found buf whole s : Bytes)
    → length buf ≡ 12
    → found ++ buf ≡ whole
    → ((z : Bytes) → whole ≢ z ++ tag_body)
    → (e : DataBuffer) × (check_tag (record { found = found; buf = buf }) (stream_of (b'>' ∷ s))
        ≡ ok (again e (stream_of s)))
      × IsBehind e whole
check_tag-IsBehind found [] whole s h w n = absurd (omega arith)
check_tag-IsBehind found (x ∷ xs) whole s h w n = (
  record { found = found; buf = x ∷ (xs ++ b'>' ∷ []) },
  check_tag-other found x xs s (omega arith) no_tag,
  record {
    thirteen = omega (arith, length-append {0} xs (b'>' ∷ []));
    whole_is = sym (append_assoc found (x ∷ xs) (b'>' ∷ [])) ∙ ap (λ v. v ++ b'>' ∷ []) w;
  },
)
  where
    no_tag : xs ≢ tag_body
    no_tag t =
        n (found ++ x ∷ [])
          (sym w ∙ ap (λ v. found ++ x ∷ v) t ∙ sym (append_assoc found (x ∷ []) tag_body))

pub more_text-IsRuns :
    (rs : List Bytes) (whole bytes tail : Bytes)
    → IsRuns whole rs bytes
    → whole ++ more_text rs tail ≡ bytes ++ (data_end_tag ++ tail)
more_text-IsRuns [] whole bytes tail w =
    ap (λ v. v ++ b'>' ∷ tail) w ∙ append_assoc bytes tag_body (b'>' ∷ tail)
more_text-IsRuns (r ∷ rs) whole bytes tail (n, some_r, l, w) =
    sym (append_assoc whole (b'>' ∷ r) (more_text rs tail))
    ∙ more_text-IsRuns rs (whole ++ b'>' ∷ r) bytes tail w

-- Data that can be read back: with the tag behind it, it falls into runs without a '>', with one '>'
-- behind each of them. The first run has 12 bytes or more and the others are not empty, and no '>'
-- but the last ends a tag.
pub record IsStorable (bytes : Bytes) : Type 0 where
  pub run : Bytes
  pub more : List Bytes
  pub twelve : 12 ≤ length run
  pub lacks : Lacks b'>' run
  pub runs : IsRuns run more bytes

Lacks-tag_body : (bytes : Bytes) → Lacks b'>' bytes → Lacks b'>' (bytes ++ tag_body)
Lacks-tag_body [] l = ground arith
Lacks-tag_body (c ∷ s) (n, l) = (n, Lacks-tag_body s l)

pub Lacks-IsStorable : (bytes : Bytes) → bytes ≢ [] → Lacks b'>' bytes → IsStorable bytes
Lacks-IsStorable bytes n l = record {
  run = bytes ++ tag_body;
  more = [];
  twelve = omega (arith, length-append {0} bytes tag_body, length-pos bytes n);
  lacks = Lacks-tag_body bytes l;
  runs = refl;
}
  where
    length-pos : (s : Bytes) → s ≢ [] → 1 ≤ length s
    length-pos [] h = absurd (h refl)
    length-pos (c ∷ s) h = omega arith
