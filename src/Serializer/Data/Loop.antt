-- ===== src/Serializer/Data/Loop.antt =====
-- src/lib/conversation_serializer.cc: the loop of `read_action_data` on a text of runs.
use mathlib.Core.List.{List, append_assoc}
use packet_replay.Base.{
  ℕ, zero, suc, ◌-◌, ◌≤◌, ◌<◌, ◌≡◌, ◌≢◌, refl, ap, sym, subst, ◌∙◌, true, [], ◌∷◌, ◌++◌, Bytes, ok,
  length, length-append, length-drop, take, drop, arith, Bool-cases, ltb, ◌⊎◌, inl, inr,
}
use packet_replay.Stream.{Stream, stream_of}
use packet_replay.Util.Tokens.{Lacks}
use packet_replay.Serializer.{data_end_tag}
use packet_replay.Serializer.Data.{
  DataBuffer, leave, again, read_round, data_loop, read_action_data,
}
use packet_replay.Serializer.Data.Steps.{
  tag_body, take-drop, IsMoved, IsReady, room, read_round-short, read_round-long,
}
use packet_replay.Serializer.Data.Runs.{
  more_text, IsRuns, IsBehind, check_tag-IsMoved, check_tag-IsBehind, more_text-IsRuns, IsStorable,
}

Lacks-drop : (n : ℕ) (s : Bytes) → Lacks b'>' s → Lacks b'>' (drop n s)
Lacks-drop zero s l = l
Lacks-drop (suc n) [] l = l
Lacks-drop (suc n) (c ∷ s) l = Lacks-drop n s l.1

data_loop-leave :
    (fuel : ℕ) (b : DataBuffer) (s t : Stream) (bytes : Bytes)
    → read_round true b s ≡ ok (leave bytes t)
    → data_loop (suc fuel) true b s ≡ ok (bytes, t)
unfolding data_loop
data_loop-leave fuel b s t bytes e = rw e refl

data_loop-again :
    (fuel : ℕ) (b d : DataBuffer) (s t : Stream)
    → read_round true b s ≡ ok (again d t)
    → data_loop (suc fuel) true b s ≡ data_loop fuel true d t
unfolding data_loop
data_loop-again fuel b d s t e = rw e refl

IsMoved-IsReady : (d : DataBuffer) (rest whole : Bytes) → IsMoved d whole → IsReady d rest
IsMoved-IsReady d rest whole m = record {
  at_most = omega (arith, m.twelve);
  enough = omega (arith, m.twelve);
  twelve = λ _. m.twelve;
}

IsBehind-IsReady :
    (e : DataBuffer) (rest whole : Bytes) → IsBehind e whole → rest ≢ [] → IsReady e rest
IsBehind-IsReady e rest whole m n = record {
  at_most = omega (arith, m.thirteen);
  enough = omega (arith, m.thirteen);
  twelve = λ h. absurd (n h);
}

-- What the loop is to do with runs.
abbrev ReadsRuns : ℕ → List Bytes → Bytes → Bytes → Type 0
ReadsRuns fuel rs bytes tail =
    (b : DataBuffer) (rest : Bytes)
    → IsReady b rest
    → Lacks b'>' rest
    → IsRuns (b.found ++ (b.buf ++ rest)) rs bytes
    → length (rest ++ more_text rs tail) < fuel
    → data_loop fuel true b (stream_of (rest ++ more_text rs tail)) ≡ ok (bytes, stream_of tail)

IsMoved-drop :
    (b d : DataBuffer) (k : ℕ) (rest : Bytes)
    → IsMoved d (b.found ++ (b.buf ++ take k rest))
    → b.found ++ (b.buf ++ rest) ≡ d.found ++ (d.buf ++ drop k rest)
IsMoved-drop b d k rest m =
    ap (λ v. b.found ++ (b.buf ++ v)) (sym (take-drop k rest))
    ∙ ap (λ v. b.found ++ v) (sym (append_assoc b.buf (take k rest) (drop k rest)))
    ∙ sym (append_assoc b.found (b.buf ++ take k rest) (drop k rest))
    ∙ ap (λ v. v ++ drop k rest) (sym m.whole_is)
    ∙ append_assoc d.found d.buf (drop k rest)

IsBehind-append :
    (e : DataBuffer) (whole r : Bytes)
    → IsBehind e whole
    → whole ++ b'>' ∷ r ≡ e.found ++ (e.buf ++ r)
IsBehind-append e whole r i =
    sym (append_assoc whole (b'>' ∷ []) r)
    ∙ ap (λ v. v ++ r) (sym i.whole_is)
    ∙ append_assoc e.found e.buf r

-- The last '>' is met.
data_loop-last :
    (fuel : ℕ) (b : DataBuffer) (rest bytes tail : Bytes)
    → IsReady b rest
    → Lacks b'>' rest
    → b.found ++ (b.buf ++ rest) ≡ bytes ++ tag_body
    → length rest < room b
    → data_loop (suc fuel) true b (stream_of (rest ++ b'>' ∷ tail)) ≡ ok (bytes, stream_of tail)
data_loop-last fuel b rest bytes tail r l w h =
    let (d, e, m) = read_round-short b rest tail r l h in
    data_loop-leave fuel b _ _ bytes
      (e ∙ check_tag-IsMoved d.found d.buf bytes tail m.twelve (m.whole_is ∙ w))

-- Another '>' is met.
data_loop-next :
    (fuel : ℕ) (b : DataBuffer) (rest : Bytes) (r : Bytes) (rs : List Bytes) (bytes tail : Bytes)
    → ReadsRuns fuel rs bytes tail
    → IsReady b rest
    → Lacks b'>' rest
    → IsRuns (b.found ++ (b.buf ++ rest)) (r ∷ rs) bytes
    → length (rest ++ more_text (r ∷ rs) tail) < suc fuel
    → length rest < room b
    → data_loop (suc fuel) true b (stream_of (rest ++ more_text (r ∷ rs) tail))
      ≡ ok (bytes, stream_of tail)
data_loop-next fuel b rest r rs bytes tail more ready l (n, some_r, lr, w) h k =
    let (d, e, m) = read_round-short b rest (r ++ more_text rs tail) ready l k in
    let (f, g, i) =
      check_tag-IsBehind d.found d.buf _ (r ++ more_text rs tail) m.twelve m.whole_is n in
    data_loop-again fuel b f _ _ (e ∙ g)
    ∙ more f r (IsBehind-IsReady f r _ i some_r) lr
        (subst (λ v. IsRuns v rs bytes) (IsBehind-append f _ r i) w)
        (omega (arith, length-append {0} rest (more_text (r ∷ rs) tail)))

-- No '>' is met.
data_loop-long :
    (fuel : ℕ) (b : DataBuffer) (rest : Bytes) (rs : List Bytes) (bytes tail : Bytes) (n : ℕ)
    → ReadsRuns fuel rs bytes tail
    → IsReady b rest
    → Lacks b'>' rest
    → IsRuns (b.found ++ (b.buf ++ rest)) rs bytes
    → length (rest ++ more_text rs tail) < suc fuel
    → room b ≡ suc n
    → suc n ≤ length rest
    → data_loop (suc fuel) true b (stream_of (rest ++ more_text rs tail))
      ≡ ok (bytes, stream_of tail)
data_loop-long fuel b rest rs bytes tail n more ready l w h k e =
    let (d, f, m) = read_round-long b rest (more_text rs tail) n ready l k e in
    data_loop-again fuel b d _ _ f
    ∙ more d (drop (suc n) rest) (IsMoved-IsReady d _ _ m) (Lacks-drop (suc n) rest l)
        (subst (λ v. IsRuns v rs bytes) (IsMoved-drop b d (suc n) rest m) w)
        (omega (
          arith,
          length-append {0} rest (more_text rs tail),
          length-append {0} (drop (suc n) rest) (more_text rs tail),
          length-drop {0} (suc n) rest,
        ))

room-cases :
    (b : DataBuffer) (rest : Bytes)
    → IsReady b rest
    → (length rest < room b) ⊎ ((n : ℕ) × (room b ≡ suc n) × (suc n ≤ length rest))
room-cases b rest r = elim (Bool-cases (ltb (length rest) (room b))) [
  | inl e ↦ inl (ground arith)
  | inr e ↦ inr (room b - 1, omega (arith, r.at_most), le (ground arith))
]
  where
    le : room b ≤ length rest → suc (room b - 1) ≤ length rest
    le h = omega (arith, r.at_most)

data_loop-ReadsRuns :
    (fuel : ℕ) (rs : List Bytes) (bytes tail : Bytes) → ReadsRuns fuel rs bytes tail
data_loop-ReadsRuns zero rs bytes tail b rest r l w h = absurd (omega arith)
data_loop-ReadsRuns (suc fuel) [] bytes tail b rest r l w h = elim (room-cases b rest r) [
  | inl k ↦ data_loop-last fuel b rest bytes tail r l w k
  | inr (n, e, k) ↦
      data_loop-long fuel b rest [] bytes tail n (data_loop-ReadsRuns fuel [] bytes tail) r l w h e
        k
]
data_loop-ReadsRuns (suc fuel) (s ∷ rs) bytes tail b rest r l w h = elim (room-cases b rest r) [
  | inl k ↦
      data_loop-next fuel b rest s rs bytes tail (data_loop-ReadsRuns fuel rs bytes tail) r l w h k
  | inr (n, e, k) ↦
      data_loop-long fuel b rest (s ∷ rs) bytes tail n
        (data_loop-ReadsRuns fuel (s ∷ rs) bytes tail) r l w h e k
]

-- Let `bytes` be data that with "<#DATA_END#>" behind it falls into runs without a '>', with one '>'
-- behind each of them, such that the first run has 12 bytes or more, the others are not empty, and
-- no '>' but the last stands behind "<#DATA_END#". On `bytes`, the tag "<#DATA_END#>" and any text
-- behind it, `read_action_data` returns `bytes`, whatever its length, and leaves that text, when the
-- library's `memcpy` copies also where the two places overlap.
pub read_action_data_lem :
    (bytes tail : Bytes)
    → IsStorable bytes
    → read_action_data true (stream_of (bytes ++ (data_end_tag ++ tail)))
      ≡ ok (bytes, stream_of tail)
unfolding read_action_data
read_action_data_lem bytes tail storable =
    ap (λ s. read_action_data true (stream_of s))
      (sym (more_text-IsRuns storable.more storable.run bytes tail storable.runs))
    ∙ (data_loop-ReadsRuns (suc (length (storable.run ++ more_text storable.more tail)))
        storable.more bytes tail (record { found = []; buf = [] }) storable.run ready storable.lacks
        storable.runs (omega arith))
  where
    ready : IsReady (record { found = []; buf = [] }) storable.run
    ready = record {
      at_most = omega arith;
      enough = omega (arith, storable.twelve);
      twelve = λ e. absurd (omega (arith, storable.twelve, ap length e));
    }
