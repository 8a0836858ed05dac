-- ===== src/Serializer/Reader/Total.antt =====
-- src/lib/conversation_serializer.cc: `read` ends on every text.
use packet_replay.Base.{
  ℕ, zero, suc, ◌<◌, Bool, [], Option, none, some, Bytes, ok, err, runtime_error, ◌>>=◌, length,
  bytes_eq, codes, if◌then◌else◌, arith,
}
use packet_replay.Stream.{Stream, read_line, is_nil}
use packet_replay.Stream.Bounds.{
  Ends, Ends-bind, Ends-weaken, Ends-if, IsSound, Leaves, Reads, Leaves-trans, Takes-after,
  LeavesWith, LeavesWith-after, read_line-Reads,
}
use packet_replay.Util.{trim}
use packet_replay.Properties.{Properties, put_line}
use packet_replay.Action.{connect, send, recv, close}
use packet_replay.Serializer.{string_to_action_type, data_start_tag}
use packet_replay.Serializer.Data.{read_action_data}
use packet_replay.Serializer.Data.Total.{read_action_data-Ends}
use packet_replay.Serializer.Reader.{is_comment, next_line, get_line, find_type, read_props}

Reads-after :
    {A : Type 0} (s t : Stream) (r : Option A × Stream) → Leaves s t → Reads t r → Reads s r
Reads-after s t (none, u) l (k, e) = (Leaves-trans s t u l k, e)
Reads-after s t (some x, u) l k = Takes-after s t u l k

-- What the rest of a loop over lines is to do.
abbrev LinesEnd : ℕ → Type 0
LinesEnd fuel = (s : Stream) → IsSound s → length s.left < fuel → Ends (Reads s) (next_line fuel s)

next_line-next :
    (fuel : ℕ) (s t : Stream) (found : Option Bytes)
    → LinesEnd fuel
    → length s.left < suc fuel
    → Reads s (found, t)
    → Ends (Reads s) (elim found [
      | none ↦ ok (none, t)
      | some line ↦
          (let rest = next_line fuel t in if is_comment line then rest else ok (some line, t))
    ])
next_line-next fuel s t none more h k = k
next_line-next fuel s t (some line) more h k =
    Ends-if (Reads s) (is_comment line) (next_line fuel t) (ok (some line, t))
      (Ends-weaken (Reads t) (Reads s) (next_line fuel t)
        (more t k.leaves.sound (omega (arith, k.less))) (λ r. Reads-after s t r k.leaves))
      k

next_line-Ends : (fuel : ℕ) → LinesEnd fuel
unfolding next_line
next_line-Ends zero s sound h = absurd (omega arith)
next_line-Ends (suc fuel) s sound h =
    next_line-next fuel s (read_line s).1 (read_line s).0 (next_line-Ends fuel) h
      (read_line-Reads s sound)

pub get_line-Ends : (s : Stream) → IsSound s → Ends (Reads s) (get_line s)
get_line-Ends s sound = next_line-Ends (suc (suc (length s.left))) s sound (omega arith)

string_to_action_type-Ends : (s : Bytes) → Ends (λ _. Unit) (string_to_action_type s)
unfolding string_to_action_type
string_to_action_type-Ends s =
    Ends-if (λ _. Unit) (bytes_eq s (codes "CONNECT")) (ok connect) _ tt
      (Ends-if (λ _. Unit) (bytes_eq s (codes "SEND")) (ok send) _ tt
        (Ends-if (λ _. Unit) (bytes_eq s (codes "RECV")) (ok recv) _ tt
          (Ends-if (λ _. Unit) (bytes_eq s (codes "CLOSE")) (ok close) (err runtime_error) tt cc)))

abbrev TypesEnd : ℕ → Type 0
TypesEnd fuel = (s : Stream) → IsSound s → length s.left < fuel → Ends (Reads s) (find_type fuel s)

find_type-next :
    (fuel : ℕ) (s : Stream) (r : Option Bytes × Stream)
    → TypesEnd fuel
    → length s.left < suc fuel
    → Reads s r
    → Ends (Reads s) (elim r.0 [
      | none ↦ ok (none, r.1)
      | some line ↦
          (let rest = find_type fuel r.1 in
            if is_nil (trim line)
            then rest
            else (do type ← string_to_action_type (trim line); ok (some type, r.1)))
    ])
find_type-next fuel s (none, t) more h k = k
find_type-next fuel s (some line, t) more h k =
    Ends-if (Reads s) (is_nil (trim line)) (find_type fuel t) _
      (Ends-weaken (Reads t) (Reads s) (find_type fuel t)
        (more t k.leaves.sound (omega (arith, k.less))) (λ r. Reads-after s t r k.leaves))
      (Ends-bind (λ _. Unit) (Reads s) (string_to_action_type (trim line)) _
        (string_to_action_type-Ends (trim line)) (λ type _. k))

pub find_type-Ends : (fuel : ℕ) → TypesEnd fuel
unfolding find_type
find_type-Ends zero s sound h = absurd (omega arith)
find_type-Ends (suc fuel) s sound h =
    Ends-bind (Reads s) (Reads s) (get_line s) _ (get_line-Ends s sound)
      (λ r. find_type-next fuel s r (find_type-Ends fuel) h)

-- What is left behind the properties and the data.
abbrev pub PropsLeave : Stream → Properties × (Bytes × Stream) → Type 0
PropsLeave s (p, r) = LeavesWith s r

PropsLeave-after :
    (s t : Stream) (r : Properties × (Bytes × Stream))
    → Leaves s t
    → PropsLeave t r
    → PropsLeave s r
PropsLeave-after s t (p, r) l k = LeavesWith-after s t r l k

module _ (o : Bool) where
  abbrev PropsEnd : ℕ → Type 0
  PropsEnd fuel =
      (p : Properties) (s : Stream)
      → IsSound s
      → length s.left < fuel
      → Ends (PropsLeave s) (read_props fuel o p s)

  read_props-next :
      (fuel : ℕ) (p : Properties) (s : Stream) (r : Option Bytes × Stream)
      → PropsEnd fuel
      → length s.left < suc fuel
      → Reads s r
      → Ends (PropsLeave s) (elim r.0 [
        | none ↦ ok (p, ([], r.1))
        | some line ↦
            (let more = read_props fuel o p r.1 in
              let rest = read_props fuel o (put_line p (trim line)).0 r.1 in
              if is_nil (trim line)
              then more
              else if bytes_eq (trim line) data_start_tag
              then (do d ← read_action_data o r.1; ok (p, d))
              else rest)
      ])
  read_props-next fuel p s (none, t) more h k = k.0
  read_props-next fuel p s (some line, t) more h k =
      Ends-if (PropsLeave s) (is_nil (trim line)) (read_props fuel o p t) _ (later p) (
        Ends-if (PropsLeave s) (bytes_eq (trim line) data_start_tag) _
          (read_props fuel o (put_line p (trim line)).0 t)
          (Ends-bind (LeavesWith t) (PropsLeave s) (read_action_data o t) _
            (read_action_data-Ends o t k.leaves.sound) (λ r. LeavesWith-after s t r k.leaves))
          (later (put_line p (trim line)).0))
    where
      later : (q : Properties) → Ends (PropsLeave s) (read_props fuel o q t)
      later q =
          Ends-weaken (PropsLeave t) (PropsLeave s) (read_props fuel o q t)
            (more q t k.leaves.sound (omega (arith, k.less))) (λ r. PropsLeave-after s t r k.leaves)

  pub read_props-Ends : (fuel : ℕ) → PropsEnd fuel
  unfolding read_props
  read_props-Ends zero p s sound h = absurd (omega arith)
  read_props-Ends (suc fuel) p s sound h =
      Ends-bind (Reads s) (PropsLeave s) (get_line s) _ (get_line-Ends s sound)
        (λ r. read_props-next fuel p s r (read_props-Ends fuel) h)
