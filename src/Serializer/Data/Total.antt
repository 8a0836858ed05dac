-- ===== src/Serializer/Data/Total.antt =====
-- src/lib/conversation_serializer.cc: `read_action_data` ends on every stream.
use mathlib.Core.Bool.{true≢false}
use packet_replay.Base.{
  ℕ, zero, suc, ◌<◌, ◌≡◌, refl, sym, ◌∙◌, Bool, true, false, not, [], ◌∷◌, ◌++◌, Option, none, some,
  Bytes, ok, fault, runtime_error, guard, length, take, drop, ◌-◌, leb, bytes_eq, ◌||◌, ◌==◌,
  if◌then◌else◌, arith,
}
use packet_replay.Stream.{Stream, peek, get_byte, get_until, is_nil}
use packet_replay.Stream.Bounds.{
  Ends, Ends-bind, Ends-weaken, Ends-if, guard-Ends, IsSound, Leaves, Takes, Reads, Leaves-trans,
  LeavesWith, LeavesWith-after, Takes-after, get_until-Takes, get_byte-Reads, peek-Leaves,
}
use packet_replay.Serializer.{data_end_tag}
use packet_replay.Serializer.Data.{
  buf_size, is_delim, DataBuffer, Step, leave, again, end_step, eof_byte, check_tag, take_chunk,
  got_chunk, chunk_round, read_round, data_loop, read_action_data,
}

-- A round that goes on has taken something.
abbrev StepTakes : Stream → Step → Type 0
StepTakes s (leave found t) = Leaves s t
StepTakes s (again d t) = Takes s t

end_step-StepTakes :
    (s t : Stream) (b : DataBuffer)
    → Leaves s t
    → (t.eof ≡ false → Takes s t)
    → StepTakes s (end_step b t)
end_step-StepTakes s t b l h = go t.eof refl
  where
    go : (e : Bool) → t.eof ≡ e → StepTakes s (if e then leave b.found t else again b t)
    go true e = l
    go false e = h e

StepTakes-after : (s t : Stream) (x : Step) → Leaves s t → StepTakes t x → StepTakes s x
StepTakes-after s t (leave found u) a b = Leaves-trans s t u a b
StepTakes-after s t (again d u) a b = Takes-after s t u a b

StepTakes-if :
    (s : Stream) (b : Bool) (x y : Step)
    → StepTakes s x
    → StepTakes s y
    → StepTakes s (if b then x else y)
StepTakes-if s true x y p q = p
StepTakes-if s false x y p q = q

-- What `check_tag` compares, and the two ways it ends.
abbrev last : DataBuffer → Option ℕ → Bytes
last b o = take 12 b.buf ++ (eof_byte o ∷ [])

abbrev at_tag : DataBuffer → Option ℕ → Bool
at_tag b o = bytes_eq (drop 1 (last b o)) data_end_tag

abbrev data_ends : DataBuffer → Option ℕ → Stream → Step
data_ends b o t = leave (b.found ++ take 1 (last b o)) t

abbrev data_goes_on : DataBuffer → Option ℕ → Stream → Step
data_goes_on b o t = end_step (record b { buf = last b o }) t

check_tag-Ends : (b : DataBuffer) (s : Stream) → IsSound s → Ends (StepTakes s) (check_tag b s)
unfolding check_tag
check_tag-Ends b s sound =
    Ends-bind (λ _. leb 12 (length b.buf) ≡ true) (StepTakes s)
      (guard (leb 12 (length b.buf)) fault) _ (guard-Ends (leb 12 (length b.buf)) fault cc)
      (λ _ _. go (get_byte s).0 (get_byte s).1 (get_byte-Reads s sound))
  where
    go :
        (o : Option ℕ) (t : Stream)
        → Reads s (o, t)
        → StepTakes s (if at_tag b o then data_ends b o t else data_goes_on b o t)
    go none t (l, e) =
        StepTakes-if s (at_tag b none) (data_ends b none t) (data_goes_on b none t) l (
          end_step-StepTakes s t (record b { buf = last b none }) l
            (λ h. absurd (true≢false (sym e ∙ h))))
    go (some c) t k =
        StepTakes-if s (at_tag b (some c)) (data_ends b (some c) t) (data_goes_on b (some c) t)
          k.leaves (end_step-StepTakes s t (record b { buf = last b (some c) }) k.leaves (λ _. k))

take_chunk-Ends :
    (o : Bool) (b : DataBuffer) (chunk : Bytes) → Ends (λ _. Unit) (take_chunk o b chunk)
unfolding take_chunk
take_chunk-Ends o b chunk =
    Ends-bind _ (λ _. Unit) (guard (leb 12 (length (b.buf ++ chunk))) fault) _
      (guard-Ends _ fault cc)
      (λ _ _.
        Ends-bind _ (λ _. Unit) (guard (o || leb 12 (length (b.buf ++ chunk) - 12)) fault) _
          (guard-Ends _ fault cc) (λ _ _. tt))

got_chunk-Ends :
    (o : Bool) (room : ℕ) (b : DataBuffer) (s t : Stream) (chunk : Bytes)
    → (is_nil chunk ≡ false → Takes s t)
    → Ends (StepTakes s) (got_chunk o room b (chunk, t))
unfolding got_chunk
got_chunk-Ends o room b s t chunk h =
    Ends-bind _ (StepTakes s) (guard (not (is_nil chunk)) runtime_error) _
      (guard-Ends _ runtime_error cc)
      (λ _ some_read.
        let k = h (not_nil (is_nil chunk) some_read) in
        Ends-bind (λ _. Unit) (StepTakes s) (take_chunk o b chunk) _ (take_chunk-Ends o b chunk)
          (λ d _.
            Ends-if (StepTakes s) (length chunk == room) (ok (end_step d t)) (check_tag d t)
              (end_step-StepTakes s t d k.leaves (λ _. k))
              (Ends-weaken (StepTakes t) (StepTakes s) (check_tag d t)
                (check_tag-Ends d t k.leaves.sound) (λ x. StepTakes-after s t x k.leaves))))
  where
    not_nil : (b : Bool) → not b ≡ true → b ≡ false
    not_nil true e = sym e
    not_nil false e = refl

read_round-Ends :
    (o : Bool) (b : DataBuffer) (s : Stream) → IsSound s → Ends (StepTakes s) (read_round o b s)
unfolding read_round chunk_round
read_round-Ends o b s sound =
    let t = (peek s).1 in
    let l = peek-Leaves s sound in
    let room = buf_size - length b.buf - 1 in
    Ends-if (StepTakes s) (is_delim (peek s).0) (check_tag b t) (chunk_round o room b t)
      (Ends-weaken (StepTakes t) (StepTakes s) (check_tag b t) (check_tag-Ends b t l.sound)
        (λ x. StepTakes-after s t x l))
      (got_chunk-Ends o room b s (get_until b'>' room t).1 (get_until b'>' room t).0
        (λ h. Takes-after s t (get_until b'>' room t).1 l (get_until-Takes b'>' room t h)))

-- What the rest of the loop is to do.
abbrev LoopEnds : ℕ → Bool → Type 0
LoopEnds fuel o =
    (b : DataBuffer) (s : Stream)
    → IsSound s
    → length s.left < fuel
    → Ends (LeavesWith s) (data_loop fuel o b s)

data_loop-next :
    (fuel : ℕ) (o : Bool) (s : Stream) (x : Step)
    → LoopEnds fuel o
    → length s.left < suc fuel
    → StepTakes s x
    → Ends
        (LeavesWith s)
        (elim x [ leave found t ↦ ok (found, t) | again d t ↦ data_loop fuel o d t ])
data_loop-next fuel o s (leave found t) more h l = l
data_loop-next fuel o s (again d t) more h k =
    Ends-weaken (LeavesWith t) (LeavesWith s) (data_loop fuel o d t)
      (more d t k.leaves.sound (omega (arith, k.less))) (λ r. LeavesWith-after s t r k.leaves)

data_loop-Ends : (fuel : ℕ) (o : Bool) → LoopEnds fuel o
unfolding data_loop
data_loop-Ends zero o b s sound h = absurd (omega arith)
data_loop-Ends (suc fuel) o b s sound h =
    Ends-bind (StepTakes s) (LeavesWith s) (read_round o b s) _ (read_round-Ends o b s sound)
      (λ x. data_loop-next fuel o s x (data_loop-Ends fuel o) h)

-- `read_action_data` ends, and gives back no more than it was given.
pub read_action_data-Ends :
    (o : Bool) (s : Stream) → IsSound s → Ends (LeavesWith s) (read_action_data o s)
unfolding read_action_data
read_action_data-Ends o s sound =
    data_loop-Ends (suc (length s.left)) o (record { found = []; buf = [] }) s sound (omega arith)
