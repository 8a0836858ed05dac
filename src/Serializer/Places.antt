-- ===== src/Serializer/Places.antt =====
-- src/lib/conversation_serializer.cc: the places `${name}` that `create_action` finds in a text.
use mathlib.Core.List.{append_assoc}
use packet_replay.Base.{
  ℕ, zero, suc, inl, inr, Option-cases, ◌+◌, ◌<◌, ◌≤◌, ◌≡◌, refl, ap, sym, ◌∙◌, List, [], ◌∷◌, ◌++◌,
  map, some, Bytes, ok, All, length, length-append, take, take-append_le, drop, drop-append, ◌-◌,
  arith,
}
use packet_replay.Base.Int.{ℤ, pos}
use packet_replay.Util.Tokens.{Lacks}
use packet_replay.Util.Search.{
  find, find-append, find-Lacks, find_from, find_from-append, find_from-none, find_from-range,
}
use packet_replay.Action.{Action, ActionType, SubToken}
use packet_replay.Serializer.{sub_prefix, sub_suffix, create_loop, create_action}

-- Some text, and the name of a value behind it.
pub record Part : Type 0 where
  pub literal : Bytes
  pub name : Bytes

abbrev pub IsPart : Part → Type 0
IsPart p = Lacks b'$' p.literal × Lacks b'}' p.name

-- The text with the names in their marks, and some text at its end.
abbrev pub render : List Part → Bytes → Bytes
render [] rest = rest
render (p ∷ ps) rest = p.literal ++ b'$' ∷ b'{' ∷ (p.name ++ b'}' ∷ render ps rest)

-- Where the marks start and end, in a text from an index.
abbrev pub ranges : ℕ → List Part → List (ℤ × ℤ)
ranges at [] = []
ranges at (p ∷ ps) =
    (pos (at + length p.literal), pos (at + length p.literal + 2 + length p.name + 1))
    ∷ ranges (at + length p.literal + 2 + length p.name + 1) ps

abbrev pub range_of : SubToken → ℤ × ℤ
range_of t = (t.begin_idx, t.end_idx)

find_prefix :
    (l s : Bytes) → Lacks b'$' l → find sub_prefix (l ++ b'$' ∷ b'{' ∷ s) ≡ some (length l)
unfolding find
find_prefix l s h =
    find-append b'$' (b'{' ∷ []) l (b'$' ∷ b'{' ∷ s) 0 h refl ∙ ap some (omega arith)

find_suffix : (l s : Bytes) → Lacks b'}' l → find sub_suffix (l ++ b'}' ∷ s) ≡ some (length l)
unfolding find
find_suffix l s h = find-append b'}' [] l (b'}' ∷ s) 0 h refl ∙ ap some (omega arith)

create_loop-found :
    (fuel : ℕ) (view : Bytes) (start s e : ℕ)
    → find_from sub_prefix view start ≡ some s
    → find_from sub_suffix view (s + 2) ≡ some e
    → {ts : List SubToken} → create_loop fuel view (e + 1) ≡ ok ts
    → create_loop (suc fuel) view start
      ≡ ok (
          record { token = take e (drop (s + 2) view); begin_idx = pos s; end_idx = pos (e + 1) }
          ∷ ts)
unfolding create_loop
create_loop-found fuel view start s e f g h = rw (create_loop, f, g, h) refl

before_name :
    (pre : Bytes) (p : Part) (x : Bytes)
    → pre ++ (p.literal ++ b'$' ∷ b'{' ∷ x) ≡ (pre ++ (p.literal ++ b'$' ∷ b'{' ∷ [])) ++ x
before_name pre p x =
    ap (λ s. pre ++ s) (sym (append_assoc p.literal (b'$' ∷ b'{' ∷ []) x))
    ∙ sym (append_assoc pre (p.literal ++ b'$' ∷ b'{' ∷ []) x)

after_mark : (pre name x : Bytes) → pre ++ (name ++ b'}' ∷ x) ≡ (pre ++ (name ++ b'}' ∷ [])) ++ x
after_mark pre name x =
    ap (λ s. pre ++ s) (sym (append_assoc name (b'}' ∷ []) x))
    ∙ sym (append_assoc pre (name ++ b'}' ∷ []) x)

length_to_name :
    (pre l : Bytes) → length (pre ++ (l ++ b'$' ∷ b'{' ∷ [])) ≡ length pre + length l + 2
length_to_name pre l =
    omega
      (arith, length-append {0} pre (l ++ b'$' ∷ b'{' ∷ []), length-append {0} l (b'$' ∷ b'{' ∷ []))

length_after : (pre n : Bytes) → length (pre ++ (n ++ b'}' ∷ [])) ≡ length pre + length n + 1
length_after pre n =
    omega (arith, length-append {0} pre (n ++ b'}' ∷ []), length-append {0} n (b'}' ∷ []))

length_render :
    (l n r : Bytes)
    → length (l ++ b'$' ∷ b'{' ∷ (n ++ b'}' ∷ r)) ≡ length l + 2 + length n + 1 + length r
length_render l n r =
    omega
      (arith, length-append {0} l (b'$' ∷ b'{' ∷ (n ++ b'}' ∷ r)), length-append {0} n (b'}' ∷ r))

create_loop-ranges :
    (ps : List Part) (rest pre view : Bytes) (start fuel : ℕ)
    → All IsPart ps
    → Lacks b'$' rest
    → view ≡ pre ++ render ps rest
    → start ≡ length pre
    → length (render ps rest) < fuel
    → (ts : List SubToken) × (create_loop fuel view start ≡ ok ts)
      × (map range_of ts ≡ ranges start ps)
unfolding create_loop
create_loop-ranges ps rest pre view start zero h l e f g = absurd (omega arith)
create_loop-ranges [] rest pre view start (suc fuel) h l e f g = (
  [],
  rw
      (
        create_loop,
        find_from-none sub_prefix pre rest view start e f (find-Lacks b'$' (b'{' ∷ []) rest l),
      )
      refl,
  refl,
)
create_loop-ranges (p ∷ ps) rest pre view start (suc fuel) h l e f g =
    let to_name = pre ++ (p.literal ++ b'$' ∷ b'{' ∷ []) in
    let at_name = e ∙ before_name pre p (p.name ++ b'}' ∷ render ps rest) in
    let name_start : start + length p.literal + 2 ≡ length to_name =
      omega (arith, f, length_to_name pre p.literal) in
    let (ts, later, marks) =
      create_loop-ranges ps rest (to_name ++ (p.name ++ b'}' ∷ [])) view
        (start + length p.literal + 2 + length p.name + 1) fuel h.1 l
        (at_name ∙ after_mark to_name p.name (render ps rest))
        (omega (arith, f, length_to_name pre p.literal, length_after to_name p.name))
        (omega (arith, g, length_render p.literal p.name (render ps rest))) in
    (
      _,
      create_loop-found fuel view start (start + length p.literal)
          (start + length p.literal + 2 + length p.name)
          (find_from-append sub_prefix pre (render (p ∷ ps) rest) view start e f
            (find_prefix p.literal _ h.0.0))
          (find_from-append sub_suffix to_name (p.name ++ b'}' ∷ render ps rest) view
            (start + length p.literal + 2) at_name name_start (find_suffix p.name _ h.0.1))
          later,
      ap
          (λ k.
            (pos (start + length p.literal), pos (start + length p.literal + 2 + length p.name + 1))
            ∷ k)
          marks,
    )

-- Of a text that has marks with names between other texts, where no name holds a '}' and no other
-- text a '$', `create_action` finds all marks, in order, each from its start to its end.
pub places_found :
    (t : ActionType) (ps : List Part) (rest : Bytes)
    → All IsPart ps
    → Lacks b'$' rest
    → (a : Action) × (create_action t (render ps rest) ≡ ok a)
      × (map range_of a.sub_tokens ≡ ranges 0 ps)
unfolding create_action
places_found t ps rest h l =
    let (ts, e, marks) =
      create_loop-ranges ps rest [] (render ps rest) 0 (suc (length (render ps rest))) h l refl refl
        (omega arith) in
    (record { type = t; bytes = render ps rest; sub_tokens = ts }, rw e refl, marks)

-- The loop comes to its end on any text: a round goes on behind what it has found.
create_loop-total :
    (fuel : ℕ) (view : Bytes) (start : ℕ)
    → start ≤ length view
    → length view < start + fuel
    → (ts : List SubToken) × (create_loop fuel view start ≡ ok ts)
unfolding create_loop
create_loop-total zero view start b h = absurd (omega arith)
create_loop-total (suc fuel) view start b h =
    elim (Option-cases (find_from sub_prefix view start)) [
      | inl nowhere ↦ ([], rw (create_loop, nowhere) refl)
      | inr (s, found) ↦ elim (Option-cases (find_from sub_suffix view (s + 2))) [
        | inl nowhere ↦ ([], rw (create_loop, found, nowhere) refl)
        | inr (e, end) ↦
            let (s_low, s_high) = find_from-range sub_prefix view start s found in
            let (e_low, e_high) = find_from-range sub_suffix view (s + 2) e end in
            let (ts, later) =
              create_loop-total fuel view (e + 1) (omega (arith, e_high))
                (omega (arith, s_low, e_low, h)) in
            (_, create_loop-found fuel view start s e found end later)
      ]
    ]

-- `create_action` makes an action of any data.
pub create_action-total :
    (t : ActionType) (bytes : Bytes) → (a : Action) × (create_action t bytes ≡ ok a)
unfolding create_action
create_action-total t bytes =
    let (ts, e) = create_loop-total (suc (length bytes)) bytes 0 (omega arith) (omega arith) in
    (record { type = t; bytes = bytes; sub_tokens = ts }, rw e refl)

-- The text that `substr` gives from the start of a name, with the index of its end as a length.
token_text :
    (l n x : Bytes)
    → take (length l + 2 + length n) (drop (length l + 2) (l ++ b'$' ∷ b'{' ∷ (n ++ b'}' ∷ x)))
      ≡ n ++ take (length l + 2) (b'}' ∷ x)
token_text l n x =
    ap (take (length l + 2 + length n)) behind
    ∙ take-append_le n (b'}' ∷ x) (length l + 2 + length n) (omega arith)
    ∙ ap (λ k. n ++ take k (b'}' ∷ x)) (rest_of (length l) (length n))
  where
    mark : length (l ++ b'$' ∷ b'{' ∷ []) ≡ length l + 2
    mark = length-append {0} l (b'$' ∷ b'{' ∷ [])

    behind : drop (length l + 2) (l ++ b'$' ∷ b'{' ∷ (n ++ b'}' ∷ x)) ≡ n ++ b'}' ∷ x
    behind =
        ap (λ k. drop k (l ++ b'$' ∷ b'{' ∷ (n ++ b'}' ∷ x))) (sym mark)
        ∙ ap (drop (length (l ++ b'$' ∷ b'{' ∷ [])))
            (sym (append_assoc l (b'$' ∷ b'{' ∷ []) (n ++ b'}' ∷ x)))
        ∙ drop-append (l ++ b'$' ∷ b'{' ∷ []) (n ++ b'}' ∷ x)

    rest_of : (a b : ℕ) → a + 2 + b - b ≡ a + 2
    rest_of a b = omega arith

-- The token of the first mark of a text is not the name in the mark alone: as many bytes as stand
-- before the name follow it, from the '}' on.
pub token_runs_on :
    (t : ActionType) (p : Part) (x : Bytes)
    → IsPart p
    → (ts : List SubToken) × (create_action t (p.literal ++ b'$' ∷ b'{' ∷ (p.name ++ b'}' ∷ x))
        ≡ ok (record {
          type = t;
          bytes = p.literal ++ b'$' ∷ b'{' ∷ (p.name ++ b'}' ∷ x);
          sub_tokens =
              record {
                token = p.name ++ take (length p.literal + 2) (b'}' ∷ x);
                begin_idx = pos (length p.literal);
                end_idx = pos (length p.literal + 2 + length p.name + 1);
              }
              ∷ ts;
        }))
unfolding create_action
token_runs_on t p x h =
    let view = p.literal ++ b'$' ∷ b'{' ∷ (p.name ++ b'}' ∷ x) in
    let to_name = p.literal ++ b'$' ∷ b'{' ∷ [] in
    let past_end = length p.literal + 2 + length p.name + 1 in
    let (ts, later) =
      create_loop-total (length view) view past_end
        (omega (arith, length_render p.literal p.name x))
        (omega (arith, length_render p.literal p.name x)) in
    let found =
      create_loop-found (length view) view 0 (length p.literal)
        (length p.literal + 2 + length p.name)
        (find_from-append sub_prefix [] view view 0 refl refl (find_prefix p.literal _ h.0)
          ∙ ap some (omega arith))
        (find_from-append sub_suffix to_name (p.name ++ b'}' ∷ x) view (length p.literal + 2)
          (sym (append_assoc p.literal (b'$' ∷ b'{' ∷ []) (p.name ++ b'}' ∷ x)))
          (sym (length-append p.literal (b'$' ∷ b'{' ∷ []))) (find_suffix p.name x h.1))
        later in
    (
      ts,
      rw found (
          ap
            (λ s. ok (record {
              type = t;
              bytes = view;
              sub_tokens =
                  record { token = s; begin_idx = pos (length p.literal); end_idx = pos past_end }
                  ∷ ts;
            }))
            (token_text p.literal p.name x)),
    )
