-- ===== src/Http/Response/Errors.antt =====
-- src/http_replay/http_response_processor.cc: the end of the head, and a read that ends before it.
use mathlib.Core.List.{append_assoc}
use packet_replay.Base.{
  Option-cases, ℕ, suc, ◌+◌, ◌≡◌, ◌≢◌, refl, ap, sym, ◌∙◌, Bool, true, false, List, [], ◌∷◌, ◌++◌,
  none, some, Bytes, All, ok, err, fault, required, ◌>>=◌, length, length-append, ltb, ◌==◌, ◌&&◌,
  if◌then◌else◌, arith, inl, inr, Bool-cases,
}
use packet_replay.Util.Tokens.{Lacks}
use packet_replay.Util.Search.{starts_with}
use packet_replay.Http.Header.Fields.{
  StatusLine, IsStatusLine, Field, IsField, head_text, status_text, field_line, field_lines,
}
use packet_replay.Http.Response.{
  HttpResponseProcessor, reset, head_end, find_end, find_end_from, is_complete, process_data,
  process_head,
}

-- The text has an empty line after its first.
abbrev pub HasEnd : Bytes → Type 0
HasEnd s = (a : Bytes) × (b : Bytes) × (s ≡ a ++ head_end ++ b)

starts_with-splits : (p s : Bytes) → starts_with p s ≡ true → (b : Bytes) × (s ≡ p ++ b)
starts_with-splits [] s h = (s, refl)
starts_with-splits (c ∷ p) [] h = cc
starts_with-splits (c ∷ p) (d ∷ s) h =
    let (same, later) = both (c == d) (starts_with p s) h in
    let (b, e) = starts_with-splits p s later in (b, λ i. number c d same i ∷ e i)
  where
    both : (x y : Bool) → (x && y) ≡ true → (x ≡ true) × (y ≡ true)
    both false y h = cc
    both true y h = (refl, h)

    number : (c d : ℕ) → (c == d) ≡ true → d ≡ c
    number c d h = ground arith

none_ne_some : {n : ℕ} → none ≢ some n
none_ne_some h = cc

find_end_later :
    (c : ℕ) (s : Bytes)
    → starts_with head_end (c ∷ s) ≡ false
    → find_end s ≡ none
    → find_end (c ∷ s) ≡ none
unfolding find_end
find_end_later c s h e = rw (h, e) refl

find_end-HasEnd : (s : Bytes) (n : ℕ) → find_end s ≡ some n → HasEnd s
unfolding find_end
find_end-HasEnd [] n h = cc
find_end-HasEnd (c ∷ s) n h = elim (Bool-cases (starts_with head_end (c ∷ s))) [
  | inl here ↦ (let (b, e) = starts_with-splits head_end (c ∷ s) here in ([], b, e))
  | inr not_here ↦ elim (Option-cases (find_end s)) [
    | inl none_later ↦ absurd (none_ne_some (sym (find_end_later c s not_here none_later) ∙ h))
    | inr (m, later) ↦ (let (a, b, e) = find_end-HasEnd s m later in (c ∷ a, b, λ i. c ∷ e i))
  ]
]

pub find_end-none : (s : Bytes) → ¬ HasEnd s → find_end s ≡ none
find_end-none s h = elim (Option-cases (find_end s)) [
  | inl e ↦ e
  | inr (n, e) ↦ absurd (h (find_end-HasEnd s n e))
]

no_processor :
    (t : Bool) (s : HttpResponseProcessor)
    → s.data_processor ≡ none
    → ◌>>=◌ {U = HttpResponseProcessor × Bool}
        (if t then ok s else ok s)
        (λ s. do p ← required s.data_processor fault; ok (s, is_complete p))
      ≡ err fault
no_processor true s h = rw h refl
no_processor false s h = rw h refl

-- If the first read of a response, by a processor that was reset, does not reach the end of the
-- head, the null pointer to a data processor is followed.
pub head_incomplete :
    (r : HttpResponseProcessor) (bytes : Bytes)
    → ¬ HasEnd bytes
    → process_data (reset r) bytes ≡ err fault
unfolding process_data process_head reset find_end_from
head_incomplete r bytes h =
    rw (find_end-none bytes h) (no_processor (ltb 3 (0 + length bytes)) _ refl)

find_end_step :
    (c : ℕ) (s : Bytes) (n : ℕ)
    → starts_with head_end (c ∷ s) ≡ false
    → find_end s ≡ some n
    → find_end (c ∷ s) ≡ some (suc n)
unfolding find_end
find_end_step c s n h e = rw (h, e) (ap some (omega arith))

not_start : (c : ℕ) (s : Bytes) → c ≢ 13 → starts_with head_end (c ∷ s) ≡ false
not_start c s h = ground arith

find_end_skip :
    (l s : Bytes) (n : ℕ)
    → Lacks 13 l
    → find_end s ≡ some n
    → find_end (l ++ s) ≡ some (length l + n)
find_end_skip [] s n h e = e ∙ ap some (omega arith)
find_end_skip (c ∷ l) s n (hc, h) e =
    find_end_step c (l ++ s) _ (not_start c (l ++ s) hc) (find_end_skip l s n h e)
    ∙ ap some (omega arith)

-- A line end that another line end does not follow at once.
find_end_line :
    (b : ℕ) (s : Bytes) (n : ℕ)
    → b ≢ 13
    → find_end (b ∷ s) ≡ some n
    → find_end (13 ∷ 10 ∷ b ∷ s) ≡ some (suc (suc n))
find_end_line b s n h e =
    find_end_step 13 (10 ∷ b ∷ s) _ (ground arith)
      (find_end_step 10 (b ∷ s) n (not_start 10 (b ∷ s) (omega arith)) e)

find_end_here : (x : Bytes) → find_end (head_end ++ x) ≡ some 0
unfolding find_end
find_end_here x = refl

first_byte :
    (n c tail : Bytes) (k : ℕ)
    → Lacks 13 (n ++ b':' ∷ c)
    → find_end tail ≡ some k
    → find_end (13 ∷ 10 ∷ ((n ++ b':' ∷ c) ++ tail)) ≡ some (suc (suc (length (n ++ b':' ∷ c) + k)))
first_byte [] c tail k l e =
    find_end_line b':' (c ++ tail) _ l.0 (find_end_skip (b':' ∷ c) tail k l e)
first_byte (b ∷ n) c tail k l e =
    find_end_line b ((n ++ b':' ∷ c) ++ tail) _ l.0 (find_end_skip (b ∷ (n ++ b':' ∷ c)) tail k l e)

find_end_fields :
    (fs : List Field) (x : Bytes)
    → All IsField fs
    → find_end (field_lines fs ++ (head_end ++ x)) ≡ some (length (field_lines fs))
find_end_fields [] x h = find_end_here x
find_end_fields (f ∷ fs) x h =
    ap (λ s. find_end (13 ∷ 10 ∷ s)) (append_assoc (field_line f) (field_lines fs) (head_end ++ x))
    ∙ first_byte f.name f.content (field_lines fs ++ (head_end ++ x)) _ h.0.no_return
        (find_end_fields fs x h.1)
    ∙ ap some (omega (arith, length-append {0} (field_line f) (field_lines fs)))

-- The search finds the end of a head that a server has written.
pub find_end-head_text :
    (l : StatusLine) (fs : List Field) (x : Bytes)
    → IsStatusLine l
    → All IsField fs
    → find_end (head_text l fs ++ (head_end ++ x)) ≡ some (length (head_text l fs))
find_end-head_text l fs x w ws =
    rw (append_assoc (status_text l) (field_lines fs) (head_end ++ x)) (
      find_end_skip (status_text l) (field_lines fs ++ (head_end ++ x)) _ w.no_return
        (find_end_fields fs x ws)
      ∙ ap some (omega (arith, length-append {0} (status_text l) (field_lines fs))))
