-- ===== src/HttpReplay/Exchange.antt =====
-- src/http_replay/http_replay.cc: a request and its response, as `replay` plays them.
use mathlib.Core.List.{append-nil}
use packet_replay.Base.{
  ℕ, suc, ◌+◌, ◌-◌, ◌≤◌, ◌≡◌, ◌↔◌, refl, ap, sym, ◌∙◌, Bool, true, false, not, List, [], ◌∷◌, ◌++◌,
  Bytes, All, ok, length, replicate, if◌then◌else◌, ok-injective, ◌==◌, arith, inl, inr, subst,
}
use packet_replay.Base.Int.{ℤ, pos, negsuc}
use packet_replay.Validator.{int_eq}
use packet_replay.Action.{Action, send, recv, with_bytes}
use packet_replay.Network.{Network}
use packet_replay.Http.ContentLen.Pieces.{filled, concat}
use packet_replay.Http.Header.Fields.{
  StatusLine, IsStatusLine, Field, IsField, head_text, put_fields,
}
use packet_replay.Http.Response.{
  HttpResponseProcessor, content_len, reset, head_end, complete, compare_responses,
}
use packet_replay.Http.Response.Pieces.{in_body}
use packet_replay.Http.Response.Received.{SaysLength}
use packet_replay.Http.Response.Compare.{IsWhole, compare_responses_lem, compare_responses_defined}
use packet_replay.Http.Response.Completes.{
  Completes, at_end, one_more, NoneEmpty, response-Completes,
}
use packet_replay.HttpReplay.{
  HttpReplayClient, act, pop_action, expect, is_different, send_action, recv_action, replay_loop,
}
use packet_replay.HttpReplay.Sending.{IsWriter, SomeFailure, send_action_lem}
use packet_replay.HttpReplay.Receiving.{Delivers, Delivers-rest, read_loop-Completes}

-- A response with a body of the length that its header gives.
pub record Response : Type 0 where
  pub line : StatusLine
  pub fields : List Field
  pub text : Bytes

abbrev pub head_of : Response → Bytes
head_of a = head_text a.line a.fields ++ head_end

-- What it says is read with the fields that the processor has kept from others.
pub record IsResponse (r : HttpResponseProcessor) (a : Response) : Type 0 where
  pub line_is : IsStatusLine a.line
  pub fields_are : All IsField a.fields
  pub says : SaysLength (put_fields r.headers a.fields) (length a.text)

-- The processor that has got all of it.
abbrev pub got_all : HttpResponseProcessor → Response → HttpResponseProcessor
got_all r a = in_body r a.line a.fields (content_len (filled (length a.text) a.text))

expect-Completes :
    {e f : HttpResponseProcessor} {bytes : Bytes}
    → Completes e (bytes ∷ []) f
    → expect e bytes ≡ ok f
unfolding expect
expect-Completes (one_more n p (at_end c)) = rw (expect, n, p) refl

full_payload : (s : Bytes) → (filled (length s) s).payload ≡ s
full_payload s = ap (λ k. s ++ replicate k 0) (none_left (length s)) ∙ append-nil s
  where
    none_left : (n : ℕ) → n - n ≡ 0
    none_left n = omega arith

filled-IsWhole : (s : Bytes) → IsWhole (filled (length s) s)
filled-IsWhole s = record { all_read = refl; all_held = sym (ap length (full_payload s)) }

is_different_of :
    (e r : HttpResponseProcessor) (z : ℤ)
    → complete e ≡ ok true
    → compare_responses e r ≡ ok z
    → is_different e r ≡ ok (not (int_eq z (pos 0)))
unfolding is_different
is_different_of e r z d c = rw (is_different, c, d) refl

complete-got_all : (r : HttpResponseProcessor) (a : Response) → complete (got_all r a) ≡ ok true
unfolding complete
complete-got_all r a = ap ok (all_there (length a.text))
  where
    all_there : (n : ℕ) → (n == n) ≡ true
    all_there n = ground arith

-- Whether a difference is reported.
is_different_lem :
    (e r : HttpResponseProcessor) (a b : Response)
    → (t : Bool) × (is_different (got_all e a) (got_all r b) ≡ ok t)
      × ((t ≡ false) ↔ ((a.line.code ≡ b.line.code) × (a.text ≡ b.text)))
is_different_lem e r a b = (
  not (int_eq result.0 (pos 0)),
  is_different_of (got_all e a) (got_all r b) result.0 (complete-got_all e a) result.1,
  (
    (λ h.
        let (codes_same, same) = law.0 (result.1 ∙ ap ok (not_different result.0 h)) in
        (codes_same, sym (full_payload a.text) ∙ same ∙ full_payload b.text)),
    (λ h. no_difference result.0 (
        ok-injective
          (sym result.1 ∙ law.1 (h.0, full_payload a.text ∙ h.1 ∙ sym (full_payload b.text))))),
  ),
)
  where
    result : (z : ℤ) × (compare_responses (got_all e a) (got_all r b) ≡ ok z)
    result =
        compare_responses_defined (got_all e a) (got_all r b) a.line.code b.line.code _ _ refl refl
          refl refl (filled-IsWhole a.text) (filled-IsWhole b.text)

    law : (compare_responses (got_all e a) (got_all r b) ≡ ok (pos 0)) ↔ (
        (a.line.code ≡ b.line.code)
        × ((filled (length a.text) a.text).payload ≡ (filled (length b.text) b.text).payload))
    law =
        compare_responses_lem (got_all e a) (got_all r b) a.line.code b.line.code _ _ refl refl refl
          refl (filled-IsWhole a.text) (filled-IsWhole b.text)

    not_different : (z : ℤ) → not (int_eq z (pos 0)) ≡ false → z ≡ pos 0
    not_different (pos n) h = ground arith
    not_different (negsuc n) h = cc

    no_difference : (z : ℤ) → z ≡ pos 0 → not (int_eq z (pos 0)) ≡ false
    no_difference z h = rw h refl

-- The response in pieces, the first of which holds the head.
abbrev pub pieces_of : Response → Bytes → List Bytes → List Bytes
pieces_of b x xs = (head_text b.line b.fields ++ (head_end ++ x)) ∷ xs

-- The response in one piece.
abbrev pub message : Response → Bytes
message a = head_text a.line a.fields ++ (head_end ++ a.text)

pieces_complete :
    (r : HttpResponseProcessor) (b : Response) (x : Bytes) (xs : List Bytes)
    → IsResponse r b
    → b.text ≡ concat (x ∷ xs)
    → NoneEmpty xs
    → Completes (reset r) (pieces_of b x xs) (got_all r b)
pieces_complete r b x xs h whole m =
    subst
      (λ t.
        Completes (reset r) (pieces_of b x xs)
          (in_body r b.line b.fields (content_len (filled (length b.text) t))))
      (sym whole)
      (response-Completes r b.line b.fields (length b.text) x xs h.line_is h.fields_are h.says m
        (ap length (sym whole)))

-- The differences reported, with one more if there is one.
count_of : (t : Bool) (k : ℕ) → (k + (if t then 1 else 0) ≡ k) ↔ (t ≡ false)
count_of true k = ((λ h. absurd (omega arith)), (λ h. cc))
count_of false k = ((λ h. refl), (λ h. omega arith))

module _ {W : Type 0} (net : Network W) where
  recv_action-Completes :
      (c : HttpReplayClient W) (fuel : ℕ) (bytes : Bytes) (xs : List Bytes)
      {e r : HttpResponseProcessor} {v : W} {t : Bool}
      → Completes c.expected_processor (bytes ∷ []) e
      → Completes c.test_processor xs r
      → Delivers net c.socket c.world xs v
      → length xs ≤ fuel
      → is_different e r ≡ ok t
      → recv_action net fuel c bytes
        ≡ ok (record c {
          expected_processor = e;
          test_processor = r;
          differences = c.differences + (if t then 1 else 0);
          world = v;
        })
  unfolding recv_action
  recv_action-Completes c fuel bytes xs e r d f t =
      rw (recv_action, expect-Completes e, read_loop-Completes net r d fuel f, t) refl

  replay_two :
      (c b d : HttpReplayClient W) (fuel : ℕ) (request response : Bytes) (queue : List Action)
      → send_action net c request ≡ ok b
      → recv_action net fuel (pop_action (with_bytes recv response ∷ queue) b) response ≡ ok d
      → replay_loop net fuel (with_bytes send request ∷ with_bytes recv response ∷ queue) c
        ≡ replay_loop net fuel queue (pop_action queue d)
  unfolding replay_loop act
  replay_two c b d fuel request response queue e f =
      rw (replay_loop, act, e, replay_loop, act, f) refl

  -- A request and its response in the queue, with bodies of the lengths that their headers give,
  -- played on a system whose `write` writes what it says and never fails, against a server that
  -- answers the request with a response in pieces, of which the first holds the head, and with fuel
  -- for as many reads as there are pieces: both actions are played without an exception, the replay
  -- goes on with the rest of the queue on the same socket, and a difference was reported exactly if
  -- the two responses differ in status or body.
  pub exchange_replayed :
      (sent : ℤ → W → Bytes) (c : HttpReplayClient W) (fuel : ℕ) (request : Bytes)
      (queue : List Action) (a b : Response) (x : Bytes) (xs : List Bytes)
      → IsWriter net sent
      → ¬ SomeFailure net c.socket
      → IsResponse c.expected_processor a
      → IsResponse c.test_processor b
      → b.text ≡ concat (x ∷ xs)
      → ((v : W)
          → sent c.socket v ≡ sent c.socket c.world ++ request
          → (u : W) × Delivers net c.socket v (pieces_of b x xs) u)
      → suc (length xs) ≤ fuel
      → (d : HttpReplayClient W) × (replay_loop net fuel
            (with_bytes send request ∷ with_bytes recv (message a) ∷ queue)
            c
          ≡ replay_loop net fuel queue d)
        × (d.socket ≡ c.socket)
        × ((d.differences ≡ c.differences) ↔ ((a.line.code ≡ b.line.code) × (a.text ≡ b.text)))
  exchange_replayed sent c fuel request queue a b x xs law ok_writes ia ib whole answers f =
      elim (send_action_lem net sent law c request) [
        | inl (e, fails) ↦ absurd (ok_writes fails)
        | inr (v, e, t) ↦
            (let (u, d) = answers v t in
              let (m, n, law') = is_different_lem c.expected_processor c.test_processor a b in
              let done =
                recv_action-Completes
                  (pop_action (with_bytes recv (message a) ∷ queue) (record c {
                    expected_processor = reset c.expected_processor;
                    test_processor = reset c.test_processor;
                    world = v;
                  }))
                  fuel (message a) (pieces_of b x xs)
                  (pieces_complete c.expected_processor a a.text [] ia (sym (append-nil a.text)) tt)
                  (pieces_complete c.test_processor b x xs ib whole (Delivers-rest net d)) d f n in
              (
                _,
                replay_two c _ _ fuel request (message a) queue e done,
                refl,
                (
                  (λ h. law'.0 ((count_of m c.differences).0 h)),
                  (λ h. (count_of m c.differences).1 (law'.1 h)),
                ),
              ))
      ]
