-- ===== src/Http/Response/Compare.antt =====
-- src/http_replay/http_response_processor.cc: `compare` of two responses.
use packet_replay.Base.{
  ℕ, ◌≡◌, ◌↔◌, refl, ap, sym, ◌∙◌, Bool, true, false, [], ◌∷◌, some, Bytes, Result, ok,
  ok-injective, ◌>>=◌, length, ◌==◌, if◌then◌else◌, Ordering, arith, Bool-cases, inl, inr,
  compare_bytes, compare_bytes_refl, compare_bytes-eq,
}
use packet_replay.Base.Int.{ℤ, pos, sub_ℕ}
use packet_replay.Memory.{memcmp, read_bytes}
use packet_replay.Validator.{minus}
use packet_replay.Http.ContentLen
use packet_replay.Http.ContentLen.{ContentLenProcessor, sign}
use packet_replay.Http.Chunked.Compare.{sign_zero}
use packet_replay.Http.Response.{HttpResponseProcessor, content_len, complete, compare_responses}

read_whole : (p : Bytes) → read_bytes p (length p) ≡ ok p
unfolding read_bytes
read_whole [] = refl
read_whole (b ∷ p) = rw (read_whole p) refl

-- All of the body is there, and the buffer is of its size.
pub record IsWhole (c : ContentLenProcessor) : Type 0 where
  pub all_read : c.payload_size ≡ c.payload_read
  pub all_held : c.payload_size ≡ length c.payload

memcmp_whole :
    (p q : Bytes) (n : ℕ) → n ≡ length p → n ≡ length q → memcmp p q n ≡ ok (compare_bytes p q)
unfolding memcmp
memcmp_whole p q n e f =
    rw (memcmp, ap (read_bytes p) e ∙ read_whole p, ap (read_bytes q) f ∙ read_whole q) refl

memcmp_zero :
    (p q : Bytes) (n : ℕ)
    → n ≡ length p
    → n ≡ length q
    → (◌>>=◌ {U = ℤ} (memcmp p q n) (λ o. ok (sign o)) ≡ ok (pos 0)) ↔ (p ≡ q)
memcmp_zero p q n e f = (
  (λ h.
      compare_bytes-eq p q
        (sign_zero (compare_bytes p q) (ok-injective (sym (signed (memcmp_whole p q n e f)) ∙ h)))),
  (λ h.
      signed (memcmp_whole p q n e f)
      ∙ ap (λ o. ok (sign o)) (ap (compare_bytes p) (sym h) ∙ compare_bytes_refl p)),
)
  where
    signed :
        {o : Result Ordering} {x : Ordering}
        → o ≡ ok x
        → ◌>>=◌ {U = ℤ} o (λ o. ok (sign o)) ≡ ok (sign x)
    signed e = rw e refl

sizes_differ : (a b : ℕ) → (b == a) ≡ false → ok (sub_ℕ a b) ≡ ok (pos 0) → ⊥
sizes_differ a b h e = ground arith

bodies_same :
    (c d : ContentLenProcessor)
    → (d.payload_size == c.payload_size) ≡ true
    → ContentLen.compare_with c d ≡ (do o ← memcmp c.payload d.payload c.payload_size; ok (sign o))
unfolding ContentLen.compare_with
bodies_same c d e = rw e refl

bodies_differ :
    (c d : ContentLenProcessor)
    → (d.payload_size == c.payload_size) ≡ false
    → ContentLen.compare_with c d ≡ ok (sub_ℕ c.payload_size d.payload_size)
unfolding ContentLen.compare_with
bodies_differ c d e = rw e refl

bodies_zero :
    (c d : ContentLenProcessor)
    → IsWhole c
    → IsWhole d
    → (ContentLen.compare_with c d ≡ ok (pos 0)) ↔ (c.payload ≡ d.payload)
bodies_zero c d w v = elim (Bool-cases (d.payload_size == c.payload_size)) [
  | inl same ↦
      (let equal = memcmp_zero c.payload d.payload c.payload_size w.all_held (sizes same) in
        ((λ h. equal.0 (sym (bodies_same c d same) ∙ h)), (λ h. bodies_same c d same ∙ equal.1 h)))
  | inr differ ↦ (
    (λ h. absurd (sizes_differ _ _ differ (sym (bodies_differ c d differ) ∙ h))),
    (λ h. absurd (same_size differ (ap length h))),
  )
]
  where
    sizes : (d.payload_size == c.payload_size) ≡ true → c.payload_size ≡ length d.payload
    sizes h = ground (arith, v.all_held)

    same_size : (d.payload_size == c.payload_size) ≡ false → length c.payload ≡ length d.payload → ⊥
    same_size h e = ground (arith, v.all_held, w.all_held)

minus_zero : (a b : ℕ) → minus (pos a) (pos b) ≡ pos 0 → a ≡ b
minus_zero a b h = ground arith

is_complete-IsWhole : (c : ContentLenProcessor) → IsWhole c → ContentLen.is_complete c ≡ true
is_complete-IsWhole c w = ground (arith, w.all_read)

compare_responses_whole :
    (r s : HttpResponseProcessor) (a b : ℕ) (c d : ContentLenProcessor)
    → r.status_code ≡ pos a
    → s.status_code ≡ pos b
    → r.data_processor ≡ some (content_len c)
    → s.data_processor ≡ some (content_len d)
    → IsWhole c
    → IsWhole d
    → compare_responses r s
      ≡ (if a == b then ContentLen.compare_with c d else ok (minus (pos a) (pos b)))
unfolding compare_responses complete
compare_responses_whole r s a b c d er es ec ed w v =
    rw
      (
        compare_responses,
        complete,
        er,
        es,
        ec,
        ed,
        is_complete-IsWhole c w,
        is_complete-IsWhole d v,
      )
      refl

-- Two complete responses with bodies of given lengths are the same to `compare` exactly if they
-- have the same status and the same body.
pub compare_responses_lem :
    (r s : HttpResponseProcessor) (a b : ℕ) (c d : ContentLenProcessor)
    → r.status_code ≡ pos a
    → s.status_code ≡ pos b
    → r.data_processor ≡ some (content_len c)
    → s.data_processor ≡ some (content_len d)
    → IsWhole c
    → IsWhole d
    → (compare_responses r s ≡ ok (pos 0)) ↔ ((a ≡ b) × (c.payload ≡ d.payload))
compare_responses_lem r s a b c d er es ec ed w v = elim (Bool-cases (a == b)) [
  | inl same ↦ (
    (λ h. (ground arith, (bodies_zero c d w v).0 (sym (chosen same) ∙ sym whole ∙ h))),
    (λ h. whole ∙ chosen same ∙ (bodies_zero c d w v).1 h.1),
  )
  | inr differ ↦ (
    (λ h.
        absurd
          (not_equal differ (minus_zero a b (ok-injective (sym (other differ) ∙ sym whole ∙ h))))),
    (λ h. absurd (not_equal differ h.0)),
  )
]
  where
    whole :
        compare_responses r s
        ≡ (if a == b then ContentLen.compare_with c d else ok (minus (pos a) (pos b)))
    whole = compare_responses_whole r s a b c d er es ec ed w v

    chosen :
        (a == b) ≡ true
        → (if a == b then ContentLen.compare_with c d else ok (minus (pos a) (pos b)))
          ≡ ContentLen.compare_with c d
    chosen e = rw e refl

    other :
        (a == b) ≡ false
        → (if a == b then ContentLen.compare_with c d else ok (minus (pos a) (pos b)))
          ≡ ok (minus (pos a) (pos b))
    other e = rw e refl

    not_equal : (a == b) ≡ false → a ≡ b → ⊥
    not_equal h e = ground arith

memcmp_defined :
    (p q : Bytes) (n : ℕ)
    → n ≡ length p
    → n ≡ length q
    → (z : ℤ) × (◌>>=◌ {U = ℤ} (memcmp p q n) (λ o. ok (sign o)) ≡ ok z)
memcmp_defined p q n e f = (sign (compare_bytes p q), rw (memcmp_whole p q n e f) refl)

-- The comparison of such responses throws nothing.
pub compare_responses_defined :
    (r s : HttpResponseProcessor) (a b : ℕ) (c d : ContentLenProcessor)
    → r.status_code ≡ pos a
    → s.status_code ≡ pos b
    → r.data_processor ≡ some (content_len c)
    → s.data_processor ≡ some (content_len d)
    → IsWhole c
    → IsWhole d
    → (z : ℤ) × (compare_responses r s ≡ ok z)
compare_responses_defined r s a b c d er es ec ed w v =
    let (z, e) = chosen (a == b) in (z, compare_responses_whole r s a b c d er es ec ed w v ∙ e)
  where
    bodies :
        (t : Bool)
        → (d.payload_size == c.payload_size) ≡ t
        → (z : ℤ) × (ContentLen.compare_with c d ≡ ok z)
    bodies true e =
        let (z, f) =
          memcmp_defined c.payload d.payload c.payload_size w.all_held
            (ground (arith, v.all_held)) in
        (z, bodies_same c d e ∙ f)
    bodies false e = (_, bodies_differ c d e)

    chosen :
        (t : Bool)
        → (z : ℤ) × ((if t then ContentLen.compare_with c d else ok (minus (pos a) (pos b))) ≡ ok z)
    chosen true = bodies (d.payload_size == c.payload_size) refl
    chosen false = (_, refl)
