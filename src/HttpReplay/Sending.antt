-- ===== src/HttpReplay/Sending.antt =====
-- src/http_replay/http_replay.cc: the loop of SEND, with a system that writes what it says.
use mathlib.Core.List.{append_assoc, append-nil}
use packet_replay.Base.{
  ℕ, zero, suc, ◌≤◌, ◌≡◌, refl, ap, sym, subst, ◌∙◌, ◌⊎◌, inl, inr, [], ◌∷◌, ◌++◌, Bytes, Result,
  ok, err, runtime_error, length, length-drop, take, drop, arith,
}
use packet_replay.Base.Int.{ℤ, pos, negsuc}
use packet_replay.Network.{Network}
use packet_replay.Http.Response.{reset}
use packet_replay.HttpReplay.{HttpReplayClient, write_loop, send_action}

-- What is documented of `write` on a stream: it fails, or it writes as many of the first bytes as it
-- says. `sent` is what was written to the socket until then.
abbrev pub IsWriter : {W : Type 0} → Network W → (ℤ → W → Bytes) → Type 0
IsWriter {W} net sent =
    (s : ℤ) (bytes : Bytes) (w : W)
    → ((k : ℕ) × ((net.write s bytes w).1 ≡ negsuc k))
      ⊎ ((k : ℕ) × ((net.write s bytes w).1 ≡ pos k)
          × (k ≤ length bytes)
          × (sent s (net.write s bytes w).0 ≡ sent s w ++ take k bytes))

take-drop : (k : ℕ) (xs : Bytes) → take k xs ++ drop k xs ≡ xs
take-drop zero xs = refl
take-drop (suc k) [] = refl
take-drop (suc k) (x ∷ xs) = λ i. x ∷ take-drop k xs i

-- What the client takes for a failure.
abbrev pub IsFailure : ℤ → Type 0
IsFailure (pos zero) = Unit
IsFailure (pos (suc k)) = ⊥
IsFailure (negsuc k) = Unit

-- A call of `write` with data has failed.
abbrev pub SomeFailure : {W : Type 0} → Network W → ℤ → Type 0
SomeFailure {W} net s = (v : W) × (b : ℕ) × (rest : Bytes) × IsFailure (net.write s (b ∷ rest) v).1

-- What a loop with enough fuel ends in.
abbrev pub Written : {W : Type 0} → Network W → (ℤ → W → Bytes) → ℤ → W → Bytes → Result W → Type 0
Written {W} net sent s w bytes r =
    ((r ≡ err runtime_error) × SomeFailure net s)
    ⊎ ((v : W) × (r ≡ ok v) × (sent s v ≡ sent s w ++ bytes))

module _ {W : Type 0} (net : Network W) (sent : ℤ → W → Bytes) (law : IsWriter net sent) where
  write_loop_ends :
      (fuel : ℕ) (s : ℤ) (bytes : Bytes) (w : W)
      → length bytes ≤ fuel
      → Written net sent s w bytes (write_loop net fuel s bytes w)
  unfolding write_loop
  write_loop_ends fuel s [] w h = inr (w, refl, sym (append-nil (sent s w)))
  write_loop_ends zero s (b ∷ bytes) w h = absurd (omega arith)
  write_loop_ends (suc fuel) s (b ∷ bytes) w h = elim (law s (b ∷ bytes) w) [
    | inl (k, e) ↦ inl (rw (write_loop, e) refl, (w, b, bytes, subst IsFailure (sym e) tt))
    | inr (zero, e, l, t) ↦ inl (rw (write_loop, e) refl, (w, b, bytes, subst IsFailure (sym e) tt))
    | inr (suc k, e, l, t) ↦
        rw (write_loop, e)
          (after k t
            (write_loop_ends fuel s (drop k bytes) _ (omega (arith, length-drop {0} k bytes))))
  ]
    where
      after :
          (k : ℕ)
          → sent s (net.write s (b ∷ bytes) w).0 ≡ sent s w ++ (b ∷ take k bytes)
          → Written net sent s
              (net.write s (b ∷ bytes) w).0
              (drop k bytes)
              (write_loop net fuel s (drop k bytes) (net.write s (b ∷ bytes) w).0)
          → Written net sent s w
              (b ∷ bytes)
              (write_loop net fuel s (drop k bytes) (net.write s (b ∷ bytes) w).0)
      after k t (inl e) = inl e
      after k t (inr (v, e, u)) = inr (
        v,
        e,
        u
            ∙ ap (λ x. x ++ drop k bytes) t
            ∙ append_assoc (sent s w) (b ∷ take k bytes) (drop k bytes)
            ∙ ap (λ x. sent s w ++ b ∷ x) (take-drop k bytes),
      )

  -- SEND on a system that writes what it says ends. Either a call to write fails or writes nothing,
  -- and an exception leaves the replay; or all bytes of the action were written to the socket, in
  -- order, behind what was written before, in however many calls, and both processors are reset.
  pub send_action_lem :
      (c : HttpReplayClient W) (bytes : Bytes)
      → ((send_action net c bytes ≡ err runtime_error) × SomeFailure net c.socket)
        ⊎ ((v : W) × (send_action net c bytes
              ≡ ok (record c {
                expected_processor = reset c.expected_processor;
                test_processor = reset c.test_processor;
                world = v;
              }))
            × (sent c.socket v ≡ sent c.socket c.world ++ bytes))
  unfolding send_action
  send_action_lem c bytes =
      elim (write_loop_ends (length bytes) c.socket bytes c.world (omega arith)) [
        | inl (e, f) ↦ inl (rw (send_action, e) refl, f)
        | inr (v, e, t) ↦ inr (v, rw (send_action, e) refl, t)
      ]
