-- ===== src/UdpReplay/Datagrams.antt =====
-- src/udp_replay/udp_replay.cc: what a replay sends, and the answers it compares.
use mathlib.Core.List.{append_assoc, append-nil}
use packet_replay.Base.{
  ℕ, ◌+◌, ◌≡◌, ◌⊎◌, inl, inr, refl, ap, sym, ◌∙◌, true, false, List, [], ◌∷◌, ◌++◌, none, some,
  Bytes, Result, ok, err, runtime_error, ◌>>=◌, if◌then◌else◌, length, length-append, arith,
  bytes_eq,
}
use packet_replay.Base.Int.{ℤ, pos, is_negative}
use packet_replay.Action.{Action, SubToken, ActionType, connect, send, recv, close}
use packet_replay.Network.{Network}
use packet_replay.Validator.{validate}
use packet_replay.Validator.Compare.{validate_lem}
use packet_replay.UdpReplay.{
  UdpReplayClient, pop_action, send_action, recv_action, act, replay_loop,
}

-- What is documented of the calls on a socket: each fails, or the datagram was sent with all its bytes
-- to the address, or the next one was received. `sent` is what was sent until then on a socket to an
-- address, and `received` is what was received on a socket.
pub record IsWire {W : Type 0} (net : Network W) (sent : ℤ → Bytes → ℕ → W → List Bytes)
    (received : ℤ → W → List Bytes) : Type 0 where
  pub sends :
      (s : ℤ) (bytes addr : Bytes) (n : ℕ) (w : W)
      → (is_negative (net.sendto s bytes addr n w).1 ≡ true)
        ⊎ ((is_negative (net.sendto s bytes addr n w).1 ≡ false)
            × (sent s addr n (net.sendto s bytes addr n w).0 ≡ sent s addr n w ++ bytes ∷ [])
            × (received s (net.sendto s bytes addr n w).0 ≡ received s w))
  pub receives :
      (s : ℤ) (size : ℕ) (addr : Bytes) (n : ℕ) (w : W)
      → ((net.recvfrom s size w).1 ≡ none)
        ⊎ ((x : Bytes) × ((net.recvfrom s size w).1 ≡ some x)
            × (sent s addr n (net.recvfrom s size w).0 ≡ sent s addr n w)
            × (received s (net.recvfrom s size w).0 ≡ received s w ++ x ∷ []))

-- The data of the actions that send, and of those that receive.
abbrev pub outgoing : List Action → List Bytes
outgoing [] = []
outgoing (a ∷ queue) = elim a.type [ send ↦ a.bytes ∷ outgoing queue | _ ↦ outgoing queue ]

abbrev pub awaited : List Action → List Bytes
awaited [] = []
awaited (a ∷ queue) = elim a.type [ recv ↦ a.bytes ∷ awaited queue | _ ↦ awaited queue ]

-- How many of the datagrams expected are not the same as those received in their places.
unfoldable pub mismatches : List Bytes → List Bytes → ℕ
mismatches (e ∷ es) (x ∷ xs) = let rest = mismatches es xs in (if bytes_eq e x then 0 else 1) + rest
mismatches _ _ = 0

-- The call that a client makes for an action fails.
abbrev pub CallFails :
    {W : Type 0} → Network W → UdpReplayClient W → ActionType → Bytes → W → Type 0
CallFails net c connect bytes w = ⊥
CallFails net c send bytes w =
    is_negative
      (net.sendto c.socket bytes c.conversation.test_sock_addr c.conversation.sock_addr_size w).1
    ≡ true
CallFails net c recv bytes w = (net.recvfrom c.socket (length bytes + 1024) w).1 ≡ none
CallFails net c close bytes w = ⊥

-- What was sent on the client's socket to the address of its test server.
abbrev pub to_server :
    {W : Type 0} → (ℤ → Bytes → ℕ → W → List Bytes) → UdpReplayClient W → W → List Bytes
to_server sent c w = sent c.socket c.conversation.test_sock_addr c.conversation.sock_addr_size w

-- An action of the queue whose call has failed, when what the actions before it ask for was done.
pub record FailedCall {W : Type 0} (net : Network W) (sent : ℤ → Bytes → ℕ → W → List Bytes)
    (received : ℤ → W → List Bytes) (queue : List Action) (c : UdpReplayClient W) : Type 0 where
  pub before : List Action
  pub action : Action
  pub behind : List Action
  pub state : W
  pub got : List Bytes
  pub is_queue : queue ≡ before ++ action ∷ behind
  pub sent_before : to_server sent c state ≡ to_server sent c c.world ++ outgoing before
  pub received_before : received c.socket state ≡ received c.socket c.world ++ got
  pub as_many : length got ≡ length (awaited before)
  pub fails : CallFails net c action.type action.bytes state

-- What the replay of a queue ends in.
abbrev pub Ends :
    {W : Type 0}
    → Network W
    → (ℤ → Bytes → ℕ → W → List Bytes)
    → (ℤ → W → List Bytes)
    → List Action
    → UdpReplayClient W
    → Result (UdpReplayClient W)
    → Type 0
Ends {W} net sent received queue c r =
    ((r ≡ err runtime_error) × FailedCall net sent received queue c)
    ⊎ ((d : UdpReplayClient W) × (got : List Bytes) × (r ≡ ok d)
        × (to_server sent c d.world ≡ to_server sent c c.world ++ outgoing queue)
        × (received c.socket d.world ≡ received c.socket c.world ++ got)
        × (length got ≡ length (awaited queue))
        × (d.differences ≡ c.differences + mismatches (awaited queue) got))

outgoing-cons :
    (a : Action) (queue : List Action) → outgoing (a ∷ queue) ≡ outgoing (a ∷ []) ++ outgoing queue
outgoing-cons a queue = go a.type
  where
    go :
        (t : ActionType)
        → elim t [ send ↦ a.bytes ∷ outgoing queue | _ ↦ outgoing queue ]
          ≡ elim t [ send ↦ a.bytes ∷ [] | _ ↦ [] ] ++ outgoing queue
    go connect = refl
    go send = refl
    go recv = refl
    go close = refl

awaited-cons :
    (a : Action) (queue : List Action) → awaited (a ∷ queue) ≡ awaited (a ∷ []) ++ awaited queue
awaited-cons a queue = go a.type
  where
    go :
        (t : ActionType)
        → elim t [ recv ↦ a.bytes ∷ awaited queue | _ ↦ awaited queue ]
          ≡ elim t [ recv ↦ a.bytes ∷ [] | _ ↦ [] ] ++ awaited queue
    go connect = refl
    go send = refl
    go recv = refl
    go close = refl

mismatches-append :
    (es xs fs ys : List Bytes)
    → length xs ≡ length es
    → mismatches (es ++ fs) (xs ++ ys) ≡ mismatches es xs + mismatches fs ys
unfolding mismatches
mismatches-append [] [] fs ys h = omega arith
mismatches-append [] (x ∷ xs) fs ys h = absurd (omega arith)
mismatches-append (e ∷ es) [] fs ys h = absurd (omega arith)
mismatches-append (e ∷ es) (x ∷ xs) fs ys h =
    omega (arith, mismatches-append es xs fs ys (omega arith))

validate_whole : (e a : Bytes) → validate e (pos (length e)) a (pos (length a)) ≡ ok (bytes_eq e a)
validate_whole e a =
    ap (λ s. validate s (pos (length e)) a (pos (length a))) (sym (append-nil e))
    ∙ ap (λ s. validate (e ++ []) (pos (length e)) s (pos (length a))) (sym (append-nil a))
    ∙ validate_lem e [] a []

module _ {W : Type 0} (net : Network W) (sent : ℤ → Bytes → ℕ → W → List Bytes)
    (received : ℤ → W → List Bytes) where
  -- The call of the first action fails.
  fails_first :
      (c : UdpReplayClient W) (a : Action) (queue : List Action)
      → CallFails net c a.type a.bytes c.world
      → FailedCall net sent received (a ∷ queue) c
  fails_first c a queue f = record {
    before = [];
    action = a;
    behind = queue;
    state = c.world;
    got = [];
    is_queue = refl;
    sent_before = sym (append-nil (to_server sent c c.world));
    received_before = sym (append-nil (received c.socket c.world));
    as_many = refl;
    fails = f;
  }

  -- A call fails behind a first action that has changed the client.
  fails_later :
      (c : UdpReplayClient W) (a : Action) (queue : List Action) (v : W) (k : ℕ) (xs : List Bytes)
      → to_server sent c v ≡ to_server sent c c.world ++ outgoing (a ∷ [])
      → received c.socket v ≡ received c.socket c.world ++ xs
      → length xs ≡ length (awaited (a ∷ []))
      → FailedCall net sent received queue
          (pop_action queue (record c { world = v; differences = k }))
      → FailedCall net sent received (a ∷ queue) c
  fails_later c a queue v k xs s r l f = record {
    before = a ∷ f.before;
    action = f.action;
    behind = f.behind;
    state = f.state;
    got = xs ++ f.got;
    is_queue = ap (λ q. a ∷ q) f.is_queue;
    sent_before =
        f.sent_before
        ∙ ap (λ l. l ++ outgoing f.before) s
        ∙ append_assoc (to_server sent c c.world) (outgoing (a ∷ [])) (outgoing f.before)
        ∙ ap (λ l. to_server sent c c.world ++ l) (sym (outgoing-cons a f.before));
    received_before =
        f.received_before
        ∙ ap (λ l. l ++ f.got) r
        ∙ append_assoc (received c.socket c.world) xs f.got;
    as_many = omega (
      arith,
      l,
      f.as_many,
      length-append {0} xs f.got,
      length-append {0} (awaited (a ∷ [])) (awaited f.before),
      ap length (awaited-cons a f.before),
    );
    fails = f.fails;
  }

  -- The replay of a queue behind a first action that has changed the client.
  ends_later :
      (c : UdpReplayClient W) (a : Action) (queue : List Action) (v : W) (k : ℕ) (xs : List Bytes)
      (r : Result (UdpReplayClient W))
      → to_server sent c v ≡ to_server sent c c.world ++ outgoing (a ∷ [])
      → received c.socket v ≡ received c.socket c.world ++ xs
      → length xs ≡ length (awaited (a ∷ []))
      → k ≡ c.differences + mismatches (awaited (a ∷ [])) xs
      → Ends net sent received queue (pop_action queue (record c { world = v; differences = k })) r
      → Ends net sent received (a ∷ queue) c r
  ends_later c a queue v k xs r s t l m (inl (e, f)) = inl (e, fails_later c a queue v k xs s t l f)
  ends_later c a queue v k xs r s t l m (inr (d, got, e, sd, rd, ld, md)) = inr (
    d,
    xs ++ got,
    e,
    sd
        ∙ ap (λ l. l ++ outgoing queue) s
        ∙ append_assoc (to_server sent c c.world) (outgoing (a ∷ [])) (outgoing queue)
        ∙ ap (λ l. to_server sent c c.world ++ l) (sym (outgoing-cons a queue)),
    rd ∙ ap (λ l. l ++ got) t ∙ append_assoc (received c.socket c.world) xs got,
    omega (
      arith,
      l,
      ld,
      length-append {0} xs got,
      length-append {0} (awaited (a ∷ [])) (awaited queue),
      ap length (awaited-cons a queue),
    ),
    omega (
      arith,
      m,
      md,
      mismatches-append (awaited (a ∷ [])) xs (awaited queue) got l,
      ap (λ es. mismatches es (xs ++ got)) (awaited-cons a queue),
    ),
  )

module _ {W : Type 0} (net : Network W) (sent : ℤ → Bytes → ℕ → W → List Bytes)
    (received : ℤ → W → List Bytes) (wire : IsWire net sent received) where
  send_ends :
      (c : UdpReplayClient W) (bytes : Bytes)
      → ((send_action net c bytes ≡ err runtime_error) × CallFails net c send bytes c.world)
        ⊎ ((v : W) × (send_action net c bytes ≡ ok (record c { world = v }))
            × (to_server sent c v ≡ to_server sent c c.world ++ bytes ∷ [])
            × (received c.socket v ≡ received c.socket c.world))
  unfolding send_action
  send_ends c bytes =
      elim (wire.sends c.socket bytes c.conversation.test_sock_addr c.conversation.sock_addr_size
        c.world) [
          | inl e ↦ inl (rw (send_action, e) refl, e)
          | inr (e, s, r) ↦ inr (_, rw (send_action, e) refl, s, r)
        ]

  recv_ends :
      (c : UdpReplayClient W) (bytes : Bytes)
      → c.validator_lives ≡ true
      → ((recv_action net validate c bytes ≡ err runtime_error)
          × CallFails net c recv bytes c.world)
        ⊎ ((v : W) × (x : Bytes) × (recv_action net validate c bytes
              ≡ ok (record c {
                differences = c.differences + (if bytes_eq bytes x then 0 else 1);
                world = v;
              }))
            × (to_server sent c v ≡ to_server sent c c.world)
            × (received c.socket v ≡ received c.socket c.world ++ x ∷ []))
  unfolding recv_action
  recv_ends c bytes lives =
      elim (wire.receives c.socket (length bytes + 1024) c.conversation.test_sock_addr
        c.conversation.sock_addr_size c.world) [
          | inl e ↦ inl (rw (recv_action, e) refl, e)
          | inr (x, e, s, r) ↦
              inr (_, x, rw (recv_action, e, lives, validate_whole bytes x) refl, s, r)
        ]

  -- An action, before a queue whose replay is given.
  with_action :
      (t : ActionType) (bytes : Bytes) (ts : List SubToken) (queue : List Action)
      (c : UdpReplayClient W)
      → c.validator_lives ≡ true
      → ((d : UdpReplayClient W)
          → d.validator_lives ≡ true
          → Ends net sent received queue d (replay_loop net validate queue d))
      → Ends net sent received
          (record { type = t; bytes = bytes; sub_tokens = ts } ∷ queue)
          c
          (do d ← act net validate c t bytes; replay_loop net validate queue (pop_action queue d))
  unfolding act mismatches
  with_action connect bytes ts queue c lives rest =
      ends_later net sent received c _ queue c.world c.differences [] _
        (sym (append-nil (to_server sent c c.world))) (sym (append-nil (received c.socket c.world)))
        refl (omega arith) (rest (pop_action queue c) lives)
  with_action close bytes ts queue c lives rest =
      ends_later net sent received c _ queue c.world c.differences [] _
        (sym (append-nil (to_server sent c c.world))) (sym (append-nil (received c.socket c.world)))
        refl (omega arith) (rest (pop_action queue c) lives)
  with_action send bytes ts queue c lives rest = elim (send_ends c bytes) [
    | inl (e, f) ↦ inl (rw e refl, fails_first net sent received c _ queue f)
    | inr (v, e, s, r) ↦ rw e (
        ends_later net sent received c _ queue v c.differences [] _ s
          (r ∙ sym (append-nil (received c.socket c.world))) refl (omega arith)
          (rest (pop_action queue (record c { world = v })) lives))
  ]
  with_action recv bytes ts queue c lives rest = elim (recv_ends c bytes lives) [
    | inl (e, f) ↦ inl (rw e refl, fails_first net sent received c _ queue f)
    | inr (v, x, e, s, r) ↦ rw e (
        ends_later net sent received c _ queue v
          (c.differences + (if bytes_eq bytes x then 0 else 1)) (x ∷ []) _
          (s ∙ sym (append-nil (to_server sent c c.world))) r refl (omega arith)
          (rest
            (pop_action queue (record c {
              differences = c.differences + (if bytes_eq bytes x then 0 else 1);
              world = v;
            }))
            lives))
  ]

  -- A client with the standard validator, which was not deleted, a network that does what is
  -- documented, and any queue. Either the replay ends in an exception and the call for one of the
  -- actions of the queue failed, on the client's socket and to the address of its test server, in
  -- a state in which the datagrams of all actions that send before it had been sent there, and as
  -- many had been received as actions before it receive. Or the datagrams of all actions that send
  -- were sent on this socket to this address, in order and one for each, as many were received on
  -- it as there are actions that receive, and the differences reported are those of them that are
  -- not, byte for byte, what the capture has in their places.
  pub replay_ends :
      (queue : List Action) (c : UdpReplayClient W)
      → c.validator_lives ≡ true
      → Ends net sent received queue c (replay_loop net validate queue c)
  unfolding replay_loop mismatches
  replay_ends [] c lives = inr (
    c,
    [],
    refl,
    sym (append-nil (to_server sent c c.world)),
    sym (append-nil (received c.socket c.world)),
    refl,
    omega arith,
  )
  replay_ends (a ∷ queue) c lives =
      with_action a.type a.bytes a.sub_tokens queue c lives (λ d. replay_ends queue d)
