-- ===== src/UdpReplay/Lifetime.antt =====
-- src/udp_replay/udp_replay.cc: `main` gives one validator to the clients of all conversations, and
-- each deletes it.
use packet_replay.Base.{
  ℕ, ◌+◌, ◌≡◌, ◌≢◌, refl, ap, sym, ◌∙◌, Bool, true, false, List, [], ◌∷◌, some, Bytes, Result, ok,
  err, fault, bind-eq-ok, ok-injective, arith, length, ◌>>=◌,
}
use packet_replay.Action.{Action, ActionType, connect, send, recv, close}
use packet_replay.Udp.{UdpConversation}
use packet_replay.Base.Int.{ℤ, is_negative}
use packet_replay.Network.{Network}
use packet_replay.UdpReplay.{
  UdpReplayClient, Validate, new_client, pop_action, send_action, recv_action, act, replay_loop,
  replay, destroy, replay_all,
}

-- What the calls of an action must answer on a socket, from a state of the world, for a client to go
-- on to the next action, in the state behind them, or to have a datagram to compare.
abbrev pub ServedAction :
    {W : Type 0} → Network W → ℤ → Bytes → ℕ → ActionType → Bytes → (W → Type 0) → W → Type 0
ServedAction net s addr n connect bytes next w = next w
ServedAction net s addr n send bytes next w =
    (is_negative (net.sendto s bytes addr n w).1 ≡ false) × next (net.sendto s bytes addr n w).0
ServedAction net s addr n recv bytes next w =
    (x : Bytes) × ((net.recvfrom s (length bytes + 1024) w).1 ≡ some x)
ServedAction net s addr n close bytes next w = next w

-- The calls for a queue, sending to an address, do not fail up to the first datagram received.
abbrev pub Served : {W : Type 0} → Network W → ℤ → Bytes → ℕ → List Action → W → Type 0
Served net s addr n [] w = Unit
Served net s addr n (a ∷ queue) w =
    ServedAction net s addr n a.type a.bytes (Served net s addr n queue) w

module _ {W : Type 0} (net : Network W) (validate : Validate) where
  send_action-lives :
      (c : UdpReplayClient W) (bytes : Bytes) {d : UdpReplayClient W}
      → send_action net c bytes ≡ ok d
      → d.validator_lives ≡ c.validator_lives
  unfolding send_action
  send_action-lives c bytes h = ground arith

  recv_action-lives :
      (c : UdpReplayClient W) (bytes : Bytes) {d : UdpReplayClient W}
      → recv_action net validate c bytes ≡ ok d
      → d.validator_lives ≡ c.validator_lives
  unfolding recv_action
  recv_action-lives c bytes h = ground arith

  act-lives :
      (c : UdpReplayClient W) (t : ActionType) (bytes : Bytes) {d : UdpReplayClient W}
      → act net validate c t bytes ≡ ok d
      → d.validator_lives ≡ c.validator_lives
  unfolding act
  act-lives c connect bytes h = ap (λ d. d.validator_lives) (sym (ok-injective h))
  act-lives c send bytes h = send_action-lives c bytes h
  act-lives c recv bytes h = recv_action-lives c bytes h
  act-lives c close bytes h = ap (λ d. d.validator_lives) (sym (ok-injective h))

  replay_loop-lives :
      (queue : List Action) (c : UdpReplayClient W) {d : UdpReplayClient W}
      → replay_loop net validate queue c ≡ ok d
      → d.validator_lives ≡ c.validator_lives
  unfolding replay_loop
  replay_loop-lives [] c h = ap (λ d. d.validator_lives) (sym (ok-injective h))
  replay_loop-lives (a ∷ queue) c h =
      let (b, e, f) = bind-eq-ok (act net validate c a.type a.bytes) _ h in
      replay_loop-lives queue (pop_action queue b) f ∙ act-lives c a.type a.bytes e

  new_client-lives :
      (c : UdpConversation) (lives : Bool) (w : W) {d : UdpReplayClient W}
      → new_client net c lives w ≡ ok d
      → d.validator_lives ≡ lives
  unfolding new_client
  new_client-lives c lives w h = ground arith

  destroy_dead : (c : UdpReplayClient W) → c.validator_lives ≡ false → destroy net c ≡ err fault
  unfolding destroy
  destroy_dead c h = rw (destroy, h) refl

  -- A client with a validator that was deleted does not come to its end.
  replay_all_dead :
      (c : UdpConversation) (cs : List UdpConversation) (w : W) (r : ℕ × W)
      → replay_all net validate false (c ∷ cs) w ≢ ok r
  unfolding replay_all replay
  replay_all_dead c cs w r h =
      let (client, made, rest) = bind-eq-ok (new_client net c false w) _ h in
      let (played, done, rest') = bind-eq-ok (replay net validate client) _ rest in
      let (v, gone, rest'') = bind-eq-ok (destroy net played) _ rest' in
      err_not_ok (
        sym (
          destroy_dead played (
            replay_loop-lives client.conversation.action_queue client done
            ∙ new_client-lives c false w made))
        ∙ gone)
    where
      err_not_ok : {x : W} → err fault ≢ ok x
      err_not_ok h = cc

  -- With two conversations in the store, or more, the loop of `main` does not come to its end.
  pub second_client_fails :
      (c d : UdpConversation) (cs : List UdpConversation) (w : W) (r : ℕ × W)
      → replay_all net validate true (c ∷ d ∷ cs) w ≢ ok r
  unfolding replay_all
  second_client_fails c d cs w r h =
      let (client, made, rest) = bind-eq-ok (new_client net c true w) _ h in
      let (played, done, rest') = bind-eq-ok (replay net validate client) _ rest in
      let (v, gone, rest'') = bind-eq-ok (destroy net played) _ rest' in
      let (n, others, rest3) = bind-eq-ok (replay_all net validate false (d ∷ cs) v) _ rest'' in
      replay_all_dead d cs v n others

  dead_recv :
      (c : UdpReplayClient W) (bytes x : Bytes)
      → c.validator_lives ≡ false
      → (net.recvfrom c.socket (length bytes + 1024) c.world).1 ≡ some x
      → recv_action net validate c bytes ≡ err fault
  unfolding recv_action
  dead_recv c bytes x dead e = rw (recv_action, e, dead) refl

  served_send :
      (c : UdpReplayClient W) (bytes : Bytes)
      → let r =
          net.sendto c.socket bytes c.conversation.test_sock_addr c.conversation.sock_addr_size
            c.world in
        is_negative r.1 ≡ false → send_action net c bytes ≡ ok (record c { world = r.0 })
  unfolding send_action
  served_send c bytes e = rw (send_action, e) refl

  abbrev Dead : List Action → Type 0
  Dead queue =
      (c : UdpReplayClient W)
      → c.validator_lives ≡ false
      → Served net c.socket c.conversation.test_sock_addr c.conversation.sock_addr_size queue
          c.world
      → (do played ← replay_loop net validate queue c; destroy net played) ≡ err fault

  -- An action of a type, before a queue whose replay is given.
  Dead-action :
      (t : ActionType) (bytes : Bytes) (queue : List Action) (c : UdpReplayClient W)
      → c.validator_lives ≡ false
      → ServedAction net c.socket c.conversation.test_sock_addr c.conversation.sock_addr_size t
          bytes
          (Served net c.socket c.conversation.test_sock_addr c.conversation.sock_addr_size queue)
          c.world
      → Dead queue
      → (do
        played ← (do
          d ← act net validate c t bytes
          replay_loop net validate queue (pop_action queue d))
        destroy net played)
        ≡ err fault
  unfolding act
  Dead-action connect bytes queue c dead served rest = rest (pop_action queue c) dead served
  Dead-action close bytes queue c dead served rest = rest (pop_action queue c) dead served
  Dead-action send bytes queue c dead (e, served) rest =
      rw (served_send c bytes e) (rest (pop_action queue (record c { world = _ })) dead served)
  Dead-action recv bytes queue c dead (x, e) rest = rw (dead_recv c bytes x dead e) refl

  -- The replay of a client whose validator was deleted, when its calls do not fail, up to and with
  -- the deletion by its destructor.
  Dead-replay : (queue : List Action) → Dead queue
  unfolding replay_loop
  Dead-replay [] c dead served = destroy_dead c dead
  Dead-replay (a ∷ queue) c dead served =
      Dead-action a.type a.bytes queue c dead served (Dead-replay queue)

  dead_client :
      (d : UdpConversation) (cs : List UdpConversation) (v : W) {b : UdpReplayClient W}
      → new_client net d false v ≡ ok b
      → Served net b.socket b.conversation.test_sock_addr b.conversation.sock_addr_size
          b.conversation.action_queue b.world
      → replay_all net validate false (d ∷ cs) v ≡ err fault
  unfolding replay_all replay
  dead_client d cs v {b} made served = rw made (
      stopped (replay_loop net validate b.conversation.action_queue b) _
        (Dead-replay b.conversation.action_queue b (new_client-lives d false v made) served))
    where
      stopped :
          (r : Result (UdpReplayClient W)) (k : UdpReplayClient W → W → Result (ℕ × W))
          → (do played ← r; destroy net played) ≡ err fault
          → (do played ← r; u ← destroy net played; k played u) ≡ err fault
      stopped (ok p) k h = rw h refl
      stopped (err e) k h = cc

  -- One validator for two conversations or more. When the first client is made, plays its queue to
  -- the end and is destroyed, and the second is made in what the first has left, and the calls of
  -- the second on its socket, one for each of its actions, do not fail up to the first datagram
  -- received, then the loop of `main`, where the second client has the validator that the destructor
  -- of the first has deleted, ends in undefined behaviour.
  pub second_client_faults :
      (c d : UdpConversation) (cs : List UdpConversation) (w v : W) (a p b : UdpReplayClient W)
      → new_client net c true w ≡ ok a
      → replay net validate a ≡ ok p
      → destroy net p ≡ ok v
      → new_client net d false v ≡ ok b
      → Served net b.socket b.conversation.test_sock_addr b.conversation.sock_addr_size
          b.conversation.action_queue b.world
      → replay_all net validate true (c ∷ d ∷ cs) w ≡ err fault
  unfolding replay_all
  second_client_faults c d cs w v a p b made played gone again served =
      rw (made, played, gone, dead_client d cs v again served) refl
