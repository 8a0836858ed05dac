-- ===== src/Serializer/Reader/Terminates.antt =====
-- src/lib/conversation_serializer.cc: `read` ends on every text.
use packet_replay.Base.{
  ℕ, zero, suc, ◌<◌, ◌≡◌, ◌≢◌, Bool, true, false, Option, none, some, Bytes, Result, ok, err,
  diverges, fault, runtime_error, out_of_range, ◌>>◌, ◌>>=◌, guard, required, length, replicate,
  bytes_eq, codes, ◌==◌, if◌then◌else◌, arith,
}
use packet_replay.Stream.{Stream, stream_of, is_nil}
use packet_replay.Stream.Bounds.{
  Ends, Ends-bind, Ends-weaken, Ends-if, guard-Ends, IsSound, Reads, Leaves-trans, Takes-before,
  LeavesWith, LeavesWith-after,
}
use packet_replay.Layers.{ip_spec, af_inet, get_addr_family, get_addr_size, get_sock_addr_size}
use packet_replay.Layers.Total.{get_sock_addr-Ends, get_addr_from_string-Ends}
use packet_replay.Layers.Inet.{Inet, get_sock_addr, get_addr_from_string}
use packet_replay.Conversation.{PacketConversation, TargetTestServer, test_conversation, htons}
use packet_replay.Tcp
use packet_replay.Tcp.{TcpConversation, new_test_conversation}
use packet_replay.Udp
use packet_replay.Util.{trim_left}
use packet_replay.Properties.{Properties, empty_properties, put_line, has, get, get_as_int}
use packet_replay.Properties.Numbers.{stoi-Ends}
use packet_replay.Action.{Action, ActionType}
use packet_replay.Serializer.{create_action}
use packet_replay.Serializer.Places.{create_action-total}
use packet_replay.Serializer.Reader.{
  get_line, find_type, read_props, decode, read_action, pushed, read_actions, read_headers, new_for,
  read_conversation,
}
use packet_replay.Serializer.Reader.Total.{
  PropsLeave, get_line-Ends, find_type-Ends, read_props-Ends,
}

required-Ends {ℓ} : {A : Type ℓ} (o : Option A) → Ends (λ _. Unit) (required o out_of_range)
required-Ends none = cc
required-Ends (some x) = tt

abbrev HeadersEnd : ℕ → Type 0
HeadersEnd fuel =
    (p : Properties) (s : Stream)
    → IsSound s
    → length s.left < fuel
    → Ends (LeavesWith s) (read_headers fuel p s)

read_headers-next :
    (fuel : ℕ) (p : Properties) (s : Stream) (r : Option Bytes × Stream)
    → HeadersEnd fuel
    → length s.left < suc fuel
    → Reads s r
    → Ends (LeavesWith s) (elim r.0 [
      | none ↦ ok (p, r.1)
      | some line ↦
          (let rest = read_headers fuel (put_line p (trim_left line)).0 r.1 in
            if is_nil (trim_left line) then ok (p, r.1) else rest)
    ])
read_headers-next fuel p s (none, t) more h k = k.0
read_headers-next fuel p s (some line, t) more h k =
    let q = (put_line p (trim_left line)).0 in
    Ends-if (LeavesWith s) (is_nil (trim_left line)) (ok (p, t)) (read_headers fuel q t) k.leaves (
      Ends-weaken (LeavesWith t) (LeavesWith s) (read_headers fuel q t)
        (more q t k.leaves.sound (omega (arith, k.less))) (λ r. LeavesWith-after s t r k.leaves))

read_headers-Ends : (fuel : ℕ) → HeadersEnd fuel
unfolding read_headers
read_headers-Ends zero p s sound h = absurd (omega arith)
read_headers-Ends (suc fuel) p s sound h =
    Ends-bind (Reads s) (LeavesWith s) (get_line s) _ (get_line-Ends s sound)
      (λ r. read_headers-next fuel p s r (read_headers-Ends fuel) h)

Reads-IsSound : {A : Type 0} (s : Stream) (r : Option A × Stream) → Reads s r → IsSound r.1
Reads-IsSound s (none, t) k = k.0.sound
Reads-IsSound s (some x, t) k = k.leaves.sound

create_action-Ends :
    (type : ActionType) (bytes : Bytes) → Ends (λ _. Unit) (create_action type bytes)
create_action-Ends type bytes = let (a, e) = create_action-total type bytes in rw e tt

module _ (o : Bool) (from_base64 : Bytes → Result Bytes)
    (decodes : (s : Bytes) → from_base64 s ≢ err diverges) where
  from_base64-Ends : (s : Bytes) → Ends (λ _. Unit) (from_base64 s)
  from_base64-Ends s = go (from_base64 s) (decodes s)
    where
      go : (r : Result Bytes) → r ≢ err diverges → Ends (λ _. Unit) r
      go (ok x) h = tt
      go (err e) h = λ f. h (λ i. err (f i))

  decode-Ends : (p : Properties) (bytes : Bytes) → Ends (λ _. Unit) (decode from_base64 p bytes)
  unfolding decode get
  decode-Ends p bytes =
      Ends-if (λ _. Unit) (has p (codes "Encoding")) _ (ok bytes)
        (Ends-bind (λ _. Unit) (λ _. Unit) (get p (codes "Encoding")) _ (required-Ends _)
          (λ e _.
            Ends-if (λ _. Unit) (bytes_eq e (codes "BASE64")) (from_base64 bytes) (ok bytes)
              (from_base64-Ends bytes) tt))
        tt

  read_action-next :
      (s : Stream) (found : Option ActionType × Stream) (q : Properties × (Bytes × Stream))
      → Reads s found
      → PropsLeave found.1 q
      → Ends (Reads s) (elim found.0 [
        | none ↦ ok (none, q.1.1)
        | some type ↦ (do
          d ← decode from_base64 q.0 q.1.0
          a ← create_action type d
          ok (some a, q.1.1))
      ])
  read_action-next s (none, t) (p, (bytes, u)) (k, e) l = (Leaves-trans s t u k l, l.at_end e)
  read_action-next s (some type, t) (p, (bytes, u)) k l =
      Ends-bind (λ _. Unit) (Reads s) (decode from_base64 p bytes) _ (decode-Ends p bytes)
        (λ d _.
          Ends-bind (λ _. Unit) (Reads s) (create_action type d) _ (create_action-Ends type d)
            (λ a _. Takes-before s t u k l))

  read_action-Ends : (s : Stream) → IsSound s → Ends (Reads s) (read_action o from_base64 s)
  unfolding read_action
  read_action-Ends s sound =
      Ends-bind (Reads s) (Reads s) (find_type (suc (suc (length s.left))) s) _
        (find_type-Ends (suc (suc (length s.left))) s sound (omega arith))
        (λ found k.
          let t = found.1 in
          Ends-bind (PropsLeave t) (Reads s)
            (read_props (suc (suc (length t.left))) o empty_properties t) _
            (read_props-Ends o (suc (suc (length t.left))) empty_properties t
              (Reads-IsSound s found k) (omega arith))
            (λ q l. read_action-next s found q k l))

  abbrev ActionsEnd : ℕ → Type 0
  ActionsEnd fuel =
      (s : Stream) (c : PacketConversation)
      → IsSound s
      → length s.left < fuel
      → Ends (λ _. Unit) (read_actions fuel o from_base64 s c)

  read_actions-eof :
      (fuel : ℕ) (s : Stream) (c : PacketConversation)
      → s.eof ≡ true
      → Ends (λ _. Unit) (read_actions fuel o from_base64 s c)
  unfolding read_actions
  read_actions-eof zero s c e = rw e tt
  read_actions-eof (suc fuel) s c e = rw e tt

  read_actions-next :
      (fuel : ℕ) (s : Stream) (c : PacketConversation) (r : Option Action × Stream)
      → ActionsEnd fuel
      → length s.left < suc fuel
      → Reads s r
      → Ends (λ _. Unit) (read_actions fuel o from_base64 r.1 (pushed c r.0))
  read_actions-next fuel s c (none, t) more h (k, e) = read_actions-eof fuel t c e
  read_actions-next fuel s c (some a, t) more h k =
      more t (pushed c (some a)) k.leaves.sound (omega (arith, k.less))

  read_actions-round :
      (fuel : ℕ) (s : Stream) (c : PacketConversation) (eof : Bool)
      → ActionsEnd fuel
      → IsSound s
      → length s.left < suc fuel
      → Ends
          (λ _. Unit)
          (elim eof [
            | true ↦ ok c
            | false ↦ (do
              (a, t) ← read_action o from_base64 s
              read_actions fuel o from_base64 t (pushed c a))
          ])
  read_actions-round fuel s c true more sound h = tt
  read_actions-round fuel s c false more sound h =
      Ends-bind (Reads s) (λ _. Unit) (read_action o from_base64 s) _ (read_action-Ends s sound)
        (λ r. read_actions-next fuel s c r more h)

  read_actions-Ends : (fuel : ℕ) → ActionsEnd fuel
  unfolding read_actions
  read_actions-Ends zero s c sound h = absurd (omega arith)
  read_actions-Ends (suc fuel) s c sound h =
      read_actions-round fuel s c s.eof (read_actions-Ends fuel) sound h

new_test_conversation-Ends :
    (net : Inet) (server : TargetTestServer)
    → Ends (λ _. Unit) (new_test_conversation net ip_spec server)
unfolding new_test_conversation test_conversation get_addr_family get_addr_size get_sock_addr_size
new_test_conversation-Ends net server =
    Ends-bind (λ _. Unit) (λ _. Unit) (test_conversation net ip_spec server) _
      (Ends-bind (λ _. Unit) (λ _. Unit)
        (get_addr_from_string net ip_spec server.test_addr (replicate 4 0)) _
        (get_addr_from_string-Ends net server.test_addr (replicate 4 0))
        (λ r _.
          Ends-bind (λ _. Unit) (λ _. Unit)
            (get_sock_addr ip_spec r.1 (htons server.test_port) (replicate 16 0)) _
            (get_sock_addr-Ends r.1 (htons server.test_port) (replicate 16 0)) (λ _ _. tt)))
      (λ _ _. tt)

new_for-family :
    (net : Inet) (headers : Properties) (address : Bytes) (family : Option ℕ)
    → Ends
        (λ _. Unit)
        (elim family [
          | none ↦ err runtime_error
          | some f ↦ (do
            guard (f == af_inet) runtime_error
            protocol ← get headers (codes "Protocol")
            if bytes_eq protocol Tcp.prot_name
                then (do
                  port ← get_as_int headers (codes "TestPort")
                  c ←
                      new_test_conversation net ip_spec
                        (record { test_addr = address; test_port = port })
                  ok (some c))
                else if bytes_eq protocol Udp.prot_name
                then err runtime_error
                else ok none)
        ])
unfolding get get_as_int
new_for-family net headers address none = cc
new_for-family net headers address (some f) =
    Ends-bind _ (λ _. Unit) (guard (f == af_inet) runtime_error) _
      (guard-Ends (f == af_inet) runtime_error cc)
      (λ _ _.
        Ends-bind (λ _. Unit) (λ _. Unit) (get headers (codes "Protocol")) _ (required-Ends _)
          (λ protocol _.
            Ends-if (λ _. Unit) (bytes_eq protocol Tcp.prot_name) _ _
              (Ends-bind (λ _. Unit) (λ _. Unit) (get_as_int headers (codes "TestPort")) _
                (Ends-bind (λ _. Unit) (λ _. Unit) (get headers (codes "TestPort")) _
                  (required-Ends _) (λ s _. stoi-Ends s))
                (λ port _.
                  Ends-bind (λ _. Unit) (λ _. Unit)
                    (new_test_conversation net ip_spec
                      (record { test_addr = address; test_port = port }))
                    _
                    (new_test_conversation-Ends net
                      (record { test_addr = address; test_port = port }))
                    (λ _ _. tt)))
              (Ends-if (λ _. Unit) (bytes_eq protocol Udp.prot_name) (err runtime_error) (ok none)
                (cc) tt)))

new_for-Ends :
    (net : Inet) (family_of : Bytes → Option ℕ) (headers : Properties)
    → Ends (λ _. Unit) (new_for net family_of headers)
unfolding new_for get
new_for-Ends net family_of headers =
    Ends-bind (λ _. Unit) (λ _. Unit) (get headers (codes "TestAddress")) _ (required-Ends _)
      (λ address _. new_for-family net headers address (family_of address))

conversation-Ends :
    (o : Bool) (from_base64 : Bytes → Result Bytes)
    → ((s : Bytes) → from_base64 s ≢ err diverges)
    → (t : Stream) (found : Option TcpConversation) → IsSound t
    → Ends
        (λ _. Unit)
        (elim found [
          | none ↦ err fault
          | some c ↦ (do
            b ← read_actions (suc (length t.left)) o from_base64 t c.base
            ok (record c { base = b }))
        ])
conversation-Ends o from_base64 decodes t none sound = cc
conversation-Ends o from_base64 decodes t (some c) sound =
    Ends-bind (λ _. Unit) (λ _. Unit) (read_actions (suc (length t.left)) o from_base64 t c.base) _
      (read_actions-Ends o from_base64 decodes (suc (length t.left)) t c.base sound (omega arith))
      (λ _ _. tt)

LeavesWith-IsSound : {A : Type 0} (s : Stream) (r : A × Stream) → LeavesWith s r → IsSound r.1
LeavesWith-IsSound s (x, t) l = l.sound

Ends-ne : {A : Type 0} (r : Result A) → Ends (λ _. Unit) r → r ≢ err diverges
Ends-ne (ok x) h e = cc
Ends-ne (err x) h e = h cc

-- `read` ends on every text: if the base64 library ends, then the fuel of no loop of `read`, or of
-- `create_action`, which it calls for every action, runs out, whatever the text is, whether it is well
-- formed or not.
pub read_terminates :
    (net : Inet) (family_of : Bytes → Option ℕ) (from_base64 : Bytes → Result Bytes)
    (overlap_copies : Bool)
    → ((s : Bytes) → from_base64 s ≢ err diverges)
    → (text : Bytes)
    → read_conversation net family_of from_base64 overlap_copies (stream_of text) ≢ err diverges
unfolding read_conversation
read_terminates net family_of from_base64 overlap_copies decodes text =
    Ends-ne (read_conversation net family_of from_base64 overlap_copies (stream_of text)) (
      Ends-bind (LeavesWith (stream_of text)) (λ _. Unit)
        (read_headers (suc (suc (length text))) empty_properties (stream_of text)) _
        (read_headers-Ends (suc (suc (length text))) empty_properties (stream_of text) (λ h. h)
          (omega arith))
        (λ r l.
          Ends-bind (λ _. Unit) (λ _. Unit) (new_for net family_of r.0) _
            (new_for-Ends net family_of r.0)
            (λ found _.
              conversation-Ends overlap_copies from_base64 decodes r.1 found
                (LeavesWith-IsSound (stream_of text) r l))))
