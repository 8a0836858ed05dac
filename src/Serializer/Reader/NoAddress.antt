-- ===== src/Serializer/Reader/NoAddress.antt =====
-- src/lib/conversation_serializer.cc: the headers that `write` writes, as `read` takes them.
use mathlib.Core.List.{List, reverse-append}
use packet_replay.Base.{
  ℕ, zero, suc, ◌≤◌, ◌<◌, ◌≡◌, ◌≢◌, refl, ap, sym, subst, ◌∙◌, Bool, true, false, [], ◌∷◌, ◌++◌,
  reverse, none, some, Option, Bytes, bytes_eq, Result, ok, err, out_of_range, ◌>>=◌, length, codes,
  arith, All, All-append,
}
use packet_replay.Stream.{stream_of}
use packet_replay.StringMap.{lookup}
use packet_replay.StringMap.Laws.{lookup-insert}
use packet_replay.Util.{isspace}
use packet_replay.Util.Number.{to_string, AllDigits, to_string-AllDigits, isdigit}
use packet_replay.Util.Tokens.{Lacks}
use packet_replay.Util.Trim.{StartsSolid}
use packet_replay.Layers.Inet.{Inet}
use packet_replay.Properties.{Properties, empty_properties, put, get, line_of, write}
use packet_replay.Properties.Lines.{IsTrimmed, put_all}
use packet_replay.Conversation.{PacketConversation}
use packet_replay.Serializer.{port_and_address, write_headers, write_actions, write_conversation}
use packet_replay.Serializer.Reader.{is_comment, new_for, read_conversation}
use packet_replay.Serializer.Reader.Script.{IsHeader, read_headers-write, length-write}

lookup-put_all :
    (k : Bytes) (es : List (Bytes × Bytes)) (p : Properties)
    → All (λ e. bytes_eq k e.0 ≡ false) es
    → lookup k (put_all p es).entries ≡ lookup k p.entries
unfolding put_all put
lookup-put_all k [] p h = refl
lookup-put_all k ((j, v) ∷ es) p (n, h) =
    lookup-put_all k es (put p j v) h ∙ lookup-insert j k v p.entries ∙ rw n refl

-- What an order of entries is to do: it has no other entries than those it is given.
abbrev pub IsOrder : (List (Bytes × Bytes) → List (Bytes × Bytes)) → Type 1
IsOrder order =
    (P : Bytes × Bytes → Type 0) (es : List (Bytes × Bytes)) → All P es → All P (order es)

AllDigits-reverse : (s : Bytes) → AllDigits s → AllDigits (reverse s)
AllDigits-reverse [] h = tt
AllDigits-reverse (c ∷ s) (hc, h) =
    subst AllDigits (sym (reverse-append (c ∷ []) s))
      (All-append (λ c. isdigit c ≡ true) (reverse s) (c ∷ []) (AllDigits-reverse s h) (hc, tt))

AllDigits-StartsSolid : (s : Bytes) → AllDigits s → StartsSolid s
unfolding isdigit isspace
AllDigits-StartsSolid [] h = tt
AllDigits-StartsSolid (c ∷ s) (hc, h) = ground arith

AllDigits-one_line : (s : Bytes) → AllDigits s → Lacks b'\n' s
unfolding isdigit
AllDigits-one_line [] h = tt
AllDigits-one_line (c ∷ s) (hc, h) = (ground arith, AllDigits-one_line s h)

protocol-IsHeader :
    (protocol : Bytes)
    → IsTrimmed protocol
    → Lacks b'\n' protocol
    → IsHeader (codes "Protocol", protocol)
unfolding isspace is_comment
protocol-IsHeader protocol t l = (((refl, refl), (ground arith, (t, ground arith))), refl)

port-IsHeader : (n : ℕ) → IsHeader (codes "TestPort", to_string n)
unfolding isspace is_comment
port-IsHeader n = (((refl, refl), (ground arith, (trimmed, one_line))), refl)
  where
    digits : AllDigits (to_string n)
    digits = to_string-AllDigits n

    trimmed : IsTrimmed (to_string n)
    trimmed = (
      AllDigits-StartsSolid (to_string n) digits,
      AllDigits-StartsSolid (reverse (to_string n)) (AllDigits-reverse (to_string n) digits),
    )

    one_line : Lacks b'\n' (line_of (codes "TestPort", to_string n))
    one_line = ground (arith, AllDigits-one_line (to_string n) digits)

new_for-no_address :
    (net : Inet) (family_of : Bytes → Option ℕ) (es : List (Bytes × Bytes))
    → All (λ e. bytes_eq (codes "TestAddress") e.0 ≡ false) es
    → new_for net family_of (put_all empty_properties es) ≡ err out_of_range
unfolding new_for get lookup
new_for-no_address net family_of es h =
    rw (lookup-put_all (codes "TestAddress") es empty_properties h) refl

abbrev headers_of : Bytes → ℕ → List (Bytes × Bytes)
headers_of protocol port = (codes "Protocol", protocol) ∷ (codes "TestPort", to_string port) ∷ []

abbrev written :
    (to_base64 : Bytes → Bytes) (order : List (Bytes × Bytes) → List (Bytes × Bytes))
    (protocol : Bytes) (c : PacketConversation)
    → ℕ
    → Bytes
written to_base64 order protocol c port =
    write (order (headers_of protocol port)) ++ write_actions to_base64 c.action_queue

write_conversation-written :
    (net : Inet) (to_base64 : Bytes → Bytes) (order : List (Bytes × Bytes) → List (Bytes × Bytes))
    (protocol : Bytes) (c : PacketConversation) (text : Bytes)
    → write_conversation net to_base64 order protocol c ≡ ok text
    → (port : ℕ) × (text ≡ written to_base64 order protocol c port)
unfolding write_conversation write_headers
write_conversation-written net to_base64 order protocol c text w = go (port_and_address net c) w
  where
    go :
        (r : Result (ℕ × Bytes))
        → (do
          headers ← (do (port, address) ← r; ok (write (order (headers_of protocol port))))
          ok (headers ++ write_actions to_base64 c.action_queue))
          ≡ ok text
        → (port : ℕ) × (text ≡ written to_base64 order protocol c port)
    go (ok (port, address)) e = (port, cc)
    go (err x) e = absurd cc

-- What `write` has written of a conversation, in whatever order the map gives the headers, `read` does
-- not take: it throws `out_of_range`, since there is no line with the address.
pub written_unreadable :
    (net : Inet) (family_of : Bytes → Option ℕ) (to_base64 : Bytes → Bytes)
    (from_base64 : Bytes → Result Bytes) (overlap_copies : Bool)
    (order : List (Bytes × Bytes) → List (Bytes × Bytes))
    → IsOrder order
    → (protocol : Bytes) (c : PacketConversation) (text : Bytes) → IsTrimmed protocol
    → Lacks b'\n' protocol
    → write_conversation net to_base64 order protocol c ≡ ok text
    → read_conversation net family_of from_base64 overlap_copies (stream_of text) ≡ err out_of_range
unfolding read_conversation packet_replay.Base.compare_bytes
written_unreadable net family_of to_base64 from_base64 overlap_copies order ordered protocol c text
      t l w =
    let (port, e) = write_conversation-written net to_base64 order protocol c text w in
    let es = order (headers_of protocol port) in
    rw
      (
        e,
        read_headers-write to_base64 _ empty_properties es c.action_queue
            (ordered IsHeader (headers_of protocol port)
              (protocol-IsHeader protocol t l, (port-IsHeader port, tt)))
            (length-write es (write_actions to_base64 c.action_queue)),
        new_for-no_address net family_of es (
            ordered (λ e. bytes_eq (codes "TestAddress") e.0 ≡ false) (headers_of protocol port)
              (refl, (refl, tt))),
      )
      refl
