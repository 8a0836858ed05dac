-- ===== src/Serializer/Reader/Lines.antt =====
-- src/lib/conversation_serializer.cc: the lines of a written action, as the reader takes them.
use packet_replay.Base.{
  ℕ, zero, suc, ◌≡◌, ◌≢◌, refl, ap, ◌∙◌, Bool, true, false, [], ◌∷◌, ◌++◌, none, some, Bytes,
  Result, ok, ◌>>=◌, length, codes, replicate, ◌==◌, if◌then◌else◌, arith,
}
use packet_replay.Stream.{Stream, stream_of, read_line, cut_line, line_at}
use packet_replay.Util.Tokens.{Lacks}
use packet_replay.Util.{split_at}
use packet_replay.Properties.{Properties, empty_properties, write, put}
use packet_replay.Action.{ActionType, connect, send, recv, close}
use packet_replay.Serializer.{action_type_to_string, string_to_action_type, data_start_tag}
use packet_replay.Serializer.Data.{read_action_data}
use packet_replay.Serializer.Reader.{is_comment, next_line, find_type, read_props}

cut_line-append : (l s : Bytes) → Lacks b'\n' l → cut_line (l ++ b'\n' ∷ s) ≡ (l, some s)
unfolding cut_line
cut_line-append [] s h = refl
cut_line-append (c ∷ l) s (n, h) = ground (arith, cut_line-append l s h)

read_line-append :
    (l s : Bytes) → Lacks b'\n' l → read_line (stream_of (l ++ b'\n' ∷ s)) ≡ (some l, stream_of s)
unfolding read_line
read_line-append [] s h = refl
read_line-append (c ∷ l) s h = ap line_at (cut_line-append (c ∷ l) s h)

next_line-found :
    (fuel : ℕ) (l : Bytes) (s t : Stream)
    → read_line s ≡ (some l, t)
    → is_comment l ≡ false
    → next_line (suc fuel) s ≡ ok (some l, t)
unfolding next_line
next_line-found fuel l s t e c = rw (next_line, ap (λ x. x.0) e, c, ap (λ x. x.1) e) refl

pub next_line-append :
    (fuel : ℕ) (l s : Bytes)
    → Lacks b'\n' l
    → is_comment l ≡ false
    → next_line (suc fuel) (stream_of (l ++ b'\n' ∷ s)) ≡ ok (some l, stream_of s)
next_line-append fuel l s h c = next_line-found fuel l _ (stream_of s) (read_line-append l s h) c

pub find_type-blank :
    (fuel : ℕ) (s : Bytes)
    → find_type (suc fuel) (stream_of (b'\n' ∷ s)) ≡ find_type fuel (stream_of s)
unfolding find_type read_line cut_line is_comment
find_type-blank fuel s = refl

pub find_type-separator :
    (fuel : ℕ) (s : Bytes)
    → find_type (suc fuel) (stream_of (replicate 30 b'#' ++ b'\n' ∷ b'\n' ∷ s))
      ≡ find_type fuel (stream_of s)
unfolding find_type read_line cut_line is_comment
find_type-separator fuel s = refl

pub find_type-type :
    (fuel : ℕ) (t : ActionType) (s : Bytes)
    → find_type (suc fuel) (stream_of (action_type_to_string t ++ b'\n' ∷ s))
      ≡ ok (some t, stream_of s)
unfolding find_type read_line cut_line is_comment string_to_action_type
    packet_replay.Base.compare_bytes
find_type-type fuel connect s = refl
find_type-type fuel send s = refl
find_type-type fuel recv s = refl
find_type-type fuel close s = refl

-- The properties with the line that `write_action` writes in front of text in base 64.
abbrev pub encoded : Properties
encoded = put empty_properties (codes "Encoding") (codes "BASE64")

pub read_props-encoding :
    (fuel : ℕ) (s : Bytes)
    → read_props
        (suc fuel)
        true
        empty_properties
        (stream_of (write ((codes "Encoding", codes "BASE64") ∷ []) ++ s))
      ≡ read_props fuel true encoded (stream_of s)
unfolding read_props read_line cut_line is_comment write split_at packet_replay.Base.compare_bytes
read_props-encoding fuel s = refl

pub read_props-start :
    (fuel : ℕ) (p : Properties) (s tail : Bytes) (bytes : Bytes)
    → read_action_data true (stream_of s) ≡ ok (bytes, stream_of tail)
    → read_props (suc fuel) true p (stream_of (data_start_tag ++ b'\n' ∷ s))
      ≡ ok (p, (bytes, stream_of tail))
unfolding read_props read_line cut_line is_comment packet_replay.Base.compare_bytes
read_props-start fuel p s tail bytes e = rw e refl
