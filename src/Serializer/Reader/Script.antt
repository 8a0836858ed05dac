-- ===== src/Serializer/Reader/Script.antt =====
-- src/lib/conversation_serializer.cc: `read` on a script of header lines and written actions.
use mathlib.Core.List.{List, append_assoc}
use packet_replay.Base.{
  ℕ, zero, suc, ◌≤◌, ◌<◌, ◌≡◌, refl, ap, ◌∙◌, false, [], ◌∷◌, ◌++◌, Bytes, ok, length,
  length-append, arith, All,
}
use packet_replay.Stream.{Stream, stream_of, read_line, cut_line, is_nil}
use packet_replay.Util.{trim_left}
use packet_replay.Util.Trim.{StartsSolid}
use packet_replay.Layers.Inet.{Inet}
use packet_replay.Properties.{Properties, put, line_of, write}
use packet_replay.Properties.Lines.{IsEntry, put_line-line_of, put_all}
use packet_replay.Action.{Action}
use packet_replay.Serializer.{write_action, write_actions}
use packet_replay.Serializer.Reader.{next_line, is_comment, read_headers}
use packet_replay.Serializer.Reader.Lines.{next_line-append}
use packet_replay.Serializer.Reader.RoundTrip.{separated, at_end}

-- A header whose line is no comment.
abbrev pub IsHeader : Bytes × Bytes → Type 0
IsHeader e = IsEntry e × (is_comment (line_of e) ≡ false)

trim_left-line_of : (k v : Bytes) → StartsSolid k → trim_left (line_of (k, v)) ≡ line_of (k, v)
unfolding trim_left packet_replay.Util.isspace
trim_left-line_of [] v h = refl
trim_left-line_of (c ∷ k) v h = rw h refl

is_nil-line_of : (k v : Bytes) → is_nil (line_of (k, v)) ≡ false
is_nil-line_of [] v = refl
is_nil-line_of (c ∷ k) v = refl

read_headers-line :
    (fuel : ℕ) (p : Properties) (k v s : Bytes)
    → IsHeader (k, v)
    → read_headers (suc fuel) p (stream_of (line_of (k, v) ++ b'\n' ∷ s))
      ≡ read_headers fuel (put p k v) (stream_of s)
unfolding read_headers
read_headers-line fuel p k v s (((a, b), (c, (d, e))), plain) =
    rw
      (
        next_line-append _ (line_of (k, v)) s e plain,
        trim_left-line_of k v a,
        is_nil-line_of k v,
        put_line-line_of p k v ((a, b), (c, (d, e))),
      )
      refl

-- What is behind the headers.
abbrev pub behind_headers : (Bytes → Bytes) → List Action → Stream
behind_headers to_base64 [] = at_end
behind_headers to_base64 (a ∷ queue) =
    stream_of (separated (write_action to_base64 a ++ write_actions to_base64 queue))

pub read_headers-write :
    (to_base64 : Bytes → Bytes) (fuel : ℕ) (p : Properties) (es : List (Bytes × Bytes))
    (queue : List Action)
    → All IsHeader es
    → length es < fuel
    → read_headers fuel p (stream_of (write es ++ write_actions to_base64 queue))
      ≡ ok (put_all p es, behind_headers to_base64 queue)
unfolding read_headers next_line read_line cut_line is_comment trim_left write write_actions put_all
read_headers-write to_base64 zero p es queue h f = absurd (omega arith)
read_headers-write to_base64 (suc fuel) p [] [] h f = refl
read_headers-write to_base64 (suc fuel) p [] (a ∷ queue) h f = refl
read_headers-write to_base64 (suc fuel) p ((k, v) ∷ es) queue (hd, h) f =
    ap (λ s. read_headers (suc fuel) p (stream_of s))
      (append_assoc (line_of (k, v)) (b'\n' ∷ write es) _)
    ∙ read_headers-line fuel p k v _ hd
    ∙ read_headers-write to_base64 fuel (put p k v) es queue h (omega arith)

length-write_le : (es : List (Bytes × Bytes)) (s : Bytes) → length es ≤ length (write es ++ s)
unfolding write
length-write_le [] s = omega arith
length-write_le ((k, v) ∷ es) s = omega (
  arith,
  length-write_le es s,
  ap (λ t. length t) (append_assoc (line_of (k, v)) (b'\n' ∷ write es) s),
  length-append {0} (line_of (k, v)) (b'\n' ∷ (write es ++ s)),
)

-- The fuel of `read_headers` is enough.
pub length-write :
    (es : List (Bytes × Bytes)) (s : Bytes) → length es < suc (suc (length (write es ++ s)))
length-write es s = omega (arith, length-write_le es s)
