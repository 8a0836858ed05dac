-- ===== src/Http/Header/Fields.antt =====
-- src/http_replay/http_response_processor.cc: the head of a response as a server writes it, and what
-- `parseHeader` and the search for its end make of it.
use mathlib.Core.List.{append_assoc, append-nil}
use packet_replay.Base.{
  ℕ, zero, suc, ◌≤◌, ◌<◌, ◌^◌, ◌≡◌, ◌≢◌, refl, ap, sym, ◌∙◌, List, [], ◌∷◌, ◌++◌, Bytes, All, ok,
  length, length-append, arith,
}
use packet_replay.Base.Int.{ℤ, pos, to_int}
use packet_replay.Util.{split_at, getline, trim, to_lower}
use packet_replay.Util.Tokens.{
  Lacks, split_at-Lacks, split_at-append, getline-append, getline-Lacks,
}
use packet_replay.Util.Number.{to_string, stoul-to_string, to_string-AllDigits, AllDigits, isdigit}
use packet_replay.StringMap.{StringMap, insert}
use packet_replay.Http.Header.{
  Head, parse_header, parse_status, second_word, put_field, parse_fields,
}

-- A name and a value; a blank after the ':' is a part of the value.
pub record Field : Type 0 where
  pub name : Bytes
  pub content : Bytes

abbrev pub field_line : Field → Bytes
field_line f = f.name ++ b':' ∷ f.content

pub record IsField (f : Field) : Type 0 where
  pub no_colon : Lacks b':' f.name
  pub no_return : Lacks 13 (field_line f)
  pub no_feed : Lacks 10 (field_line f)

-- `HTTP/1.1 200 OK`
pub record StatusLine : Type 0 where
  pub version : Bytes
  pub code : ℕ
  pub reason : Bytes

abbrev pub status_text : StatusLine → Bytes
status_text l = l.version ++ b' ' ∷ (to_string l.code ++ b' ' ∷ l.reason)

pub record IsStatusLine (l : StatusLine) : Type 0 where
  pub no_blank : Lacks b' ' l.version
  pub no_return : Lacks 13 (status_text l)
  pub no_feed : Lacks 10 (status_text l)
  pub not_huge : l.code < 2 ^ 31

-- The fields, each after the end of the line before.
abbrev pub field_lines : List Field → Bytes
field_lines [] = []
field_lines (f ∷ fs) = 13 ∷ 10 ∷ (field_line f ++ field_lines fs)

-- The head without the two line ends behind it.
abbrev pub head_text : StatusLine → List Field → Bytes
head_text l fs = status_text l ++ field_lines fs

-- What the fields say, put one after another into the map.
unfoldable pub put_fields : StringMap Bytes → List Field → StringMap Bytes
put_fields m [] = m
put_fields m (f ∷ fs) = put_fields (insert (to_lower (trim f.name)) (trim f.content) m) fs

-- A line with its '\r', or without, at the end of the head.
Lacks-concat : (d : ℕ) (s t : Bytes) → Lacks d s → Lacks d t → Lacks d (s ++ t)
Lacks-concat d [] t hs ht = ht
Lacks-concat d (c ∷ s) t (hc, hs) ht = (hc, Lacks-concat d s t hs ht)

Lacks-left : (d : ℕ) (s t : Bytes) → Lacks d (s ++ t) → Lacks d s
Lacks-left d [] t h = tt
Lacks-left d (c ∷ s) t (hc, h) = (hc, Lacks-left d s t h)

Lacks-right : (d : ℕ) (s t : Bytes) → Lacks d (s ++ t) → Lacks d t
Lacks-right d [] t h = h
Lacks-right d (c ∷ s) t (hc, h) = Lacks-right d s t h

-- The end that `getline` leaves on a line.
pub data LineEnd : Bytes → Type 0 where
  at_end : LineEnd []
  with_return : LineEnd (13 ∷ [])

put_field-line :
    (m : StringMap Bytes) (f : Field) {e : Bytes}
    → IsField f
    → LineEnd e
    → put_field m (field_line f ++ e) ≡ insert (to_lower (trim f.name)) (trim f.content) m
unfolding put_field
put_field-line m f {e} h l =
    rw
      (
        put_field,
        append_assoc f.name (b':' ∷ f.content) e,
        split_at-append b':' f.name (f.content ++ e) h.no_colon,
      )
      (ap (λ v. insert (to_lower (trim f.name)) (trim v) m) (content_of l))
  where
    lacks : Lacks 13 f.content
    lacks = (Lacks-right 13 f.name (b':' ∷ f.content) h.no_return).1

    content_of : {e : Bytes} → LineEnd e → (split_at 13 (f.content ++ e)).0 ≡ f.content
    content_of at_end =
        ap (λ s. (split_at 13 s).0) (append-nil f.content)
        ∙ ap (λ p. p.0) (split_at-Lacks 13 f.content lacks)
    content_of with_return = ap (λ p. p.0) (split_at-append 13 f.content [] lacks)

parse_fields-nil : (n : ℕ) (m : StringMap Bytes) → parse_fields n m [] ≡ m
unfolding parse_fields getline
parse_fields-nil zero m = refl
parse_fields-nil (suc n) m = refl

field_line-ne-nil : (f : Field) (t : Bytes) → field_line f ++ t ≢ []
field_line-ne-nil f t h = name_ne_nil f.name f.content t h
  where
    name_ne_nil : (s c t : Bytes) → (s ++ b':' ∷ c) ++ t ≢ []
    name_ne_nil [] c t h = cc
    name_ne_nil (b ∷ s) c t h = cc

parse_fields-lines :
    (f : Field) (fs : List Field) (n : ℕ) (m : StringMap Bytes)
    → All IsField (f ∷ fs)
    → length (field_line f ++ field_lines fs) ≤ n
    → parse_fields n m (field_line f ++ field_lines fs) ≡ put_fields m (f ∷ fs)
unfolding parse_fields put_fields
parse_fields-lines f fs zero m h l =
    absurd (no_text (field_line f ++ field_lines fs) (field_line-ne-nil f (field_lines fs)) l)
  where
    no_text : (t : Bytes) → t ≢ [] → length t ≤ 0 → ⊥
    no_text [] n l = n refl
    no_text (c ∷ t) n l = omega arith
parse_fields-lines f [] (suc n) m h l =
    rw
      (
        getline-Lacks b'\n' (field_line f ++ []) (Lacks-concat 10 (field_line f) [] h.0.no_feed tt)
            (field_line-ne-nil f []),
        put_field-line m f h.0 at_end,
        parse_fields,
      )
      (parse_fields-nil n _)
parse_fields-lines f (g ∷ gs) (suc n) m h l =
    rw
      (
        sym (append_assoc (field_line f) (13 ∷ []) (10 ∷ (field_line g ++ field_lines gs))),
        getline-append b'\n' (field_line f ++ 13 ∷ []) (field_line g ++ field_lines gs)
            (Lacks-concat 10 (field_line f) (13 ∷ []) h.0.no_feed (ground arith, tt)),
        put_field-line m f h.0 with_return,
        parse_fields,
      )
      (parse_fields-lines g gs n (insert (to_lower (trim f.name)) (trim f.content) m) h.1 (
        omega
          (arith, length-append {0} (field_line f) (13 ∷ 10 ∷ (field_line g ++ field_lines gs)))))

AllDigits-Lacks_blank : (s : Bytes) → AllDigits s → Lacks b' ' s
unfolding isdigit
AllDigits-Lacks_blank [] h = tt
AllDigits-Lacks_blank (c ∷ s) (hc, h) = (ground arith, AllDigits-Lacks_blank s h)

pub to_int_small : (n : ℕ) → n < 2 ^ 31 → to_int n ≡ pos n
to_int_small n h = ground arith

parse_status-line :
    (status : ℤ) (l : StatusLine) (e : Bytes)
    → IsStatusLine l
    → parse_status status (status_text l ++ e) ≡ ok (pos l.code)
unfolding parse_status second_word
parse_status-line status l e h =
    rw
      (
        append_assoc l.version (b' ' ∷ (to_string l.code ++ b' ' ∷ l.reason)) e,
        getline-append b' ' l.version ((to_string l.code ++ b' ' ∷ l.reason) ++ e) h.no_blank,
        append_assoc (to_string l.code) (b' ' ∷ l.reason) e,
        getline-append b' ' (to_string l.code) (l.reason ++ e)
            (AllDigits-Lacks_blank _ (to_string-AllDigits l.code)),
        stoul-to_string l.code (omega (arith, h.not_huge)),
        parse_status,
        second_word,
      )
      (ap ok (to_int_small l.code h.not_huge))

status_text-ne-nil : (l : StatusLine) (t : Bytes) → status_text l ++ t ≢ []
status_text-ne-nil l t h = version_ne_nil l.version (to_string l.code ++ b' ' ∷ l.reason) t h
  where
    version_ne_nil : (s c t : Bytes) → (s ++ b' ' ∷ c) ++ t ≢ []
    version_ne_nil [] c t h = cc
    version_ne_nil (b ∷ s) c t h = cc

-- The head that a server writes gives its status, and its fields one after another: a name without
-- regard to case, both without the blanks at their ends, the last of a name in the place of others,
-- and names that do not occur as they were.
pub header_parsed :
    (h : Head) (l : StatusLine) (fs : List Field)
    → IsStatusLine l
    → All IsField fs
    → parse_header h (head_text l fs)
      ≡ ok (record { status_code = pos l.code; headers = put_fields h.headers fs })
unfolding parse_header put_fields
header_parsed h l [] w ws =
    rw
      (
        getline-Lacks b'\n' (status_text l ++ []) (Lacks-concat 10 (status_text l) [] w.no_feed tt)
            (status_text-ne-nil l []),
        parse_status-line h.status_code l [] w,
        parse_fields-nil,
        parse_header,
      )
      refl
header_parsed h l (f ∷ fs) w ws =
    rw
      (
        sym (append_assoc (status_text l) (13 ∷ []) (10 ∷ (field_line f ++ field_lines fs))),
        getline-append b'\n' (status_text l ++ 13 ∷ []) (field_line f ++ field_lines fs)
            (Lacks-concat 10 (status_text l) (13 ∷ []) w.no_feed (ground arith, tt)),
        parse_status-line h.status_code l (13 ∷ []) w,
        parse_header,
        parse_fields-lines f fs (length (field_line f ++ field_lines fs)) h.headers ws
            (omega arith),
      )
      refl
