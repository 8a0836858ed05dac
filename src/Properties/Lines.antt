-- ===== src/Properties/Lines.antt =====
-- src/lib/properties.cc: what `put` reads from the lines that `write` has written.
use packet_replay.Base.{
  ◌≡◌, refl, true, List, [], ◌∷◌, ◌++◌, some, none, Bytes, reverse, arith, ℕ, zero, suc, ◌<◌,
  length, All,
}
use packet_replay.Util.{strchr, getline, trim, trim_left, isspace}
use packet_replay.Util.Tokens.{Lacks, split_at-append, getline-append}
use packet_replay.Util.Trim.{StartsSolid, trim_of_solid}
use packet_replay.Properties.{Properties, put, put_line, line_of, write}

strchr-append : (d : ℕ) (t rest : Bytes) → Lacks d t → strchr (t ++ d ∷ rest) d ≡ some (d ∷ rest)
unfolding strchr
strchr-append d [] rest h = ground arith
strchr-append d (c ∷ t) rest (hc, h) = ground (arith, strchr-append d t rest h)

-- A text without blanks at its ends.
abbrev pub IsTrimmed : Bytes → Type 0
IsTrimmed s = StartsSolid s × StartsSolid (reverse s)

-- An entry that a line can hold: the key has no ':', neither text has blanks at its ends, and
-- there is no line feed.
abbrev pub IsEntry : Bytes × Bytes → Type 0
IsEntry (k, v) = IsTrimmed k × (Lacks b':' k × (IsTrimmed v × Lacks b'\n' (line_of (k, v))))

trim_after_blank : (v : Bytes) → IsTrimmed v → trim (b' ' ∷ v) ≡ v
unfolding trim trim_left isspace
trim_after_blank v (a, b) = trim_of_solid v a b

pub put_line-line_of :
    (p : Properties) (k v : Bytes)
    → IsEntry (k, v)
    → put_line p (line_of (k, v)) ≡ (put p k v, true)
unfolding put_line
put_line-line_of p k v ((a, b), (c, (d, e))) = rw (
  put_line,
  strchr-append b':' k (b' ' ∷ v) c,
  split_at-append b':' k (b' ' ∷ v) c,
  trim_of_solid k a b,
  trim_after_blank v d,
)

-- The lines of a text, put one after another. The fuel bounds the lines.
unfoldable pub put_lines : ℕ → Properties → Bytes → Properties
put_lines zero p s = p
put_lines (suc fuel) p s = elim (getline b'\n' s) [
  | none ↦ p
  | some (line, rest) ↦ put_lines fuel (put_line p line).0 rest
]

unfoldable pub put_all : Properties → List (Bytes × Bytes) → Properties
put_all p [] = p
put_all p ((k, v) ∷ es) = put_all (put p k v) es

-- What `write` has written of entries whose keys have no ':', whose texts have no blanks at their
-- ends and that hold no line feed, in whatever order they were written, comes back line by line,
-- if as many lines are read as there are entries, and the end: the map that reads the lines is the
-- one in which the entries were put one after another.
pub put_lines-write :
    (es : List (Bytes × Bytes)) (p : Properties) (fuel : ℕ)
    → All IsEntry es
    → length es < fuel
    → put_lines fuel p (write es) ≡ put_all p es
unfolding put_lines put_all write getline
put_lines-write es p zero h f = elim f [ ]
put_lines-write [] p (suc fuel) h f = refl
put_lines-write ((k, v) ∷ es) p (suc fuel) (h, hs) f =
    rw
      (
        getline-append b'\n' (line_of (k, v)) (write es) h.1.1.1,
        put_line-line_of p k v h,
        put_lines,
      )
      (put_lines-write es (put p k v) fuel hs (omega arith))
