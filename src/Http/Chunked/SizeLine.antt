-- ===== src/Http/Chunked/SizeLine.antt =====
-- src/http_replay/http_response_processor.cc: how `ChunkedProcessor::process` reads the line with
-- the size of a chunk.
use packet_replay.Base.{
  ℕ, zero, suc, ◌+◌, ◌-◌, ◌≤◌, ◌≡◌, ◌≢◌, refl, ap, sym, ◌∙◌, true, [], ◌∷◌, ◌++◌, Bytes, length,
  drop, take, take-append_le, arith,
}
use packet_replay.Base.Int.{to_int}
use packet_replay.Http.Numbers.{is_hex, hex_value, ulong_max}
use packet_replay.Http.Numbers.Hex.{AllHex, strtoul16_lem}
use packet_replay.Http.Chunked.{
  ChunkedProcessor, more, has_line_end, c_string, size_found, size_round, tmp_siz,
}

-- The digits of a size: at least one, and a line that fits the buffer.
pub record IsSize (d : Bytes) : Type 0 where
  pub hex : AllHex d
  pub some_digit : d ≢ []
  pub fits : length d ≤ 1022
  pub in_range : hex_value 0 d ≤ ulong_max

c_string-line : (d y : Bytes) → AllHex d → c_string (d ++ 13 ∷ 10 ∷ y) ≡ d ++ 13 ∷ 10 ∷ c_string y
unfolding c_string is_hex
c_string-line [] y h = refl
c_string-line (c ∷ d) y (hc, h) = ground (arith, c_string-line d y h)

has_line_end-line : (d y : Bytes) → has_line_end (d ++ 13 ∷ 10 ∷ y) ≡ true
unfolding has_line_end
has_line_end-line [] y = refl
has_line_end-line (c ∷ d) y = ground (arith, has_line_end-line d y)

-- The bytes gathered, when the line is complete.
gathered :
    (a s d x : Bytes)
    → length a ≤ tmp_siz
    → a ++ s ≡ d ++ 13 ∷ 10 ∷ x
    → length d ≤ 1022
    → a ++ take (tmp_siz - length a) s ≡ d ++ 13 ∷ 10 ∷ take (1022 - length d) x
gathered a s d x ha e hd =
    sym (take-append_le a s tmp_siz ha)
    ∙ ap (take tmp_siz) e
    ∙ take-append_le d (13 ∷ 10 ∷ x) tmp_siz (omega arith)
    ∙ ap (λ t. d ++ t) (two (1024 - length d) (1022 - length d) (omega arith))
  where
    two : (n m : ℕ) → n ≡ suc (suc m) → take n (13 ∷ 10 ∷ x) ≡ 13 ∷ 10 ∷ take m x
    two n m h = rw h

-- The state after the line: its size is known, and the bytes gathered stay in the buffer.
abbrev pub sized : ChunkedProcessor → Bytes → Bytes → ChunkedProcessor
sized c d x = record c {
  chunk_size = to_int (hex_value 0 d);
  tmp_buf = d ++ 13 ∷ 10 ∷ take (1022 - length d) x;
}

size_found_lem :
    (c : ChunkedProcessor) (s : Bytes) (v n : ℕ)
    → n ≢ 0
    → size_found c s (v, n) ≡ more (record c { chunk_size = to_int v }) (drop (n + 2) s)
unfolding size_found
size_found_lem c s v zero h = absurd (h refl)
size_found_lem c s v (suc n) h = refl

-- A line that is complete now, with the bytes `a` of it from earlier calls: the code goes on behind
-- as many bytes of this call as the whole line has.
pub size_round_line :
    (c : ChunkedProcessor) (s d x : Bytes)
    → IsSize d
    → length c.tmp_buf ≤ tmp_siz
    → c.tmp_buf ++ s ≡ d ++ 13 ∷ 10 ∷ x
    → size_round c s ≡ more (sized c d x) (drop (length d + 2) s)
unfolding size_round
size_round_line c s d x w ha e =
    let y = take (1022 - length d) x in
    rw
      (
        size_round,
        gathered c.tmp_buf s d x ha e w.fits,
        c_string-line d y w.hex,
        has_line_end-line d (c_string y),
        strtoul16_lem d (10 ∷ c_string y) w.hex w.some_digit w.in_range,
      )
      (size_found_lem (record c { tmp_buf = d ++ 13 ∷ 10 ∷ y }) s (hex_value 0 d) (length d)
        (ne d w.some_digit))
  where
    ne : (d : Bytes) → d ≢ [] → length d ≢ 0
    ne [] h = absurd (h refl)
    ne (c ∷ d) h = omega arith
