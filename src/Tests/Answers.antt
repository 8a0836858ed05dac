-- ===== src/Tests/Answers.antt =====
-- Heads of responses, and the theorems at these.
use packet_replay.Base.{
  ◌≡◌, refl, ap, [], ◌∷◌, ◌++◌, codes, ok, err, fault, length, length-append, arith,
}
use packet_replay.Base.Int.{pos, negsuc}
use packet_replay.Util.{split_at, trim, trim_left, trim_right, to_lower, lower, isspace}
use packet_replay.Util.Number.{
  to_string, to_string_loop, stoul, after_sign, from_digits, leading_digits, isdigit, value,
}
use packet_replay.StringMap.{lookup, insert}
use packet_replay.Http.ContentLen.Pieces.{filled}
use packet_replay.Http.Chunked.{c_string}
use packet_replay.Http.Header.{parse_header}
use packet_replay.Http.Header.Fields.{
  StatusLine, IsStatusLine, Field, IsField, head_text, put_fields, header_parsed,
}
use packet_replay.Http.Response.{
  new_response, reset, content_len, process_data, choose_processor, head_end,
}
use packet_replay.Http.Response.Errors.{HasEnd, head_incomplete}
use packet_replay.Http.Response.Received.{SaysLength, SaysChunked}
use packet_replay.Http.Response.Stale.{stale_length}

abbrev pub ok_line : StatusLine
ok_line = record { version = codes "HTTP/1.1"; code = 200; reason = codes "OK" }

abbrev pub length_field : Field
length_field = record { name = codes "Content-Length"; content = codes " 5" }

abbrev pub chunks_field : Field
chunks_field = record { name = codes "Transfer-Encoding"; content = codes " chunked" }

pub ok_line-IsStatusLine : IsStatusLine ok_line
unfolding to_string to_string_loop
ok_line-IsStatusLine = record {
  no_blank = ground arith;
  no_return = ground arith;
  no_feed = ground arith;
  not_huge = omega arith;
}

pub length_field-IsField : IsField length_field
length_field-IsField = record {
  no_colon = ground arith;
  no_return = ground arith;
  no_feed = ground arith;
}

pub chunks_field-IsField : IsField chunks_field
chunks_field-IsField = record {
  no_colon = ground arith;
  no_return = ground arith;
  no_feed = ground arith;
}

header_parsed_example :
    parse_header
      (record { status_code = negsuc 0; headers = [] })
      (head_text ok_line (length_field ∷ []))
    ≡ ok (record { status_code = pos 200; headers = put_fields [] (length_field ∷ []) })
header_parsed_example =
    header_parsed (record { status_code = negsuc 0; headers = [] }) ok_line (length_field ∷ [])
      ok_line-IsStatusLine (length_field-IsField, tt)

pub says_five : SaysLength (put_fields [] (length_field ∷ [])) 5
unfolding put_fields lookup insert trim trim_left trim_right to_lower lower isspace stoul after_sign
    from_digits leading_digits isdigit value
says_five = record { said = codes "5"; found = refl; number = refl; not_huge = omega arith }

pub says_chunks : SaysChunked (put_fields [] (chunks_field ∷ []))
unfolding put_fields lookup insert trim trim_left trim_right to_lower lower isspace c_string
    split_at
says_chunks = record { no_length = refl; said = codes "chunked"; found = refl; chunks = refl }

stale_length_example :
    choose_processor (
      put_fields
        (reset (record new_response {
          head = record { status_code = pos 200; headers = put_fields [] (length_field ∷ []) };
        })).headers
        (chunks_field ∷ []))
    ≡ ok (content_len (filled 5 []))
unfolding trim trim_left trim_right to_lower lower isspace
stale_length_example =
    stale_length
      (record new_response {
        head = record { status_code = pos 200; headers = put_fields [] (length_field ∷ []) };
      })
      (chunks_field ∷ []) 5 says_five ((λ h. cc), tt)

-- The end of a head is at least four bytes.
no_end : ¬ HasEnd (codes "HTT")
no_end (a, b, e) =
    omega (arith, ap length e, length-append {0} (a ++ head_end) b, length-append {0} a head_end)

head_incomplete_example : process_data (reset new_response) (codes "HTT") ≡ err fault
head_incomplete_example = head_incomplete new_response (codes "HTT") no_end
