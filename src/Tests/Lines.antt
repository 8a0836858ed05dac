-- ===== src/Tests/Lines.antt =====
-- Properties and the validator on sample texts, and the theorems at these.
use packet_replay.Base.{
  ◌≡◌, refl, List, [], ◌∷◌, ◌++◌, Bytes, codes, ok, err, fault, arith, bytes_eq, compare_bytes,
}
use packet_replay.Base.Int.{pos, negsuc}
use packet_replay.Util.{isspace, trim_left}
use packet_replay.Util.Number.{leading_digits}
use packet_replay.StringMap.{lookup, insert}
use packet_replay.Properties.{Properties, empty_properties, put, get_as_int, stoi, write}
use packet_replay.Properties.Lines.{put_lines, put_all, put_lines-write}
use packet_replay.Validator.{validate, validate_with_tokens}
use packet_replay.Validator.Compare.{validate_lem, validate_reads_past_end}

abbrev sample_entries : List (Bytes × Bytes)
sample_entries = (codes "Protocol", codes "TCP") ∷ (codes "TestPort", codes "-80") ∷ []

abbrev sample_properties : Properties
sample_properties = put_all empty_properties sample_entries

port_read : get_as_int sample_properties (codes "TestPort") ≡ ok (negsuc 79)
unfolding get_as_int stoi put_all put lookup insert compare_bytes trim_left leading_digits
port_read = refl

put_lines-write_example :
    put_lines 3 empty_properties (write sample_entries) ≡ put_all empty_properties sample_entries
unfolding isspace
put_lines-write_example =
    put_lines-write sample_entries empty_properties 3 (ground arith) (omega arith)

validate_example :
    validate (codes "ab" ++ codes "x") (pos 2) (codes "ab" ++ codes "y") (pos 2)
    ≡ ok (bytes_eq (codes "ab") (codes "ab"))
validate_example = validate_lem (codes "ab") (codes "x") (codes "ab") (codes "y")

validate_reads_past_end_example :
    validate_with_tokens (codes "ab") (pos 2) (codes "ab") (pos 2) [] empty_properties ≡ err fault
validate_reads_past_end_example =
    validate_reads_past_end (codes "ab") (codes "ab") empty_properties (λ h. cc) refl
