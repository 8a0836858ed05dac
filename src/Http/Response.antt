-- ===== src/Http/Response.antt =====
-- src/http_replay/http_response_processor.cc and .h: `HttpResponseProcessor`.
pub mod Pieces
pub mod Errors
pub mod Received
pub mod Compare
pub mod Completes
pub mod Stale
use packet_replay.Base.{
  ℕ, ◌+◌, ◌-◌, Bool, true, false, not, ◌&&◌, [], ◌∷◌, ◌++◌, Option, none, some, Bytes, Result, ok,
  err, fault, runtime_error, required, ◌>>=◌, length, take, drop, ltb, ◌==◌, bytes_eq,
  compare_bytes, if◌then◌else◌, codes, guard, ◌>>◌,
}
use packet_replay.Base.Int.{ℤ, pos, negsuc}
use packet_replay.Util.{to_lower}
use packet_replay.Util.Search.{starts_with}
use packet_replay.Validator.{int_eq, minus}
use packet_replay.StringMap.{StringMap, lookup}
use packet_replay.Http.ContentLen
use packet_replay.Http.ContentLen.{ContentLenProcessor, new_content_len}
use packet_replay.Http.Chunked
use packet_replay.Http.Chunked.{ChunkedProcessor, new_chunked, c_string}
use packet_replay.Http.Header.{Head, parse_header}

-- `DataProcessor` and its two classes.
pub data DataProcessor : Type 0 where
  content_len : ContentLenProcessor → DataProcessor
  chunked : ChunkedProcessor → DataProcessor

pub record HttpResponseProcessor : Type 0 where
  pub header_str : Bytes
  pub head : Head
  pub open head use *
  pub data_processor : Option DataProcessor

-- `reset`, which leaves `headers_` alone.
unfoldable pub reset : HttpResponseProcessor → HttpResponseProcessor
reset r = record {
  header_str = [];
  head = record { status_code = negsuc 0; headers = r.headers };
  data_processor = none;
}

abbrev pub new_response : HttpResponseProcessor
new_response = record {
  header_str = [];
  head = record { status_code = negsuc 0; headers = [] };
  data_processor = none;
}

-- `DataProcessor::process`, whose result the processor does not use.
unfoldable pub feed : DataProcessor → Bytes → Result DataProcessor
feed (content_len c) bytes = do d ← ContentLen.process c bytes; ok (content_len d)
feed (chunked c) bytes = do (d, done) ← Chunked.process c bytes; ok (chunked d)

unfoldable pub is_complete : DataProcessor → Bool
is_complete (content_len c) = ContentLen.is_complete c
is_complete (chunked c) = c.complete

abbrev pub head_end : Bytes
head_end = 13 ∷ 10 ∷ 13 ∷ 10 ∷ []

-- `s.find("\r\n\r\n")`
unfoldable pub find_end : Bytes → Option ℕ
find_end [] = none
find_end (c ∷ s) =
    let later = find_end s in
    if starts_with head_end (c ∷ s)
    then some 0
    else elim later [ none ↦ none | some n ↦ some (n + 1) ]

-- `s.find("\r\n\r\n", start)`
unfoldable pub find_end_from : Bytes → ℕ → Option ℕ
unfolding find_end
find_end_from s start = elim (find_end (drop start s)) [ none ↦ none | some n ↦ some (start + n) ]

-- The processor for the body that the header asks for.
unfoldable pub choose_processor : StringMap Bytes → Result DataProcessor
unfolding lookup
choose_processor headers = elim (lookup (codes "content-length") headers) [
  | some value ↦ (do c ← new_content_len value; ok (content_len c))
  | none ↦ elim (lookup (codes "transfer-encoding") headers) [
    | some value ↦
        if bytes_eq (to_lower (c_string value)) (codes "chunked")
        then ok (chunked new_chunked)
        else err runtime_error
    | none ↦ err runtime_error
  ]
]

-- The header is complete: it ends at `at`. What follows it is the start of the body.
unfoldable pub start_body : HttpResponseProcessor → ℕ → Result HttpResponseProcessor
unfolding choose_processor parse_header feed
start_body r at = do
  h ← parse_header r.head (take at r.header_str)
  p ← choose_processor h.headers
  q ← if ltb (at + 4) (length r.header_str) then feed p (drop (at + 4) r.header_str) else ok p
  ok record { header_str = take (at + 4) r.header_str; head = h; data_processor = some q }

-- Data while the header is not complete. The search goes back over the end of the last search.
unfoldable pub process_head : HttpResponseProcessor → Bytes → Result HttpResponseProcessor
unfolding start_body find_end_from
process_head r bytes =
    let orig_len = length r.header_str in
    let s = record r { header_str = r.header_str ++ bytes } in
    if ltb 3 (orig_len + length bytes)
    then elim (find_end_from s.header_str (if ltb orig_len 3 then 0 else orig_len - 3)) [
      | none ↦ ok s
      | some at ↦ start_body s at
    ]
    else ok s

-- Data of the body, for the data processor that the pointer gives.
unfoldable pub process_body : HttpResponseProcessor → Bytes → Result HttpResponseProcessor
unfolding feed
process_body r bytes = do
  p ← required r.data_processor fault
  q ← feed p bytes
  ok (record r { data_processor = some q })

-- `processData`. At its end the pointer to the data processor is followed in any case.
unfoldable pub process_data : HttpResponseProcessor → Bytes → Result (HttpResponseProcessor × Bool)
unfolding process_head process_body
process_data r bytes = do
  s ← if int_eq r.status_code (negsuc 0) then process_head r bytes else process_body r bytes
  p ← required s.data_processor fault
  ok (s, is_complete p)

-- `complete`
unfoldable pub complete : HttpResponseProcessor → Result Bool
unfolding is_complete
complete r =
    if int_eq r.status_code (negsuc 0)
    then ok false
    else (do p ← required r.data_processor fault; ok (is_complete p))

-- `DataProcessor::compare`
unfoldable pub compare_bodies : DataProcessor → DataProcessor → Result ℤ
compare_bodies (content_len c) (content_len d) = ContentLen.compare_with c d
compare_bodies (chunked c) (chunked d) = Chunked.compare_with c d
compare_bodies _ _ = err runtime_error

-- `compare`: 0 for responses with the same status and the same body.
unfoldable pub compare_responses : HttpResponseProcessor → HttpResponseProcessor → Result ℤ
unfolding complete compare_bodies
compare_responses r s = do
  mine ← complete r
  others ← if mine then complete s else ok false
  guard others runtime_error
  if int_eq r.status_code s.status_code
      then (do
        p ← required r.data_processor fault
        q ← required s.data_processor fault
        compare_bodies p q)
      else ok (minus r.status_code s.status_code)
