-- ===== src/Http/Response/Stale.antt =====
-- src/http_replay/http_response_processor.h: `reset` keeps `headers_`, so the fields of one response
-- are still there for the next.
use packet_replay.Base.{
  ℕ, ◌≡◌, ◌≢◌, refl, sym, ◌∙◌, true, List, [], ◌∷◌, some, Bytes, All, ok, codes, bytes_eq,
  if◌then◌else◌, Bool-cases, inl, inr,
}
use packet_replay.Util.{trim, to_lower}
use packet_replay.StringMap.{StringMap, lookup, insert}
use packet_replay.StringMap.Laws.{lookup-insert, bytes_eq-eq}
use packet_replay.Http.ContentLen.Pieces.{filled}
use packet_replay.Http.Header.Fields.{Field, put_fields}
use packet_replay.Http.Response.{HttpResponseProcessor, content_len, reset, choose_processor}
use packet_replay.Http.Response.Received.{SaysLength, choose_length}

-- No field has the key.
abbrev pub Without : Bytes → List Field → Type 0
Without k fs = All (λ f. to_lower (trim f.name) ≢ k) fs

lookup-put_fields :
    (k : Bytes) (m : StringMap Bytes) (fs : List Field)
    → Without k fs
    → lookup k (put_fields m fs) ≡ lookup k m
unfolding put_fields
lookup-put_fields k m [] h = refl
lookup-put_fields k m (f ∷ fs) (h, hs) =
    lookup-put_fields k (insert (to_lower (trim f.name)) (trim f.content) m) fs hs
    ∙ lookup-insert (to_lower (trim f.name)) k (trim f.content) m
    ∙ kept (bytes_eq-eq k (to_lower (trim f.name)))
  where
    kept :
        (bytes_eq k (to_lower (trim f.name)) ≡ true → k ≡ to_lower (trim f.name))
        → (if bytes_eq k (to_lower (trim f.name)) then some (trim f.content) else lookup k m)
          ≡ lookup k m
    kept g = elim (Bool-cases (bytes_eq k (to_lower (trim f.name)))) [
      | inl same ↦ absurd (h (sym (g same)))
      | inr differ ↦ rw differ refl
    ]

-- A processor whose fields give a length of n bytes, reset for another response, of which no field
-- says a length, whatever it says of chunks: it takes the body for one of n bytes.
pub stale_length :
    (r : HttpResponseProcessor) (fs : List Field) (n : ℕ)
    → SaysLength r.headers n
    → Without (codes "content-length") fs
    → choose_processor (put_fields (reset r).headers fs) ≡ ok (content_len (filled n []))
unfolding reset
stale_length r fs n says without = choose_length (put_fields r.headers fs) n record {
  said = says.said;
  found = lookup-put_fields (codes "content-length") r.headers fs without ∙ says.found;
  number = says.number;
  not_huge = says.not_huge;
}
