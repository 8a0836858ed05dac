-- ===== src/Tests/Text.antt =====
-- The string helpers on sample texts, and their theorems at these.
use packet_replay.Base.Int.{pos}
use packet_replay.Action.{Action, send}
use packet_replay.Serializer.{create_action}
use packet_replay.Serializer.Places.{Part, render, range_of, places_found}
use packet_replay.Base.{map, ◌≡◌, refl, [], ◌∷◌, codes, ok, arith}
use packet_replay.Util.{trim, tokenize, to_lower}
use packet_replay.Util.Number.{to_string, stoul, stoul-to_string}

trims : trim (codes " \ta b\r\n") ≡ codes "a b"
unfolding trim
trims = refl

tokens : tokenize (codes "a::b:") b':' ≡ codes "a" ∷ [] ∷ codes "b" ∷ []
unfolding tokenize
tokens = refl

lowers : to_lower (codes "Content-Length") ≡ codes "content-length"
unfolding to_lower
lowers = refl

stoul-to_string_example : stoul (to_string 65535) ≡ ok 65535
stoul-to_string_example = stoul-to_string 65535 (omega arith)

abbrev user_part : Part
user_part = record { literal = codes "Hi "; name = codes "user" }

places_found_example :
    (a : Action) × (create_action send (render (user_part ∷ []) (codes "!")) ≡ ok a)
    × (map range_of a.sub_tokens ≡ (pos 3, pos 10) ∷ [])
places_found_example = places_found send (user_part ∷ []) (codes "!") (ground arith) (ground arith)
