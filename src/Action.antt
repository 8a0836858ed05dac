-- ===== src/Action.antt =====
-- src/include/action.h: what happened in the capture, in the order of replay.
use packet_replay.Base.{List, [], ◌∷◌, ◌++◌, Bytes, Result, ok, ◌>>=◌}
use packet_replay.Base.Int.{ℤ, ◌+ℤ◌}
use packet_replay.Memory.{Pointer, read_range}

pub data ActionType : Type 0 where
  connect send recv close : ActionType

-- `Action::SubToken`: a token with the place that it stands for; the indices are `int`.
pub record SubToken : Type 0 where
  pub token : Bytes
  pub begin_idx : ℤ
  pub end_idx : ℤ

pub record Action : Type 0 where
  pub type : ActionType
  pub bytes : Bytes
  pub sub_tokens : List SubToken

-- `Action(type)`
abbrev pub plain : ActionType → Action
plain t = record { type = t; bytes = []; sub_tokens = [] }

-- `Action(type, std::vector<char>&&)`
abbrev pub with_bytes : ActionType → Bytes → Action
with_bytes t d = record { type = t; bytes = d; sub_tokens = [] }

-- `Action(type, const char*, int)` copies the range `data`, `data + data_len`.
unfoldable pub from_packet : ActionType → Pointer → ℤ → Result Action
unfolding read_range
from_packet t p n = do d ← read_range p n; ok (with_bytes t d)

unfoldable pub add_sub_token : Action → Bytes → ℤ → ℤ → Action
add_sub_token a t b e = record a {
  sub_tokens = a.sub_tokens ++ (record { token = t; begin_idx = b; end_idx = e } ∷ []);
}

-- `OffsettedSubToken(orig, offset)`: the same token, with its place moved.
unfoldable pub offsetted : SubToken → ℤ → SubToken
offsetted orig offset = record {
  token = orig.token;
  begin_idx = orig.begin_idx +ℤ offset;
  end_idx = orig.end_idx +ℤ offset;
}
