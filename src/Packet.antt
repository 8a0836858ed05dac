-- ===== src/Packet.antt =====
-- src/include/transport_packet.h: a packet split into its layers 1 to 4.
use packet_replay.Base.{
  ℕ, ◌-◌, Bool, true, false, List, Option, none, some, get_elem?, set, replicate,
}
use packet_replay.Layers.{Layer, Protocol, get_protocol, get_layer_number, transport}

-- `layers_`, four pointers that are null at first; layer n stands at index n - 1.
pub record TransportPacket : Type 0 where
  pub layers : List (Option Layer)

unfoldable pub empty_packet : TransportPacket
empty_packet = record { layers = replicate transport none }

-- Every layer has a number from 2 to 4, so the write is inside the vector.
unfoldable pub add_layer : TransportPacket → Layer → TransportPacket
unfolding get_layer_number
add_layer p l = record { layers = set p.layers (get_layer_number l - 1) (some l) }

abbrev joined : Option (Option Layer) → Option Layer
joined none = none
joined (some l) = l

unfoldable pub get_layer : TransportPacket → ℕ → Option Layer
get_layer p n = joined (get_elem? p.layers (n - 1))

pub Protocol-discrete : Discrete Protocol
Protocol-discrete = hlevel

abbrev holds : Option Layer → Protocol → Bool
holds none proto = false
holds (some l) proto = elim (Protocol-discrete (get_protocol l) proto) [
  | yes _ ↦ true
  | no _ ↦ false
]

unfoldable pub is_layer : TransportPacket → ℕ → Protocol → Bool
unfolding get_layer get_protocol Protocol-discrete
is_layer p n proto = holds (get_layer p n) proto
