-- ===== src/StringMap.antt =====
-- `std::map<std::string, V>`: the entries in the order of their keys, each key once.
pub mod Laws
use packet_replay.Base.{
  Bool, true, false, List, [], ◌∷◌, Option, none, some, Bytes, compare_bytes, bytes_eq, Ordering,
  if◌then◌else◌, map,
}

abbrev pub StringMap {ℓ} : Type ℓ → Type ℓ
StringMap V = List (Bytes × V)

module _ {ℓ} {V : Type ℓ} where
  -- m.find(k)
  unfoldable pub lookup : Bytes → StringMap V → Option V
  unfolding compare_bytes
  lookup k [] = none
  lookup k ((j, v) ∷ m) = if bytes_eq k j then some v else lookup k m

  -- m[k] = v
  unfoldable pub insert : Bytes → V → StringMap V → StringMap V
  unfolding compare_bytes
  insert k v [] = (k, v) ∷ []
  insert k v ((j, w) ∷ m) =
      let later = insert k v m in
      elim (compare_bytes k j) [
        | Ordering.eq ↦ (j, v) ∷ m
        | Ordering.lt ↦ (k, v) ∷ (j, w) ∷ m
        | Ordering.gt ↦ (j, w) ∷ later
      ]

  -- m.empty()
  abbrev pub is_empty : StringMap V → Bool
  is_empty [] = true
  is_empty (e ∷ m) = false

  -- m.contains(k)
  abbrev pub contains : Bytes → StringMap V → Bool
  contains k m = elim (lookup k m) [ none ↦ false | some v ↦ true ]

  -- The values in the order of an iteration.
  unfoldable pub values : StringMap V → List V
  values [] = []
  values ((k, v) ∷ m) = v ∷ values m
