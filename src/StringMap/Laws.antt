-- ===== src/StringMap/Laws.antt =====
-- `std::map<std::string, V>`: what an assignment changes, and that the order of the keys is kept.
use packet_replay.Base.{
  suc, ◌≤◌, ◌≡◌, refl, true, [], ◌∷◌, none, some, Bytes, compare_bytes, bytes_eq,
  compare_bytes_refl, compare_bytes-eq, compare_bytes-flip, compare_bytes_trans, Ordering,
  if◌then◌else◌, arith, length,
}
use packet_replay.StringMap.{StringMap, lookup, insert}

pub bytes_eq-eq : (k j : Bytes) → bytes_eq k j ≡ true → k ≡ j
bytes_eq-eq k j h = ground (arith, compare_bytes-eq k j)

-- The entries stand in the strict order of their keys.
abbrev pub Follows {ℓ} : {V : Type ℓ} → Bytes → StringMap V → Type 0
Follows j [] = Unit
Follows j ((k, v) ∷ m) = compare_bytes j k ≡ Ordering.lt

abbrev pub IsSorted {ℓ} : {V : Type ℓ} → StringMap V → Type 0
IsSorted [] = Unit
IsSorted ((k, v) ∷ m) = Follows k m × IsSorted m

module _ {ℓ} {V : Type ℓ} where
  pub lookup-insert :
      (k j : Bytes) (v : V) (m : StringMap V)
      → lookup j (insert k v m) ≡ (if bytes_eq j k then some v else lookup j m)
  unfolding lookup insert
  lookup-insert k j v [] = refl
  lookup-insert k j v ((i, w) ∷ m) = ground (
    arith,
    compare_bytes-eq k i,
    compare_bytes-eq j k,
    compare_bytes-eq j i,
    compare_bytes_refl k,
    lookup-insert k j v m,
  )

  pub lookup-insert_self : (k : Bytes) (v : V) (m : StringMap V) → lookup k (insert k v m) ≡ some v
  lookup-insert_self k v m = ground (arith, lookup-insert k k v m, compare_bytes_refl k)

  Follows-insert :
      (i k : Bytes) (v : V) (m : StringMap V)
      → compare_bytes i k ≡ Ordering.lt
      → Follows i m
      → Follows i (insert k v m)
  unfolding insert
  Follows-insert i k v [] h f = h
  Follows-insert i k v ((j, w) ∷ m) h f = ground arith

  -- An assignment keeps the keys in order.
  pub insert-IsSorted : (k : Bytes) (v : V) (m : StringMap V) → IsSorted m → IsSorted (insert k v m)
  unfolding insert
  insert-IsSorted k v [] h = (tt, tt)
  insert-IsSorted k v ((j, w) ∷ m) (f, h) = ground (
    arith,
    compare_bytes-flip k j,
    compare_bytes-eq k j,
    Follows-insert j k v m,
    insert-IsSorted k v m h,
  )

  Follows-trans :
      (k j : Bytes) (m : StringMap V) → compare_bytes k j ≡ Ordering.lt → Follows j m → Follows k m
  Follows-trans k j [] h f = tt
  Follows-trans k j ((i, w) ∷ m) h f = compare_bytes_trans k j i h f

  lookup_below : (k : Bytes) (m : StringMap V) → Follows k m → IsSorted m → lookup k m ≡ none
  unfolding lookup
  lookup_below k [] f s = refl
  lookup_below k ((j, w) ∷ m) f (g, s) =
      ground (arith, Follows-trans k j m f g, λ (h : Follows k m). lookup_below k m h s)

  -- An assignment to a key that is there keeps the number of entries.
  pub length-insert_old :
      (k : Bytes) (v w : V) (m : StringMap V)
      → IsSorted m
      → lookup k m ≡ some w
      → length (insert k v m) ≡ length m
  unfolding insert lookup
  length-insert_old k v w [] s h = cc
  length-insert_old k v w ((j, u) ∷ m) (f, s) h =
      ground (arith, lookup_below k m, Follows-trans k j m, length-insert_old k v w m s)

  pub length-insert-le :
      (k : Bytes) (v : V) (m : StringMap V) → length (insert k v m) ≤ suc (length m)
  unfolding insert
  length-insert-le k v [] = omega arith
  length-insert-le k v ((j, w) ∷ m) = ground (arith, length-insert-le k v m)
