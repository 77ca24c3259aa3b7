-- ===== src/Collections/BTreeMap/Remove.antt =====
-- What is left of a `BTreeMap` after `remove`.
use kernox.Prelude.{
  if◌then◌else◌, none, ◌≤◌, ◌≡◌, refl, false, not, ◌&&◌, List, [], ◌∷◌, length, All, arith,
  Bool-cases, inl, inr,
}
use kernox.Order.{Ord, Lt, same, same_iff, same_of_Lt}
use kernox.Collections.BTreeMap.{get, get_before, keys, remove, contains_key, IsSorted}

module _ {ℓ κ} {K : Type ℓ} {V : Type κ} ⦃o : Ord K⦄ where
  pub All-remove {μ} :
      (P : K → Type μ) (k : K) (m : List (K × V)) → All P (keys m) → All P (keys (remove k m))
  unfolding remove
  All-remove P k [] h = tt
  All-remove P k ((j, v) ∷ m) h = elim (Bool-cases (same k j)) [
    | inl eq ↦ rw eq h.1
    | inr ne ↦ rw ne (h.0, All-remove P k m h.1)
  ]

  pub All-entries-remove {μ} :
      (P : K × V → Type μ) (k : K) (m : List (K × V)) → All P m → All P (remove k m)
  unfolding remove
  All-entries-remove P k [] h = tt
  All-entries-remove P k ((j, v) ∷ m) h = elim (Bool-cases (same k j)) [
    | inl eq ↦ rw eq h.1
    | inr ne ↦ rw ne (h.0, All-entries-remove P k m h.1)
  ]

  pub remove-IsSorted : (k : K) (m : List (K × V)) → IsSorted m → IsSorted (remove k m)
  unfolding remove
  remove-IsSorted k [] h = tt
  remove-IsSorted k ((j, v) ∷ m) h = elim (Bool-cases (same k j)) [
    | inl eq ↦ rw eq h.1
    | inr ne ↦ rw ne (All-remove (Lt j) k m h.0, remove-IsSorted k m h.1)
  ]

  pub length-remove : (k : K) (m : List (K × V)) → length (remove k m) ≤ length m
  unfolding remove
  length-remove k [] = omega arith
  length-remove k ((j, v) ∷ m) = ground (arith, length-remove k m)

  -- A key before every key of the map is not in it.
  contains_key_before : (k : K) (m : List (K × V)) → All (Lt k) (keys m) → contains_key k m ≡ false
  unfolding contains_key
  contains_key_before k [] h = refl
  contains_key_before k ((j, v) ∷ m) h =
      ground (arith, same_of_Lt k j h.0, contains_key_before k m h.1)

  pub contains_key-remove :
      (j k : K) (m : List (K × V))
      → IsSorted m
      → contains_key j (remove k m) ≡ (contains_key j m && not (same j k))
  unfolding remove contains_key
  contains_key-remove j k [] h = refl
  contains_key-remove j k ((i, v) ∷ m) h = ground (
    arith,
    contains_key-remove j k m h.1,
    contains_key_before i m h.0,
    same_iff j i,
    same_iff j k,
    same_iff k i,
  )

  pub get-remove :
      (j k : K) (m : List (K × V))
      → IsSorted m
      → get j (remove k m) ≡ (if same j k then none else get j m)
  unfolding remove get
  get-remove j k [] h = ground arith
  get-remove j k ((i, v) ∷ m) h =
      ground
        (arith, get-remove j k m h.1, get_before i m h.0, same_iff j i, same_iff j k, same_iff k i)
