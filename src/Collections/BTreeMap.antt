-- ===== src/Collections/BTreeMap.antt =====
-- `BTreeMap`: an association list in the order of its keys, without repeated keys.
pub mod Remove
use kernox.Prelude.{
  ◌≡◌, refl, sym, ◌∙◌, ◌≢◌, ◌⊎◌, ap, ◌↔◌, inl, inr, Bool, true, false, ◌||◌, List, [], ◌∷◌, ◌++◌,
  Memᴰ, Ordering, arith, All, All-mem, mem_cons, not_mem_nil, mem_tail, Option, none, some, map,
  if◌then◌else◌, Bool-cases, mem_map,
}
use kernox.Order.{
  Ord, Lt, same, same_iff, same_refl, same_of_eq, same_of_Lt, cmp_swap, Ordering-cases,
}
use mathlib.Core.Option
use kernox.Collections.BTreeSet

module _ {ℓ κ} {K : Type ℓ} {V : Type κ} where
  -- `map.keys()`
  abbrev pub keys : List (K × V) → List K
  keys = map (λ e. e.0)

  -- `map.values()`
  abbrev pub values : List (K × V) → List V
  values = map (λ e. e.1)

  -- The keys of a map that is keyed by its values are those of its values.
  pub keys_of_values :
      (key : V → K) (m : List (K × V)) → All (λ e. e.0 ≡ key e.1) m → map key (values m) ≡ keys m
  keys_of_values key [] h = refl
  keys_of_values key ((k, a) ∷ m) h = λ i. (sym h.0 i) ∷ keys_of_values key m h.1 i

module _ {ℓ κ} {K : Type ℓ} {V : Type κ} ⦃o : Ord K⦄ where
  -- `map.get(&k)`
  unfoldable pub get : K → List (K × V) → Option V
  get k [] = none
  get k ((j, v) ∷ m) = if same k j then some v else get k m

  -- `map.contains_key(&k)`
  unfoldable pub contains_key : K → List (K × V) → Bool
  contains_key k m = BTreeSet.contains k (keys m)

  -- `map.insert(k, v)`; its result is the value that `k` had
  unfoldable pub insert : K → V → List (K × V) → List (K × V)
  insert k v [] = (k, v) ∷ []
  insert k v ((j, w) ∷ m) = elim (o.cmp k j) [
    | Ordering.lt ↦ (k, v) ∷ (j, w) ∷ m
    | Ordering.eq ↦ (k, v) ∷ m
    | Ordering.gt ↦ (j, w) ∷ insert k v m
  ]

  -- `map.entry(k).and_modify(f)`, and a write through `map.get_mut(&k)`
  unfoldable pub modify : K → (V → V) → List (K × V) → List (K × V)
  modify k f [] = []
  modify k f ((j, v) ∷ m) = if same k j then (j, f v) ∷ m else (j, v) ∷ modify k f m

  -- `map.remove(&k)`
  unfoldable pub remove : K → List (K × V) → List (K × V)
  remove k [] = []
  remove k ((j, v) ∷ m) = if same k j then m else (j, v) ∷ remove k m

  -- `map.get(&k).unwrap_or(d)`
  abbrev pub get_or : K → V → List (K × V) → V
  get_or k d m = Option.get_or (get k m) d

  abbrev pub IsSorted : List (K × V) → Type ℓ
  IsSorted m = BTreeSet.IsSorted (keys m)

  pub get-insert :
      (j k : K) (v : V) (m : List (K × V))
      → get j (insert k v m) ≡ (if same j k then some v else get j m)
  unfolding get insert
  get-insert j k v [] = refl
  get-insert j k v ((i, w) ∷ m) =
      ground (arith, get-insert j k v m, o.eq_of_cmp k i, same_iff j k, same_iff j i)

  pub keys-insert :
      (k : K) (v : V) (m : List (K × V)) → keys (insert k v m) ≡ BTreeSet.insert k (keys m)
  unfolding insert BTreeSet.insert
  keys-insert k v [] = refl
  keys-insert k v ((j, w) ∷ m) = ground (arith, keys-insert k v m, o.eq_of_cmp k j)

  pub get-modify :
      (j k : K) (f : V → V) (m : List (K × V))
      → get j (modify k f m) ≡ (if same j k then Option.map f (get j m) else get j m)
  unfolding get modify
  get-modify j k f [] = ground arith
  get-modify j k f ((i, w) ∷ m) =
      ground (arith, get-modify j k f m, same_iff k i, same_iff j k, same_iff j i)

  pub keys-modify : (k : K) (f : V → V) (m : List (K × V)) → keys (modify k f m) ≡ keys m
  unfolding modify
  keys-modify k f [] = refl
  keys-modify k f ((j, w) ∷ m) = ground (arith, keys-modify k f m)

  pub All-insert {μ} :
      (P : K × V → Type μ) (k : K) (v : V) (m : List (K × V))
      → P (k, v)
      → All P m
      → All P (insert k v m)
  unfolding insert
  All-insert P k v [] p h = (p, tt)
  All-insert P k v ((j, w) ∷ m) p h = elim (Ordering-cases (o.cmp k j)) [
    | inl lt ↦ rw (lt, insert) (p, h)
    | inr (inl eq) ↦ rw (eq, insert) (p, h.1)
    | inr (inr gt) ↦ rw (gt, insert) (h.0, All-insert P k v m p h.1)
  ]

  pub contains_key-insert :
      (j k : K) (v : V) (m : List (K × V))
      → contains_key j (insert k v m) ≡ (same j k || contains_key j m)
  unfolding contains_key
  contains_key-insert j k v m =
      ap (BTreeSet.contains j) (keys-insert k v m) ∙ BTreeSet.contains-insert j k (keys m)

  pub insert-IsSorted : (k : K) (v : V) (m : List (K × V)) → IsSorted m → IsSorted (insert k v m)
  insert-IsSorted k v m h = rw (keys-insert k v m) (BTreeSet.insert-IsSorted k (keys m) h)

  pub get-none_iff : (k : K) (m : List (K × V)) → (get k m ≡ none) ↔ (contains_key k m ≡ false)
  unfolding get contains_key
  get-none_iff k [] = (λ _. refl, λ _. refl)
  get-none_iff k ((j, v) ∷ m) = ground (arith, get-none_iff k m)

  pub get_of_contains_key :
      (k : K) (m : List (K × V)) → contains_key k m ≡ true → (v : V) × (get k m ≡ some v)
  unfolding get contains_key
  get_of_contains_key k [] e = absurd (cc)
  get_of_contains_key k ((j, v) ∷ m) e =
      elim (same k j)
          as (λ b.
            (b || BTreeSet.contains k (keys m)) ≡ true
            → (v' : V) × ((if b then some v else get k m) ≡ some v')) [
              | true ↦ λ _. (v, refl)
              | false ↦ λ h. get_of_contains_key k m h
            ]
        e

  pub mem_of_get : (k : K) (v : V) (m : List (K × V)) → get k m ≡ some v → Memᴰ (k, v) m
  unfolding get
  mem_of_get k v [] e = cc
  mem_of_get k v ((j, w) ∷ m) e = elim (Bool-cases (same k j)) [
    | inl eq ↦
        let at_key : k ≡ j = (same_iff k j).0 eq in
        let value : some w ≡ some v = rw eq at e in Memᴰ.head (cc)
    | inr ne ↦ mem_tail (j, w) (mem_of_get k v m (rw ne at e))
  ]

  -- A key before every key of the map is not in it.
  pub get_before : (k : K) (m : List (K × V)) → All (Lt k) (keys m) → get k m ≡ none
  unfolding get
  get_before k [] h = refl
  get_before k ((j, v) ∷ m) h = ground (arith, get_before k m h.1)

  pub get_of_mem :
      (k : K) (v : V) (m : List (K × V)) → IsSorted m → Memᴰ (k, v) m → get k m ≡ some v
  unfolding get
  get_of_mem k v [] h e = not_mem_nil e
  get_of_mem k v ((j, w) ∷ m) h e = elim ((mem_cons (k, v) (j, w) m).0 e) [
    | inl eq ↦ rw (same_of_eq k j (ap (λ t. t.0) eq)) (cc)
    | inr rest ↦
        rw (same_of_Lt j k (All-mem (Lt j) (keys m) h.0 (mem_map (λ t. t.0) rest)))
          (get_of_mem k v m h.1 rest)
  ]

  map_ext : (m n : List (K × V)) → IsSorted m → IsSorted n → ((k : K) → get k m ≡ get k n) → m ≡ n
  unfolding get
  map_ext [] [] h k e = refl
  map_ext [] ((i, x) ∷ n) h k e = ground (arith, e i, same_refl i)
  map_ext ((j, w) ∷ m) [] h k e = ground (arith, e j, same_refl j)
  map_ext ((j, w) ∷ m) ((i, x) ∷ n) h k e = elim (Ordering-cases (o.cmp j i)) [
    | inl lt ↦
        ground (arith, e j, same_refl j, get_before j n (BTreeSet.All-Lt_trans j i (keys n) lt k.0))
    | inr (inl eq) ↦
        let key : j ≡ i = o.eq_of_cmp j i eq in
        let value : w ≡ x = ground (arith, e j, same_refl j) in
        let tail = map_ext m n h.1 k.1 λ q. elim (Bool-cases (same q j)) [
          | inl at_j ↦ ground (arith, (same_iff q j).0 at_j, get_before j m h.0, get_before i n k.0)
          | inr off_j ↦ ground (arith, e q)
        ] in
        cc
    | inr (inr gt) ↦ ground (
      arith,
      e i,
      same_refl i,
      o.cmp_gt j i gt,
      get_before i m (BTreeSet.All-Lt_trans i j (keys m) (o.cmp_gt j i gt) h.0),
    )
  ]

  -- A new key adds one entry.
  pub mem-insert_new :
      (e : K × V) (k : K) (v : V) (m : List (K × V))
      → contains_key k m ≡ false
      → Memᴰ e (insert k v m) ↔ ((e ≡ (k, v)) ⊎ Memᴰ e m)
  unfolding insert contains_key
  mem-insert_new e k v [] h = mem_cons e (k, v) []
  mem-insert_new e k v ((j, w) ∷ m) h = elim (Ordering-cases (o.cmp k j)) [
    | inl lt ↦ rw (lt, insert) (mem_cons e (k, v) ((j, w) ∷ m))
    | inr (inl eq) ↦ absurd (ground arith)
    | inr (inr gt) ↦
        rw (gt, insert)
          (ground
            (arith, mem_cons e (j, w) (insert k v m), mem_cons e (j, w) m, mem-insert_new e k v m))
  ]

  pub insert_comm :
      (k j : K) (v w : V) (m : List (K × V))
      → IsSorted m
      → k ≢ j
      → insert k v (insert j w m) ≡ insert j w (insert k v m)
  insert_comm k j v w m h apart =
      map_ext (insert k v (insert j w m)) (insert j w (insert k v m))
        (insert-IsSorted k v _ (insert-IsSorted j w m h))
        (insert-IsSorted j w _ (insert-IsSorted k v m h))
        λ q. ground (
          arith,
          get-insert q k v (insert j w m),
          get-insert q j w (insert k v m),
          get-insert q j w m,
          get-insert q k v m,
          same_iff q k,
          same_iff q j,
        )

  -- A greater key goes to the end.
  pub insert_last :
      (k : K) (v : V) (m : List (K × V))
      → All (λ j. Lt j k) (keys m)
      → (insert k v m ≡ m ++ (k, v) ∷ []) × (contains_key k m ≡ false)
  unfolding insert contains_key
  insert_last k v [] h = (refl, refl)
  insert_last k v ((j, w) ∷ m) h =
      let (last, new) = insert_last k v m h.1 in
      (rw (cmp_swap k j h.0, insert) (ap (λ t. (j, w) ∷ t) last), rw (same_of_Lt j k h.0) new)
