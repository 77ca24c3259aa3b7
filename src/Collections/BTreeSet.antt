-- ===== src/Collections/BTreeSet.antt =====
-- `BTreeSet`: a list without repetitions in the order of its elements.
use kernox.Prelude.{
  suc, ◌≡◌, refl, ap, ◌↔◌, ◌⊎◌, inl, inr, Bool, true, false, ◌||◌, List, [], ◌∷◌, ◌++◌, Memᴰ,
  Ordering, arith, length, All, All-mem, All-append, mem_cons, not_mem_nil,
}
use mathlib.Core.List.Memᴰ
use kernox.Order.{
  Ord, Lt, same, same_iff, same_of_Lt, cmp_swap, Lt_trans, Lt_irrefl, Ordering-cases,
}

module _ {ℓ} {K : Type ℓ} ⦃o : Ord K⦄ where
  -- `set.contains(&k)`
  abbrev pub contains : K → List K → Bool
  contains k [] = false
  contains k (x ∷ xs) = same k x || contains k xs

  -- `set.insert(k)`; its result is true when the set did not contain `k`
  unfoldable pub insert : K → List K → List K
  insert k [] = k ∷ []
  insert k (x ∷ xs) = elim (o.cmp k x) [
    | Ordering.lt ↦ k ∷ x ∷ xs
    | Ordering.eq ↦ x ∷ xs
    | Ordering.gt ↦ x ∷ insert k xs
  ]

  -- `iterator.collect::<BTreeSet<_>>()`
  unfoldable pub collect : List K → List K
  collect [] = []
  collect (x ∷ xs) = insert x (collect xs)

  abbrev pub IsSorted : List K → Type ℓ
  IsSorted [] = Unit
  IsSorted (x ∷ xs) = All (λ y. Lt x y) xs × IsSorted xs

  pub contains_iff : (k : K) (s : List K) → (contains k s ≡ true) ↔ Memᴰ k s
  contains_iff k [] = (λ e. cc, λ m. not_mem_nil m)
  contains_iff k (x ∷ xs) = ground (arith, same_iff k x, contains_iff k xs, mem_cons k x xs)

  pub contains-insert :
      (j k : K) (s : List K) → contains j (insert k s) ≡ (same j k || contains j s)
  unfolding insert
  contains-insert j k [] = refl
  contains-insert j k (x ∷ xs) =
      ground (arith, contains-insert j k xs, o.eq_of_cmp k x, same_iff j k, same_iff j x)

  pub mem-insert : (j k : K) (s : List K) → Memᴰ j (insert k s) ↔ ((j ≡ k) ⊎ Memᴰ j s)
  mem-insert j k s =
      ground
        (arith, contains_iff j (insert k s), contains_iff j s, same_iff j k, contains-insert j k s)

  pub All-insert {κ} : (P : K → Type κ) (k : K) (s : List K) → P k → All P s → All P (insert k s)
  unfolding insert
  All-insert P k [] p h = (p, tt)
  All-insert P k (x ∷ xs) p h =
      elim (o.cmp k x)
        as (λ c. All P (elim c [
          | Ordering.lt ↦ k ∷ x ∷ xs
          | Ordering.eq ↦ x ∷ xs
          | Ordering.gt ↦ x ∷ insert k xs
        ])) [
          | Ordering.lt ↦ (p, h)
          | Ordering.eq ↦ h
          | Ordering.gt ↦ (h.0, All-insert P k xs p h.1)
        ]

  pub All-Lt_trans : (x y : K) (xs : List K) → Lt x y → All (Lt y) xs → All (Lt x) xs
  All-Lt_trans x y [] h a = tt
  All-Lt_trans x y (z ∷ xs) h a = (Lt_trans x y z h a.0, All-Lt_trans x y xs h a.1)

  pub insert-IsSorted : (k : K) (s : List K) → IsSorted s → IsSorted (insert k s)
  unfolding insert
  insert-IsSorted k [] h = (tt, tt)
  insert-IsSorted k (x ∷ xs) h = elim (Ordering-cases (o.cmp k x)) [
    | inl lt ↦ rw (lt, insert) ((lt, All-Lt_trans k x xs lt h.0), h)
    | inr (inl eq) ↦ rw (eq, insert) h
    | inr (inr gt) ↦
        rw (gt, insert) (All-insert (Lt x) k xs (o.cmp_gt k x gt) h.0, insert-IsSorted k xs h.1)
  ]

  insert_present : (k : K) (s : List K) → IsSorted s → contains k s ≡ true → insert k s ≡ s
  unfolding insert
  insert_present k [] h e = cc
  insert_present k (x ∷ xs) h e = elim (Ordering-cases (o.cmp k x)) [
    | inl lt ↦ absurd (
        Lt_irrefl k (
          All-mem (Lt k) (x ∷ xs) (lt, All-Lt_trans k x xs lt h.0) ((contains_iff k (x ∷ xs)).0 e)))
    | inr (inl eq) ↦ rw (eq, insert)
    | inr (inr gt) ↦ rw (gt, insert) (ap (λ t. x ∷ t) (insert_present k xs h.1 (ground arith)))
  ]

  length-insert : (k : K) (s : List K) → contains k s ≡ false → length (insert k s) ≡ suc (length s)
  unfolding insert
  length-insert k [] e = refl
  length-insert k (x ∷ xs) e = ground (arith, length-insert k xs)

  pub contains-collect : (k : K) (s : List K) → contains k (collect s) ≡ contains k s
  unfolding collect
  contains-collect k [] = refl
  contains-collect k (x ∷ xs) =
      ground (arith, contains-collect k xs, contains-insert k x (collect xs))

  pub collect-IsSorted : (s : List K) → IsSorted (collect s)
  unfolding collect
  collect-IsSorted [] = tt
  collect-IsSorted (x ∷ xs) = insert-IsSorted x (collect xs) (collect-IsSorted xs)

  -- A sorted list is its own set.
  pub collect_sorted : (s : List K) → IsSorted s → collect s ≡ s
  unfolding collect insert
  collect_sorted [] h = refl
  collect_sorted (x ∷ []) h = refl
  collect_sorted (x ∷ y ∷ s) h = rw (collect_sorted (y ∷ s) h.1) (rw (h.0.0, insert))

  -- The first element is not among the others.
  pub not_mem_of_sorted : (x : K) (xs : List K) → IsSorted (x ∷ xs) → Memᴰ x xs → ⊥
  not_mem_of_sorted x xs h m = Lt_irrefl x (All-mem (Lt x) xs h.0 m)

  pub contains-append :
      (k : K) (s t : List K) → contains k (s ++ t) ≡ (contains k s || contains k t)
  contains-append k [] t = refl
  contains-append k (x ∷ xs) t = ground (arith, contains-append k xs t)

  -- A greater element goes to the end.
  pub insert_last :
      (k : K) (s : List K)
      → All (λ j. Lt j k) s
      → (insert k s ≡ s ++ k ∷ []) × (contains k s ≡ false)
  unfolding insert
  insert_last k [] h = (refl, refl)
  insert_last k (x ∷ xs) h =
      let (last, new) = insert_last k xs h.1 in
      (rw (cmp_swap k x h.0, insert) (ap (λ t. x ∷ t) last), rw (same_of_Lt x k h.0) new)

  -- What stands before the rest of a sorted list is less than each of the rest.
  pub IsSorted-append : (s t : List K) (k : K) → IsSorted (s ++ k ∷ t) → All (λ j. Lt j k) s
  IsSorted-append [] t k h = tt
  IsSorted-append (x ∷ s) t k h = (
    All-mem (Lt x) (s ++ k ∷ t) h.0 (Memᴰ.append_right s (Memᴰ.head refl)),
    IsSorted-append s t k h.1,
  )

  pub append-IsSorted :
      (s t : List K) → IsSorted s → IsSorted t → All (λ x. All (Lt x) t) s → IsSorted (s ++ t)
  append-IsSorted [] t h k a = k
  append-IsSorted (x ∷ s) t h k a = (All-append (Lt x) s t h.0 a.0, append-IsSorted s t h.1 k a.1)

  -- No element stands twice in the list.
  abbrev pub Distinct : List K → Type 0
  Distinct [] = Unit
  Distinct (x ∷ xs) = All (λ y. same y x ≡ false) xs × Distinct xs

  -- No element of the list is in the set.
  abbrev pub Fresh : List K → List K → Type 0
  Fresh s ks = All (λ k. contains k s ≡ false) ks

  pub Fresh-insert :
      (s : List K) (x : K) (ks : List K)
      → Fresh (insert x s) ks ↔ (All (λ k. same k x ≡ false) ks × Fresh s ks)
  Fresh-insert s x [] = (λ h. (tt, tt), λ h. tt)
  Fresh-insert s x (k ∷ ks) = ground (arith, Fresh-insert s x ks, contains-insert k x s)

  pub Fresh-nil : (ks : List K) → Fresh [] ks
  Fresh-nil [] = tt
  Fresh-nil (k ∷ ks) = (refl, Fresh-nil ks)
