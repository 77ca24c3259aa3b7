-- ===== src/Collections/BinarySearch.antt =====
-- `slice::binary_search_by`: the standard library's search, which halves the part that can hold the element.
use Prim.Native.Nat.{◌/◌}
use kernox.Prelude.{
  ℕ, zero, suc, ◌+◌, ◌-◌, ◌≤◌, ◌<◌, ◌≡◌, refl, sym, subst, ap, ◌∙◌, inl, inr, Bool, true, false,
  List, [], ◌∷◌, map, Memᴰ, mem_tail, ◌↔◌, mem_cons, mem_map, not_mem_nil, Option, none, some,
  length, get_elem?, Ordering, ltb, if◌then◌else◌, arith, All, All-mem, Bool-cases,
}
use kernox.Order.{Ord, Lt, Ordering-cases, cmp_swap, cmp_of_eq}
use kernox.Collections.BTreeSet

abbrev is_gt : Ordering → Bool
is_gt Ordering.gt = true
is_gt _ = false

abbrev is_eq : Ordering → Bool
is_eq Ordering.eq = true
is_eq _ = false

-- the loop over `base` and `size`, which halves `size`
unfoldable pub narrow : ℕ → (ℕ → Bool) → ℕ → ℕ → ℕ
narrow zero above base size = base
narrow (suc fuel) above base size =
    let half = size / 2 in
    let upper = narrow fuel above base (size - half) in
    let lower = narrow fuel above (base + half) (size - half) in
    if ltb 1 size then (if above (base + half) then upper else lower) else base

module _ {A : Type 0} (compare_to : A → Ordering) where
  abbrev above_target : Option A → Bool
  above_target none = false
  above_target (some x) = is_gt (compare_to x)

  abbrev found : Option A → Option A
  found none = none
  found (some x) = if is_eq (compare_to x) then some x else none

  -- the element that the search finds
  unfoldable pub binary_search_by : List A → Option A
  unfolding narrow
  binary_search_by xs =
      found (get_elem? xs (narrow (length xs) (λ i. above_target (get_elem? xs i)) 0 (length xs)))

first : (P : ℕ → Type 0) → P 0 → ((j : ℕ) → P (suc j)) → (j : ℕ) → P j
first P z s zero = z
first P z s (suc j) = s j

some_inj : {A : Type 0} (a b : A) → some a ≡ some b → a ≡ b
some_inj a b e = cc

-- The loop ends at the index `i` if every index up to `i` is not above and every later one is.
narrow_lem :
    (fuel : ℕ) (above : ℕ → Bool) (base size i : ℕ)
    → size ≤ fuel + 1
    → base ≤ i
    → i < base + size
    → ((j : ℕ) → j ≤ i → above j ≡ false)
    → ((j : ℕ) → i < j → j < base + size → above j ≡ true)
    → narrow fuel above base size ≡ i
unfolding narrow
narrow_lem zero above base size i fits from to low high = omega arith
narrow_lem (suc fuel) above base size i fits from to low high = elim (Bool-cases (ltb 1 size)) [
  | inr last ↦ rw (narrow, last) (ground (arith, last))
  | inl many ↦
      let mid = base + size / 2 in
      let big : 1 < size = ground arith in
      let shrinks : size - size / 2 ≤ fuel + 1 = omega arith in
      let inside : mid < base + size = omega arith in
      elim (Bool-cases (above mid)) [
        | inl up ↦ elim (Bool-cases (ltb i mid)) [
          | inl below ↦
              rw (narrow, many, up)
                (narrow_lem fuel above base (size - size / 2) i shrinks from (ground arith) low
                  λ j l h. high j l (omega arith))
          | inr beyond ↦ absurd (ground (arith, low mid, up))
        ]
        | inr down ↦ elim (Bool-cases (ltb i mid)) [
          | inl below ↦ absurd (ground (arith, high mid, down))
          | inr beyond ↦
              rw (narrow, many, down)
                (narrow_lem fuel above mid (size - size / 2) i shrinks (ground arith) (omega arith)
                  low λ j l h. high j l (omega arith))
        ]
      ]
]

module _ {A K : Type 0} ⦃o : Ord K⦄ (key : A → K) (k : K) where
  compare_key : A → Ordering
  compare_key x = o.cmp (key x) k

  later_above :
      (ys : List A)
      → All (Lt k) (map key ys)
      → (j : ℕ) → j < length ys
      → above_target compare_key (get_elem? ys j) ≡ true
  unfolding compare_key
  later_above [] h j l = absurd (omega arith)
  later_above (y ∷ ys) h zero l = rw (cmp_swap (key y) k h.0) refl
  later_above (y ∷ ys) h (suc j) l = later_above ys h.1 j (omega arith)

  -- Where an element stands in a sorted list: the ones up to it are not above its key, the others are.
  index_of :
      (xs : List A) (x : A)
      → BTreeSet.IsSorted (map key xs)
      → Memᴰ x xs
      → key x ≡ k
      → (i : ℕ) × (i < length xs)
        × (get_elem? xs i ≡ some x)
        × ((j : ℕ) → j ≤ i → above_target compare_key (get_elem? xs j) ≡ false)
        × ((j : ℕ) → i < j → j < length xs → above_target compare_key (get_elem? xs j) ≡ true)
  unfolding compare_key
  index_of [] x h m e = not_mem_nil m
  index_of (y ∷ ys) x h m e = elim ((mem_cons x y ys).0 m) [
    | inl eq ↦
        let at : key y ≡ k = ap key (sym eq) ∙ e in
        let later = later_above ys (subst (λ t. All (Lt t) (map key ys)) at h.0) in
        (
          0,
          omega arith,
          ap some (sym eq),
          first (λ j. j ≤ 0 → above_target compare_key (get_elem? (y ∷ ys) j) ≡ false)
              (λ _. rw (cmp_of_eq (key y) k at) refl) (λ j l. absurd (omega arith)),
          first
              (λ j.
                0 < j
                → j < suc (length ys)
                → above_target compare_key (get_elem? (y ∷ ys) j) ≡ true)
              (λ l. absurd (omega arith)) (λ j _ l. later j (omega arith)),
        )
    | inr rest ↦
        let before : Lt (key y) k =
          subst (Lt (key y)) e (All-mem (Lt (key y)) (map key ys) h.0 (mem_map key rest)) in
        let (i, l, at, low, high) = index_of ys x h.1 rest e in
        (
          suc i,
          omega arith,
          at,
          first (λ j. j ≤ suc i → above_target compare_key (get_elem? (y ∷ ys) j) ≡ false)
              (λ _. rw before refl) (λ j l. low j (omega arith)),
          first
              (λ j.
                suc i < j
                → j < suc (length ys)
                → above_target compare_key (get_elem? (y ∷ ys) j) ≡ true)
              (λ l. absurd (omega arith)) (λ j l r. high j (omega arith) (omega arith)),
        )
  ]

  mem_of_get_elem? : (xs : List A) (i : ℕ) (x : A) → get_elem? xs i ≡ some x → Memᴰ x xs
  mem_of_get_elem? [] i x e = absurd (cc)
  mem_of_get_elem? (y ∷ ys) zero x e = Memᴰ.head (cc)
  mem_of_get_elem? (y ∷ ys) (suc i) x e = mem_tail y (mem_of_get_elem? ys i x e)

  found-some : (o' : Option A) (x : A) → found compare_key o' ≡ some x → (o' ≡ some x) × (key x ≡ k)
  unfolding compare_key
  found-some none x e = absurd (cc)
  found-some (some y) x e = elim (Ordering-cases (o.cmp (key y) k)) [
    | inl lt ↦ absurd (ground (arith, lt))
    | inr (inl eq) ↦
        let is : some y ≡ some x = rw eq at e in
        (is, ap key (sym (some_inj y x is)) ∙ o.eq_of_cmp (key y) k eq)
    | inr (inr gt) ↦ absurd (ground (arith, gt))
  ]

  -- On a list in strictly ascending order of its keys, the search finds exactly the element with the key.
  pub binary_search_by_iff :
      (xs : List A) (x : A)
      → BTreeSet.IsSorted (map key xs)
      → (binary_search_by (λ y. o.cmp (key y) k) xs ≡ some x) ↔ (Memᴰ x xs × (key x ≡ k))
  unfolding binary_search_by compare_key
  binary_search_by_iff xs x h = (
    λ e. let (at, is) = found-some _ x e in (mem_of_get_elem? xs _ x at, is),
    λ (m, e).
        let (i, l, at, low, high) = index_of xs x h m e in
        let ends =
          narrow_lem (length xs) (λ j. above_target compare_key (get_elem? xs j)) 0 (length xs) i
            (omega arith) (omega arith) (omega arith) low λ j l r. high j l (omega arith) in
        let here = ap (λ n. found compare_key (get_elem? xs n)) ends ∙ ap (found compare_key) at in
        here ∙ rw (cmp_of_eq (key x) k e) refl,
  )
