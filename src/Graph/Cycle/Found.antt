-- ===== src/Graph/Cycle/Found.antt =====
-- What `find_cycle` of crates/kernox-core/src/graph.rs returns.
use kernox.Prelude.{
  ◌≡◌, refl, sym, subst, ap, ◌∙◌, ◌⊎◌, inl, inr, ⊎_elim, true, false, List, [], ◌∷◌, Memᴰ, mem_cons,
  mem_tail, not_mem_nil, none, take, All-of_mem, Bool-cases, ok, ◌>>=◌,
}
use kernox.Order.{Ord, same, same_iff}
use kernox.Collections.BTreeSet
use kernox.Collections.BTreeMap
use kernox.Graph.Cycle.{keep, neighbours_of, or_first, find_cycle}
use kernox.Graph.Cycle.Trail.{Edge, Chain, IsCycle}
use kernox.Graph.Cycle.Ends.{search_ends}
use kernox.Graph.Cycle.Finds.{search_finds}

module _ {K : Type 0} ⦃o : Ord K⦄ (remaining : List K) (adjacency : List (K × List K)) where
  mem-keep :
      (y : K) (cs : List K)
      → Memᴰ y (keep remaining cs)
      → (BTreeSet.contains y remaining ≡ true) × Memᴰ y cs
  unfolding keep
  mem-keep y [] m = not_mem_nil m
  mem-keep y (c ∷ cs) m = elim (Bool-cases (BTreeSet.contains c remaining)) [
    | inl kept ↦
        ⊎_elim (λ e. (subst (λ t. BTreeSet.contains t remaining ≡ true) (sym e) kept, Memᴰ.head e))
          (λ m'. let (inside, later) = mem-keep y cs m' in (inside, mem_tail c later))
          ((mem_cons y c (keep remaining cs)).0 (rw kept at m))
    | inr dropped ↦
        let (inside, later) = mem-keep y cs (rw dropped at m) in (inside, mem_tail c later)
  ]

  keys-neighbours_of : (ps : List K) → BTreeMap.keys (neighbours_of remaining adjacency ps) ≡ ps
  unfolding neighbours_of
  keys-neighbours_of [] = refl
  keys-neighbours_of (p ∷ ps) = ap (λ t. p ∷ t) (keys-neighbours_of ps)

  -- An edge of the search is one of the graph, to a remaining node.
  neighbours_of-Edge :
      (ps : List K) (x y : K)
      → Edge (neighbours_of remaining adjacency ps) x y
      → (BTreeSet.contains y remaining ≡ true) × Edge adjacency x y
  unfolding neighbours_of BTreeMap.get
  neighbours_of-Edge [] x y m = not_mem_nil m
  neighbours_of-Edge (p ∷ ps) x y m = elim (Bool-cases (same x p)) [
    | inl here ↦
        let (inside, edge) = mem-keep y (BTreeMap.get_or p [] adjacency) (rw here at m) in
        (
          inside,
          subst (λ t. Memᴰ y (BTreeMap.get_or t [] adjacency)) (sym ((same_iff x p).0 here)) edge,
        )
    | inr other ↦ neighbours_of-Edge ps x y (rw other at m)
  ]

  neighbours_of-Chain :
      (ps xs : List K) → Chain (neighbours_of remaining adjacency ps) xs → Chain adjacency xs
  neighbours_of-Chain ps [] h = tt
  neighbours_of-Chain ps (x ∷ []) h = tt
  neighbours_of-Chain ps (x ∷ y ∷ xs) h =
      ((neighbours_of-Edge ps x y h.0).1, neighbours_of-Chain ps (y ∷ xs) h.1)

  mem-keep_of :
      (y : K) (cs : List K)
      → BTreeSet.contains y remaining ≡ true
      → Memᴰ y cs
      → Memᴰ y (keep remaining cs)
  unfolding keep
  mem-keep_of y [] inside m = not_mem_nil m
  mem-keep_of y (c ∷ cs) inside m = elim (Bool-cases (BTreeSet.contains c remaining)) [
    | inl kept ↦
        rw kept
          (⊎_elim Memᴰ.head (λ m'. mem_tail c (mem-keep_of y cs inside m')) ((mem_cons y c cs).0 m))
    | inr dropped ↦ rw dropped (
        ⊎_elim
          (λ is.
            absurd
              (kept_dropped (sym inside ∙ ap (λ t. BTreeSet.contains t remaining) is ∙ dropped)))
          (λ m'. mem-keep_of y cs inside m') ((mem_cons y c cs).0 m))
  ]
    where
      kept_dropped : true ≡ false → ⊥
      kept_dropped e = cc

  Edge-neighbours_of :
      (ps : List K) (x y : K)
      → Memᴰ x ps
      → BTreeSet.contains y remaining ≡ true
      → Edge adjacency x y
      → Edge (neighbours_of remaining adjacency ps) x y
  unfolding neighbours_of BTreeMap.get
  Edge-neighbours_of [] x y m inside e = not_mem_nil m
  Edge-neighbours_of (p ∷ ps) x y m inside e = elim (Bool-cases (same x p)) [
    | inl here ↦ rw here (
        mem-keep_of y (BTreeMap.get_or p [] adjacency) inside
          (subst (λ t. Memᴰ y (BTreeMap.get_or t [] adjacency)) ((same_iff x p).0 here) e))
    | inr other ↦ rw other (
        ⊎_elim (λ is. absurd (apart (sym ((same_iff x p).1 is) ∙ other)))
          (λ m'. Edge-neighbours_of ps x y m' inside e) ((mem_cons x p ps).0 m))
  ]
    where
      apart : true ≡ false → ⊥
      apart e = cc

  -- The search ends within its fuel and without a panic. What it returns is a cycle along the given edges, or,
  -- when it finds none, the first remaining node, if there is one.
  pub find_cycle_ends :
      (E : Type 0)
      → BTreeSet.IsSorted remaining
      → (cycle : List K) × (find_cycle {E = E} remaining adjacency ≡ ok cycle)
        × (IsCycle adjacency cycle ⊎ (cycle ≡ take 1 remaining))
  unfolding find_cycle or_first BTreeMap.contains_key
  find_cycle_ends E h =
      let neighbours = neighbours_of remaining adjacency remaining in
      let keys = keys-neighbours_of remaining in
      let sorted = subst BTreeSet.IsSorted (sym keys) h in
      let known : (x : K)
          → BTreeSet.contains x remaining ≡ true
          → BTreeMap.contains_key x neighbours ≡ true =
        λ x e. ap (BTreeSet.contains x) keys ∙ e in
      let starts =
        All-of_mem (λ x. BTreeMap.contains_key x neighbours ≡ true) remaining
          λ x m. known x ((BTreeSet.contains_iff x remaining).1 m) in
      elim (search_ends neighbours sorted (λ x y e. known y (neighbours_of-Edge remaining x y e).0)
        E remaining [] starts) [
          | inl (cycle, is, (x, inner, shape, chain)) ↦ (
            cycle,
            ap (λ r. r >>= λ c. ok (or_first remaining c)) is,
            inl (x, inner, shape, neighbours_of-Chain remaining cycle chain),
          )
          | inr is ↦ (
            or_first remaining none,
            ap (λ r. r >>= λ c. ok (or_first remaining c)) is,
            inr (first_only remaining),
          )
        ]
    where
      first_only : (xs : List K) → or_first xs none ≡ take 1 xs
      first_only [] = refl
      first_only (x ∷ xs) = refl

  -- If every remaining node has an edge from a remaining node, and there is one, then the search returns a cycle.
  pub find_cycle_finds :
      (E : Type 0)
      → BTreeSet.IsSorted remaining
      → ((y : K) → Memᴰ y remaining → (p : K) × Memᴰ p remaining × Edge adjacency p y)
      → (x : K) → Memᴰ x remaining
      → (cycle : List K) × (find_cycle {E = E} remaining adjacency ≡ ok cycle)
        × IsCycle adjacency cycle
  unfolding find_cycle or_first BTreeMap.contains_key
  find_cycle_finds E h source x m =
      let neighbours = neighbours_of remaining adjacency remaining in
      let keys = keys-neighbours_of remaining in
      let sorted = subst BTreeSet.IsSorted (sym keys) h in
      let known : (x : K)
          → BTreeSet.contains x remaining ≡ true
          → BTreeMap.contains_key x neighbours ≡ true =
        λ x e. ap (BTreeSet.contains x) keys ∙ e in
      let closed : (x y : K) → Edge neighbours x y → BTreeMap.contains_key y neighbours ≡ true =
        λ x y e. known y (neighbours_of-Edge remaining x y e).0 in
      let starts =
        All-of_mem (λ x. BTreeMap.contains_key x neighbours ≡ true) remaining
          λ x m. known x ((BTreeSet.contains_iff x remaining).1 m) in
      elim (search_ends neighbours sorted closed E remaining [] starts) [
        | inl (cycle, is, (x, inner, shape, chain)) ↦ (
          cycle,
          ap (λ r. r >>= λ c. ok (or_first remaining c)) is,
          (x, inner, shape, neighbours_of-Chain remaining cycle chain),
        )
        | inr is ↦ absurd (
            search_finds neighbours sorted closed E remaining starts
              (λ x e.
                (BTreeSet.contains_iff x remaining).0 (ap (BTreeSet.contains x) (sym keys) ∙ e))
              (λ y my.
                let (p, mp, e) = source y my in
                (
                  p,
                  mp,
                  Edge-neighbours_of remaining p y mp ((BTreeSet.contains_iff y remaining).1 my) e,
                ))
              x m is)
      ]
