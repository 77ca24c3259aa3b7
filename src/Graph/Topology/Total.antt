-- ===== src/Graph/Topology/Total.antt =====
-- Every way in which `topological_order` (crates/kernox-core/src/graph.rs) ends.
use kernox.Prelude.{
  ap, ℕ, Bool, true, false, not, ◌&&◌, Option, none, some, List-cases, mem_head, ◌≡◌, ◌≤◌, refl,
  sym, subst, ◌∙◌, ◌⊎◌, inl, inr, ⊎_elim, List, [], ◌∷◌, ◌++◌, Memᴰ, take, ◌==◌, ==_iff, length,
  arith, Bool-cases, ok, err,
}
use kernox.Order.{Ord, same, same_iff}
use kernox.Collections.BTreeSet
use kernox.Collections.BTreeMap
use kernox.Graph.Cycle.Trail.{Chain}
use kernox.Graph.Cycle.Found.{find_cycle_ends, find_cycle_finds}
use kernox.Graph.Topology.{Progress, remaining_of, topological_order}
use kernox.Graph.Topology.Sound.{
  nodes, nodes_sorted, tables, Linked-iff, mem_nodes, IsEnd, loop-IsEnd, blocked, unplaced_none,
  topological_order-eq,
}

-- Each element and the next one are an edge of the list.
abbrev Along : {K : Type 0} → List (K × K) → List K → Type 0
Along edges [] = Unit
Along edges (x ∷ []) = Unit
Along edges (x ∷ y ∷ xs) = Memᴰ (x, y) edges × Along edges (y ∷ xs)

-- A walk along the edges that ends where it begins.
abbrev pub IsCycleOf : {K : Type 0} → List (K × K) → List K → Type 0
IsCycleOf {K} edges cycle =
    (x : K) × (inner : List K) × (cycle ≡ (x ∷ inner) ++ x ∷ []) × Along edges cycle

short : {K : Type 0} (xs : List K) → length (take 1 xs) ≤ 1
short [] = omega arith
short (x ∷ xs) = omega arith

abbrev positive : Option ℕ → Bool
positive none = false
positive (some d) = not (d == 0)

module _ {K : Type 0} ⦃o : Ord K⦄ where
  contains-remaining_of :
      (m : List (K × ℕ)) (v : K)
      → BTreeMap.IsSorted m
      → BTreeSet.contains v (remaining_of m) ≡ positive (BTreeMap.get v m)
  unfolding remaining_of BTreeMap.get
  contains-remaining_of [] v h = refl
  contains-remaining_of ((n, d) ∷ m) v h =
      let later = contains-remaining_of m v h.1 in
      elim (Bool-cases (same v n)) [
        | inl here ↦
            let missing : BTreeMap.get v m ≡ none =
              ap (λ t. BTreeMap.get t m) ((same_iff v n).0 here) ∙ BTreeMap.get_before n m h.0 in
            let gone : BTreeSet.contains v (remaining_of m) ≡ false = later ∙ ap positive missing in
            rw here (ground (arith, gone))
        | inr other ↦ rw other (ground (arith, later, other))
      ]

module _ {K : Type 0} ⦃o : Ord K⦄ (ids : List K) (edges : List (K × K)) where
  Along-Chain : (xs : List K) → Chain (tables ids edges).adjacency xs → Along edges xs
  Along-Chain [] h = tt
  Along-Chain (x ∷ []) h = tt
  Along-Chain (x ∷ y ∷ xs) h =
      let linked =
        (BTreeSet.contains_iff y (BTreeMap.get_or x [] (tables ids edges).adjacency)).1 h.0 in
      ((Linked-iff ids edges x y).0 linked, Along-Chain (y ∷ xs) h.1)

  -- The order is computed without a panic and within the fuel of its loops, whatever the edges.
  pub topological_order_cases :
      {E : Type 0} (dependency_cycle : List K → E)
      → ((order : List K) × (topological_order dependency_cycle ids edges ≡ ok order)
          × (length order ≡ length (BTreeSet.collect ids)))
        ⊎ ((cycle : List K) × (topological_order dependency_cycle ids edges
              ≡ err (dependency_cycle cycle))
            × (IsCycleOf edges cycle ⊎ (length cycle ≤ 1)))
  topological_order_cases {E} dependency_cycle =
      let (u, ran, at_end) = loop-IsEnd ids edges {E = E} in
      let is = topological_order-eq ids edges dependency_cycle u ran in
      let remaining = BTreeSet.collect (remaining_of u.indegree) in
      let (cycle, found, good) =
        find_cycle_ends remaining (tables ids edges).adjacency E
          (BTreeSet.collect-IsSorted (remaining_of u.indegree)) in
      elim (Bool-cases (length u.order == length (nodes ids edges))) [
        | inl full ↦ inl (u.order, is ∙ rw full refl, (==_iff _ _).0 full)
        | inr less ↦ inr (
          cycle,
          is ∙ rw (less, found) refl,
          ⊎_elim (λ (x, inner, shape, chain). inl (x, inner, shape, Along-Chain cycle chain))
              (λ one. inr (subst (λ c. length c ≤ 1) (sym one) (short remaining))) good,
        )
      ]

  -- What the loop leaves as remaining are the nodes that it did not place.
  contains-remaining :
      (u : Progress K) (at_end : IsEnd ids edges u) (v : K)
      → BTreeSet.contains v (BTreeSet.collect (remaining_of u.indegree))
        ≡ (BTreeSet.contains v (nodes ids edges) && not (BTreeSet.contains v u.order))
  contains-remaining u at_end v =
      let sorted : BTreeMap.IsSorted u.indegree =
        subst BTreeSet.IsSorted (sym at_end.inv.names) (nodes_sorted ids edges) in
      ground (
        arith,
        BTreeSet.contains-collect v (remaining_of u.indegree),
        contains-remaining_of u.indegree v sorted,
        at_end.inv.degrees v,
        at_end.inv.ready v,
        ap (BTreeSet.contains v) at_end.idle,
        at_end.inv.placed v,
      )

  some_left :
      (u : Progress K)
      → IsEnd ids edges u
      → (length u.order == length (nodes ids edges)) ≡ false
      → (x : K) × Memᴰ x (BTreeSet.collect (remaining_of u.indegree))
  some_left u at_end less =
      let remaining = BTreeSet.collect (remaining_of u.indegree) in
      elim (List-cases remaining) [
        | inr (x, xs, is) ↦ (x, subst (Memᴰ x) (sym is) (mem_head x xs))
        | inl empty ↦
            let none_left = unplaced_none (nodes ids edges) u.order λ v m. ground (
              arith,
              contains-remaining u at_end v,
              ap (BTreeSet.contains v) empty,
              (BTreeSet.contains_iff v (nodes ids edges)).1 m,
            ) in
            absurd (
              ground (
                arith,
                less,
                at_end.inv.count,
                none_left,
                ==_iff (length u.order) (length (nodes ids edges)),
              ))
      ]

  -- If every provider is one of the nodes, then the order is computed without a panic and within the fuel of its
  -- loops, and it ends with an order of all nodes, or with the cycle error and a closed walk along the given
  -- edges, of at least one edge: where there is no order, a cycle is always found.
  pub topological_order_ends :
      {E : Type 0} (dependency_cycle : List K → E)
      → ((p c : K) → Memᴰ (p, c) edges → Memᴰ p ids)
      → ((order : List K) × (topological_order dependency_cycle ids edges ≡ ok order)
          × (length order ≡ length (BTreeSet.collect ids)))
        ⊎ ((cycle : List K) × (topological_order dependency_cycle ids edges
              ≡ err (dependency_cycle cycle))
            × IsCycleOf edges cycle)
  topological_order_ends {E} dependency_cycle known =
      let (u, ran, at_end) = loop-IsEnd ids edges {E = E} in
      let is = topological_order-eq ids edges dependency_cycle u ran in
      let remaining = BTreeSet.collect (remaining_of u.indegree) in
      let left = contains-remaining u at_end in
      elim (Bool-cases (length u.order == length (nodes ids edges))) [
        | inl full ↦ inl (u.order, is ∙ rw full refl, (==_iff _ _).0 full)
        | inr less ↦
            let (x, mx) = some_left u at_end less in
            let (cycle, found, (y, inner, shape, chain)) =
              find_cycle_finds remaining (tables ids edges).adjacency E
                (BTreeSet.collect-IsSorted (remaining_of u.indegree))
                (λ v m.
                  let inside : BTreeSet.contains v remaining ≡ true =
                    (BTreeSet.contains_iff v remaining).1 m in
                  let node : BTreeSet.contains v (nodes ids edges) ≡ true =
                    ground (arith, left v, inside) in
                  let out : BTreeSet.contains v u.order ≡ false = ground (arith, left v, inside) in
                  let there =
                    (mem_nodes ids edges v).0
                      ((BTreeSet.contains_iff v (nodes ids edges)).0 node) in
                  let (p, e, waits) = blocked ids edges u at_end v there out in
                  let provider : BTreeSet.contains p (nodes ids edges) ≡ true =
                    (BTreeSet.contains_iff p (nodes ids edges)).1
                      ((mem_nodes ids edges p).1 (known p v e)) in
                  let kept : BTreeSet.contains p remaining ≡ true =
                    ground (arith, left p, provider, waits) in
                  (
                    p,
                    (BTreeSet.contains_iff p remaining).0 kept,
                    (BTreeSet.contains_iff v (BTreeMap.get_or p [] (tables ids edges).adjacency)).0
                        ((Linked-iff ids edges p v).1 e),
                  ))
                x mx in
            inr (cycle, is ∙ rw (less, found) refl, (y, inner, shape, Along-Chain cycle chain))
      ]
