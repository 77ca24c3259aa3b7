-- ===== src/Graph/Topology/Sound.antt =====
-- What a returned start-up order is, and when there is one.
use kernox.Prelude.{
  ℕ, zero, suc, ◌<◌, ◌≡◌, refl, ap, sym, ◌↔◌, inl, inr, ⊎_elim, ◌∙◌, true, false, not, ◌&&◌, List,
  [], ◌∷◌, ◌≢◌, not_mem_nil, mem_cons, mem_head, mem_tail, ◌==◌, ==_iff, if◌then◌else◌, length,
  arith, Bool-cases, Memᴰ, Result, ok, err, fault, ◌>>=◌,
}
use kernox.Order.{Ord, same_iff}
use kernox.Collections.BTreeSet
use kernox.Collections.BTreeMap
use kernox.Graph.Cycle.{find_cycle}
use kernox.Graph.Topology.{
  Tables, Progress, add_edges, blank, run, start, remaining_of, topological_order,
}
use kernox.Graph.Topology.Building.{
  waiting, Linked, IsTable, add_edges-IsTable, blank-IsTable, Linked-add_edges,
}
use kernox.Graph.Topology.Releasing.{unplaced}
use kernox.Graph.Topology.Ordered.{Before, NoRepeat}
use kernox.Graph.Topology.Round.{Inv}
use kernox.Graph.Topology.Loop.{run-start}

module _ {K : Type 0} ⦃o : Ord K⦄ where
  waiting_pos :
      (adjacency : List (K × List K)) (placed : List K) (v : K)
      → BTreeMap.IsSorted adjacency
      → waiting adjacency placed v ≢ 0
      → (p : K) × Linked adjacency p v × (BTreeSet.contains p placed ≡ false)
  unfolding BTreeMap.get
  waiting_pos [] placed v h w = absurd (w refl)
  waiting_pos ((q, ds) ∷ adjacency) placed v h w =
      elim (Bool-cases (BTreeSet.contains v ds && not (BTreeSet.contains q placed))) [
        | inl here ↦ (q, ground (arith, same_iff q q), ground arith)
        | inr there ↦
            let (p, l, n) = waiting_pos adjacency placed v h.1 (λ z. w (ground arith)) in
            (p, ground (arith, same_iff p q, BTreeMap.get_before q adjacency h.0), n)
      ]

  all_placed :
      (nodes placed : List K)
      → unplaced nodes placed ≡ 0
      → (v : K) → Memᴰ v nodes
      → BTreeSet.contains v placed ≡ true
  all_placed [] placed z v m = not_mem_nil m
  all_placed (n ∷ nodes) placed z v m = elim ((mem_cons v n nodes).0 m) [
    | inl e ↦ rw e (ground arith)
    | inr there ↦ all_placed nodes placed (ground arith) v there
  ]

  pub unplaced_none :
      (nodes placed : List K)
      → ((v : K) → Memᴰ v nodes → BTreeSet.contains v placed ≡ true)
      → unplaced nodes placed ≡ 0
  unplaced_none [] placed h = refl
  unplaced_none (n ∷ nodes) placed h =
      ground (arith, h n (mem_head n nodes), unplaced_none nodes placed (λ v m. h v (mem_tail n m)))

  module _ (ids : List K) (edges : List (K × K)) where
    abbrev pub nodes : List K
    nodes = BTreeSet.collect ids

    abbrev pub tables : Tables K
    tables = add_edges (blank nodes) edges

    pub tables-IsTable : IsTable nodes tables
    tables-IsTable = add_edges-IsTable nodes (blank nodes) edges (blank-IsTable nodes)

    pub nodes_sorted : BTreeSet.IsSorted nodes
    nodes_sorted = BTreeSet.collect-IsSorted ids

    pub Linked-iff : (p c : K) → Linked tables.adjacency p c ↔ Memᴰ (p, c) edges
    unfolding blank BTreeMap.get
    Linked-iff p c = (
      λ l. ⊎_elim (λ e. cc) (λ m. m) ((Linked-add_edges (blank nodes) edges p c).0 l),
      λ m. (Linked-add_edges (blank nodes) edges p c).1 (inr m),
    )

    pub mem_nodes : (v : K) → Memᴰ v nodes ↔ Memᴰ v ids
    mem_nodes v = ground (
      arith,
      BTreeSet.contains_iff v nodes,
      BTreeSet.contains_iff v ids,
      BTreeSet.contains-collect v ids,
    )

    -- The state in which the loop ends.
    pub record IsEnd (u : Progress K) : Type 0 where
      pub inv : Inv nodes nodes_sorted tables tables-IsTable u
      pub idle : u.ready ≡ []

    pub loop-IsEnd :
        {E : Type 0}
        → (u : Progress K) × (run {E = E} (length nodes) tables.adjacency (start tables) ≡ ok u)
          × IsEnd u
    loop-IsEnd =
        let (u, ran, inv, idle) = run-start nodes nodes_sorted tables tables-IsTable in
        (u, ran, record { inv = inv; idle = idle })

    module _ (u : Progress K) (at_end : IsEnd u) where
      -- A node that was not placed waits for a provider that was not placed.
      pub blocked :
          (v : K)
          → Memᴰ v ids
          → BTreeSet.contains v u.order ≡ false
          → (p : K) × Memᴰ (p, v) edges × (BTreeSet.contains p u.order ≡ false)
      blocked v m out =
          let (p, l, n) = waiting_pos tables.adjacency u.order v tables-IsTable.sorted λ z. ground (
            arith,
            at_end.inv.ready v,
            ap (BTreeSet.contains v) at_end.idle,
            (BTreeSet.contains_iff v nodes).1 ((mem_nodes v).1 m),
          ) in
          (p, (Linked-iff p v).0 l, n)

      -- With a rank that edges raise, every node is placed.
      all_ranked :
          (rank : K → ℕ)
          → ((p c : K) → Memᴰ (p, c) edges → (rank p < rank c) × Memᴰ p ids)
          → (n : ℕ) (v : K) → rank v < n
          → Memᴰ v ids
          → BTreeSet.contains v u.order ≡ true
      all_ranked rank raised zero v below m = absurd (omega arith)
      all_ranked rank raised (suc n) v below m = elim (Bool-cases (BTreeSet.contains v u.order)) [
        | inl placed ↦ placed
        | inr out ↦
            let (p, e, waits) = blocked v m out in
            let (lower, known) = raised p v e in
            let placed = all_ranked rank raised n p (omega arith) known in cc
      ]

      mem_order : (v : K) → Memᴰ v u.order → Memᴰ v ids
      mem_order v m =
          let (in_nodes, _) = at_end.inv.placed v ((BTreeSet.contains_iff v u.order).1 m) in
          (mem_nodes v).0 ((BTreeSet.contains_iff v nodes).0 in_nodes)

      pub full :
          length u.order ≡ length nodes → (v : K) → Memᴰ v ids → BTreeSet.contains v u.order ≡ true
      full e v m = all_placed nodes u.order (omega (arith, at_end.inv.count)) v ((mem_nodes v).1 m)

    module _ {E : Type 0} (dependency_cycle : List K → E) where
      pub topological_order-eq :
          (u : Progress K)
          → run {E = E} (length nodes) tables.adjacency (start tables) ≡ ok u
          → topological_order dependency_cycle ids edges ≡ (
              if length u.order == length nodes
              then ok u.order
              else find_cycle (BTreeSet.collect (remaining_of u.indegree)) tables.adjacency
                >>= λ cycle. err (dependency_cycle cycle))
      unfolding topological_order
      topological_order-eq u ran = rw (ran, ◌>>=◌)

      -- Only a full loop returns an order.
      pub order_of_ok :
          (order : List K)
          → topological_order dependency_cycle ids edges ≡ ok order
          → (u : Progress K) × IsEnd u × (length u.order ≡ length nodes) × (order ≡ u.order)
      order_of_ok order h =
          let (u, ran, at_end) = loop-IsEnd {E = E} in
          let (fits, same_order) =
            test (find_cycle (BTreeSet.collect (remaining_of u.indegree)) tables.adjacency) u
              (sym (topological_order-eq u ran) ∙ h) in
          (u, at_end, fits, same_order)
        where
          test :
              (r : Result E (List K)) (u : Progress K)
              → (if length u.order == length nodes
                  then ok u.order
                  else r >>= λ cycle. err (dependency_cycle cycle))
                ≡ ok order
              → (length u.order ≡ length nodes) × (order ≡ u.order)
          test r u e = elim (Bool-cases (length u.order == length nodes)) [
            | inl fits ↦ ((==_iff _ _).0 fits, sym (ground arith))
            | inr less ↦ absurd (never r (rw less at e))
          ]
            where
              never :
                  (r : Result E (List K))
                  → (r >>= λ cycle. err (dependency_cycle cycle)) ≡ ok order
                  → ⊥
              never (ok c) e = cc
              never (err c) e = cc
              never fault e = cc

      -- A returned order holds exactly the given nodes, each once, and along every edge to a
      -- given node it has the provider in front of the consumer.
      pub topological_order_sound :
          (order : List K)
          → topological_order dependency_cycle ids edges ≡ ok order
          → ((v : K) → Memᴰ v order ↔ Memᴰ v ids)
            × NoRepeat order
            × ((p c : K) → Memᴰ (p, c) edges → Memᴰ c ids → Before p c order)
      topological_order_sound order h =
          let (u, at_end, fits, e) = order_of_ok order h in
          rw e (
            λ v. (
              mem_order u at_end v,
              λ m. (BTreeSet.contains_iff v u.order).0 (full u at_end fits v m),
            ),
            at_end.inv.once,
            λ p c m known.
                at_end.inv.before p c ((Linked-iff p c).1 m) (full u at_end fits c known),
          )

      -- If some rank of the nodes rises along every edge and every provider is a node, the
      -- loop ends within its fuel and an order is returned: an acyclic graph is never
      -- reported as a cycle.
      pub topological_order_complete :
          (rank : K → ℕ)
          → ((p c : K) → Memᴰ (p, c) edges → (rank p < rank c) × Memᴰ p ids)
          → (order : List K) × (topological_order dependency_cycle ids edges ≡ ok order)
      topological_order_complete rank raised =
          let (u, ran, at_end) = loop-IsEnd {E = E} in
          let none_left = unplaced_none nodes u.order λ v m.
            all_ranked u at_end rank raised (suc (rank v)) v (omega arith) ((mem_nodes v).0 m) in
          let fits : (length u.order == length nodes) ≡ true =
            (==_iff _ _).1 (omega (arith, at_end.inv.count)) in
          (u.order, topological_order-eq u ran ∙ rw fits)
