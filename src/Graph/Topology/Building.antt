-- ===== src/Graph/Topology/Building.antt =====
-- What the loop over the edges leaves: the adjacency holds the edges, and the degree of a node is
-- the number of its providers.
use kernox.Prelude.{
  ℕ, suc, ◌+◌, ◌≡◌, refl, ap, ◌↔◌, ◌⊎◌, inl, inr, ⊎_elim, Bool, true, false, not, ◌&&◌, List, [],
  ◌∷◌, none, some, if◌then◌else◌, Memᴰ, arith, mem_cons, not_mem_nil,
}
use kernox.Order.{Ord, same, same_iff, Ordering-cases}
use kernox.Collections.BTreeSet
use kernox.Collections.BTreeMap
use kernox.Graph.Topology.{Tables, consumers, add_edge, add_edges, blank, with_degree_zero}

abbrev pub count_if : Bool → ℕ
count_if true = 1
count_if false = 0

module _ {K : Type 0} ⦃o : Ord K⦄ where
  -- The providers of `v` that are not among `placed`.
  abbrev pub waiting : List (K × List K) → List K → K → ℕ
  waiting [] placed v = 0
  waiting ((p, cs) ∷ adjacency) placed v =
      count_if (BTreeSet.contains v cs && not (BTreeSet.contains p placed))
      + waiting adjacency placed v

  -- An entry's new consumers count in the place of the old ones.
  waiting-insert :
      (p : K) (cs : List K) (adjacency : List (K × List K)) (v : K)
      → BTreeMap.IsSorted adjacency
      → waiting (BTreeMap.insert p cs adjacency) [] v
          + count_if (BTreeSet.contains v (consumers adjacency p))
        ≡ waiting adjacency [] v + count_if (BTreeSet.contains v cs)
  unfolding BTreeMap.insert BTreeMap.get
  waiting-insert p cs [] v h = ground arith
  waiting-insert p cs ((q, ds) ∷ adjacency) v h = elim (Ordering-cases (o.cmp p q)) [
    | inl lt ↦ ground (
      arith,
      lt,
      BTreeMap.get_before p adjacency (BTreeSet.All-Lt_trans p q (BTreeMap.keys adjacency) lt h.0),
    )
    | inr (inl eq) ↦ ground (arith, eq)
    | inr (inr gt) ↦ ground (arith, gt, waiting-insert p cs adjacency v h.1)
  ]

  -- What holds of the tables between two edges.
  pub record IsTable (nodes : List K) (t : Tables K) : Type 0 where
    pub sorted : BTreeMap.IsSorted t.adjacency
    pub sets : (p : K) → BTreeSet.IsSorted (consumers t.adjacency p)
    pub names : BTreeMap.keys t.indegree ≡ nodes
    pub degrees :
        (v : K)
        → BTreeMap.get v t.indegree
          ≡ (if BTreeSet.contains v nodes then some (waiting t.adjacency [] v) else none)

  consumers-add_edge :
      (t : Tables K) (p c q : K)
      → consumers (add_edge t (p, c)).adjacency q ≡ (
          if same q p then BTreeSet.insert c (consumers t.adjacency p) else consumers t.adjacency q)
  unfolding add_edge
  consumers-add_edge t p c q =
      ground
        (arith, BTreeMap.get-insert q p (BTreeSet.insert c (consumers t.adjacency p)) t.adjacency)

  add_edge_sets :
      (t : Tables K) (p c q : K)
      → ((r : K) → BTreeSet.IsSorted (consumers t.adjacency r))
      → BTreeSet.IsSorted (consumers (add_edge t (p, c)).adjacency q)
  add_edge_sets t p c q h =
      rw (consumers-add_edge t p c q)
        (elim (same q p)
          as (λ b.
            BTreeSet.IsSorted (
              if b then BTreeSet.insert c (consumers t.adjacency p) else consumers t.adjacency q)) [
                | true ↦ BTreeSet.insert-IsSorted c (consumers t.adjacency p) (h p)
                | false ↦ h q
              ])

  add_edge-IsTable :
      (nodes : List K) (t : Tables K) (e : K × K) → IsTable nodes t → IsTable nodes (add_edge t e)
  unfolding add_edge
  add_edge-IsTable nodes t (p, c) h = record {
    sorted = BTreeMap.insert-IsSorted p _ t.adjacency h.sorted;
    sets = λ q. add_edge_sets t p c q h.sets;
    names = ground (arith, h.names, BTreeMap.keys-modify c suc t.indegree);
    degrees = λ v.
        let old = consumers t.adjacency p in
        ground (
          arith,
          h.degrees v,
          waiting-insert p (BTreeSet.insert c old) t.adjacency v h.sorted,
          BTreeSet.contains-insert v c old,
          same_iff v c,
          BTreeMap.get-modify v c suc t.indegree,
        );
  }

  pub add_edges-IsTable :
      (nodes : List K) (t : Tables K) (edges : List (K × K))
      → IsTable nodes t
      → IsTable nodes (add_edges t edges)
  unfolding add_edges
  add_edges-IsTable nodes t [] h = h
  add_edges-IsTable nodes t (e ∷ edges) h =
      add_edges-IsTable nodes (add_edge t e) edges (add_edge-IsTable nodes t e h)

  -- The provider `p` has the consumer `c`.
  abbrev pub Linked : List (K × List K) → K → K → Type 0
  Linked adjacency p c = BTreeSet.contains c (consumers adjacency p) ≡ true

  Linked-add_edge :
      (t : Tables K) (q d p c : K)
      → Linked (add_edge t (q, d)).adjacency p c ↔ (Linked t.adjacency p c ⊎ (p ≡ q) × (c ≡ d))
  Linked-add_edge t q d p c = ground (
    arith,
    consumers-add_edge t q d p,
    BTreeSet.contains-insert c d (consumers t.adjacency q),
    same_iff p q,
    same_iff c d,
  )

  pub Linked-add_edges :
      (t : Tables K) (edges : List (K × K)) (p c : K)
      → Linked (add_edges t edges).adjacency p c ↔ (Linked t.adjacency p c ⊎ Memᴰ (p, c) edges)
  unfolding add_edges
  Linked-add_edges t [] p c = (inl, ⊎_elim (λ h. h) not_mem_nil)
  Linked-add_edges t ((q, d) ∷ edges) p c = ground (
    arith,
    Linked-add_edges (add_edge t (q, d)) edges p c,
    Linked-add_edge t q d p c,
    mem_cons (p, c) (q, d) edges,
  )

  keys-blank : (nodes : List K) → BTreeMap.keys (blank nodes).indegree ≡ nodes
  unfolding blank
  keys-blank [] = refl
  keys-blank (n ∷ nodes) = ap (λ t. n ∷ t) (keys-blank nodes)

  degree-blank :
      (nodes : List K) (v : K)
      → BTreeMap.get v (blank nodes).indegree ≡ (if BTreeSet.contains v nodes then some 0 else none)
  unfolding blank BTreeMap.get
  degree-blank [] v = refl
  degree-blank (n ∷ nodes) v = ground (arith, degree-blank nodes v)

  pub blank-IsTable : (nodes : List K) → IsTable nodes (blank nodes)
  unfolding blank BTreeMap.get
  blank-IsTable nodes = record {
    sorted = tt;
    sets = λ p. tt;
    names = keys-blank nodes;
    degrees = degree-blank nodes;
  }

  -- The ready set starts with the nodes of degree zero.
  pub contains-with_degree_zero :
      (m : List (K × ℕ)) (v : K)
      → BTreeMap.IsSorted m
      → (BTreeSet.contains v (with_degree_zero m) ≡ true) ↔ (BTreeMap.get v m ≡ some 0)
  unfolding with_degree_zero BTreeMap.get
  contains-with_degree_zero [] v h = ground arith
  contains-with_degree_zero ((n, d) ∷ m) v h =
      ground (arith, contains-with_degree_zero m v h.1, same_iff v n, BTreeMap.get_before n m h.0)
