-- ===== src/Graph/Topology/Round.antt =====
-- One round of the `while` loop of `topological_order` keeps the invariant.
use kernox.Prelude.{
  ◌+◌, ◌≡◌, ap, inl, inr, ◌∙◌, true, false, not, ◌&&◌, List, [], ◌∷◌, ◌++◌, none, some, ◌==◌,
  if◌then◌else◌, length, length-append, arith, Bool-cases, Memᴰ,
}
use kernox.Order.{Ord, same, same_iff, same_refl}
use kernox.Collections.BTreeSet
use kernox.Collections.BTreeMap
use kernox.Graph.Topology.{Tables, Progress, consumers, visit}
use kernox.Graph.Topology.Building.{waiting, count_if, Linked, IsTable}
use kernox.Graph.Topology.Releasing.{
  decrement_lem, release_all_rest, release_all_sorted, release_all_degree, release_all_ready,
  contains-tail, contains-concat, waiting-place, placed_of_waiting, unplaced, unplaced-place,
}
use kernox.Graph.Topology.Ordered.{Before, NoRepeat, NoRepeat-concat, Before-concat}

module _ {K : Type 0} ⦃o : Ord K⦄ (nodes : List K) (nodes_sorted : BTreeSet.IsSorted nodes)
    (t : Tables K) (table : IsTable nodes t) where
  pub record Inv (s : Progress K) : Type 0 where
    pub names : BTreeMap.keys s.indegree ≡ nodes
    pub degrees :
        (v : K)
        → BTreeMap.get v s.indegree
          ≡ (if BTreeSet.contains v nodes then some (waiting t.adjacency s.order v) else none)
    pub sorted : BTreeSet.IsSorted s.ready
    pub ready :
        (v : K)
        → BTreeSet.contains v s.ready ≡ (
            BTreeSet.contains v nodes
            && (not (BTreeSet.contains v s.order) && waiting t.adjacency s.order v == 0))
    pub placed :
        (v : K)
        → BTreeSet.contains v s.order ≡ true
        → (BTreeSet.contains v nodes ≡ true) × (waiting t.adjacency s.order v ≡ 0)
    pub before :
        (p c : K) → Linked t.adjacency p c → BTreeSet.contains c s.order ≡ true → Before p c s.order
    pub once : NoRepeat s.order
    pub count : length s.order + unplaced nodes s.order ≡ length nodes

  -- One round keeps the invariant.
  module _ (s : Progress K) (next : K) (rest : List K) (popped : s.ready ≡ next ∷ rest)
      (h : Inv s) where
    pub next_ready :
        (BTreeSet.contains next nodes ≡ true)
        × (BTreeSet.contains next s.order ≡ false)
        × (waiting t.adjacency s.order next ≡ 0)
    next_ready = ground (arith, h.ready next, ap (BTreeSet.contains next) popped, same_refl next)

    abbrev cs : List K
    cs = consumers t.adjacency next

    abbrev mid : Progress K
    mid = record s { ready = rest; order = s.order ++ next ∷ [] }

    rest_sorted : BTreeSet.IsSorted (next ∷ rest)
    rest_sorted = rw popped at h.sorted

    pub order_visit : (visit t.adjacency next rest s).order ≡ s.order ++ next ∷ []
    unfolding visit
    order_visit = (release_all_rest mid cs).0

    place :
        (v : K)
        → waiting t.adjacency (s.order ++ next ∷ []) v + count_if (BTreeSet.contains v cs)
          ≡ waiting t.adjacency s.order v
    place v = waiting-place t.adjacency s.order next v table.sorted next_ready.1

    visit_degrees :
        (v : K)
        → BTreeMap.get v (visit t.adjacency next rest s).indegree ≡ (
            if BTreeSet.contains v nodes
            then some (waiting t.adjacency (s.order ++ next ∷ []) v)
            else none)
    unfolding visit
    visit_degrees v = ground (
      arith,
      release_all_degree mid cs v (table.sets next),
      h.degrees v,
      place v,
      decrement_lem (waiting t.adjacency s.order v),
    )

    contains_rest :
        (v : K) → BTreeSet.contains v rest ≡ (BTreeSet.contains v s.ready && not (same v next))
    contains_rest v = rw popped (contains-tail v next rest rest_sorted)

    visit_ready :
        (v : K)
        → BTreeSet.contains v (visit t.adjacency next rest s).ready ≡ (
            BTreeSet.contains v nodes
            && (not (BTreeSet.contains v (s.order ++ next ∷ []))
                && waiting t.adjacency (s.order ++ next ∷ []) v == 0))
    unfolding visit
    visit_ready v = ground (
      arith,
      release_all_ready mid cs v (table.sets next),
      h.degrees v,
      h.ready v,
      h.placed v,
      place v,
      decrement_lem (waiting t.adjacency s.order v),
      contains_rest v,
      contains-concat v next s.order,
      same_iff v next,
      next_ready,
    )

    visit_placed :
        (v : K)
        → BTreeSet.contains v (s.order ++ next ∷ []) ≡ true
        → (BTreeSet.contains v nodes ≡ true) × (waiting t.adjacency (s.order ++ next ∷ []) v ≡ 0)
    visit_placed v m =
        ground
          (arith, h.placed v, place v, contains-concat v next s.order, same_iff v next, next_ready)

    visit-Before :
        (p c : K)
        → Linked t.adjacency p c
        → BTreeSet.contains c (s.order ++ next ∷ []) ≡ true
        → Before p c (s.order ++ next ∷ [])
    visit-Before p c l m = elim (Bool-cases (BTreeSet.contains c s.order)) [
      | inl old ↦ Before-concat p c next s.order (h.before p c l old)
      | inr new ↦
          let at_next : c ≡ next =
            ground (arith, contains-concat c next s.order, same_iff c next) in
          let provided : BTreeSet.contains p s.order ≡ true =
            placed_of_waiting t.adjacency s.order p c (rw at_next next_ready.2) l in
          (s.order, [], rw at_next, (BTreeSet.contains_iff p s.order).0 provided)
    ]

    new : Memᴰ next s.order → ⊥
    new m = cc ((BTreeSet.contains_iff next s.order).1 m, next_ready.1)

    pub visit-Inv : Inv (visit t.adjacency next rest s)
    unfolding visit
    visit-Inv = record {
      names = (release_all_rest mid cs).1 ∙ h.names;
      degrees = λ v. rw order_visit (visit_degrees v);
      sorted = release_all_sorted mid cs rest_sorted.1;
      ready = λ v. rw order_visit (visit_ready v);
      placed = λ v. rw order_visit (visit_placed v);
      before = λ p c. rw order_visit (visit-Before p c);
      once = rw order_visit (NoRepeat-concat s.order next h.once new);
      count = rw order_visit (
          ground (
            arith,
            h.count,
            length-append s.order (next ∷ []),
            unplaced-place nodes s.order next nodes_sorted next_ready.1,
            next_ready,
          ));
    }
