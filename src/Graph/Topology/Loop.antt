-- ===== src/Graph/Topology/Loop.antt =====
-- The `while` loop: as many rounds as there are nodes are enough, and it ends in its invariant.
use kernox.Prelude.{
  ℕ, zero, suc, ◌≤◌, ◌≡◌, refl, ap, inl, inr, ◌∙◌, Bool, true, ◌&&◌, List, [], ◌∷◌, ◌==◌, length,
  arith, List-cases, ok,
}
use kernox.Order.{Ord}
use kernox.Collections.BTreeSet
use kernox.Collections.BTreeMap
use kernox.Graph.Topology.{Tables, Progress, visit, run, start, with_degree_zero}
use kernox.Graph.Topology.Building.{waiting, count_if, IsTable, contains-with_degree_zero}
use kernox.Graph.Topology.Releasing.{unplaced, unplaced-place}
use kernox.Graph.Topology.Round.{Inv, next_ready, order_visit, visit-Inv}

module _ {K : Type 0} ⦃o : Ord K⦄ (nodes : List K) (nodes_sorted : BTreeSet.IsSorted nodes)
    (t : Tables K) (table : IsTable nodes t) where
  unplaced_nil : (ns : List K) → unplaced ns [] ≡ length ns
  unplaced_nil [] = refl
  unplaced_nil (n ∷ ns) = ground (arith, unplaced_nil ns)

  indegree_sorted : BTreeMap.IsSorted t.indegree
  indegree_sorted = rw table.names nodes_sorted

  start_ready :
      (v : K)
      → BTreeSet.contains v (start t).ready
        ≡ (BTreeSet.contains v nodes && (true && waiting t.adjacency [] v == 0))
  unfolding start
  start_ready v = ground (
    arith,
    BTreeSet.contains-collect v (with_degree_zero t.indegree),
    contains-with_degree_zero t.indegree v indegree_sorted,
    table.degrees v,
  )

  start-Inv : Inv nodes nodes_sorted t table (start t)
  unfolding start
  start-Inv = record {
    names = table.names;
    degrees = table.degrees;
    sorted = BTreeSet.collect-IsSorted (with_degree_zero t.indegree);
    ready = start_ready;
    placed = λ v m. cc;
    before = λ p c l m. cc;
    once = tt;
    count = omega (arith, unplaced_nil nodes);
  }

  run_step :
      {E : Type 0} (fuel : ℕ) (s : Progress K) (next : K) (rest : List K)
      → s.ready ≡ next ∷ rest
      → run {E = E} (suc fuel) t.adjacency s ≡ run fuel t.adjacency (visit t.adjacency next rest s)
  unfolding run visit
  run_step fuel s next rest e = rw (e, run)

  -- The loop ends with nothing ready, within the fuel.
  run_total :
      {E : Type 0} (fuel : ℕ) (s : Progress K)
      → Inv nodes nodes_sorted t table s
      → unplaced nodes s.order ≤ fuel
      → (u : Progress K) × (run {E = E} fuel t.adjacency s ≡ ok u)
        × Inv nodes nodes_sorted t table u
        × (u.ready ≡ [])
  unfolding run
  run_total {E} zero s h fits = elim (List-cases s.ready) [
    | inl empty ↦ (s, simp (empty, run), h, empty)
    | inr (next, rest, e) ↦
        let (here, new, _) = next_ready nodes nodes_sorted t table s next rest e h in
        absurd (
          omega (
            arith,
            ap (λ (b : Bool). count_if b) here,
            unplaced-place nodes s.order next nodes_sorted new,
          ))
  ]
  run_total {E} (suc fuel) s h fits = elim (List-cases s.ready) [
    | inl empty ↦ (s, simp (empty, run), h, empty)
    | inr (next, rest, e) ↦
        let (here, new, _) = next_ready nodes nodes_sorted t table s next rest e h in
        let (u, ran, kept, empty) =
          run_total {E = E} fuel (visit t.adjacency next rest s)
            (visit-Inv nodes nodes_sorted t table s next rest e h)
            (rw (order_visit nodes nodes_sorted t table s next rest e h) (
              omega (
                arith,
                ap (λ (b : Bool). count_if b) here,
                unplaced-place nodes s.order next nodes_sorted new,
              ))) in
        (u, run_step fuel s next rest e ∙ ran, kept, empty)
  ]

  pub run-start :
      {E : Type 0}
      → (u : Progress K) × (run {E = E} (length nodes) t.adjacency (start t) ≡ ok u)
        × Inv nodes nodes_sorted t table u
        × (u.ready ≡ [])
  unfolding start
  run-start = run_total (length nodes) (start t) start-Inv (omega (arith, unplaced_nil nodes))
