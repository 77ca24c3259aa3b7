-- ===== src/Samples/Topology.antt =====
-- Start-up orders of numbered nodes, and the theorems about them.
use kernox.Prelude.{
  ℕ, ◌<◌, ◌-◌, ◌≡◌, refl, ◌↔◌, List, [], ◌∷◌, Memᴰ, ok, err, arith, mem_head, mem_tail, mem_cons,
  not_mem_nil, ⊎_elim, ap, ◌⊎◌, length,
}
use kernox.Order.Derive.{nat_ord}
use kernox.Graph.Topology.{topological_order}
use kernox.Graph.Topology.Ordered.{Before, NoRepeat}
use kernox.Graph.Topology.Sound.{topological_order_sound, topological_order_complete}
use kernox.Graph.Topology.Total.{IsCycleOf, topological_order_ends}
use kernox.Collections.BTreeSet
use kernox.Samples.{program}

abbrev nodes : List ℕ
nodes = 3 ∷ 1 ∷ 2 ∷ []

abbrev edges : List (ℕ × ℕ)
edges = (3, 1) ∷ (3, 2) ∷ (2, 1) ∷ []

abbrev cycle_of : List ℕ → List ℕ
cycle_of cycle = cycle

order-nodes : topological_order cycle_of nodes edges ≡ ok (3 ∷ 2 ∷ 1 ∷ [])
unfolding program
order-nodes = refl

-- Two nodes that need each other.
order_cyclic : topological_order cycle_of nodes ((1, 2) ∷ (2, 1) ∷ []) ≡ err (1 ∷ 2 ∷ 1 ∷ [])
unfolding program
order_cyclic = refl

topological_order_sound_example :
    ((v : ℕ) → Memᴰ v (3 ∷ 2 ∷ 1 ∷ []) ↔ Memᴰ v nodes)
    × NoRepeat {K = ℕ} (3 ∷ 2 ∷ 1 ∷ [])
    × ((p c : ℕ) → Memᴰ {A = ℕ × ℕ} (p, c) edges → Memᴰ c nodes → Before p c (3 ∷ 2 ∷ 1 ∷ []))
topological_order_sound_example =
    topological_order_sound nodes edges cycle_of (3 ∷ 2 ∷ 1 ∷ []) order-nodes

abbrev rank : ℕ → ℕ
rank n = 10 - n

ranked : (p c : ℕ) → Memᴰ {A = ℕ × ℕ} (p, c) edges → (rank p < rank c) × Memᴰ p nodes
ranked p c m =
    ⊎_elim (λ e. at_edge 3 1 p c e (omega arith) (mem_head 3 _))
      (λ m'.
        ⊎_elim (λ e. at_edge 3 2 p c e (omega arith) (mem_head 3 _))
          (λ m''.
            ⊎_elim (λ e. at_edge 2 1 p c e (omega arith) (mem_tail 3 (mem_tail 1 (mem_head 2 _))))
              not_mem_nil ((mem_cons (p, c) (2, 1) []).0 m''))
          ((mem_cons (p, c) (3, 2) _).0 m'))
      ((mem_cons (p, c) (3, 1) _).0 m)
  where
    at_edge :
        (a b p c : ℕ)
        → ◌≡◌ {A = ℕ × ℕ} (p, c) (a, b)
        → rank a < rank b
        → Memᴰ a nodes
        → (rank p < rank c) × Memᴰ p nodes
    at_edge a b p c e lower m =
        (rw (ap (λ t. t.0) e, ap (λ t. t.1) e) lower, rw (ap (λ t. t.0) e) m)

topological_order_complete_example :
    (order : List ℕ) × (topological_order cycle_of nodes edges ≡ ok order)
topological_order_complete_example = topological_order_complete nodes edges cycle_of rank ranked

cyclic_known : (p c : ℕ) → Memᴰ {A = ℕ × ℕ} (p, c) ((1, 2) ∷ (2, 1) ∷ []) → Memᴰ p nodes
cyclic_known p c m =
    ⊎_elim (λ e. at_edge 1 2 p c e (mem_tail 3 (mem_head 1 _)))
      (λ m'.
        ⊎_elim (λ e. at_edge 2 1 p c e (mem_tail 3 (mem_tail 1 (mem_head 2 _)))) not_mem_nil
          ((mem_cons (p, c) (2, 1) []).0 m'))
      ((mem_cons (p, c) (1, 2) _).0 m)
  where
    at_edge : (a b p c : ℕ) → ◌≡◌ {A = ℕ × ℕ} (p, c) (a, b) → Memᴰ a nodes → Memᴰ p nodes
    at_edge a b p c e m = rw (ap (λ t. t.0) e) m

topological_order_ends_example :
    ((order : List ℕ) × (topological_order cycle_of nodes ((1, 2) ∷ (2, 1) ∷ []) ≡ ok order)
      × (length order ≡ length (BTreeSet.collect nodes)))
    ⊎ ((cycle : List ℕ) × (topological_order cycle_of nodes ((1, 2) ∷ (2, 1) ∷ []) ≡ err cycle)
        × IsCycleOf ((1, 2) ∷ (2, 1) ∷ []) cycle)
topological_order_ends_example =
    topological_order_ends nodes ((1, 2) ∷ (2, 1) ∷ []) cycle_of cyclic_known
