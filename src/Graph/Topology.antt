-- ===== src/Graph/Topology.antt =====
-- `topological_order` (crates/kernox-core/src/graph.rs): Kahn's algorithm over the plugins, with the
-- least ready plugin first. Of an edge it reads the provider and the consumer; the nodes have any
-- ordered type.
pub mod Building
pub mod Releasing
pub mod Ordered
pub mod Round
pub mod Loop
pub mod Sound
pub mod Total
use kernox.Prelude.{
  ℕ, zero, suc, ◌-◌, ◌^◌, ◌≡◌, Bool, true, false, not, List, [], ◌∷◌, ◌++◌, map, Option, none, some,
  ◌==◌, if◌then◌else◌, length, Result, ok, err, fault, ◌>>=◌, Memᴰ,
}
use kernox.Order.{Ord}
use kernox.Collections.BTreeSet
use kernox.Collections.BTreeMap
use kernox.Graph.Cycle.{find_cycle}

-- `*degree -= 1` on a `usize`: without overflow checks 0 wraps round to the greatest value
abbrev pub decrement : ℕ → ℕ
decrement zero = 2 ^ 64 - 1
decrement (suc d) = d

pub record Tables (K : Type 0) : Type 0 where
  pub adjacency : List (K × List K)
  pub indegree : List (K × ℕ)

pub record Progress (K : Type 0) : Type 0 where
  pub indegree : List (K × ℕ)
  pub ready : List K
  pub order : List K

module _ {K : Type 0} ⦃o : Ord K⦄ where
  -- the consumers of a provider
  abbrev pub consumers : List (K × List K) → K → List K
  consumers adjacency p = BTreeMap.get_or p [] adjacency

  -- one round of the loop over the edges
  unfoldable pub add_edge : Tables K → K × K → Tables K
  add_edge t (provider, consumer) =
      let old = consumers t.adjacency provider in
      record {
        adjacency = BTreeMap.insert provider (BTreeSet.insert consumer old) t.adjacency;
        indegree =
            if BTreeSet.contains consumer old
            then t.indegree
            else BTreeMap.modify consumer suc t.indegree;
      }

  unfoldable pub add_edges : Tables K → List (K × K) → Tables K
  add_edges t [] = t
  add_edges t (e ∷ edges) = add_edges (add_edge t e) edges

  unfoldable pub blank : List K → Tables K
  blank nodes = record { adjacency = []; indegree = map (λ id. (id, 0)) nodes }

  -- the keys whose degree is zero
  unfoldable pub with_degree_zero : List (K × ℕ) → List K
  with_degree_zero [] = []
  with_degree_zero ((id, degree) ∷ m) =
      let others = with_degree_zero m in if degree == 0 then id ∷ others else others

  -- one consumer of the plugin that was started
  unfoldable pub release : Progress K → K → Progress K
  release s consumer = elim (BTreeMap.get consumer s.indegree) [
    | none ↦ s
    | some degree ↦ record s {
      indegree = BTreeMap.modify consumer decrement s.indegree;
      ready = if decrement degree == 0 then BTreeSet.insert consumer s.ready else s.ready;
    }
  ]

  unfoldable pub release_all : Progress K → List K → Progress K
  release_all s [] = s
  release_all s (c ∷ cs) = release_all (release s c) cs

  -- the body of the `while` loop, after `next` left the ready set
  unfoldable pub visit : List (K × List K) → K → List K → Progress K → Progress K
  visit adjacency next rest s =
      release_all (record s { ready = rest; order = s.order ++ next ∷ [] })
        (consumers adjacency next)

  unfoldable pub run : {E : Type 0} → ℕ → List (K × List K) → Progress K → Result E (Progress K)
  run zero adjacency s = elim s.ready [ [] ↦ ok s | _ ∷ _ ↦ fault ]
  run (suc fuel) adjacency s = elim s.ready [
    | [] ↦ ok s
    | next ∷ rest ↦ run fuel adjacency (visit adjacency next rest s)
  ]

  unfoldable pub start : Tables K → Progress K
  start t = record {
    indegree = t.indegree;
    ready = BTreeSet.collect (with_degree_zero t.indegree);
    order = [];
  }

  -- the nodes that the loop did not reach
  unfoldable pub remaining_of : List (K × ℕ) → List K
  remaining_of [] = []
  remaining_of ((id, degree) ∷ m) =
      let others = remaining_of m in if degree == 0 then others else id ∷ others

  unfoldable pub topological_order :
      {E : Type 0} → (List K → E) → List K → List (K × K) → Result E (List K)
  topological_order dependency_cycle plugin_ids edges = do
    let nodes = BTreeSet.collect plugin_ids
    let tables = add_edges (blank nodes) edges
    s ← run (length nodes) tables.adjacency (start tables)
    if length s.order == length nodes then ok s.order else do
      cycle ← find_cycle (BTreeSet.collect (remaining_of s.indegree)) tables.adjacency
      err (dependency_cycle cycle)
