-- ===== src/Graph/Cycle.antt =====
-- `find_cycle` (crates/kernox-core/src/graph.rs): an iterative depth-first search over the nodes
-- that the start-up order did not reach, with a stack of nodes and the next outgoing index of each.
pub mod Trail
pub mod Fuel
pub mod Ends
pub mod Complete
pub mod Kept
pub mod Finds
pub mod Found
use kernox.Prelude.{
  ℕ, zero, suc, ◌+◌, true, false, List, [], ◌∷◌, ◌++◌, Option, none, some, if◌then◌else◌, length,
  get_elem?, drop, leb, Result, ok, fault, ◌>>=◌,
}
use kernox.Order.{Ord}
use kernox.Collections.BTreeSet
use kernox.Collections.BTreeMap

pub data State : Type 0 where
  visiting done : State

-- The stack has its top first; the path has the start first.
pub record Search (K : Type 0) : Type 0 where
  pub stack : List (K × ℕ)
  pub path : List K
  pub positions : List (K × ℕ)
  pub states : List (K × State)

-- How one start node ends.
pub data Walk (K : Type 0) : Type 0 where
  found : List K → Walk K
  exhausted : List (K × State) → Walk K

-- One round of the `while` loop: the search goes on, a cycle is returned, or a slice is out of range.
pub data Round (K : Type 0) : Type 0 where
  continue : Search K → Round K
  return : List K → Round K
  out_of_range : Round K

module _ {K : Type 0} ⦃o : Ord K⦄ where
  unfoldable pub keep : List K → List K → List K
  keep remaining [] = []
  keep remaining (c ∷ cs) =
      let rest = keep remaining cs in if BTreeSet.contains c remaining then c ∷ rest else rest

  unfoldable pub neighbours_of : List K → List (K × List K) → List K → List (K × List K)
  neighbours_of remaining adjacency [] = []
  neighbours_of remaining adjacency (plugin ∷ plugins) =
      (plugin, keep remaining (BTreeMap.get_or plugin [] adjacency))
      ∷ neighbours_of remaining adjacency plugins

  abbrev pub but_last : List K → List K
  but_last [] = []
  but_last (x ∷ []) = []
  but_last (x ∷ y ∷ xs) = x ∷ but_last (y ∷ xs)

  -- the node on top has no outgoing edge left
  unfoldable pub finish : K → List (K × ℕ) → Search K → Search K
  finish node below s = record {
    stack = below;
    path = but_last s.path;
    positions = BTreeMap.remove node s.positions;
    states = BTreeMap.insert node done s.states;
  }

  -- a node that was not seen before goes on the stack
  unfoldable pub descend : K → Search K → Search K
  descend next s = record {
    stack = (next, 0) ∷ s.stack;
    path = s.path ++ next ∷ [];
    positions = BTreeMap.insert next (length s.path) s.positions;
    states = BTreeMap.insert next visiting s.states;
  }

  -- `path[position..]`, which panics when the position is beyond the end
  abbrev pub slice_from : ℕ → List K → Option (List K)
  slice_from position path = if leb position (length path) then some (drop position path) else none

  -- the edge from the top of the stack to `next`, when its index was incremented
  unfoldable pub follow : K → Search K → Round K
  follow next s = elim (BTreeMap.get next s.states) [
    | some visiting ↦ elim (BTreeMap.get next s.positions) [
      | some position ↦ elim (slice_from position s.path) [
        | some cycle ↦ return (cycle ++ next ∷ [])
        | none ↦ out_of_range
      ]
      | none ↦ continue s
    ]
    | some done ↦ continue s
    | none ↦ continue (descend next s)
  ]

  unfoldable pub advance : List K → K → ℕ → List (K × ℕ) → Search K → Round K
  advance outgoing node next_index below s = elim (get_elem? outgoing next_index) [
    | none ↦ continue (finish node below s)
    | some next ↦ follow next (record s { stack = (node, suc next_index) ∷ below })
  ]

  -- the `while` loop; `neighbours[node]` panics when the node has no entry
  unfoldable pub walk : {E : Type 0} → ℕ → List (K × List K) → Search K → Result E (Walk K)
  walk zero neighbours s = elim s.stack [ [] ↦ ok (exhausted s.states) | _ ∷ _ ↦ fault ]
  walk (suc fuel) neighbours s = elim s.stack [
    | [] ↦ ok (exhausted s.states)
    | (node, next_index) ∷ below ↦ elim (BTreeMap.get node neighbours) [
      | none ↦ fault
      | some outgoing ↦ elim (advance outgoing node next_index below s) [
        | continue s' ↦ walk fuel neighbours s'
        | return cycle ↦ ok (found cycle)
        | out_of_range ↦ fault
      ]
    ]
  ]

  unfoldable pub begin : K → List (K × State) → Search K
  begin start states = record {
    stack = (start, 0) ∷ [];
    path = start ∷ [];
    positions = (start, 0) ∷ [];
    states = BTreeMap.insert start visiting states;
  }

  -- the `for` loop over the start nodes: `none` when it ends without a cycle
  unfoldable pub search_from :
      {E : Type 0} → ℕ → List (K × List K) → List K → List (K × State) → Result E (Option (List K))
  search_from fuel neighbours [] states = ok none
  search_from fuel neighbours (start ∷ starts) states = elim (BTreeMap.contains_key start states) [
    | true ↦ search_from fuel neighbours starts states
    | false ↦ do
      w ← walk fuel neighbours (begin start states)
      elim w [
        | found cycle ↦ ok (some cycle)
        | exhausted states' ↦ search_from fuel neighbours starts states'
      ]
  ]

  -- Each round takes an outgoing edge or finishes a node.
  abbrev pub rounds : List (K × List K) → ℕ
  rounds [] = 0
  rounds ((n, outgoing) ∷ m) = suc (length outgoing) + rounds m

  unfoldable pub or_first : List K → Option (List K) → List K
  or_first remaining (some cycle) = cycle
  or_first [] none = []
  or_first (first ∷ others) none = first ∷ []

  unfoldable pub find_cycle : {E : Type 0} → List K → List (K × List K) → Result E (List K)
  find_cycle remaining adjacency = do
    let neighbours = neighbours_of remaining adjacency remaining
    cycle ← search_from (rounds neighbours) neighbours remaining []
    ok (or_first remaining cycle)
