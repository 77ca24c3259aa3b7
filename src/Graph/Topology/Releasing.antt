-- ===== src/Graph/Topology/Releasing.antt =====
-- The inner loop over the consumers of a started plugin: which degrees fall, and which plugins
-- become ready.
use kernox.Prelude.{
  ℕ, zero, suc, ◌+◌, ◌-◌, ◌<◌, ◌≡◌, refl, inl, inr, Bool, true, false, not, ◌&&◌, ◌||◌, List, [],
  ◌∷◌, ◌++◌, Option, none, some, ◌==◌, if◌then◌else◌, arith, Bool-cases, Option-cases,
}
use mathlib.Core.Option
use kernox.Order.{Ord, same, same_iff}
use kernox.Collections.BTreeSet
use kernox.Collections.BTreeMap
use kernox.Graph.Topology.{Progress, consumers, decrement, release, release_all}
use kernox.Graph.Topology.Building.{waiting, count_if, Linked}

pub decrement_lem : (d : ℕ) → 0 < d → decrement d ≡ d - 1
decrement_lem zero h = absurd (omega arith)
decrement_lem (suc d) h = omega arith

-- The degree was one.
abbrev falls_to_zero : Option ℕ → Bool
falls_to_zero none = false
falls_to_zero (some d) = decrement d == 0

module _ {K : Type 0} ⦃o : Ord K⦄ where
  release_degree :
      (s : Progress K) (c v : K)
      → BTreeMap.get v (release s c).indegree ≡ (
          if same v c
          then Option.map decrement (BTreeMap.get v s.indegree)
          else BTreeMap.get v s.indegree)
  unfolding release
  release_degree s c v = ground (arith, same_iff v c, BTreeMap.get-modify v c decrement s.indegree)

  release_ready :
      (s : Progress K) (c v : K)
      → BTreeSet.contains v (release s c).ready
        ≡ (BTreeSet.contains v s.ready || (same v c && falls_to_zero (BTreeMap.get c s.indegree)))
  unfolding release
  release_ready s c v = ground (arith, BTreeSet.contains-insert v c s.ready)

  release_sorted :
      (s : Progress K) (c : K) → BTreeSet.IsSorted s.ready → BTreeSet.IsSorted (release s c).ready
  unfolding release
  release_sorted s c h = elim (Option-cases (BTreeMap.get c s.indegree)) [
    | inl e ↦ rw (e, release) h
    | inr (d, e) ↦
        rw (e, release)
          (elim (Bool-cases (decrement d == 0)) [
            | inl z ↦ rw z (BTreeSet.insert-IsSorted c s.ready h)
            | inr z ↦ rw z h
          ])
  ]

  release_rest :
      (s : Progress K) (c : K)
      → ((release s c).order ≡ s.order)
        × (BTreeMap.keys (release s c).indegree ≡ BTreeMap.keys s.indegree)
  unfolding release
  release_rest s c = ground (arith, BTreeMap.keys-modify c decrement s.indegree)

  pub release_all_rest :
      (s : Progress K) (cs : List K)
      → ((release_all s cs).order ≡ s.order)
        × (BTreeMap.keys (release_all s cs).indegree ≡ BTreeMap.keys s.indegree)
  unfolding release_all
  release_all_rest s [] = (refl, refl)
  release_all_rest s (c ∷ cs) = ground (arith, release_rest s c, release_all_rest (release s c) cs)

  pub release_all_sorted :
      (s : Progress K) (cs : List K)
      → BTreeSet.IsSorted s.ready
      → BTreeSet.IsSorted (release_all s cs).ready
  unfolding release_all
  release_all_sorted s [] h = h
  release_all_sorted s (c ∷ cs) h = release_all_sorted (release s c) cs (release_sorted s c h)

  -- The head of a sorted list is not in its tail.
  fresh_head :
      (v c : K) (cs : List K)
      → BTreeSet.IsSorted (c ∷ cs)
      → same v c ≡ true
      → BTreeSet.contains v cs ≡ false
  fresh_head v c cs h e = elim (Bool-cases (BTreeSet.contains v cs)) [
    | inl m ↦ absurd (
        BTreeSet.not_mem_of_sorted c cs h
          (rw ((same_iff v c).0 e) at ((BTreeSet.contains_iff v cs).0 m)))
    | inr n ↦ n
  ]

  pub release_all_degree :
      (s : Progress K) (cs : List K) (v : K)
      → BTreeSet.IsSorted cs
      → BTreeMap.get v (release_all s cs).indegree ≡ (
          if BTreeSet.contains v cs
          then Option.map decrement (BTreeMap.get v s.indegree)
          else BTreeMap.get v s.indegree)
  unfolding release_all
  release_all_degree s [] v h = refl
  release_all_degree s (c ∷ cs) v h =
      ground (
        arith,
        release_all_degree (release s c) cs v h.1,
        release_degree s c v,
        fresh_head v c cs h,
      )

  pub release_all_ready :
      (s : Progress K) (cs : List K) (v : K)
      → BTreeSet.IsSorted cs
      → BTreeSet.contains v (release_all s cs).ready ≡ (
          BTreeSet.contains v s.ready
          || (BTreeSet.contains v cs && falls_to_zero (BTreeMap.get v s.indegree)))
  unfolding release_all
  release_all_ready s [] v h = ground arith
  release_all_ready s (c ∷ cs) v h = ground (
    arith,
    release_all_ready (release s c) cs v h.1,
    release_degree s c v,
    release_ready s c v,
    fresh_head v c cs h,
    same_iff v c,
  )

  pub contains-tail :
      (v x : K) (xs : List K)
      → BTreeSet.IsSorted (x ∷ xs)
      → BTreeSet.contains v xs ≡ (BTreeSet.contains v (x ∷ xs) && not (same v x))
  contains-tail v x xs h = ground (arith, fresh_head v x xs h)

  pub contains-concat :
      (v x : K) (xs : List K)
      → BTreeSet.contains v (xs ++ x ∷ []) ≡ (BTreeSet.contains v xs || same v x)
  contains-concat v x [] = ground arith
  contains-concat v x (y ∷ xs) = ground (arith, contains-concat v x xs)

  -- Placing a provider takes it off the count of each of its consumers.
  pub waiting-place :
      (adjacency : List (K × List K)) (placed : List K) (next v : K)
      → BTreeMap.IsSorted adjacency
      → BTreeSet.contains next placed ≡ false
      → waiting adjacency (placed ++ next ∷ []) v
          + count_if (BTreeSet.contains v (consumers adjacency next))
        ≡ waiting adjacency placed v
  unfolding BTreeMap.get
  waiting-place [] placed next v h e = omega arith
  waiting-place ((q, ds) ∷ adjacency) placed next v h e = ground (
    arith,
    waiting-place adjacency placed next v h.1 e,
    contains-concat q next placed,
    same_iff next q,
    same_iff q next,
    BTreeMap.get_before q adjacency h.0,
  )

  -- With none to wait for, every provider is placed.
  pub placed_of_waiting :
      (adjacency : List (K × List K)) (placed : List K) (p v : K)
      → waiting adjacency placed v ≡ 0
      → Linked adjacency p v
      → BTreeSet.contains p placed ≡ true
  unfolding BTreeMap.get
  placed_of_waiting [] placed p v z l = cc
  placed_of_waiting ((q, ds) ∷ adjacency) placed p v z l =
      ground (arith, placed_of_waiting adjacency placed p v, same_iff p q)

  -- The nodes that are not placed.
  abbrev pub unplaced : List K → List K → ℕ
  unplaced [] placed = 0
  unplaced (n ∷ nodes) placed = count_if (not (BTreeSet.contains n placed)) + unplaced nodes placed

  pub unplaced-place :
      (nodes placed : List K) (next : K)
      → BTreeSet.IsSorted nodes
      → BTreeSet.contains next placed ≡ false
      → unplaced nodes (placed ++ next ∷ []) + count_if (BTreeSet.contains next nodes)
        ≡ unplaced nodes placed
  unplaced-place [] placed next h e = omega arith
  unplaced-place (n ∷ nodes) placed next h e = ground (
    arith,
    unplaced-place nodes placed next h.1 e,
    contains-concat n next placed,
    same_iff next n,
    same_iff n next,
    fresh_head next n nodes h,
  )
