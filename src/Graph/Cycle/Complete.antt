-- ===== src/Graph/Cycle/Complete.antt =====
-- What the search `find_cycle` (crates/kernox-core/src/graph.rs) has finished: its nodes can be listed so that each
-- has its edges to nodes that were finished before it.
use kernox.Prelude.{
  ℕ, zero, suc, ◌<◌, ◌≡◌, sym, subst, ap, ◌⊎◌, inl, inr, ⊎_elim, true, List, [], ◌∷◌, Memᴰ,
  mem_head, mem_tail, mem_cons, not_mem_nil, none, some, get_elem?, arith, Bool-cases,
}
use kernox.Order.{Ord, same, same_iff}
use kernox.Collections.BTreeMap
use kernox.Collections.BTreeMap.Remove.{contains_key-remove}
use kernox.Graph.Cycle.{State, visiting, done, Search, finish}
use kernox.Graph.Cycle.Trail.{Edge}

module _ {K : Type 0} ⦃o : Ord K⦄ (neighbours : List (K × List K)) where
  -- Finished nodes, the last one first: each has its edges to nodes that were finished before it.
  abbrev pub Finished : List K → Type 0
  Finished [] = Unit
  Finished (x ∷ xs) = ((y : K) → Edge neighbours x y → Memᴰ y xs) × Finished xs

  Finished-edge : (l : List K) (p y : K) → Finished l → Memᴰ p l → Edge neighbours p y → Memᴰ y l
  Finished-edge [] p y h m e = not_mem_nil m
  Finished-edge (x ∷ xs) p y h m e =
      ⊎_elim (λ is. mem_tail x (h.0 y (subst (λ t. Edge neighbours t y) is e)))
        (λ later. mem_tail x (Finished-edge xs p y h.1 later e)) ((mem_cons p x xs).0 m)

  -- Where every finished node has an edge from a finished node, there is none.
  pub no_source :
      (l : List K)
      → Finished l
      → ((y : K) → Memᴰ y l → (p : K) × Memᴰ p l × Edge neighbours p y)
      → (x : K) → Memᴰ x l
      → ⊥
  no_source [] h source x m = not_mem_nil m
  no_source (z ∷ l) h source x m =
      let (p, mp, e) = source z (mem_head z l) in
      let again : Memᴰ z l =
        ⊎_elim (λ is. h.0 z (subst (λ t. Edge neighbours t z) is e))
          (λ later. Finished-edge l p z h.1 later e) ((mem_cons p z l).0 mp) in
      no_source l h.1
        (λ y my.
          let (q, mq, f) = source y (mem_tail z my) in
          (
            q,
            ⊎_elim (λ is. subst (λ t. Memᴰ t l) (sym is) again) (λ later. later)
                ((mem_cons q z l).0 mq),
            f,
          ))
        z again

  abbrev pub outgoing_of : K → List K
  outgoing_of t = BTreeMap.get_or t [] neighbours

  -- The edges that were followed from the nodes of a stack lead to done nodes or further up.
  abbrev pub Followed : List K → List (K × ℕ) → List (K × State) → Type 0
  Followed above [] states = Unit
  Followed above ((t, i) ∷ below) states =
      ((j : ℕ) (y : K)
        → j < i
        → get_elem? (outgoing_of t) j ≡ some y
        → (BTreeMap.get y states ≡ some done) ⊎ Memᴰ y above)
      × Followed (t ∷ above) below states

  -- Every node that was seen and is not on the path is listed.
  pub record Complete (s : Search K) : Type 0 where
    pub finished : List K
    pub ordered : Finished finished
    pub listed : (x : K) → BTreeMap.get x s.states ≡ some done → Memᴰ x finished
    pub inside : (x : K) → Memᴰ x finished → BTreeMap.contains_key x neighbours ≡ true
    pub on_path :
        (x : K)
        → BTreeMap.get x s.states ≡ some visiting
        → BTreeMap.contains_key x s.positions ≡ true
    pub followed : Followed [] s.stack s.states

  -- Every node that was seen is listed.
  pub record Clean (states : List (K × State)) : Type 0 where
    pub finished : List K
    pub ordered : Finished finished
    pub listed : (x : K) → BTreeMap.contains_key x states ≡ true → Memᴰ x finished
    pub inside : (x : K) → Memᴰ x finished → BTreeMap.contains_key x neighbours ≡ true
    pub unvisited : (x : K) → BTreeMap.get x states ≡ some visiting → ⊥

  abbrev pub Grows : List (K × State) → List (K × State) → Type 0
  Grows st st' = (x : K) → BTreeMap.contains_key x st ≡ true → BTreeMap.contains_key x st' ≡ true

  -- A change of the states that keeps what is done, and what is added above the stack.
  pub Followed-map :
      (above above' : List K) (stack : List (K × ℕ)) (st st' : List (K × State))
      → ((y : K)
          → (BTreeMap.get y st ≡ some done) ⊎ Memᴰ y above
          → (BTreeMap.get y st' ≡ some done) ⊎ Memᴰ y above')
      → Followed above stack st
      → Followed above' stack st'
  Followed-map above above' [] st st' f h = tt
  Followed-map above above' ((t, i) ∷ below) st st' f h = (
    λ j y l e. f y (h.0 j y l e),
    Followed-map (t ∷ above) (t ∷ above') below st st'
        (λ y x.
          ⊎_elim (λ d. ⊎_elim inl (λ m. inr (mem_tail t m)) (f y (inl d)))
            (λ m.
              ⊎_elim (λ is. inr ((mem_cons y t above').1 (inl is)))
                (λ later. ⊎_elim inl (λ m'. inr (mem_tail t m')) (f y (inr later)))
                ((mem_cons y t above).0 m))
            x)
        h.1,
  )

  index_of :
      (xs : List K) (y : K) (i : ℕ)
      → Memᴰ y xs
      → get_elem? xs i ≡ none
      → (j : ℕ) × (j < i) × (get_elem? xs j ≡ some y)
  index_of [] y i m e = not_mem_nil m
  index_of (x ∷ xs) y zero m e = absurd (cc)
  index_of (x ∷ xs) y (suc i) m e =
      ⊎_elim (λ is. (0, omega arith, ap some (sym is)))
        (λ later. let (j, l, at) = index_of xs y i later e in (suc j, omega (arith, l), at))
        ((mem_cons y x xs).0 m)

  pub finish-Complete :
      (node : K) (i : ℕ) (below : List (K × ℕ)) (s : Search K)
      → s.stack ≡ (node, i) ∷ below
      → BTreeMap.contains_key node neighbours ≡ true
      → BTreeMap.IsSorted s.positions
      → get_elem? (outgoing_of node) i ≡ none
      → Complete s
      → Complete (finish node below s)
  unfolding finish BTreeMap.contains_key
  finish-Complete node i below s at known sorted last h =
      let followed = subst (λ st. Followed [] st s.states) at h.followed in
      let inserted = λ (x : K). BTreeMap.get-insert x node done s.states in
      record {
        finished = node ∷ h.finished;
        ordered = (
          λ y e.
              let (j, l, there) = index_of (outgoing_of node) y i e last in
              ⊎_elim (h.listed y) (λ m. not_mem_nil m) (followed.0 j y l there),
          h.ordered,
        );
        listed = λ x e. elim (Bool-cases (same x node)) [
          | inl here ↦ (mem_cons x node h.finished).1 (inl ((same_iff x node).0 here))
          | inr other ↦ mem_tail node (h.listed x (ground (arith, inserted x, other, e)))
        ];
        inside = λ x m.
            ⊎_elim (λ is. subst (λ t. BTreeMap.contains_key t neighbours ≡ true) (sym is) known)
              (h.inside x) ((mem_cons x node h.finished).0 m);
        on_path = λ x e. elim (Bool-cases (same x node)) [
          | inl here ↦ absurd (visiting_done (ground (arith, inserted x, here, e)))
          | inr other ↦
              let before : BTreeMap.get x s.states ≡ some visiting =
                ground (arith, inserted x, other, e) in
              ground
                (arith, h.on_path x before, contains_key-remove x node s.positions sorted, other)
        ];
        followed =
            Followed-map (node ∷ []) [] below s.states _
              (λ y x. elim (Bool-cases (same y node)) [
                | inl here ↦ inl (ground (arith, inserted y, here))
                | inr other ↦
                    ⊎_elim (λ d. inl (ground (arith, inserted y, other, d)))
                      (λ m.
                        ⊎_elim (λ is. absurd (ground (arith, same_iff y node, is, other)))
                          (λ none_left. not_mem_nil none_left) ((mem_cons y node []).0 m))
                      x
              ])
              followed.1;
      }
    where
      visiting_done : some done ≡ some visiting → ⊥
      visiting_done e = cc
