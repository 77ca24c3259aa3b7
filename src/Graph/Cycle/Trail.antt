-- ===== src/Graph/Cycle/Trail.antt =====
-- The path of the search `find_cycle` (crates/kernox-core/src/graph.rs): it follows edges, the stack holds its
-- nodes, and the positions are where they stand.
use kernox.Prelude.{
  ℕ, suc, ◌≡◌, refl, sym, subst, ap, ◌∙◌, ◌⊎◌, inl, inr, ⊎_elim, List, [], ◌∷◌, ◌++◌, Memᴰ, some,
  length, drop, arith, Bool-cases,
}
use mathlib.Core.List
use kernox.Order.{Ord, same, same_iff}
use kernox.Collections.BTreeMap
use kernox.Collections.BTreeMap.Remove.{get-remove, remove-IsSorted}
use kernox.Graph.Cycle.{Search, but_last, finish, descend}

module _ {K : Type 0} ⦃o : Ord K⦄ (neighbours : List (K × List K)) where
  abbrev pub Edge : K → K → Type 0
  Edge x y = Memᴰ y (BTreeMap.get_or x [] neighbours)

  -- Each element has an edge to the next one.
  abbrev pub Chain : List K → Type 0
  Chain [] = Unit
  Chain (x ∷ []) = Unit
  Chain (x ∷ y ∷ xs) = Edge x y × Chain (y ∷ xs)

  Chain-concat :
      (xs : List K) (t n : K) → Chain (xs ++ t ∷ []) → Edge t n → Chain ((xs ++ t ∷ []) ++ n ∷ [])
  Chain-concat [] t n h e = (e, tt)
  Chain-concat (x ∷ []) t n h e = (h.0, (e, tt))
  Chain-concat (x ∷ y ∷ xs) t n h e = (h.0, Chain-concat (y ∷ xs) t n h.1 e)

  Chain-front : (xs : List K) (t : K) → Chain (xs ++ t ∷ []) → Chain xs
  Chain-front [] t h = tt
  Chain-front (x ∷ []) t h = tt
  Chain-front (x ∷ y ∷ xs) t h = (h.0, Chain-front (y ∷ xs) t h.1)

  Chain-back : (xs ys : List K) → Chain (xs ++ ys) → Chain ys
  Chain-back [] ys h = h
  Chain-back (x ∷ []) [] h = tt
  Chain-back (x ∷ []) (y ∷ ys) h = h.1
  Chain-back (x ∷ z ∷ xs) ys h = Chain-back (z ∷ xs) ys h.1

  -- A walk along edges that ends where it begins, over at least one edge.
  abbrev pub IsCycle : List K → Type 0
  IsCycle cycle = (x : K) × (inner : List K) × (cycle ≡ (x ∷ inner) ++ x ∷ []) × Chain cycle

-- The stack holds the nodes of the path, the last one on top.
abbrev pub Holds : {K : Type 0} → List (K × ℕ) → List K → Type 0
Holds [] path = path ≡ []
Holds {K} ((t, i) ∷ below) path = (front : List K) × (path ≡ front ++ t ∷ []) × Holds below front

abbrev Placed : {K : Type 0} → ℕ → K → List K → Type 0
Placed {K} i x path = (before after : List K) × (path ≡ before ++ x ∷ after) × (length before ≡ i)

drop-Placed :
    {K : Type 0} (before after : List K) (x : K)
    → drop (length before) (before ++ x ∷ after) ≡ x ∷ after
drop-Placed [] after x = refl
drop-Placed (b ∷ before) after x = drop-Placed before after x

-- Where an element other than the last stands, it stands without the last.
Placed-front :
    {K : Type 0} (front before after : List K) (t x : K)
    → front ++ t ∷ [] ≡ before ++ x ∷ after
    → (x ≡ t) ⊎ Placed (length before) x front
Placed-front [] [] after t x e = inl (cc)
Placed-front [] (b ∷ before) after t x e = absurd (empty_tail before x after (cc))
  where
    empty_tail : {K : Type 0} (xs : List K) (y : K) (ys : List K) → [] ≡ xs ++ y ∷ ys → ⊥
    empty_tail [] y ys e = cc
    empty_tail (z ∷ xs) y ys e = cc
Placed-front (f ∷ front) [] after t x e = inr ([], front, cc, refl)
Placed-front (f ∷ front) (b ∷ before) after t x e =
    ⊎_elim inl (λ (before', after', is, count). inr (b ∷ before', after', cc, ap suc count))
      (Placed-front front before after t x (cc))

module _ {K : Type 0} ⦃o : Ord K⦄ where
  but_last-concat : (xs : List K) (t : K) → but_last (xs ++ t ∷ []) ≡ xs
  but_last-concat [] t = refl
  but_last-concat (x ∷ []) t = refl
  but_last-concat (x ∷ y ∷ xs) t = ap (λ r. x ∷ r) (but_last-concat (y ∷ xs) t)

module _ {K : Type 0} ⦃o : Ord K⦄ (neighbours : List (K × List K)) where
  pub record Trail (s : Search K) : Type 0 where
    pub chain : Chain neighbours s.path
    pub holds : Holds s.stack s.path
    pub positions_sorted : BTreeMap.IsSorted s.positions
    pub placed : (x : K) (i : ℕ) → BTreeMap.get x s.positions ≡ some i → Placed i x s.path

  pub finish-Trail :
      (node : K) (i : ℕ) (below : List (K × ℕ)) (s : Search K)
      → s.stack ≡ (node, i) ∷ below
      → Trail s
      → Trail (finish node below s)
  unfolding finish
  finish-Trail node i below s at h =
      let (front, e, rest) = subst (λ st. Holds st s.path) at h.holds in
      let is : but_last s.path ≡ front = ap but_last e ∙ but_last-concat front node in
      record {
        chain =
            subst (Chain neighbours) (sym is)
              (Chain-front neighbours front node (subst (Chain neighbours) e h.chain));
        holds = subst (Holds below) (sym is) rest;
        positions_sorted = remove-IsSorted node s.positions h.positions_sorted;
        placed = λ x n got.
            let removed = get-remove x node s.positions h.positions_sorted in
            let there : BTreeMap.get x s.positions ≡ some n = ground (arith, removed, got) in
            let (before, after, split, count) = h.placed x n there in
            ⊎_elim (λ last. absurd (ground (arith, removed, got, same_iff x node, last)))
              (λ p. subst (Placed n x) (sym is) (subst (λ l. Placed l x front) count p))
              (Placed-front front before after node x (sym e ∙ split));
      }

  pub descend-Trail :
      (node next : K) (i j : ℕ) (below : List (K × ℕ)) (s : Search K)
      → s.stack ≡ (node, i) ∷ below
      → Edge neighbours node next
      → Trail s
      → Trail (descend next (record s { stack = (node, j) ∷ below }))
  unfolding descend
  descend-Trail node next i j below s at edge h =
      let (front, e, rest) = subst (λ st. Holds st s.path) at h.holds in
      record {
        chain =
            subst (λ p. Chain neighbours (p ++ next ∷ [])) (sym e)
              (Chain-concat neighbours front node next (subst (Chain neighbours) e h.chain) edge);
        holds = (s.path, refl, (front, e, rest));
        positions_sorted =
            BTreeMap.insert-IsSorted next (length s.path) s.positions h.positions_sorted;
        placed = λ x n got.
            let inserted = BTreeMap.get-insert x next (length s.path) s.positions in
            elim (Bool-cases (same x next)) [
              | inl here ↦
                  let count : length s.path ≡ n = ground (arith, inserted, got, here) in
                  let is = (same_iff x next).0 here in
                  (s.path, [], ap (λ y. s.path ++ y ∷ []) (sym is), count)
              | inr other ↦
                  let there : BTreeMap.get x s.positions ≡ some n =
                    ground (arith, inserted, got, other) in
                  let (before, after, split, count) = h.placed x n there in
                  (
                    before,
                    after ++ next ∷ [],
                    ap (λ p. p ++ next ∷ []) split
                        ∙ List.append_assoc before (x ∷ after) (next ∷ []),
                    count,
                  )
            ];
      }

  -- Back to a node of the path: the part from there on is a cycle.
  pub return-IsCycle :
      (node next : K) (i position : ℕ) (below : List (K × ℕ)) (s : Search K)
      → s.stack ≡ (node, i) ∷ below
      → Edge neighbours node next
      → BTreeMap.get next s.positions ≡ some position
      → Trail s
      → IsCycle neighbours (drop position s.path ++ next ∷ [])
  return-IsCycle node next i position below s at edge got h =
      let (front, e, rest) = subst (λ st. Holds st s.path) at h.holds in
      let (before, after, split, count) = h.placed next position got in
      let closed =
        Chain-concat neighbours front node next (subst (Chain neighbours) e h.chain) edge in
      let whole = subst (λ p. Chain neighbours (p ++ next ∷ [])) (sym e ∙ split) closed in
      let tail =
        Chain-back neighbours before ((next ∷ after) ++ next ∷ [])
          (subst (Chain neighbours) (List.append_assoc before (next ∷ after) (next ∷ [])) whole) in
      let cut : drop position s.path ≡ next ∷ after =
        ap (λ n. drop n s.path) (sym count)
        ∙ ap (drop (length before)) split
        ∙ drop-Placed before after next in
      let is = ap (λ p. p ++ next ∷ []) cut in
      (next, after, is, subst (Chain neighbours) (sym is) tail)
