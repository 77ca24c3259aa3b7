-- ===== src/Graph/Cycle/Kept.antt =====
-- One round of `find_cycle` (crates/kernox-core/src/graph.rs) keeps what the search knows of the nodes that it has seen.
use kernox.Prelude.{
  ℕ, suc, ◌≡◌, sym, subst, ap, ◌∙◌, ◌⊎◌, inl, inr, ⊎_elim, true, List, [], ◌∷◌, ◌++◌, Memᴰ,
  mem_head, mem_tail, Option, none, some, length, get_elem?, arith, Bool-cases, Option-cases, ◌==◌,
  ==_iff,
}
use kernox.Order.{Ord, same, same_iff}
use kernox.Collections.BTreeMap
use kernox.Graph.Cycle.{
  State, visiting, done, Search, continue, return, out_of_range, finish, descend, slice_from,
  follow, advance,
}
use kernox.Graph.Cycle.Ends.{State-cases}
use kernox.Graph.Cycle.Complete.{
  outgoing_of, Followed, Followed-map, Complete, Grows, finish-Complete,
}

module _ {K : Type 0} ⦃o : Ord K⦄ (neighbours : List (K × List K)) where
  -- The index of the top of the stack moves over the edge to `next`.
  Followed-next :
      (above : List K) (node next : K) (i : ℕ) (below : List (K × ℕ)) (st : List (K × State))
      → get_elem? (outgoing_of neighbours node) i ≡ some next
      → (BTreeMap.get next st ≡ some done) ⊎ Memᴰ next above
      → Followed neighbours above ((node, i) ∷ below) st
      → Followed neighbours above ((node, suc i) ∷ below) st
  Followed-next above node next i below st at_i new h = (
    λ j y l e. elim (Bool-cases (j == i)) [
      | inl here ↦
          let same_index = (==_iff j i).0 here in
          let is : some next ≡ some y =
            sym at_i ∙ ap (get_elem? (outgoing_of neighbours node)) (sym same_index) ∙ e in
          subst (λ t. (BTreeMap.get t st ≡ some done) ⊎ Memᴰ t above) (some_inj next y is) new
      | inr other ↦ h.0 j y (ground arith) e
    ],
    h.1,
  )
    where
      some_inj : (a b : K) → some a ≡ some b → a ≡ b
      some_inj a b e = cc

  -- What following an edge does, where a node that is being visited has its position.
  follow_kept :
      (node next : K) (i : ℕ) (below : List (K × ℕ)) (s s' : Search K)
      → s.stack ≡ (node, i) ∷ below
      → get_elem? (outgoing_of neighbours node) i ≡ some next
      → Complete neighbours s
      → follow next (record s { stack = (node, suc i) ∷ below }) ≡ continue s'
      → Complete neighbours s' × Grows neighbours s.states s'.states
  unfolding follow descend BTreeMap.contains_key
  follow_kept node next i below s s' at at_i h e =
      let s1 : Search K = record s { stack = (node, suc i) ∷ below } in
      let followed = subst (λ st. Followed neighbours [] st s.states) at h.followed in
      elim (Option-cases (BTreeMap.get next s.states)) [
        | inr (st, old) ↦ elim (State-cases st) [
          | inl open_node ↦
              let (position, on) =
                BTreeMap.get_of_contains_key next s.positions
                  (h.on_path next (old ∙ ap some open_node)) in
              elim (Option-cases (slice_from position s.path)) [
                | inl out ↦ absurd (out_continue (sym (simp (follow, old, open_node, on, out)) ∙ e))
                | inr (cycle, cut) ↦ absurd (
                    return_continue {c = cycle ++ next ∷ []}
                      (sym (simp (follow, old, open_node, on, cut)) ∙ e))
              ]
          | inr ended ↦
              let is : s1 ≡ s' = continue_inj (sym (simp (follow, old, ended)) ∙ e) in
              subst (λ t. Complete neighbours t × Grows neighbours s.states t.states) is
                (
                  record {
                    finished = h.finished;
                    ordered = h.ordered;
                    listed = h.listed;
                    inside = h.inside;
                    on_path = h.on_path;
                    followed =
                        Followed-next [] node next i below s.states at_i (inl (old ∙ ap some ended))
                          followed;
                  },
                  λ x m. m,
                )
        ]
        | inl new ↦
            let is : descend next s1 ≡ s' = continue_inj (sym (simp (follow, new)) ∙ e) in
            let states' = BTreeMap.insert next visiting s.states in
            let inserted = λ (x : K). BTreeMap.get-insert x next visiting s.states in
            let keeps : (y : K)
                → BTreeMap.get y s.states ≡ some done
                → BTreeMap.get y states' ≡ some done =
              λ y d. elim (Bool-cases (same y next)) [
                | inl here ↦ absurd (
                    none_some (
                      sym new
                      ∙ ap (λ t. BTreeMap.get t s.states) (sym ((same_iff y next).0 here))
                      ∙ d))
                | inr other ↦ ground (arith, inserted y, other, d)
              ] in
            let moved =
              Followed-next (next ∷ []) node next i below s.states at_i (inr (mem_head next [])) (
                Followed-map neighbours [] (next ∷ []) ((node, i) ∷ below) s.states s.states
                  (λ y x. ⊎_elim inl (λ m. inr (mem_tail next m)) x) followed) in
            subst (λ t. Complete neighbours t × Grows neighbours s.states t.states) is
              (
                record {
                  finished = h.finished;
                  ordered = h.ordered;
                  listed = λ x d. elim (Bool-cases (same x next)) [
                    | inl here ↦ absurd (visiting_done (ground (arith, inserted x, here, d)))
                    | inr other ↦ h.listed x (ground (arith, inserted x, other, d))
                  ];
                  inside = h.inside;
                  on_path = λ x v. elim (Bool-cases (same x next)) [
                    | inl here ↦ ground (
                      arith,
                      BTreeMap.contains_key-insert x next (length s.path) s.positions,
                      here,
                    )
                    | inr other ↦
                        let before : BTreeMap.get x s.states ≡ some visiting =
                          ground (arith, inserted x, other, v) in
                        ground (
                          arith,
                          BTreeMap.contains_key-insert x next (length s.path) s.positions,
                          h.on_path x before,
                        )
                  ];
                  followed = (
                    λ j y l. absurd (omega (arith, l)),
                    Followed-map neighbours (next ∷ []) (next ∷ []) ((node, suc i) ∷ below) s.states
                        states' (λ y x. ⊎_elim (λ d. inl (keeps y d)) inr x) moved,
                  );
                },
                λ x m. ground (arith, BTreeMap.contains_key-insert x next visiting s.states, m),
              )
      ]
    where
      continue_inj : {a b : Search K} → continue a ≡ continue b → a ≡ b
      continue_inj e = cc

      out_continue : {b : Search K} → out_of_range ≡ continue b → ⊥
      out_continue e = cc

      return_continue : {c : List K} {b : Search K} → return c ≡ continue b → ⊥
      return_continue e = cc

      none_some : ◌≡◌ {A = Option State} none (some done) → ⊥
      none_some e = cc

      visiting_done : some visiting ≡ some done → ⊥
      visiting_done e = cc

  pub advance_kept :
      (node : K) (i : ℕ) (below : List (K × ℕ)) (s s' : Search K)
      → s.stack ≡ (node, i) ∷ below
      → BTreeMap.contains_key node neighbours ≡ true
      → BTreeMap.IsSorted s.positions
      → Complete neighbours s
      → advance (outgoing_of neighbours node) node i below s ≡ continue s'
      → Complete neighbours s' × Grows neighbours s.states s'.states
  unfolding advance finish
  advance_kept node i below s s' at known sorted h e =
      elim (Option-cases (get_elem? (outgoing_of neighbours node) i)) [
        | inl last ↦
            let is : finish node below s ≡ s' = continue_inj (sym (simp (advance, last)) ∙ e) in
            subst (λ t. Complete neighbours t × Grows neighbours s.states t.states) is
              (
                finish-Complete neighbours node i below s at known sorted last h,
                λ x m. ground (arith, BTreeMap.contains_key-insert x node done s.states, m),
              )
        | inr (next, at_i) ↦
            follow_kept node next i below s s' at at_i h (sym (simp (advance, at_i)) ∙ e)
      ]
    where
      continue_inj : {a b : Search K} → continue a ≡ continue b → a ≡ b
      continue_inj e = cc
