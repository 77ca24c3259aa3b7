-- ===== src/Graph/Cycle/Finds.antt =====
-- `find_cycle` (crates/kernox-core/src/graph.rs) finds a cycle where every node of the search has an edge from another.
use kernox.Prelude.{
  ℕ, zero, suc, ◌≡◌, sym, subst, ap, ◌∙◌, inl, inr, true, false, List, [], ◌∷◌, Memᴰ, not_mem_nil,
  Option, none, some, length, arith, All, Bool-cases, List-cases, Result, ok, fault, length-append,
  All-mem,
}
use mathlib.Core.Option
use kernox.Order.{Ord, same, same_refl}
use kernox.Collections.BTreeMap
use kernox.Graph.Cycle.{
  State, visiting, done, Search, Walk, found, exhausted, advance, walk, begin, search_from, rounds,
}
use kernox.Graph.Cycle.Trail.{Holds, Edge, Trail}
use kernox.Graph.Cycle.Ends.{
  Going, advance_round, begin-Going, measure-begin, walk_ends, State-cases,
}
use kernox.Graph.Cycle.Complete.{no_source, Complete, Clean, Grows}
use kernox.Graph.Cycle.Kept.{advance_kept}

module _ {K : Type 0} ⦃o : Ord K⦄ (neighbours : List (K × List K)) where
  abbrev WalkCleans : Search K → List (K × State) → Type 0
  WalkCleans s states = Clean neighbours states × Grows neighbours s.states states

  -- When the path is empty, nothing is being visited.
  empty-Clean :
      (s : Search K)
      → s.stack ≡ []
      → Trail neighbours s
      → Complete neighbours s
      → Clean neighbours s.states
  unfolding BTreeMap.contains_key
  empty-Clean s empty trail h =
      let path : s.path ≡ [] = subst (λ st. Holds st s.path) empty trail.holds in
      record {
        finished = h.finished;
        ordered = h.ordered;
        listed = λ x m.
            let (st, old) = BTreeMap.get_of_contains_key x s.states m in
            elim (State-cases st) [
              | inr ended ↦ h.listed x (old ∙ ap some ended)
              | inl open_node ↦
                  let (i, on) =
                    BTreeMap.get_of_contains_key x s.positions
                      (h.on_path x (old ∙ ap some open_node)) in
                  let (before, after, split, _) = trail.placed x i on in
                  absurd
                    (ground (arith, ap length (sym path ∙ split), length-append before (x ∷ after)))
            ];
        inside = h.inside;
        unvisited = λ x v.
            let (i, on) = BTreeMap.get_of_contains_key x s.positions (h.on_path x v) in
            let (before, after, split, _) = trail.placed x i on in
            ground (arith, ap length (sym path ∙ split), length-append before (x ∷ after));
      }

  module _ (sorted : BTreeMap.IsSorted neighbours)
      (closed : (x y : K) → Edge neighbours x y → BTreeMap.contains_key y neighbours ≡ true) where
    walk_cleans :
        (E : Type 0) (fuel : ℕ) (s : Search K) (states : List (K × State))
        → Going neighbours sorted closed s
        → Complete neighbours s
        → walk {E = E} fuel neighbours s ≡ ok (exhausted states)
        → WalkCleans s states
    unfolding walk
    walk_cleans E zero s states g h e = elim (List-cases s.stack) [
      | inl empty ↦
          let is : s.states ≡ states = exhausted_inj (sym (simp (walk, empty)) ∙ e) in
          subst (WalkCleans s) is (empty-Clean s empty g.trail h, λ x m. m)
      | inr (top, below, at) ↦ absurd (fault_ok (sym (simp (walk, at)) ∙ e))
    ]
      where
        exhausted_inj :
            {a b : List (K × State)}
            → ◌≡◌ {A = Result E (Walk K)} (ok (exhausted a)) (ok (exhausted b))
            → a ≡ b
        exhausted_inj e = cc

        fault_ok : {a : Walk K} → ◌≡◌ {A = Result E (Walk K)} fault (ok a) → ⊥
        fault_ok e = cc
    walk_cleans E (suc fuel) s states g h e = elim (List-cases s.stack) [
      | inl empty ↦
          let is : s.states ≡ states = exhausted_inj (sym (simp (walk, empty)) ∙ e) in
          subst (WalkCleans s) is (empty-Clean s empty g.trail h, λ x m. m)
      | inr (top, below, at) ↦
          let entries =
            subst (All (λ e. BTreeMap.contains_key e.0 neighbours ≡ true)) at g.entries in
          let (outgoing, out) = BTreeMap.get_of_contains_key top.0 neighbours entries.0 in
          elim (advance_round neighbours sorted closed top.0 top.1 below s outgoing at out g) [
            | inl (cycle, is, good) ↦
                absurd (found_exhausted {c = cycle} (sym (simp (walk, at, out, is)) ∙ e))
            | inr (s', is, going, less) ↦
                let (complete, grows) =
                  advance_kept neighbours top.0 top.1 below s s' at entries.0
                    g.trail.positions_sorted h
                    (ap (λ t. advance (Option.get_or t []) top.0 top.1 below s) out ∙ is) in
                let (clean, grows') =
                  walk_cleans E fuel s' states going complete
                    (sym (simp (walk, at, out, is)) ∙ e) in
                (clean, λ x m. grows' x (grows x m))
          ]
    ]
      where
        exhausted_inj :
            {a b : List (K × State)}
            → ◌≡◌ {A = Result E (Walk K)} (ok (exhausted a)) (ok (exhausted b))
            → a ≡ b
        exhausted_inj e = cc

        found_exhausted :
            {c : List K} {b : List (K × State)}
            → ◌≡◌ {A = Result E (Walk K)} (ok (found c)) (ok (exhausted b))
            → ⊥
        found_exhausted e = cc

    contains_of_get :
        (x : K) (st : State) (m : List (K × State))
        → BTreeMap.get x m ≡ some st
        → BTreeMap.contains_key x m ≡ true
    contains_of_get x st m e = ground (arith, BTreeMap.get-none_iff x m, e)

    begin-Complete :
        (start : K) (states : List (K × State))
        → BTreeMap.contains_key start states ≡ false
        → Clean neighbours states
        → Complete neighbours (begin start states)
    unfolding begin BTreeMap.get BTreeMap.contains_key
    begin-Complete start states new h =
        let inserted = λ (x : K). BTreeMap.get-insert x start visiting states in
        record {
          finished = h.finished;
          ordered = h.ordered;
          listed = λ x d. elim (Bool-cases (same x start)) [
            | inl here ↦ absurd (visiting_done (ground (arith, inserted x, here, d)))
            | inr other ↦
                let before : BTreeMap.get x states ≡ some done =
                  ground (arith, inserted x, other, d) in
                h.listed x (contains_of_get x done states before)
          ];
          inside = h.inside;
          on_path = λ x v. elim (Bool-cases (same x start)) [
            | inl here ↦ ground (arith, here)
            | inr other ↦
                let before : BTreeMap.get x states ≡ some visiting =
                  ground (arith, inserted x, other, v) in
                absurd (h.unvisited x before)
          ];
          followed = (λ j y l. absurd (omega (arith, l)), tt);
        }
      where
        visiting_done : some visiting ≡ some done → ⊥
        visiting_done e = cc

    -- When no walk finds a cycle, the states are clean, and every start was seen.
    pub search_cleans :
        (E : Type 0) (starts : List K) (states : List (K × State))
        → All (λ x. BTreeMap.contains_key x neighbours ≡ true) starts
        → Clean neighbours states
        → search_from {E = E} (rounds neighbours) neighbours starts states ≡ ok none
        → (states' : List (K × State)) × Clean neighbours states'
          × Grows neighbours states states'
          × All (λ x. BTreeMap.contains_key x states' ≡ true) starts
    unfolding search_from begin
    search_cleans E [] states known h e = (states, h, λ x m. m, tt)
    search_cleans E (start ∷ starts) states known h e =
        elim (Bool-cases (BTreeMap.contains_key start states)) [
          | inl seen ↦
              let (states', clean, grows, all_seen) =
                search_cleans E starts states known.1 h (sym (simp (search_from, seen)) ∙ e) in
              (states', clean, grows, (grows start seen, all_seen))
          | inr new ↦
              let going = begin-Going neighbours sorted closed start states known.0 in
              let fits = measure-begin neighbours sorted closed start states known.0 new in
              elim (walk_ends neighbours sorted closed E (rounds neighbours) (begin start states)
                going fits) [
                  | inl (cycle, is, good) ↦
                      absurd (some_none {c = cycle} (sym (simp (search_from, new, is)) ∙ e))
                  | inr (states1, is) ↦
                      let (clean1, grows1) =
                        walk_cleans E (rounds neighbours) (begin start states) states1 going
                          (begin-Complete start states new h) is in
                      let (states', clean, grows, all_seen) =
                        search_cleans E starts states1 known.1 clean1
                          (sym (simp (search_from, new, is)) ∙ e) in
                      let inserted =
                        λ (x : K). BTreeMap.contains_key-insert x start visiting states in
                      (
                        states',
                        clean,
                        λ x m. grows x (grows1 x (ground (arith, inserted x, m))),
                        (
                          grows start
                              (grows1 start (ground (arith, inserted start, same_refl start))),
                          all_seen,
                        ),
                      )
                ]
        ]
      where
        some_none : {c : List K} → ◌≡◌ {A = Result E (Option (List K))} (ok (some c)) (ok none) → ⊥
        some_none e = cc

    -- Where every node of the search has an edge from another, the search does not end without a cycle.
    pub search_finds :
        (E : Type 0) (starts : List K)
        → All (λ x. BTreeMap.contains_key x neighbours ≡ true) starts
        → ((x : K) → BTreeMap.contains_key x neighbours ≡ true → Memᴰ x starts)
        → ((y : K) → Memᴰ y starts → (p : K) × Memᴰ p starts × Edge neighbours p y)
        → (x : K) → Memᴰ x starts
        → search_from {E = E} (rounds neighbours) neighbours starts [] ≡ ok none
        → ⊥
    unfolding BTreeMap.contains_key BTreeMap.get
    search_finds E starts known all source x m e =
        let nothing : Clean neighbours [] = record {
          finished = [];
          ordered = tt;
          listed = λ x m. cc;
          inside = λ x m. not_mem_nil m;
          unvisited = λ x v. cc;
        } in
        let (states, clean, _, seen) = search_cleans E starts [] known nothing e in
        let listed : (y : K) → Memᴰ y starts → Memᴰ y clean.finished = λ y my.
          clean.listed y (All-mem (λ x. BTreeMap.contains_key x states ≡ true) starts seen my) in
        no_source neighbours clean.finished clean.ordered
          (λ y my.
            let (p, mp, edge) = source y (all y (clean.inside y my)) in (p, listed p mp, edge))
          x (listed x m)
