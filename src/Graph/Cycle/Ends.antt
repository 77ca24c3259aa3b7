-- ===== src/Graph/Cycle/Ends.antt =====
-- `find_cycle` (crates/kernox-core/src/graph.rs) ends without a panic, and a cycle that it returns from the search
-- is one.
use kernox.Prelude.{
  ℕ, zero, suc, ◌+◌, ◌-◌, ◌≤◌, ◌<◌, ◌≡◌, refl, sym, subst, ap, ◌∙◌, ◌⊎◌, inl, inr, true, false,
  List, [], ◌∷◌, ◌++◌, Memᴰ, mem_tail, Option, none, some, length, get_elem?, drop, leb,
  length-append, arith, All, Bool-cases, Option-cases, List-cases, Result, ok,
}
use mathlib.Core.Option
use kernox.Order.{Ord, same, same_iff}
use kernox.Collections.BTreeMap
use kernox.Graph.Cycle.{
  State, visiting, done, Search, Walk, found, exhausted, Round, continue, return, finish, descend,
  follow, advance, walk, begin, search_from, rounds,
}
use kernox.Graph.Cycle.Trail.{
  Holds, Edge, IsCycle, Trail, finish-Trail, descend-Trail, return-IsCycle,
}
use kernox.Graph.Cycle.Fuel.{
  pending, unseen, unseen_bound, unseen-insert_le, unseen-insert, get_elem?-bound,
}

pub mem_of_get_elem? :
    {A : Type 0} (xs : List A) (i : ℕ) (x : A) → get_elem? xs i ≡ some x → Memᴰ x xs
mem_of_get_elem? [] i x e = absurd (cc)
mem_of_get_elem? (y ∷ ys) zero x e = Memᴰ.head (cc)
mem_of_get_elem? (y ∷ ys) (suc i) x e = mem_tail y (mem_of_get_elem? ys i x e)

pub State-cases : (st : State) → (st ≡ visiting) ⊎ (st ≡ done)
State-cases visiting = inl refl
State-cases done = inr refl

module _ {K : Type 0} ⦃o : Ord K⦄ where
  -- How the edge to `next` is followed.
  follow_cases :
      (next : K) (s : Search K)
      → ((position : ℕ) → BTreeMap.get next s.positions ≡ some position → position ≤ length s.path)
      → ((position : ℕ) × (BTreeMap.get next s.positions ≡ some position)
          × (follow next s ≡ return (drop position s.path ++ next ∷ [])))
        ⊎ ((follow next s ≡ continue s)
            ⊎ ((BTreeMap.get next s.states ≡ none) × (follow next s ≡ continue (descend next s))))
  unfolding follow
  follow_cases next s inside = elim (Option-cases (BTreeMap.get next s.states)) [
    | inl new ↦ inr (inr (new, simp (follow, new)))
    | inr (st, old) ↦ elim (State-cases st) [
      | inr ended ↦ inr (inl (simp (follow, old, ended)))
      | inl open_node ↦ elim (Option-cases (BTreeMap.get next s.positions)) [
        | inl off ↦ inr (inl (simp (follow, old, open_node, off)))
        | inr (position, on) ↦
            let fits : leb position (length s.path) ≡ true = ground (arith, inside position on) in
            inl (position, on, simp (follow, old, open_node, on, fits))
      ]
    ]
  ]

  module _ (neighbours : List (K × List K)) (sorted : BTreeMap.IsSorted neighbours)
      (closed : (x y : K) → Edge neighbours x y → BTreeMap.contains_key y neighbours ≡ true) where
    abbrev pub measure : Search K → ℕ
    measure s = pending neighbours s.stack + unseen neighbours s.states

    -- a search in progress
    pub record Going (s : Search K) : Type 0 where
      pub trail : Trail neighbours s
      pub entries : All (λ e. BTreeMap.contains_key e.0 neighbours ≡ true) s.stack

    -- One round returns a cycle, or goes on with less to do.
    abbrev pub Rounded : Search K → Round K → Type 0
    Rounded s r =
        ((cycle : List K) × (r ≡ return cycle) × IsCycle neighbours cycle)
        ⊎ ((s' : Search K) × (r ≡ continue s') × Going s' × (measure s' < measure s))

    follow_round :
        (node next : K) (i : ℕ) (below : List (K × ℕ)) (s : Search K) (outgoing : List K)
        → s.stack ≡ (node, i) ∷ below
        → pending neighbours s.stack ≡ suc (length outgoing - i) + pending neighbours below
        → BTreeMap.get node neighbours ≡ some outgoing
        → i < length outgoing
        → Edge neighbours node next
        → Going s
        → Rounded s (follow next (record s { stack = (node, suc i) ∷ below }))
    unfolding descend BTreeMap.contains_key
    follow_round node next i below s outgoing at before out inside edge h =
        let s1 : Search K = record s { stack = (node, suc i) ∷ below } in
        let entries = subst (All (λ e. BTreeMap.contains_key e.0 neighbours ≡ true)) at h.entries in
        let now : pending neighbours s1.stack
            ≡ suc (length outgoing - suc i) + pending neighbours below =
          ap (λ g. suc (length (Option.get_or g []) - suc i) + pending neighbours below) out in
        let in_path : (position : ℕ)
            → BTreeMap.get next s.positions ≡ some position
            → position ≤ length s.path =
          λ position got.
            let (before, after, split, count) = h.trail.placed next position got in
            ground (arith, count, ap length split, length-append before (next ∷ after)) in
        elim (follow_cases next s1 in_path) [
          | inl (position, got, is) ↦ inl (
            drop position s.path ++ next ∷ [],
            is,
            return-IsCycle neighbours node next i position below s at edge got h.trail,
          )
          | inr (inl is) ↦ inr (
            s1,
            is,
            record {
              trail = record {
                chain = h.trail.chain;
                holds = subst (λ st. Holds st s.path) at h.trail.holds;
                positions_sorted = h.trail.positions_sorted;
                placed = h.trail.placed;
              };
              entries = entries;
            },
            ground (arith, before, now),
          )
          | inr (inr (new, is)) ↦
              let unknown = (BTreeMap.get-none_iff next s.states).0 new in
              let known = closed node next edge in
              inr (
                descend next s1,
                is,
                record {
                  trail = descend-Trail neighbours node next i (suc i) below s at edge h.trail;
                  entries = (known, entries);
                },
                ground (
                  arith,
                  before,
                  now,
                  unseen-insert next visiting neighbours s.states sorted known unknown,
                ),
              )
        ]

    pub advance_round :
        (node : K) (i : ℕ) (below : List (K × ℕ)) (s : Search K) (outgoing : List K)
        → s.stack ≡ (node, i) ∷ below
        → BTreeMap.get node neighbours ≡ some outgoing
        → Going s
        → Rounded s (advance outgoing node i below s)
    unfolding advance finish
    advance_round node i below s outgoing at out h =
        let entries = subst (All (λ e. BTreeMap.contains_key e.0 neighbours ≡ true)) at h.entries in
        let before : pending neighbours s.stack
            ≡ suc (length outgoing - i) + pending neighbours below =
          ap (pending neighbours) at
          ∙ ap (λ g. suc (length (Option.get_or g []) - i) + pending neighbours below) out in
        elim (Option-cases (get_elem? outgoing i)) [
          | inl last ↦ inr (
            finish node below s,
            simp (advance, last),
            record {
              trail = finish-Trail neighbours node i below s at h.trail;
              entries = entries.1;
            },
            ground (arith, before, unseen-insert_le node done neighbours s.states),
          )
          | inr (next, at_i) ↦
              let inside = get_elem?-bound outgoing i next at_i in
              let edge : Edge neighbours node next =
                subst (λ g. Memᴰ next (Option.get_or g [])) (sym out)
                  (mem_of_get_elem? outgoing i next at_i) in
              subst (Rounded s) (sym (simp (advance, at_i)))
                (follow_round node next i below s outgoing at before out inside edge h)
        ]

    abbrev pub WalkEnds : {E : Type 0} → Result E (Walk K) → Type 0
    WalkEnds w =
        ((cycle : List K) × (w ≡ ok (found cycle)) × IsCycle neighbours cycle)
        ⊎ ((states : List (K × State)) × (w ≡ ok (exhausted states)))

    -- With as much fuel as is left to do, the loop over the stack ends.
    pub walk_ends :
        (E : Type 0) (fuel : ℕ) (s : Search K)
        → Going s
        → measure s ≤ fuel
        → WalkEnds {E = E} (walk fuel neighbours s)
    unfolding walk
    walk_ends E zero s h l = elim (List-cases s.stack) [
      | inl empty ↦ inr (s.states, simp (walk, empty))
      | inr (top, below, at) ↦ absurd (ground (arith, ap (pending neighbours) at))
    ]
    walk_ends E (suc fuel) s h l = elim (List-cases s.stack) [
      | inl empty ↦ inr (s.states, simp (walk, empty))
      | inr (top, below, at) ↦
          let entries =
            subst (All (λ e. BTreeMap.contains_key e.0 neighbours ≡ true)) at h.entries in
          let (outgoing, out) = BTreeMap.get_of_contains_key top.0 neighbours entries.0 in
          elim (advance_round top.0 top.1 below s outgoing at out h) [
            | inl (cycle, is, good) ↦ inl (cycle, simp (walk, at, out, is), good)
            | inr (s', is, going, less) ↦
                subst (WalkEnds {E = E}) (sym (simp (walk, at, out, is)))
                  (walk_ends E fuel s' going (omega (arith, less, l)))
          ]
    ]

    pub begin-Going :
        (start : K) (states : List (K × State))
        → BTreeMap.contains_key start neighbours ≡ true
        → Going (begin start states)
    unfolding begin BTreeMap.get
    begin-Going start states known = record {
      trail = record {
        chain = tt;
        holds = ([], refl, refl);
        positions_sorted = (tt, tt);
        placed = λ x i got. elim (Bool-cases (same x start)) [
          | inl here ↦
              let count : 0 ≡ i = ground (arith, here, got) in
              ([], [], ap (λ y. y ∷ []) (sym ((same_iff x start).0 here)), count)
          | inr other ↦ absurd (ground (arith, other, got))
        ];
      };
      entries = (known, tt);
    }

    pub measure-begin :
        (start : K) (states : List (K × State))
        → BTreeMap.contains_key start neighbours ≡ true
        → BTreeMap.contains_key start states ≡ false
        → measure (begin start states) ≤ rounds neighbours
    unfolding begin
    measure-begin start states known new = ground (
      arith,
      unseen-insert start visiting neighbours states sorted known new,
      unseen_bound neighbours states,
    )

    abbrev SearchEnds : {E : Type 0} → Result E (Option (List K)) → Type 0
    SearchEnds r =
        ((cycle : List K) × (r ≡ ok (some cycle)) × IsCycle neighbours cycle) ⊎ (r ≡ ok none)

    pub search_ends :
        (E : Type 0) (starts : List K) (states : List (K × State))
        → All (λ x. BTreeMap.contains_key x neighbours ≡ true) starts
        → SearchEnds {E = E} (search_from (rounds neighbours) neighbours starts states)
    unfolding search_from
    search_ends E [] states h = inr refl
    search_ends E (start ∷ starts) states h =
        elim (Bool-cases (BTreeMap.contains_key start states)) [
          | inl seen ↦
              subst (SearchEnds {E = E}) (sym (simp (search_from, seen)))
                (search_ends E starts states h.1)
          | inr new ↦
              elim (walk_ends E (rounds neighbours) (begin start states)
                (begin-Going start states h.0) (measure-begin start states h.0 new)) [
                  | inl (cycle, is, good) ↦ inl (cycle, simp (search_from, new, is), good)
                  | inr (states', is) ↦
                      subst (SearchEnds {E = E}) (sym (simp (search_from, new, is)))
                        (search_ends E starts states' h.1)
                ]
        ]
