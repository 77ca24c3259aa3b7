-- ===== src/Graph/Cycle/Fuel.antt =====
-- How much of the search `find_cycle` (crates/kernox-core/src/graph.rs) is left: one round for each edge that the
-- nodes on the stack have not followed and for each end of such a node, and the same for the nodes not seen.
use kernox.Prelude.{
  ℕ, zero, suc, ◌+◌, ◌-◌, ◌≤◌, ◌<◌, ◌≡◌, refl, sym, subst, ap, ◌∙◌, true, false, ◌||◌, List, [],
  ◌∷◌, some, length, get_elem?, arith, if◌then◌else◌, Bool-cases, inl, inr, All,
}
use kernox.Order.{Ord, Lt, same, same_iff, same_of_Lt}
use kernox.Collections.BTreeMap
use kernox.Graph.Cycle.{State, rounds}

pub get_elem?-bound :
    {A : Type 0} (xs : List A) (i : ℕ) (x : A) → get_elem? xs i ≡ some x → i < length xs
get_elem?-bound [] i x e = absurd (cc)
get_elem?-bound (y ∷ ys) zero x e = omega arith
get_elem?-bound (y ∷ ys) (suc i) x e = omega (arith, get_elem?-bound ys i x e)

module _ {K : Type 0} ⦃o : Ord K⦄ where
  abbrev pub pending : List (K × List K) → List (K × ℕ) → ℕ
  pending neighbours [] = 0
  pending neighbours ((t, i) ∷ below) =
      suc (length (BTreeMap.get_or t [] neighbours) - i) + pending neighbours below

  abbrev pub unseen : List (K × List K) → List (K × State) → ℕ
  unseen [] states = 0
  unseen ((n, outgoing) ∷ m) states =
      (if BTreeMap.contains_key n states then 0 else suc (length outgoing)) + unseen m states

  pub unseen_bound :
      (m : List (K × List K)) (states : List (K × State)) → unseen m states ≤ rounds m
  unseen_bound [] states = omega arith
  unseen_bound ((n, outgoing) ∷ m) states = ground (arith, unseen_bound m states)

  -- To see a node takes nothing of the others away.
  pub unseen-insert_le :
      (k : K) (st : State) (m : List (K × List K)) (states : List (K × State))
      → unseen m (BTreeMap.insert k st states) ≤ unseen m states
  unseen-insert_le k st [] states = omega arith
  unseen-insert_le k st ((n, outgoing) ∷ m) states =
      ground (arith, unseen-insert_le k st m states, BTreeMap.contains_key-insert n k st states)

  unseen_other :
      (k : K) (st : State) (m : List (K × List K)) (states : List (K × State))
      → All (Lt k) (BTreeMap.keys m)
      → unseen m (BTreeMap.insert k st states) ≡ unseen m states
  unseen_other k st [] states h = refl
  unseen_other k st ((n, outgoing) ∷ m) states h = ground (
    arith,
    unseen_other k st m states h.1,
    BTreeMap.contains_key-insert n k st states,
    same_of_Lt k n h.0,
    same_iff n k,
    same_iff k n,
  )

  -- A node that is seen for the first time brings its rounds to the stack.
  pub unseen-insert :
      (k : K) (st : State) (m : List (K × List K)) (states : List (K × State))
      → BTreeMap.IsSorted m
      → BTreeMap.contains_key k m ≡ true
      → BTreeMap.contains_key k states ≡ false
      → unseen m (BTreeMap.insert k st states) + suc (length (BTreeMap.get_or k [] m))
        ≡ unseen m states
  unfolding BTreeMap.get BTreeMap.contains_key
  unseen-insert k st [] states h e f = absurd (cc)
  unseen-insert k st ((n, outgoing) ∷ m) states h e f = elim (Bool-cases (same k n)) [
    | inl here ↦
        let at : k ≡ n = (same_iff k n).0 here in
        let others =
          unseen_other k st m states (subst (λ x. All (Lt x) (BTreeMap.keys m)) (sym at) h.0) in
        let before : BTreeMap.contains_key n states ≡ false =
          subst (λ x. BTreeMap.contains_key x states ≡ false) at f in
        let after : BTreeMap.contains_key n (BTreeMap.insert k st states) ≡ true =
          BTreeMap.contains_key-insert n k st states
          ∙ ap (λ b. b || BTreeMap.contains_key n states) ((same_iff n k).1 (sym at)) in
        rw (here, before, after) (omega (arith, others))
    | inr other ↦
        let there : BTreeMap.contains_key k m ≡ true = ground (arith, other, e) in
        let later = unseen-insert k st m states h.1 there f in
        let apart : same n k ≡ false = ground (arith, other, same_iff k n, same_iff n k) in
        let same_state : BTreeMap.contains_key n (BTreeMap.insert k st states)
            ≡ BTreeMap.contains_key n states =
          BTreeMap.contains_key-insert n k st states
          ∙ ap (λ b. b || BTreeMap.contains_key n states) apart in
        rw (other, same_state) (omega (arith, later))
  ]
