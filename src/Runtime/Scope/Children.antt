-- ===== src/Runtime/Scope/Children.antt =====
-- What the loops of crates/kernox-runtime/src/scope.rs do to the registered children and to the states.
use kernox.Prelude.{
  ℕ, ◌≡◌, refl, inl, inr, ◌&&◌, not, List, [], ◌∷◌, ◌++◌, arith, if◌then◌else◌, Option-cases, true,
  false, ◌+◌, length, All, Bool-cases, ◌==◌, ==_iff, ap, subst,
}
use mathlib.Core.Option
use kernox.Order.{Lt, same, same_iff, same_of_Lt}
use kernox.Order.Derive.{nat_ord}
use kernox.Collections.BTreeSet
use kernox.Collections.BTreeMap
use kernox.Runtime.Scope.{
  Scope, ScopeState, opened, closing, closed, begin_state, finish_state, begin_children,
  retain_others, finish_child, finish_children,
}

begin_state_twice : (st : ScopeState) → begin_state (begin_state st) ≡ begin_state st
begin_state_twice opened = refl
begin_state_twice closing = refl
begin_state_twice closed = refl

pub contains-retain_others :
    (j c : ℕ) (ds : List ℕ)
    → BTreeSet.contains j (retain_others c ds) ≡ (BTreeSet.contains j ds && not (same j c))
unfolding retain_others
contains-retain_others j c [] = refl
contains-retain_others j c (d ∷ ds) =
    ground (arith, contains-retain_others j c ds, same_iff j d, same_iff j c, same_iff d c)

pub get-begin_children :
    (j : ℕ) (cs : List ℕ) (m : List (ℕ × ScopeState))
    → BTreeMap.get j (begin_children cs m) ≡ (
        if BTreeSet.contains j cs
        then Option.map begin_state (BTreeMap.get j m)
        else BTreeMap.get j m)
unfolding begin_children
get-begin_children j [] m = refl
get-begin_children j (c ∷ cs) m =
    let later = get-begin_children j cs (BTreeMap.modify c begin_state m) in
    let first = BTreeMap.get-modify j c begin_state m in
    elim (Option-cases (BTreeMap.get j m)) [
      | inl e ↦ ground (arith, later, first, e)
      | inr (st, e) ↦ ground (arith, later, first, e, begin_state_twice st)
    ]

pub get-finish_children :
    (j : ℕ) (cs : List ℕ) (s : Scope)
    → BTreeMap.get j (finish_children cs s).invocations ≡ (
        if BTreeSet.contains j cs
        then Option.map finish_state (BTreeMap.get j s.invocations)
        else BTreeMap.get j s.invocations)
unfolding finish_children finish_child
get-finish_children j [] s = refl
get-finish_children j (c ∷ cs) s =
    let later = get-finish_children j cs (finish_child c s) in
    let first = BTreeMap.get-modify j c finish_state s.invocations in
    elim (Option-cases (BTreeMap.get j s.invocations)) [
      | inl e ↦ ground (arith, later, first, e)
      | inr (st, e) ↦ ground (arith, later, first, e)
    ]

pub contains-finish_children :
    (j : ℕ) (cs : List ℕ) (s : Scope)
    → BTreeSet.contains j (finish_children cs s).children
      ≡ (BTreeSet.contains j s.children && not (BTreeSet.contains j cs))
unfolding finish_children finish_child
contains-finish_children j [] s = ground arith
contains-finish_children j (c ∷ cs) s =
    ground (
      arith,
      contains-finish_children j cs (finish_child c s),
      contains-retain_others j c s.children,
    )

contains_before : (c : ℕ) (cs : List ℕ) → All (Lt c) cs → BTreeSet.contains c cs ≡ false
contains_before c [] h = refl
contains_before c (d ∷ ds) h = ground (arith, same_of_Lt c d h.0, contains_before c ds h.1)

retain_absent : (c : ℕ) (cs : List ℕ) → BTreeSet.contains c cs ≡ false → retain_others c cs ≡ cs
unfolding retain_others
retain_absent c [] e = refl
retain_absent c (d ∷ ds) e = ground (arith, retain_absent c ds, same_iff c d)

-- One child less is left of distinct children.
pub length-retain_others :
    (c : ℕ) (cs : List ℕ)
    → BTreeSet.IsSorted cs
    → BTreeSet.contains c cs ≡ true
    → length (retain_others c cs) + 1 ≡ length cs
unfolding retain_others
length-retain_others c [] h e = absurd (cc)
length-retain_others c (d ∷ ds) h e = elim (Bool-cases (d == c)) [
  | inl eq ↦
      let at : d ≡ c = (==_iff d c).0 eq in
      let absent = contains_before d ds h.0 in
      ground (
        arith,
        eq,
        at,
        ap length (retain_absent c ds (subst (λ x. BTreeSet.contains x ds ≡ false) at absent)),
      )
  | inr ne ↦ ground (arith, ne, length-retain_others c ds h.1, same_iff c d, ==_iff d c)
]

pub All-retain_others {κ} :
    (P : ℕ → Type κ) (c : ℕ) (cs : List ℕ) → All P cs → All P (retain_others c cs)
unfolding retain_others
All-retain_others P c [] h = tt
All-retain_others P c (d ∷ ds) h = elim (Bool-cases (d == c)) [
  | inl eq ↦ rw eq (All-retain_others P c ds h.1)
  | inr ne ↦ rw ne (h.0, All-retain_others P c ds h.1)
]

pub retain_others-IsSorted :
    (c : ℕ) (cs : List ℕ) → BTreeSet.IsSorted cs → BTreeSet.IsSorted (retain_others c cs)
unfolding retain_others
retain_others-IsSorted c [] h = tt
retain_others-IsSorted c (d ∷ ds) h = elim (Bool-cases (d == c)) [
  | inl eq ↦ rw eq (retain_others-IsSorted c ds h.1)
  | inr ne ↦ rw ne (All-retain_others (Lt d) c ds h.0, retain_others-IsSorted c ds h.1)
]

-- The child that was added last leaves the others.
pub retain_last :
    (c : ℕ) (cs : List ℕ) → BTreeSet.contains c cs ≡ false → retain_others c (cs ++ c ∷ []) ≡ cs
unfolding retain_others
retain_last c [] e = ground (arith, ==_iff c c)
retain_last c (d ∷ ds) e = ground (arith, retain_last c ds, same_iff c d, ==_iff d c)
