-- ===== src/Runtime/Scope/Closing.antt =====
-- The scopes that the operations of crates/kernox-runtime/src/scope.rs can reach.
use kernox.Prelude.{
  ℕ, ◌≡◌, subst, ap, refl, ◌⊎◌, inl, inr, true, false, List, [], ◌∷◌, some, ok, err, arith,
  Bool-cases, Option-cases,
}
use kernox.Order.{same_refl}
use kernox.Order.Derive.{nat_ord}
use kernox.Collections.BTreeSet
use kernox.Collections.BTreeMap
use kernox.Runtime.Scope.{
  Scope, ScopeState, opened, closing, closed, is_open, application, child, with_child,
  scope_closing, begin_state, finish_state, begin_children, begin_close, finish_child,
  finish_children, finish_close, begin_child, drop_invocation,
}
use kernox.Runtime.Scope.Children.{
  contains-retain_others, get-begin_children, get-finish_children, contains-finish_children,
}

-- An invocation scope that has left its parent is closed, a scope that is not open has no open
-- invocation, and a closed scope has no child.
record Coherent (s : Scope) : Type 0 where
  registered :
      (j : ℕ) (st : ScopeState)
      → BTreeMap.get j s.invocations ≡ some st
      → BTreeSet.contains j s.children ≡ false
      → st ≡ closed
  ended :
      (j : ℕ) (st : ScopeState)
      → is_open s.state ≡ false
      → BTreeMap.get j s.invocations ≡ some st
      → is_open st ≡ false
  emptied : (j : ℕ) → s.state ≡ closed → BTreeSet.contains j s.children ≡ false

-- The scopes that the operations reach from a new application scope.
pub data Reachable : Scope → Type 0 where
  reach_application : (namespace : ℕ) → Reachable (application namespace)
  reach_child : (s s' : Scope) (c : ℕ) → Reachable s → child s ≡ ok (c, s') → Reachable s'
  reach_drop : (s : Scope) (c : ℕ) → Reachable s → Reachable (drop_invocation c s)
  reach_begin : (s : Scope) → Reachable s → Reachable (begin_close s)
  reach_finish : (s : Scope) → Reachable s → Reachable (finish_close s)

application-Coherent : (namespace : ℕ) → Coherent (application namespace)
unfolding application BTreeMap.get
application-Coherent namespace = record {
  registered = λ j st e h. cc;
  ended = λ j st h e. cc;
  emptied = λ j h. refl;
}

pub ScopeState-cases : (st : ScopeState) → (st ≡ opened) ⊎ (st ≡ closing) ⊎ (st ≡ closed)
ScopeState-cases opened = inl refl
ScopeState-cases closing = inr (inl refl)
ScopeState-cases closed = inr (inr refl)

with_child-Coherent : (s : Scope) → Coherent s → is_open s.state ≡ true → Coherent (with_child s)
with_child-Coherent s h at = record {
  registered = λ j st e off. ground (
    arith,
    BTreeMap.get-insert j s.next_id opened s.invocations,
    BTreeSet.contains-append j s.children (s.next_id ∷ []),
    h.registered j st,
  );
  ended = λ j st off e. absurd (ground arith);
  emptied = λ j e. absurd (ground arith);
}

child-Coherent : (s s' : Scope) (c : ℕ) → Coherent s → child s ≡ ok (c, s') → Coherent s'
unfolding child
child-Coherent s s' c h e = elim (Bool-cases (is_open s.state)) [
  | inl at ↦
      let made : ok (s.next_id, with_child s) ≡ ok (c, s') = rw at at e in
      let is : with_child s ≡ s' = cc in subst Coherent is (with_child-Coherent s h at)
  | inr off ↦ absurd (ground arith)
]

drop_invocation-Coherent : (s : Scope) (c : ℕ) → Coherent s → Coherent (drop_invocation c s)
unfolding drop_invocation finish_child begin_child
drop_invocation-Coherent s c h = record {
  registered = λ j st e off. ground (
    arith,
    BTreeMap.get-modify j c finish_state (BTreeMap.modify c begin_state s.invocations),
    BTreeMap.get-modify j c begin_state s.invocations,
    contains-retain_others j c s.children,
    h.registered j st,
    Option-cases (BTreeMap.get j s.invocations),
  );
  ended = λ j st off e. ground (
    arith,
    BTreeMap.get-modify j c finish_state (BTreeMap.modify c begin_state s.invocations),
    BTreeMap.get-modify j c begin_state s.invocations,
    h.ended j st,
    Option-cases (BTreeMap.get j s.invocations),
  );
  emptied = λ j e. ground (arith, contains-retain_others j c s.children, h.emptied j);
}

begin_state_ended : (st : ScopeState) → is_open (begin_state st) ≡ false
begin_state_ended opened = refl
begin_state_ended closing = refl
begin_state_ended closed = refl

-- What an invocation is once every child has begun to close, and once every child is closed.
begun :
    (s : Scope)
    → Coherent s
    → (j : ℕ) (st : ScopeState) → BTreeMap.get j (begin_children s.children s.invocations) ≡ some st
    → is_open st ≡ false
begun s h j st e =
    let now = get-begin_children j s.children s.invocations in
    elim (Option-cases (BTreeMap.get j s.invocations)) [
      | inl none_there ↦ absurd (ground (arith, now, none_there))
      | inr (old, there) ↦ elim (Bool-cases (BTreeSet.contains j s.children)) [
        | inl at ↦
            let is : begin_state old ≡ st = ground (arith, now, there, at) in
            subst (λ t. is_open t ≡ false) is (begin_state_ended old)
        | inr off ↦ ground (arith, now, there, off, h.registered j old there off)
      ]
    ]

finished :
    (s : Scope)
    → Coherent s
    → (j : ℕ) (st : ScopeState)
    → BTreeMap.get j (finish_children s.children s).invocations ≡ some st
    → st ≡ closed
finished s h j st e =
    let now = get-finish_children j s.children s in
    elim (Option-cases (BTreeMap.get j s.invocations)) [
      | inl none_there ↦ absurd (ground (arith, now, none_there))
      | inr (old, there) ↦ elim (Bool-cases (BTreeSet.contains j s.children)) [
        | inl at ↦ ground (arith, now, there, at)
        | inr off ↦ ground (arith, now, there, off, h.registered j old there off)
      ]
    ]

begin_close-Coherent : (s : Scope) → Coherent s → Coherent (begin_close s)
unfolding begin_close
begin_close-Coherent s h = elim (ScopeState-cases s.state) [
  | inl at ↦ rw (at, begin_close) (closing_from s h)
  | inr (inl at) ↦ rw (at, begin_close) (closing_from s h)
  | inr (inr at) ↦ rw (at, begin_close) h
]
  where
    closing_from :
        (s : Scope)
        → Coherent s
        → Coherent
            (record s { state = closing; invocations = begin_children s.children s.invocations })
    closing_from s h = record {
      registered = λ j st e off.
          ground (arith, get-begin_children j s.children s.invocations, h.registered j st);
      ended = λ j st off e. begun s h j st e;
      emptied = λ j e. absurd (cc);
    }

finish_close-Coherent : (s : Scope) → Coherent s → Coherent (finish_close s)
unfolding finish_close
finish_close-Coherent s h = record {
  registered = λ j st e off. finished s h j st e;
  ended = λ j st off e. ap is_open (finished s h j st e);
  emptied = λ j e. ground (arith, contains-finish_children j s.children s);
}

Reachable-Coherent : (s : Scope) → Reachable s → Coherent s
Reachable-Coherent s (reach_application namespace) = application-Coherent namespace
Reachable-Coherent s (reach_child s0 s' c r e) = child-Coherent s0 s' c (Reachable-Coherent s0 r) e
Reachable-Coherent s (reach_drop s0 c r) = drop_invocation-Coherent s0 c (Reachable-Coherent s0 r)
Reachable-Coherent s (reach_begin s0 r) = begin_close-Coherent s0 (Reachable-Coherent s0 r)
Reachable-Coherent s (reach_finish s0 r) = finish_close-Coherent s0 (Reachable-Coherent s0 r)

no_members : (cs : List ℕ) → ((j : ℕ) → BTreeSet.contains j cs ≡ false) → cs ≡ []
no_members [] h = refl
no_members (c ∷ cs) h = absurd (ground (arith, h c, same_refl c))

-- In every scope that the operations reach: once it is not open, it admits no child and no invocation
-- is open; once it is closed, every invocation is closed and no child is registered.
pub closing_sound :
    (s : Scope)
    → Reachable s
    → (is_open s.state ≡ false
        → (child s ≡ err scope_closing)
          × ((j : ℕ) (st : ScopeState)
              → BTreeMap.get j s.invocations ≡ some st
              → is_open st ≡ false))
      × (s.state ≡ closed
          → (s.children ≡ [])
            × ((j : ℕ) (st : ScopeState) → BTreeMap.get j s.invocations ≡ some st → st ≡ closed))
unfolding child
closing_sound s r =
    let h = Reachable-Coherent s r in
    (
      λ off. (rw (off, child) refl, λ j st e. h.ended j st off e),
      λ at.
          let none_left : (j : ℕ) → BTreeSet.contains j s.children ≡ false = λ j. h.emptied j at in
          (no_members s.children none_left, λ j st e. h.registered j st e (none_left j)),
    )
