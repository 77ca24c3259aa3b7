-- ===== src/Runtime/Scope.antt =====
-- Scopes (crates/kernox-runtime/src/scope.rs and the guards of app.rs): the application scope and the
-- invocation scopes below it. Only `RunningApp::invocation_scope` opens a child, so the tree has two
-- levels. `invocations` holds the state of every invocation scope by its sequence number, and
-- `children` the ones that are registered with the application scope.
pub mod Children
pub mod Closing
use kernox.Prelude.{
  ℕ, suc, ◌+◌, ◌^◌, ◌%◌, Bool, true, false, not, List, [], ◌∷◌, ◌++◌, Option, none, some, ◌==◌,
  if◌then◌else◌, Result, ok, err,
}
use kernox.Order.Derive.{nat_ord}
use kernox.Collections.BTreeMap

pub record ScopeId : Type 0 where
  pub namespace : ℕ
  sequence : ℕ

pub data ScopeState : Type 0 where
  opened closing closed : ScopeState

pub data ScopeError : Type 0 where
  scope_closing : ScopeError

pub record Scope : Type 0 where
  pub namespace : ℕ
  pub state : ScopeState
  pub next_id : ℕ
  pub children : List ℕ
  pub invocations : List (ℕ × ScopeState)

abbrev pub is_open : ScopeState → Bool
is_open opened = true
is_open closing = false
is_open closed = false

-- the identity of the application scope
abbrev pub application_id : Scope → ScopeId
application_id s = record { namespace = s.namespace; sequence = 0 }

-- `view.is_closing()`
abbrev pub is_closing : Scope → Bool
is_closing s = not (is_open s.state)

-- `Scope::application`, where the counter of the process supplies the namespace
unfoldable pub application : ℕ → Scope
application namespace = record {
  namespace = namespace;
  state = opened;
  next_id = 1;
  children = [];
  invocations = [];
}

-- The new child of an open scope. The counter is a 64-bit integer, so `fetch_add` wraps.
abbrev pub with_child : Scope → Scope
with_child s = record s {
  next_id = (s.next_id + 1) % 2 ^ 64;
  children = s.children ++ s.next_id ∷ [];
  invocations = BTreeMap.insert s.next_id opened s.invocations;
}

unfoldable pub child : Scope → Result ScopeError (ℕ × Scope)
child s = if is_open s.state then ok (s.next_id, with_child s) else err scope_closing

-- `begin_close` of a scope in a given state
abbrev pub begin_state : ScopeState → ScopeState
begin_state opened = closing
begin_state closing = closing
begin_state closed = closed

abbrev pub finish_state : ScopeState → ScopeState
finish_state s = closed

-- `begin_close` of every registered child
unfoldable pub begin_children : List ℕ → List (ℕ × ScopeState) → List (ℕ × ScopeState)
begin_children [] invocations = invocations
begin_children (c ∷ cs) invocations = begin_children cs (BTreeMap.modify c begin_state invocations)

-- `begin_close` of the application scope
unfoldable pub begin_close : Scope → Scope
unfolding begin_children
begin_close s = elim s.state [
  | closed ↦ s
  | _ ↦ record s { state = closing; invocations = begin_children s.children s.invocations }
]

-- `children.retain(|child| child.id != id)`
unfoldable pub retain_others : ℕ → List ℕ → List ℕ
retain_others c [] = []
retain_others c (d ∷ ds) = if d == c then retain_others c ds else d ∷ retain_others c ds

-- `finish_close` of an invocation scope, which leaves its parent
unfoldable pub finish_child : ℕ → Scope → Scope
unfolding retain_others
finish_child c s = record s {
  children = retain_others c s.children;
  invocations = BTreeMap.modify c finish_state s.invocations;
}

unfoldable pub finish_children : List ℕ → Scope → Scope
unfolding finish_child
finish_children [] s = s
finish_children (c ∷ cs) s = finish_children cs (finish_child c s)

-- `finish_close` of the application scope
unfoldable pub finish_close : Scope → Scope
unfolding finish_children
finish_close s = record (finish_children s.children s) { state = closed }

-- `begin_close` of an invocation scope, which has no children
unfoldable pub begin_child : ℕ → Scope → Scope
begin_child c s = record s { invocations = BTreeMap.modify c begin_state s.invocations }

-- The guard `InvocationScope` is dropped.
unfoldable pub drop_invocation : ℕ → Scope → Scope
unfolding begin_child finish_child
drop_invocation c s = finish_child c (begin_child c s)
