-- ===== src/Runtime/Access/Granted.antt =====
-- What a plugin gets from its typed access (crates/kernox-runtime/src/capability.rs) in a resolved graph.
use kernox.Collections.BTreeMap
use kernox.Prelude.{
  ◌==◌, ◌++◌, Bool-cases, Option, none, some, sym, subst, ◌≡◌, refl, ap, ◌⊎◌, inl, inr, ◌≤◌, Bool,
  List, [], ◌∷◌, Memᴰ, length, All, Result, ok, err, arith, Option-cases,
}
use kernox.Order.Derive.{pair_ord}
use kernox.Id.{Bytes, PluginId, plugin_id_ord, capability_id_ord}
use kernox.Descriptor.{RequirementCardinality, exactly_one, zero_or_one, zero_or_more, one_or_more}
use kernox.Descriptor.Valid.{IsValid}
use kernox.Graph.{CompositionSpec, ResolvedRequirement}
use kernox.Graph.Requirement
use kernox.Graph.Requirement.{requirement_iff}
use kernox.Graph.Select.Correct.{Fits}
use kernox.Graph.Resolve.{resolve}
use kernox.Graph.Resolve.Keys.{requirements_ascend}
use kernox.Graph.Resolve.Fitting.{requirements_fit}
use kernox.Runtime.Provisions.{
  AccessError, Provision, missing_provision, mismatch, open_provision, Marker, CapabilityContract,
  access_undeclared, contract_of, lookup,
}
use kernox.Runtime.Rollback.{InitializationContext}
use kernox.Runtime.Access.{
  requirement, cardinality_error, get_option, get_each, require, optional, all, declared,
}

module _ {V R A : Type 0} (parse : Bytes → Result Bytes V) (m : Marker)
    (c : InitializationContext V R A) (contract : CapabilityContract V) where
  -- A requirement of the initializing plugin for the capability of the marker.
  abbrev pub IsDeclared : ResolvedRequirement → Type 0
  IsDeclared r =
      Memᴰ r c.graph.requirements × (r.consumer ≡ c.consumer) × (r.capability ≡ contract.id)

  -- the lookup of the provision at one provider
  abbrev pub opens : PluginId → Result AccessError A
  opens p = lookup m c.registry p contract

  -- Every provider opens, with these values in the order of the providers.
  pub data AllOpen : List PluginId → List A → Type 0 where
    no_providers : AllOpen [] []
    opened :
        {p : PluginId} {a : A} {ps : List PluginId} {vs : List A}
        → opens p ≡ ok a
        → AllOpen ps vs
        → AllOpen (p ∷ ps) (a ∷ vs)

  -- The result of opening providers in their order: all values, or the error of the first that does not open.
  abbrev pub OpensEach : List PluginId → Result AccessError (List A) → Type 0
  OpensEach ps result =
      ((vs : List A) × AllOpen ps vs × (result ≡ ok vs))
      ⊎ ((before : List PluginId) × (vs : List A) × (p : PluginId) × (after : List PluginId)
          × (e : AccessError) × (ps ≡ before ++ p ∷ after)
          × AllOpen before vs
          × (opens p ≡ err e)
          × (result ≡ err e))

  -- The result of an optional access: nothing without a provider, else what its one provider opens to.
  abbrev pub OpensOption : List PluginId → Result AccessError (Option A) → Type 0
  OpensOption ps result =
      ((ps ≡ []) × (result ≡ ok none))
      ⊎ ((p : PluginId) × (ps ≡ p ∷ [])
          × (((a : A) × (opens p ≡ ok a) × (result ≡ ok (some a)))
              ⊎ ((e : AccessError) × (opens p ≡ err e) × (result ≡ err e))))

  -- what each access returns for a declared requirement of a given cardinality
  abbrev pub Grants : ResolvedRequirement → RequirementCardinality → Type 0
  Grants r exactly_one =
      (p : PluginId) × (r.providers ≡ p ∷ [])
      × (require parse m c ≡ opens p)
      × (((a : A) × (opens p ≡ ok a)) ⊎ ((e : AccessError) × (opens p ≡ err e)))
      × (optional parse m c ≡ err (cardinality_error c r))
      × (all parse m c ≡ err (cardinality_error c r))
  Grants r zero_or_one =
      (require parse m c ≡ err (cardinality_error c r))
      × OpensOption r.providers (optional parse m c)
      × (all parse m c ≡ err (cardinality_error c r))
  Grants r zero_or_more =
      (require parse m c ≡ err (cardinality_error c r))
      × (optional parse m c ≡ err (cardinality_error c r))
      × OpensEach r.providers (all parse m c)
  Grants r one_or_more =
      (1 ≤ length r.providers)
      × (require parse m c ≡ err (cardinality_error c r))
      × (optional parse m c ≡ err (cardinality_error c r))
      × OpensEach r.providers (all parse m c)

  opens_cases :
      (p : PluginId) → ((a : A) × (opens p ≡ ok a)) ⊎ ((e : AccessError) × (opens p ≡ err e))
  unfolding lookup
  opens_cases p = opened_from (BTreeMap.get (p, contract.id) c.registry)
    where
      opened_from :
          (o : Option (Provision V A))
          → ((a : A) × (open_provision m p contract o ≡ ok a))
            ⊎ ((e : AccessError) × (open_provision m p contract o ≡ err e))
      opened_from none = inr (missing_provision p contract.id, refl)
      opened_from (some x) = elim (Bool-cases (x.contract.marker_type == contract.marker_type)) [
        | inr other ↦ inr (mismatch p contract x, rw other refl)
        | inl marked ↦ elim (Bool-cases (x.boxed.interface_type == m.interface_type)) [
          | inr other ↦ inr (mismatch p contract x, rw (marked, other) refl)
          | inl typed ↦ inl (x.boxed.value, rw (marked, typed) refl)
        ]
      ]

  get_each-OpensEach : (ps : List PluginId) → OpensEach ps (get_each m c contract ps)
  unfolding get_each
  get_each-OpensEach [] = inl ([], no_providers, refl)
  get_each-OpensEach (p ∷ ps) = elim (opens_cases p) [
    | inr (e, fails) ↦ inr ([], [], p, ps, e, refl, no_providers, fails, rw (get_each, fails) refl)
    | inl (a, is) ↦ elim (get_each-OpensEach ps) [
      | inl (vs, opened_all, rest) ↦
          inl (a ∷ vs, opened is opened_all, rw (get_each, is, rest) refl)
      | inr (before, vs, q, after, e, split, opened_all, fails, rest) ↦ inr (
        p ∷ before,
        a ∷ vs,
        q,
        after,
        e,
        ap (λ t. p ∷ t) split,
        opened is opened_all,
        fails,
        rw (get_each, is, rest) refl,
      )
    ]
  ]

  get_option-OpensOption :
      (ps : List PluginId) → length ps ≤ 1 → OpensOption ps (get_option m c contract ps)
  get_option-OpensOption [] h = inl (refl, refl)
  get_option-OpensOption (p ∷ []) h = elim (opens_cases p) [
    | inr (e, fails) ↦ inr (p, refl, inr (e, fails, rw fails refl))
    | inl (a, is) ↦ inr (p, refl, inl (a, is, rw is refl))
  ]
  get_option-OpensOption (p ∷ q ∷ ps) h = absurd (omega arith)

  one_provider : (ps : List PluginId) → length ps ≡ 1 → (p : PluginId) × (ps ≡ p ∷ [])
  one_provider [] h = absurd (omega arith)
  one_provider (p ∷ []) h = (p, refl)
  one_provider (p ∷ q ∷ ps) h = absurd (omega arith)

  granted :
      (r : ResolvedRequirement) (k : RequirementCardinality)
      → contract_of parse m ≡ ok contract
      → requirement c contract.id ≡ ok r
      → r.cardinality ≡ k
      → Fits k r.providers
      → Grants r k
  unfolding require optional all
  granted r exactly_one e f at fit =
      let (p, only) = one_provider r.providers fit in
      (
        p,
        only,
        simp (require, e, f, at, only),
        opens_cases p,
        simp (optional, e, f, at),
        simp (all, e, f, at),
      )
  granted r zero_or_one e f at fit =
      let is : optional parse m c ≡ get_option m c contract r.providers =
        simp (optional, e, f, at) in
      (
        simp (require, e, f, at),
        subst (OpensOption r.providers) (sym is) (get_option-OpensOption r.providers fit),
        simp (all, e, f, at),
      )
  granted r zero_or_more e f at fit =
      let is : all parse m c ≡ get_each m c contract r.providers = simp (all, e, f, at) in
      (
        simp (require, e, f, at),
        simp (optional, e, f, at),
        subst (OpensEach r.providers) (sym is) (get_each-OpensEach r.providers),
      )
  granted r one_or_more e f at fit =
      let is : all parse m c ≡ get_each m c contract r.providers = simp (all, e, f, at) in
      (
        fit,
        simp (require, e, f, at),
        simp (optional, e, f, at),
        subst (OpensEach r.providers) (sym is) (get_each-OpensEach r.providers),
      )

  -- In a graph that was resolved from valid descriptors, no access panics. Without a declared requirement for the
  -- marker's capability all three return `Undeclared`. With one, only the access for its cardinality is
  -- granted, the others return `CardinalityMismatch`: require opens its one provider; optional returns
  -- nothing without a provider, else what its one provider opens to; all returns the values of all
  -- selected providers in their order, or the error of the first that does not open.
  pub access_granted :
      (matches : R → V → Bool) (spec : CompositionSpec V R)
      → resolve matches spec ≡ ok c.graph
      → All IsValid spec.plugins
      → contract_of parse m ≡ ok contract
      → (((r : ResolvedRequirement) → IsDeclared r → ⊥)
          × (require parse m c ≡ err (access_undeclared c.consumer contract.id))
          × (optional parse m c ≡ err (access_undeclared c.consumer contract.id))
          × (all parse m c ≡ err (access_undeclared c.consumer contract.id)))
        ⊎ ((r : ResolvedRequirement) × IsDeclared r × Grants r r.cardinality)
  unfolding requirement require optional all
  access_granted matches spec resolved valid e =
      let ascend = requirements_ascend matches spec c.graph resolved valid in
      elim (Option-cases (Requirement.requirement c.graph c.consumer contract.id)) [
        | inl missing ↦
            let f = ap (declared c.consumer contract.id) missing in
            inl (
              λ r d.
                  let there = (requirement_iff c.graph c.consumer contract.id r ascend).1 d in
                  absurd (cc),
              simp (require, e, f),
              simp (optional, e, f),
              simp (all, e, f),
            )
        | inr (r, at) ↦
            let d = (requirement_iff c.graph c.consumer contract.id r ascend).0 at in
            let f = ap (declared c.consumer contract.id) at in
            inr (
              r,
              d,
              granted r r.cardinality e f refl
                  (requirements_fit matches spec c.graph r resolved d.0),
            )
      ]
