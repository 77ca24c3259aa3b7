-- ===== src/Graph/Resolve/Loop.antt =====
-- The resolution loops over all plugins: the resolved requirements answer exactly the demanded ones,
-- and the edges are exactly those of the resolved requirements.
use kernox.Prelude.{
  ℕ, ◌≤◌, ◌≡◌, refl, sym, ap, ◌∙◌, ◌↔◌, ◌⊎◌, inl, inr, ⊎_elim, Bool, List, [], ◌∷◌, Memᴰ, ok,
  Bool-cases, bind_ok, length, mem_cons, mem_head, mem_tail, not_mem_nil, mem_concat, subst,
}
use kernox.Order.Derive.{pair_ord}
use kernox.Collections.BTreeSet
use kernox.Collections.BTreeMap
use kernox.Id.{PluginId, CapabilityId, plugin_id_ord, capability_id_ord}
use kernox.Descriptor.{PluginDescriptor, CapabilityRequirement}
use kernox.Graph.{ResolvedRequirement, ResolvedEdge, edge_ord}
use kernox.Graph.Checks.{Plugins, Bindings, is_some}
use kernox.Graph.Select.{Providers}
use kernox.Graph.Resolve.{Resolution, resolve_requirement, resolve_requirements, resolve_plugins}
use kernox.Graph.Resolve.Step.{IsEdgeOf, Answers, Stepped, resolve_requirement_ok}

-- The edges are those of the requirements.
abbrev pub Coherent : Resolution → Type 0
Coherent s =
    (e : ResolvedEdge)
    → Memᴰ e s.edges ↔ (
        (q : ResolvedRequirement) × Memᴰ q s.requirements
        × IsEdgeOf q.consumer q.capability q.providers e)

module _ {V R : Type 0} (matches : R → V → Bool) (max_edges : ℕ) (plugins : Plugins V R)
    (providers : Providers V) (bindings : Bindings) where
  abbrev Demand : Type 1
  Demand = PluginId → CapabilityRequirement R → Type 0

  abbrev Answered : PluginId → CapabilityRequirement R → ResolvedRequirement → Type 0
  Answered = Answers matches max_edges plugins providers bindings

  -- An answer is determined.
  Answers_unique :
      (c : PluginId) (r : CapabilityRequirement R) (p q : ResolvedRequirement)
      → Answered c r p
      → Answered c r q
      → p ≡ q
  Answers_unique c r p q a b =
      let providers_eq : p.providers ≡ q.providers = cc (a.selected, b.selected) in
      λ i. record {
        consumer = (a.consumer_eq ∙ sym b.consumer_eq) i;
        capability = (a.capability_eq ∙ sym b.capability_eq) i;
        cardinality = (a.cardinality_eq ∙ sym b.cardinality_eq) i;
        providers = providers_eq i;
      }

  -- The loop went from `s` to `s'` and answered what `D` demands.
  pub record Ran (D : Demand) (s s' : Resolution) : Type 0 where
    pub requirements :
        (q : ResolvedRequirement)
        → Memᴰ q s'.requirements ↔ (
            Memᴰ q s.requirements
            ⊎ ((c : PluginId) × (r : CapabilityRequirement R) × D c r × Answered c r q))
    pub answered :
        (c : PluginId) (r : CapabilityRequirement R)
        → D c r
        → (q : ResolvedRequirement) × Memᴰ q s'.requirements × Answered c r q
    pub coherent : Coherent s → Coherent s'
    pub sorted : BTreeSet.IsSorted s.edges → BTreeSet.IsSorted s'.edges
    pub bounded : length s.edges ≤ max_edges → length s'.edges ≤ max_edges
    pub used :
        (key : PluginId × CapabilityId)
        → Memᴰ key s'.used
        → Memᴰ key s.used
          ⊎ ((c : PluginId) × (r : CapabilityRequirement R) × D c r × (key ≡ (c, r.id)))

  Ran-none :
      (D : Demand) (s : Resolution)
      → ((c : PluginId) (r : CapabilityRequirement R) → D c r → ⊥)
      → Ran D s s
  Ran-none D s never = record {
    requirements = λ q. (inl, ⊎_elim (λ m. m) (λ (c, r, d, a). absurd (never c r d)));
    answered = λ c r d. absurd (never c r d);
    coherent = λ h. h;
    sorted = λ h. h;
    bounded = λ h. h;
    used = λ key m. inl m;
  }

  Ran-then :
      (D E F : Demand) (s t u : Resolution)
      → ((c : PluginId) (r : CapabilityRequirement R) → F c r ↔ (D c r ⊎ E c r))
      → Ran D s t
      → Ran E t u
      → Ran F s u
  Ran-then D E F s t u split first second = record {
    requirements = λ q. (
      λ m.
          ⊎_elim
            (λ x.
              ⊎_elim inl (λ (c, r, d, a). inr (c, r, (split c r).1 (inl d), a))
                ((first.requirements q).0 x))
            (λ (c, r, d, a). inr (c, r, (split c r).1 (inr d), a)) ((second.requirements q).0 m),
      λ x. (second.requirements q).1 (
          ⊎_elim (λ m. inl ((first.requirements q).1 (inl m)))
            (λ (c, r, f, a).
              ⊎_elim (λ d. inl ((first.requirements q).1 (inr (c, r, d, a))))
                (λ e. inr (c, r, e, a)) ((split c r).0 f))
            x),
    );
    answered = λ c r f.
        ⊎_elim
          (λ d. let (q, m, a) = first.answered c r d in (q, (second.requirements q).1 (inl m), a))
          (λ e. second.answered c r e) ((split c r).0 f);
    coherent = λ h. second.coherent (first.coherent h);
    sorted = λ h. second.sorted (first.sorted h);
    bounded = λ h. second.bounded (first.bounded h);
    used = λ key m.
        ⊎_elim
          (λ x.
            ⊎_elim inl (λ (c, r, d, e). inr (c, r, (split c r).1 (inl d), e)) (first.used key x))
          (λ (c, r, d, e). inr (c, r, (split c r).1 (inr d), e)) (second.used key m);
  }

  -- One requirement.
  module _ (consumer : PluginId) (r : CapabilityRequirement R) (s s' : Resolution)
      (q : ResolvedRequirement)
      (step : Stepped matches max_edges plugins providers bindings consumer r s s' q) where
    mem-grown :
        (p : ResolvedRequirement) → Memᴰ p s'.requirements ↔ (Memᴰ p s.requirements ⊎ (p ≡ q))
    mem-grown p = rw step.grown (mem_concat p q s.requirements)

    step-Coherent : Coherent s → Coherent s'
    step-Coherent h e = (
      λ m.
          ⊎_elim (λ old. let (p, mp, x) = (h e).0 old in (p, (mem-grown p).1 (inl mp), x))
            (λ (mp, f, g). (
              q,
              (mem-grown q).1 (inr refl),
              (mp, f ∙ sym step.answers.consumer_eq, g ∙ sym step.answers.capability_eq),
            ))
            ((step.added.members e).0 m),
      λ (p, mp, x).
          let (mem, f, g) = x in
          (step.added.members e).1 (
            ⊎_elim (λ old. inl ((h e).1 (p, old, (mem, f, g))))
              (λ is. inr (
                subst (λ (t : ResolvedRequirement). Memᴰ e.provider t.providers) is mem,
                f ∙ ap (λ (t : ResolvedRequirement). t.consumer) is ∙ step.answers.consumer_eq,
                g ∙ ap (λ (t : ResolvedRequirement). t.capability) is ∙ step.answers.capability_eq,
              ))
              ((mem-grown p).0 mp)),
    )

    step_used :
        (key : PluginId × CapabilityId)
        → Memᴰ key s'.used
        → Memᴰ key s.used ⊎ (key ≡ (consumer, r.id))
    step_used key m = elim (Bool-cases (is_some (BTreeMap.get (consumer, r.id) bindings))) [
      | inl bound ↦
          let m' : Memᴰ key (BTreeSet.insert (consumer, r.id) s.used) =
            rw bound at (rw step.used at m) in
          ⊎_elim inr inl ((BTreeSet.mem-insert key (consumer, r.id) s.used).0 m')
      | inr free ↦ let m' : Memᴰ key s.used = rw free at (rw step.used at m) in inl m'
    ]

    Ran-step : Ran (λ c t. (c ≡ consumer) × (t ≡ r)) s s'
    Ran-step = record {
      requirements = λ p. (
        λ m.
            ⊎_elim inl (λ e. inr (consumer, r, (refl, refl), rw e step.answers))
              ((mem-grown p).0 m),
        ⊎_elim (λ old. (mem-grown p).1 (inl old))
            (λ (c, t, (e, f), a). (mem-grown p).1 (
              inr (
                Answers_unique consumer r p q
                  (subst (λ x. Answered x r p) e (subst (λ x. Answered c x p) f a)) step.answers))),
      );
      answered = λ c t (e, f). (q, (mem-grown q).1 (inr refl), rw (e, f) step.answers);
      coherent = step-Coherent;
      sorted = step.added.sorted;
      bounded = step.added.bounded;
      used = λ key m. ⊎_elim inl (λ e. inr (consumer, r, (refl, refl), e)) (step_used key m);
    }

  resolve_requirements_ok :
      (consumer : PluginId) (s s' : Resolution) (rs : List (CapabilityRequirement R))
      → resolve_requirements matches max_edges plugins providers bindings consumer s rs ≡ ok s'
      → Ran (λ c r. (c ≡ consumer) × Memᴰ r rs) s s'
  unfolding resolve_requirements
  resolve_requirements_ok consumer s s' [] h =
      let e : s ≡ s' = cc in rw (← e) (Ran-none _ s (λ c r d. not_mem_nil d.1))
  resolve_requirements_ok consumer s s' (r ∷ rs) h =
      let (t, first, rest) =
        bind_ok (resolve_requirement matches max_edges plugins providers bindings consumer s r) _
          h in
      let (q, step) =
        resolve_requirement_ok matches max_edges plugins providers bindings consumer r s t first in
      Ran-then _ _ _ s t s'
        (λ c x. (
          λ (e, m). ⊎_elim (λ f. inl (e, f)) (λ m'. inr (e, m')) ((mem_cons x r rs).0 m),
          ⊎_elim (λ (e, f). (e, (mem_cons x r rs).1 (inl f))) (λ (e, m). (e, mem_tail r m)),
        ))
        (Ran-step consumer r s t q step) (resolve_requirements_ok consumer t s' rs rest)

  -- What the plugins demand.
  abbrev Demanded : List (PluginDescriptor V R) → Demand
  Demanded ds c r =
      (d : PluginDescriptor V R) × Memᴰ d ds × (c ≡ d.id) × Memᴰ r (BTreeMap.values d.requires)

  pub resolve_plugins_ok :
      (s s' : Resolution) (ds : List (PluginDescriptor V R))
      → resolve_plugins matches max_edges plugins providers bindings s ds ≡ ok s'
      → Ran (Demanded ds) s s'
  unfolding resolve_plugins
  resolve_plugins_ok s s' [] h =
      let e : s ≡ s' = cc in rw (← e) (Ran-none _ s (λ c r (d, m, x, y). not_mem_nil m))
  resolve_plugins_ok s s' (d ∷ ds) h =
      let (t, first, rest) =
        bind_ok
          (resolve_requirements matches max_edges plugins providers bindings d.id s
            (BTreeMap.values d.requires))
          _ h in
      Ran-then _ _ _ s t s'
        (λ c r. (
          λ (d', m, e, mr).
              ⊎_elim (λ f. inl (rw f at e, rw f at mr)) (λ m'. inr (d', m', e, mr))
                ((mem_cons d' d ds).0 m),
          ⊎_elim (λ (e, mr). (d, mem_head d ds, e, mr))
              (λ (d', m, e, mr). (d', mem_tail d m, e, mr)),
        ))
        (resolve_requirements_ok d.id s t (BTreeMap.values d.requires) first)
        (resolve_plugins_ok t s' ds rest)
