-- ===== src/Graph/Resolve/Step.antt =====
-- One requirement of the resolution loop: what it adds to the requirements, the edges and the used
-- bindings.
use kernox.Prelude.{
  ℕ, ◌≤◌, ◌≡◌, refl, ap, ◌↔◌, ◌⊎◌, inl, inr, ⊎_elim, Bool, List, [], ◌∷◌, ◌++◌, Memᴰ, ok, arith,
  bind_ok, reject_ok, ltb, length, if◌then◌else◌, mem_cons, mem_tail, not_mem_nil,
}
use kernox.Order.Derive.{pair_ord}
use kernox.Collections.BTreeSet
use kernox.Collections.BTreeMap
use kernox.Id.{PluginId, CapabilityId, plugin_id_ord, capability_id_ord}
use kernox.Descriptor.{CapabilityRequirement}
use kernox.Graph.{ResolvedRequirement, ResolvedEdge, edge_ord}
use kernox.Graph.Checks.{Plugins, Bindings, is_some}
use kernox.Graph.Select.{Providers, select_providers}
use kernox.Graph.Resolve.{Resolution, add_edges, resolve_requirement}

-- The edge leads from one of the providers to the consumer.
abbrev pub IsEdgeOf : PluginId → CapabilityId → List PluginId → ResolvedEdge → Type 0
IsEdgeOf consumer capability providers e =
    Memᴰ e.provider providers × (e.consumer ≡ consumer) × (e.capability ≡ capability)

edge_eq :
    (e : ResolvedEdge) (p c : PluginId) (k : CapabilityId)
    → e.provider ≡ p
    → e.consumer ≡ c
    → e.capability ≡ k
    → e ≡ record { provider = p; consumer = c; capability = k }
edge_eq e p c k a b d = λ i. record { provider = a i; consumer = b i; capability = d i }

-- What `add_edges` leaves when it stays within the limit.
pub record Added (max_edges : ℕ) (consumer : PluginId) (capability : CapabilityId)
    (providers : List PluginId) (edges edges' : List ResolvedEdge) : Type 0 where
  pub members :
      (e : ResolvedEdge) → Memᴰ e edges' ↔ (Memᴰ e edges ⊎ IsEdgeOf consumer capability providers e)
  pub sorted : BTreeSet.IsSorted edges → BTreeSet.IsSorted edges'
  pub bounded : length edges ≤ max_edges → length edges' ≤ max_edges

module _ {V R : Type 0} (max_edges : ℕ) where
  add_edges_ok :
      (consumer : PluginId) (capability : CapabilityId) (edges edges' : List ResolvedEdge)
      (providers : List PluginId)
      → add_edges {V = V} {R = R} max_edges consumer capability edges providers ≡ ok edges'
      → Added max_edges consumer capability providers edges edges'
  unfolding add_edges
  add_edges_ok c k edges edges' [] h =
      let e : edges ≡ edges' = cc in
      rw (← e) (record {
        members = λ x. (inl, ⊎_elim (λ m. m) (λ y. not_mem_nil y.0));
        sorted = λ s. s;
        bounded = λ s. s;
      })
  add_edges_ok c k edges edges' (p ∷ ps) h =
      let edge : ResolvedEdge = record { provider = p; consumer = c; capability = k } in
      let (fits, rest) = reject_ok (ltb max_edges (length (BTreeSet.insert edge edges))) _ _ h in
      let later = add_edges_ok c k (BTreeSet.insert edge edges) edges' ps rest in
      record {
        members = λ x.
            let here = BTreeSet.mem-insert x edge edges in
            (
              λ m.
                  ⊎_elim
                    (λ y.
                      ⊎_elim
                        (λ e. inr (
                          (mem_cons x.provider p ps).1 (inl (ap (λ t. t.provider) e)),
                          ap (λ t. t.consumer) e,
                          ap (λ t. t.capability) e,
                        ))
                        inl (here.0 y))
                    (λ (m', e, f). inr (mem_tail p m', e, f)) ((later.members x).0 m),
              λ y. (later.members x).1 (
                  ⊎_elim (λ old. inl (here.1 (inr old)))
                    (λ (m, e, f).
                      ⊎_elim (λ g. inl (here.1 (inl (edge_eq x p c k g e f))))
                        (λ m'. inr (m', e, f)) ((mem_cons x.provider p ps).0 m))
                    y),
            );
        sorted = λ s. later.sorted (BTreeSet.insert-IsSorted edge edges s);
        bounded = λ s. later.bounded (ground arith);
      }

module _ {V R : Type 0} (matches : R → V → Bool) (max_edges : ℕ) (plugins : Plugins V R)
    (providers : Providers V) (bindings : Bindings) where
  -- The resolved requirement answers the plugin's requirement.
  pub record Answers (consumer : PluginId) (r : CapabilityRequirement R) (q : ResolvedRequirement)
      : Type 0 where
    pub consumer_eq : q.consumer ≡ consumer
    pub capability_eq : q.capability ≡ r.id
    pub cardinality_eq : q.cardinality ≡ r.cardinality
    pub selected :
        select_providers matches consumer r
          (BTreeMap.get (consumer, r.id) bindings)
          (BTreeMap.get_or r.id [] providers)
          plugins
        ≡ ok q.providers

  pub record Stepped (consumer : PluginId) (r : CapabilityRequirement R) (s s' : Resolution)
      (q : ResolvedRequirement) : Type 0 where
    pub answers : Answers consumer r q
    pub grown : s'.requirements ≡ s.requirements ++ q ∷ []
    pub added : Added max_edges consumer r.id q.providers s.edges s'.edges
    pub used : s'.used ≡ (
        if is_some (BTreeMap.get (consumer, r.id) bindings)
        then BTreeSet.insert (consumer, r.id) s.used
        else s.used)

  pub resolve_requirement_ok :
      (consumer : PluginId) (r : CapabilityRequirement R) (s s' : Resolution)
      → resolve_requirement matches max_edges plugins providers bindings consumer s r ≡ ok s'
      → (q : ResolvedRequirement) × Stepped consumer r s s' q
  unfolding resolve_requirement
  resolve_requirement_ok consumer r s s' h =
      let (selected, chosen, rest) =
        bind_ok
          (select_providers matches consumer r (BTreeMap.get (consumer, r.id) bindings)
            (BTreeMap.get_or r.id [] providers) plugins)
          _ h in
      let (edges, drawn, last) =
        bind_ok (add_edges max_edges consumer r.id s.edges selected) _ rest in
      let q : ResolvedRequirement = record {
        consumer = consumer;
        capability = r.id;
        cardinality = r.cardinality;
        providers = selected;
      } in
      let done : record {
        requirements = s.requirements ++ q ∷ [];
        edges = edges;
        used =
            if is_some (BTreeMap.get (consumer, r.id) bindings)
            then BTreeSet.insert (consumer, r.id) s.used
            else s.used;
      }
          ≡ s' =
        cc in
      (
        q,
        rw (← done) (record {
          answers = record {
            consumer_eq = refl;
            capability_eq = refl;
            cardinality_eq = refl;
            selected = chosen;
          };
          grown = refl;
          added = add_edges_ok max_edges consumer r.id s.edges edges selected drawn;
          used = refl;
        }),
      )
