-- ===== src/Graph/Resolve/Keys.antt =====
-- The resolved requirements (crates/kernox-core/src/graph.rs) stand in ascending order of their keys.
use kernox.Prelude.{
  ℕ, ◌≡◌, refl, sym, ap, ◌∙◌, subst, Bool, List, [], ◌∷◌, ◌++◌, map, ok, bind_ok, All, All-mem,
  All-of_mem, All-append, Result,
}
use mathlib.Core.List
use kernox.Order.{Lt, cmp_of_eq}
use kernox.Order.Derive.{pair_ord}
use kernox.Collections.BTreeSet
use kernox.Collections.BTreeMap
use kernox.Id.{PluginId, CapabilityId, plugin_id_ord, capability_id_ord}
use kernox.Descriptor.{PluginDescriptor, CapabilityRequirement}
use kernox.Descriptor.Valid.{IsValid}
use kernox.Graph.{CompositionSpec, ResolvedGraph, ResolvedRequirement, edge_ord}
use kernox.Graph.Checks.{Plugins, Bindings}
use kernox.Graph.Select.{Providers, index_providers}
use kernox.Graph.Resolve.{
  Resolution, requirement_key, insert_requirement, sort_requirements, resolve_requirement,
  resolve_requirements, resolve_plugins, resolve, nothing_resolved,
}
use kernox.Graph.Resolve.Step.{resolve_requirement_ok}
use kernox.Graph.Resolve.Stages.{resolve_ok}
use kernox.Graph.Resolve.Declared.{IsIndex-of, value_entry}
use kernox.Error.{ResolveError}

abbrev Key : Type 0
Key = PluginId × CapabilityId

-- Sorting leaves sorted requirements as they are.
sort_requirements_sorted :
    (rs : List ResolvedRequirement)
    → BTreeSet.IsSorted (map requirement_key rs)
    → sort_requirements rs ≡ rs
unfolding sort_requirements insert_requirement
sort_requirements_sorted [] h = refl
sort_requirements_sorted (r ∷ []) h = refl
sort_requirements_sorted (r ∷ s ∷ rs) h =
    rw (sort_requirements_sorted (s ∷ rs) h.1) (rw (h.0.0, insert_requirement) refl)

abbrev keys_of : {R : Type 0} → PluginId → List (CapabilityRequirement R) → List Key
keys_of c rs = map (λ r. (c, r.id)) rs

abbrev all_keys : {V R : Type 0} → List (PluginDescriptor V R) → List Key
all_keys [] = []
all_keys (d ∷ ds) = keys_of d.id (BTreeMap.values d.requires) ++ all_keys ds

ok_inj :
    (R V : Type 0) (a b : Resolution)
    → ◌≡◌ {A = Result (ResolveError V R) Resolution} (ok a) (ok b)
    → a ≡ b
ok_inj R V a b e = cc

Lt_second : (c : PluginId) (x y : CapabilityId) → Lt x y → Lt {A = Key} (c, x) (c, y)
Lt_second c x y h = rw (cmp_of_eq c c refl) h

Lt_first : (c d : PluginId) (x y : CapabilityId) → Lt c d → Lt {A = Key} (c, x) (d, y)
Lt_first c d x y h = rw h refl

keys_of-Lt :
    {R : Type 0} (c : PluginId) (x : CapabilityId) (rs : List (CapabilityRequirement R))
    → All (Lt x) (map (λ r. r.id) rs)
    → All (Lt {A = Key} (c, x)) (keys_of c rs)
keys_of-Lt c x [] h = tt
keys_of-Lt c x (r ∷ rs) h = (Lt_second c x r.id h.0, keys_of-Lt c x rs h.1)

keys_of-IsSorted :
    {R : Type 0} (c : PluginId) (rs : List (CapabilityRequirement R))
    → BTreeSet.IsSorted (map (λ r. r.id) rs)
    → BTreeSet.IsSorted (keys_of c rs)
keys_of-IsSorted c [] h = tt
keys_of-IsSorted c (r ∷ rs) h = (keys_of-Lt c r.id rs h.0, keys_of-IsSorted c rs h.1)

-- Every key of one plugin is before every key of a later one.
keys_before :
    {R : Type 0} (c d : PluginId) (x : CapabilityId) (rs : List (CapabilityRequirement R))
    → Lt c d
    → All (Lt {A = Key} (c, x)) (keys_of d rs)
keys_before c d x [] h = tt
keys_before c d x (r ∷ rs) h = (Lt_first c d x r.id h, keys_before c d x rs h)

all_keys_after :
    {V R : Type 0} (c : PluginId) (x : CapabilityId) (ds : List (PluginDescriptor V R))
    → All (Lt c) (map (λ d. d.id) ds)
    → All (Lt {A = Key} (c, x)) (all_keys ds)
all_keys_after c x [] h = tt
all_keys_after c x (d ∷ ds) h =
    All-append _ (keys_of d.id (BTreeMap.values d.requires)) (all_keys ds)
      (keys_before c d.id x (BTreeMap.values d.requires) h.0) (all_keys_after c x ds h.1)

keys_of_before :
    {V R : Type 0} (c : PluginId) (rs : List (CapabilityRequirement R))
    (ds : List (PluginDescriptor V R))
    → All (Lt c) (map (λ d. d.id) ds)
    → All (λ k. All (Lt k) (all_keys ds)) (keys_of c rs)
keys_of_before c [] ds h = tt
keys_of_before c (r ∷ rs) ds h = (all_keys_after c r.id ds h, keys_of_before c rs ds h)

all_keys-IsSorted :
    {V R : Type 0} (ds : List (PluginDescriptor V R))
    → BTreeSet.IsSorted (map (λ d. d.id) ds)
    → All IsValid ds
    → BTreeSet.IsSorted (all_keys ds)
all_keys-IsSorted [] h v = tt
all_keys-IsSorted (d ∷ ds) h v =
    let ids = BTreeMap.keys_of_values (λ r. r.id) d.requires v.0.requirements_keyed in
    BTreeSet.append-IsSorted (keys_of d.id (BTreeMap.values d.requires)) (all_keys ds)
      (keys_of-IsSorted d.id (BTreeMap.values d.requires)
        (subst BTreeSet.IsSorted (sym ids) v.0.requirements_sorted))
      (all_keys-IsSorted ds h.1 v.1) (keys_of_before d.id (BTreeMap.values d.requires) ds h.0)

module _ {V R : Type 0} (matches : R → V → Bool) (max_edges : ℕ) (plugins : Plugins V R)
    (providers : Providers V) (bindings : Bindings) where
  requirements_keys :
      (c : PluginId) (s s' : Resolution) (rs : List (CapabilityRequirement R))
      → resolve_requirements matches max_edges plugins providers bindings c s rs ≡ ok s'
      → map requirement_key s'.requirements ≡ map requirement_key s.requirements ++ keys_of c rs
  unfolding resolve_requirements
  requirements_keys c s s' [] h =
      ap (λ (t : Resolution). map requirement_key t.requirements) (sym (ok_inj R V s s' h))
      ∙ sym (List.append-nil _)
  requirements_keys c s s' (r ∷ rs) h =
      let (s1, one, rest) =
        bind_ok (resolve_requirement matches max_edges plugins providers bindings c s r) _ h in
      let (q, step) =
        resolve_requirement_ok matches max_edges plugins providers bindings c r s s1 one in
      let key : requirement_key q ≡ (c, r.id) =
        λ i. (step.answers.consumer_eq i, step.answers.capability_eq i) in
      requirements_keys c s1 s' rs rest
      ∙ ap (λ t. map requirement_key t ++ keys_of c rs) step.grown
      ∙ ap (λ t. t ++ keys_of c rs) (List.map-append requirement_key s.requirements (q ∷ []))
      ∙ List.append_assoc (map requirement_key s.requirements) (requirement_key q ∷ [])
          (keys_of c rs)
      ∙ ap (λ k. map requirement_key s.requirements ++ k ∷ keys_of c rs) key

  plugins_keys :
      (s s' : Resolution) (ds : List (PluginDescriptor V R))
      → resolve_plugins matches max_edges plugins providers bindings s ds ≡ ok s'
      → map requirement_key s'.requirements ≡ map requirement_key s.requirements ++ all_keys ds
  unfolding resolve_plugins
  plugins_keys s s' [] h =
      ap (λ (t : Resolution). map requirement_key t.requirements) (sym (ok_inj R V s s' h))
      ∙ sym (List.append-nil _)
  plugins_keys s s' (d ∷ ds) h =
      let keys = keys_of d.id (BTreeMap.values d.requires) in
      let (s1, one, rest) =
        bind_ok
          (resolve_requirements matches max_edges plugins providers bindings d.id s
            (BTreeMap.values d.requires))
          _ h in
      plugins_keys s1 s' ds rest
      ∙ ap (λ t. t ++ all_keys ds) (requirements_keys d.id s s1 (BTreeMap.values d.requires) one)
      ∙ List.append_assoc (map requirement_key s.requirements) keys (all_keys ds)

-- If the declared descriptors are valid, then the requirements of a resolved graph stand in strictly ascending
-- order of consumer and capability.
pub requirements_ascend :
    {V R : Type 0} (matches : R → V → Bool) (spec : CompositionSpec V R) (g : ResolvedGraph V R)
    → resolve matches spec ≡ ok g
    → All IsValid spec.plugins
    → BTreeSet.IsSorted (map requirement_key g.requirements)
requirements_ascend matches spec g resolved valid =
    let (plugins, bindings, s, st) = resolve_ok matches spec g resolved in
    let (h, mem) = IsIndex-of spec plugins st.admitted in
    let ids = BTreeMap.keys_of_values (λ d. d.id) plugins h.keyed in
    let declared =
      All-of_mem IsValid (BTreeMap.values plugins)
        λ d m. All-mem IsValid spec.plugins valid ((mem d).0 (value_entry spec plugins h d m)) in
    let sorted =
      all_keys-IsSorted (BTreeMap.values plugins) (subst BTreeSet.IsSorted (sym ids) h.sorted)
        declared in
    let keys =
      plugins_keys matches spec.limits.max_edges plugins
        (index_providers [] (BTreeMap.values plugins)) bindings nothing_resolved s
        (BTreeMap.values plugins) st.ran in
    let ascending = subst BTreeSet.IsSorted (sym keys) sorted in
    subst (λ t. BTreeSet.IsSorted (map requirement_key t))
      (sym (st.concluded.requirements_eq ∙ sort_requirements_sorted s.requirements ascending))
      ascending
