-- ===== src/Runtime/Host/Negotiated.antt =====
-- What the host negotiation of crates/kernox-runtime/src/app.rs accepts.
use kernox.Prelude.{
  ◌≡◌, refl, ◌↔◌, ◌⊎◌, inl, inr, ⊎_elim, Bool, true, false, List, [], ◌∷◌, map, Memᴰ, All, All-map,
  All-of_mem, mem_cons, not_mem_nil, some, Option-cases, ok, bind_ok, reject_ok, arith,
}
use kernox.Order.{same, same_iff}
use kernox.Collections.BTreeSet
use kernox.Collections.BTreeMap
use kernox.Id.{CapabilityId, PluginId, capability_id_ord}
use kernox.Runtime.Host.{
  HostCapability, HostRequirement, Declared, index_supplied, check_requirements, check_declared,
  validate_host_requirements, check_version,
}

module _ {V : Type 0} where
  abbrev supplied_pairs : List (HostCapability V) → List (CapabilityId × V)
  supplied_pairs = map (λ c. (c.id, c.version))

  abbrev Fresh : List (CapabilityId × V) → List CapabilityId → Type 0
  Fresh m ids = All (λ i. BTreeMap.contains_key i m ≡ false) ids

  Fresh-tail :
      (m : List (CapabilityId × V)) (k : CapabilityId) (v : V) (ids : List CapabilityId)
      → Fresh (BTreeMap.insert k v m) ids ↔ (All (λ j. same j k ≡ false) ids × Fresh m ids)
  Fresh-tail m k v [] = (λ h. (tt, tt), λ h. tt)
  Fresh-tail m k v (i ∷ is) =
      ground (arith, Fresh-tail m k v is, BTreeMap.contains_key-insert i k v m)

module _ {V R : Type 0} where
  index_supplied_iff :
      (m : List (CapabilityId × V)) (s : List (HostCapability V))
      → ((m' : List (CapabilityId × V)) × (index_supplied {R = R} m s ≡ ok m'))
        ↔ (BTreeSet.Distinct (map (λ c. c.id) s) × Fresh m (map (λ c. c.id) s))
  unfolding index_supplied
  index_supplied_iff m [] = (λ h. (tt, tt), λ h. (m, refl))
  index_supplied_iff m (c ∷ cs) =
      let ids = map (λ (d : HostCapability V). d.id) cs in
      (
        λ (m', e).
            let (new, rest) = reject_ok (BTreeMap.contains_key c.id m) _ _ e in
            let (apart, fresh) =
              (index_supplied_iff (BTreeMap.insert c.id c.version m) cs).0 (m', rest) in
            let (off, old) = (Fresh-tail m c.id c.version ids).0 fresh in
            ((off, apart), (new, old)),
        λ ((off, apart), (new, old)).
            let (m', e) =
              (index_supplied_iff (BTreeMap.insert c.id c.version m) cs).1
                (apart, (Fresh-tail m c.id c.version ids).1 (off, old)) in
            (m', rw (index_supplied, new) e),
      )

  get-index_supplied :
      (m : List (CapabilityId × V)) (s : List (HostCapability V)) (m' : List (CapabilityId × V))
      (k : CapabilityId) (v : V)
      → index_supplied {R = R} m s ≡ ok m'
      → (BTreeMap.get k m' ≡ some v)
        ↔ ((BTreeMap.get k m ≡ some v) ⊎ Memᴰ (k, v) (supplied_pairs s))
  unfolding index_supplied
  get-index_supplied m [] m' k v e = (λ h. inl (cc), ⊎_elim (λ h. cc) (λ x. not_mem_nil x))
  get-index_supplied m (c ∷ cs) m' k v e =
      let (new, rest) = reject_ok (BTreeMap.contains_key c.id m) _ _ e in
      ground (
        arith,
        get-index_supplied (BTreeMap.insert c.id c.version m) cs m' k v rest,
        BTreeMap.get-insert k c.id c.version m,
        BTreeMap.get-none_iff c.id m,
        new,
        same_iff k c.id,
        mem_cons (k, v) (c.id, c.version) (supplied_pairs cs),
      )

module _ {V R : Type 0} (matches : R → V → Bool) where
  abbrev Accepted : List (CapabilityId × V) → HostRequirement R → Type 0
  Accepted m q = (v : V) × (BTreeMap.get q.id m ≡ some v) × (matches q.version v ≡ true)

  check_version_iff :
      (m : List (CapabilityId × V)) (p : PluginId) (q : HostRequirement R)
      → (check_version matches p q (BTreeMap.get q.id m) ≡ ok tt) ↔ Accepted m q
  check_version_iff m p q = elim (Option-cases (BTreeMap.get q.id m)) [
    | inl e ↦ (λ h. absurd (ground arith), λ (v, f, g). absurd (ground arith))
    | inr (v, e) ↦ (λ h. (v, e, ground arith), λ (w, f, g). ground arith)
  ]

  check_requirements_iff :
      (m : List (CapabilityId × V)) (p : PluginId) (seen : List CapabilityId)
      (qs : List (HostRequirement R))
      → (check_requirements matches m p seen qs ≡ ok tt) ↔ (
          BTreeSet.Distinct (map (λ q. q.id) qs)
          × BTreeSet.Fresh seen (map (λ q. q.id) qs)
          × All (Accepted m) qs)
  unfolding check_requirements
  check_requirements_iff m p seen [] = (λ e. (tt, tt, tt), λ h. refl)
  check_requirements_iff m p seen (q ∷ qs) =
      let ids = map (λ (x : HostRequirement R). x.id) qs in
      (
        λ e.
            let (new, rest) = reject_ok (BTreeSet.contains q.id seen) _ _ e in
            let (u, version, others) =
              bind_ok (check_version matches p q (BTreeMap.get q.id m)) _ rest in
            let (apart, fresh, accepted) =
              (check_requirements_iff m p (BTreeSet.insert q.id seen) qs).0 others in
            let (off, old) = (BTreeSet.Fresh-insert seen q.id ids).0 fresh in
            ((off, apart), (new, old), ((check_version_iff m p q).0 version, accepted)),
        λ ((off, apart), (new, old), (version, accepted)).
            rw (check_requirements, new, (check_version_iff m p q).1 version)
              ((check_requirements_iff m p (BTreeSet.insert q.id seen) qs).1
                (apart, (BTreeSet.Fresh-insert seen q.id ids).1 (off, old), accepted)),
      )

  check_declared_iff :
      {P : Type 0} (m : List (CapabilityId × V)) (ds : List (Declared P V R))
      → (check_declared matches m ds ≡ ok tt)
        ↔ All
            (λ d.
              BTreeSet.Distinct (map (λ q. q.id) d.host_requirements)
              × All (Accepted m) d.host_requirements)
            ds
  unfolding check_declared
  check_declared_iff m [] = (λ e. tt, λ h. refl)
  check_declared_iff m (d ∷ ds) = (
    λ e.
        let (u, first, rest) =
          bind_ok (check_requirements matches m d.descriptor.id [] d.host_requirements) _ e in
        let (apart, fresh, accepted) =
          (check_requirements_iff m d.descriptor.id [] d.host_requirements).0 first in
        ((apart, accepted), (check_declared_iff m ds).0 rest),
    λ ((apart, accepted), rest).
        rw
          (
            check_declared,
            (check_requirements_iff m d.descriptor.id [] d.host_requirements).1
                (apart, All-of_mem _ _ (λ i x. refl), accepted),
          )
          ((check_declared_iff m ds).1 rest),
  )

  -- A host capability of that identity is supplied in a version that the requirement accepts.
  abbrev pub Supplies : List (HostCapability V) → HostRequirement R → Type 0
  Supplies supplied q =
      (v : V) × Memᴰ (q.id, v) (supplied_pairs supplied) × (matches q.version v ≡ true)

  -- The negotiation passes exactly when no capability is supplied twice and every plugin requires
  -- distinct capabilities, each of which is supplied in a version that the requirement accepts.
  pub validate_host_requirements_iff :
      {P : Type 0} (declared : List (Declared P V R)) (supplied : List (HostCapability V))
      → (validate_host_requirements matches declared supplied ≡ ok tt) ↔ (
          BTreeSet.Distinct (map (λ c. c.id) supplied)
          × All
              (λ d.
                BTreeSet.Distinct (map (λ q. q.id) d.host_requirements)
                × All (Supplies supplied) d.host_requirements)
              declared)
  unfolding validate_host_requirements BTreeMap.get BTreeMap.contains_key
  validate_host_requirements_iff declared supplied = (
    λ e.
        let (m, indexed, checked) = bind_ok (index_supplied [] supplied) _ e in
        let (apart, fresh) = (index_supplied_iff [] supplied).0 (m, indexed) in
        (
          apart,
          All-map _ _ declared
              (λ d h. (
                h.0,
                All-map _ _ d.host_requirements
                    (λ q (v, at, fits). (v, from_index m indexed q.id v at, fits)) h.1,
              ))
              ((check_declared_iff m declared).0 checked),
        ),
    λ (apart, h).
        let (m, indexed) =
          (index_supplied_iff {R = R} [] supplied).1 (apart, All-of_mem _ _ (λ i x. refl)) in
        rw (validate_host_requirements, indexed)
          ((check_declared_iff m declared).1 (
            All-map _ _ declared
              (λ d h. (
                h.0,
                All-map _ _ d.host_requirements
                    (λ q (v, mem, fits).
                      (v, (get-index_supplied [] supplied m q.id v indexed).1 (inr mem), fits))
                    h.1,
              ))
              h)),
  )
    where
      from_index :
          (m : List (CapabilityId × V))
          → index_supplied {R = R} [] supplied ≡ ok m
          → (k : CapabilityId) (v : V) → BTreeMap.get k m ≡ some v
          → Memᴰ (k, v) (supplied_pairs supplied)
      from_index m e k v at =
          ⊎_elim (λ x. cc) (λ x. x) ((get-index_supplied [] supplied m k v e).0 at)
