-- ===== src/Runtime/Provisions/Committed.antt =====
-- What `Registry::commit` and `Registry::get` of crates/kernox-runtime/src/capability.rs promise.
use kernox.Prelude.{
  ◌≡◌, refl, ◌⊎◌, inl, inr, Bool, true, List, [], ◌∷◌, Option, none, some, Result, ok, err, fault,
  arith, Memᴰ, All, bind_ok, if◌then◌else◌, mem_tail, subst, sym, Bool-cases, Option-cases,
}
use kernox.Order.{same, same_iff}
use kernox.Order.Derive.{pair_ord}
use kernox.Collections.BTreeMap
use kernox.Id.{PluginId, CapabilityId, plugin_id_ord, capability_id_ord}
use kernox.Descriptor.{PluginDescriptor, CapabilityOffer}
use kernox.Runtime.Provisions.{
  Registry, ProvisionSet, Provision, commit, check_staged, check_offered, publish, find_offer,
  check_offer,
}

-- A result that is no fault.
abbrev pub Ends : {E X : Type 0} → Result E X → Type 0
Ends {E} {X} m = ((x : X) × (m ≡ ok x)) ⊎ ((e : E) × (m ≡ err e))

Ends-cases : {E X : Type 0} (m : Result E X) → (m ≡ fault → ⊥) → Ends m
Ends-cases (ok x) h = inl (x, refl)
Ends-cases (err e) h = inr (e, refl)
Ends-cases fault h = absurd (h refl)

module _ {V A : Type 0} (version_eq : V → V → Bool) where
  check_staged_no_fault :
      (plugin : PluginId) (offers : List (CapabilityOffer V)) (staged : ProvisionSet V A)
      → check_staged version_eq plugin offers staged ≡ fault
      → ⊥
  unfolding check_staged
  check_staged_no_fault plugin offers [] e = cc
  check_staged_no_fault plugin offers ((c, p) ∷ staged) e =
      ground (arith, check_staged_no_fault plugin offers staged)

  check_offered_no_fault :
      (plugin : PluginId) (staged : ProvisionSet V A) (offers : List (CapabilityOffer V))
      → check_offered plugin staged offers ≡ fault
      → ⊥
  unfolding check_offered
  check_offered_no_fault plugin staged [] e = cc
  check_offered_no_fault plugin staged (o ∷ os) e =
      ground (arith, check_offered_no_fault plugin staged os)

  pub commit-Ends :
      {R : Type 0} (plugin : PluginId) (d : PluginDescriptor V R) (staged : ProvisionSet V A)
      (registry : Registry V A)
      → Ends (commit version_eq plugin d staged registry)
  unfolding commit
  commit-Ends plugin d staged registry = Ends-cases _ λ e. ground (
    arith,
    check_staged_no_fault plugin (BTreeMap.values d.provides) staged,
    check_offered_no_fault plugin staged (BTreeMap.values d.provides),
  )

-- `or`: the first value that is there
abbrev pub or_else {ℓ} : {B : Type ℓ} → Option B → Option B → Option B
or_else none other = other
or_else (some b) other = some b

module _ {V A : Type 0} where
  -- What a lookup finds once a transaction is published.
  get-publish :
      (q plugin : PluginId) (c : CapabilityId) (staged : ProvisionSet V A) (registry : Registry V A)
      → BTreeMap.IsSorted staged
      → BTreeMap.get (q, c) (publish plugin staged registry) ≡ (
          if same q plugin
          then or_else (BTreeMap.get c staged) (BTreeMap.get (q, c) registry)
          else BTreeMap.get (q, c) registry)
  unfolding publish BTreeMap.get
  get-publish q plugin c [] registry h = ground arith
  get-publish q plugin c ((k, p) ∷ staged) registry h =
      let later = get-publish q plugin c staged (BTreeMap.insert (plugin, k) p registry) h.1 in
      let inserted = BTreeMap.get-insert (q, c) (plugin, k) p registry in
      elim (Bool-cases (same c k)) [
        | inl at ↦
            let is : c ≡ k = (same_iff c k).0 at in
            let gone : BTreeMap.get c staged ≡ none =
              subst (λ x. BTreeMap.get x staged ≡ none) (sym is)
                (BTreeMap.get_before k staged h.0) in
            ground (arith, later, inserted, gone, at, same_iff q plugin, same_iff c k)
        | inr off ↦ ground (arith, later, inserted, off, same_iff q plugin, same_iff c k)
      ]

module _ {V : Type 0} where
  find_offer-some :
      (c : CapabilityId) (os : List (CapabilityOffer V)) (o : CapabilityOffer V)
      → find_offer c os ≡ some o
      → Memᴰ o os × (o.id ≡ c)
  unfolding find_offer
  find_offer-some c [] o e = cc
  find_offer-some c (x ∷ os) o e = elim (Bool-cases (same x.id c)) [
    | inl at ↦
        let is : some x ≡ some o = rw at at e in
        let found : x ≡ o = cc in
        (
          Memᴰ.head (sym found),
          subst (λ (t : CapabilityOffer V). t.id ≡ c) found ((same_iff x.id c).0 at),
        )
    | inr off ↦ let (m, is) = find_offer-some c os o (rw off at e) in (mem_tail x m, is)
  ]

module _ {V A : Type 0} where
  check_offered_ok :
      (plugin : PluginId) (staged : ProvisionSet V A) (os : List (CapabilityOffer V))
      → check_offered plugin staged os ≡ ok tt
      → All (λ o. BTreeMap.contains_key o.id staged ≡ true) os
  unfolding check_offered
  check_offered_ok plugin staged [] e = tt
  check_offered_ok plugin staged (o ∷ os) e = ground (arith, check_offered_ok plugin staged os)

  -- A staged provision is declared, in the same version.
  abbrev pub Declares :
      (V → V → Bool) → List (CapabilityOffer V) → CapabilityId × Provision V A → Type 0
  Declares version_eq os e =
      (o : CapabilityOffer V) × Memᴰ o os
      × (o.id ≡ e.0)
      × (version_eq o.version e.1.contract.version ≡ true)

  check_offer_ok :
      (version_eq : V → V → Bool) (plugin : PluginId) (c : CapabilityId) (p : Provision V A)
      (os : List (CapabilityOffer V))
      → check_offer version_eq plugin c p (find_offer c os) ≡ ok tt
      → Declares version_eq os (c, p)
  check_offer_ok version_eq plugin c p os e = elim (Option-cases (find_offer c os)) [
    | inl none_found ↦ absurd (ground arith)
    | inr (o, found) ↦ let (m, is) = find_offer-some c os o found in (o, m, is, ground arith)
  ]

  check_staged_ok :
      (version_eq : V → V → Bool) (plugin : PluginId) (os : List (CapabilityOffer V))
      (staged : ProvisionSet V A)
      → check_staged version_eq plugin os staged ≡ ok tt
      → All (Declares version_eq os) staged
  unfolding check_staged
  check_staged_ok version_eq plugin os [] e = tt
  check_staged_ok version_eq plugin os ((c, p) ∷ staged) e =
      let (u, first, rest) = bind_ok (check_offer version_eq plugin c p (find_offer c os)) _ e in
      (
        check_offer_ok version_eq plugin c p os first,
        check_staged_ok version_eq plugin os staged rest,
      )

  -- If a sorted transaction commits, then every staged provision is declared in the same version,
  -- every declared offer is staged, and afterwards a lookup finds the staged provisions under this
  -- plugin and all else as before.
  pub commit_sound :
      {R : Type 0} (version_eq : V → V → Bool) (plugin : PluginId) (d : PluginDescriptor V R)
      (staged : ProvisionSet V A) (registry registry' : Registry V A)
      → BTreeMap.IsSorted staged
      → commit version_eq plugin d staged registry ≡ ok registry'
      → All (Declares version_eq (BTreeMap.values d.provides)) staged
        × All (λ o. BTreeMap.contains_key o.id staged ≡ true) (BTreeMap.values d.provides)
        × ((q : PluginId) (c : CapabilityId)
            → BTreeMap.get (q, c) registry' ≡ (
                if same q plugin
                then or_else (BTreeMap.get c staged) (BTreeMap.get (q, c) registry)
                else BTreeMap.get (q, c) registry))
  unfolding commit
  commit_sound version_eq plugin d staged registry registry' h e =
      let os = BTreeMap.values d.provides in
      let (u, first, rest) = bind_ok (check_staged version_eq plugin os staged) _ e in
      let (w, second, done) = bind_ok (check_offered plugin staged os) _ rest in
      let is : publish plugin staged registry ≡ registry' = cc in
      (
        check_staged_ok version_eq plugin os staged first,
        check_offered_ok plugin staged os second,
        λ q c.
            subst
              (λ t. BTreeMap.get (q, c) t ≡ (
                if same q plugin
                then or_else (BTreeMap.get c staged) (BTreeMap.get (q, c) registry)
                else BTreeMap.get (q, c) registry))
              is (get-publish q plugin c staged registry h),
      )
