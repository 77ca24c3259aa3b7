-- ===== src/Runtime/Provisions/RoundTrip.antt =====
-- From `ProvisionSet::provide` to a typed lookup (crates/kernox-runtime/src/capability.rs).
use kernox.Prelude.{
  ◌≡◌, refl, subst, ◌∙◌, Bool, true, some, Result, ok, err, fault, bind_ok, reject_ok, ==_iff, ℕ,
  ◌==◌,
}
use kernox.Order.{same_refl}
use kernox.Order.Derive.{pair_ord}
use kernox.Collections.BTreeMap
use kernox.Id.{Bytes, PluginId, plugin_id_ord, capability_id_ord}
use kernox.Descriptor.{PluginDescriptor}
use kernox.Runtime.Provisions.{
  Marker, CapabilityContract, Provision, ProvisionSet, Registry, invalid_contract, map_err,
  contract_of, stage, commit, lookup, root_capability,
}
use kernox.Runtime.Provisions.Committed.{commit_sound}

map_err_ok : {E F B : Type 0} (f : E → F) (m : Result E B) {b : B} → map_err f m ≡ ok b → m ≡ ok b
map_err_ok f (ok b) e = cc
map_err_ok f (err x) e = cc
map_err_ok f fault e = cc

eq_refl : (n : ℕ) → (n == n) ≡ true
eq_refl n = (==_iff n n).1 refl

module _ {V A : Type 0} where
  lookup_found :
      (m : Marker) (registry : Registry V A) (plugin : PluginId) (c : CapabilityContract V)
      (value : A)
      → BTreeMap.get (plugin, c.id) registry
        ≡ some (record {
          contract = c;
          boxed = record { interface_type = m.interface_type; value = value };
        })
      → lookup m registry plugin c ≡ ok value
  unfolding lookup
  lookup_found m registry plugin c value at =
      rw (lookup, at, eq_refl c.marker_type, eq_refl m.interface_type) refl

module _ {V A : Type 0} (parse : Bytes → Result Bytes V) where
  -- If a value is staged for a marker in a sorted transaction, and the transaction commits, then a
  -- lookup of that marker at the plugin returns the value.
  pub root_capability-commit :
      {R : Type 0} (version_eq : V → V → Bool) (plugin : PluginId) (d : PluginDescriptor V R)
      (m : Marker) (value : A) (staged staged' : ProvisionSet V A)
      (registry registry' : Registry V A)
      → BTreeMap.IsSorted staged
      → stage parse m value staged ≡ ok staged'
      → commit version_eq plugin d staged' registry ≡ ok registry'
      → root_capability parse m registry' plugin ≡ ok value
  unfolding stage root_capability
  root_capability-commit version_eq plugin d m value staged staged' registry registry' h put done =
      let (c, contract, rest) = bind_ok (map_err invalid_contract (contract_of parse m)) _ put in
      let made = map_err_ok invalid_contract (contract_of parse m) contract in
      let (new, last) = reject_ok (BTreeMap.contains_key c.id staged) _ _ rest in
      let p : Provision V A = record {
        contract = c;
        boxed = record { interface_type = m.interface_type; value = value };
      } in
      let is : BTreeMap.insert c.id p staged ≡ staged' = cc in
      let sorted : BTreeMap.IsSorted staged' =
        subst BTreeMap.IsSorted is (BTreeMap.insert-IsSorted c.id p staged h) in
      let (declared, offered, found) =
        commit_sound version_eq plugin d staged' registry registry' sorted done in
      let there : BTreeMap.get c.id staged' ≡ some p =
        subst (λ t. BTreeMap.get c.id t ≡ some p) is
          (BTreeMap.get-insert c.id c.id p staged ∙ rw (same_refl c.id) refl) in
      let at : BTreeMap.get (plugin, c.id) registry' ≡ some p =
        found plugin c.id ∙ rw (same_refl plugin, there) refl in
      rw (root_capability, made) (lookup_found m registry' plugin c value at)
