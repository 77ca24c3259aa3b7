-- ===== src/Graph/Checks/Total.antt =====
-- The checks before the selection (crates/kernox-core/src/graph.rs) return.
use kernox.Prelude.{
  Ends, Ends-bind, Ends-reject_if, Ends-guard, ℕ, ◌≡◌, refl, subst, inl, true, not, List, [], ◌∷◌,
  ltb, ok, bind_ok, reject_ok, All, String, arith,
}
use kernox.Order.Derive.{pair_ord}
use kernox.Collections.BTreeMap
use kernox.Id.{PluginId, plugin_id_ord, capability_id_ord}
use kernox.Descriptor.{PluginDescriptor, CapabilityRequirement, Binding}
use kernox.Error.{
  capability_limit_exceeded, duplicate_plugin, unknown_binding_consumer, unknown_binding_provider,
  duplicate_binding,
}
use kernox.Graph.{GraphLimits, edge_ord}
use kernox.Graph.Checks.{
  Plugins, Bindings, check_limit, index_plugin, index_plugins, declaration_count, check_conflicts,
  check_all_conflicts, check_self_dependencies, check_all_self_dependencies, add_binding,
  add_bindings,
}

module _ {V R : Type 0} where
  pub index_plugins-Ends :
      (limits : GraphLimits) (plugins : Plugins V R) (ds : List (PluginDescriptor V R))
      → Ends (index_plugins limits plugins ds)
  unfolding index_plugins index_plugin
  index_plugins-Ends limits plugins [] = inl (plugins, refl)
  index_plugins-Ends limits plugins (d ∷ ds) =
      Ends-bind (index_plugin limits plugins d) _
        (Ends-guard (ltb limits.max_capabilities_per_plugin (declaration_count d))
          (capability_limit_exceeded d.id (declaration_count d) limits.max_capabilities_per_plugin)
          _
          (Ends-guard (BTreeMap.contains_key d.id plugins) (duplicate_plugin d.id) _
            (inl (BTreeMap.insert d.id d plugins, refl))))
        λ plugins' _. index_plugins-Ends limits plugins' ds

  check_conflicts-Ends :
      (plugins : Plugins V R) (plugin : PluginId) (cs : List PluginId)
      → Ends (check_conflicts plugins plugin cs)
  unfolding check_conflicts
  check_conflicts-Ends plugins plugin [] = inl (tt, refl)
  check_conflicts-Ends plugins plugin (c ∷ cs) =
      Ends-guard _ _ _ (check_conflicts-Ends plugins plugin cs)

  pub check_all_conflicts-Ends :
      (plugins : Plugins V R) (ds : List (PluginDescriptor V R))
      → Ends (check_all_conflicts plugins ds)
  unfolding check_all_conflicts
  check_all_conflicts-Ends plugins [] = inl (tt, refl)
  check_all_conflicts-Ends plugins (d ∷ ds) =
      Ends-bind (check_conflicts plugins d.id d.conflicts) _
        (check_conflicts-Ends plugins d.id d.conflicts) λ _ _. check_all_conflicts-Ends plugins ds

  check_self_dependencies-Ends :
      (d : PluginDescriptor V R) (rs : List (CapabilityRequirement R))
      → Ends (check_self_dependencies d rs)
  unfolding check_self_dependencies
  check_self_dependencies-Ends d [] = inl (tt, refl)
  check_self_dependencies-Ends d (r ∷ rs) = Ends-guard _ _ _ (check_self_dependencies-Ends d rs)

  pub check_all_self_dependencies-Ends :
      (ds : List (PluginDescriptor V R)) → Ends (check_all_self_dependencies ds)
  unfolding check_all_self_dependencies
  check_all_self_dependencies-Ends [] = inl (tt, refl)
  check_all_self_dependencies-Ends (d ∷ ds) =
      Ends-bind (check_self_dependencies d (BTreeMap.values d.requires)) _
        (check_self_dependencies-Ends d (BTreeMap.values d.requires))
        λ _ _. check_all_self_dependencies-Ends ds

  pub check_limit-Ends :
      (limit : String) (actual maximum : ℕ)
      → Ends (check_limit {V = V} {R = R} limit actual maximum)
  unfolding check_limit
  check_limit-Ends limit actual maximum = Ends-reject_if _ _

  -- Every binding is of a provider that the map holds.
  abbrev pub Bound : Plugins V R → Bindings → Type 0
  Bound plugins bindings = All (λ b. BTreeMap.contains_key b.1 plugins ≡ true) bindings

  pub add_bindings-Ends :
      (plugins : Plugins V R) (bindings : Bindings) (bs : List Binding)
      → Ends (add_bindings plugins bindings bs)
  unfolding add_bindings add_binding
  add_bindings-Ends plugins bindings [] = inl (bindings, refl)
  add_bindings-Ends plugins bindings (b ∷ bs) =
      Ends-bind (add_binding plugins bindings b) _
        (Ends-guard (not (BTreeMap.contains_key b.consumer plugins))
          (unknown_binding_consumer b.consumer) _
          (Ends-guard (not (BTreeMap.contains_key b.provider plugins))
            (unknown_binding_provider b.provider) _
            (Ends-guard (BTreeMap.contains_key (b.consumer, b.capability) bindings)
              (duplicate_binding b.consumer b.capability) _
              (inl (BTreeMap.insert (b.consumer, b.capability) b.provider bindings, refl)))))
        λ bindings' _. add_bindings-Ends plugins bindings' bs

  pub add_bindings-Bound :
      (plugins : Plugins V R) (bindings bindings' : Bindings) (bs : List Binding)
      → Bound plugins bindings
      → add_bindings plugins bindings bs ≡ ok bindings'
      → Bound plugins bindings'
  unfolding add_bindings add_binding
  add_bindings-Bound plugins bindings bindings' [] h e = subst (Bound plugins) (cc) h
  add_bindings-Bound plugins bindings bindings' (b ∷ bs) h e =
      let (next, one, rest) = bind_ok (add_binding plugins bindings b) _ e in
      let (_, e1) = reject_ok (not (BTreeMap.contains_key b.consumer plugins)) _ _ one in
      let (held, e2) = reject_ok (not (BTreeMap.contains_key b.provider plugins)) _ _ e1 in
      let (_, e3) = reject_ok (BTreeMap.contains_key (b.consumer, b.capability) bindings) _ _ e2 in
      let is : BTreeMap.insert (b.consumer, b.capability) b.provider bindings ≡ next = cc in
      add_bindings-Bound plugins next bindings' bs
        (subst (Bound plugins) is
          (BTreeMap.All-insert _ (b.consumer, b.capability) b.provider bindings (ground arith) h))
        rest
