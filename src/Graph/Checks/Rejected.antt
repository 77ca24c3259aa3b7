-- ===== src/Graph/Checks/Rejected.antt =====
-- What the conflict and the self-dependency checks refuse.
use kernox.Prelude.{
  ◌≡◌, refl, ◌↔◌, false, List, [], ◌∷◌, Memᴰ, All, All-mem, All-of_mem, none, ok, ◌>>=◌, arith,
  bind_ok,
}
use kernox.Collections.BTreeMap
use kernox.Id.{PluginId, plugin_id_ord}
use kernox.Descriptor
use kernox.Descriptor.{PluginDescriptor, CapabilityRequirement}
use kernox.Graph.Checks.{
  Plugins, check_conflicts, check_all_conflicts, validate_conflicts, check_self_dependencies,
  check_all_self_dependencies, validate_no_self_dependencies,
}

module _ {V R : Type 0} where
  -- No conflict that the plugin declares is present.
  abbrev NoConflict : Plugins V R → PluginDescriptor V R → Type 0
  NoConflict plugins d = All (λ c. BTreeMap.contains_key c plugins ≡ false) d.conflicts

  -- The plugin offers no capability that it requires.
  abbrev NoSelfDependency : PluginDescriptor V R → Type 0
  NoSelfDependency d = All (λ r. Descriptor.offer d r.id ≡ none) (BTreeMap.values d.requires)

  check_conflicts_iff :
      (plugins : Plugins V R) (p : PluginId) (cs : List PluginId)
      → (check_conflicts plugins p cs ≡ ok tt)
        ↔ All (λ c. BTreeMap.contains_key c plugins ≡ false) cs
  unfolding check_conflicts
  check_conflicts_iff plugins p [] = (λ e. tt, λ a. refl)
  check_conflicts_iff plugins p (c ∷ cs) = ground (arith, check_conflicts_iff plugins p cs)

  check_all_conflicts_iff :
      (plugins : Plugins V R) (ds : List (PluginDescriptor V R))
      → (check_all_conflicts plugins ds ≡ ok tt) ↔ All (NoConflict plugins) ds
  unfolding check_all_conflicts
  check_all_conflicts_iff plugins [] = (λ e. tt, λ a. refl)
  check_all_conflicts_iff plugins (d ∷ ds) = (
    λ e.
        let (u, first, rest) = bind_ok (check_conflicts plugins d.id d.conflicts) _ e in
        (
          (check_conflicts_iff plugins d.id d.conflicts).0 first,
          (check_all_conflicts_iff plugins ds).0 rest,
        ),
    λ (h, t).
        rw ((check_conflicts_iff plugins d.id d.conflicts).1 h, ◌>>=◌)
          ((check_all_conflicts_iff plugins ds).1 t),
  )

  -- The conflict check passes exactly when no plugin of the map declares a conflict with a plugin
  -- of the map.
  pub validate_conflicts_iff :
      (plugins : Plugins V R)
      → (validate_conflicts plugins ≡ ok tt) ↔ (
          (d : PluginDescriptor V R) (c : PluginId)
          → Memᴰ d (BTreeMap.values plugins)
          → Memᴰ c d.conflicts
          → BTreeMap.contains_key c plugins ≡ false)
  unfolding validate_conflicts
  validate_conflicts_iff plugins =
      let all = check_all_conflicts_iff plugins (BTreeMap.values plugins) in
      (
        λ e d c md mc.
            All-mem _ d.conflicts
              (All-mem (NoConflict plugins) (BTreeMap.values plugins) (all.0 e) md) mc,
        λ h. all.1 (
            All-of_mem _ (BTreeMap.values plugins)
              λ d md. All-of_mem _ d.conflicts λ c mc. h d c md mc),
      )

  check_self_dependencies_iff :
      (d : PluginDescriptor V R) (rs : List (CapabilityRequirement R))
      → (check_self_dependencies d rs ≡ ok tt) ↔ All (λ r. Descriptor.offer d r.id ≡ none) rs
  unfolding check_self_dependencies
  check_self_dependencies_iff d [] = (λ e. tt, λ a. refl)
  check_self_dependencies_iff d (r ∷ rs) = ground (arith, check_self_dependencies_iff d rs)

  check_all_self_dependencies_iff :
      (ds : List (PluginDescriptor V R))
      → (check_all_self_dependencies ds ≡ ok tt) ↔ All NoSelfDependency ds
  unfolding check_all_self_dependencies
  check_all_self_dependencies_iff [] = (λ e. tt, λ a. refl)
  check_all_self_dependencies_iff (d ∷ ds) = (
    λ e.
        let (u, first, rest) =
          bind_ok (check_self_dependencies d (BTreeMap.values d.requires)) _ e in
        ((check_self_dependencies_iff d _).0 first, (check_all_self_dependencies_iff ds).0 rest),
    λ (h, t).
        rw ((check_self_dependencies_iff d _).1 h, ◌>>=◌)
          ((check_all_self_dependencies_iff ds).1 t),
  )

  -- The check passes exactly when no plugin requires a capability that it offers itself.
  validate_no_self_dependencies_iff :
      (plugins : Plugins V R)
      → (validate_no_self_dependencies plugins ≡ ok tt)
        ↔ All NoSelfDependency (BTreeMap.values plugins)
  unfolding validate_no_self_dependencies
  validate_no_self_dependencies_iff plugins =
      check_all_self_dependencies_iff (BTreeMap.values plugins)
