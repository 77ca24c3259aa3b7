-- ===== src/Attribution/Verified.antt =====
-- What `verify_graph_attribution` accepts (crates/kernox-core/src/attribution.rs).
use kernox.Prelude.{
  ◌≤◌, ◌≡◌, refl, sym, subst, ap, ◌∙◌, ◌↔◌, List, [], ◌∷◌, ◌++◌, some, ltb, length, false, ok,
  bind_ok, reject_ok, arith, Option-cases, inl, inr,
}
use mathlib.Core.List
use kernox.Order.Derive.{nat_ord, list_ord}
use kernox.Collections.BTreeSet
use kernox.Collections.BTreeMap
use kernox.Text.{Chars}
use kernox.Descriptor.{PluginDescriptor, PluginSource}
use kernox.Graph.{ResolvedGraph}
use kernox.Attribution.{
  AttributionReport, attributed_package, collect_packages, verify_graph_attribution,
}

module _ {V R : Type 0} where
  -- The plugin has a source with this package name and with a repository.
  abbrev Names : PluginDescriptor V R → Chars → Type 0
  Names d name =
      (source : PluginSource) × (repository : Chars) × (d.source ≡ some source)
      × (source.repository ≡ some repository)
      × (source.package_name ≡ name)

  -- The plugins name these source packages, in this order.
  abbrev pub Attributed : List (PluginDescriptor V R) → List Chars → Type 0
  Attributed [] [] = Unit
  Attributed [] (name ∷ names) = ⊥
  Attributed (d ∷ ds) [] = ⊥
  Attributed (d ∷ ds) (name ∷ names) = Names d name × Attributed ds names

  attributed_package_iff :
      (d : PluginDescriptor V R) (name : Chars)
      → (attributed_package d.id d.source ≡ ok name) ↔ Names d name
  attributed_package_iff d name = elim (Option-cases d.source) [
    | inl e ↦ (λ h. absurd (ground (arith, e)), λ (s, r, f, g, k). absurd (ground (arith, e)))
    | inr (s, e) ↦ elim (Option-cases s.repository) [
      | inl f ↦
          (λ h. absurd (ground (arith, e, f)), λ (t, r, g, k, l). absurd (ground (arith, e, f)))
      | inr (r, f) ↦
          (λ h. (s, r, e, f, ground (arith, e, f)), λ (t, q, g, k, l). ground (arith, e, f))
    ]
  ]

  collect_packages_ok :
      (seen pushed : List Chars) (ds : List (PluginDescriptor V R)) (names : List Chars)
      → collect_packages seen pushed ds ≡ ok names
      → (rest : List Chars) × (names ≡ pushed ++ rest)
        × Attributed ds rest
        × BTreeSet.Distinct rest
        × BTreeSet.Fresh seen rest
  unfolding collect_packages
  collect_packages_ok seen pushed [] names e = ([], cc (List.append-nil pushed), tt, tt, tt)
  collect_packages_ok seen pushed (d ∷ ds) names e =
      let (name, named, rest) = bind_ok (attributed_package d.id d.source) _ e in
      let (new_name, others) = reject_ok (BTreeSet.contains name seen) _ _ rest in
      let (tail, is, h, apart, fresh) =
        collect_packages_ok (BTreeSet.insert name seen) (pushed ++ name ∷ []) ds names others in
      let (off, old) = (BTreeSet.Fresh-insert seen name tail).0 fresh in
      (
        name ∷ tail,
        is ∙ List.append_assoc pushed (name ∷ []) tail,
        ((attributed_package_iff d name).0 named, h),
        (off, apart),
        (new_name, old),
      )

  collect_packages_complete :
      (seen pushed : List Chars) (ds : List (PluginDescriptor V R)) (rest : List Chars)
      → Attributed ds rest
      → BTreeSet.Distinct rest
      → BTreeSet.Fresh seen rest
      → collect_packages seen pushed ds ≡ ok (pushed ++ rest)
  unfolding collect_packages
  collect_packages_complete seen pushed [] [] h k l = ap ok (sym (List.append-nil pushed))
  collect_packages_complete seen pushed [] (name ∷ rest) h k l = absurd h
  collect_packages_complete seen pushed (d ∷ ds) [] h k l = absurd h
  collect_packages_complete seen pushed (d ∷ ds) (name ∷ rest) h k l =
      rw ((attributed_package_iff d name).1 h.0, collect_packages, l.0)
        (collect_packages_complete (BTreeSet.insert name seen) (pushed ++ name ∷ []) ds rest h.1 k.1
            ((BTreeSet.Fresh-insert seen name rest).1 (k.0, l.1))
          ∙ ap ok (List.append_assoc pushed (name ∷ []) rest))

  -- The verification succeeds with a report exactly when there are at least three plugins, each has a
  -- source with a repository, their package names are distinct, and the report holds the number of
  -- the plugins and these names in the order of the plugins.
  pub verify_graph_attribution_iff :
      (g : ResolvedGraph V R) (r : AttributionReport)
      → (verify_graph_attribution g ≡ ok r) ↔ (
          (3 ≤ r.plugin_count)
          × (r.plugin_count ≡ length (BTreeMap.values g.plugins))
          × Attributed (BTreeMap.values g.plugins) r.source_packages
          × BTreeSet.Distinct r.source_packages)
  unfolding verify_graph_attribution
  verify_graph_attribution_iff g r = (
    λ e.
        let ds = BTreeMap.values g.plugins in
        let (enough, rest) = reject_ok (ltb (length ds) 3) _ _ e in
        let (names, collected, last) = bind_ok (collect_packages [] [] ds) _ rest in
        let (tail, is, h, apart, fresh) = collect_packages_ok [] [] ds names collected in
        let made : record { plugin_count = length ds; source_packages = tail } ≡ r = cc in
        subst
          (λ (t : AttributionReport).
            (3 ≤ t.plugin_count)
            × (t.plugin_count ≡ length ds)
            × Attributed ds t.source_packages
            × BTreeSet.Distinct t.source_packages)
          made (ground arith, refl, h, apart),
    λ (enough, count, h, apart).
        let ds = BTreeMap.values g.plugins in
        let few : ltb (length ds) 3 ≡ false = ground arith in
        rw
          (
            few,
            collect_packages_complete [] [] ds r.source_packages h apart
                (BTreeSet.Fresh-nil r.source_packages),
            sym count,
          )
          refl,
  )
