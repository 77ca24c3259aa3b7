-- ===== src/Graph/Resolve/Permuted.antt =====
-- The order in which plugins are declared does not change the graph.
use mathlib.Core.List.{Permᴰ}
use kernox.Prelude.{◌≡◌, refl, ap, ◌∙◌, Bool, List, [], ok, ◌>>=◌, length, suc, bind_ok}
use kernox.Descriptor.{PluginDescriptor}
use kernox.Graph.{CompositionSpec, ResolvedGraph}
use kernox.Graph.Checks.{Plugins}
use kernox.Graph.Checks.Index.{index_plugins_perm}
use kernox.Graph.Resolve.{admit, resolve}
use kernox.Graph.Resolve.Stages.{admit_ok, empty-IsIndex}

length-perm : {A : Type 0} {xs ys : List A} → Permᴰ xs ys → length xs ≡ length ys
length-perm Permᴰ.nil = refl
length-perm (Permᴰ.cons e p) = ap suc (length-perm p)
length-perm (Permᴰ.swap e f) = refl
length-perm (Permᴰ.trans p q) = length-perm p ∙ length-perm q

module _ {V R : Type 0} where
  admit_perm :
      (spec : CompositionSpec V R) (ds : List (PluginDescriptor V R)) (plugins : Plugins V R)
      → Permᴰ spec.plugins ds
      → admit spec ≡ ok plugins
      → admit (record spec { plugins = ds }) ≡ ok plugins
  unfolding admit
  admit_perm spec ds plugins p h =
      let a = admit_ok spec plugins h in
      let indexed = index_plugins_perm spec.limits [] plugins (empty-IsIndex spec) p a.indexed in
      let size = rw (length-perm p) at a.size in
      rw (a.schema, a.limits, size, indexed, a.apart, a.outward, ◌>>=◌)

  -- If a composition resolves to a graph, then in every other order of its plugin declarations it
  -- resolves to the same graph.
  pub resolve_perm :
      (matches : R → V → Bool) (spec : CompositionSpec V R) (ds : List (PluginDescriptor V R))
      (g : ResolvedGraph V R)
      → Permᴰ spec.plugins ds
      → resolve matches spec ≡ ok g
      → resolve matches (record spec { plugins = ds }) ≡ ok g
  unfolding resolve
  resolve_perm matches spec ds g p h =
      let (plugins, admitted, rest) = bind_ok (admit spec) _ h in
      rw (admit_perm spec ds plugins p admitted, ◌>>=◌) rest
