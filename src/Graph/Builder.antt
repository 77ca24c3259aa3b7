-- ===== src/Graph/Builder.antt =====
-- `GraphBuilder` (crates/kernox-core/src/graph.rs): it collects a composition and resolves it.
use kernox.Prelude.{[], ◌∷◌, ◌++◌}
use kernox.Descriptor.{PluginDescriptor, Binding}
use kernox.Graph.{CompositionSpec, GraphLimits, composition_schema_version, default_limits}

module _ {V R : Type 0} where
  -- `CompositionSpec::default`
  abbrev pub default_spec : CompositionSpec V R
  default_spec = record {
    schema_version = composition_schema_version;
    limits = default_limits;
    plugins = [];
    bindings = [];
  }

  unfoldable pub with_limits : CompositionSpec V R → GraphLimits → CompositionSpec V R
  with_limits spec limits = record spec { limits = limits }

  unfoldable pub plugin : CompositionSpec V R → PluginDescriptor V R → CompositionSpec V R
  plugin spec descriptor = record spec { plugins = spec.plugins ++ descriptor ∷ [] }

  unfoldable pub binding : CompositionSpec V R → Binding → CompositionSpec V R
  binding spec b = record spec { bindings = spec.bindings ++ b ∷ [] }
