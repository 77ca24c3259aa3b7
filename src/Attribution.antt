-- ===== src/Attribution.antt =====
-- Source attribution of an application (crates/kernox-core/src/attribution.rs).
pub mod Verified
use kernox.Prelude.{
  ℕ, Bool, List, [], ◌∷◌, ◌++◌, Option, none, some, ltb, length, Result, ok, err, ◌>>=◌, ◌>>◌,
  reject_if,
}
use kernox.Order.Derive.{nat_ord, list_ord}
use kernox.Collections.BTreeSet
use kernox.Collections.BTreeMap
use kernox.Id.{PluginId}
use kernox.Text.{Chars}
use kernox.Descriptor.{PluginSource, PluginDescriptor}
use kernox.Graph.{ResolvedGraph}

abbrev minimum_verified_plugins : ℕ
minimum_verified_plugins = 3

pub record AttributionReport : Type 0 where
  pub plugin_count : ℕ
  pub source_packages : List Chars

pub data AttributionError : Type 0 where
  too_few_plugins : (actual minimum : ℕ) → AttributionError
  missing_source : (plugin : PluginId) → AttributionError
  duplicate_source_package : (name : Chars) → AttributionError

abbrev source_package : PluginId → PluginSource → Option Chars → Result AttributionError Chars
source_package plugin source none = err (missing_source plugin)
source_package plugin source (some repository) = ok source.package_name

-- the package name of a plugin that names its source and its repository
abbrev pub attributed_package : PluginId → Option PluginSource → Result AttributionError Chars
attributed_package plugin none = err (missing_source plugin)
attributed_package plugin (some source) = source_package plugin source source.repository

module _ {V R : Type 0} where
  -- the loop over the plugins, with the set of the packages and the list that is built
  unfoldable pub collect_packages :
      (seen pushed : List Chars)
      → List (PluginDescriptor V R)
      → Result AttributionError (List Chars)
  collect_packages seen pushed [] = ok pushed
  collect_packages seen pushed (d ∷ ds) = do
    name ← attributed_package d.id d.source
    reject_if (BTreeSet.contains name seen) (duplicate_source_package name)
    collect_packages (BTreeSet.insert name seen) (pushed ++ name ∷ []) ds

  unfoldable pub verify_graph_attribution :
      ResolvedGraph V R → Result AttributionError AttributionReport
  unfolding collect_packages
  verify_graph_attribution g = do
    let plugin_count = length (BTreeMap.values g.plugins)
    reject_if (ltb plugin_count minimum_verified_plugins)
        (too_few_plugins plugin_count minimum_verified_plugins)
    source_packages ← collect_packages [] [] (BTreeMap.values g.plugins)
    ok (record { plugin_count = plugin_count; source_packages = source_packages })
