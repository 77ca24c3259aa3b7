-- ===== src/Graph/Checks/Index.antt =====
-- The map of the plugins: what it holds, and that the order of the declarations does not matter.
use kernox.Prelude.{
  ◌≡◌, refl, ◌≢◌, sym, ap, ◌∙◌, ◌↔◌, ◌⊎◌, inl, inr, ⊎_elim, false, List, [], ◌∷◌, Memᴰ, All, ok,
  ◌>>=◌, bind_ok, reject_ok, or_false, ltb, mem_cons, not_mem_nil,
}
use mathlib.Core.List.{Permᴰ}
use kernox.Order.{same, same_of_eq, same_of_ne}
use kernox.Collections.BTreeMap
use kernox.Id.{PluginId, plugin_id_ord}
use kernox.Descriptor.{PluginDescriptor}
use kernox.Graph.{GraphLimits}
use kernox.Graph.Checks.{Plugins, declaration_count, index_plugin, index_plugins}

module _ {V R : Type 0} where
  new_of_insert :
      (m : Plugins V R) (k : PluginId) (d : PluginDescriptor V R)
      → BTreeMap.contains_key k (BTreeMap.insert d.id d m) ≡ false
      → (same k d.id ≡ false) × (BTreeMap.contains_key k m ≡ false)
  new_of_insert m k d h = or_false _ _ (sym (BTreeMap.contains_key-insert k d.id d m) ∙ h)

  new_insert :
      (m : Plugins V R) (k : PluginId) (d : PluginDescriptor V R)
      → k ≢ d.id
      → BTreeMap.contains_key k m ≡ false
      → BTreeMap.contains_key k (BTreeMap.insert d.id d m) ≡ false
  new_insert m k d apart new =
      BTreeMap.contains_key-insert k d.id d m ∙ rw (same_of_ne k d.id apart, new)

module _ {V R : Type 0} (limits : GraphLimits) where
  -- A plugin that is taken is within the limit and new.
  index_plugin_ok :
      (m m' : Plugins V R) (d : PluginDescriptor V R)
      → index_plugin limits m d ≡ ok m'
      → (ltb limits.max_capabilities_per_plugin (declaration_count d) ≡ false)
        × (BTreeMap.contains_key d.id m ≡ false)
        × (BTreeMap.insert d.id d m ≡ m')
  unfolding index_plugin
  index_plugin_ok m m' d h =
      let (fits, rest) =
        reject_ok (ltb limits.max_capabilities_per_plugin (declaration_count d)) _ _ h in
      let (new, e) = reject_ok (BTreeMap.contains_key d.id m) _ _ rest in (fits, new, cc)

  index_plugin_of :
      (m : Plugins V R) (d : PluginDescriptor V R)
      → ltb limits.max_capabilities_per_plugin (declaration_count d) ≡ false
      → BTreeMap.contains_key d.id m ≡ false
      → index_plugin limits m d ≡ ok (BTreeMap.insert d.id d m)
  unfolding index_plugin
  index_plugin_of m d fits new = rw (fits, new)

  pub record IsIndex (m : Plugins V R) : Type 0 where
    pub sorted : BTreeMap.IsSorted m
    pub keyed : All (λ e. e.0 ≡ e.1.id) m

  index_plugin-IsIndex :
      (m m' : Plugins V R) (d : PluginDescriptor V R)
      → IsIndex m
      → index_plugin limits m d ≡ ok m'
      → IsIndex m'
  index_plugin-IsIndex m m' d h e =
      let (_, _, is) = index_plugin_ok m m' d e in
      rw (← is) (record {
        sorted = BTreeMap.insert-IsSorted d.id d m h.sorted;
        keyed = BTreeMap.All-insert (λ e. e.0 ≡ e.1.id) d.id d m refl h.keyed;
      })

  pub index_plugins-IsIndex :
      (m m' : Plugins V R) (ds : List (PluginDescriptor V R))
      → IsIndex m
      → index_plugins limits m ds ≡ ok m'
      → IsIndex m'
  unfolding index_plugins
  index_plugins-IsIndex m m' [] h e = let same_map : m ≡ m' = cc in rw (← same_map) h
  index_plugins-IsIndex m m' (d ∷ ds) h e =
      let (n, first, rest) = bind_ok (index_plugin limits m d) _ e in
      index_plugins-IsIndex n m' ds (index_plugin-IsIndex m n d h first) rest

  entry_eq :
      (k : PluginId) (v d : PluginDescriptor V R)
      → k ≡ v.id
      → v ≡ d
      → ◌≡◌ {A = PluginId × PluginDescriptor V R} (k, v) (d.id, d)
  entry_eq k v d key e = let value : k ≡ d.id = key ∙ ap (λ t. t.id) e in cc

  -- The entries are the declared plugins, under their identities.
  pub mem-index_plugins :
      (m m' : Plugins V R) (ds : List (PluginDescriptor V R))
      → index_plugins limits m ds ≡ ok m'
      → (e : PluginId × PluginDescriptor V R)
      → Memᴰ e m' ↔ (Memᴰ e m ⊎ Memᴰ e.1 ds × (e.0 ≡ e.1.id))
  unfolding index_plugins
  mem-index_plugins m m' [] h e =
      let same_map : m ≡ m' = cc in rw (← same_map) (inl, ⊎_elim (λ x. x) (λ x. not_mem_nil x.0))
  mem-index_plugins m m' (d ∷ ds) h (k, v) =
      let (n, first, rest) = bind_ok (index_plugin limits m d) _ h in
      let (_, new, is) = index_plugin_ok m n d first in
      let there = mem-index_plugins n m' ds rest (k, v) in
      let here : Memᴰ (k, v) n ↔ (((k, v) ≡ (d.id, d)) ⊎ Memᴰ (k, v) m) =
        rw (← is) (BTreeMap.mem-insert_new (k, v) d.id d m new) in
      let cons = mem_cons v d ds in
      (
        λ x.
            ⊎_elim
              (λ old.
                ⊎_elim
                  (λ e.
                    inr
                      (cons.1 (inl (ap (λ t. t.1) e)), ap (λ t. t.0) e ∙ sym (ap (λ t. t.1.id) e)))
                  inl (here.0 old))
              (λ y. inr (cons.1 (inr y.0), y.1)) (there.0 x),
        λ x. there.1 (
            ⊎_elim (λ old. inl (here.1 (inr old)))
              (λ y.
                ⊎_elim (λ e. inl (here.1 (inl (entry_eq k v d y.1 e)))) (λ later. inr (later, y.1))
                  (cons.0 y.0))
              x),
      )

  -- Two plugins that are taken one after the other are taken in the other order.
  index_two :
      (m n n' : Plugins V R) (a b : PluginDescriptor V R)
      → IsIndex m
      → index_plugin limits m a ≡ ok n
      → index_plugin limits n b ≡ ok n'
      → (k : Plugins V R) × (index_plugin limits m b ≡ ok k) × (index_plugin limits k a ≡ ok n')
  index_two m n n' a b h first second =
      let (a_fits, a_new, is) = index_plugin_ok m n a first in
      let (b_fits, b_new, is') = index_plugin_ok n n' b second in
      let (apart, b_new') = new_of_insert m b.id a (rw (← is) at b_new) in
      let apart' : a.id ≢ b.id = λ e. cc (same_of_eq b.id a.id (sym e), apart) in
      (
        BTreeMap.insert b.id b m,
        index_plugin_of m b b_fits b_new',
        index_plugin_of _ a a_fits (new_insert m a.id b apart' a_new)
            ∙ ap ok (BTreeMap.insert_comm a.id b.id a b m h.sorted apart')
            ∙ ap ok (ap (BTreeMap.insert b.id b) is ∙ is'),
      )

  pub index_plugins_perm :
      {ds es : List (PluginDescriptor V R)} (m m' : Plugins V R)
      → IsIndex m
      → Permᴰ ds es
      → index_plugins limits m ds ≡ ok m'
      → index_plugins limits m es ≡ ok m'
  unfolding index_plugins
  index_plugins_perm m m' h Permᴰ.nil e = e
  index_plugins_perm m m' h (Permᴰ.cons {a} {b} {l₁} {l₂} same_head p) e =
      let (n, first, rest) = bind_ok (index_plugin limits m a) _ e in
      let first' : index_plugin limits m b ≡ ok n = rw (← same_head) first in
      rw (first', ◌>>=◌) (index_plugins_perm n m' (index_plugin-IsIndex m n a h first) p rest)
  index_plugins_perm m m' h (Permᴰ.swap {a} {b} {a'} {b'} {l} ea eb) e =
      let (n, first, rest) = bind_ok (index_plugin limits m a) _ e in
      let (n', second, last) = bind_ok (index_plugin limits n b) _ rest in
      let (k, b_first, a_second) = index_two m n n' a b h first second in
      let b_first' : index_plugin limits m a' ≡ ok k = rw (← eb) b_first in
      let a_second' : index_plugin limits k b' ≡ ok n' = rw (← ea) a_second in
      rw (b_first', ◌>>=◌) (rw (a_second', ◌>>=◌) last)
  index_plugins_perm m m' h (Permᴰ.trans p q) e =
      index_plugins_perm m m' h q (index_plugins_perm m m' h p e)
