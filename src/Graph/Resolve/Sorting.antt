-- ===== src/Graph/Resolve/Sorting.antt =====
-- Sorting the resolved requirements loses and adds none.
use kernox.Prelude.{
  ◌≡◌, ◌↔◌, ◌⊎◌, inl, inr, ⊎_elim, List, [], ◌∷◌, Memᴰ, mem_cons, mem_tail, Ordering,
}
use kernox.Order.{cmp}
use kernox.Order.Derive.{pair_ord}
use kernox.Id.{plugin_id_ord, capability_id_ord}
use kernox.Graph.{ResolvedRequirement, edge_ord}
use kernox.Graph.Resolve.{requirement_key, insert_requirement, sort_requirements}

mem-insert_requirement :
    (q r : ResolvedRequirement) (rs : List ResolvedRequirement)
    → Memᴰ q (insert_requirement r rs) ↔ ((q ≡ r) ⊎ Memᴰ q rs)
unfolding insert_requirement
mem-insert_requirement q r [] = mem_cons q r []
mem-insert_requirement q r (s ∷ rs) =
    let later = mem-insert_requirement q r rs in
    elim (cmp (requirement_key r) (requirement_key s))
      as (λ c.
        Memᴰ q (elim c [ Ordering.gt ↦ s ∷ insert_requirement r rs | _ ↦ r ∷ s ∷ rs ])
        ↔ ((q ≡ r) ⊎ Memᴰ q (s ∷ rs))) [
          | Ordering.gt ↦ (
            λ m.
                ⊎_elim (λ e. inr ((mem_cons q s rs).1 (inl e)))
                  (λ m'. ⊎_elim inl (λ x. inr (mem_tail s x)) (later.0 m')) ((mem_cons q s _).0 m),
            ⊎_elim (λ e. mem_tail s (later.1 (inl e)))
                (λ m.
                  ⊎_elim (λ e. (mem_cons q s _).1 (inl e)) (λ m'. mem_tail s (later.1 (inr m')))
                    ((mem_cons q s rs).0 m)),
          )
          | _ ↦ mem_cons q r (s ∷ rs)
        ]

-- Sorting keeps the requirements.
pub mem-sort_requirements :
    (q : ResolvedRequirement) (rs : List ResolvedRequirement)
    → Memᴰ q (sort_requirements rs) ↔ Memᴰ q rs
unfolding sort_requirements
mem-sort_requirements q [] = (λ m. m, λ m. m)
mem-sort_requirements q (r ∷ rs) =
    let later = mem-sort_requirements q rs in
    let here = mem-insert_requirement q r (sort_requirements rs) in
    let cons = mem_cons q r rs in
    (
      λ m. ⊎_elim (λ e. cons.1 (inl e)) (λ x. cons.1 (inr (later.0 x))) (here.0 m),
      λ m. ⊎_elim (λ e. here.1 (inl e)) (λ x. here.1 (inr (later.1 x))) (cons.0 m),
    )
