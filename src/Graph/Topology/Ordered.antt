-- ===== src/Graph/Topology/Ordered.antt =====
-- Lists in which a node stands in front of another, and lists without a repetition.
use kernox.Prelude.{
  ◌≡◌, sym, inl, ⊎_elim, List, [], ◌∷◌, ◌++◌, Memᴰ, mem_concat, mem_cons, not_mem_nil, mem_tail,
}
use mathlib.Core.List.{append_assoc}

-- `p` stands in the list, in front of an occurrence of `c`.
abbrev pub Before : {K : Type 0} → K → K → List K → Type 0
Before {K} p c order = (xs ys : List K) × (order ≡ xs ++ c ∷ ys) × Memᴰ p xs

-- No element stands twice in the list.
abbrev pub NoRepeat : {K : Type 0} → List K → Type 0
NoRepeat [] = Unit
NoRepeat (x ∷ xs) = (Memᴰ x xs → ⊥) × NoRepeat xs

pub NoRepeat-concat :
    {K : Type 0} (xs : List K) (x : K) → NoRepeat xs → (Memᴰ x xs → ⊥) → NoRepeat (xs ++ x ∷ [])
NoRepeat-concat [] x h n = (λ m. not_mem_nil m, tt)
NoRepeat-concat (y ∷ xs) x h n = (
  λ m. ⊎_elim h.0 (λ e. n ((mem_cons x y xs).1 (inl (sym e)))) ((mem_concat y x xs).0 m),
  NoRepeat-concat xs x h.1 (λ m. n (mem_tail y m)),
)

pub Before-concat :
    {K : Type 0} (p c x : K) (order : List K) → Before p c order → Before p c (order ++ x ∷ [])
Before-concat p c x order (xs, ys, e, m) = (xs, ys ++ x ∷ [], simp (e, append_assoc), m)
