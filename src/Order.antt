-- ===== src/Order.antt =====
-- Rust's `Ord`: a total order given by a three-way comparison. The identifier types, the edges and
-- the diagnostics of the graph derive it, and the ordered collections take it as an instance.
pub mod Derive
use kernox.Prelude.{
  ◌≡◌, ◌≢◌, refl, Bool-cases, ◌↔◌, ◌⊎◌, inl, inr, Bool, true, false, Ordering, arith, subst,
}

pub record Ord {ℓ} (A : Type ℓ) : Type ℓ where
  pub cmp : A → A → Ordering
  pub eq_of_cmp : (a b : A) → cmp a b ≡ Ordering.eq → a ≡ b
  pub cmp_refl : (a : A) → cmp a a ≡ Ordering.eq
  pub cmp_gt : (a b : A) → cmp a b ≡ Ordering.gt → cmp b a ≡ Ordering.lt
  pub cmp_trans :
      (a b c : A) → cmp a b ≡ Ordering.lt → cmp b c ≡ Ordering.lt → cmp a c ≡ Ordering.lt

-- `Ordering::then_with`
abbrev pub then_with : Ordering → Ordering → Ordering
then_with Ordering.lt later = Ordering.lt
then_with Ordering.eq later = later
then_with Ordering.gt later = Ordering.gt

pub Ordering-cases : (o : Ordering) → (o ≡ Ordering.lt) ⊎ (o ≡ Ordering.eq) ⊎ (o ≡ Ordering.gt)
Ordering-cases Ordering.lt = inl refl
Ordering-cases Ordering.eq = inr (inl refl)
Ordering-cases Ordering.gt = inr (inr refl)

module _ {ℓ} {A : Type ℓ} ⦃o : Ord A⦄ where
  abbrev pub cmp : A → A → Ordering
  cmp = o.cmp

  abbrev pub Lt : A → A → Type 0
  Lt a b = o.cmp a b ≡ Ordering.lt

  -- `a == b`, which agrees with `cmp`
  abbrev pub same : A → A → Bool
  same a b = elim (o.cmp a b) [ Ordering.eq ↦ true | _ ↦ false ]

  pub same_iff : (a b : A) → (same a b ≡ true) ↔ (a ≡ b)
  same_iff a b = (
    λ h. o.eq_of_cmp a b (ground arith),
    λ e. subst (λ x. same a x ≡ true) e (ground (arith, o.cmp_refl a)),
  )

  pub same_refl : (a : A) → same a a ≡ true
  same_refl a = (same_iff a a).1 refl

  pub cmp_of_eq : (a b : A) → a ≡ b → o.cmp a b ≡ Ordering.eq
  cmp_of_eq a b e = subst (λ x. o.cmp a x ≡ Ordering.eq) e (o.cmp_refl a)

  pub Lt_irrefl : (a : A) → Lt a a → ⊥
  Lt_irrefl a h = ground (arith, o.cmp_refl a)

  pub Lt_trans : (a b c : A) → Lt a b → Lt b c → Lt a c
  Lt_trans = o.cmp_trans

  Lt_asymm : (a b : A) → Lt a b → Lt b a → ⊥
  Lt_asymm a b h k = Lt_irrefl a (o.cmp_trans a b a h k)

  pub cmp_swap : (a b : A) → Lt b a → o.cmp a b ≡ Ordering.gt
  cmp_swap a b h = ground (arith, o.cmp_refl a, o.eq_of_cmp a b, Lt_asymm a b, cmp_of_eq b a)

  pub same_of_eq : (a b : A) → a ≡ b → same a b ≡ true
  same_of_eq a b e = (same_iff a b).1 e

  pub same_of_Lt : (a b : A) → Lt a b → same b a ≡ false
  same_of_Lt a b h = ground (arith, cmp_swap b a h)

  pub same_of_ne : (a b : A) → a ≢ b → same a b ≡ false
  same_of_ne a b h = elim (Bool-cases (same a b)) [
    | inl e ↦ absurd (h ((same_iff a b).0 e))
    | inr e ↦ e
  ]
