-- ===== src/Order/Derive.antt =====
-- The orders that `#[derive(Ord)]` gives: numbers, pairs field by field, byte strings from the
-- left, and a type that is compared by an injective view of its fields.
use Prim.Native.Nat.{compare}
use kernox.Prelude.{ℕ, ◌≡◌, refl, List, [], ◌∷◌, Ordering, arith}
use kernox.Order.{Ord, then_with}

pub nat_eq_of_cmp : (a b : ℕ) → compare a b ≡ Ordering.eq → a ≡ b
nat_eq_of_cmp a b h = ground arith

pub nat_cmp_refl : (a : ℕ) → compare a a ≡ Ordering.eq
nat_cmp_refl a = ground arith

pub nat_cmp_gt : (a b : ℕ) → compare a b ≡ Ordering.gt → compare b a ≡ Ordering.lt
nat_cmp_gt a b h = ground arith

pub nat_cmp_trans :
    (a b c : ℕ) → compare a b ≡ Ordering.lt → compare b c ≡ Ordering.lt → compare a c ≡ Ordering.lt
nat_cmp_trans a b c h k = ground arith

instance abbrev pub nat_ord : Ord ℕ
nat_ord = record {
  cmp = compare;
  eq_of_cmp = nat_eq_of_cmp;
  cmp_refl = nat_cmp_refl;
  cmp_gt = nat_cmp_gt;
  cmp_trans = nat_cmp_trans;
}

module _ {ℓ κ} {A : Type ℓ} {B : Type κ} ⦃o : Ord A⦄ ⦃q : Ord B⦄ where
  abbrev pair_cmp : A × B → A × B → Ordering
  pair_cmp (a, b) (c, d) = then_with (o.cmp a c) (q.cmp b d)

  pub pair_eq_of_cmp : (x y : A × B) → pair_cmp x y ≡ Ordering.eq → x ≡ y
  pair_eq_of_cmp (a, b) (c, d) h = ground (arith, o.eq_of_cmp a c, q.eq_of_cmp b d)

  pub pair_cmp_refl : (x : A × B) → pair_cmp x x ≡ Ordering.eq
  pair_cmp_refl (a, b) = ground (arith, o.cmp_refl a, q.cmp_refl b)

  pub pair_cmp_gt : (x y : A × B) → pair_cmp x y ≡ Ordering.gt → pair_cmp y x ≡ Ordering.lt
  pair_cmp_gt (a, b) (c, d) h =
      ground (arith, o.cmp_gt a c, q.cmp_gt b d, o.eq_of_cmp a c, o.cmp_refl a)

  pub pair_cmp_trans :
      (x y z : A × B)
      → pair_cmp x y ≡ Ordering.lt
      → pair_cmp y z ≡ Ordering.lt
      → pair_cmp x z ≡ Ordering.lt
  pair_cmp_trans (a, b) (c, d) (e, f) h k =
      ground (
        arith,
        o.cmp_trans a c e,
        q.cmp_trans b d f,
        o.eq_of_cmp a c,
        o.eq_of_cmp c e,
        o.cmp_refl a,
      )

  instance abbrev pub pair_ord : Ord (A × B)
  pair_ord = record {
    cmp = pair_cmp;
    eq_of_cmp = pair_eq_of_cmp;
    cmp_refl = pair_cmp_refl;
    cmp_gt = pair_cmp_gt;
    cmp_trans = pair_cmp_trans;
  }

module _ {ℓ} {A : Type ℓ} ⦃o : Ord A⦄ where
  abbrev list_cmp : List A → List A → Ordering
  list_cmp [] [] = Ordering.eq
  list_cmp [] (y ∷ ys) = Ordering.lt
  list_cmp (x ∷ xs) [] = Ordering.gt
  list_cmp (x ∷ xs) (y ∷ ys) = then_with (o.cmp x y) (list_cmp xs ys)

  pub list_eq_of_cmp : (x y : List A) → list_cmp x y ≡ Ordering.eq → x ≡ y
  list_eq_of_cmp [] [] h = refl
  list_eq_of_cmp [] (y ∷ ys) h = cc
  list_eq_of_cmp (x ∷ xs) [] h = cc
  list_eq_of_cmp (x ∷ xs) (y ∷ ys) h = ground (arith, o.eq_of_cmp x y, list_eq_of_cmp xs ys)

  pub list_cmp_refl : (x : List A) → list_cmp x x ≡ Ordering.eq
  list_cmp_refl [] = refl
  list_cmp_refl (x ∷ xs) = ground (arith, o.cmp_refl x, list_cmp_refl xs)

  pub list_cmp_gt : (x y : List A) → list_cmp x y ≡ Ordering.gt → list_cmp y x ≡ Ordering.lt
  list_cmp_gt [] [] h = cc
  list_cmp_gt [] (y ∷ ys) h = cc
  list_cmp_gt (x ∷ xs) [] h = refl
  list_cmp_gt (x ∷ xs) (y ∷ ys) h =
      ground (arith, o.cmp_gt x y, list_cmp_gt xs ys, o.eq_of_cmp x y, o.cmp_refl x)

  pub list_cmp_trans :
      (x y z : List A)
      → list_cmp x y ≡ Ordering.lt
      → list_cmp y z ≡ Ordering.lt
      → list_cmp x z ≡ Ordering.lt
  list_cmp_trans [] [] z h k = cc
  list_cmp_trans (x ∷ xs) [] z h k = cc
  list_cmp_trans [] (y ∷ ys) [] h k = cc
  list_cmp_trans [] (y ∷ ys) (z ∷ zs) h k = refl
  list_cmp_trans (x ∷ xs) (y ∷ ys) [] h k = cc
  list_cmp_trans (x ∷ xs) (y ∷ ys) (z ∷ zs) h k = ground (
    arith,
    list_cmp_trans xs ys zs,
    o.cmp_trans x y z,
    o.eq_of_cmp x y,
    o.eq_of_cmp y z,
    o.cmp_refl x,
  )

  instance abbrev pub list_ord : Ord (List A)
  list_ord = record {
    cmp = list_cmp;
    eq_of_cmp = list_eq_of_cmp;
    cmp_refl = list_cmp_refl;
    cmp_gt = list_cmp_gt;
    cmp_trans = list_cmp_trans;
  }

-- A type is compared by the tuple of its fields.
abbrev pub ord_by {ℓ κ} :
    {A : Type ℓ} {B : Type κ} ⦃o : Ord B⦄ (f : A → B) → ((a b : A) → f a ≡ f b → a ≡ b) → Ord A
ord_by ⦃o⦄ f inj = record {
  cmp = λ a b. o.cmp (f a) (f b);
  eq_of_cmp = λ a b h. inj a b (o.eq_of_cmp (f a) (f b) h);
  cmp_refl = λ a. o.cmp_refl (f a);
  cmp_gt = λ a b. o.cmp_gt (f a) (f b);
  cmp_trans = λ a b c. o.cmp_trans (f a) (f b) (f c);
}
