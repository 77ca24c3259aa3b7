-- ===== src/Prelude/Results.antt =====
-- Rust's `Result`. `fault` is an outcome that no caller handles: a panic (an index out of range, a
-- key that is not in its map), or a loop of the model whose fuel ran out.
use mathlib.Core.Path.{◌≡◌, refl, sym, ap, subst}
use mathlib.Core.Logic.{◌⊎◌, inl, inr}
use mathlib.Core.Bool.{Bool, true, false}
use kernox.Prelude.Tests.{if◌then◌else◌}

pub data Result (E A : Type 0) : Type 0 where
  ok : A → Result E A
  err : E → Result E A
  fault : Result E A

infixl 5 ◌>>=◌ ◌>>◌
abbrev pub ◌>>=◌ : {E A B : Type 0} → Result E A → (A → Result E B) → Result E B
ok a >>= f = f a
err e >>= f = err e
fault >>= f = fault

abbrev pub ◌>>◌ : {E B : Type 0} → Result E (Unit {0}) → Result E B → Result E B
m >> k = m >>= λ _. k

-- `if test { return Err(e) }`
abbrev pub reject_if : {E : Type 0} → Bool → E → Result E (Unit {0})
reject_if true e = err e
reject_if false e = ok tt

-- A successful bind has two successful parts.
pub bind_ok :
    {E A B : Type 0} (m : Result E A) (f : A → Result E B) {b : B}
    → (m >>= f) ≡ ok b
    → (a : A) × (m ≡ ok a) × (f a ≡ ok b)
bind_ok (ok a) f h = (a, refl, h)
bind_ok (err e) f h = cc
bind_ok fault f h = cc

-- Past a `return Err(e)` its test failed.
pub reject_ok :
    {E B : Type 0} (b : Bool) (e : E) (m : Result E B) {a : B}
    → (reject_if b e >> m) ≡ ok a
    → (b ≡ false) × (m ≡ ok a)
reject_ok true e m h = cc
reject_ok false e m h = (refl, h)

-- The computation returns a value or an error.
abbrev pub Ends : {E A : Type 0} → Result E A → Type 0
Ends {E} {A} m = ((a : A) × (m ≡ ok a)) ⊎ ((e : E) × (m ≡ err e))

pub Ends-bind :
    {E A B : Type 0} (m : Result E A) (f : A → Result E B)
    → Ends m
    → ((a : A) → m ≡ ok a → Ends (f a))
    → Ends (m >>= f)
Ends-bind m f (inl (a, is)) k = subst (λ t. Ends (t >>= f)) (sym is) (k a is)
Ends-bind m f (inr (e, is)) k = inr (e, ap (λ t. t >>= f) is)

pub Ends-reject_if : {E : Type 0} (b : Bool) (e : E) → Ends (reject_if b e)
Ends-reject_if true e = inr (e, refl)
Ends-reject_if false e = inl (tt, refl)

pub Ends-if :
    {E A : Type 0} (b : Bool) (m n : Result E A) → Ends m → Ends n → Ends (if b then m else n)
Ends-if true m n h k = h
Ends-if false m n h k = k

-- A test in front of a computation.
pub Ends-guard :
    {E A : Type 0} (b : Bool) (e : E) (m : Result E A) → Ends m → Ends (reject_if b e >> m)
Ends-guard b e m h = Ends-bind (reject_if b e) _ (Ends-reject_if b e) λ _ _. h
