-- ===== src/Text/Trimmed.antt =====
-- The strings that `str::trim` leaves as they are.
use kernox.Prelude.{
  ◌≤◌, ◌≡◌, refl, sym, ap, ◌∙◌, ◌↔◌, false, [], ◌∷◌, reverse, length, length-append, arith,
  Bool-cases, inl, inr,
}
use mathlib.Core.List
use kernox.Text.{Chars, is_whitespace, trim_start, trim}

-- The string does not begin with a whitespace character.
abbrev pub StartsClean : Chars → Type 0
StartsClean [] = Unit
StartsClean (c ∷ cs) = is_whitespace c ≡ false

length-reverse : (cs : Chars) → length (reverse cs) ≡ length cs
length-reverse [] = refl
length-reverse (c ∷ cs) =
    rw (List.reverse-cons c cs)
      (omega (arith, length-append (reverse cs) (c ∷ []), length-reverse cs))

length-trim_start-le : (cs : Chars) → length (trim_start cs) ≤ length cs
unfolding trim_start
length-trim_start-le [] = omega arith
length-trim_start-le (c ∷ cs) = ground (arith, length-trim_start-le cs)

trim_start_clean : (cs : Chars) → StartsClean cs → trim_start cs ≡ cs
unfolding trim_start
trim_start_clean [] h = refl
trim_start_clean (c ∷ cs) h = rw h refl

-- If nothing was cut, the string begins clean.
StartsClean-of_length : (cs : Chars) → length cs ≤ length (trim_start cs) → StartsClean cs
unfolding trim_start
StartsClean-of_length [] h = tt
StartsClean-of_length (c ∷ cs) h = elim (Bool-cases (is_whitespace c)) [
  | inl white ↦ absurd (ground (arith, length-trim_start-le cs))
  | inr other ↦ other
]

-- `value.trim() == value` exactly when the string neither begins nor ends with whitespace.
pub trim_iff : (cs : Chars) → (trim cs ≡ cs) ↔ (StartsClean cs × StartsClean (reverse cs))
unfolding trim
trim_iff cs = (
  λ e.
      let first = trim_start cs in
      let last = trim_start (reverse first) in
      let whole : length last ≡ length cs = sym (length-reverse last) ∙ ap length e in
      let kept : length cs ≤ length first =
        omega (arith, whole, length-trim_start-le (reverse first), length-reverse first) in
      let clean = StartsClean-of_length cs kept in
      let same : first ≡ cs = trim_start_clean cs clean in
      (
        clean,
        StartsClean-of_length (reverse cs)
            (rw (sym same) (omega (arith, whole, length-reverse first, ap length same))),
      ),
  λ (h, k). rw (trim_start_clean cs h, trim_start_clean (reverse cs) k) (List.reverse-reverse cs),
)
