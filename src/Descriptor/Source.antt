-- ===== src/Descriptor/Source.antt =====
-- `PluginSource::new` (crates/kernox-core/src/descriptor.rs): bounded source attribution.
use kernox.Prelude.{
  ℕ, ◌≤◌, ◌≡◌, ◌≢◌, refl, sym, subst, ◌↔◌, false, not, [], ◌∷◌, reverse, Option, none, some, String,
  ltb, is_empty, Result, ok, ◌>>◌, reject_if, bind_ok, reject_ok, arith,
}
use kernox.Order.{same, same_iff}
use kernox.Order.Derive.{nat_ord, list_ord}
use kernox.Text.{Chars, is_control, byte_length, any, trim}
use kernox.Text.Trimmed.{StartsClean, trim_iff}
use kernox.Descriptor.{PluginSource, DescriptorError, invalid_source}

abbrev max_source_package_length : ℕ
max_source_package_length = 255

abbrev max_source_repository_length : ℕ
max_source_repository_length = 2_048

unfoldable validate_source_field : String → Chars → ℕ → Result DescriptorError (Unit {0})
validate_source_field field value maximum = do
  reject_if (is_empty (trim value)) (invalid_source field "must not be empty")
  reject_if (not (same (trim value) value))
      (invalid_source field "must not have surrounding whitespace")
  reject_if (ltb maximum (byte_length value)) (invalid_source field "exceeds length bound")
  reject_if (any is_control value) (invalid_source field "contains control characters")

abbrev validate_repository : Option Chars → Result DescriptorError (Unit {0})
validate_repository none = ok tt
validate_repository (some repository) =
    validate_source_field "repository" repository max_source_repository_length

-- `PluginSource::new`, which the decoder of a source calls too
pub source_new : Chars → Option Chars → Result DescriptorError PluginSource
unfolding validate_source_field
source_new package_name repository = do
  validate_source_field "package" package_name max_source_package_length
  validate_repository repository
  ok (record { package_name = package_name; repository = repository })

-- A non-empty string with no whitespace at its ends, no control character, and at most so many bytes.
pub record IsBounded (maximum : ℕ) (value : Chars) : Type 0 where
  not_empty : value ≢ []
  pub starts : StartsClean value
  pub ends : StartsClean (reverse value)
  within : byte_length value ≤ maximum
  plain : any is_control value ≡ false

abbrev pub IsBoundedOption : ℕ → Option Chars → Type 0
IsBoundedOption maximum none = Unit
IsBoundedOption maximum (some value) = IsBounded maximum value

empty_iff : (cs : Chars) → (is_empty cs ≡ false) ↔ (cs ≢ [])
empty_iff [] = (λ e. cc, λ h. absurd (h refl))
empty_iff (c ∷ cs) = (λ e h. cc, λ h. refl)

validate_source_field_iff :
    (field : String) (value : Chars) (maximum : ℕ)
    → (validate_source_field field value maximum ≡ ok tt) ↔ IsBounded maximum value
unfolding validate_source_field
validate_source_field_iff field value maximum = (
  λ e.
      let (filled, e1) = reject_ok (is_empty (trim value)) _ _ e in
      let (untrimmed, e2) = reject_ok (not (same (trim value) value)) _ _ e1 in
      let (within, e3) = reject_ok (ltb maximum (byte_length value)) _ _ e2 in
      let whole : trim value ≡ value = (same_iff (trim value) value).0 (ground arith) in
      let (starts, ends) = (trim_iff value).0 whole in
      record {
        not_empty = subst (λ t. t ≢ []) whole ((empty_iff (trim value)).0 filled);
        starts = starts;
        ends = ends;
        within = ground arith;
        plain = ground arith;
      },
  λ h.
      let whole = (trim_iff value).1 (h.starts, h.ends) in
      let same_value = (same_iff (trim value) value).1 whole in
      let filled = (empty_iff (trim value)).1 (subst (λ t. t ≢ []) (sym whole) h.not_empty) in
      ground (arith, filled, same_value, h.within, h.plain),
)

-- `PluginSource::new` succeeds exactly when both fields are bounded, and then keeps them unchanged.
pub source_new_iff :
    (package_name : Chars) (repository : Option Chars) (source : PluginSource)
    → (source_new package_name repository ≡ ok source) ↔ (
        (source ≡ record { package_name = package_name; repository = repository })
        × IsBounded max_source_package_length package_name
        × IsBoundedOption max_source_repository_length repository)
unfolding source_new
source_new_iff package_name none source = (
  λ e.
      let (u, first, rest) = bind_ok (validate_source_field "package" package_name 255) _ e in
      (cc, (validate_source_field_iff _ _ _).0 first, tt),
  λ (is, h, u). rw ((validate_source_field_iff "package" package_name 255).1 h, is) refl,
)
source_new_iff package_name (some repository) source = (
  λ e.
      let (u, first, rest) = bind_ok (validate_source_field "package" package_name 255) _ e in
      let (w, second, last) =
        bind_ok (validate_source_field "repository" repository 2_048) _ rest in
      (cc, (validate_source_field_iff _ _ _).0 first, (validate_source_field_iff _ _ _).0 second),
  λ (is, h, k).
      rw
        (
          (validate_source_field_iff "package" package_name 255).1 h,
          (validate_source_field_iff "repository" repository 2_048).1 k,
          is,
        )
        refl,
)
