-- ===== src/Id.antt =====
-- Stable identifiers (crates/kernox-core/src/id.rs): validation of the canonical form, and the two
-- newtypes that the macro `qualified_id!` generates. A `&str` is the list of its UTF-8 bytes.
use kernox.Prelude.{
  ℕ, suc, ◌+◌, ◌-◌, ◌≡◌, ap, Bool, true, false, not, ◌&&◌, ◌||◌, List, [], ◌∷◌, ltb, leb, ◌==◌,
  if◌then◌else◌, length, is_empty,
}
use kernox.Order.{Ord}
use kernox.Order.Derive.{nat_ord, list_ord, ord_by}

abbrev pub Bytes : Type 0
Bytes = List ℕ

abbrev max_identifier_length : ℕ
max_identifier_length = 255

abbrev max_identifier_segment_length : ℕ
max_identifier_segment_length = 63

pub data IdentifierError : Type 0 where
  empty : IdentifierError
  too_long : (actual maximum : ℕ) → IdentifierError
  non_ascii : IdentifierError
  empty_segment : (segment : ℕ) → IdentifierError
  segment_too_long : (segment actual maximum : ℕ) → IdentifierError
  invalid_segment_start : (segment byte_index : ℕ) → IdentifierError
  invalid_segment_end : (segment byte_index : ℕ) → IdentifierError
  invalid_character : (byte_index character : ℕ) → IdentifierError

pub data Validation : Type 0 where
  valid : Validation
  invalid : IdentifierError → Validation

abbrev pub is_ascii_lowercase : ℕ → Bool
is_ascii_lowercase c = leb b'a' c && leb c b'z'

abbrev is_ascii_digit : ℕ → Bool
is_ascii_digit c = leb b'0' c && leb c b'9'

unfoldable pub is_ascii : Bytes → Bool
is_ascii [] = true
is_ascii (c ∷ cs) = ltb c 128 && is_ascii cs

-- `value.split('.')`: the segments between the separators, at least one
abbrev prepend_to_first : ℕ → List Bytes → List Bytes
prepend_to_first c [] = (c ∷ []) ∷ []
prepend_to_first c (s ∷ ss) = (c ∷ s) ∷ ss

unfoldable pub split : ℕ → Bytes → List Bytes
split sep [] = [] ∷ []
split sep (c ∷ cs) = if c == sep then [] ∷ split sep cs else prepend_to_first c (split sep cs)

abbrev is_segment_byte : ℕ → Bool
is_segment_byte c = is_ascii_lowercase c || (is_ascii_digit c || c == b'-')

-- the loop over the bytes after the first: `index` is the position in the segment
unfoldable pub validate_tail : (offset index : ℕ) → Bytes → Validation
validate_tail offset index [] = valid
validate_tail offset index (c ∷ cs) =
    if is_segment_byte c
    then validate_tail offset (suc index) cs
    else invalid (invalid_character (offset + index) c)

-- `bytes.last() == Some(&b'-')`
unfoldable pub ends_with_hyphen : Bytes → Bool
ends_with_hyphen [] = false
ends_with_hyphen (c ∷ []) = c == b'-'
ends_with_hyphen (c ∷ d ∷ cs) = ends_with_hyphen (d ∷ cs)

abbrev and_then : Validation → Validation → Validation
and_then valid next = next
and_then (invalid e) next = invalid e

-- the body of the loop over the segments
unfoldable pub validate_segment : (segment_index offset : ℕ) → Bytes → Validation
unfolding validate_tail ends_with_hyphen
validate_segment segment_index offset [] = invalid (empty_segment segment_index)
validate_segment segment_index offset (first ∷ others) =
    let segment = first ∷ others in
    if ltb max_identifier_segment_length (length segment)
    then invalid (segment_too_long segment_index (length segment) max_identifier_segment_length)
    else if not (is_ascii_lowercase first)
    then invalid (invalid_segment_start segment_index offset)
    else and_then (validate_tail offset 1 others) (
        if ends_with_hyphen segment
        then invalid (invalid_segment_end segment_index (offset + length segment - 1))
        else valid)

unfoldable pub validate_segments : (segment_index offset : ℕ) → List Bytes → Validation
unfolding validate_segment
validate_segments segment_index offset [] = valid
validate_segments segment_index offset (segment ∷ segments) =
    and_then (validate_segment segment_index offset segment)
      (validate_segments (suc segment_index) (offset + (length segment + 1)) segments)

unfoldable pub validate_identifier : Bytes → Validation
unfolding validate_segments is_ascii split
validate_identifier value =
    if is_empty value
    then invalid empty
    else if ltb max_identifier_length (length value)
    then invalid (too_long (length value) max_identifier_length)
    else if not (is_ascii value)
    then invalid non_ascii
    else validate_segments 0 0 (split b'.' value)

pub record PluginId : Type 0 where
  pub text : Bytes

pub record CapabilityId : Type 0 where
  pub text : Bytes

pub data Parsed (A : Type 0) : Type 0 where
  parsed : A → Parsed A
  refused : IdentifierError → Parsed A

-- `validate_identifier(&value)?; Ok(Self(value))`
abbrev pub checked : {A : Type 0} → Validation → A → Parsed A
checked valid a = parsed a
checked (invalid e) a = refused e

-- `PluginId::new`, also its `from_str` and `try_from`
unfoldable pub plugin_id : Bytes → Parsed PluginId
unfolding validate_identifier
plugin_id value = checked (validate_identifier value) (record { text = value })

-- `CapabilityId::new`
unfoldable pub capability_id : Bytes → Parsed CapabilityId
unfolding validate_identifier
capability_id value = checked (validate_identifier value) (record { text = value })

pub PluginId-inj : (a b : PluginId) → a.text ≡ b.text → a ≡ b
PluginId-inj a b e = ap (λ t. record { text = t }) e

pub CapabilityId-inj : (a b : CapabilityId) → a.text ≡ b.text → a ≡ b
CapabilityId-inj a b e = ap (λ t. record { text = t }) e

instance abbrev pub plugin_id_ord : Ord PluginId
plugin_id_ord = ord_by (λ p. p.text) PluginId-inj

instance abbrev pub capability_id_ord : Ord CapabilityId
capability_id_ord = ord_by (λ c. c.text) CapabilityId-inj
