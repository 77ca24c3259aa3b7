-- ===== src/Text.antt =====
-- What the crates use of Rust's `char` and `str`, on the characters (the code points) of a string:
-- the properties `is_whitespace` and `is_control` of Unicode, `trim`, and the length in bytes.
pub mod Trimmed
use kernox.Prelude.{
  ℕ, ◌+◌, Bool, true, false, ◌&&◌, ◌||◌, List, [], ◌∷◌, reverse, ltb, leb, ◌==◌, if◌then◌else◌,
}

abbrev pub Chars : Type 0
Chars = List ℕ

abbrev pub in_range : ℕ → ℕ → ℕ → Bool
in_range low high c = leb low c && leb c high

-- `char::is_whitespace`, the property White_Space
pub is_whitespace : ℕ → Bool
is_whitespace c =
    in_range 0x09 0x0d c
    || (c == 0x20
        || (c == 0x85
            || (c == 0xa0
                || (c == 0x1680
                    || (in_range 0x2000 0x200a c
                        || (c == 0x2028
                            || (c == 0x2029 || (c == 0x202f || (c == 0x205f || c == 0x3000)))))))))

-- `char::is_control`, the category Cc
unfoldable pub is_control : ℕ → Bool
is_control c = leb c 0x1f || in_range 0x7f 0x9f c

-- `char::len_utf8`
unfoldable pub len_utf8 : ℕ → ℕ
len_utf8 c = if ltb c 0x80 then 1 else if ltb c 0x800 then 2 else if ltb c 0x10000 then 3 else 4

-- `str::len`
unfoldable pub byte_length : Chars → ℕ
unfolding len_utf8
byte_length [] = 0
byte_length (c ∷ cs) = len_utf8 c + byte_length cs

-- `iterator.any(test)`
unfoldable pub any : (ℕ → Bool) → Chars → Bool
any test [] = false
any test (c ∷ cs) = test c || any test cs

pub trim_start : Chars → Chars
unfolding is_whitespace
trim_start [] = []
trim_start (c ∷ cs) = if is_whitespace c then trim_start cs else c ∷ cs

-- `str::trim`
pub trim : Chars → Chars
unfolding trim_start
trim cs = reverse (trim_start (reverse (trim_start cs)))
