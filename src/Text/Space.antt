-- ===== src/Text/Space.antt =====
-- strings.TrimSpace: white space is what unicode.IsSpace accepts, in its UTF-8 encoding.
use snmptrap_relay.Prelude.{
  ℕ, zero, suc, Bool, ◌&&◌, ◌||◌, List, [], ◌∷◌, reverse, leb, ◌==◌, if◌then◌else◌,
}

abbrev is_ascii_space : ℕ → Bool
is_ascii_space c = c == 0x20 || (leb 0x09 c && leb c 0x0d)

-- U+0085 and U+00A0
abbrev is_space2 : ℕ → ℕ → Bool
is_space2 a b = a == 0xc2 && (b == 0x85 || b == 0xa0)

-- U+1680, U+2000 to U+200A, U+2028, U+2029, U+202F, U+205F, U+3000
abbrev is_space3 : ℕ → ℕ → ℕ → Bool
is_space3 a b c =
    a == 0xe1 && (b == 0x9a && c == 0x80)
    || a == 0xe2
      && (b == 0x80 && (leb 0x80 c && leb c 0x8a || c == 0xa8 || c == 0xa9 || c == 0xaf)
          || b == 0x81 && c == 0x9f)
    || a == 0xe3 && (b == 0x80 && c == 0x80)

-- The bytes of the white space character that the text begins with, none if it has another.
unfoldable pub space_width : List ℕ → ℕ
space_width [] = 0
space_width (a ∷ []) = if is_ascii_space a then 1 else 0
space_width (a ∷ b ∷ []) = if is_ascii_space a then 1 else if is_space2 a b then 2 else 0
space_width (a ∷ b ∷ c ∷ s) =
    if is_ascii_space a then 1 else if is_space2 a b then 2 else if is_space3 a b c then 3 else 0

-- The same of the last character, on the bytes in reverse.
unfoldable pub space_width_rev : List ℕ → ℕ
space_width_rev [] = 0
space_width_rev (a ∷ []) = if is_ascii_space a then 1 else 0
space_width_rev (b ∷ a ∷ []) = if is_ascii_space b then 1 else if is_space2 a b then 2 else 0
space_width_rev (c ∷ b ∷ a ∷ s) =
    if is_ascii_space c then 1 else if is_space2 b c then 2 else if is_space3 a b c then 3 else 0

-- Removes white space from the front. The first number counts bytes of a character still to go.
unfoldable pub skip_spaces : (List ℕ → ℕ) → ℕ → List ℕ → List ℕ
skip_spaces width k [] = []
skip_spaces width (suc k) (c ∷ s) = skip_spaces width k s
skip_spaces width zero (c ∷ s) = elim (width (c ∷ s)) [
  | zero ↦ c ∷ s
  | suc k ↦ skip_spaces width k s
]

-- strings.TrimSpace
unfoldable pub trim_space : List ℕ → List ℕ
unfolding skip_spaces space_width space_width_rev
trim_space s = reverse (skip_spaces space_width_rev 0 (reverse (skip_spaces space_width 0 s)))
