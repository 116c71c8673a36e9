-- ===== src/Text/Utf8.antt =====
-- Package unicode/utf8: which bytes encode a character.
pub mod Runes
pub mod Ascii
use snmptrap_relay.Prelude.{
  ℕ, zero, suc, Bool, true, false, ◌&&◌, List, [], ◌∷◌, ltb, leb, ◌==◌, if◌then◌else◌,
}

abbrev within : ℕ → ℕ → ℕ → Bool
within lo hi c = leb lo c && leb c hi

-- The second byte that may follow a lead byte of three or four.
abbrev second_of3 : ℕ → ℕ → Bool
second_of3 a b =
    if a == 0xe0
    then within 0xa0 0xbf b
    else if a == 0xed
    then within 0x80 0x9f b
    else within 0x80 0xbf b

abbrev second_of4 : ℕ → ℕ → Bool
second_of4 a b =
    if a == 0xf0
    then within 0x90 0xbf b
    else if a == 0xf4
    then within 0x80 0x8f b
    else within 0x80 0xbf b

-- The bytes of a character of two, three or four bytes.
abbrev pub is_two : ℕ → ℕ → Bool
is_two a b = within 0xc2 0xdf a && within 0x80 0xbf b

abbrev pub is_three : ℕ → ℕ → ℕ → Bool
is_three a b c = within 0xe0 0xef a && second_of3 a b && within 0x80 0xbf c

abbrev pub is_four : ℕ → ℕ → ℕ → ℕ → Bool
is_four a b c d = within 0xf0 0xf4 a && second_of4 a b && within 0x80 0xbf c && within 0x80 0xbf d

abbrev pub width2 : ℕ → ℕ → ℕ
width2 a b = if is_two a b then 2 else 0

abbrev pub width3 : ℕ → ℕ → ℕ → ℕ
width3 a b c = if is_three a b c then 3 else width2 a b

abbrev pub width4 : ℕ → ℕ → ℕ → ℕ → ℕ
width4 a b c d = if is_four a b c d then 4 else width3 a b c

-- The size that utf8.DecodeRune gives for the first character; 0 where it gives RuneError.
unfoldable pub rune_width : List ℕ → ℕ
rune_width [] = 0
rune_width (a ∷ []) = if ltb a 0x80 then 1 else 0
rune_width (a ∷ b ∷ []) = if ltb a 0x80 then 1 else width2 a b
rune_width (a ∷ b ∷ c ∷ []) = if ltb a 0x80 then 1 else width3 a b c
rune_width (a ∷ b ∷ c ∷ d ∷ s) = if ltb a 0x80 then 1 else width4 a b c d

-- The bytes of one character still to pass, then the text behind it.
unfoldable pub valid_from : ℕ → List ℕ → Bool
valid_from k [] = true
valid_from (suc k) (c ∷ s) = valid_from k s
valid_from zero (c ∷ s) = elim (rune_width (c ∷ s)) [ zero ↦ false | suc k ↦ valid_from k s ]

-- utf8.Valid
unfoldable pub valid : List ℕ → Bool
valid s = valid_from 0 s
