-- ===== src/Text/Utf8/Runes.antt =====
-- Package unicode/utf8: a valid text as the characters that it consists of.
use snmptrap_relay.Prelude.{
  ℕ, zero, suc, ◌≡◌, ◌<◌, ◌≤◌, true, false, List, [], ◌∷◌, ltb, ltb→lt, Bool-cases, inl, inr, arith,
  length,
}
use snmptrap_relay.Text.Utf8.{rune_width, is_two, is_three, is_four, valid_from, valid}

-- A byte behind the first of a character.
abbrev pub IsNext : ℕ → Type 0
IsNext b = (0x80 ≤ b) × (b ≤ 0xbf)

-- The characters of a text, by their number of bytes.
pub data IsUtf8 : List ℕ → Type 0 where
  no_runes : IsUtf8 []
  one_byte : (a : ℕ) (s : List ℕ) → a < 0x80 → IsUtf8 s → IsUtf8 (a ∷ s)
  two_bytes :
      (a b : ℕ) (s : List ℕ)
      → rune_width (a ∷ b ∷ s) ≡ 2
      → 0x80 ≤ a
      → a < 0xe0
      → IsNext b
      → IsUtf8 s
      → IsUtf8 (a ∷ b ∷ s)
  three_bytes :
      (a b c : ℕ) (s : List ℕ)
      → rune_width (a ∷ b ∷ c ∷ s) ≡ 3
      → 0x80 ≤ a
      → IsNext b
      → IsNext c
      → IsUtf8 s
      → IsUtf8 (a ∷ b ∷ c ∷ s)
  four_bytes :
      (a b c d : ℕ) (s : List ℕ)
      → rune_width (a ∷ b ∷ c ∷ d ∷ s) ≡ 4
      → 0xf0 ≤ a
      → IsNext b
      → IsNext c
      → IsNext d
      → IsUtf8 s
      → IsUtf8 (a ∷ b ∷ c ∷ d ∷ s)

-- The bounds of the bytes of a character of two, three or four bytes.
is_two_bounds : (a b : ℕ) → is_two a b ≡ true → (0x80 ≤ a) × (a < 0xe0) × (0x80 ≤ b) × (b ≤ 0xbf)
is_two_bounds a b h = ground arith

is_three_bounds :
    (a b c : ℕ)
    → is_three a b c ≡ true
    → (0x80 ≤ a) × (0x80 ≤ b) × (b ≤ 0xbf) × (0x80 ≤ c) × (c ≤ 0xbf)
is_three_bounds a b c h = ground arith

is_four_bounds :
    (a b c d : ℕ)
    → is_four a b c d ≡ true
    → (0xf0 ≤ a) × (0x80 ≤ b) × (b ≤ 0xbf) × (0x80 ≤ c) × (c ≤ 0xbf) × (0x80 ≤ d) × (d ≤ 0xbf)
is_four_bounds a b c d h = ground arith

-- The first character of a text that begins with a byte from 0x80 on, if it has a size.
data First : List ℕ → Type 0 where
  first2 :
      (a b : ℕ) (s : List ℕ) → rune_width (a ∷ b ∷ s) ≡ 2 → is_two a b ≡ true → First (a ∷ b ∷ s)
  first3 :
      (a b c : ℕ) (s : List ℕ)
      → rune_width (a ∷ b ∷ c ∷ s) ≡ 3
      → is_three a b c ≡ true
      → First (a ∷ b ∷ c ∷ s)
  first4 :
      (a b c d : ℕ) (s : List ℕ)
      → rune_width (a ∷ b ∷ c ∷ d ∷ s) ≡ 4
      → is_four a b c d ≡ true
      → First (a ∷ b ∷ c ∷ d ∷ s)

-- By what is tested first: four bytes, three, two.
rune_at : (a : ℕ) (s : List ℕ) → ltb a 0x80 ≡ false → valid_from 0 (a ∷ s) ≡ true → First (a ∷ s)
unfolding valid_from rune_width
rune_at a [] high h = absurd (ground arith)
rune_at a (b ∷ []) high h = elim (Bool-cases (is_two a b)) [
  | inl two ↦ first2 a b [] (rw (high, two)) two
  | inr more ↦ absurd (ground arith)
]
rune_at a (b ∷ c ∷ []) high h = elim (Bool-cases (is_three a b c)) [
  | inl three ↦ first3 a b c [] (rw (high, three)) three
  | inr other ↦ elim (Bool-cases (is_two a b)) [
    | inl two ↦ first2 a b (c ∷ []) (rw (high, other, two)) two
    | inr more ↦ absurd (ground arith)
  ]
]
rune_at a (b ∷ c ∷ d ∷ s) high h = elim (Bool-cases (is_four a b c d)) [
  | inl four ↦ first4 a b c d s (rw (high, four)) four
  | inr other ↦ elim (Bool-cases (is_three a b c)) [
    | inl three ↦ first3 a b c (d ∷ s) (rw (high, other, three)) three
    | inr another ↦ elim (Bool-cases (is_two a b)) [
      | inl two ↦ first2 a b (c ∷ d ∷ s) (rw (high, other, another, two)) two
      | inr more ↦ absurd (ground arith)
    ]
  ]
]

-- The first character, and what follows it.
behind_rune :
    (n : ℕ) {s : List ℕ}
    → First s
    → valid_from 0 s ≡ true
    → length s ≤ suc n
    → ((t : List ℕ) → length t ≤ n → valid_from 0 t ≡ true → IsUtf8 t)
    → IsUtf8 s
unfolding valid_from
behind_rune n (first2 a b s two test) h short rest =
    let (la, ua, lb, ub) = is_two_bounds a b test in
    two_bytes a b s two la ua (lb, ub) (rest s (omega arith) (ground arith))
behind_rune n (first3 a b c s three test) h short rest =
    let (la, lb, ub, lc, uc) = is_three_bounds a b c test in
    three_bytes a b c s three la (lb, ub) (lc, uc) (rest s (omega arith) (ground arith))
behind_rune n (first4 a b c d s four test) h short rest =
    let (la, lb, ub, lc, uc, ld, ud) = is_four_bounds a b c d test in
    four_bytes a b c d s four la (lb, ub) (lc, uc) (ld, ud) (rest s (omega arith) (ground arith))

pub ascii_first : (a : ℕ) (s : List ℕ) → ltb a 0x80 ≡ true → rune_width (a ∷ s) ≡ 1
unfolding rune_width
ascii_first a [] low = rw low
ascii_first a (b ∷ []) low = rw low
ascii_first a (b ∷ c ∷ []) low = rw low
ascii_first a (b ∷ c ∷ d ∷ s) low = rw low

runes_of : (n : ℕ) (s : List ℕ) → length s ≤ n → valid_from 0 s ≡ true → IsUtf8 s
unfolding valid_from
runes_of n [] short h = no_runes
runes_of zero (a ∷ s) short h = absurd (omega arith)
runes_of (suc n) (a ∷ s) short h = elim (Bool-cases (ltb a 0x80)) [
  | inl low ↦
      one_byte a s (ltb→lt _ _ low)
        (runes_of n s (omega arith) (ground (arith, ascii_first a s low)))
  | inr high ↦ behind_rune n (rune_at a s high h) h short (runes_of n)
]

-- A text that utf8.Valid accepts consists of characters.
pub valid-IsUtf8 : (s : List ℕ) → valid s ≡ true → IsUtf8 s
unfolding valid
valid-IsUtf8 s h = runes_of (length s) s (omega arith) h
