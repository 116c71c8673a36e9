-- ===== src/Match/Json/Strings.antt =====
-- A reader for the strings that encoding/json writes: what a string of a key stands for can be read
-- back, so that no two texts are written alike.
use mathlib.Core.List.{append_assoc}
use snmptrap_relay.Match.Json.{
  escape_ascii, is_separator, separator_digit, escape_step, escape_from, quoted,
}
use snmptrap_relay.Prelude.{
  ℕ, zero, suc, ◌≡◌, refl, sym, ap, ◌∙◌, drop, ◌<◌, ◌+◌, ◌-◌, ◌*◌, ◌≤◌, true, false, [], ◌∷◌, ◌++◌,
  ltb, ◌==◌, if◌then◌else◌, arith, Bool-cases, inl, inr,
}
use snmptrap_relay.Text.Number.{hex_byte}
use snmptrap_relay.Text.Utf8.Runes.{
  IsUtf8, no_runes, one_byte, two_bytes, three_bytes, four_bytes, valid-IsUtf8,
}
use snmptrap_relay.Text.Utf8.{rune_width, valid}
use snmptrap_relay.Text.{Text, lit}

abbrev hex_value : ℕ → ℕ
hex_value h = if ltb h b'a' then h - b'0' else h - b'a' + 10

-- The four hexadecimal digits of an escape: U+2028 and U+2029 in UTF-8, or a byte.
abbrev read_unicode : Text → Text
read_unicode (a ∷ b ∷ c ∷ d ∷ s) =
    if a == b'2'
    then 0xe2 ∷ 0x80 ∷ (if d == b'8' then 0xa8 else 0xa9) ∷ []
    else (hex_value c * 16 + hex_value d) ∷ []
read_unicode _ = []

-- The byte that a single letter stands for.
abbrev read_letter : ℕ → ℕ
read_letter e =
    if e == b'b'
    then 0x08
    else if e == b'f'
    then 0x0c
    else if e == b'n'
    then 0x0a
    else if e == b'r'
    then 0x0d
    else if e == b't'
    then 0x09
    else e

-- What stands behind a backslash, and how many bytes it takes.
abbrev read_escape : Text → Text × ℕ
read_escape [] = ([], 0)
read_escape (e ∷ s) = if e == b'u' then (read_unicode s, 5) else (read_letter e ∷ [], 1)

abbrev prepend : Text → Text × Text → Text × Text
prepend out (value, rest) = (out ++ value, rest)

-- The value of a string, behind its opening quote, and the text behind its closing quote.
read_from : ℕ → Text → Text × Text
read_from d [] = ([], [])
read_from (suc d) (c ∷ s) = read_from d s
read_from zero (c ∷ s) =
    let (out, d) = read_escape s in
    let escaped = prepend out (read_from d s) in
    let copied = prepend (c ∷ []) (read_from 0 s) in
    if c == b'"' then ([], s) else if c == b'\\' then escaped else copied

-- A control character, or one of HTML, in its two hexadecimal digits.
read-hex_byte :
    (c : ℕ) (s : Text)
    → c < 0x80
    → read_from 0 (lit "\\u00" ++ (hex_byte c ++ s)) ≡ prepend (c ∷ []) (read_from 0 s)
unfolding read_from lit hex_byte
read-hex_byte c s h = ground arith

read-escape_ascii :
    (c : ℕ) (s : Text)
    → c < 0x80
    → read_from 0 (escape_ascii c ++ s) ≡ prepend (c ∷ []) (read_from 0 s)
unfolding read_from escape_ascii lit hex_byte
read-escape_ascii c s h = ground arith

read-copied : (c : ℕ) (s : Text) → 0x80 ≤ c → read_from 0 (c ∷ s) ≡ prepend (c ∷ []) (read_from 0 s)
unfolding read_from
read-copied c s h = ground arith

read-separator :
    (a b c : ℕ) (s : Text)
    → is_separator (a ∷ b ∷ c ∷ s) ≡ true
    → (t : Text)
    → read_from 0 (lit "\\u202" ++ ((separator_digit (a ∷ b ∷ c ∷ s) ∷ []) ++ t))
      ≡ prepend (a ∷ b ∷ c ∷ []) (read_from 0 t)
unfolding read_from lit
read-separator a b c s h t = ground arith

low_is_no_separator : (a b : ℕ) (s : Text) → a < 0xe0 → is_separator (a ∷ b ∷ s) ≡ false
low_is_no_separator a b [] h = refl
low_is_no_separator a b (c ∷ s) h = ground arith

high_is_no_separator : (a b c : ℕ) (s : Text) → 0xf0 ≤ a → is_separator (a ∷ b ∷ c ∷ s) ≡ false
high_is_no_separator a b c s h = ground arith

-- What escape_step does with a character that is copied.
copied_step :
    (a : ℕ) (s : Text) (k : ℕ)
    → 0x80 ≤ a
    → is_separator (a ∷ s) ≡ false
    → rune_width (a ∷ s) ≡ suc k
    → escape_step a s ≡ (a ∷ [], 0, k)
unfolding escape_step
copied_step a s k high plain width = rw width (ground arith)

separator_step :
    (a : ℕ) (s : Text)
    → 0x80 ≤ a
    → is_separator (a ∷ s) ≡ true
    → escape_step a s ≡ (lit "\\u202" ++ separator_digit (a ∷ s) ∷ [], 2, 0)
unfolding escape_step
separator_step a s high h = ground arith

ascii_step : (a : ℕ) (s : Text) → a < 0x80 → escape_step a s ≡ (escape_ascii a, 0, 0)
unfolding escape_step
ascii_step a s low = ground arith

-- The reader gives back the text, and leaves what stands behind the closing quote.
read-escape_from :
    {s : Text}
    → IsUtf8 s
    → (rest : Text) → read_from 0 (escape_from 0 0 s ++ b'"' ∷ rest) ≡ (s, rest)
unfolding escape_from
read-escape_from no_runes rest = unfold read_from in refl
read-escape_from (one_byte a s low u) rest =
    simp (ascii_step a s low, append_assoc, read-escape_ascii a _ low, read-escape_from u rest)
read-escape_from (two_bytes a b s two high low (lb, ub) u) rest = simp (
  copied_step a (b ∷ s) 1 high (low_is_no_separator a b s low) two,
  read-copied a _ high,
  read-copied b _ lb,
  read-escape_from u rest,
)
read-escape_from (three_bytes a b c s three high (lb, ub) (lc, uc) u) rest =
    elim (Bool-cases (is_separator (a ∷ b ∷ c ∷ s))) [
      | inl apart ↦ simp (
        separator_step a (b ∷ c ∷ s) high apart,
        append_assoc,
        read-separator a b c s apart,
        read-escape_from u rest,
      )
      | inr plain ↦ simp (
        copied_step a (b ∷ c ∷ s) 2 high plain three,
        read-copied a _ high,
        read-copied b _ lb,
        read-copied c _ lc,
        read-escape_from u rest,
      )
    ]
read-escape_from (four_bytes a b c d s four high (lb, ub) (lc, uc) (ld, ud) u) rest = simp (
  copied_step a (b ∷ c ∷ d ∷ s) 3 (omega arith) (high_is_no_separator a b c (d ∷ s) high) four,
  read-copied a _ (omega arith),
  read-copied b _ lb,
  read-copied c _ lc,
  read-copied d _ ld,
  read-escape_from u rest,
)

quoted_text : (s x : Text) → quoted s ++ x ≡ b'"' ∷ (escape_from 0 0 s ++ b'"' ∷ x)
quoted_text s x = simp append_assoc

-- Two valid strings that are written alike, each with some text behind it, are the same, and so is
-- the text behind them.
pub quoted-injective :
    (s t x y : Text)
    → valid s ≡ true
    → valid t ≡ true
    → quoted s ++ x ≡ quoted t ++ y
    → (s ≡ t) × (x ≡ y)
quoted-injective s t x y vs vt e =
    let both : (s, x) ≡ (t, y) =
      sym (read-escape_from (valid-IsUtf8 s vs) x)
      ∙ ap (λ w. read_from 0 (drop 1 w)) (sym (quoted_text s x) ∙ e ∙ quoted_text t y)
      ∙ read-escape_from (valid-IsUtf8 t vt) y in
    (ap (λ p. p.0) both, ap (λ p. p.1) both)
