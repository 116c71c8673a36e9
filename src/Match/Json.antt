-- ===== src/Match/Json.antt =====
-- encoding/json.Marshal of the key items, as internal/match/match.go calls it: each object has the
-- fields "field" and "value", and strings are escaped as Marshal does, with HTML escapes and with
-- U+FFFD for a byte that is not UTF-8.
pub mod Strings
pub mod Objects
use snmptrap_relay.Prelude.{
  ℕ, zero, suc, Bool, false, ◌&&◌, ◌||◌, List, [], ◌∷◌, ◌++◌, map, ltb, ◌==◌, if◌then◌else◌,
}
use snmptrap_relay.Result.{Result, ok}
use snmptrap_relay.Text.Number.{hex_byte}
use snmptrap_relay.Text.Utf8.{rune_width}
use snmptrap_relay.Text.{Text, lit, join}

pub record KeyItem : Type 0 where
  pub field : Text
  pub value : Text

-- The escape of an ASCII byte.
unfoldable pub escape_ascii : ℕ → Text
escape_ascii c =
    if c == b'"' || c == b'\\'
    then b'\\' ∷ c ∷ []
    else if c == 0x08
    then lit "\\b"
    else if c == 0x0c
    then lit "\\f"
    else if c == 0x0a
    then lit "\\n"
    else if c == 0x0d
    then lit "\\r"
    else if c == 0x09
    then lit "\\t"
    else if ltb c 0x20 || c == b'<' || c == b'>' || c == b'&'
    then lit "\\u00" ++ hex_byte c
    else c ∷ []

-- U+2028 and U+2029
abbrev pub is_separator : Text → Bool
is_separator (a ∷ b ∷ c ∷ s) = a == 0xe2 && b == 0x80 && (c == 0xa8 || c == 0xa9)
is_separator _ = false

abbrev pub separator_digit : Text → ℕ
separator_digit (a ∷ b ∷ c ∷ s) = if c == 0xa8 then b'8' else b'9'
separator_digit _ = b'8'

-- What one character writes, with the bytes behind its first that are dropped or copied.
unfoldable pub escape_step : ℕ → Text → Text × ℕ × ℕ
escape_step c s =
    if ltb c 0x80
    then (escape_ascii c, 0, 0)
    else if is_separator (c ∷ s)
    then (lit "\\u202" ++ separator_digit (c ∷ s) ∷ [], 2, 0)
    else elim (rune_width (c ∷ s)) [ zero ↦ (lit "\\ufffd", 0, 0) | suc k ↦ (c ∷ [], 0, k) ]

unfoldable pub escape_from : ℕ → ℕ → Text → Text
escape_from d k [] = []
escape_from (suc d) k (c ∷ s) = escape_from d k s
escape_from zero (suc k) (c ∷ s) = c ∷ escape_from zero k s
escape_from zero zero (c ∷ s) = let (out, d, k) = escape_step c s in out ++ escape_from d k s

abbrev quoted : Text → Text
quoted s = b'"' ∷ (escape_from 0 0 s ++ b'"' ∷ [])

unfoldable pub item_json : KeyItem → Text
item_json i =
    lit "{\"field\":" ++ (quoted i.field ++ (lit ",\"value\":" ++ (quoted i.value ++ b'}' ∷ [])))

-- json.Marshal(items): it never fails on strings
unfoldable pub marshal : List KeyItem → Result Text
marshal items = ok (b'[' ∷ (join (b',' ∷ []) (map item_json items) ++ b']' ∷ []))
