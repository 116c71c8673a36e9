-- ===== src/Text/Number.antt =====
-- Decimal and hexadecimal text, as strconv and fmt print numbers.
use snmptrap_relay.Prelude.{
  ℕ, zero, suc, ◌+◌, ◌-◌, ◌/◌, ◌%◌, List, [], ◌∷◌, ◌++◌, ltb, if◌then◌else◌,
}
use snmptrap_relay.Prelude.Int.{ℤ, pos, negsuc}

-- The digits of n in front of what is already printed. A number below 2 ^ f has at most f digits.
unfoldable pub digits_onto : ℕ → ℕ → List ℕ → List ℕ
digits_onto zero n out = out
digits_onto (suc f) n out =
    let rest = digits_onto f (n / 10) ((b'0' + n % 10) ∷ out) in
    if ltb n 10 then (b'0' + n) ∷ out else rest

-- %d of a number that is not negative
unfoldable pub nat_text : ℕ → List ℕ
unfolding digits_onto
nat_text n = digits_onto (suc n) n []

-- %d, strconv.Itoa, strconv.FormatInt at base 10, (*big.Int).String
unfoldable pub int_text : ℤ → List ℕ
unfolding nat_text
int_text (pos n) = nat_text n
int_text (negsuc n) = b'-' ∷ nat_text (suc n)

abbrev hex_digit : ℕ → ℕ
hex_digit d = if ltb d 10 then b'0' + d else b'a' + (d - 10)

-- %02x of a byte
unfoldable pub hex_byte : ℕ → List ℕ
hex_byte c = hex_digit (c / 16) ∷ hex_digit (c % 16) ∷ []

-- hex.EncodeToString
unfoldable pub hex_text : List ℕ → List ℕ
unfolding hex_byte
hex_text [] = []
hex_text (c ∷ s) = hex_byte c ++ hex_text s
