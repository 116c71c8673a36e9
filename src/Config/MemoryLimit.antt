-- ===== src/Config/MemoryLimit.antt =====
-- internal/config/memory_limit.go: a memory limit as a number of bytes, an int64 that is not negative.
use snmptrap_relay.Dict
use snmptrap_relay.Dict.{All-get}
use snmptrap_relay.Prelude.{
  ℕ, Bool, true, ◌&&◌, ◌||◌, List, [], ◌∷◌, ◌≡◌, ◌⊎◌, inl, inr, none, some, ◌+◌, ◌-◌, ◌*◌, ◌/◌, ◌^◌,
  ◌≤◌, ◌<◌, leb, ltb, ◌==◌, if◌then◌else◌, arith, All, Option-cases,
}
use snmptrap_relay.Result.{
  Result, ok, err, no_number, number_range, number_not_positive, unsupported_unit, limit_overflow,
}
use snmptrap_relay.Text.Space.{trim_space}
use snmptrap_relay.Text.{Text, lit, same, is_empty, to_upper, text_eq}

unfoldable pub memory_limit_units : List (Text × ℕ)
memory_limit_units =
    ([], 1)
    ∷ (lit "B", 1)
    ∷ (lit "KB", 1000)
    ∷ (lit "MB", 1000000)
    ∷ (lit "GB", 1000000000)
    ∷ (lit "TB", 1000000000000)
    ∷ (lit "KIB", 1024)
    ∷ (lit "MIB", 1048576)
    ∷ (lit "GIB", 1073741824)
    ∷ (lit "TIB", 1099511627776)
    ∷ []

-- The digits in front, and what stands behind them.
unfoldable pub leading_digits : Text → Text × Text
leading_digits [] = ([], [])
leading_digits (c ∷ s) =
    let rest = leading_digits s in
    if leb b'0' c && leb c b'9' then (c ∷ rest.0, rest.1) else ([], c ∷ s)

-- strconv.ParseInt on digits, before its test of the range
unfoldable pub digits_value : ℕ → Text → ℕ
digits_value n [] = n
digits_value n (c ∷ s) = digits_value (n * 10 + (c - b'0')) s

-- ParseMemoryLimit on a number and the text behind it.
unfoldable pub limit_of : ℕ → Text → Result ℕ
unfolding memory_limit_units trim_space to_upper
limit_of n rest =
    if ltb 0x7fffffffffffffff n
    then err number_range
    else if n == 0
    then err number_not_positive
    else elim (Dict.get (to_upper (trim_space rest)) memory_limit_units) [
      | none ↦ err (unsupported_unit (trim_space rest))
      | some multiplier ↦
          if ltb (0x7fffffffffffffff / multiplier) n
          then err limit_overflow
          else ok (n * multiplier)
    ]

abbrev pub is_unlimited : Text → Bool
is_unlimited upper =
    same upper (lit "OFF") || same upper (lit "NONE") || same upper (lit "UNLIMITED")

-- ParseMemoryLimit
unfoldable pub parse_memory_limit : Text → Result ℕ
unfolding leading_digits digits_value limit_of trim_space to_upper
parse_memory_limit value =
    let trimmed = trim_space value in
    let (digits, rest) = leading_digits trimmed in
    if is_empty trimmed
    then ok 0
    else if is_unlimited (to_upper trimmed)
    then ok 0x7fffffffffffffff
    else if is_empty digits
    then err no_number
    else limit_of (digits_value 0 digits) rest

-- A number that passes the test before the product gives a product in range.
abbrev IsUnit : Text × ℕ → Type 0
IsUnit e = (n : ℕ) → 1 ≤ n → n ≤ 0x7fffffffffffffff / e.1 → (1 ≤ n * e.1) × (n * e.1 < 2 ^ 63)

memory_limit_units-IsUnit : All IsUnit memory_limit_units
unfolding memory_limit_units
memory_limit_units-IsUnit = (
  λ n h b. (omega arith, omega arith),
  (
    λ n h b. (omega arith, omega arith),
    (
      λ n h b. (omega arith, omega arith),
      (
        λ n h b. (omega arith, omega arith),
        (
          λ n h b. (omega arith, omega arith),
          (
            λ n h b. (omega arith, omega arith),
            (
              λ n h b. (omega arith, omega arith),
              (
                λ n h b. (omega arith, omega arith),
                (λ n h b. (omega arith, omega arith), (λ n h b. (omega arith, omega arith), tt)),
              ),
            ),
          ),
        ),
      ),
    ),
  ),
)

limit_of_bounds : (n : ℕ) (rest : Text) (r : ℕ) → limit_of n rest ≡ ok r → (1 ≤ r) × (r < 2 ^ 63)
unfolding limit_of
limit_of_bounds n rest r h =
    let unit = to_upper (trim_space rest) in
    elim (Option-cases (Dict.get unit memory_limit_units)) [
      | inl missing ↦ absurd (ground arith)
      | inr (m, found) ↦
          let fits = All-get IsUnit unit m memory_limit_units memory_limit_units-IsUnit found in
          let positive : 1 ≤ n = ground arith in
          let bounded : n ≤ 0x7fffffffffffffff / m = ground arith in
          let result : n * m ≡ r = ground arith in rw (← result) (fits n positive bounded)
    ]

-- When ParseMemoryLimit returns no error, the text is blank and the limit is zero, or the limit is at
-- least one and an int64: the product with the unit has not overflowed.
pub parse_memory_limit_bounds :
    (value : Text) (r : ℕ)
    → parse_memory_limit value ≡ ok r
    → ((is_empty (trim_space value) ≡ true) × (r ≡ 0)) ⊎ ((1 ≤ r) × (r < 2 ^ 63))
unfolding parse_memory_limit
parse_memory_limit_bounds value r h =
    let trimmed = trim_space value in
    let (digits, rest) = leading_digits trimmed in
    ground (arith, limit_of_bounds (digits_value 0 digits) rest r)
