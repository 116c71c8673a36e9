-- ===== src/Match/Std.antt =====
-- What internal/match and internal/engine call of Go's standard library and this development does
-- not define: regular expressions, the reading of floating-point numbers, and SHA-256.
use snmptrap_relay.Prelude.{ℕ, Bool, true, false, List, Option}
use snmptrap_relay.Prelude.Int.{ℤ, ltb_ℤ, leb_ℤ}
use snmptrap_relay.Text.{Text}

-- A float64. A finite one is an integral multiple of 2^-1074: the number is that multiple.
pub data Float64 : Type 0 where
  nan : Float64
  inf_below : Float64
  finite : ℤ → Float64
  inf_above : Float64

-- a < b
unfoldable pub float_lt : Float64 → Float64 → Bool
float_lt nan b = false
float_lt inf_below nan = false
float_lt inf_below inf_below = false
float_lt inf_below (finite y) = true
float_lt inf_below inf_above = true
float_lt (finite x) nan = false
float_lt (finite x) inf_below = false
float_lt (finite x) (finite y) = ltb_ℤ x y
float_lt (finite x) inf_above = true
float_lt inf_above b = false

-- a <= b
unfoldable pub float_le : Float64 → Float64 → Bool
float_le nan b = false
float_le inf_below nan = false
float_le inf_below inf_below = true
float_le inf_below (finite y) = true
float_le inf_below inf_above = true
float_le (finite x) nan = false
float_le (finite x) inf_below = false
float_le (finite x) (finite y) = leb_ℤ x y
float_le (finite x) inf_above = true
float_le inf_above nan = false
float_le inf_above inf_below = false
float_le inf_above (finite y) = false
float_le inf_above inf_above = true

pub record Platform : Type 0 where
  -- regexp.MatchString: `none` where the expression does not compile
  pub regex_match : Text → Text → Option Bool
  -- strconv.ParseFloat(s, 64): `none` where it returns an error
  pub parse_float : Text → Option Float64
  -- sha256.Sum256
  pub sha256 : List ℕ → List ℕ
