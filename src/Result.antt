-- ===== src/Result.antt =====
-- Go's (value, error) results, and the errors that the relay makes.
use mathlib.Core.Path.{subst}
use snmptrap_relay.Prelude.{◌≡◌, refl, ◌⊎◌, inl, inr, ℕ, Bool, true, false, if◌then◌else◌}
use snmptrap_relay.Text.{Text}

pub data Error : Type 0 where
  -- internal/match/match.go
  condition_not_mapping : Error
  match_list_not_slice : Error
  bad_regex : Text → Error
  unsupported_operator : Text → Error
  -- internal/engine/engine.go
  unsupported_action : Text → Error
  no_decoder : Error
  send_failed : Text → Error
  -- internal/ber/ber.go
  truncated_data : Error
  indefinite_length : Error
  length_too_large : Error
  truncated_length : Error
  length_overflow : Error
  truncated_value : Error
  truncated_oid : Error
  -- internal/snmp/parser.go
  not_sequence : Error
  no_version : Error
  version_range : Error
  no_community : Error
  unsupported_pdu : ℕ → Error
  not_varbind_list : Error
  not_varbind : Error
  not_varbind_oid : Error
  -- internal/logging/logging.go
  unsupported_format : Text → Error
  -- internal/receiver/decoder.go
  unsupported_auth : Text → Error
  unsupported_priv : Text → Error
  -- cmd/snmptrap-relay-perf/main.go
  short_oid : Error
  pair_count_not_positive : Error
  unsupported_profile : Text → Error
  invalid_rate : Text → Error
  -- an index out of range, which panics
  panicked : Error
  -- the fuel of a loop is used up, which no Go function returns
  out_of_fuel : Error
  -- internal/config/memory_limit.go
  no_number : Error
  number_range : Error
  number_not_positive : Error
  unsupported_unit : Text → Error
  limit_overflow : Error
  -- internal/config/config.go
  bad_memory_limit : Error → Error
  bad_server_port bad_datagram_size bad_cleanup_interval bad_dedup_entries : Error
  bad_queue_size bad_worker_count bad_stats_interval bad_metrics_port : Error
  bad_metrics_path bad_default_action no_user_name no_filter_id no_alarm_id : Error
  duplicate_rule_id : Text → Error
  bad_filter_action : Text → Text → Error
  no_key_fields : Text → Error
  no_clear_match : Text → Error
  no_clear : Text → Error

-- The error and its absence: Go returns a zero value beside an error, which no caller reads.
pub data Result {ℓ} (A : Type ℓ) : Type ℓ where
  err : Error → Result A
  ok : A → Result A

-- `if err != nil { return …, err }`, and what follows it on the value
infixl 5 ◌>>=◌
abbrev pub ◌>>=◌ {ℓ κ} : {A : Type ℓ} {B : Type κ} → Result A → (A → Result B) → Result B
err cause >>= next = err cause
ok value >>= next = next value

-- `if !test { return error }`, and what follows it
abbrev pub require {ℓ} : {A : Type ℓ} → Bool → Error → Result A → Result A
require test cause next = if test then next else err cause

pub Result-cases {ℓ} :
    {A : Type ℓ} (result : Result A)
    → ((cause : Error) × (result ≡ err cause)) ⊎ ((value : A) × (result ≡ ok value))
Result-cases (err cause) = inl (cause, refl)
Result-cases (ok value) = inr (value, refl)

-- A step of a function that returns no error returned none itself.
pub >>=-ok {ℓ κ} :
    {A : Type ℓ} {B : Type κ} (first : Result A) (next : A → Result B) (answer : B)
    → first >>= next ≡ ok answer
    → (value : A) × (first ≡ ok value) × (next value ≡ ok answer)
>>=-ok (err cause) next answer h = cc
>>=-ok (ok value) next answer h = (value, refl, h)

-- What a function returns with no error has the property.
pub data Returns {A : Type 0} (P : A → Type 0) : Result A → Type 0 where
  failing : (cause : Error) → Returns P (err cause)
  returning : (value : A) → P value → Returns P (ok value)

-- The rule for a sequence of steps.
pub >>=-Returns :
    {A B : Type 0} {Q : A → Type 0} {P : B → Type 0} {first : Result A} {next : A → Result B}
    → Returns Q first
    → ((value : A) → Q value → Returns P (next value))
    → Returns P (first >>= next)
>>=-Returns (failing cause) rest = failing cause
>>=-Returns (returning value h) rest = rest value h

pub require-Returns :
    {A : Type 0} {P : A → Type 0} (test : Bool) (cause : Error) {next : Result A}
    → Returns P next
    → Returns P (require test cause next)
require-Returns true cause h = h
require-Returns false cause h = failing cause

pub Returns-ok :
    {A : Type 0} (P : A → Type 0) {result : Result A} (value : A)
    → Returns P result
    → result ≡ ok value
    → P value
Returns-ok P value (failing cause) h = cc
Returns-ok P value (returning other p) h = let same : other ≡ value = cc in subst P same p
