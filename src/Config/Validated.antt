-- ===== src/Config/Validated.antt =====
-- internal/config/config.go, validate: what the other parts can rely on.
use snmptrap_relay.Config.{
  is_positive, is_action, is_named, validate_server, validate_metrics, validate_limit,
  validate_users, validate_filters, validate_alarms, validate_clear, validate_clears, validate,
}
use snmptrap_relay.Model.{AppConfig, FilterRuleConfig, AlarmRuleConfig, DedupConfig}
use snmptrap_relay.Prelude.{
  ◌≡◌, Bool, true, false, not, ◌||◌, List, [], ◌∷◌, ◌++◌, Option, none, some, All, arith, inl, inr,
}
use snmptrap_relay.Result.{Result, Error, require, ok, >>=-ok, Result-cases, bad_default_action}
use snmptrap_relay.Text.{Text, lit}

-- The action is drop or keep.
abbrev pub IsDecided : FilterRuleConfig → Type 0
IsDecided rule = is_action rule.action ≡ true

-- There are key fields.
abbrev pub IsKeyable : AlarmRuleConfig → Type 0
IsKeyable rule = is_named rule.dedup.key_fields ≡ true

abbrev is_some {ℓ} : {A : Type ℓ} → Option A → Bool
is_some none = false
is_some (some a) = true

-- A rule that holds its alarms until a clear has a clear rule.
abbrev pub IsClearable : AlarmRuleConfig → Type 0
IsClearable rule = (not rule.dedup.hold_until_clear || is_some rule.dedup.clear) ≡ true

validate_filters-IsDecided :
    (seen : List Text) (rules : List FilterRuleConfig) (r : List Text × List FilterRuleConfig)
    → validate_filters seen rules ≡ ok r
    → All IsDecided r.1
unfolding validate_filters
validate_filters-IsDecided seen [] r h = ground arith
validate_filters-IsDecided seen (rule ∷ rules) r h =
    let rest = validate_filters ((lit "filter:" ++ rule.id) ∷ seen) rules in
    elim (Result-cases rest) [
      | inl (e, wrong) ↦ absurd (ground arith)
      | inr (q, right) ↦
          ground
            (arith, validate_filters-IsDecided ((lit "filter:" ++ rule.id) ∷ seen) rules q right)
    ]

validate_alarms-IsKeyable :
    (d : DedupConfig) (seen : List Text) (rules r : List AlarmRuleConfig)
    → validate_alarms d seen rules ≡ ok r
    → All IsKeyable r
unfolding validate_alarms
validate_alarms-IsKeyable d seen [] r h = ground arith
validate_alarms-IsKeyable d seen (rule ∷ rules) r h =
    let rest = validate_alarms d ((lit "alarm:" ++ rule.id) ∷ seen) rules in
    elim (Result-cases rest) [
      | inl (e, wrong) ↦ absurd (ground arith)
      | inr (q, right) ↦
          ground
            (arith, validate_alarms-IsKeyable d ((lit "alarm:" ++ rule.id) ∷ seen) rules q right)
    ]

validate_clears-IsClearable :
    (rules : List AlarmRuleConfig) → validate_clears rules ≡ ok tt → All IsClearable rules
unfolding validate_clears validate_clear
validate_clears-IsClearable [] h = tt
validate_clears-IsClearable (rule ∷ rules) h = ground (arith, validate_clears-IsClearable rules)

require_ok :
    {A : Type 0} (test : Bool) (e : Error) (next : Result A) (answer : A)
    → require test e next ≡ ok answer
    → next ≡ ok answer
require_ok true e next answer h = h
require_ok false e next answer h = cc

validate_server_positive :
    (c : AppConfig)
    → validate_server c ≡ ok tt
    → (is_positive c.server.queue_size ≡ true)
      × (is_positive c.server.worker_count ≡ true)
      × (is_positive c.server.max_dedup_entries ≡ true)
unfolding validate_server
validate_server_positive c h = ground arith

-- What validate promises of the configuration that it returns.
pub record IsValidated (c : AppConfig) : Type 0 where
  pub queue : is_positive c.server.queue_size ≡ true
  pub workers : is_positive c.server.worker_count ≡ true
  pub entries : is_positive c.server.max_dedup_entries ≡ true
  pub filters : All IsDecided c.filters.rules
  pub keyable : All IsKeyable c.alarms
  pub clearable : All IsClearable c.alarms

-- When validate returns no error, the queue size, the number of workers and the limit of the store are
-- positive, every filter rule has the action drop or keep, every alarm rule has key fields, and every
-- alarm rule that holds its alarms until a clear has a clear rule.
pub validate-IsValidated : (c after : AppConfig) → validate c ≡ ok after → IsValidated after
unfolding validate
validate-IsValidated c after h =
    let (limit, limit_ok, h1) = >>=-ok (validate_limit c) _ after h in
    let (server, server_ok, h2) = >>=-ok (validate_server c) _ after h1 in
    let (metrics, metrics_ok, h3) = >>=-ok (validate_metrics c) _ after h2 in
    let h4 = require_ok (is_action c.filters.default_action) bad_default_action _ after h3 in
    let (users, users_ok, h5) = >>=-ok (validate_users c.receiver.v3_users) _ after h4 in
    let (filters, filters_ok, h6) = >>=-ok (validate_filters [] c.filters.rules) _ after h5 in
    let (alarms, alarms_ok, h7) =
      >>=-ok (validate_alarms c.dedup_defaults filters.0 c.alarms) _ after h6 in
    let (clears, clears_ok, h8) = >>=-ok (validate_clears alarms) _ after h7 in
    let (queue, workers, entries) = validate_server_positive c server_ok in
    let same_server : after.server ≡ c.server = ground arith in
    let same_filters : after.filters.rules ≡ filters.1 = ground arith in
    let same_alarms : after.alarms ≡ alarms = ground arith in
    record {
      queue = rw same_server queue;
      workers = rw same_server workers;
      entries = rw same_server entries;
      filters = rw same_filters (validate_filters-IsDecided [] c.filters.rules filters filters_ok);
      keyable =
          rw same_alarms
            (validate_alarms-IsKeyable c.dedup_defaults filters.0 c.alarms alarms alarms_ok);
      clearable = rw same_alarms (validate_clears-IsClearable alarms clears_ok);
    }
