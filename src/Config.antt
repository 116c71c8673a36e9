-- ===== src/Config.antt =====
-- internal/config/config.go: the defaults and the validation of a decoded configuration. validate
-- changes the configuration that it is given; here it returns the changed one.
pub mod MemoryLimit
pub mod Validated
use MemoryLimit.{parse_memory_limit}
use snmptrap_relay.Match.{is_no_entry}
use snmptrap_relay.Model.{
  AppConfig, ServerConfig, MetricsConfig, LoggingConfig, FiltersConfig, FilterRuleConfig,
  DedupConfig, AlarmRuleConfig, SnmpV3UserConfig, ReceiverConfig,
}
use snmptrap_relay.Prelude.Int.{ℤ, pos, leb_ℤ, ltb_ℤ}
use snmptrap_relay.Prelude.{
  ℕ, zero, suc, Bool, true, false, not, ◌&&◌, ◌||◌, List, [], ◌∷◌, ◌++◌, Option, none, some, map,
  if◌then◌else◌,
}
use snmptrap_relay.Result.{
  Result, ok, err, ◌>>=◌, require, bad_memory_limit, bad_server_port, bad_datagram_size,
  bad_cleanup_interval, bad_dedup_entries, bad_queue_size, bad_worker_count, bad_stats_interval,
  bad_metrics_port, bad_metrics_path, bad_default_action, no_user_name, no_filter_id, no_alarm_id,
  duplicate_rule_id, bad_filter_action, no_key_fields, no_clear_match, no_clear,
}
use snmptrap_relay.Text.Space.{trim_space}
use snmptrap_relay.Text.{Text, lit, same, is_empty, has_prefix, to_lower}

-- `if n == 0 { n = d }`
abbrev pub int_or : ℤ → ℕ → ℤ
int_or (pos zero) d = pos d
int_or z d = z

-- `if s == "" { s = d }`
abbrev pub text_or : Text → Text → Text
text_or [] d = d
text_or (c ∷ s) d = c ∷ s

unfoldable pub default_server : ServerConfig → ServerConfig
unfolding lit
default_server s = record {
  host = text_or s.host (lit "0.0.0.0");
  port = int_or s.port 162;
  max_datagram_size = int_or s.max_datagram_size 8192;
  cleanup_interval_seconds = int_or s.cleanup_interval_seconds 30;
  max_dedup_entries = int_or s.max_dedup_entries 10000;
  queue_size = int_or s.queue_size 1024;
  worker_count = int_or s.worker_count 1;
  stats_log_interval_secs = int_or s.stats_log_interval_secs 60;
}

unfoldable pub default_user : SnmpV3UserConfig → SnmpV3UserConfig
unfolding trim_space
default_user u = record u {
  user_name = trim_space u.user_name;
  authentication_protocol = to_lower (trim_space u.authentication_protocol);
  privacy_protocol = to_lower (trim_space u.privacy_protocol);
}

-- applyDefaults
unfoldable pub apply_defaults : AppConfig → AppConfig
unfolding default_server default_user lit to_lower
apply_defaults c = record c {
  server = default_server c.server;
  metrics = record c.metrics {
    host = text_or c.metrics.host (lit "127.0.0.1");
    port = int_or c.metrics.port 9163;
    path = text_or c.metrics.path (lit "/metrics");
  };
  logging = record c.logging {
    level = text_or c.logging.level (lit "INFO");
    format = text_or c.logging.format (lit "text");
  };
  receiver = record { v3_users = map default_user c.receiver.v3_users };
  filters = record c.filters {
    default_action = to_lower (text_or c.filters.default_action (lit "keep"));
  };
  dedup_defaults = record c.dedup_defaults {
    ttl_seconds = int_or c.dedup_defaults.ttl_seconds 300;
  };
}

abbrev pub is_port : ℤ → Bool
is_port z = leb_ℤ (pos 0) z && leb_ℤ z (pos 65535)

abbrev pub is_positive : ℤ → Bool
is_positive z = ltb_ℤ (pos 0) z

-- The checks of validate up to the map of seen identifiers.
unfoldable pub validate_server : AppConfig → Result (Unit {0})
validate_server c = require (is_port c.server.port) bad_server_port (
    require (is_positive c.server.max_datagram_size) bad_datagram_size (
      require (is_positive c.server.cleanup_interval_seconds) bad_cleanup_interval (
        require (is_positive c.server.max_dedup_entries) bad_dedup_entries (
          require (is_positive c.server.queue_size) bad_queue_size (
            require (is_positive c.server.worker_count) bad_worker_count (
              require (leb_ℤ (pos 0) c.server.stats_log_interval_secs) bad_stats_interval
                (ok tt)))))))

unfoldable pub validate_metrics : AppConfig → Result (Unit {0})
validate_metrics c =
    if c.metrics.enabled
    then require (is_port c.metrics.port) bad_metrics_port
        (require (has_prefix c.metrics.path (lit "/")) bad_metrics_path (ok tt))
    else ok tt

unfoldable pub validate_limit : AppConfig → Result (Unit {0})
unfolding parse_memory_limit
validate_limit c =
    if is_empty (trim_space c.runtime.memory_limit)
    then ok tt
    else elim (parse_memory_limit c.runtime.memory_limit) [
      | err e ↦ err (bad_memory_limit e)
      | ok n ↦ ok tt
    ]

unfoldable pub validate_users : List SnmpV3UserConfig → Result (Unit {0})
validate_users [] = ok tt
validate_users (u ∷ us) =
    let rest = validate_users us in require (not (is_empty u.user_name)) no_user_name rest

abbrev pub is_seen : Text → List Text → Bool
is_seen k [] = false
is_seen k (j ∷ seen) = same j k || is_seen k seen

-- The action of a filter rule, in lower case, or the default one.
abbrev pub action_of : FilterRuleConfig → Text
action_of rule = text_or (to_lower rule.action) (lit "drop")

abbrev pub is_action : Text → Bool
is_action a = same a (lit "drop") || same a (lit "keep")

-- The two loops over the filter rules: the identifiers seen, and the rules with their actions.
unfoldable pub validate_filters :
    List Text → List FilterRuleConfig → Result (List Text × List FilterRuleConfig)
validate_filters seen [] = ok (seen, [])
validate_filters seen (rule ∷ rules) =
    let key = lit "filter:" ++ rule.id in
    let rest = validate_filters (key ∷ seen) rules in
    require (not (is_empty rule.id)) no_filter_id (
      require (not (is_seen key seen)) (duplicate_rule_id rule.id) (
        require (is_action (action_of rule)) (bad_filter_action rule.id rule.action)
          (rest >>= λ r. ok (r.0, record rule { action = action_of rule } ∷ r.1))))

abbrev pub names_or : List Text → List Text → List Text
names_or [] d = d
names_or (n ∷ ns) d = n ∷ ns

abbrev pub is_named : List Text → Bool
is_named [] = false
is_named (n ∷ ns) = true

abbrev pub ttl_or : ℤ → ℤ → ℤ
ttl_or (pos zero) d = d
ttl_or z d = z

-- An alarm rule with the defaults of the configuration.
unfoldable pub default_alarm : DedupConfig → AlarmRuleConfig → AlarmRuleConfig
default_alarm d rule = record rule {
  dedup = record rule.dedup {
    ttl_seconds = ttl_or rule.dedup.ttl_seconds d.ttl_seconds;
    key_fields = names_or rule.dedup.key_fields d.key_fields;
  };
}

-- The loop over the alarm rules that fills them in.
unfoldable pub validate_alarms :
    DedupConfig → List Text → List AlarmRuleConfig → Result (List AlarmRuleConfig)
unfolding default_alarm
validate_alarms d seen [] = ok []
validate_alarms d seen (rule ∷ rules) =
    let key = lit "alarm:" ++ rule.id in
    let rest = validate_alarms d (key ∷ seen) rules in
    let filled = default_alarm d rule in
    require (not (is_empty rule.id)) no_alarm_id (
      require (not (is_seen key seen)) (duplicate_rule_id rule.id) (
        require (is_named filled.dedup.key_fields) (no_key_fields rule.id)
          (rest >>= λ r. ok (filled ∷ r))))

-- A rule that holds its alarms has a clear rule, and a clear rule has a match.
unfoldable pub validate_clear : AlarmRuleConfig → Result (Unit {0})
validate_clear rule = elim rule.dedup.clear [
  | none ↦ require (not rule.dedup.hold_until_clear) (no_clear rule.id) (ok tt)
  | some c ↦ require (not (is_no_entry c.match.raw)) (no_clear_match rule.id) (ok tt)
]

unfoldable pub validate_clears : List AlarmRuleConfig → Result (Unit {0})
unfolding validate_clear
validate_clears [] = ok tt
validate_clears (rule ∷ rules) =
    let rest = validate_clears rules in validate_clear rule >>= λ _. rest

-- validate
unfoldable pub validate : AppConfig → Result AppConfig
unfolding validate_limit validate_server validate_metrics validate_users validate_filters
    validate_alarms validate_clears
validate c = validate_limit c >>= λ _. validate_server c >>= λ _. validate_metrics c >>= λ _.
    require (is_action c.filters.default_action) bad_default_action (
      validate_users c.receiver.v3_users >>= λ _. validate_filters [] c.filters.rules >>= λ filters.
      validate_alarms c.dedup_defaults filters.0 c.alarms >>= λ alarms.
      validate_clears alarms >>= λ _.
      ok (record c { filters = record c.filters { rules = filters.1 }; alarms = alarms }))

-- Load; `decoded` is what os.ReadFile and yaml.Unmarshal make of the file
unfoldable pub load : Result AppConfig → Result AppConfig
load decoded = do cfg ← decoded; validate (apply_defaults cfg)
