-- ===== src/Model.antt =====
-- internal/model/types.go: the configuration, the trap event, and the deduplication records.
-- int and int64 are ℤ, a time is ℤ nanoseconds since a fixed origin, a nil pointer is `none`, a nil
-- slice or map is the empty one.
pub mod Value
pub mod Summary
pub mod Document
use snmptrap_relay.Prelude.{ℕ, Bool, List, Option, ◌*◌, ◌^◌, ◌≡◌}
use snmptrap_relay.Prelude.Int.{ℤ, ◌+ℤ◌, scale, wrap64}
use snmptrap_relay.Text.Space.{trim_space}
use snmptrap_relay.Text.{Text}
use Value.{Fields}

pub record ServerConfig : Type 0 where
  pub host : Text
  pub port : ℤ
  pub max_datagram_size : ℤ
  pub cleanup_interval_seconds : ℤ
  pub max_dedup_entries : ℤ
  pub queue_size : ℤ
  pub worker_count : ℤ
  pub stats_log_interval_secs : ℤ

pub record MetricsConfig : Type 0 where
  pub enabled : Bool
  pub host : Text
  pub port : ℤ
  pub path : Text

pub record RuntimeConfig : Type 0 where
  pub memory_limit : Text

pub record LoggingConfig : Type 0 where
  pub level : Text
  pub format : Text
  pub file : Text
  pub alerts_file : Text

pub record ForwarderConfig : Type 0 where
  pub name : Text
  pub host : Text
  pub port : ℤ
  pub enabled : Bool
  pub source_host : Text

pub record SnmpV3UserConfig : Type 0 where
  pub user_name : Text
  pub authentication_protocol : Text
  pub authentication_passphrase : Text
  pub privacy_protocol : Text
  pub privacy_passphrase : Text

pub record ReceiverConfig : Type 0 where
  pub v3_users : List SnmpV3UserConfig

pub record MatchSpec : Type 0 where
  pub raw : Fields

pub record DedupClearConfig : Type 0 where
  pub match : MatchSpec
  pub key_fields : List Text
  pub varbind_oid : Text
  pub regex : Text

pub record DedupConfig : Type 0 where
  pub ttl_seconds : ℤ
  pub key_fields : List Text
  pub hold_until_clear : Bool
  pub clear : Option DedupClearConfig

pub record FilterRuleConfig : Type 0 where
  pub id : Text
  pub action : Text
  pub match : MatchSpec

pub record FiltersConfig : Type 0 where
  pub default_action : Text
  pub rules : List FilterRuleConfig

pub record AlarmRuleConfig : Type 0 where
  pub id : Text
  pub match : MatchSpec
  pub dedup : DedupConfig

pub record AppConfig : Type 0 where
  pub server : ServerConfig
  pub runtime : RuntimeConfig
  pub metrics : MetricsConfig
  pub logging : LoggingConfig
  pub receiver : ReceiverConfig
  pub field_aliases : List (Text × Text)
  pub forwarders : List ForwarderConfig
  pub filters : FiltersConfig
  pub dedup_defaults : DedupConfig
  pub alarms : List AlarmRuleConfig

-- (*AppConfig).GetRuntimeMemoryLimit of a configuration that is there
unfoldable pub get_runtime_memory_limit : AppConfig → Text
unfolding trim_space
get_runtime_memory_limit c = trim_space c.runtime.memory_limit

pub record VarBind : Type 0 where
  pub oid : Text
  pub type_name : Text
  pub value : Text

pub record TrapEvent : Type 0 where
  pub received_at : ℤ
  pub source_ip : Text
  pub source_port : ℤ
  pub raw_bytes : List ℕ
  pub version : ℤ
  pub community : Text
  pub pdu_type : Text
  pub enterprise_oid : Text
  pub agent_address : Text
  pub generic_trap : Text
  pub generic_trap_name : Text
  pub specific_trap : Text
  pub uptime : Text
  pub request_id : ℤ
  pub error_status : ℤ
  pub error_index : ℤ
  pub trap_oid : Text
  pub varbinds : List VarBind
  pub raw_varbind_map : List (Text × Text)
  pub fields : List (Text × Text)
  pub alerts_logged : Bool

pub record DedupKey : Type 0 where
  pub hash : Text
  pub repr : Text
  pub missing_fields : List Text

pub record DedupState : Type 0 where
  pub rule_id : Text
  pub key_hash : Text
  pub key_repr : Text
  pub first_event : TrapEvent
  pub first_seen_at : ℤ
  pub last_seen_at : ℤ
  pub ttl_seconds : ℤ
  pub hold_until_clear : Bool
  pub suppressed_count : ℤ

-- time.Duration(seconds) * time.Second, a product of int64
unfoldable pub seconds : ℤ → ℤ
unfolding wrap64 scale
seconds n = wrap64 (scale (10 ^ 9) n)

unfoldable pub expires_at : DedupState → ℤ
unfolding ◌+ℤ◌ seconds
expires_at s = s.first_seen_at +ℤ seconds s.ttl_seconds
