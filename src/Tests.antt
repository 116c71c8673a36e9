-- ===== src/Tests.antt =====
-- Concrete configurations, events and stores, on which the modules below run the program.
pub mod Ber
pub mod Config
pub mod Dedup
pub mod Engine
pub mod Forward
pub mod Match
pub mod Oid
pub mod Server
pub mod Relay
pub mod Receiver
pub mod Perf
pub mod Process
pub mod Profile
use snmptrap_relay.Dedup.{Store, new_store}
use snmptrap_relay.Engine.State.{Runtime, Scene}
use snmptrap_relay.Match.Std.{Platform}
use snmptrap_relay.Model.Value.{str, Fields, end, field}
use snmptrap_relay.Model.{
  ServerConfig, MetricsConfig, RuntimeConfig, LoggingConfig, ReceiverConfig, FiltersConfig,
  DedupConfig, MatchSpec, DedupClearConfig, AlarmRuleConfig, FilterRuleConfig, AppConfig, TrapEvent,
  VarBind,
}
use snmptrap_relay.Prelude.Int.{ℤ, pos}
use snmptrap_relay.Prelude.{ℕ, ◌*◌, ◌^◌, Bool, true, false, List, [], ◌∷◌, Option, none, some}
use snmptrap_relay.Text.{Text, lit, same}

-- Expressions match the texts that they equal, there are no numbers, and a digest is the text itself.
abbrev pub platform : Platform
platform = record {
  regex_match = λ expr s. some (same expr s);
  parse_float = λ s. none;
  sha256 = λ s. s;
}

abbrev pub link_down : Text
link_down = lit "1.3.6.1.6.3.1.1.5.3"

abbrev pub link_up : Text
link_up = lit "1.3.6.1.6.3.1.1.5.4"

-- A trap of a kind, from one host, received at a time.
abbrev pub trap : Text → ℤ → TrapEvent
trap oid received_at = record {
  received_at = received_at;
  source_ip = lit "10.0.0.1";
  source_port = pos 50000;
  raw_bytes = 0x30 ∷ 0x01 ∷ 0x00 ∷ [];
  version = pos 1;
  community = lit "public";
  pdu_type = lit "0xa7";
  enterprise_oid = [];
  agent_address = [];
  generic_trap = [];
  generic_trap_name = [];
  specific_trap = [];
  uptime = [];
  request_id = pos 1;
  error_status = pos 0;
  error_index = pos 0;
  trap_oid = oid;
  varbinds = [];
  raw_varbind_map = (lit "1.1", lit "down") ∷ [];
  fields = (lit "trap_oid", oid) ∷ (lit "source_ip", lit "10.0.0.1") ∷ [];
  alerts_logged = false;
}

abbrev pub trap_oid_is : Text → MatchSpec
trap_oid_is oid = record { raw = field (lit "trap_oid") (str oid) end }

abbrev pub key_names : List Text
key_names = lit "trap_oid" ∷ lit "source_ip" ∷ []

-- A clear trap of kind linkUp, if the varbind 1.1 equals the text.
abbrev pub clear_on : Text → DedupClearConfig
clear_on regex = record {
  match = trap_oid_is link_up;
  key_fields = [];
  varbind_oid = lit ".1.1";
  regex = regex;
}

abbrev pub alarm_rule : Text → Option DedupClearConfig → AlarmRuleConfig
alarm_rule id clear = record {
  id = id;
  match = trap_oid_is link_down;
  dedup = record {
    ttl_seconds = pos 300;
    key_fields = key_names;
    hold_until_clear = false;
    clear = clear;
  };
}

abbrev pub keep_rule : FilterRuleConfig
keep_rule = record { id = lit "k"; action = lit "keep"; match = trap_oid_is link_down }

abbrev pub drop_rule : FilterRuleConfig
drop_rule = record { id = lit "d"; action = lit "drop"; match = trap_oid_is link_up }

abbrev pub config : List FilterRuleConfig → List AlarmRuleConfig → AppConfig
config rules alarms = record {
  server = record {
    host = lit "0.0.0.0";
    port = pos 162;
    max_datagram_size = pos 8192;
    cleanup_interval_seconds = pos 30;
    max_dedup_entries = pos 2;
    queue_size = pos 1024;
    worker_count = pos 1;
    stats_log_interval_secs = pos 60;
  };
  runtime = record { memory_limit = [] };
  metrics = record {
    enabled = false;
    host = lit "127.0.0.1";
    port = pos 9163;
    path = lit "/metrics";
  };
  logging = record { level = lit "INFO"; format = lit "text"; file = []; alerts_file = [] };
  receiver = record { v3_users = [] };
  field_aliases = [];
  forwarders = [];
  filters = record { default_action = lit "keep"; rules = rules };
  dedup_defaults = record {
    ttl_seconds = pos 300;
    key_fields = [];
    hold_until_clear = false;
    clear = none;
  };
  alarms = alarms;
}

abbrev pub runtime : Option Text → List AlarmRuleConfig → Runtime
runtime send_error alarms = record {
  cfg = config [] alarms;
  forwarder = λ payload. send_error;
  decoder = none;
  alerts_writer = true;
  stamp = lit "2026-01-01T00:00:00Z";
}

abbrev pub scene : Store → TrapEvent → Scene
scene store event = record { store = store; event = event; sent = []; alerts = []; logs = [] }

-- A time in seconds.
abbrev pub at : ℕ → ℤ
at n = pos (n * 10 ^ 9)
