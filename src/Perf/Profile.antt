-- ===== src/Perf/Profile.antt =====
-- cmd/snmptrap-relay-perf/main.go, main: the flags, and the configuration that main makes of them and of
-- the ports that it has got.
pub mod Fields
pub mod Handled
pub mod Cycle
pub mod Datagrams
use snmptrap_relay.Model.Value.{str, field, end}
use snmptrap_relay.Model.{AppConfig}
use snmptrap_relay.Perf.Load.{alarm_trap_oid, dedup_config_for_profile}
use snmptrap_relay.Prelude.Int.{ℤ, pos}
use snmptrap_relay.Prelude.{true, false, List, [], ◌∷◌, none}
use snmptrap_relay.Text.{Text, lit}

-- The flags that the configuration reads.
pub record Flags : Type 0 where
  pub queue_size : ℤ
  pub workers : ℤ
  pub max_dedup_entries : ℤ
  pub max_datagram_size : ℤ
  pub profile : Text

-- FieldAliases of the configuration
abbrev pub field_aliases : List (Text × Text)
field_aliases =
    (lit "1.3.6.1.4.1.9999.1.1", lit "device_id") ∷ (lit "1.3.6.1.4.1.9999.1.2", lit "ifIndex") ∷ []

-- cfg of main; what it does not set is the zero value
unfoldable pub app_config : Flags → ℤ → ℤ → AppConfig
unfolding dedup_config_for_profile
app_config flags listen_port forward_port = record {
  server = record {
    host = lit "127.0.0.1";
    port = listen_port;
    max_datagram_size = flags.max_datagram_size;
    cleanup_interval_seconds = pos 30;
    max_dedup_entries = flags.max_dedup_entries;
    queue_size = flags.queue_size;
    worker_count = flags.workers;
    stats_log_interval_secs = pos 0;
  };
  runtime = record { memory_limit = [] };
  metrics = record { enabled = false; host = []; port = pos 0; path = [] };
  logging = record { level = []; format = []; file = []; alerts_file = [] };
  receiver = record { v3_users = [] };
  field_aliases = field_aliases;
  forwarders =
      record {
        name = lit "perf-target";
        host = lit "127.0.0.1";
        port = forward_port;
        enabled = true;
        source_host = lit "127.0.0.1";
      }
      ∷ [];
  filters = record { default_action = lit "keep"; rules = [] };
  dedup_defaults = record {
    ttl_seconds = pos 0;
    key_fields = [];
    hold_until_clear = false;
    clear = none;
  };
  alarms =
      record {
        id = lit "link_down";
        match = record { raw = field (lit "trap_oid") (str alarm_trap_oid) end };
        dedup = dedup_config_for_profile flags.profile;
      }
      ∷ [];
}
