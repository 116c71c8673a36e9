-- ===== src/Tests/Relay.antt =====
-- Reloads and starts of the relay command at work.
use snmptrap_relay.Config.{is_seen, load, validate, apply_defaults}
use snmptrap_relay.Forward.Sockets.Opened.{new_udp_cases, enabled}
use snmptrap_relay.Forward.Sockets.{open_socket, Network, Socket, new_udp, conns}
use snmptrap_relay.Logging.{
  text_format, level_info, new_resource, open_named, format_of, new_alerts_writer,
}
use snmptrap_relay.Metrics.{Endpoint, new_endpoint}
use snmptrap_relay.Model.{AppConfig, ForwarderConfig}
use snmptrap_relay.Prelude.Int.{pos}
use snmptrap_relay.Prelude.{
  ℕ, ◌≡◌, ◌⊎◌, refl, ◌+◌, ◌++◌, List, [], ◌∷◌, map, none, some, true, false, if◌then◌else◌,
}
use snmptrap_relay.Receiver.{Gosnmp, Decoder, new_decoder}
use snmptrap_relay.Relay.Leaks.Runs.{reload_all, opened_by_all, in_use_by, count-reload_all}
use snmptrap_relay.Relay.Leaks.{count}
use snmptrap_relay.Prelude.{◌≤◌, ◌+◌}
use snmptrap_relay.Relay.Endpoints.{swap_metrics_lost}
use snmptrap_relay.Relay.Ends.{reload-Ends}
use snmptrap_relay.Relay.Ways.{Ends}
use snmptrap_relay.Relay.Start.Checked.{ComesToServer, run-ComesToServer, plain}
use snmptrap_relay.Relay.Start.{Launch, run}
use snmptrap_relay.Relay.{
  Calls, Relay, Opened, metrics_reload_failed, config_reloaded, same_metrics, swap_metrics, reload,
  opened_handles, apply_runtime_config,
}
use snmptrap_relay.Result.{Result, Error, ok, err, panicked, send_failed}
use snmptrap_relay.Tests.{config}
use snmptrap_relay.Text.{Text, same, same_refl, lit}

-- A library that takes every user and no datagram.
abbrev pub gosnmp : Gosnmp
gosnmp = record {
  Table = List Text;
  new_table = [];
  add = λ name sec table. ok (name ∷ table);
  unmarshal_trap = λ table bytes. none;
  version1 = 0;
  version3 = 3;
}

-- Every address resolves to its text, and the connections are numbered from 100 on.
abbrev pub net : Network
net = record {
  Address = Text;
  resolve_udp_addr = λ network address. ok address;
  join_host_port = λ host port. host ++ (lit ":" ++ port);
  is_ipv6 = λ address. false;
  listen_udp = λ call network local. ok (100 + call);
}

abbrev pub handle : List Text → Text → Result (List Text)
handle routes p = if is_seen p routes then err panicked else ok (p ∷ routes)

again_panicked : (p : Text) → handle (p ∷ []) p ≡ err panicked
again_panicked p = rw (same_refl p) refl

abbrev in_use : Error
in_use = send_failed (lit "address in use")

-- A configuration with an endpoint at a path and a port.
abbrev with_metrics : Text → ℕ → AppConfig
with_metrics path port = record (config [] []) {
  metrics = record { enabled = true; host = lit "127.0.0.1"; port = pos port; path = path };
}

abbrev target : ForwarderConfig
target = record {
  name = lit "nms";
  host = lit "10.0.0.9";
  port = pos 162;
  enabled = true;
  source_host = [];
}

new_udp_cases_example :
    ((sockets : List (Socket net)) × (new_udp net (target ∷ []) ≡ (ok sockets, []))
      × (map (λ (s : Socket net). s.config) sockets ≡ enabled (target ∷ [])))
    ⊎ ((e : Error) × (before : List ForwarderConfig) × (item : ForwarderConfig) × (behind : List
          ForwarderConfig)
        × (sockets : List (Socket net)) × (target ∷ [] ≡ before ++ (item ∷ behind))
        × (new_udp net before ≡ (ok sockets, []))
        × (map (λ (s : Socket net). s.config) sockets ≡ enabled before)
        × (new_udp net (target ∷ []) ≡ (err e, conns net sockets)))
new_udp_cases_example = new_udp_cases net (target ∷ [])

abbrev decoder : Decoder gosnmp
decoder = record { g = some none; cfg = some (config [] []) }

abbrev endpoint : Endpoint
endpoint = record {
  cfg = (with_metrics (lit "/metrics") 9163).metrics;
  listener = 7;
  routes = lit "/healthz" ∷ lit "/metrics" ∷ [];
}

-- The relay with an endpoint at port 9163.
abbrev pub serving : Relay gosnmp net handle
serving = record {
  engine = record {
    cfg = with_metrics (lit "/metrics") 9163;
    forwarder = [];
    decoder = decoder;
    logger = record { format = text_format; level = level_info; writer = none };
    alerts_writer = none;
  };
  forwarder = [];
  logger = record { format = text_format; level = level_info; writer = none };
  logger_closer = none;
  alerts_writer = none;
  metrics = some endpoint;
  metrics_cfg = (with_metrics (lit "/metrics") 9163).metrics;
  memory_limit = none;
  closed = [];
}

-- A reload that wants the port 9164, where no listener can be had any more.
abbrev moving : Opened gosnmp net handle
moving = record {
  cfg = with_metrics (lit "/metrics") 9164;
  resource = record {
    logger = record { format = text_format; level = level_info; writer = none };
    closer = none;
  };
  alerts_writer = none;
  forwarder = [];
  decoder = decoder;
}

abbrev no_listener : Calls
no_listener = record {
  decoded = ok (with_metrics (lit "/metrics") 9164);
  log_file = err in_use;
  alerts_file = err in_use;
  metrics_listener = err in_use;
  restored_listener = err in_use;
}

swap_metrics_lost_example :
    (t : Relay gosnmp net handle) × (swap_metrics gosnmp net handle no_listener moving serving
      ≡ ok (t, metrics_reload_failed))
    × (t.metrics ≡ some endpoint)
    × (t.closed
        ≡ (serving.closed ++ (endpoint.listener ∷ [])) ++ opened_handles gosnmp net handle moving)
    × ((again : Calls) (back : Opened gosnmp net handle)
        → same_metrics back.cfg.metrics t.metrics_cfg ≡ true
        → (u : Relay gosnmp net handle) × (swap_metrics gosnmp net handle again back t
            ≡ ok (u, config_reloaded))
          × (u.metrics ≡ some endpoint))
unfolding same_metrics new_endpoint lit
swap_metrics_lost_example =
    swap_metrics_lost gosnmp net handle no_listener moving serving endpoint in_use in_use refl refl
      refl refl refl refl refl refl

reload-Ends_example :
    Ends gosnmp net handle no_listener serving (reload gosnmp net handle no_listener serving)
reload-Ends_example = reload-Ends gosnmp net handle no_listener serving

-- A launch with no forwarder, no users and no metrics.
abbrev launch : Launch
launch = record {
  config_path = lit "/etc/snmptrap-relay.yaml";
  check_only = true;
  calls = record no_listener { decoded = ok (config [] []) };
  server_conn = ok 9;
}

run-ComesToServer_example :
    ComesToServer gosnmp net handle (plain launch) (run gosnmp net handle (plain launch))
unfolding run lit load validate apply_defaults same new_resource open_named format_of
    apply_runtime_config new_alerts_writer new_udp new_decoder
run-ComesToServer_example = run-ComesToServer gosnmp net handle launch refl

-- A configuration with a log file, an alerts file and a forwarder.
abbrev with_files : AppConfig
with_files = record (config [] []) {
  logging = record {
    level = [];
    format = [];
    file = lit "relay.log";
    alerts_file = lit "alerts.log";
  };
  forwarders = target ∷ [];
}

-- A reload that opens these, and one that fails to open its alerts file.
abbrev opening : Calls
opening = record no_listener { decoded = ok with_files; log_file = ok 11; alerts_file = ok 12 }

abbrev half_opening : Calls
half_opening = record no_listener { decoded = ok with_files; log_file = ok 13 }

abbrev relay_of : Result (Relay gosnmp net handle) → Relay gosnmp net handle
relay_of (ok s) = s
relay_of (err e) = serving

abbrev reloaded : Relay gosnmp net handle
reloaded = relay_of (reload_all gosnmp net handle (opening ∷ half_opening ∷ []) serving)

reloads_end : reload_all gosnmp net handle (opening ∷ half_opening ∷ []) serving ≡ ok reloaded
unfolding reload_all reload lit load validate apply_defaults same new_resource open_named format_of
    apply_runtime_config new_alerts_writer new_udp new_decoder open_socket
reloads_end = refl

count-reload_all_example :
    count 11 (in_use_by gosnmp net handle serving ++ serving.closed)
      + count 11 (opened_by_all gosnmp net handle (opening ∷ half_opening ∷ []))
    ≤ count 11 (in_use_by gosnmp net handle reloaded ++ reloaded.closed)
count-reload_all_example =
    count-reload_all gosnmp net handle (opening ∷ half_opening ∷ []) serving reloaded 11 reloads_end
