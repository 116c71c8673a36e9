-- ===== src/Relay/Start/Checked.antt =====
-- cmd/snmptrap-relay/main.go, run: what the flag -check-config says of a start without it.
use snmptrap_relay.Config.{load}
use snmptrap_relay.Forward.Sockets.Opened.{new_udp_ok}
use snmptrap_relay.Forward.Sockets.{Network, Socket, new_udp, conns}
use snmptrap_relay.Logging.{Resource, new_resource, new_resource_ok, new_alerts_writer}
use snmptrap_relay.Model.{AppConfig}
use snmptrap_relay.Prelude.{
  ℕ, Bool, true, false, ◌≡◌, refl, List, [], Option, if◌then◌else◌, arith, zero,
}
use snmptrap_relay.Receiver.{Gosnmp, Decoder, new_decoder}
use snmptrap_relay.Relay.{apply_runtime_config}
use snmptrap_relay.Relay.Start.{
  Launch, Started, exits, Prepared, start_server, run, run_load, run_logging, run_runtime,
  run_alerts, run_prepared, check, check_decoder, start_relay, start_decoder,
}
use snmptrap_relay.Result.{Result, ok, err}
use snmptrap_relay.Text.{Text, is_empty}

-- The launch without the flag -check-config, and with it.
abbrev pub plain : Launch → Launch
plain l = record l { check_only = false }

abbrev pub checking : Launch → Launch
checking l = record l { check_only = true }

module _ (gosnmp : Gosnmp) (net : Network) (handle : List Text → Text → Result (List Text)) where
  abbrev State : Type 0
  State = Started gosnmp net handle

  abbrev pub is_success : State → Bool
  is_success (exits zero closed) = true
  is_success _ = false

  -- What a launch makes before the test of the flag, with no error.
  pub record IsPrepared (l : Launch) (p : Prepared gosnmp net handle) : Type 0 where
    pub loaded : load l.calls.decoded ≡ ok p.cfg
    pub logging : new_resource p.cfg.logging l.calls.log_file ≡ (ok p.resource, [])
    pub limit : apply_runtime_config p.cfg ≡ ok p.limit
    pub alerts : new_alerts_writer p.cfg.logging l.calls.alerts_file ≡ ok p.alerts_writer

  -- A start that comes as far as server.New.
  pub data ComesToServer (l : Launch) : State → Type 0 where
    comes :
        (p : Prepared gosnmp net handle) (sockets : List (Socket net)) (d : Decoder gosnmp)
        → IsPrepared l p
        → new_udp net p.cfg.forwarders ≡ (ok sockets, [])
        → new_decoder gosnmp p.cfg ≡ ok d
        → ComesToServer l (start_server gosnmp net handle l p sockets d l.server_conn)

  check_decoder-Comes :
      (l : Launch) (p : Prepared gosnmp net handle) (sockets : List (Socket net)) (dropped : List ℕ)
      (r : Result (Decoder gosnmp))
      → IsPrepared (plain l) p
      → new_udp net p.cfg.forwarders ≡ (ok sockets, [])
      → new_decoder gosnmp p.cfg ≡ r
      → is_success (check_decoder gosnmp net handle (checking l) p dropped r) ≡ true
      → ComesToServer (plain l) (start_decoder gosnmp net handle (plain l) p sockets r)
  unfolding check_decoder start_decoder
  check_decoder-Comes l p sockets dropped (err e) h open_ made good = absurd (ground arith)
  check_decoder-Comes l p sockets dropped (ok d) h open_ made good = comes p sockets d h open_ made

  check-Comes :
      (l : Launch) (p : Prepared gosnmp net handle) (r : Result (List (Socket net)))
      (dropped : List ℕ)
      → IsPrepared (plain l) p
      → new_udp net p.cfg.forwarders ≡ (r, dropped)
      → is_success (check gosnmp net handle (checking l) p r dropped) ≡ true
      → ComesToServer (plain l) (start_relay gosnmp net handle (plain l) p r dropped)
  unfolding check start_relay
  check-Comes l p (err e) dropped h open_ good = absurd (ground arith)
  check-Comes l p (ok sockets) dropped h open_ good =
      check_decoder-Comes l p sockets (conns net sockets) _ h
        (new_udp_ok net p.cfg.forwarders sockets dropped open_) refl good

  run_alerts-Comes :
      (l : Launch) (cfg : AppConfig) (resource : Resource) (limit : Option ℕ)
      (r : Result (Option ℕ))
      → load l.calls.decoded ≡ ok cfg
      → new_resource cfg.logging l.calls.log_file ≡ (ok resource, [])
      → apply_runtime_config cfg ≡ ok limit
      → new_alerts_writer cfg.logging l.calls.alerts_file ≡ r
      → is_success (run_alerts gosnmp net handle (checking l) cfg resource limit r) ≡ true
      → ComesToServer (plain l) (run_alerts gosnmp net handle (plain l) cfg resource limit r)
  unfolding run_alerts run_prepared
  run_alerts-Comes l cfg resource limit (err e) h1 h2 h3 h4 good = absurd (ground arith)
  run_alerts-Comes l cfg resource limit (ok alerts) h1 h2 h3 h4 good =
      let p : Prepared gosnmp net handle = record {
        cfg = cfg;
        resource = resource;
        limit = limit;
        alerts_writer = alerts;
      } in
      let (sockets, dropped) = new_udp net cfg.forwarders in
      check-Comes l p sockets dropped
        (record { loaded = h1; logging = h2; limit = h3; alerts = h4 }) refl good

  run_runtime-Comes :
      (l : Launch) (cfg : AppConfig) (resource : Resource) (r : Result (Option ℕ))
      → load l.calls.decoded ≡ ok cfg
      → new_resource cfg.logging l.calls.log_file ≡ (ok resource, [])
      → apply_runtime_config cfg ≡ r
      → is_success (run_runtime gosnmp net handle (checking l) cfg resource r) ≡ true
      → ComesToServer (plain l) (run_runtime gosnmp net handle (plain l) cfg resource r)
  unfolding run_runtime
  run_runtime-Comes l cfg resource (err e) h1 h2 h3 good = absurd (ground arith)
  run_runtime-Comes l cfg resource (ok limit) h1 h2 h3 good =
      run_alerts-Comes l cfg resource limit _ h1 h2 h3 refl good

  run_logging-Comes :
      (l : Launch) (cfg : AppConfig) (r : Result Resource) (dropped : List ℕ)
      → load l.calls.decoded ≡ ok cfg
      → new_resource cfg.logging l.calls.log_file ≡ (r, dropped)
      → is_success (run_logging gosnmp net handle (checking l) cfg r dropped) ≡ true
      → ComesToServer (plain l) (run_logging gosnmp net handle (plain l) cfg r dropped)
  unfolding run_logging
  run_logging-Comes l cfg (err e) dropped h1 h2 good = absurd (ground arith)
  run_logging-Comes l cfg (ok resource) dropped h1 h2 good =
      run_runtime-Comes l cfg resource _ h1
        (new_resource_ok cfg.logging l.calls.log_file resource dropped h2) refl good

  run_load-Comes :
      (l : Launch) (r : Result AppConfig)
      → load l.calls.decoded ≡ r
      → is_success (run_load gosnmp net handle (checking l) r) ≡ true
      → ComesToServer (plain l) (run_load gosnmp net handle (plain l) r)
  unfolding run_load
  run_load-Comes l (err e) h good = absurd (ground arith)
  run_load-Comes l (ok cfg) h good =
      run_logging-Comes l cfg (new_resource cfg.logging l.calls.log_file).0
        (new_resource cfg.logging l.calls.log_file).1 h refl good

  path-Comes :
      (missing : Bool) (l : Launch)
      → is_success (
          if missing
          then exits 2 []
          else run_load gosnmp net handle (checking l) (load l.calls.decoded))
        ≡ true
      → ComesToServer (plain l) (
          if missing
          then exits 2 []
          else run_load gosnmp net handle (plain l) (load l.calls.decoded))
  path-Comes true l good = absurd (ground arith)
  path-Comes false l good = run_load-Comes l _ refl good

  -- When a launch with the flag -check-config exits with code 0, the same launch without it, with the
  -- same answers of the system, comes to server.New: the configuration loads, and the log, the memory
  -- limit, the alerts file, the forwarder and the decoder are made without an error.
  pub run-ComesToServer :
      (l : Launch)
      → is_success (run gosnmp net handle (checking l)) ≡ true
      → ComesToServer (plain l) (run gosnmp net handle (plain l))
  unfolding run
  run-ComesToServer l good = path-Comes (is_empty l.config_path) l good
