-- ===== src/Relay/Start.antt =====
-- cmd/snmptrap-relay/main.go, run: from the flags to the loop, with the exit codes on the way. The
-- deferred calls close what has been opened, the last one first.
pub mod Checked
use snmptrap_relay.Config.{load}
use snmptrap_relay.Forward.Sockets.{Network, Socket, new_udp, conns}
use snmptrap_relay.Logging.{Resource, new_resource, new_alerts_writer, to_list}
use snmptrap_relay.Metrics.{Endpoint, new_endpoint}
use snmptrap_relay.Model.{AppConfig}
use snmptrap_relay.Prelude.{
  ℕ, Bool, true, false, List, [], ◌∷◌, ◌++◌, Option, none, some, if◌then◌else◌,
}
use snmptrap_relay.Receiver.{Gosnmp, Decoder, new_decoder}
use snmptrap_relay.Relay.{Calls, Relay, apply_runtime_config, is_panic, listeners}
use snmptrap_relay.Result.{Result, Error, ok, err}
use snmptrap_relay.Text.{Text, is_empty}

-- The flags, and the connection that server.New makes.
pub record Launch : Type 0 where
  pub config_path : Text
  pub check_only : Bool
  pub calls : Calls
  pub server_conn : Result ℕ

module _ (gosnmp : Gosnmp) (net : Network) (handle : List Text → Text → Result (List Text)) where
  -- How run goes on: it returns an exit code and has closed these handles, it panics, or it comes to its
  -- loop with the connection of the server.
  pub data Started : Type 0 where
    exits : ℕ → List ℕ → Started
    panics : Started
    runs : Relay gosnmp net handle → ℕ → Started

  -- What a launch has made before the test of the flag -check-config.
  pub record Prepared : Type 0 where
    pub cfg : AppConfig
    pub resource : Resource
    pub limit : Option ℕ
    pub alerts_writer : Option ℕ

  abbrev pub prepared_handles : Prepared → List ℕ
  prepared_handles p = to_list p.alerts_writer ++ to_list p.resource.closer

  -- The end of the branch of -check-config, behind metrics.New.
  unfoldable pub check_endpoint : Prepared → List ℕ → Result Endpoint → Started
  check_endpoint p conns_closed (ok m) =
      exits 0 (conns_closed ++ ((m.listener ∷ []) ++ prepared_handles p))
  check_endpoint p conns_closed (err e) =
      if is_panic e then panics else exits 1 (conns_closed ++ prepared_handles p)

  -- The same from server.New on; its connection is left to the end of the process.
  unfoldable pub check_server : Launch → Prepared → List ℕ → Result ℕ → Started
  unfolding check_endpoint
  check_server l p conns_closed (err e) = exits 1 (conns_closed ++ prepared_handles p)
  check_server l p conns_closed (ok conn) =
      check_endpoint p conns_closed (new_endpoint handle p.cfg.metrics l.calls.metrics_listener)

  unfoldable pub check_decoder : Launch → Prepared → List ℕ → Result (Decoder gosnmp) → Started
  unfolding check_server
  check_decoder l p conns_closed (err e) = exits 1 (conns_closed ++ prepared_handles p)
  check_decoder l p conns_closed (ok d) =
      if p.cfg.metrics.enabled
      then check_server l p conns_closed l.server_conn
      else exits 0 (conns_closed ++ prepared_handles p)

  -- `if checkOnly { … }`; the connections are closed before the decoder is made
  unfoldable pub check : Launch → Prepared → Result (List (Socket net)) → List ℕ → Started
  unfolding check_decoder
  check l p (err e) dropped = exits 1 (dropped ++ prepared_handles p)
  check l p (ok sockets) dropped = check_decoder l p (conns net sockets) (new_decoder gosnmp p.cfg)

  -- The variables of run at the loop.
  unfoldable pub at_loop :
      Prepared → List (Socket net) → Decoder gosnmp → Option Endpoint → Relay gosnmp net handle
  at_loop p sockets d metrics = record {
    engine = record {
      cfg = p.cfg;
      forwarder = sockets;
      decoder = d;
      logger = p.resource.logger;
      alerts_writer = p.alerts_writer;
    };
    forwarder = sockets;
    logger = p.resource.logger;
    logger_closer = p.resource.closer;
    alerts_writer = p.alerts_writer;
    metrics = metrics;
    metrics_cfg = p.cfg.metrics;
    memory_limit = p.limit;
    closed = [];
  }

  -- Behind metrics.New.
  unfoldable pub start_endpoint :
      Prepared → List (Socket net) → Decoder gosnmp → ℕ → Result Endpoint → Started
  unfolding at_loop
  start_endpoint p sockets d conn (ok m) = runs (at_loop p sockets d (some m)) conn
  start_endpoint p sockets d conn (err e) =
      if is_panic e then panics else exits 1 (conns net sockets ++ prepared_handles p)

  -- From server.New on.
  unfoldable pub start_server :
      Launch → Prepared → List (Socket net) → Decoder gosnmp → Result ℕ → Started
  unfolding start_endpoint at_loop
  start_server l p sockets d (err e) = exits 1 (conns net sockets ++ prepared_handles p)
  start_server l p sockets d (ok conn) =
      if p.cfg.metrics.enabled
      then start_endpoint p sockets d conn
          (new_endpoint handle p.cfg.metrics l.calls.metrics_listener)
      else runs (at_loop p sockets d none) conn

  unfoldable pub start_decoder :
      Launch → Prepared → List (Socket net) → Result (Decoder gosnmp) → Started
  unfolding start_server
  start_decoder l p sockets (err e) = exits 1 (conns net sockets ++ prepared_handles p)
  start_decoder l p sockets (ok d) = start_server l p sockets d l.server_conn

  -- From the second forward.NewUDP on.
  unfoldable pub start_relay : Launch → Prepared → Result (List (Socket net)) → List ℕ → Started
  unfolding start_decoder
  start_relay l p (err e) dropped = exits 1 (dropped ++ prepared_handles p)
  start_relay l p (ok sockets) dropped = start_decoder l p sockets (new_decoder gosnmp p.cfg)

  -- From the test of the flag on.
  unfoldable pub run_prepared : Launch → Prepared → Started
  unfolding check start_relay
  run_prepared l p =
      let (sockets, dropped) = new_udp net p.cfg.forwarders in
      if l.check_only then check l p sockets dropped else start_relay l p sockets dropped

  -- From logging.NewAlertsWriter on.
  unfoldable pub run_alerts : Launch → AppConfig → Resource → Option ℕ → Result (Option ℕ) → Started
  unfolding run_prepared
  run_alerts l cfg resource limit (err e) = exits 1 (to_list resource.closer)
  run_alerts l cfg resource limit (ok alerts) =
      run_prepared l
        (record { cfg = cfg; resource = resource; limit = limit; alerts_writer = alerts })

  -- From applyRuntimeConfig on.
  unfoldable pub run_runtime : Launch → AppConfig → Resource → Result (Option ℕ) → Started
  unfolding run_alerts
  run_runtime l cfg resource (err e) = exits 1 (to_list resource.closer)
  run_runtime l cfg resource (ok limit) =
      run_alerts l cfg resource limit (new_alerts_writer cfg.logging l.calls.alerts_file)

  -- From logging.NewResource on.
  unfoldable pub run_logging : Launch → AppConfig → Result Resource → List ℕ → Started
  unfolding run_runtime
  run_logging l cfg (err e) dropped = exits 1 dropped
  run_logging l cfg (ok resource) dropped = run_runtime l cfg resource (apply_runtime_config cfg)

  -- From config.Load on.
  unfoldable pub run_load : Launch → Result AppConfig → Started
  unfolding run_logging
  run_load l (err e) = exits 1 []
  run_load l (ok cfg) =
      let (resource, dropped) = new_resource cfg.logging l.calls.log_file in
      run_logging l cfg resource dropped

  -- run up to its loop
  unfoldable pub run : Launch → Started
  unfolding run_load
  run l = if is_empty l.config_path then exits 2 [] else run_load l (load l.calls.decoded)
