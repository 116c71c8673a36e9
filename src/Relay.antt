-- ===== src/Relay.antt =====
-- cmd/snmptrap-relay/main.go: the reload of the configuration at SIGHUP. What the operating system
-- gives out (files, connections, listeners) is a number, and closing it puts it into a list.
pub mod Ways
pub mod Ends
pub mod Endpoints
pub mod Start
pub mod Loop
pub mod Leaks
use snmptrap_relay.Config.MemoryLimit.{parse_memory_limit}
use snmptrap_relay.Config.{load}
use snmptrap_relay.Forward.Sockets.{Network, Socket, new_udp, conns}
use snmptrap_relay.Logging.{Logger, Resource, new_resource, new_alerts_writer, to_list}
use snmptrap_relay.Metrics.{Endpoint, new_endpoint}
use snmptrap_relay.Model.{AppConfig, MetricsConfig, get_runtime_memory_limit}
use snmptrap_relay.Prelude.Int.{ℤ, leb_ℤ}
use snmptrap_relay.Prelude.{
  ℕ, Bool, true, false, not, ◌&&◌, ◌||◌, List, [], ◌∷◌, ◌++◌, map, Option, none, some,
  if◌then◌else◌,
}
use snmptrap_relay.Receiver.{Gosnmp, Decoder, new_decoder}
use snmptrap_relay.Result.{Result, Error, ok, err, ◌>>=◌, panicked}
use snmptrap_relay.Text.{Text, same, is_empty}

-- What one reload gets from outside: the file as it is decoded, the log file and the alerts file, and
-- the listeners of the new endpoint of the metrics and of the old one.
pub record Calls : Type 0 where
  pub decoded : Result AppConfig
  pub log_file : Result ℕ
  pub alerts_file : Result ℕ
  pub metrics_listener : Result ℕ
  pub restored_listener : Result ℕ

-- The last log line of a reload.
pub data Message : Type 0 where
  config_reload_failed logging_reload_failed runtime_reload_failed : Message
  alerts_log_reload_failed forwarder_reload_failed decoder_reload_failed : Message
  metrics_reload_failed config_reloaded : Message

abbrev eq_ℤ : ℤ → ℤ → Bool
eq_ℤ a b = leb_ℤ a b && leb_ℤ b a

abbrev eq_bool : Bool → Bool → Bool
eq_bool true b = b
eq_bool false b = not b

-- nextCfg.Metrics == currentMetricsCfg
unfoldable pub same_metrics : MetricsConfig → MetricsConfig → Bool
unfolding same
same_metrics a b =
    eq_bool a.enabled b.enabled && same a.host b.host && eq_ℤ a.port b.port && same a.path b.path

-- applyRuntimeConfig: the limit that it sets, if it sets one
unfoldable pub apply_runtime_config : AppConfig → Result (Option ℕ)
unfolding get_runtime_memory_limit
apply_runtime_config cfg =
    let value = get_runtime_memory_limit cfg in
    if is_empty value then ok none else (do limit ← parse_memory_limit value; ok (some limit))

-- debug.SetMemoryLimit, where it is called
abbrev pub limit_after : Option ℕ → Option ℕ → Option ℕ
limit_after none before = before
limit_after (some limit) before = some limit

abbrev pub is_panic : Error → Bool
is_panic panicked = true
is_panic _ = false

abbrev pub listeners : Option Endpoint → List ℕ
listeners none = []
listeners (some m) = m.listener ∷ []

-- The multiplexer of net/http, by the patterns that it has, is the parameter `handle`.
module _ (gosnmp : Gosnmp) (net : Network) (handle : List Text → Text → Result (List Text)) where
  -- runtimeState, as engine.Reload stores it
  pub record EngineState : Type 0 where
    pub cfg : AppConfig
    pub forwarder : List (Socket net)
    pub decoder : Decoder gosnmp
    pub logger : Logger
    pub alerts_writer : Option ℕ

  -- The variables of run that the loop changes, the limit that is set, and what has been closed.
  pub record Relay : Type 0 where
    pub engine : EngineState
    pub forwarder : List (Socket net)
    pub logger : Logger
    pub logger_closer : Option ℕ
    pub alerts_writer : Option ℕ
    pub metrics : Option Endpoint
    pub metrics_cfg : MetricsConfig
    pub memory_limit : Option ℕ
    pub closed : List ℕ

  -- What a reload has opened before it comes to the metrics.
  pub record Opened : Type 0 where
    pub cfg : AppConfig
    pub resource : Resource
    pub alerts_writer : Option ℕ
    pub forwarder : List (Socket net)
    pub decoder : Decoder gosnmp

  abbrev pub Ending : Type 0
  Ending = Result (Relay × Message)

  -- The handles are closed, the line is logged, and the loop goes on.
  unfoldable pub give_up : List ℕ → Message → Relay → Ending
  give_up handles m s = ok (record s { closed = s.closed ++ handles }, m)

  abbrev pub opened_handles : Opened → List ℕ
  opened_handles o = conns net o.forwarder ++ (to_list o.alerts_writer ++ to_list o.resource.closer)

  -- From relayEngine.Reload on; the old endpoint is closed unless the next one is the same.
  unfoldable pub adopt : Opened → Option Endpoint → List ℕ → Relay → Ending
  adopt o metrics old_endpoint s = ok (
    record {
      engine = record {
        cfg = o.cfg;
        forwarder = o.forwarder;
        decoder = o.decoder;
        logger = o.resource.logger;
        alerts_writer = o.alerts_writer;
      };
      forwarder = o.forwarder;
      logger = o.resource.logger;
      logger_closer = o.resource.closer;
      alerts_writer = o.alerts_writer;
      metrics = metrics;
      metrics_cfg = o.cfg.metrics;
      memory_limit = s.memory_limit;
      closed =
          s.closed
          ++ (to_list s.logger_closer
              ++ (to_list s.alerts_writer ++ (conns net s.forwarder ++ old_endpoint)));
    },
    config_reloaded,
  )

  -- The branch for an error of metrics.New, behind the try to restore the old endpoint.
  unfoldable pub after_restore : Opened → Relay → Result Endpoint → Ending
  unfolding give_up
  after_restore o s (ok m) =
      give_up (opened_handles o) metrics_reload_failed (record s { metrics = some m })
  after_restore o s (err e) =
      if is_panic e then err panicked else give_up (opened_handles o) metrics_reload_failed s

  unfoldable pub restore : Calls → Opened → Relay → Ending
  unfolding give_up
  restore calls o s =
      if s.metrics_cfg.enabled
      then after_restore o s (new_endpoint handle s.metrics_cfg calls.restored_listener)
      else give_up (opened_handles o) metrics_reload_failed s

  unfoldable pub after_metrics : Calls → Opened → Relay → Result Endpoint → Ending
  unfolding adopt
  after_metrics calls o s (ok m) = adopt o (some m) (listeners s.metrics) s
  after_metrics calls o s (err e) = if is_panic e then err panicked else restore calls o s

  -- From `nextMetricsServer := metricsServer` on.
  unfoldable pub swap_metrics : Calls → Opened → Relay → Ending
  unfolding same_metrics adopt
  swap_metrics calls o s =
      let without : Relay = record s { closed = s.closed ++ listeners s.metrics } in
      if same_metrics o.cfg.metrics s.metrics_cfg
      then adopt o s.metrics [] s
      else if o.cfg.metrics.enabled
      then after_metrics calls o without (new_endpoint handle o.cfg.metrics calls.metrics_listener)
      else adopt o none (listeners s.metrics) without

  -- From receiver.New on.
  unfoldable pub after_decoder :
      Calls
      → AppConfig
      → Resource
      → Option ℕ
      → List (Socket net)
      → Relay
      → Result (Decoder gosnmp)
      → Ending
  unfolding give_up swap_metrics
  after_decoder calls cfg resource alerts forwarder s (err e) =
      give_up (conns net forwarder ++ (to_list alerts ++ to_list resource.closer))
        decoder_reload_failed s
  after_decoder calls cfg resource alerts forwarder s (ok decoder) =
      swap_metrics calls
        (record {
          cfg = cfg;
          resource = resource;
          alerts_writer = alerts;
          forwarder = forwarder;
          decoder = decoder;
        })
        s

  -- From forward.NewUDP on, with the connections that it closes itself.
  unfoldable pub after_forwarder :
      Calls → AppConfig → Resource → Option ℕ → Relay → Result (List (Socket net)) → List ℕ → Ending
  unfolding give_up after_decoder
  after_forwarder calls cfg resource alerts s (err e) dropped =
      give_up (dropped ++ (to_list alerts ++ to_list resource.closer)) forwarder_reload_failed s
  after_forwarder calls cfg resource alerts s (ok forwarder) dropped =
      after_decoder calls cfg resource alerts forwarder s (new_decoder gosnmp cfg)

  -- From logging.NewAlertsWriter on.
  unfoldable pub after_alerts : Calls → AppConfig → Resource → Relay → Result (Option ℕ) → Ending
  unfolding give_up after_forwarder
  after_alerts calls cfg resource s (err e) =
      give_up (to_list resource.closer) alerts_log_reload_failed s
  after_alerts calls cfg resource s (ok alerts) =
      let (sockets, dropped) = new_udp net cfg.forwarders in
      after_forwarder calls cfg resource alerts s sockets dropped

  -- From applyRuntimeConfig on.
  unfoldable pub after_runtime : Calls → AppConfig → Resource → Relay → Result (Option ℕ) → Ending
  unfolding give_up after_alerts
  after_runtime calls cfg resource s (err e) =
      give_up (to_list resource.closer) runtime_reload_failed s
  after_runtime calls cfg resource s (ok limit) =
      after_alerts calls cfg resource (record s { memory_limit = limit_after limit s.memory_limit })
        (new_alerts_writer cfg.logging calls.alerts_file)

  -- From logging.NewResource on, with the files that it closes itself.
  unfoldable pub after_logging : Calls → AppConfig → Relay → Result Resource → List ℕ → Ending
  unfolding give_up after_runtime
  after_logging calls cfg s (err e) dropped = give_up dropped logging_reload_failed s
  after_logging calls cfg s (ok resource) dropped =
      after_runtime calls cfg resource s (apply_runtime_config cfg)

  -- From config.Load on.
  unfoldable pub after_load : Calls → Relay → Result AppConfig → Ending
  unfolding give_up after_logging
  after_load calls s (err e) = give_up [] config_reload_failed s
  after_load calls s (ok cfg) =
      let (resource, dropped) = new_resource cfg.logging calls.log_file in
      after_logging calls cfg s resource dropped

  -- The case of SIGHUP; an error of it is a panic
  unfoldable pub reload : Calls → Relay → Ending
  unfolding after_load
  reload calls s = after_load calls s (load calls.decoded)
