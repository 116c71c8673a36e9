-- ===== src/Relay/Ends.antt =====
-- cmd/snmptrap-relay/main.go, the case of SIGHUP: what a reload leaves behind, on each of its ways out.
use snmptrap_relay.Config.{load}
use snmptrap_relay.Forward.Sockets.Dialled.{new_udp_refused}
use snmptrap_relay.Forward.Sockets.Opened.{new_udp_ok}
use snmptrap_relay.Forward.Sockets.{Network, Socket, new_udp}
use snmptrap_relay.Logging.{
  Resource, new_resource, new_alerts_writer, new_resource_ok, new_resource_refused,
}
use snmptrap_relay.Metrics.{Endpoint}
use snmptrap_relay.Model.{AppConfig}
use snmptrap_relay.Prelude.{
  ℕ, Bool, true, false, ◌≡◌, refl, List, [], ◌++◌, Option, none, some, if◌then◌else◌,
}
use snmptrap_relay.Receiver.{Gosnmp, Decoder, new_decoder}
use snmptrap_relay.Relay.{
  Calls, Message, Ending, config_reload_failed, logging_reload_failed, runtime_reload_failed,
  alerts_log_reload_failed, forwarder_reload_failed, decoder_reload_failed, metrics_reload_failed,
  give_up, adopt, after_restore, restore, after_metrics, swap_metrics, after_decoder,
  after_forwarder, after_alerts, after_runtime, after_logging, after_load, reload, is_panic,
  same_metrics, limit_after, listeners, opened_handles, apply_runtime_config,
}
use snmptrap_relay.Result.{Result, ok, err}
use snmptrap_relay.Text.{Text}
use snmptrap_relay.Relay.Ways.{
  State, Next, is_reloaded, Keeps, IsNext, Obtained, Ends, at_load, at_logging, at_runtime,
  at_alerts, at_sockets, at_connections, crashes, keeps, reloads,
}

module _ (gosnmp : Gosnmp) (net : Network) (handle : List Text → Text → Result (List Text)) where
  IsNext-Obtained :
      (calls : Calls) (o : Next gosnmp net handle)
      → IsNext gosnmp net handle calls o
      → Obtained gosnmp net handle calls (opened_handles gosnmp net handle o)
  IsNext-Obtained calls o n = at_connections n.loaded n.logging n.alerts n.sockets

  Keeps-refl : (s : State gosnmp net handle) → Keeps gosnmp net handle s s
  Keeps-refl s = record {
    engine = refl;
    forwarder = refl;
    logger = refl;
    logger_closer = refl;
    alerts_writer = refl;
    metrics_cfg = refl;
  }

  -- A state that shares with another what a reload keeps.
  give_up-Ends :
      (calls : Calls) (s t : State gosnmp net handle) (handles : List ℕ) (m : Message)
      → is_reloaded m ≡ false
      → Obtained gosnmp net handle calls handles
      → Keeps gosnmp net handle s t
      → Ends gosnmp net handle calls s (give_up gosnmp net handle handles m t)
  unfolding give_up
  give_up-Ends calls s t handles m h obtained k =
      keeps t.closed handles h
        (record {
          engine = k.engine;
          forwarder = k.forwarder;
          logger = k.logger;
          logger_closer = k.logger_closer;
          alerts_writer = k.alerts_writer;
          metrics_cfg = k.metrics_cfg;
        })
        obtained refl

  if-Ends :
      (calls : Calls) (s : State gosnmp net handle) (b : Bool) (r q : Ending gosnmp net handle)
      → Ends gosnmp net handle calls s r
      → Ends gosnmp net handle calls s q
      → Ends gosnmp net handle calls s (if b then r else q)
  if-Ends calls s true r q hr hq = hr
  if-Ends calls s false r q hr hq = hq

  -- The handles of the state that are closed in the end are those of the state before.
  adopt-Ends :
      (calls : Calls) (s t : State gosnmp net handle) (o : Next gosnmp net handle)
      (metrics : Option Endpoint) (old : List ℕ)
      → IsNext gosnmp net handle calls o
      → Keeps gosnmp net handle s t
      → Ends gosnmp net handle calls s (adopt gosnmp net handle o metrics old t)
  unfolding adopt
  adopt-Ends calls s t o metrics old next k =
      reloads o t.closed old next
        (record {
          cfg = refl;
          forwarder = (refl, refl);
          decoder = refl;
          logger = (refl, refl);
          alerts_writer = (refl, refl);
          logger_closer = refl;
          metrics_cfg = refl;
        })
        (cc (k.logger_closer, k.alerts_writer, k.forwarder))

  after_restore-Ends :
      (calls : Calls) (s t : State gosnmp net handle) (o : Next gosnmp net handle)
      (r : Result Endpoint)
      → IsNext gosnmp net handle calls o
      → Keeps gosnmp net handle s t
      → Ends gosnmp net handle calls s (after_restore gosnmp net handle o t r)
  unfolding after_restore
  after_restore-Ends calls s t o (ok m) next k =
      give_up-Ends calls s (record t { metrics = some m }) _ metrics_reload_failed refl
        (IsNext-Obtained calls o next)
        (record {
          engine = k.engine;
          forwarder = k.forwarder;
          logger = k.logger;
          logger_closer = k.logger_closer;
          alerts_writer = k.alerts_writer;
          metrics_cfg = k.metrics_cfg;
        })
  after_restore-Ends calls s t o (err e) next k =
      if-Ends calls s (is_panic e) _ _ crashes
        (give_up-Ends calls s t _ metrics_reload_failed refl (IsNext-Obtained calls o next) k)

  restore-Ends :
      (calls : Calls) (s t : State gosnmp net handle) (o : Next gosnmp net handle)
      → IsNext gosnmp net handle calls o
      → Keeps gosnmp net handle s t
      → Ends gosnmp net handle calls s (restore gosnmp net handle calls o t)
  unfolding restore
  restore-Ends calls s t o next k =
      if-Ends calls s t.metrics_cfg.enabled _ _ (after_restore-Ends calls s t o _ next k)
        (give_up-Ends calls s t _ metrics_reload_failed refl (IsNext-Obtained calls o next) k)

  after_metrics-Ends :
      (calls : Calls) (s t : State gosnmp net handle) (o : Next gosnmp net handle)
      (r : Result Endpoint)
      → IsNext gosnmp net handle calls o
      → Keeps gosnmp net handle s t
      → Ends gosnmp net handle calls s (after_metrics gosnmp net handle calls o t r)
  unfolding after_metrics
  after_metrics-Ends calls s t o (ok m) next k =
      adopt-Ends calls s t o (some m) (listeners t.metrics) next k
  after_metrics-Ends calls s t o (err e) next k =
      if-Ends calls s (is_panic e) _ _ crashes (restore-Ends calls s t o next k)

  swap_metrics-Ends :
      (calls : Calls) (s t : State gosnmp net handle) (o : Next gosnmp net handle)
      → IsNext gosnmp net handle calls o
      → Keeps gosnmp net handle s t
      → Ends gosnmp net handle calls s (swap_metrics gosnmp net handle calls o t)
  unfolding swap_metrics
  swap_metrics-Ends calls s t o next k =
      let without : State gosnmp net handle = record t {
        closed = t.closed ++ listeners t.metrics;
      } in
      let kept : Keeps gosnmp net handle s without = record {
        engine = k.engine;
        forwarder = k.forwarder;
        logger = k.logger;
        logger_closer = k.logger_closer;
        alerts_writer = k.alerts_writer;
        metrics_cfg = k.metrics_cfg;
      } in
      if-Ends calls s (same_metrics o.cfg.metrics t.metrics_cfg) _ _
        (adopt-Ends calls s t o t.metrics [] next k)
        (if-Ends calls s o.cfg.metrics.enabled _ _
          (after_metrics-Ends calls s without o _ next kept)
          (adopt-Ends calls s without o none (listeners t.metrics) next kept))

  after_decoder-Ends :
      (calls : Calls) (s t : State gosnmp net handle) (cfg : AppConfig) (resource : Resource)
      (alerts : Option ℕ) (forwarder : List (Socket net)) (r : Result (Decoder gosnmp))
      → load calls.decoded ≡ ok cfg
      → new_resource cfg.logging calls.log_file ≡ (ok resource, [])
      → new_alerts_writer cfg.logging calls.alerts_file ≡ ok alerts
      → new_udp net cfg.forwarders ≡ (ok forwarder, [])
      → new_decoder gosnmp cfg ≡ r
      → Keeps gosnmp net handle s t
      → Ends gosnmp net handle calls s
          (after_decoder gosnmp net handle calls cfg resource alerts forwarder t r)
  unfolding after_decoder
  after_decoder-Ends calls s t cfg resource alerts forwarder (err e) h1 h2 h3 h4 h5 k =
      give_up-Ends calls s t _ decoder_reload_failed refl (at_connections h1 h2 h3 h4) k
  after_decoder-Ends calls s t cfg resource alerts forwarder (ok d) h1 h2 h3 h4 h5 k =
      swap_metrics-Ends calls s t _
        (record { loaded = h1; logging = h2; alerts = h3; sockets = h4; decoder = h5 }) k

  after_forwarder-Ends :
      (calls : Calls) (s t : State gosnmp net handle) (cfg : AppConfig) (resource : Resource)
      (alerts : Option ℕ) (r : Result (List (Socket net))) (dropped : List ℕ)
      → load calls.decoded ≡ ok cfg
      → new_resource cfg.logging calls.log_file ≡ (ok resource, [])
      → new_alerts_writer cfg.logging calls.alerts_file ≡ ok alerts
      → new_udp net cfg.forwarders ≡ (r, dropped)
      → Keeps gosnmp net handle s t
      → Ends gosnmp net handle calls s
          (after_forwarder gosnmp net handle calls cfg resource alerts t r dropped)
  unfolding after_forwarder
  after_forwarder-Ends calls s t cfg resource alerts (err e) dropped h1 h2 h3 h4 k =
      let all = new_udp_refused net cfg.forwarders e dropped h4 in
      give_up-Ends calls s t _ forwarder_reload_failed refl (rw all (at_sockets h1 h2 h3 h4)) k
  after_forwarder-Ends calls s t cfg resource alerts (ok sockets) dropped h1 h2 h3 h4 k =
      after_decoder-Ends calls s t cfg resource alerts sockets _ h1 h2 h3
        (new_udp_ok net cfg.forwarders sockets dropped h4) refl k

  after_alerts-Ends :
      (calls : Calls) (s t : State gosnmp net handle) (cfg : AppConfig) (resource : Resource)
      (r : Result (Option ℕ))
      → load calls.decoded ≡ ok cfg
      → new_resource cfg.logging calls.log_file ≡ (ok resource, [])
      → new_alerts_writer cfg.logging calls.alerts_file ≡ r
      → Keeps gosnmp net handle s t
      → Ends gosnmp net handle calls s (after_alerts gosnmp net handle calls cfg resource t r)
  unfolding after_alerts
  after_alerts-Ends calls s t cfg resource (err e) h1 h2 h3 k =
      give_up-Ends calls s t _ alerts_log_reload_failed refl (at_alerts h1 h2 h3) k
  after_alerts-Ends calls s t cfg resource (ok alerts) h1 h2 h3 k =
      after_forwarder-Ends calls s t cfg resource alerts _ _ h1 h2 h3 refl k

  after_runtime-Ends :
      (calls : Calls) (s : State gosnmp net handle) (cfg : AppConfig) (resource : Resource)
      (r : Result (Option ℕ))
      → load calls.decoded ≡ ok cfg
      → new_resource cfg.logging calls.log_file ≡ (ok resource, [])
      → apply_runtime_config cfg ≡ r
      → Ends gosnmp net handle calls s (after_runtime gosnmp net handle calls cfg resource s r)
  unfolding after_runtime
  after_runtime-Ends calls s cfg resource (err e) h1 h2 h3 =
      give_up-Ends calls s s _ runtime_reload_failed refl (at_runtime h1 h2 h3) (Keeps-refl s)
  after_runtime-Ends calls s cfg resource (ok limit) h1 h2 h3 =
      after_alerts-Ends calls s (record s { memory_limit = limit_after limit s.memory_limit }) cfg
        resource _ h1 h2 refl
        (record {
          engine = refl;
          forwarder = refl;
          logger = refl;
          logger_closer = refl;
          alerts_writer = refl;
          metrics_cfg = refl;
        })

  after_logging-Ends :
      (calls : Calls) (s : State gosnmp net handle) (cfg : AppConfig) (r : Result Resource)
      (dropped : List ℕ)
      → load calls.decoded ≡ ok cfg
      → new_resource cfg.logging calls.log_file ≡ (r, dropped)
      → Ends gosnmp net handle calls s (after_logging gosnmp net handle calls cfg s r dropped)
  unfolding after_logging
  after_logging-Ends calls s cfg (err e) dropped h1 h2 =
      let all = new_resource_refused cfg.logging calls.log_file e dropped h2 in
      give_up-Ends calls s s dropped logging_reload_failed refl (rw all (at_logging h1 h2))
        (Keeps-refl s)
  after_logging-Ends calls s cfg (ok resource) dropped h1 h2 =
      after_runtime-Ends calls s cfg resource _ h1
        (new_resource_ok cfg.logging calls.log_file resource dropped h2) refl

  after_load-Ends :
      (calls : Calls) (s : State gosnmp net handle) (r : Result AppConfig)
      → load calls.decoded ≡ r
      → Ends gosnmp net handle calls s (after_load gosnmp net handle calls s r)
  unfolding after_load
  after_load-Ends calls s (err e) h =
      give_up-Ends calls s s [] config_reload_failed refl (at_load h) (Keeps-refl s)
  after_load-Ends calls s (ok cfg) h = after_logging-Ends calls s cfg _ _ h refl

  -- A reload ends in one of three ways. It panics; or it logs that it has failed, and then the engine
  -- still has the configuration, forwarder, decoder, logger and alerts file that it had, and so do the
  -- variables of the loop, and what the reload has opened before the call that failed, the listeners of the
  -- metrics aside, has been closed; or it logs
  -- the success, and then all of these are the new ones, made from the configuration that has been loaded,
  -- and the log file, the alerts file and the connections from before are closed.
  pub reload-Ends :
      (calls : Calls) (s : State gosnmp net handle)
      → Ends gosnmp net handle calls s (reload gosnmp net handle calls s)
  unfolding reload
  reload-Ends calls s = after_load-Ends calls s _ refl
