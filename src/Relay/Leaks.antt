-- ===== src/Relay/Leaks.antt =====
-- cmd/snmptrap-relay/main.go, the case of SIGHUP: the files and the connections that reloads open, keep in use
-- and close, counted by handle.
pub mod Bounds
pub mod Runs
use snmptrap_relay.Config.{load}
use snmptrap_relay.Forward.Sockets.Dialled.{dialled}
use snmptrap_relay.Forward.Sockets.{Network, Socket, new_udp, conns}
use snmptrap_relay.Logging.{Resource, new_resource, new_alerts_writer, to_list, file_opened}
use snmptrap_relay.Metrics.{Endpoint, new_endpoint}
use snmptrap_relay.Model.{AppConfig}
use snmptrap_relay.Prelude.{
  ℕ, ◌≡◌, ◌≤◌, ◌+◌, ◌*◌, refl, Bool, List, [], ◌∷◌, ◌++◌, ◌==◌, if◌then◌else◌, Option, some, none,
  arith, true, false, if-both,
}
use snmptrap_relay.Receiver.{Gosnmp, Decoder, new_decoder}
use snmptrap_relay.Relay.Ways.{State, Next}
use snmptrap_relay.Relay.{
  Calls, Message, Ending, give_up, adopt, after_restore, restore, after_metrics, swap_metrics,
  after_decoder, after_forwarder, after_alerts, after_runtime, after_logging, after_load, reload,
  is_panic, same_metrics, limit_after, listeners, opened_handles, apply_runtime_config,
  metrics_reload_failed, decoder_reload_failed, forwarder_reload_failed, alerts_log_reload_failed,
  runtime_reload_failed, logging_reload_failed, config_reload_failed,
}
use snmptrap_relay.Result.{Result, ok, err}
use snmptrap_relay.Text.{Text}

-- How often a handle stands in a list.
unfoldable pub count : ℕ → List ℕ → ℕ
count h [] = 0
count h (x ∷ xs) = if x == h then count h xs + 1 else count h xs

pub count-append : (h : ℕ) (xs ys : List ℕ) → count h (xs ++ ys) ≡ count h xs + count h ys
unfolding count
count-append h [] ys = omega arith
count-append h (x ∷ xs) ys = ground (arith, count-append h xs ys)

module _ (gosnmp : Gosnmp) (net : Network) (handle : List Text → Text → Result (List Text)) where
  -- The files and the connections that are in use, and all that has been closed.
  abbrev pub held : ℕ → State gosnmp net handle → ℕ
  held h s =
      count h (to_list s.logger_closer)
      + count h (to_list s.alerts_writer)
      + count h (conns net s.forwarder)
      + count h s.closed

  -- What a reload opens, in order: the log file, the alerts file and the connections, as the system gives them
  -- out, up to the first call that fails. Nothing here asks what the calls return or close.
  abbrev pub alerts_then : AppConfig → Calls → Result (Option ℕ) → List ℕ
  alerts_then cfg calls (err e) = []
  alerts_then cfg calls (ok alerts) =
      file_opened cfg.logging.alerts_file calls.alerts_file ++ dialled net 0 cfg.forwarders

  abbrev pub limit_then : AppConfig → Calls → Result (Option ℕ) → List ℕ
  limit_then cfg calls (err e) = []
  limit_then cfg calls (ok limit) =
      alerts_then cfg calls (new_alerts_writer cfg.logging calls.alerts_file)

  abbrev pub resource_then : AppConfig → Calls → Result Resource → List ℕ
  resource_then cfg calls (err e) = []
  resource_then cfg calls (ok resource) = limit_then cfg calls (apply_runtime_config cfg)

  abbrev pub config_then : Calls → Result AppConfig → List ℕ
  config_then calls (err e) = []
  config_then calls (ok cfg) =
      file_opened cfg.logging.file calls.log_file
      ++ resource_then cfg calls (new_resource cfg.logging calls.log_file).0

  abbrev pub opened_by : Calls → List ℕ
  opened_by calls = config_then calls (load calls.decoded)

  module _ (h n u : ℕ) where
    -- A panic, or a state that holds the handle n times at least and u times at most.
    abbrev pub Within : Ending gosnmp net handle → Type 0
    Within (err e) = Unit
    Within (ok (t, m)) = (n ≤ held h t) × (held h t ≤ u)

    pub give_up-Within :
        (handles : List ℕ) (m : Message) (s : State gosnmp net handle)
        → n ≤ held h s + count h handles
        → held h s + count h handles ≤ u
        → Within (give_up gosnmp net handle handles m s)
    unfolding give_up
    give_up-Within handles m s low high =
        let more = count-append h s.closed handles in (omega (arith, more), omega (arith, more))

    adopt-Within :
        (o : Next gosnmp net handle) (metrics : Option Endpoint) (old : List ℕ)
        (s : State gosnmp net handle)
        → n ≤ held h s + count h (opened_handles gosnmp net handle o)
        → held h s + count h (opened_handles gosnmp net handle o) + count h old ≤ u
        → Within (adopt gosnmp net handle o metrics old s)
    unfolding adopt
    adopt-Within o metrics old s low high =
        let files = to_list o.alerts_writer ++ to_list o.resource.closer in
        let opened = count-append h (conns net o.forwarder) files in
        let opened_files = count-append h (to_list o.alerts_writer) (to_list o.resource.closer) in
        let sockets = conns net s.forwarder ++ old in
        let closed =
          count-append h s.closed
            (to_list s.logger_closer ++ (to_list s.alerts_writer ++ sockets)) in
        let closed_files =
          count-append h (to_list s.logger_closer) (to_list s.alerts_writer ++ sockets) in
        let closed_alerts = count-append h (to_list s.alerts_writer) sockets in
        let closed_sockets = count-append h (conns net s.forwarder) old in
        (
          omega (arith, opened, opened_files, closed, closed_files, closed_alerts, closed_sockets),
          omega (arith, opened, opened_files, closed, closed_files, closed_alerts, closed_sockets),
        )

    module _ (calls : Calls) (o : Next gosnmp net handle) where
      abbrev opened : ℕ
      opened = count h (opened_handles gosnmp net handle o)

      after_restore-Within :
          (s : State gosnmp net handle) (r : Result Endpoint)
          → n ≤ held h s + opened
          → held h s + opened ≤ u
          → Within (after_restore gosnmp net handle o s r)
      unfolding after_restore
      after_restore-Within s (ok m) low high =
          give_up-Within _ metrics_reload_failed (record s { metrics = some m }) low high
      after_restore-Within s (err e) low high =
          if-both Within (is_panic e) tt (give_up-Within _ metrics_reload_failed s low high)

      restore-Within :
          (s : State gosnmp net handle)
          → n ≤ held h s + opened
          → held h s + opened ≤ u
          → Within (restore gosnmp net handle calls o s)
      unfolding restore
      restore-Within s low high =
          if-both Within s.metrics_cfg.enabled (after_restore-Within s _ low high)
            (give_up-Within _ metrics_reload_failed s low high)

      after_metrics-Within :
          (s : State gosnmp net handle) (r : Result Endpoint)
          → n ≤ held h s + opened
          → held h s + opened + count h (listeners s.metrics) ≤ u
          → Within (after_metrics gosnmp net handle calls o s r)
      unfolding after_metrics
      after_metrics-Within s (ok m) low high =
          adopt-Within o (some m) (listeners s.metrics) s low high
      after_metrics-Within s (err e) low high =
          if-both Within (is_panic e) tt (restore-Within s low (omega (arith, high)))

      pub swap_metrics-Within :
          (s : State gosnmp net handle)
          → n ≤ held h s + opened
          → held h s + opened + 2 * count h (listeners s.metrics) ≤ u
          → Within (swap_metrics gosnmp net handle calls o s)
      unfolding swap_metrics count
      swap_metrics-Within s low high =
          let without : State gosnmp net handle = record s {
            closed = s.closed ++ listeners s.metrics;
          } in
          let more = count-append h s.closed (listeners s.metrics) in
          if-both Within (same_metrics o.cfg.metrics s.metrics_cfg)
            (adopt-Within o s.metrics [] s low (omega (arith, high)))
            (if-both Within o.cfg.metrics.enabled
              (after_metrics-Within without _ (omega (arith, low, more))
                (omega (arith, high, more)))
              (adopt-Within o none (listeners s.metrics) without (omega (arith, low, more))
                (omega (arith, high, more))))
