-- ===== src/Relay/Leaks/Bounds.antt =====
-- cmd/snmptrap-relay/main.go, the case of SIGHUP: how many of its files and connections a reload leaves in use
-- and closed, from its beginning.
use snmptrap_relay.Forward.Sockets.Dialled.{answered, answered-new_udp}
use snmptrap_relay.Forward.Sockets.{Network, Socket, new_udp, conns}
use snmptrap_relay.Logging.{
  Resource, to_list, new_alerts_writer, new_alerts_writer_opened, answered_file,
  answered_file-new_resource,
}
use snmptrap_relay.Model.{AppConfig}
use snmptrap_relay.Prelude.{ℕ, ◌≤◌, ◌+◌, ◌*◌, List, [], ◌++◌, Option, arith, refl, sym, ◌≡◌}
use snmptrap_relay.Receiver.{Gosnmp, Decoder}
use snmptrap_relay.Relay.Ways.{State}
use snmptrap_relay.Relay.{
  Calls, Ending, after_decoder, after_forwarder, after_alerts, after_runtime, after_logging,
  after_load, reload, limit_after, listeners, apply_runtime_config, decoder_reload_failed,
  forwarder_reload_failed, alerts_log_reload_failed, runtime_reload_failed, logging_reload_failed,
  config_reload_failed,
}
use snmptrap_relay.Result.{Result, ok, err}
use snmptrap_relay.Text.{Text}
use snmptrap_relay.Relay.Leaks.{
  count, count-append, held, alerts_then, limit_then, resource_then, config_then, opened_by, Within,
  give_up-Within, swap_metrics-Within,
}

module _ (gosnmp : Gosnmp) (net : Network) (handle : List Text → Text → Result (List Text)) where
  module _ (h n u : ℕ) where
    -- From a state and so many openings of the handle: the bounds that a reload keeps, where the endpoint of
    -- the metrics is closed twice at most.
    abbrev Bounded : State gosnmp net handle → ℕ → Ending gosnmp net handle → Type 0
    Bounded s c r =
        n ≤ held gosnmp net handle h s + c
        → held gosnmp net handle h s + c + 2 * count h (listeners s.metrics) ≤ u
        → Within gosnmp net handle h n u r

    after_decoder-Bounded :
        (calls : Calls) (cfg : AppConfig) (resource : Resource) (alerts : Option ℕ)
        (forwarder : List (Socket net)) (s : State gosnmp net handle) (r : Result (Decoder gosnmp))
        → Bounded s
            (count h (conns net forwarder ++ (to_list alerts ++ to_list resource.closer)))
            (after_decoder gosnmp net handle calls cfg resource alerts forwarder s r)
    unfolding after_decoder
    after_decoder-Bounded calls cfg resource alerts forwarder s (err e) low high =
        give_up-Within gosnmp net handle h n u _ decoder_reload_failed s low (omega (arith, high))
    after_decoder-Bounded calls cfg resource alerts forwarder s (ok decoder) low high =
        swap_metrics-Within gosnmp net handle h n u calls
          (record {
            cfg = cfg;
            resource = resource;
            alerts_writer = alerts;
            forwarder = forwarder;
            decoder = decoder;
          })
          s low high

    after_forwarder-Bounded :
        (calls : Calls) (cfg : AppConfig) (resource : Resource) (alerts : Option ℕ)
        (s : State gosnmp net handle) (r : Result (List (Socket net))) (dropped : List ℕ)
        → Bounded s
            (count h (to_list alerts ++ answered net (r, dropped))
              + count h (to_list resource.closer))
            (after_forwarder gosnmp net handle calls cfg resource alerts s r dropped)
    unfolding after_forwarder
    after_forwarder-Bounded calls cfg resource alerts s (err e) dropped low high =
        let here = count-append h (to_list alerts) dropped in
        let there = count-append h dropped (to_list alerts ++ to_list resource.closer) in
        let files = count-append h (to_list alerts) (to_list resource.closer) in
        give_up-Within gosnmp net handle h n u _ forwarder_reload_failed s
          (omega (arith, low, here, there, files)) (omega (arith, high, here, there, files))
    after_forwarder-Bounded calls cfg resource alerts s (ok forwarder) dropped low high =
        let here = count-append h (to_list alerts) (conns net forwarder) in
        let there =
          count-append h (conns net forwarder) (to_list alerts ++ to_list resource.closer) in
        let files = count-append h (to_list alerts) (to_list resource.closer) in
        after_decoder-Bounded calls cfg resource alerts forwarder s _
          (omega (arith, low, here, there, files)) (omega (arith, high, here, there, files))

    after_alerts-Bounded :
        (calls : Calls) (cfg : AppConfig) (resource : Resource) (s : State gosnmp net handle)
        (r : Result (Option ℕ))
        → new_alerts_writer cfg.logging calls.alerts_file ≡ r
        → Bounded s
            (count h (to_list resource.closer ++ alerts_then gosnmp net handle cfg calls r))
            (after_alerts gosnmp net handle calls cfg resource s r)
    unfolding after_alerts count
    after_alerts-Bounded calls cfg resource s (err e) is low high =
        let files = count-append h (to_list resource.closer) [] in
        give_up-Within gosnmp net handle h n u _ alerts_log_reload_failed s
          (omega (arith, low, files)) (omega (arith, high, files))
    after_alerts-Bounded calls cfg resource s (ok alerts) is low high =
        let sockets = answered-new_udp net cfg.forwarders in
        let file = new_alerts_writer_opened cfg.logging calls.alerts_file alerts is in
        let files =
          count-append h (to_list resource.closer)
            (to_list alerts ++ answered net (new_udp net cfg.forwarders)) in
        after_forwarder-Bounded calls cfg resource alerts s _ _
          (omega (arith, rw (sym sockets, sym file) at low, files))
          (omega (arith, rw (sym sockets, sym file) at high, files))

    after_runtime-Bounded :
        (calls : Calls) (cfg : AppConfig) (resource : Resource) (s : State gosnmp net handle)
        (r : Result (Option ℕ))
        → Bounded s
            (count h (to_list resource.closer ++ limit_then gosnmp net handle cfg calls r))
            (after_runtime gosnmp net handle calls cfg resource s r)
    unfolding after_runtime count
    after_runtime-Bounded calls cfg resource s (err e) low high =
        let files = count-append h (to_list resource.closer) [] in
        give_up-Within gosnmp net handle h n u _ runtime_reload_failed s (omega (arith, low, files))
          (omega (arith, high, files))
    after_runtime-Bounded calls cfg resource s (ok limit) low high =
        after_alerts-Bounded calls cfg resource
          (record s { memory_limit = limit_after limit s.memory_limit }) _ refl low high

    after_logging-Bounded :
        (calls : Calls) (cfg : AppConfig) (s : State gosnmp net handle) (r : Result Resource)
        (dropped : List ℕ)
        → Bounded s
            (count h (answered_file (r, dropped) ++ resource_then gosnmp net handle cfg calls r))
            (after_logging gosnmp net handle calls cfg s r dropped)
    unfolding after_logging count
    after_logging-Bounded calls cfg s (err e) dropped low high =
        let all = count-append h dropped [] in
        give_up-Within gosnmp net handle h n u _ logging_reload_failed s (omega (arith, low, all))
          (omega (arith, high, all))
    after_logging-Bounded calls cfg s (ok resource) dropped low high =
        after_runtime-Bounded calls cfg resource s (apply_runtime_config cfg) low high

    after_load-Bounded :
        (calls : Calls) (s : State gosnmp net handle) (r : Result AppConfig)
        → Bounded s
            (count h (config_then gosnmp net handle calls r))
            (after_load gosnmp net handle calls s r)
    unfolding after_load count
    after_load-Bounded calls s (err e) low high =
        give_up-Within gosnmp net handle h n u _ config_reload_failed s low (omega (arith, high))
    after_load-Bounded calls s (ok cfg) low high =
        let file = sym (answered_file-new_resource cfg.logging calls.log_file) in
        after_logging-Bounded calls cfg s _ _ (rw file at low) (rw file at high)

  -- Behind a reload that does not panic a handle stands among what is in use and closed as often as before it
  -- and as the reload has opened it, and at most twice more if it is the listener of the metrics.
  pub reload-Within :
      (h : ℕ) (calls : Calls) (s : State gosnmp net handle)
      → Within gosnmp net handle h
          (held gosnmp net handle h s + count h (opened_by gosnmp net handle calls))
          (held gosnmp net handle h s
            + count h (opened_by gosnmp net handle calls)
            + 2 * count h (listeners s.metrics))
          (reload gosnmp net handle calls s)
  unfolding reload
  reload-Within h calls s = after_load-Bounded h _ _ calls s _ (omega arith) (omega arith)
