-- ===== src/Relay/Endpoints.antt =====
-- cmd/snmptrap-relay/main.go: endpoints of the metrics that are lost.
use snmptrap_relay.Forward.Sockets.{Network}
use snmptrap_relay.Metrics.{Endpoint, new_endpoint}
use snmptrap_relay.Prelude.{
  Bool, true, false, ◌≡◌, refl, ap, ◌∙◌, List, [], ◌∷◌, ◌++◌, Option, none, some, if◌then◌else◌,
}
use snmptrap_relay.Receiver.{Gosnmp}
use snmptrap_relay.Relay.{
  Calls, Relay, Opened, metrics_reload_failed, config_reloaded, same_metrics, is_panic, give_up,
  adopt, after_restore, restore, after_metrics, swap_metrics, opened_handles, listeners,
}
use snmptrap_relay.Result.{Result, Error, ok, err, panicked}
use snmptrap_relay.Text.{Text}

module _ (gosnmp : Gosnmp) (net : Network) (handle : List Text → Text → Result (List Text)) where
  after_metrics_refused :
      (calls : Calls) (o : Opened gosnmp net handle) (s : Relay gosnmp net handle) (e : Error)
      → is_panic e ≡ false
      → after_metrics gosnmp net handle calls o s (err e) ≡ restore gosnmp net handle calls o s
  unfolding after_metrics
  after_metrics_refused calls o s e h =
      ap (λ (b : Bool). if b then err panicked else restore gosnmp net handle calls o s) h

  -- The old endpoint is refused as well.
  restore_refused :
      (calls : Calls) (o : Opened gosnmp net handle) (s : Relay gosnmp net handle) (f : Error)
      → s.metrics_cfg.enabled ≡ true
      → new_endpoint handle s.metrics_cfg calls.restored_listener ≡ err f
      → is_panic f ≡ false
      → restore gosnmp net handle calls o s
        ≡ give_up gosnmp net handle (opened_handles gosnmp net handle o) metrics_reload_failed s
  unfolding restore after_restore
  restore_refused calls o s f on lost no_panic =
      let ended =
        give_up gosnmp net handle (opened_handles gosnmp net handle o) metrics_reload_failed s in
      let tried =
        after_restore gosnmp net handle o s
          (new_endpoint handle s.metrics_cfg calls.restored_listener) in
      ap (λ (b : Bool). if b then tried else ended) on
      ∙ ap (after_restore gosnmp net handle o s) lost
      ∙ ap (λ (b : Bool). if b then err panicked else ended) no_panic

  -- With the old configuration of the metrics, the endpoint stays.
  swap_metrics_same :
      (calls : Calls) (o : Opened gosnmp net handle) (s : Relay gosnmp net handle)
      → same_metrics o.cfg.metrics s.metrics_cfg ≡ true
      → swap_metrics gosnmp net handle calls o s ≡ adopt gosnmp net handle o s.metrics [] s
  unfolding swap_metrics
  swap_metrics_same calls o s h =
      let without : Relay gosnmp net handle = record s {
        closed = s.closed ++ listeners s.metrics;
      } in
      let kept = adopt gosnmp net handle o s.metrics [] s in
      let off = adopt gosnmp net handle o none (listeners s.metrics) without in
      let tried =
        after_metrics gosnmp net handle calls o without
          (new_endpoint handle o.cfg.metrics calls.metrics_listener) in
      ap (λ (b : Bool). if b then kept else if o.cfg.metrics.enabled then tried else off) h

  adopt_metrics :
      (o : Opened gosnmp net handle) (s : Relay gosnmp net handle) (m : Option Endpoint)
      → (u : Relay gosnmp net handle) × (adopt gosnmp net handle o m [] s ≡ ok (u, config_reloaded))
        × (u.metrics ≡ m)
  unfolding adopt
  adopt_metrics o s m = (_, refl, refl)

  -- The new endpoint is refused.
  swap_metrics_refused :
      (calls : Calls) (o : Opened gosnmp net handle) (s : Relay gosnmp net handle) (e : Error)
      → same_metrics o.cfg.metrics s.metrics_cfg ≡ false
      → o.cfg.metrics.enabled ≡ true
      → new_endpoint handle o.cfg.metrics calls.metrics_listener ≡ err e
      → is_panic e ≡ false
      → swap_metrics gosnmp net handle calls o s
        ≡ restore gosnmp net handle calls o (record s { closed = s.closed ++ listeners s.metrics })
  unfolding swap_metrics
  swap_metrics_refused calls o s e changed on refused no_panic =
      let without : Relay gosnmp net handle = record s {
        closed = s.closed ++ listeners s.metrics;
      } in
      let kept = adopt gosnmp net handle o s.metrics [] s in
      let off = adopt gosnmp net handle o none (listeners s.metrics) without in
      let tried =
        after_metrics gosnmp net handle calls o without
          (new_endpoint handle o.cfg.metrics calls.metrics_listener) in
      ap (λ (b : Bool). if b then kept else if o.cfg.metrics.enabled then tried else off) changed
      ∙ ap (λ (b : Bool). if b then tried else off) on
      ∙ ap (after_metrics gosnmp net handle calls o without) refused
      ∙ after_metrics_refused calls o without e no_panic

  -- When a reload changes the metrics, and metrics.New refuses both the new endpoint and the old one
  -- again, the reload fails with the closed endpoint still in its variable; and a reload that then comes
  -- as far as the metrics with the old configuration of the metrics succeeds and keeps that endpoint.
  pub swap_metrics_lost :
      (calls : Calls) (o : Opened gosnmp net handle) (s : Relay gosnmp net handle) (m : Endpoint)
      (e f : Error)
      → s.metrics ≡ some m
      → same_metrics o.cfg.metrics s.metrics_cfg ≡ false
      → o.cfg.metrics.enabled ≡ true
      → s.metrics_cfg.enabled ≡ true
      → new_endpoint handle o.cfg.metrics calls.metrics_listener ≡ err e
      → new_endpoint handle s.metrics_cfg calls.restored_listener ≡ err f
      → is_panic e ≡ false
      → is_panic f ≡ false
      → (t : Relay gosnmp net handle) × (swap_metrics gosnmp net handle calls o s
          ≡ ok (t, metrics_reload_failed))
        × (t.metrics ≡ some m)
        × (t.closed ≡ (s.closed ++ (m.listener ∷ [])) ++ opened_handles gosnmp net handle o)
        × ((again : Calls) (back : Opened gosnmp net handle)
            → same_metrics back.cfg.metrics t.metrics_cfg ≡ true
            → (u : Relay gosnmp net handle) × (swap_metrics gosnmp net handle again back t
                ≡ ok (u, config_reloaded))
              × (u.metrics ≡ some m))
  unfolding give_up
  swap_metrics_lost calls o s m e f old changed on was_on refused lost no_panic no_panic2 =
      let handles = opened_handles gosnmp net handle o in
      let without : Relay gosnmp net handle = record s {
        closed = s.closed ++ listeners s.metrics;
      } in
      (
        record without { closed = without.closed ++ handles },
        swap_metrics_refused calls o s e changed on refused no_panic
            ∙ restore_refused calls o without f was_on lost no_panic2,
        old,
        ap (λ (x : Option Endpoint). (s.closed ++ listeners x) ++ handles) old,
        λ again back same.
            let t : Relay gosnmp net handle = record without {
              closed = without.closed ++ handles;
            } in
            let (u, ends, there) = adopt_metrics back t t.metrics in
            (u, swap_metrics_same again back t same ∙ ends, there ∙ old),
      )
