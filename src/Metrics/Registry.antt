-- ===== src/Metrics/Registry.antt =====
-- internal/metrics/server.go, registerStats: the metrics that the endpoint shows. The registry of
-- prometheus is a parameter: what MustRegister makes of the collectors that it has and a new one.
pub mod Scrape
use snmptrap_relay.Prelude.Int.{ℤ, pos, negsuc, sub_ℕ}
use snmptrap_relay.Prelude.{
  ℕ, zero, suc, ◌+◌, ◌*◌, ◌/◌, ◌%◌, ◌^◌, ltb, ◌==◌, ◌&&◌, ◌||◌, if◌then◌else◌, List, [], ◌∷◌, ◌++◌,
}
use snmptrap_relay.Result.{Result, ok, ◌>>=◌}
use snmptrap_relay.Server.{MetricsSnapshot}
use snmptrap_relay.Text.{Text, lit}

-- prometheus.NewCounterFunc and prometheus.NewGaugeFunc
pub data Kind : Type 0 where
  counter gauge : Kind

-- A collector: its options, and the number that its function converts to a float64.
pub record Collector : Type 0 where
  pub kind : Kind
  pub name : Text
  pub help : Text
  pub getter : MetricsSnapshot → ℤ

-- What registerCounter gives to MustRegister.
abbrev pub counter_of : Text → Text → (MetricsSnapshot → ℕ) → Collector
counter_of name help getter = record {
  kind = counter;
  name = name;
  help = help;
  getter = λ s. pos (getter s);
}

-- What registerGauge gives to MustRegister.
abbrev pub gauge_of : Text → Text → (MetricsSnapshot → ℤ) → Collector
gauge_of name help getter = record { kind = gauge; name = name; help = help; getter = getter }

-- The calls of registerCounter, in their order.
unfoldable pub counters : List Collector
counters =
    counter_of (lit "snmptrap_relay_received_total") (lit "Total UDP traps read by the relay.")
      (λ s. s.stats.received)
    ∷ counter_of (lit "snmptrap_relay_queue_dropped_total")
        (lit "Total traps dropped because the internal queue was full.")
        (λ s. s.stats.queue_dropped)
    ∷ counter_of (lit "snmptrap_relay_parse_failed_total") (lit "Total traps that failed parsing.")
        (λ s. s.stats.parse_failed)
    ∷ counter_of (lit "snmptrap_relay_handle_failed_total")
        (lit "Total traps that failed during handling after parsing.") (λ s. s.stats.handle_failed)
    ∷ counter_of (lit "snmptrap_relay_accepted_total") (lit "Total accepted events.")
        (λ s. s.stats.accepted)
    ∷ counter_of (lit "snmptrap_relay_forwarded_total") (lit "Total forwarded events.")
        (λ s. s.stats.forwarded)
    ∷ counter_of (lit "snmptrap_relay_filtered_total") (lit "Total filtered events.")
        (λ s. s.stats.filtered)
    ∷ counter_of (lit "snmptrap_relay_duplicates_total")
        (lit "Total duplicate events suppressed by deduplication.") (λ s. s.stats.duplicates)
    ∷ counter_of (lit "snmptrap_relay_pass_through_total")
        (lit "Total pass-through events forwarded without matching an alarm.")
        (λ s. s.stats.pass_through)
    ∷ counter_of (lit "snmptrap_relay_alarms_total")
        (lit "Total alarm events forwarded as first-seen alarms.") (λ s. s.stats.alarms)
    ∷ counter_of (lit "snmptrap_relay_dedup_disabled_total")
        (lit "Total events forwarded with dedup disabled due to missing key fields.")
        (λ s. s.stats.dedup_disabled)
    ∷ counter_of (lit "snmptrap_relay_forward_failed_total")
        (lit "Total events whose forwarding failed.") (λ s. s.stats.forward_failed)
    ∷ []

-- The calls of registerGauge.
unfoldable pub gauges : List Collector
gauges =
    gauge_of (lit "snmptrap_relay_queue_depth")
      (lit "Current number of events waiting in the internal queue.") (λ s. s.queue_depth)
    ∷ gauge_of (lit "snmptrap_relay_queue_capacity") (lit "Configured internal queue capacity.")
        (λ s. s.queue_capacity)
    ∷ gauge_of (lit "snmptrap_relay_worker_count")
        (lit "Configured worker count for trap processing.") (λ s. s.worker_count)
    ∷ []

-- One call of MustRegister after the other.
unfoldable pub register_all :
    (List Collector → Collector → Result (List Collector))
    → List Collector
    → List Collector
    → Result (List Collector)
register_all register has [] = ok has
register_all register has (c ∷ cs) = do now_has ← register has c; register_all register now_has cs

-- registerStats
unfoldable pub register_stats :
    (List Collector → Collector → Result (List Collector)) → Result (List Collector)
register_stats register = register_all register [] (counters ++ gauges)

-- By how many bits a number of 64 bits is longer than the 53 of a float64, from k on.
unfoldable pub excess_from : ℕ → ℕ → ℕ → ℕ
excess_from zero k n = k
excess_from (suc fuel) k n = if ltb n (2 ^ (53 + k)) then k else excess_from fuel (k + 1) n

-- The multiple of a power of two that is nearest to a number, the even one of two.
unfoldable pub round_to : ℕ → ℕ → ℕ
round_to unit n =
    let low = 2 * (n % unit) in
    let down = n / unit in
    if ltb low unit || (low == unit && (down % 2 == 0)) then down * unit else (down + 1) * unit

-- float64(n) for an n of 64 bits
unfoldable pub float64_of : ℤ → ℤ
unfolding excess_from round_to
float64_of (pos n) = pos (round_to (2 ^ excess_from 11 0 n) n)
float64_of (negsuc n) = sub_ℕ 0 (round_to (2 ^ excess_from 11 0 (suc n)) (suc n))

-- What a scrape shows of the collectors, by name: each function takes a snapshot of its own, and converts
-- the number to a float64.
unfoldable pub scrape : List Collector → (Collector → MetricsSnapshot) → List (Text × ℤ)
unfolding float64_of
scrape [] snapshot = []
scrape (c ∷ cs) snapshot = (c.name, float64_of (c.getter (snapshot c))) ∷ scrape cs snapshot
