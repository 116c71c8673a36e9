-- ===== src/Server/Open/Stats.antt =====
-- internal/server/server.go, logStats, beside internal/metrics/server.go: the log and the metrics tell the
-- same of the counters.
use snmptrap_relay.Dict
use snmptrap_relay.Metrics.Registry.Scrape.{total, float64_of_exact}
use snmptrap_relay.Metrics.Registry.{counters, gauges, scrape, float64_of}
use snmptrap_relay.Prelude.Int.{ℤ, pos}
use snmptrap_relay.Prelude.{ℕ, ◌<◌, ◌^◌, ◌≡◌, ◌∙◌, ◌⊎◌, inl, inr, refl, ap, some, All, length}
use snmptrap_relay.Server.Open.{log_stats, log_run_stats}
use snmptrap_relay.Server.{Server, metrics_snapshot}
use snmptrap_relay.Text.{Text, lit, same}

-- A number of the log is what the metrics show, as a float64; below 2^53 it is the same number.
pub record IsTotal (s : Server) (name : Text) (n : ℕ) : Type 0 where
  pub nearest : total s name ≡ some (float64_of (pos n))
  pub exact : n < 2 ^ 53 → total s name ≡ some (pos n)

IsTotal-nearest :
    (s : Server) (name : Text) (n : ℕ) → total s name ≡ some (float64_of (pos n)) → IsTotal s name n
IsTotal-nearest s name n shown = record {
  nearest = shown;
  exact = λ small. shown ∙ ap some (float64_of_exact n small);
}

-- An attribute of the log line is the length of the channel, or a number that the metric of its name shows.
abbrev pub IsShown : Server → Text × ℤ → Type 0
IsShown s field =
    ((field.0 ≡ lit "queue_depth") × (field.1 ≡ pos (length s.packets)))
    ⊎ ((n : ℕ) × (field.1 ≡ pos n) × IsTotal s field.0 n)

-- Every attribute of the line server_stats is a number whose float64 a scrape of the same state shows under the
-- name of the attribute between snmptrap_relay_ and _total, which is the number itself if it is below 2^53; or it is
-- queue_depth, with the number of packets on the channel.
pub log_run_stats-IsShown : (s : Server) → All (IsShown s) (log_run_stats s)
unfolding log_run_stats log_stats counters gauges scrape metrics_snapshot lit same Dict.get
log_run_stats-IsShown s =
    let is : (name : Text) (n : ℕ)
        → total s name ≡ some (float64_of (pos n))
        → IsShown s (name, pos n) =
      λ name n shown. inr (n, refl, IsTotal-nearest s name n shown) in
    (
      is (lit "received") _ refl,
      (
        is (lit "queue_dropped") _ refl,
        (
          inl (refl, refl),
          (
            is (lit "parse_failed") _ refl,
            (
              is (lit "handle_failed") _ refl,
              (
                is (lit "accepted") _ refl,
                (
                  is (lit "forwarded") _ refl,
                  (
                    is (lit "filtered") _ refl,
                    (
                      is (lit "duplicates") _ refl,
                      (
                        is (lit "pass_through") _ refl,
                        (
                          is (lit "alarms") _ refl,
                          (
                            is (lit "dedup_disabled") _ refl,
                            (is (lit "forward_failed") _ refl, tt),
                          ),
                        ),
                      ),
                    ),
                  ),
                ),
              ),
            ),
          ),
        ),
      ),
    )
