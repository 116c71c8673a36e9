-- ===== src/Metrics/Registry/Scrape.antt =====
-- internal/metrics/server.go, registerStats: that nothing is registered twice, and what a scrape shows of
-- the server's counters.
use mathlib.Core.List.{append_assoc, append-nil}
use snmptrap_relay.Dict
use snmptrap_relay.Metrics.Registry.{
  Collector, counters, gauges, register_all, register_stats, scrape, float64_of, excess_from,
  round_to,
}
use snmptrap_relay.Prelude.Int.{ℤ, pos}
use snmptrap_relay.Prelude.{
  ℕ, ◌<◌, ◌^◌, ◌≡◌, refl, ap, ◌∙◌, Bool, true, false, not, ◌&&◌, ◌||◌, List, [], ◌∷◌, ◌++◌, Option,
  arith,
}
use snmptrap_relay.Result.{Result, ok}
use snmptrap_relay.Server.{Server, metrics_snapshot}
use snmptrap_relay.Text.{Text, lit, same, text_eq}

-- A collector of this name is there.
abbrev pub has_name : Text → List Collector → Bool
has_name name [] = false
has_name name (c ∷ cs) = same c.name name || has_name name cs

abbrev all_new : List Collector → List Collector → Bool
all_new has [] = true
all_new has (c ∷ cs) = not (has_name c.name has) && all_new (has ++ c ∷ []) cs

-- A registry that takes each collector whose name it does not have.
abbrev pub TakesNew : (List Collector → Collector → Result (List Collector)) → Type 0
TakesNew register =
    (has : List Collector) (c : Collector)
    → has_name c.name has ≡ false
    → register has c ≡ ok (has ++ c ∷ [])

register_all-all_new :
    (register : List Collector → Collector → Result (List Collector))
    → TakesNew register
    → (has cs : List Collector) → all_new has cs ≡ true
    → register_all register has cs ≡ ok (has ++ cs)
unfolding register_all
register_all-all_new register takes has [] h = rw append-nil
register_all-all_new register takes has (c ∷ cs) h = rw (takes has c (ground arith)) (
    register_all-all_new register takes (has ++ c ∷ []) cs (ground arith)
    ∙ ap ok (append_assoc has (c ∷ []) cs))

-- On a registry that takes each collector whose name it does not have, registerStats never panics,
-- and registers the twelve counters and the three gauges, in their order.
pub register_stats_lem :
    (register : List Collector → Collector → Result (List Collector))
    → TakesNew register
    → register_stats register ≡ ok (counters ++ gauges)
unfolding register_stats counters gauges lit same
register_stats_lem register takes = register_all-all_new register takes [] (counters ++ gauges) refl

-- A number below 2^53 is a float64.
pub float64_of_exact : (n : ℕ) → n < 2 ^ 53 → float64_of (pos n) ≡ pos n
unfolding float64_of excess_from round_to
float64_of_exact n h = ground arith

-- The number that a scrape of a server in one state shows under a name.
abbrev pub shown : Server → Text → Option ℤ
shown s name = Dict.get name (scrape (counters ++ gauges) (λ _. metrics_snapshot s))

-- The names of the counters behind their common beginning.
abbrev pub total : Server → Text → Option ℤ
total s name = shown s (lit "snmptrap_relay_" ++ (name ++ lit "_total"))
