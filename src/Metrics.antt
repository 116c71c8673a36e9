-- ===== src/Metrics.antt =====
-- internal/metrics/server.go: the metrics endpoint. What net.Listen and the multiplexer of net/http
-- do is a parameter. The goroutine that serves is in Metrics/Serving, by what it logs.
pub mod Registry
pub mod Serving
use snmptrap_relay.Model.{MetricsConfig}
use snmptrap_relay.Prelude.{ℕ, List, [], ◌++◌}
use snmptrap_relay.Result.{Result, ok, ◌>>=◌}
use snmptrap_relay.Text.Number.{int_text}
use snmptrap_relay.Text.{Text, lit}

-- healthPath
abbrev pub health_path : Text
health_path = lit "/healthz"

-- Server: its configuration, its listener, and the patterns that its multiplexer has
pub record Endpoint : Type 0 where
  pub cfg : MetricsConfig
  pub listener : ℕ
  pub routes : List Text

-- New; `handle` is (*http.ServeMux).Handle on the patterns so far, and `listen` what net.Listen returns
unfoldable pub new_endpoint :
    (List Text → Text → Result (List Text)) → MetricsConfig → Result ℕ → Result Endpoint
new_endpoint handle cfg listen = do
  listener ← listen
  metrics_route ← handle [] cfg.path
  routes ← handle metrics_route health_path
  ok (record { cfg = cfg; listener = listener; routes = routes })

-- DescribeConfig
unfoldable pub describe_config : MetricsConfig → Text
unfolding int_text
describe_config cfg = cfg.host ++ (lit ":" ++ (int_text cfg.port ++ cfg.path))
