-- ===== src/Metrics/Serving.antt =====
-- internal/metrics/server.go: Addr, Close, the answer on /healthz, and the log lines of a server. The text of
-- a listener's address and what Serve and Close of net/http return are parameters.
use snmptrap_relay.Metrics.{Endpoint, health_path}
use snmptrap_relay.Prelude.{ℕ, List, [], ◌∷◌, Option, none, some}
use snmptrap_relay.Text.{Text, lit}

-- The log lines, with their attributes.
pub data MetricsLine : Type 0 where
  metrics_server_started metrics_server_stopped : Text → Text → Text → MetricsLine
  metrics_server_failed : Text → MetricsLine

-- An error of Serve: http.ErrServerClosed, or another one.
pub data ServeError : Type 0 where
  server_closed : ServeError
  serve_failed : Text → ServeError

pub record Answer : Type 0 where
  pub content_type : Text
  pub status : ℕ
  pub body : Text

-- The handler of /healthz
abbrev pub health_answer : Answer
health_answer = record {
  content_type = lit "text/plain; charset=utf-8";
  status = 200;
  body = lit "ok\n";
}

module _ (address : ℕ → Text) where
  -- Addr, also of a nil server
  unfoldable pub addr : Option Endpoint → Text
  addr none = []
  addr (some m) = address m.listener

  -- The line at the end of New.
  unfoldable pub started_line : Endpoint → MetricsLine
  unfolding addr
  started_line m = metrics_server_started (addr (some m)) m.cfg.path health_path

  -- Close, also of a nil server, with its error and what it logs; a server of New has its logger
  unfoldable pub close_endpoint : Option Text → Option Endpoint → Option Text × List MetricsLine
  unfolding addr
  close_endpoint error none = (none, [])
  close_endpoint (some e) (some m) = (some e, [])
  close_endpoint none (some m) =
      (none, metrics_server_stopped (addr (some m)) m.cfg.path health_path ∷ [])

-- The end of the goroutine that serves, with what it logs.
unfoldable pub serve_lines : Option ServeError → List MetricsLine
serve_lines none = []
serve_lines (some server_closed) = []
serve_lines (some (serve_failed e)) = metrics_server_failed e ∷ []
