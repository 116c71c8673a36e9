-- ===== src/Perf/Run/Finished.antt =====
-- cmd/snmptrap-relay-perf/main.go, main: when it comes to its results.
use snmptrap_relay.Text.{Text}
