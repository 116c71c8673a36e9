-- ===== src/Server/Open.antt =====
-- internal/server/server.go: the making of the server, its address, and the log lines of its counters.
pub mod Stats
use snmptrap_relay.Model.{ServerConfig}
use snmptrap_relay.Prelude.Int.{ℤ, pos, ◌<ℤ◌, ltb_ℤ}
use snmptrap_relay.Prelude.{
  ℕ, Bool, true, false, List, [], ◌∷◌, ◌++◌, Option, none, some, length, if◌then◌else◌,
}
use snmptrap_relay.Result.{Result, ok, ◌>>=◌}
use snmptrap_relay.Server.{Server}
use snmptrap_relay.Text.Number.{int_text}
use snmptrap_relay.Text.{Text, lit, is_empty}

-- What New calls of package net; a connection is a number.
pub record UdpNet : Type 1 where
  pub Address : Type 0
  pub join_host_port : Text → Text → Text
  pub resolve_udp_addr : Text → Text → Result Address
  pub listen_udp : Text → Address → Result ℕ

-- New: the connection of the server
unfoldable pub new_server : (net : UdpNet) → ServerConfig → Result ℕ
unfolding int_text
new_server net cfg = do
  addr ← net.resolve_udp_addr (lit "udp") (net.join_host_port cfg.host (int_text cfg.port))
  net.listen_udp (lit "udp") addr

-- String
unfoldable pub server_text : Server → Text
unfolding int_text
server_text s = s.cfg.host ++ (b':' ∷ int_text s.cfg.port)

-- net.UDPAddr; an IP can be nil
pub record UdpAddr : Type 0 where
  pub ip : Option (List ℕ)
  pub port : ℤ
  pub zone : Text

-- `append(net.IP(nil), addr.IP...)`, which is nil for an IP with no bytes
abbrev pub append_ip : List ℕ → Option (List ℕ)
append_ip [] = none
append_ip (b ∷ bs) = some (b ∷ bs)

abbrev pub clone_ip : Option (List ℕ) → Option (List ℕ)
clone_ip none = none
clone_ip (some bytes) = append_ip bytes

-- cloneUDPAddr
unfoldable pub clone_udp_addr : Option UdpAddr → Option UdpAddr
clone_udp_addr none = none
clone_udp_addr (some addr) = some (record addr { ip = clone_ip addr.ip })

-- The two tickers of Run, by their seconds; the second is nil if its interval is not positive.
unfoldable pub tickers : ServerConfig → ℤ × Option ℤ
tickers cfg = (
  cfg.cleanup_interval_seconds,
  if ltb_ℤ (pos 0) cfg.stats_log_interval_secs then some cfg.stats_log_interval_secs else none,
)

-- statsTick: a receive from no channel is never ready
unfoldable pub stats_tick : Option ℤ → Bool
stats_tick none = false
stats_tick (some interval) = true

-- logStats: the attributes of server_stats, in their order
unfoldable pub log_stats : Server → ℤ → List (Text × ℤ)
log_stats s queue_depth =
    (lit "received", pos s.relay.stats.received)
    ∷ (lit "queue_dropped", pos s.relay.stats.queue_dropped)
    ∷ (lit "queue_depth", queue_depth)
    ∷ (lit "parse_failed", pos s.relay.stats.parse_failed)
    ∷ (lit "handle_failed", pos s.relay.stats.handle_failed)
    ∷ (lit "accepted", pos s.relay.stats.accepted)
    ∷ (lit "forwarded", pos s.relay.stats.forwarded)
    ∷ (lit "filtered", pos s.relay.stats.filtered)
    ∷ (lit "duplicates", pos s.relay.stats.duplicates)
    ∷ (lit "pass_through", pos s.relay.stats.pass_through)
    ∷ (lit "alarms", pos s.relay.stats.alarms)
    ∷ (lit "dedup_disabled", pos s.relay.stats.dedup_disabled)
    ∷ (lit "forward_failed", pos s.relay.stats.forward_failed)
    ∷ []

-- The case of the second ticker in Run: logStats(len(packets)).
unfoldable pub log_run_stats : Server → List (Text × ℤ)
unfolding log_stats
log_run_stats s = log_stats s (pos (length s.packets))
