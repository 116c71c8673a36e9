-- ===== src/Forward.antt =====
-- internal/forward/udp.go: the sending of a datagram to every target. What the sockets do is a
-- parameter: `write` is the error of WriteToUDP, if there is one, and `close` that of Close.
pub mod Targets
pub mod Sockets
use snmptrap_relay.Model.{ForwarderConfig}
use snmptrap_relay.Prelude.{
  ℕ, List, [], ◌∷◌, ◌++◌, Option, none, some, Bool, true, false, if◌then◌else◌,
}
use snmptrap_relay.Text.{Text, lit, join}

pub record Target : Type 0 where
  pub config : ForwarderConfig
  pub write : List ℕ → Option Text
  pub close : Option Text

-- joinErrors, on the texts of the errors
unfoldable pub join_errors : List Text → Option Text
unfolding join
join_errors [] = none
join_errors (e ∷ es) = some (join (lit "; ") (e ∷ es))

-- The loop of Send: the errors, and the names of the targets written to, in order.
unfoldable pub send_loop : List Target → List ℕ → List Text × List Text
send_loop [] payload = ([], [])
send_loop (t ∷ ts) payload =
    let rest = send_loop ts payload in
    elim (t.write payload) [
      | none ↦ (rest.0, t.config.name ∷ rest.1)
      | some e ↦ ((t.config.name ++ (lit ": " ++ e)) ∷ rest.0, t.config.name ∷ rest.1)
    ]

-- (*UDPForwarder).Send
unfoldable pub send : List Target → List ℕ → Option Text × List Text
unfolding send_loop join_errors
send ts payload = let (errs, written) = send_loop ts payload in (join_errors errs, written)

unfoldable pub close_errors : List Target → List Text
close_errors [] = []
close_errors (t ∷ ts) =
    let rest = close_errors ts in elim t.close [ none ↦ rest | some e ↦ e ∷ rest ]

-- (*UDPForwarder).Close, on targets that have a connection
unfoldable pub close_all : List Target → Option Text
unfolding close_errors join_errors
close_all ts = join_errors (close_errors ts)
