-- ===== src/Relay/Leaks/Runs.antt =====
-- cmd/snmptrap-relay/main.go: the files and the connections of a relay over any number of reloads.
use snmptrap_relay.Forward.Sockets.{Network, conns}
use snmptrap_relay.Logging.{to_list}
use snmptrap_relay.Prelude.{ℕ, ◌≡◌, ◌≤◌, ◌+◌, ap, List, [], ◌∷◌, ◌++◌, arith, inl, inr}
use snmptrap_relay.Receiver.{Gosnmp}
use snmptrap_relay.Relay.Leaks.{count, count-append, held, opened_by}
use snmptrap_relay.Relay.Leaks.Bounds.{reload-Within}
use snmptrap_relay.Relay.Ways.{State}
use snmptrap_relay.Relay.{Calls, reload}
use snmptrap_relay.Result.{Result, Result-cases, ok, err}
use snmptrap_relay.Text.{Text}

module _ (gosnmp : Gosnmp) (net : Network) (handle : List Text → Text → Result (List Text)) where
  -- Reloads one after the other, up to a panic.
  unfoldable pub reload_all :
      List Calls → State gosnmp net handle → Result (State gosnmp net handle)
  reload_all [] s = ok s
  reload_all (calls ∷ more) s = elim (reload gosnmp net handle calls s) [
    | err e ↦ err e
    | ok (next, line) ↦ reload_all more next
  ]

  -- What they open, reload by reload.
  abbrev pub opened_by_all : List Calls → List ℕ
  opened_by_all [] = []
  opened_by_all (calls ∷ more) = opened_by gosnmp net handle calls ++ opened_by_all more

  -- The files and the connections that are in use.
  abbrev pub in_use_by : State gosnmp net handle → List ℕ
  in_use_by s = to_list s.logger_closer ++ (to_list s.alerts_writer ++ conns net s.forwarder)

  abbrev held_of : ℕ → Result (State gosnmp net handle) → ℕ
  held_of h (ok s) = held gosnmp net handle h s
  held_of h (err e) = 0

  count-in_use_by :
      (h : ℕ) (s : State gosnmp net handle)
      → count h (in_use_by s ++ s.closed) ≡ held gosnmp net handle h s
  count-in_use_by h s =
      let sockets = conns net s.forwarder in
      omega (
        arith,
        count-append h (in_use_by s) s.closed,
        count-append h (to_list s.logger_closer) (to_list s.alerts_writer ++ sockets),
        count-append h (to_list s.alerts_writer) sockets,
      )

  held-reload_all :
      (all : List Calls) (s t : State gosnmp net handle) (h : ℕ)
      → reload_all all s ≡ ok t
      → held gosnmp net handle h s + count h (opened_by_all all) ≤ held gosnmp net handle h t
  unfolding reload_all count
  held-reload_all [] s t h done =
      let same : held gosnmp net handle h s ≡ held gosnmp net handle h t =
        ap (λ (r : Result (State gosnmp net handle)). held_of h r) done in
      omega (arith, same)
  held-reload_all (calls ∷ more) s t h done =
      elim (Result-cases (reload gosnmp net handle calls s)) [
        | inl (e, panicking) ↦ absurd (ground (arith, done, panicking))
        | inr ((next, line), went) ↦
            let within = rw went at (reload-Within gosnmp net handle h calls s) in
            let rest = held-reload_all more next t h (rw (went, reload_all) at done) in
            omega (
              arith,
              within,
              rest,
              count-append h (opened_by gosnmp net handle calls) (opened_by_all more),
            )
      ]

  -- No reload leaks a file or a connection. After any number of reloads that do not panic, those that fail
  -- included, every handle stands among what is in use and what has been closed as often, at least, as it did
  -- before them and was opened by them together.
  pub count-reload_all :
      (all : List Calls) (s t : State gosnmp net handle) (h : ℕ)
      → reload_all all s ≡ ok t
      → count h (in_use_by s ++ s.closed) + count h (opened_by_all all)
        ≤ count h (in_use_by t ++ t.closed)
  count-reload_all all s t h done =
      omega (arith, count-in_use_by h s, count-in_use_by h t, held-reload_all all s t h done)
