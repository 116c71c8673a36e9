-- ===== src/Forward/Targets.antt =====
-- internal/forward/udp.go, Send: which targets are written to, and when there is an error.
use snmptrap_relay.Forward.{Target, join_errors, send_loop, send}
use snmptrap_relay.Prelude.{
  ℕ, ◌≡◌, ◌↔◌, refl, List, [], ◌∷◌, none, All, arith, Option-cases, inl, inr, map,
}
use snmptrap_relay.Text.{Text}

-- The datagram is written to this target with no error.
abbrev pub IsWritten : List ℕ → Target → Type 0
IsWritten payload t = t.write payload ≡ none

send_loop_written :
    (ts : List Target) (payload : List ℕ)
    → (send_loop ts payload).1 ≡ map (λ (t : Target). t.config.name) ts
unfolding send_loop
send_loop_written [] payload = refl
send_loop_written (t ∷ ts) payload = elim (Option-cases (t.write payload)) [
  | inl went ↦ rw (went, send_loop) (rw (send_loop_written ts payload) refl)
  | inr (e, failed) ↦ rw (failed, send_loop) (rw (send_loop_written ts payload) refl)
]

send_loop-IsWritten :
    (ts : List Target) (payload : List ℕ)
    → ((send_loop ts payload).0 ≡ []) ↔ All (IsWritten payload) ts
unfolding send_loop
send_loop-IsWritten [] payload = ground arith
send_loop-IsWritten (t ∷ ts) payload = ground (arith, send_loop-IsWritten ts payload)

join_errors-eq-none : (es : List Text) → (join_errors es ≡ none) ↔ (es ≡ [])
unfolding join_errors
join_errors-eq-none [] = ground arith
join_errors-eq-none (e ∷ es) = ground arith

-- Send writes the datagram to every target, in their order, also behind one that fails; and it returns
-- no error exactly when every write succeeds.
pub send_lem :
    (ts : List Target) (payload : List ℕ)
    → ((send ts payload).1 ≡ map (λ (t : Target). t.config.name) ts)
      × (((send ts payload).0 ≡ none) ↔ All (IsWritten payload) ts)
unfolding send
send_lem ts payload = (
  send_loop_written ts payload,
  ground (arith, join_errors-eq-none (send_loop ts payload).0, send_loop-IsWritten ts payload),
)
