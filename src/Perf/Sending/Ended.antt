-- ===== src/Perf/Sending/Ended.antt =====
-- cmd/snmptrap-relay-perf/main.go, runStep: with a pool that is not empty it comes to its end.
use snmptrap_relay.Perf.Load.{StepResult, step_result}
use snmptrap_relay.Perf.Sending.Rate.{next_payload_ok}
use snmptrap_relay.Perf.Sending.{
  per_tick, Sender, send_one, send_loop, tick_loop, run_sender, run_senders, run_step,
}
use snmptrap_relay.Prelude.Int.{ℤ, ltb_ℤ}
use snmptrap_relay.Prelude.{
  ℕ, zero, suc, ◌≡◌, ◌+◌, ◌%◌, ◌^◌, ◌<◌, refl, Bool, List, [], ◌∷◌, ◌++◌, ltb, if◌then◌else◌,
  length, Bool-cases, inl, inr,
}
use snmptrap_relay.Result.{Result, ok}
use snmptrap_relay.Server.{MetricsSnapshot}

-- A result that is no error.
abbrev pub IsOk {ℓ} : {A : Type ℓ} → Result A → Type ℓ
IsOk {A = A} r = (x : A) × (r ≡ ok x)

module _ (write : List ℕ → Bool) (payloads : List (List ℕ))
    (some_payload : 0 < length payloads) where
  send_one-IsOk : (s : Sender) → IsOk (send_one write payloads s)
  unfolding send_one
  send_one-IsOk s =
      let (x, found) = next_payload_ok write payloads some_payload s.payload_index in
      (
        record {
          payload_index = s.payload_index + 1;
          written = s.written ++ (x ∷ []);
          sent = if write x then s.sent + 1 else s.sent;
        },
        rw (found, send_one) refl,
      )

  send_loop-IsOk : (fuel j count : ℕ) (s : Sender) → IsOk (send_loop write payloads fuel j count s)
  unfolding send_loop
  send_loop-IsOk zero j count s = (s, refl)
  send_loop-IsOk (suc fuel) j count s = elim (Bool-cases (ltb j count)) [
    | inl more ↦
        let (t, sent) = send_one-IsOk s in
        let (u, done) = send_loop-IsOk fuel (j + 4) count t in (u, rw more (rw sent done))
    | inr over ↦ (s, rw over refl)
  ]

  tick_loop-IsOk :
      (deadline : ℤ) (offset count : ℕ) (ticks : List ℤ) (s : Sender)
      → IsOk (tick_loop write payloads deadline offset count ticks s)
  unfolding tick_loop
  tick_loop-IsOk deadline offset count [] s = (s, refl)
  tick_loop-IsOk deadline offset count (now ∷ ticks) s = elim (Bool-cases (ltb_ℤ deadline now)) [
    | inl over ↦ (s, rw over refl)
    | inr early ↦
        let (t, sent) = send_loop-IsOk count offset count s in
        let (u, done) = tick_loop-IsOk deadline offset count ticks t in (u, rw early (rw sent done))
  ]

  run_senders-IsOk :
      (deadline : ℤ) (count offset : ℕ) (ticks : List (List ℤ))
      → IsOk (run_senders write payloads deadline count offset ticks)
  unfolding run_senders run_sender
  run_senders-IsOk deadline count offset [] = (0, refl)
  run_senders-IsOk deadline count offset (ticks ∷ others) =
      let start : Sender = record { payload_index = offset; written = []; sent = 0 } in
      let (s, ran) = tick_loop-IsOk deadline offset count ticks start in
      let (sent, rest) = run_senders-IsOk deadline count (offset + 1) others in
      ((s.sent + sent) % 2 ^ 64, rw (ran, run_senders, run_sender) (rw rest refl))

  -- With a pool that is not empty runStep never panics, for any target rate, any ticks, and whichever writes
  -- succeed: it returns a result, which names the target rate that it was given.
  pub run_step_ok :
      (deadline target_tps : ℤ) (ticks : List (List ℤ)) (before after : MetricsSnapshot)
      → (r : StepResult) × (run_step write payloads deadline target_tps ticks before after ≡ ok r)
        × (r.target_tps ≡ target_tps)
  unfolding run_step step_result
  run_step_ok deadline target_tps ticks before after =
      let (sent, ran) = run_senders-IsOk deadline (per_tick target_tps) 0 ticks in
      (step_result target_tps sent before after, rw (ran, run_step) refl, refl)
