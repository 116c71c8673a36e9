-- ===== src/Perf/Sending.antt =====
-- cmd/snmptrap-relay-perf/main.go, runStep: its four workers, which send at every tick of 10 ms. The
-- times of the ticks and what Write returns for a payload are parameters.
pub mod Rate
pub mod Ended
use snmptrap_relay.Perf.Load.{at_index, StepResult, step_result}
use snmptrap_relay.Prelude.Int.{ℤ, pos, negsuc, ltb_ℤ}
use snmptrap_relay.Prelude.{
  ℕ, zero, suc, ◌+◌, ◌/◌, ◌%◌, ◌^◌, Bool, List, [], ◌∷◌, ◌++◌, ltb, ◌==◌, if◌then◌else◌, length,
}
use snmptrap_relay.Result.{Result, ok, err, ◌>>=◌, panicked}
use snmptrap_relay.Server.{MetricsSnapshot}

-- workers := 4
abbrev pub workers : ℕ
workers = 4

-- perTick; a negative one is 0 here, since the loop has no round for either
unfoldable pub per_tick : ℤ → ℕ
per_tick (pos target_tps) = if target_tps / 100 == 0 then 1 else target_tps / 100
per_tick (negsuc n) = if suc n / 100 == 0 then 1 else 0

-- payloadIndex of a worker, what it has written, and what it has added to sent.
pub record Sender : Type 0 where
  pub payload_index : ℕ
  pub written : List (List ℕ)
  pub sent : ℕ

module _ (write : List ℕ → Bool) (payloads : List (List ℕ)) where
  -- `payloads[payloadIndex%len(payloads)]`; a remainder by zero panics
  unfoldable pub next_payload : ℕ → Result (List ℕ)
  unfolding at_index
  next_payload index =
      if length payloads == 0 then err panicked else at_index (index % length payloads) payloads

  -- The body of the inner loop.
  unfoldable pub send_one : Sender → Result Sender
  unfolding next_payload
  send_one s = do
    payload ← next_payload s.payload_index
    ok (record {
      payload_index = s.payload_index + 1;
      written = s.written ++ (payload ∷ []);
      sent = if write payload then s.sent + 1 else s.sent;
    })

  -- `for j := offset; j < perTick; j += workers`, on fuel for its rounds
  unfoldable pub send_loop : ℕ → ℕ → ℕ → Sender → Result Sender
  unfolding send_one
  send_loop zero j count s = ok s
  send_loop (suc fuel) j count s =
      let rest = send_one s >>= λ next. send_loop fuel (j + workers) count next in
      if ltb j count then rest else ok s

  -- The loop over the ticks that come, up to the first one behind the deadline.
  unfoldable pub tick_loop : ℤ → ℕ → ℕ → List ℤ → Sender → Result Sender
  unfolding send_loop
  tick_loop deadline offset count [] s = ok s
  tick_loop deadline offset count (now ∷ ticks) s =
      let rest =
        send_loop count offset count s >>= λ next. tick_loop deadline offset count ticks next in
      if ltb_ℤ deadline now then ok s else rest

  -- The goroutine of a worker that has its connection.
  unfoldable pub run_sender : ℤ → ℕ → ℕ → List ℤ → Result Sender
  unfolding tick_loop
  run_sender deadline count offset ticks =
      tick_loop deadline offset count ticks
        (record { payload_index = offset; written = []; sent = 0 })

  -- The workers from an offset on, each with the ticks that its ticker gives it, and what they add to
  -- sent together.
  unfoldable pub run_senders : ℤ → ℕ → ℕ → List (List ℤ) → Result ℕ
  unfolding run_sender
  run_senders deadline count offset [] = ok 0
  run_senders deadline count offset (ticks ∷ others) = do
    s ← run_sender deadline count offset ticks
    sent ← run_senders deadline count (offset + 1) others
    ok ((s.sent + sent) % 2 ^ 64)

  -- runStep, with the snapshots before and after it
  unfoldable pub run_step :
      ℤ → ℤ → List (List ℤ) → MetricsSnapshot → MetricsSnapshot → Result StepResult
  unfolding run_senders per_tick
  run_step deadline target_tps ticks before after = do
    sent ← run_senders deadline (per_tick target_tps) 0 ticks
    ok (step_result target_tps sent before after)
