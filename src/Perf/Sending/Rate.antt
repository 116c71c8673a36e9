-- ===== src/Perf/Sending/Rate.antt =====
-- cmd/snmptrap-relay-perf/main.go, runStep: how many datagrams its workers send.
use snmptrap_relay.Perf.Load.Pools.{at_index_ok}
use snmptrap_relay.Perf.Load.{step_result}
use snmptrap_relay.Perf.Sending.{
  per_tick, Sender, next_payload, send_one, send_loop, tick_loop, run_sender, run_senders, run_step,
}
use snmptrap_relay.Prelude.Int.{ℤ, pos, ltb_ℤ}
use snmptrap_relay.Prelude.{
  ℕ, zero, suc, ◌≡◌, ◌+◌, ◌-◌, ◌*◌, ◌/◌, ◌%◌, ◌^◌, ◌<◌, ◌≤◌, refl, ap, Bool, true, false, List, [],
  ◌∷◌, ◌++◌, ltb, if◌then◌else◌, All, length, arith, Bool-cases, inl, inr,
}
use snmptrap_relay.Result.{ok}
use snmptrap_relay.Server.{MetricsSnapshot}

-- The rounds of the inner loop from j on.
abbrev pub rounds : ℕ → ℕ → ℕ
rounds count j = (count + 3 - j) / 4

-- The four workers share the rounds of a tick.
all_rounds :
    (n count : ℕ)
    → n * rounds count 0 + n * rounds count 1 + n * rounds count 2 + n * rounds count 3 ≡ n * count
all_rounds n count =
    let one : rounds count 0 + rounds count 1 + rounds count 2 + rounds count 3 ≡ count =
      omega arith in
    omega (arith, ap (λ (t : ℕ). n * t) one)

-- Ticks of which so many come before the deadline, and then one behind it.
abbrev pub IsClocked : ℤ → ℕ → List ℤ → Type 0
IsClocked deadline n ticks =
    (early : List ℤ) × (late : ℤ) × (more : List ℤ) × (ticks ≡ early ++ late ∷ more)
    × (length early ≡ n)
    × All (λ now. ltb_ℤ deadline now ≡ false) early
    × (ltb_ℤ deadline late ≡ true)

module _ (write : List ℕ → Bool) (payloads : List (List ℕ))
    (some_payload : 0 < length payloads) where
  pub next_payload_ok : (i : ℕ) → (x : List ℕ) × (next_payload write payloads i ≡ ok x)
  unfolding next_payload
  next_payload_ok i =
      let (x, found) = at_index_ok (i % length payloads) payloads (grind arith) in
      (x, ground (arith, found))

module _ (write : List ℕ → Bool) (payloads : List (List ℕ))
    (all_written : (payload : List ℕ) → write payload ≡ true)
    (some_payload : 0 < length payloads) where
  send_one_sent :
      (s : Sender) → (t : Sender) × (send_one write payloads s ≡ ok t) × (t.sent ≡ s.sent + 1)
  unfolding send_one
  send_one_sent s =
      let (x, found) = next_payload_ok write payloads some_payload s.payload_index in
      (
        record {
          payload_index = s.payload_index + 1;
          written = s.written ++ (x ∷ []);
          sent = if write x then s.sent + 1 else s.sent;
        },
        rw (found, send_one) refl,
        rw (all_written x) refl,
      )

  send_loop_sent :
      (fuel j count : ℕ) (s : Sender)
      → count ≤ j + fuel
      → (t : Sender) × (send_loop write payloads fuel j count s ≡ ok t)
        × (t.sent ≡ s.sent + rounds count j)
  unfolding send_loop
  send_loop_sent zero j count s h = (s, refl, omega arith)
  send_loop_sent (suc fuel) j count s h = elim (Bool-cases (ltb j count)) [
    | inl more ↦
        let (t, sent, one) = send_one_sent s in
        let (u, done, rest) = send_loop_sent fuel (j + 4) count t (omega arith) in
        (u, rw more (rw sent done), ground (arith, one, rest))
    | inr over ↦ (s, rw over refl, ground arith)
  ]

  tick_loop_sent :
      (deadline : ℤ) (offset count : ℕ) (early : List ℤ) (late : ℤ) (more : List ℤ) (s : Sender)
      → All (λ now. ltb_ℤ deadline now ≡ false) early
      → ltb_ℤ deadline late ≡ true
      → (t : Sender) × (tick_loop write payloads deadline offset count (early ++ late ∷ more) s
          ≡ ok t)
        × (t.sent ≡ s.sent + length early * rounds count offset)
  unfolding tick_loop
  tick_loop_sent deadline offset count [] late more s h over = (s, rw over refl, omega arith)
  tick_loop_sent deadline offset count (now ∷ early) late more s h over =
      let (t, sent, one) = send_loop_sent count offset count s (omega arith) in
      let (u, done, rest) = tick_loop_sent deadline offset count early late more t h.1 over in
      (u, rw h.0 (rw sent done), grind (arith, one, rest))

  run_sender_sent :
      (deadline : ℤ) (count offset n : ℕ) (ticks : List ℤ)
      → IsClocked deadline n ticks
      → (t : Sender) × (run_sender write payloads deadline count offset ticks ≡ ok t)
        × (t.sent ≡ n * rounds count offset)
  unfolding run_sender
  run_sender_sent deadline count offset n ticks (early, late, more, is, long, before, over) =
      let (t, done, sent) =
        tick_loop_sent deadline offset count early late more
          (record { payload_index = offset; written = []; sent = 0 }) before over in
      (t, rw is done, rw (← long) (omega (arith, sent)))

  run_senders_sent :
      (deadline : ℤ) (count n : ℕ) (a b c d : List ℤ)
      → IsClocked deadline n a
      → IsClocked deadline n b
      → IsClocked deadline n c
      → IsClocked deadline n d
      → run_senders write payloads deadline count 0 (a ∷ b ∷ c ∷ d ∷ []) ≡ ok ((n * count) % 2 ^ 64)
  unfolding run_senders
  run_senders_sent deadline count n a b c d ha hb hc hd =
      let (s, ran_s, sent_s) = run_sender_sent deadline count 0 n a ha in
      let (t, ran_t, sent_t) = run_sender_sent deadline count 1 n b hb in
      let (u, ran_u, sent_u) = run_sender_sent deadline count 2 n c hc in
      let (v, ran_v, sent_v) = run_sender_sent deadline count 3 n d hd in
      rw (ran_s, run_senders)
        (rw ran_t (
          rw ran_u
            (rw ran_v (ap ok (omega (arith, sent_s, sent_t, sent_u, sent_v, all_rounds n count))))))

  -- If every write succeeds, there is a payload, and each of the four workers has as many ticks before
  -- the deadline, then behind them runStep has sent at every tick a hundredth of the target rate,
  -- rounded down, but one datagram at least; it reports this number, modulo 2^64.
  pub run_step_sent :
      (deadline : ℤ) (target_tps n : ℕ) (a b c d : List ℤ) (before after : MetricsSnapshot)
      → IsClocked deadline n a
      → IsClocked deadline n b
      → IsClocked deadline n c
      → IsClocked deadline n d
      → run_step write payloads deadline (pos target_tps) (a ∷ b ∷ c ∷ d ∷ []) before after
        ≡ ok (
            step_result
              (pos target_tps)
              ((n * (if ltb target_tps 100 then 1 else target_tps / 100)) % 2 ^ 64)
              before
              after)
  unfolding run_step per_tick
  run_step_sent deadline target_tps n a b c d before after ha hb hc hd =
      let count : per_tick (pos target_tps) ≡ (if ltb target_tps 100 then 1 else target_tps / 100) =
        ground arith in
      rw (run_senders_sent deadline (per_tick (pos target_tps)) n a b c d ha hb hc hd, run_step)
        (rw count refl)
