-- ===== src/Perf/Load/Pools.antt =====
-- cmd/snmptrap-relay-perf/main.go: the payloads that a profile sends, and when a step is free of loss.
use native.Mathlib.Nat.{mod-lt}
use snmptrap_relay.Perf.Load.{
  disabled_payloads, build_trap_payload, device_name, alarm_trap_oid, pattern_of, at_index, cycle,
  build_payload_pool, sub_u64, stats_between, step_result,
}
use snmptrap_relay.Prelude.Int.{ℤ, pos, negsuc}
use snmptrap_relay.Prelude.{
  ℕ, zero, suc, ◌≡◌, ◌↔◌, refl, ap, true, false, List, [], ◌∷◌, length, ◌+◌, ◌%◌, ◌^◌, ◌≤◌, ◌<◌,
  arith, Bool-cases, inl, inr, ◌==◌,
}
use snmptrap_relay.Result.{ok, Result-cases}
use snmptrap_relay.Server.{MetricsSnapshot}
use snmptrap_relay.Text.{Text, same, lit}

disabled_payloads_length :
    (n i : ℕ) (out : List (List ℕ)) → disabled_payloads n i ≡ ok out → length out ≡ n
unfolding disabled_payloads
disabled_payloads_length zero i out h = ground arith
disabled_payloads_length (suc n) i out h =
    elim (Result-cases
      (build_trap_payload alarm_trap_oid (device_name 4 i) (pos (i + 1)) (pos (12345 + i)))) [
        | inl (e, wrong) ↦ absurd (ground arith)
        | inr (payload, right) ↦ elim (Result-cases (disabled_payloads n (i + 1))) [
          | inl (e, wrong) ↦ absurd (ground arith)
          | inr (others, there) ↦ ground (arith, disabled_payloads_length n (i + 1) others there)
        ]
      ]

cycle_length :
    (pattern : List (List ℕ)) (n done : ℕ) (out : List (List ℕ))
    → cycle pattern n done ≡ ok out
    → length out ≡ n
unfolding cycle
cycle_length pattern zero done out h = ground arith
cycle_length pattern (suc n) done out h = elim (Bool-cases (length pattern == 0)) [
  | inl none_there ↦ absurd (ground arith)
  | inr some_there ↦ elim (Result-cases (at_index (done % length pattern) pattern)) [
    | inl (e, wrong) ↦ absurd (ground arith)
    | inr (payload, right) ↦ elim (Result-cases (cycle pattern n (done + 1))) [
      | inl (e, wrong) ↦ absurd (ground arith)
      | inr (others, there) ↦ ground (arith, cycle_length pattern n (done + 1) others there)
    ]
  ]
]

pub at_index_ok {ℓ} :
    {A : Type ℓ} (i : ℕ) (xs : List A) → i < length xs → (x : A) × (at_index i xs ≡ ok x)
unfolding at_index
at_index_ok i [] h = absurd (omega arith)
at_index_ok zero (x ∷ xs) h = (x, refl)
at_index_ok (suc i) (x ∷ xs) h = at_index_ok i xs (omega arith)

-- The second loop of buildDedupClearPayloadPool never panics on a pattern that is not empty: every
-- index that it takes by the remainder is in range, and it makes as many payloads as it is asked for.
pub cycle_ok :
    (pattern : List (List ℕ)) (n done : ℕ)
    → 0 < length pattern
    → (out : List (List ℕ)) × (cycle pattern n done ≡ ok out) × (length out ≡ n)
unfolding cycle
cycle_ok pattern zero done h = ([], refl, refl)
cycle_ok pattern (suc n) done h =
    let (others, there, size) = cycle_ok pattern n (done + 1) h in
    let small : done % length pattern < length pattern = mod-lt done h in
    let (payload, right) = at_index_ok (done % length pattern) pattern small in
    let some_there : (length pattern == 0) ≡ false = ground arith in
    (payload ∷ others, rw (some_there, right, there) refl, ap suc size)

-- Every pool that buildPayloadPool returns has as many payloads as it is asked for, in either profile.
pub build_payload_pool_length :
    (profile : Text) (size : ℕ) (pair_count : ℤ) (out : List (List ℕ))
    → build_payload_pool profile size pair_count ≡ ok out
    → length out ≡ size
unfolding build_payload_pool
build_payload_pool_length profile size (negsuc n) out h = absurd (ground arith)
build_payload_pool_length profile size (pos zero) out h = absurd (ground arith)
build_payload_pool_length profile size (pos (suc pairs)) out h =
    elim (Bool-cases (same profile (lit "dedup-disabled"))) [
      | inl disabled ↦ disabled_payloads_length size 0 out (ground arith)
      | inr other ↦ elim (Bool-cases (same profile (lit "dedup-clear"))) [
        | inr unknown ↦ absurd (ground arith)
        | inl clearing ↦ elim (Result-cases (pattern_of (suc pairs) 0)) [
          | inl (e, wrong) ↦ absurd (ground arith)
          | inr (pattern, right) ↦ cycle_length pattern size 0 out (ground arith)
        ]
      ]
    ]

-- A step is free of loss by the result of runStep exactly when, between its two snapshots, no packet
-- was dropped from the queue and as many were received as were sent, if no counter is smaller behind.
pub step_result_loss_free :
    (target_tps : ℤ) (sent : ℕ) (before after : MetricsSnapshot)
    → before.stats.queue_dropped ≤ after.stats.queue_dropped
    → after.stats.queue_dropped < 2 ^ 64
    → before.stats.received ≤ after.stats.received
    → after.stats.received < 2 ^ 64
    → ((step_result target_tps sent before after).loss_free ≡ true) ↔ (
        (after.stats.queue_dropped ≡ before.stats.queue_dropped)
        × (before.stats.received + sent ≤ after.stats.received))
unfolding step_result stats_between sub_u64
step_result_loss_free target_tps sent before after h1 h2 h3 h4 = ground arith
