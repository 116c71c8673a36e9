-- ===== src/Perf/Load/Made.antt =====
-- cmd/snmptrap-relay-perf/main.go, buildPayloadPool: it makes a pool for each of its two profiles.
use snmptrap_relay.Perf.Load.Events.{
  IsPlainOid, alarm-IsPlainOid, clear-IsPlainOid, build_trap_payload-parse_trap,
}
use snmptrap_relay.Perf.Load.Pools.{cycle_ok}
use snmptrap_relay.Perf.Load.{
  zeros, device_name, disabled_payloads, build_trap_payload, alarm_trap_oid, clear_trap_oid,
  pair_payloads, pattern_of, build_payload_pool,
}
use snmptrap_relay.Prelude.Int.{pos}
use snmptrap_relay.Prelude.{
  ℕ, zero, suc, ◌≡◌, ◌⊎◌, refl, ap, List, [], ◌∷◌, ◌++◌, ◌+◌, ◌-◌, ◌*◌, length, length-append,
  arith, true, inl, inr, Bool-cases,
}
use snmptrap_relay.Result.{ok}
use snmptrap_relay.Snmp.{Library}
use snmptrap_relay.Text.Number.{nat_text}
use snmptrap_relay.Text.Utf8.Ascii.{IsAscii, All-append, IsAscii-valid, nat_text-IsAscii}
use snmptrap_relay.Text.Utf8.{valid}
use snmptrap_relay.Text.{Text, lit, same}

zeros-IsAscii : (n : ℕ) → IsAscii (zeros n)
unfolding zeros
zeros-IsAscii zero = tt
zeros-IsAscii (suc n) = (omega arith, zeros-IsAscii n)

device-IsAscii : IsAscii (lit "device-")
unfolding lit
device-IsAscii = (
  omega arith,
  (omega arith, (omega arith, (omega arith, (omega arith, (omega arith, (omega arith, tt)))))),
)

pub device_name-valid : (width i : ℕ) → valid (device_name width i) ≡ true
unfolding device_name
device_name-valid width i =
    let name : IsAscii (zeros (width - length (nat_text i)) ++ nat_text i) =
      All-append _ (zeros (width - length (nat_text i))) (nat_text i) (zeros-IsAscii _)
        (nat_text-IsAscii i) in
    IsAscii-valid _ (All-append _ (lit "device-") _ device-IsAscii name)

-- Any reading of addresses and numbers, since the making of a payload calls neither.
abbrev no_library : Library
no_library = record { ip_text = λ bytes. []; low_int64 = λ z. z }

build_trap_payload_ok :
    (trap_oid : Text) (width i index uptime : ℕ)
    → IsPlainOid trap_oid
    → (payload : List ℕ) × (build_trap_payload trap_oid
          (device_name width i)
          (pos index)
          (pos uptime)
        ≡ ok payload)
build_trap_payload_ok trap_oid width i index uptime plain =
    let (payload, made, _) =
      build_trap_payload-parse_trap no_library (pos 0) [] (pos 0) [] trap_oid (device_name width i)
        index uptime plain (device_name-valid width i) in
    (payload, made)

disabled_payloads_ok :
    (n i : ℕ) → (out : List (List ℕ)) × (disabled_payloads n i ≡ ok out) × (length out ≡ n)
unfolding disabled_payloads
disabled_payloads_ok zero i = ([], refl, refl)
disabled_payloads_ok (suc n) i =
    let (payload, made) =
      build_trap_payload_ok alarm_trap_oid 4 i (i + 1) (12345 + i) alarm-IsPlainOid in
    let (others, there, long) = disabled_payloads_ok n (i + 1) in
    (payload ∷ others, rw made (rw there refl), ap suc long)

pair_payloads_ok : (i : ℕ) → (out : List (List ℕ)) × (pair_payloads i ≡ ok out) × (length out ≡ 4)
unfolding pair_payloads
pair_payloads_ok i =
    let base = 100000 + i * 10 in
    let (a, made_a) = build_trap_payload_ok alarm_trap_oid 2 i (i + 1) base alarm-IsPlainOid in
    let (b, made_b) =
      build_trap_payload_ok alarm_trap_oid 2 i (i + 1) (base + 1) alarm-IsPlainOid in
    let (c, made_c) =
      build_trap_payload_ok clear_trap_oid 2 i (i + 1) (base + 2) clear-IsPlainOid in
    let (d, made_d) =
      build_trap_payload_ok alarm_trap_oid 2 i (i + 1) (base + 3) alarm-IsPlainOid in
    (a ∷ b ∷ c ∷ d ∷ [], rw made_a (rw made_b (rw made_c (rw made_d refl))), refl)

-- The four traps of a pair, one by one.
pub pair_payloads_parts :
    (i : ℕ) (a b c d : List ℕ)
    → pair_payloads i ≡ ok (a ∷ b ∷ c ∷ d ∷ [])
    → let device = device_name 2 i in
      let base = 100000 + i * 10 in
      (build_trap_payload alarm_trap_oid device (pos (i + 1)) (pos base) ≡ ok a)
      × (build_trap_payload alarm_trap_oid device (pos (i + 1)) (pos (base + 1)) ≡ ok b)
      × (build_trap_payload clear_trap_oid device (pos (i + 1)) (pos (base + 2)) ≡ ok c)
      × (build_trap_payload alarm_trap_oid device (pos (i + 1)) (pos (base + 3)) ≡ ok d)
unfolding pair_payloads
pair_payloads_parts i a b c d made =
    let base = 100000 + i * 10 in
    let (a', made_a) = build_trap_payload_ok alarm_trap_oid 2 i (i + 1) base alarm-IsPlainOid in
    let (b', made_b) =
      build_trap_payload_ok alarm_trap_oid 2 i (i + 1) (base + 1) alarm-IsPlainOid in
    let (c', made_c) =
      build_trap_payload_ok clear_trap_oid 2 i (i + 1) (base + 2) clear-IsPlainOid in
    let (d', made_d) =
      build_trap_payload_ok alarm_trap_oid 2 i (i + 1) (base + 3) alarm-IsPlainOid in
    let all : pair_payloads i ≡ ok (a' ∷ b' ∷ c' ∷ d' ∷ []) =
      rw made_a (rw made_b (rw made_c (rw made_d refl))) in
    (cc, cc, cc, cc)

pattern_of_ok : (n i : ℕ) → (out : List (List ℕ)) × (pattern_of n i ≡ ok out) × (length out ≡ n * 4)
unfolding pattern_of
pattern_of_ok zero i = ([], refl, refl)
pattern_of_ok (suc n) i =
    let (pair, made, four) = pair_payloads_ok i in
    let (others, there, long) = pattern_of_ok n (i + 1) in
    (pair ++ others, rw made (rw there refl), ground (arith, length-append pair others, four, long))

-- For either profile, any size and any positive number of pairs, buildPayloadPool returns a pool with as
-- many payloads as it is asked for.
pub build_payload_pool_ok :
    (profile : Text) (size pairs : ℕ)
    → (same profile (lit "dedup-disabled") ≡ true) ⊎ (same profile (lit "dedup-clear") ≡ true)
    → (out : List (List ℕ)) × (build_payload_pool profile size (pos (suc pairs)) ≡ ok out)
      × (length out ≡ size)
unfolding build_payload_pool
build_payload_pool_ok profile size pairs known =
    let (disabled, made, long) = disabled_payloads_ok size 0 in
    let (pattern, built, filled) = pattern_of_ok (suc pairs) 0 in
    let (cycled, there, as_long) = cycle_ok pattern size 0 (omega (arith, filled)) in
    elim (Bool-cases (same profile (lit "dedup-disabled"))) [
      | inl first ↦ (disabled, rw first made, long)
      | inr other ↦
          let clearing : same profile (lit "dedup-clear") ≡ true = ground (arith, known, other) in
          (cycled, rw other (rw clearing (rw built there)), as_long)
    ]
