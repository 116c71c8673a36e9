-- ===== src/Perf/Load.antt =====
-- cmd/snmptrap-relay-perf/main.go: the rates, the profiles with their payloads, and the result of a
-- step. What fmt.Sscanf reads as a number and what sort.Ints does are parameters.
pub mod Pools
pub mod Events
pub mod Made
use snmptrap_relay.Model.Value.{str, field, end}
use snmptrap_relay.Model.{DedupConfig, DedupClearConfig, MatchSpec}
use snmptrap_relay.Perf.Encode.{Bind, tlv, encode_integer_bytes, enc_oid, build_v2_trap, split}
use snmptrap_relay.Prelude.Int.{ℤ, pos, ltb_ℤ}
use snmptrap_relay.Prelude.{
  ℕ, zero, suc, Bool, true, false, not, ◌&&◌, List, [], ◌∷◌, ◌++◌, Option, none, some, ◌+◌, ◌-◌,
  ◌*◌, ◌%◌, ◌^◌, ltb, leb, ◌==◌, if◌then◌else◌, length,
}
use snmptrap_relay.Result.{
  Result, ok, err, ◌>>=◌, panicked, pair_count_not_positive, unsupported_profile, invalid_rate,
}
use snmptrap_relay.Server.{MetricsSnapshot, Stats}
use snmptrap_relay.Text.Number.{nat_text}
use snmptrap_relay.Text.Space.{trim_space}
use snmptrap_relay.Text.{Text, lit, same}

abbrev pub alarm_trap_oid : Text
alarm_trap_oid = lit "1.3.6.1.4.1.9999.0.10"

abbrev pub clear_trap_oid : Text
clear_trap_oid = lit "1.3.6.1.4.1.9999.0.11"

abbrev pub device_id_oid : Text
device_id_oid = lit "1.3.6.1.4.1.9999.1.1"

abbrev pub if_index_oid : Text
if_index_oid = lit "1.3.6.1.4.1.9999.1.2"

module _ (scan : Text → Option ℤ) (sort : List ℤ → List ℤ) where
  -- The loop of parseRates.
  unfoldable pub rates_of : List Text → Result (List ℤ)
  unfolding trim_space
  rates_of [] = ok []
  rates_of (part ∷ parts) = elim (scan (trim_space part)) [
    | none ↦ err (invalid_rate part)
    | some value ↦
        if ltb_ℤ (pos 0) value
        then (do rates ← rates_of parts; ok (value ∷ rates))
        else err (invalid_rate part)
  ]

  -- parseRates
  unfoldable pub parse_rates : Text → Result (List ℤ)
  unfolding split
  parse_rates input = do rates ← rates_of (split b',' input); ok (sort rates)

-- dedupConfigForProfile
unfoldable pub dedup_config_for_profile : Text → DedupConfig
unfolding same
dedup_config_for_profile profile =
    if same profile (lit "dedup-clear")
    then record {
      ttl_seconds = pos 300;
      key_fields = lit "fields.ifIndex" ∷ lit "fields.device_id" ∷ [];
      hold_until_clear = true;
      clear = some (record {
        match = record { raw = field (lit "trap_oid") (str clear_trap_oid) end };
        key_fields = lit "fields.ifIndex" ∷ lit "fields.device_id" ∷ [];
        varbind_oid = [];
        regex = [];
      });
    }
    else record {
      ttl_seconds = pos 300;
      key_fields = lit "fields.synthetic_unique_id" ∷ [];
      hold_until_clear = false;
      clear = none;
    }

-- buildTrapPayload; it panics where the encoder does
unfoldable pub build_trap_payload : Text → Text → ℤ → ℤ → Result (List ℕ)
unfolding encode_integer_bytes enc_oid tlv build_v2_trap
build_trap_payload trap_oid device_id if_index uptime = do
  uptime_bytes ← encode_integer_bytes uptime
  oid ← enc_oid trap_oid
  index_bytes ← encode_integer_bytes if_index
  build_v2_trap (lit "public") (
      record { oid = lit "1.3.6.1.2.1.1.3.0"; value = tlv 0x43 uptime_bytes }
      ∷ record { oid = lit "1.3.6.1.6.3.1.1.4.1.0"; value = oid }
      ∷ record { oid = device_id_oid; value = tlv 0x04 device_id }
      ∷ record { oid = if_index_oid; value = tlv 0x02 index_bytes }
      ∷ [])

-- Zeros in front, as %0wd of a number of n digits has them.
unfoldable pub zeros : ℕ → List ℕ
zeros zero = []
zeros (suc n) = b'0' ∷ zeros n

-- fmt.Sprintf("device-%0wd", i)
unfoldable pub device_name : ℕ → ℕ → Text
unfolding zeros nat_text
device_name width i = lit "device-" ++ (zeros (width - length (nat_text i)) ++ nat_text i)

-- The loop of buildDedupDisabledPayloadPool, for so many indices from i on.
unfoldable pub disabled_payloads : ℕ → ℕ → Result (List (List ℕ))
unfolding build_trap_payload device_name
disabled_payloads zero i = ok []
disabled_payloads (suc n) i = do
  payload ← build_trap_payload alarm_trap_oid (device_name 4 i) (pos (i + 1)) (pos (12345 + i))
  payloads ← disabled_payloads n (i + 1)
  ok (payload ∷ payloads)

-- One round of the first loop of buildDedupClearPayloadPool.
unfoldable pub pair_payloads : ℕ → Result (List (List ℕ))
unfolding build_trap_payload device_name
pair_payloads i = do
  let device = device_name 2 i
  let index = pos (i + 1)
  let base = 100000 + i * 10
  alarm ← build_trap_payload alarm_trap_oid device index (pos base)
  repeat ← build_trap_payload alarm_trap_oid device index (pos (base + 1))
  clearing ← build_trap_payload clear_trap_oid device index (pos (base + 2))
  again ← build_trap_payload alarm_trap_oid device index (pos (base + 3))
  ok (alarm ∷ repeat ∷ clearing ∷ again ∷ [])

unfoldable pub pattern_of : ℕ → ℕ → Result (List (List ℕ))
unfolding pair_payloads
pattern_of zero i = ok []
pattern_of (suc n) i = do
  pair ← pair_payloads i
  pattern ← pattern_of n (i + 1)
  ok (pair ++ pattern)

-- pattern[i], which panics out of range
unfoldable pub at_index {ℓ} : {A : Type ℓ} → ℕ → List A → Result A
at_index i [] = err panicked
at_index zero (x ∷ xs) = ok x
at_index (suc i) (x ∷ xs) = at_index i xs

-- The second loop, while it has so many payloads to go and has `done` of them; a remainder by zero
-- panics.
unfoldable pub cycle : List (List ℕ) → ℕ → ℕ → Result (List (List ℕ))
unfolding at_index
cycle pattern zero done = ok []
cycle pattern (suc n) done =
    let others = cycle pattern n (done + 1) in
    if length pattern == 0 then err panicked else (do
      payload ← at_index (done % length pattern) pattern
      payloads ← others
      ok (payload ∷ payloads))

-- buildPayloadPool, for a size and a number of pairs that is an int
unfoldable pub build_payload_pool : Text → ℕ → ℤ → Result (List (List ℕ))
unfolding disabled_payloads pattern_of cycle same
build_payload_pool profile size (pos (suc pairs)) =
    if same profile (lit "dedup-disabled")
    then disabled_payloads size 0
    else if same profile (lit "dedup-clear")
    then (do pattern ← pattern_of (suc pairs) 0; cycle pattern size 0)
    else err (unsupported_profile profile)
build_payload_pool profile size pair_count = err pair_count_not_positive

-- a - b on uint64
unfoldable pub sub_u64 : ℕ → ℕ → ℕ
sub_u64 a b = (a + (2 ^ 64 - b % 2 ^ 64)) % 2 ^ 64

-- The differences that runStep takes between two snapshots.
unfoldable pub stats_between : Stats → Stats → Stats
unfolding sub_u64
stats_between before after = record {
  received = sub_u64 after.received before.received;
  queue_dropped = sub_u64 after.queue_dropped before.queue_dropped;
  parse_failed = sub_u64 after.parse_failed before.parse_failed;
  handle_failed = sub_u64 after.handle_failed before.handle_failed;
  accepted = sub_u64 after.accepted before.accepted;
  forwarded = sub_u64 after.forwarded before.forwarded;
  filtered = sub_u64 after.filtered before.filtered;
  duplicates = sub_u64 after.duplicates before.duplicates;
  pass_through = sub_u64 after.pass_through before.pass_through;
  alarms = sub_u64 after.alarms before.alarms;
  dedup_disabled = sub_u64 after.dedup_disabled before.dedup_disabled;
  forward_failed = sub_u64 after.forward_failed before.forward_failed;
}

-- result, without the time that the step took
pub record StepResult : Type 0 where
  pub target_tps : ℤ
  pub sent : ℕ
  pub received : ℕ
  pub forwarded : ℕ
  pub queue_dropped : ℕ
  pub parse_failed : ℕ
  pub handle_failed : ℕ
  pub accepted : ℕ
  pub loss_free : Bool
  pub metrics : MetricsSnapshot

-- The result of runStep from the snapshots before and after it and the number of datagrams sent.
unfoldable pub step_result : ℤ → ℕ → MetricsSnapshot → MetricsSnapshot → StepResult
unfolding stats_between
step_result target_tps sent before after =
    let between = stats_between before.stats after.stats in
    record {
      target_tps = target_tps;
      sent = sent;
      received = between.received;
      forwarded = between.forwarded;
      queue_dropped = between.queue_dropped;
      parse_failed = between.parse_failed;
      handle_failed = between.handle_failed;
      accepted = between.accepted;
      loss_free = between.queue_dropped == 0 && leb sent between.received;
      metrics = record {
        stats = between;
        queue_depth = after.queue_depth;
        queue_capacity = after.queue_capacity;
        worker_count = after.worker_count;
      };
    }
