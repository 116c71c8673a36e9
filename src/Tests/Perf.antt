-- ===== src/Tests/Perf.antt =====
-- The load generator at work.
use snmptrap_relay.Ber.{decode_signed}
use snmptrap_relay.Perf.Encode.{encode_integer_bytes}
use snmptrap_relay.Perf.Integers.{decode_signed-encode_integer_bytes}
use snmptrap_relay.Perf.Load.Events.{trap_varbinds, alarm-IsPlainOid, build_trap_payload-parse_trap}
use snmptrap_relay.Perf.Load.{build_trap_payload, alarm_trap_oid, step_result}
use snmptrap_relay.Perf.Sending.Rate.{IsClocked, run_step_sent}
use snmptrap_relay.Perf.Sending.{run_step}
use snmptrap_relay.Perf.Traps.Whole.{v2_event}
use snmptrap_relay.Prelude.Int.{ℤ, pos, negsuc}
use snmptrap_relay.Prelude.{
  ℕ, ◌≡◌, refl, List, [], ◌∷◌, ◌*◌, ◌/◌, ◌%◌, ◌<◌, ◌^◌, true, arith, length, ltb, if◌then◌else◌,
}
use snmptrap_relay.Result.{ok, err, panicked}
use snmptrap_relay.Server.{MetricsSnapshot, zero_stats}
use snmptrap_relay.Snmp.{parse_trap, build_fields, new_event}
use snmptrap_relay.Tests.Receiver.{library}
use snmptrap_relay.Text.Utf8.{valid, valid_from, rune_width}
use snmptrap_relay.Text.{Text, lit}

-- The loop of encodeIntegerBytes leaves no byte of -1, and the first byte of none is read.
minus_one : encode_integer_bytes (negsuc 0) ≡ err panicked
unfolding encode_integer_bytes
minus_one = refl

decode_signed-encode_integer_bytes_example :
    (bytes : List ℕ) × (encode_integer_bytes (negsuc 299) ≡ ok bytes)
    × (decode_signed bytes ≡ negsuc 299)
decode_signed-encode_integer_bytes_example =
    decode_signed-encode_integer_bytes (negsuc 299) (λ same. ground (arith, same))

abbrev aliases : List (Text × Text)
aliases = (lit "1.3.6.1.4.1.9999.1.1", lit "device_id") ∷ []

build_trap_payload-parse_trap_example :
    (payload : List ℕ) × (build_trap_payload alarm_trap_oid (lit "device-01") (pos 2) (pos 100010)
      ≡ ok payload)
    × (length payload < 2 ^ 32
        → parse_trap library (pos 0) payload (lit "127.0.0.1") (pos 50000) aliases
          ≡ ok (
              build_fields
                (v2_event library
                  (new_event
                    (pos 0)
                    payload
                    (lit "127.0.0.1")
                    (pos 50000)
                    (pos 1)
                    (lit "public")
                    0xa7)
                  (trap_varbinds alarm_trap_oid (lit "device-01") 2 100010))
                aliases))
unfolding valid lit valid_from rune_width
build_trap_payload-parse_trap_example =
    build_trap_payload-parse_trap library (pos 0) (lit "127.0.0.1") (pos 50000) aliases
      alarm_trap_oid (lit "device-01") 2 100010 alarm-IsPlainOid refl

abbrev payloads : List (List ℕ)
payloads = (0x30 ∷ []) ∷ (0x31 ∷ []) ∷ []

-- Two ticks before the deadline, and one behind it.
abbrev ticks : List ℤ
ticks = pos 10 ∷ pos 20 ∷ pos 30 ∷ []

ticks-IsClocked : IsClocked (pos 25) 2 ticks
ticks-IsClocked = (pos 10 ∷ pos 20 ∷ [], pos 30, [], refl, refl, (refl, (refl, tt)), refl)

abbrev quiet : MetricsSnapshot
quiet = record {
  stats = zero_stats;
  queue_depth = pos 0;
  queue_capacity = pos 1;
  worker_count = pos 1;
}

-- A target of 250 datagrams in a second.
run_step_sent_example :
    run_step
      (λ _. true)
      payloads
      (pos 25)
      (pos 250)
      (ticks ∷ ticks ∷ ticks ∷ ticks ∷ [])
      quiet
      quiet
    ≡ ok (step_result (pos 250) ((2 * (if ltb 250 100 then 1 else 250 / 100)) % 2 ^ 64) quiet quiet)
run_step_sent_example =
    run_step_sent (λ _. true) payloads (λ _. refl) (omega arith) (pos 25) 250 2 ticks ticks ticks
      ticks quiet quiet ticks-IsClocked ticks-IsClocked ticks-IsClocked ticks-IsClocked
