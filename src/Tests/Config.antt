-- ===== src/Tests/Config.antt =====
-- The validation of a configuration at work.
use snmptrap_relay.Config.MemoryLimit.{parse_memory_limit, parse_memory_limit_bounds}
use snmptrap_relay.Config.Validated.{IsValidated, validate-IsValidated}
use snmptrap_relay.Config.{validate}
use snmptrap_relay.Dict
use snmptrap_relay.Dedup.{new_store}
use snmptrap_relay.Engine.Errors.{IsBlamed, handle_event-IsBlamed}
use snmptrap_relay.Engine.State.{Runtime, Scene}
use snmptrap_relay.Engine.{alone, handle_event}
use snmptrap_relay.Match.{is_no_entry}
use snmptrap_relay.Model.{AppConfig}
use snmptrap_relay.Prelude.{ℕ, ◌≡◌, ◌⊎◌, refl, true, [], ◌∷◌, ◌≤◌, ◌<◌, ◌^◌, some, none}
use snmptrap_relay.Prelude.Int.{pos}
use snmptrap_relay.Result.{ok}
use snmptrap_relay.Tests.{
  config, alarm_rule, keep_rule, clear_on, platform, runtime, scene, trap, link_down, at,
}
use snmptrap_relay.Text.Space.{trim_space}
use snmptrap_relay.Text.{lit, same, has_prefix, to_lower, to_upper, is_empty}

-- Everything that validate computes with.
program : Unit {0}
unfolding validate parse_memory_limit lit same has_prefix to_lower to_upper trim_space is_no_entry
    Dict.get
program = tt

two_mib : parse_memory_limit (lit " 2 MiB") ≡ ok 2097152
unfolding program
two_mib = refl

parse_memory_limit_bounds_example :
    ((is_empty (trim_space (lit " 2 MiB")) ≡ true) × (◌≡◌ {A = ℕ} 2097152 0))
    ⊎ ((1 ≤ 2097152) × (2097152 < 2 ^ 63))
parse_memory_limit_bounds_example = parse_memory_limit_bounds (lit " 2 MiB") 2097152 two_mib

abbrev checked : AppConfig
checked = config (keep_rule ∷ []) (alarm_rule (lit "a") (some (clear_on [])) ∷ [])

checked_valid : validate checked ≡ ok checked
unfolding program
checked_valid = refl

validate-IsValidated_example : IsValidated checked
validate-IsValidated_example = validate-IsValidated checked checked checked_valid

-- An engine with this configuration.
abbrev rt : Runtime
rt = record (runtime none []) { cfg = checked }

abbrev first : Scene
first = scene (new_store (pos 2)) (trap link_down (at 10))

handle_event-IsBlamed_example : IsBlamed first (handle_event platform alone rt first)
handle_event-IsBlamed_example = handle_event-IsBlamed platform rt checked checked_valid alone first
