-- ===== src/Perf/Profile/Fields.antt =====
-- internal/snmp/parser.go, buildFields, on the traps of cmd/snmptrap-relay-perf/main.go: what the names of
-- its rules resolve to.
use snmptrap_relay.Dict
use snmptrap_relay.Match.{resolve_field, first_variant, varbind_field}
use snmptrap_relay.Model.{TrapEvent}
use snmptrap_relay.Oid.{normalize, variants}
use snmptrap_relay.Perf.Load.Events.{trap_varbinds}
use snmptrap_relay.Perf.Load.{alarm_trap_oid, clear_trap_oid}
use snmptrap_relay.Perf.Profile.{field_aliases}
use snmptrap_relay.Perf.Traps.Whole.{v2_event}
use snmptrap_relay.Prelude.Int.{ℤ, pos}
use snmptrap_relay.Prelude.{ℕ, ◌≡◌, refl, List, [], Bool-cases, inl, inr}
use snmptrap_relay.Snmp.Fields.{
  put_varbind, put_varbinds, lookup_alias, basic_fields, text_fields, number_fields, trap_oid_field,
}
use snmptrap_relay.Snmp.{Library, build_fields, new_event, varbind_map, well_known, text_at}
use snmptrap_relay.Text.Number.{int_text}
use snmptrap_relay.Text.{Text, lit, same, is_empty, has_prefix, trim_prefix}

-- The event that ParseTrap makes of a payload of buildTrapPayload (Perf/Load/Events).
abbrev pub load_event : Library → ℤ → List ℕ → Text → ℤ → Text → Text → ℕ → ℕ → TrapEvent
load_event lib now payload source_ip source_port trap_oid device index uptime =
    build_fields
      (v2_event lib (new_event now payload source_ip source_port (pos 1) (lit "public") 0xa7)
        (trap_varbinds trap_oid device index uptime))
      field_aliases

-- What reading the fields computes with.
fields_program : Unit {0}
unfolding build_fields basic_fields text_fields number_fields trap_oid_field put_varbinds
    put_varbind lookup_alias varbind_map well_known new_event text_at Dict.get Dict.put lit same
    has_prefix trim_prefix normalize variants resolve_field first_variant varbind_field
fields_program = tt

-- What the names that the rules use resolve to.
pub record IsLoad (event : TrapEvent) (trap_oid device : Text) (index : ℕ) : Type 0 where
  pub trap_oid_read : resolve_field event (lit "trap_oid") ≡ trap_oid
  pub device_read : resolve_field event (lit "fields.device_id") ≡ device
  pub index_read : resolve_field event (lit "fields.ifIndex") ≡ int_text (pos index)
  pub unique_missing : resolve_field event (lit "fields.synthetic_unique_id") ≡ []

-- The fields with an uptime and without one.
module _ (lib : Library) (now : ℤ) (payload : List ℕ) (source_ip : Text) (source_port : ℤ)
    (device : Text) (index uptime : ℕ) where
  abbrev event_with : Text → TrapEvent
  event_with oid = load_event lib now payload source_ip source_port oid device index uptime

  pub alarm-IsLoad : IsLoad (event_with alarm_trap_oid) alarm_trap_oid device index
  unfolding fields_program
  alarm-IsLoad = elim (Bool-cases (is_empty (event_with alarm_trap_oid).uptime)) [
    | inl no_uptime ↦ record {
      trap_oid_read = rw no_uptime refl;
      device_read = rw no_uptime refl;
      index_read = rw no_uptime refl;
      unique_missing = rw no_uptime refl;
    }
    | inr has_uptime ↦ record {
      trap_oid_read = rw has_uptime refl;
      device_read = rw has_uptime refl;
      index_read = rw has_uptime refl;
      unique_missing = rw has_uptime refl;
    }
  ]

  pub clear-IsLoad : IsLoad (event_with clear_trap_oid) clear_trap_oid device index
  unfolding fields_program
  clear-IsLoad = elim (Bool-cases (is_empty (event_with clear_trap_oid).uptime)) [
    | inl no_uptime ↦ record {
      trap_oid_read = rw no_uptime refl;
      device_read = rw no_uptime refl;
      index_read = rw no_uptime refl;
      unique_missing = rw no_uptime refl;
    }
    | inr has_uptime ↦ record {
      trap_oid_read = rw has_uptime refl;
      device_read = rw has_uptime refl;
      index_read = rw has_uptime refl;
      unique_missing = rw has_uptime refl;
    }
  ]
