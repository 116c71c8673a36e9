-- ===== src/Snmp/Fields.antt =====
-- internal/snmp/parser.go, buildFields: the fields of an event.
use snmptrap_relay.Dict
use snmptrap_relay.Model.{TrapEvent, VarBind}
use snmptrap_relay.Oid.{normalize, lookup}
use snmptrap_relay.Prelude.Int.{ℤ, pos, negsuc}
use snmptrap_relay.Prelude.{zero, suc, List, [], ◌∷◌, ◌++◌, Option, none, some, if◌then◌else◌}
use snmptrap_relay.Text.Number.{int_text}
use snmptrap_relay.Text.{Text, text_eq, lit, is_empty}

-- `if value != "" { fields[name] = value }`
abbrev pub put_text : Text → Text → List (Text × Text) → List (Text × Text)
put_text name value fields = if is_empty value then fields else Dict.put name value fields

-- `if value != 0 { fields[name] = strconv.FormatInt(value, 10) }`
abbrev pub put_int : Text → ℤ → List (Text × Text) → List (Text × Text)
put_int name (pos zero) fields = fields
put_int name (pos (suc n)) fields = Dict.put name (int_text (pos (suc n))) fields
put_int name (negsuc n) fields = Dict.put name (int_text (negsuc n)) fields

-- lookupAlias
unfoldable pub lookup_alias : List (Text × Text) → Text → Option Text
unfolding lookup
lookup_alias aliases oid = elim (lookup aliases oid) [
  | none ↦ none
  | some alias ↦ if is_empty alias then none else some alias
]

-- One round of the last loop of buildFields.
unfoldable pub put_varbind : List (Text × Text) → VarBind → List (Text × Text) → List (Text × Text)
unfolding normalize lookup_alias Dict.put
put_varbind aliases vb fields =
    let oid = normalize vb.oid in
    let named = Dict.put (lit "varbind." ++ oid) vb.value fields in
    elim (lookup_alias aliases oid) [
      | none ↦ named
      | some alias ↦ Dict.put (lit "fields." ++ alias) vb.value (Dict.put alias vb.value named)
    ]

unfoldable pub put_varbinds :
    List (Text × Text) → List VarBind → List (Text × Text) → List (Text × Text)
unfolding put_varbind
put_varbinds aliases [] fields = fields
put_varbinds aliases (vb ∷ vbs) fields = put_varbinds aliases vbs (put_varbind aliases vb fields)

-- The fields of an event that are always there.
unfoldable pub basic_fields : TrapEvent → List (Text × Text)
unfolding int_text
basic_fields event =
    (lit "source_ip", event.source_ip)
    ∷ (lit "source_port", int_text event.source_port)
    ∷ (lit "version", int_text event.version)
    ∷ (lit "community", event.community)
    ∷ (lit "pdu_type", event.pdu_type)
    ∷ []

-- The fields that both parsers set only where they are not empty, up to the uptime.
unfoldable pub text_fields : TrapEvent → List (Text × Text) → List (Text × Text)
unfolding Dict.put
text_fields event fields = put_text (lit "uptime") event.uptime (
    put_text (lit "specific_trap") event.specific_trap (
      put_text (lit "generic_trap_name") event.generic_trap_name (
        put_text (lit "generic_trap") event.generic_trap (
          put_text (lit "agent_address") event.agent_address
            (put_text (lit "enterprise_oid") event.enterprise_oid fields)))))

unfoldable pub number_fields : TrapEvent → List (Text × Text) → List (Text × Text)
unfolding Dict.put int_text
number_fields event fields = put_int (lit "error_index") event.error_index (
    put_int (lit "error_status") event.error_status
      (put_int (lit "request_id") event.request_id fields))

-- `if event.TrapOID != "" { fields["trap_oid"] = … }`
unfoldable pub trap_oid_field : TrapEvent → List (Text × Text) → List (Text × Text)
unfolding Dict.put normalize
trap_oid_field event fields =
    if is_empty event.trap_oid
    then fields
    else Dict.put (lit "trap_oid") (normalize event.trap_oid) fields

-- buildFields
unfoldable pub build_fields : TrapEvent → List (Text × Text) → TrapEvent
unfolding basic_fields text_fields number_fields trap_oid_field put_varbinds
build_fields event aliases = record event {
  fields =
      put_varbinds aliases event.varbinds
        (trap_oid_field event (number_fields event (text_fields event (basic_fields event))));
}
