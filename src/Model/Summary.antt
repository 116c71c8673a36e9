-- ===== src/Model/Summary.antt =====
-- internal/model/types.go, Summary: an event on one line.
use snmptrap_relay.Model.{TrapEvent}
use snmptrap_relay.Prelude.{List, [], ◌∷◌, ◌++◌, if◌then◌else◌}
use snmptrap_relay.Text.Number.{int_text}
use snmptrap_relay.Text.{Text, lit, is_empty, join}

-- `if value != "" { parts = append(parts, name=value) }`
unfoldable part : Text → Text → List Text
part name value = if is_empty value then [] else (name ++ value) ∷ []

-- The parts of Summary, in their order.
unfoldable pub summary_parts : TrapEvent → List Text
unfolding part int_text
summary_parts e =
    let source = lit "src=" ++ (e.source_ip ++ (lit ":" ++ int_text e.source_port)) in
    let version = lit "version=" ++ int_text e.version in
    let kind =
      if is_empty e.trap_oid
      then part (lit "pdu=") e.pdu_type
      else (lit "trap_oid=" ++ e.trap_oid) ∷ [] in
    let generic =
      if is_empty e.generic_trap_name
      then part (lit "generic=") e.generic_trap
      else (lit "generic=" ++ e.generic_trap_name) ∷ [] in
    source ∷ version ∷ kind
    ++ (part (lit "enterprise=") e.enterprise_oid
        ++ (generic ++ part (lit "specific=") e.specific_trap))

-- Summary; joinParts is the join of its parts by a space
unfoldable pub summary : TrapEvent → Text
unfolding summary_parts join
summary e = join (lit " ") (summary_parts e)
