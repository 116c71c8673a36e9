-- ===== src/Model/Document.antt =====
-- internal/model/types.go, MatchSpec: how a specification is read from a YAML node. What the library
-- decodes of a node is a parameter.
use snmptrap_relay.Model.Value.{Fields, end}
use snmptrap_relay.Model.{MatchSpec}
use snmptrap_relay.Prelude.{Bool, Option, none, some, if◌then◌else◌}
use snmptrap_relay.Result.{Result, ok, ◌>>=◌}

-- A node: whether its kind is zero, and what Decode makes of it as a mapping.
pub record Node : Type 0 where
  pub is_zero : Bool
  pub decoded : Result Fields

-- UnmarshalYAML
unfoldable pub unmarshal_yaml : Option Node → Result MatchSpec
unmarshal_yaml none = ok (record { raw = end })
unmarshal_yaml (some node) =
    if node.is_zero
    then ok (record { raw = end })
    else (do raw ← node.decoded; ok (record { raw = raw }))
