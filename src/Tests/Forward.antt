-- ===== src/Tests/Forward.antt =====
-- The sending to two targets, of which the first fails.
use snmptrap_relay.Forward.{Target}
use snmptrap_relay.Prelude.Int.{pos}
use snmptrap_relay.Prelude.{List, [], ◌∷◌, Option, none, some, true}
use snmptrap_relay.Text.{Text, lit}

abbrev target : Text → Option Text → Target
target name error = record {
  config = record {
    name = name;
    host = lit "10.0.0.9";
    port = pos 162;
    enabled = true;
    source_host = [];
  };
  write = λ payload. error;
  close = none;
}

abbrev targets : List Target
targets = target (lit "a") (some (lit "refused")) ∷ target (lit "b") none ∷ []
