-- ===== src/Tests/Oid.antt =====
-- Object identifiers at work.
use snmptrap_relay.Oid.{normalize}
use snmptrap_relay.Prelude.{◌≡◌, refl}
use snmptrap_relay.Text.{text_eq, lit}

-- White space goes, and one dot.
normalize_runs : normalize (lit " ..1\t") ≡ lit ".1"
unfolding normalize lit
normalize_runs = refl
