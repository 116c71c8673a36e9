-- ===== src/Engine/Logged.antt =====
-- internal/engine/engine.go: what the log lines tell of a rule's deduplication.
use snmptrap_relay.Model.{DedupConfig}
use snmptrap_relay.Prelude.Int.{ℤ}
use snmptrap_relay.Prelude.{Bool, true, List, [], ◌∷◌, ◌++◌, if◌then◌else◌}
use snmptrap_relay.Text.Number.{int_text}
use snmptrap_relay.Text.{Text, lit}

-- The values among the attributes of a log line.
pub data Attribute : Type 0 where
  text : Text → Attribute
  flag : Bool → Attribute
  number : ℤ → Attribute

-- dedupTTLDisplay
unfoldable pub dedup_ttl_display : DedupConfig → Text
unfolding int_text
dedup_ttl_display cfg =
    if cfg.hold_until_clear then lit "none" else int_text cfg.ttl_seconds ++ lit "s"

-- dedupTTLNote
unfoldable pub dedup_ttl_note : DedupConfig → Text
dedup_ttl_note cfg =
    if cfg.hold_until_clear
    then lit "will not clear without a matching clear trap or a restart"
    else []

-- dedupLogFields
unfoldable pub dedup_log_fields : DedupConfig → List (Text × Attribute)
unfolding dedup_ttl_display dedup_ttl_note
dedup_log_fields cfg =
    let ttl : Text × Attribute = (lit "ttl", text (dedup_ttl_display cfg)) in
    if cfg.hold_until_clear
    then ttl
      ∷ (lit "hold_until_clear", flag true)
      ∷ (lit "ttl_note", text (dedup_ttl_note cfg))
      ∷ []
    else ttl ∷ (lit "ttl_seconds", number cfg.ttl_seconds) ∷ []
