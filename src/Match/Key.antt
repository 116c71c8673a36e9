-- ===== src/Match/Key.antt =====
-- internal/match/match.go, BuildDedupKey: which fields are missing, and what the key holds.
use snmptrap_relay.Match.Json.{KeyItem, marshal}
use snmptrap_relay.Match.Std.{Platform}
use snmptrap_relay.Match.{resolve_field, key_items, key_of_items, build_dedup_key}
use snmptrap_relay.Model.{TrapEvent, DedupKey}
use snmptrap_relay.Prelude.{◌≡◌, ◌∙◌, ap, refl, List, [], ◌∷◌, arith, if◌then◌else◌}
use snmptrap_relay.Result.{Result, ok, ◌>>=◌}
use snmptrap_relay.Text.Number.{hex_text}
use snmptrap_relay.Text.{Text, is_empty}

-- The names of the list that resolve to nothing, in their order.
abbrev pub missing_of : TrapEvent → List Text → List Text
missing_of event [] = []
missing_of event (name ∷ names) =
    if is_empty (resolve_field event name)
    then name ∷ missing_of event names
    else missing_of event names

-- Every name of the list with the value that it resolves to.
abbrev pub items_of : TrapEvent → List Text → List KeyItem
items_of event [] = []
items_of event (name ∷ names) =
    record { field = name; value = resolve_field event name } ∷ items_of event names

key_items-missing_of :
    (event : TrapEvent) (names : List Text) → (key_items event names).1 ≡ missing_of event names
unfolding key_items
key_items-missing_of event [] = refl
key_items-missing_of event (name ∷ names) = ground (arith, key_items-missing_of event names)

key_items-items_of :
    (event : TrapEvent) (names : List Text)
    → missing_of event names ≡ []
    → (key_items event names).0 ≡ items_of event names
unfolding key_items
key_items-items_of event [] h = refl
key_items-items_of event (name ∷ names) h = ground (arith, key_items-items_of event names)

-- The key by the names that are missing: none if there are any, else the hash of the JSON text of
-- all the items.
abbrev pub keyed_by : Platform → List KeyItem → List Text → Result DedupKey
keyed_by p items (m ∷ ms) = ok (record { hash = []; repr = []; missing_fields = m ∷ ms })
keyed_by p items [] = do
  payload ← marshal items
  ok (record { hash = hex_text (p.sha256 payload); repr = payload; missing_fields = [] })

key_of_items-keyed_by :
    (p : Platform) (event : TrapEvent) (name : Text) (names : List Text) (missing : List Text)
    → missing_of event (name ∷ names) ≡ missing
    → key_of_items p (key_items event (name ∷ names)).0 missing
      ≡ keyed_by p (items_of event (name ∷ names)) missing
unfolding key_of_items
key_of_items-keyed_by p event name names (m ∷ ms) e = refl
key_of_items-keyed_by p event name names [] e = rw (key_items-items_of event (name ∷ names) e)

-- BuildDedupKey of one name or more reports exactly the names that resolve to nothing, in their
-- order, and gives no key if there are any. If there are none, the key is the hash of the JSON text
-- of all the names with their values, in their order.
pub build_dedup_key_lem :
    (p : Platform) (event : TrapEvent) (name : Text) (names : List Text)
    → build_dedup_key p event (name ∷ names)
      ≡ keyed_by p (items_of event (name ∷ names)) (missing_of event (name ∷ names))
unfolding build_dedup_key
build_dedup_key_lem p event name names =
    ap (key_of_items p (key_items event (name ∷ names)).0)
      (key_items-missing_of event (name ∷ names))
    ∙ key_of_items-keyed_by p event name names (missing_of event (name ∷ names)) refl
