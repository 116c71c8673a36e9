-- ===== src/Match/Flat.antt =====
-- internal/match/match.go, Matches: a flat specification, which ranges over a map.
use snmptrap_relay.Match.{entry_matches, flat_matches}
use snmptrap_relay.Model.Value.{Value, Fields, end, field}
use snmptrap_relay.Model.{TrapEvent}
use snmptrap_relay.Prelude.{◌≡◌, ◌∙◌, ◌↔◌, refl, true, arith}
use snmptrap_relay.Text.{Text}

-- The entries of a map in another range order.
pub data IsPermuted : Fields → Fields → Type 0 where
  same_order : (m : Fields) → IsPermuted m m
  swapped :
      (k j : Text) (v w : Value) (m : Fields)
      → IsPermuted (field k v (field j w m)) (field j w (field k v m))
  behind :
      (k : Text) (v : Value) {m n : Fields}
      → IsPermuted m n
      → IsPermuted (field k v m) (field k v n)
  after : {m n o : Fields} → IsPermuted m n → IsPermuted n o → IsPermuted m o

module _ (event : TrapEvent) where
  -- Every entry holds.
  abbrev pub EveryEntry : Fields → Type 0
  EveryEntry end = Unit
  EveryEntry (field name expected m) = (entry_matches event name expected ≡ true) × EveryEntry m

  -- A flat specification matches an event exactly when every entry's value, printed, is what its field
  -- resolves to, both normalized where the field is an object identifier.
  pub flat_matches-EveryEntry : (m : Fields) → (flat_matches event m ≡ true) ↔ EveryEntry m
  unfolding flat_matches
  flat_matches-EveryEntry end = ground arith
  flat_matches-EveryEntry (field name expected m) = ground (arith, flat_matches-EveryEntry m)

  -- A flat specification gives the same answer in every range order of its map.
  pub flat_matches-IsPermuted :
      {m n : Fields} → IsPermuted m n → flat_matches event m ≡ flat_matches event n
  unfolding flat_matches
  flat_matches-IsPermuted (same_order m) = refl
  flat_matches-IsPermuted (swapped k j v w m) = ground arith
  flat_matches-IsPermuted (behind k v r) = ground (arith, flat_matches-IsPermuted r)
  flat_matches-IsPermuted (after r s) = flat_matches-IsPermuted r ∙ flat_matches-IsPermuted s
