-- ===== src/Match/Logic.antt =====
-- internal/match/match.go, Matches: the value of a specification with "all", "any" and "not".
use snmptrap_relay.Match.Std.{Platform}
use snmptrap_relay.Match.{
  Condition, condition_matches, all_match, any_match, none_match, logic_matches, matches,
  conditions_at, parse_condition_list, is_logical, is_no_entry,
}
use snmptrap_relay.Model.Value.{Fields, end, field, field_get, field_value}
use snmptrap_relay.Model.{TrapEvent, MatchSpec}
use snmptrap_relay.Prelude.{
  ◌≡◌, refl, Bool, true, false, not, ◌&&◌, ◌||◌, List, [], ◌∷◌, All, arith,
}
use snmptrap_relay.Result.{ok}
use snmptrap_relay.Text.{lit}

abbrev pub every : (Condition → Bool) → List Condition → Bool
every v [] = true
every v (c ∷ cs) = v c && every v cs

abbrev pub any : (Condition → Bool) → List Condition → Bool
any v [] = false
any v (c ∷ cs) = v c || any v cs

abbrev pub is_nil : List Condition → Bool
is_nil [] = true
is_nil (c ∷ cs) = false

is_logical_entries : (m : Fields) → is_logical m ≡ true → is_no_entry m ≡ false
unfolding is_logical is_no_entry field_get field_value
is_logical_entries end h = cc
is_logical_entries (field k w m) h = refl

module _ (p : Platform) (event : TrapEvent) (v : Condition → Bool) where
  -- No condition of the list fails to evaluate, and `v` gives the values.
  abbrev pub Evaluates : List Condition → Type 0
  Evaluates = All (λ c. condition_matches p event c ≡ ok (v c))

  all_match-every : (cs : List Condition) → Evaluates cs → all_match p event cs ≡ ok (every v cs)
  unfolding all_match
  all_match-every [] h = refl
  all_match-every (c ∷ cs) h = rw (h.0, all_match) (ground (arith, all_match-every cs h.1))

  any_match-any : (cs : List Condition) → Evaluates cs → any_match p event cs ≡ ok (any v cs)
  unfolding any_match
  any_match-any [] h = refl
  any_match-any (c ∷ cs) h = rw (h.0, any_match) (ground (arith, any_match-any cs h.1))

  none_match-any :
      (cs : List Condition) → Evaluates cs → none_match p event cs ≡ ok (not (any v cs))
  unfolding none_match
  none_match-any [] h = refl
  none_match-any (c ∷ cs) h = rw (h.0, none_match) (ground (arith, none_match-any cs h.1))

  logic_matches_lem :
      (a b n : List Condition)
      → Evaluates a
      → Evaluates b
      → Evaluates n
      → logic_matches p event a b n ≡ ok (every v a && (is_nil b || any v b) && not (any v n))
  unfolding logic_matches
  logic_matches_lem a [] n ha hb hn =
      rw (all_match-every a ha, logic_matches) (ground (arith, none_match-any n hn))
  logic_matches_lem a (c ∷ b) n ha hb hn =
      rw (all_match-every a ha, logic_matches)
        (rw (any_match-any (c ∷ b) hb) (ground (arith, none_match-any n hn)))

  -- If a specification names "all", or a value for "any" or "not", its lists parse, and none of their
  -- conditions fails to evaluate on the event, then Matches returns no error, and the event matches
  -- exactly when all the conditions of "all" hold, some condition of "any" holds if it lists any, and
  -- none of "not" does.
  pub matches_logical :
      (spec : MatchSpec) (a b n : List Condition)
      → is_logical spec.raw ≡ true
      → conditions_at (field_get (lit "all") spec.raw) ≡ ok a
      → parse_condition_list (field_value (lit "any") spec.raw) ≡ ok b
      → parse_condition_list (field_value (lit "not") spec.raw) ≡ ok n
      → Evaluates a
      → Evaluates b
      → Evaluates n
      → matches p event spec ≡ ok (every v a && (is_nil b || any v b) && not (any v n))
  unfolding matches
  matches_logical spec a b n logical pa pb pn ha hb hn =
      rw (is_logical_entries spec.raw logical, logical, pa)
        (rw pb (rw pn (logic_matches_lem a b n ha hb hn)))
