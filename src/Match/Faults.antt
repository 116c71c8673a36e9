-- ===== src/Match/Faults.antt =====
-- internal/match/match.go, Matches: the errors that it can return.
use snmptrap_relay.Match.Std.{Platform, Float64}
use snmptrap_relay.Match.{
  Condition, Operator, exists, eq, ne, contain, prefix, suffix, regex, in_list, gt, ge, lt, le,
  parse_conditions, parse_condition_list, conditions_at, as_mapping, compare_numbers, regex_matches,
  apply_operator, switch_operator, operator_of, condition_matches, all_match, any_match, none_match,
  logic_matches, matches, is_no_entry, is_logical,
}
use snmptrap_relay.Model.Value.{
  Value, Items, nil, cons, null, bool, int, scalar, str, list, obj, dict,
}
use snmptrap_relay.Model.{TrapEvent, MatchSpec}
use snmptrap_relay.Prelude.{
  ◌≡◌, refl, Bool, true, false, List, [], ◌∷◌, Option, none, some, arith, if◌then◌else◌,
  Option-cases, inl, inr,
}
use snmptrap_relay.Result.{
  Result, Error, ok, err, ◌>>=◌, condition_not_mapping, match_list_not_slice, bad_regex,
  unsupported_operator,
}
use snmptrap_relay.Text.{Text, to_lower}

-- The errors of a specification that cannot be read or evaluated.
abbrev pub is_match_fault : Error → Bool
is_match_fault condition_not_mapping = true
is_match_fault match_list_not_slice = true
is_match_fault (bad_regex _) = true
is_match_fault (unsupported_operator _) = true
is_match_fault _ = false

-- A result whose error, if it is one, is among these.
abbrev pub FailsBy {ℓ} : {A : Type ℓ} → (Error → Bool) → Result A → Type 0
FailsBy test (err e) = test e ≡ true
FailsBy test (ok value) = Unit {0}

pub >>=-FailsBy {ℓ κ} :
    {A : Type ℓ} {B : Type κ} (test : Error → Bool) (first : Result A) (next : A → Result B)
    → FailsBy test first
    → ((value : A) → FailsBy test (next value))
    → FailsBy test (first >>= next)
>>=-FailsBy test (err e) next h k = h
>>=-FailsBy test (ok value) next h k = k value

pub if-FailsBy {ℓ} :
    {A : Type ℓ} (test : Error → Bool) (b : Bool) (x y : Result A)
    → FailsBy test x
    → FailsBy test y
    → FailsBy test (if b then x else y)
if-FailsBy test true x y hx hy = hx
if-FailsBy test false x y hx hy = hy

abbrev Faulty {ℓ} : {A : Type ℓ} → Result A → Type 0
Faulty = FailsBy is_match_fault

parse_conditions-Faulty : (items : Items) → Faulty (parse_conditions items)
unfolding parse_conditions
parse_conditions-Faulty nil = tt
parse_conditions-Faulty (cons item items) =
    let rest = parse_conditions-Faulty items in
    elim (Option-cases (as_mapping item)) [
      | inl no_mapping ↦ rw (no_mapping, parse_conditions) refl
      | inr (m, mapping) ↦
          rw (mapping, parse_conditions)
            (>>=-FailsBy is_match_fault (parse_conditions items) _ rest (λ _. tt))
    ]

parse_condition_list-Faulty : (v : Value) → Faulty (parse_condition_list v)
unfolding parse_condition_list
parse_condition_list-Faulty (list items) = parse_conditions-Faulty items
parse_condition_list-Faulty null = tt
parse_condition_list-Faulty (bool b) = refl
parse_condition_list-Faulty (int n) = refl
parse_condition_list-Faulty (scalar t) = refl
parse_condition_list-Faulty (str t) = refl
parse_condition_list-Faulty (obj m) = refl
parse_condition_list-Faulty (dict m) = refl

conditions_at-Faulty : (v : Option Value) → Faulty (conditions_at v)
conditions_at-Faulty none = tt
conditions_at-Faulty (some v) = parse_condition_list-Faulty v

module _ (p : Platform) where
  compare_numbers-Faulty :
      (test : Float64 → Float64 → Bool) (actual : Text) (value : Value)
      → Faulty (compare_numbers p test actual value)
  unfolding compare_numbers
  compare_numbers-Faulty test actual value = ground arith

  apply_operator-Faulty :
      (op : Operator) (actual : Text) (value : Value) (oid : Bool)
      → Faulty (apply_operator p op actual value oid)
  unfolding apply_operator regex_matches
  apply_operator-Faulty exists actual value oid = tt
  apply_operator-Faulty eq actual value oid = tt
  apply_operator-Faulty ne actual value oid = tt
  apply_operator-Faulty contain actual value oid = tt
  apply_operator-Faulty prefix actual value oid = tt
  apply_operator-Faulty suffix actual value oid = tt
  apply_operator-Faulty regex actual value oid = ground arith
  apply_operator-Faulty in_list actual value oid = tt
  apply_operator-Faulty gt actual value oid = compare_numbers-Faulty _ actual value
  apply_operator-Faulty ge actual value oid = compare_numbers-Faulty _ actual value
  apply_operator-Faulty lt actual value oid = compare_numbers-Faulty _ actual value
  apply_operator-Faulty le actual value oid = compare_numbers-Faulty _ actual value

  condition_matches-Faulty :
      (event : TrapEvent) (c : Condition) → Faulty (condition_matches p event c)
  unfolding condition_matches switch_operator
  condition_matches-Faulty event c = elim (Option-cases (operator_of (to_lower c.op))) [
    | inl unknown ↦ rw (unknown, switch_operator) refl
    | inr (op, known) ↦ rw (known, switch_operator) (apply_operator-Faulty op _ c.value _)
  ]

  module _ (event : TrapEvent) where
    all_match-Faulty : (cs : List Condition) → Faulty (all_match p event cs)
    unfolding all_match
    all_match-Faulty [] = tt
    all_match-Faulty (c ∷ cs) =
        >>=-FailsBy is_match_fault (condition_matches p event c) _
          (condition_matches-Faulty event c)
          (λ b. if-FailsBy is_match_fault b _ _ (all_match-Faulty cs) tt)

    any_match-Faulty : (cs : List Condition) → Faulty (any_match p event cs)
    unfolding any_match
    any_match-Faulty [] = tt
    any_match-Faulty (c ∷ cs) =
        >>=-FailsBy is_match_fault (condition_matches p event c) _
          (condition_matches-Faulty event c)
          (λ b. if-FailsBy is_match_fault b _ _ tt (any_match-Faulty cs))

    none_match-Faulty : (cs : List Condition) → Faulty (none_match p event cs)
    unfolding none_match
    none_match-Faulty [] = tt
    none_match-Faulty (c ∷ cs) =
        >>=-FailsBy is_match_fault (condition_matches p event c) _
          (condition_matches-Faulty event c)
          (λ b. if-FailsBy is_match_fault b _ _ tt (none_match-Faulty cs))

    logic_matches-Faulty : (a b n : List Condition) → Faulty (logic_matches p event a b n)
    unfolding logic_matches
    logic_matches-Faulty a [] n =
        >>=-FailsBy is_match_fault (all_match p event a) _ (all_match-Faulty a)
          (λ every. if-FailsBy is_match_fault every _ _ (none_match-Faulty n) tt)
    logic_matches-Faulty a (c ∷ cs) n =
        >>=-FailsBy is_match_fault (all_match p event a) _ (all_match-Faulty a) (λ every.
          if-FailsBy is_match_fault every _ _
            (>>=-FailsBy is_match_fault (any_match p event (c ∷ cs)) _ (any_match-Faulty (c ∷ cs))
              (λ some_one. if-FailsBy is_match_fault some_one _ _ (none_match-Faulty n) tt))
            tt)

    -- Matches returns no other error than these.
    pub matches-FailsBy : (spec : MatchSpec) → FailsBy is_match_fault (matches p event spec)
    unfolding matches
    matches-FailsBy spec = if-FailsBy is_match_fault (is_no_entry spec.raw) _ _ tt (
        if-FailsBy is_match_fault (is_logical spec.raw) _ _
          (>>=-FailsBy is_match_fault _ _ (conditions_at-Faulty _) (λ a.
            >>=-FailsBy is_match_fault _ _ (parse_condition_list-Faulty _) (λ b.
              >>=-FailsBy is_match_fault _ _ (parse_condition_list-Faulty _)
                (λ n. logic_matches-Faulty a b n))))
          tt)
