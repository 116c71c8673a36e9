-- ===== src/Match/Reads.antt =====
-- internal/match/match.go: matching and the deduplication key read nothing of an event but its fields.
use snmptrap_relay.Match.Std.{Platform}
use snmptrap_relay.Match.{
  Condition, resolve_field, condition_matches, all_match, any_match, none_match, logic_matches,
  entry_matches, flat_matches, matches, key_items, build_dedup_key,
}
use snmptrap_relay.Model.Value.{Value, Fields, end, field}
use snmptrap_relay.Model.{TrapEvent, MatchSpec}
use snmptrap_relay.Prelude.{◌≡◌, refl, List, [], ◌∷◌}
use snmptrap_relay.Text.{Text}

module _ (e f : TrapEvent)
    (read : (name : Text) → resolve_field e name ≡ resolve_field f name) where
  entry_matches-read : (name : Text) (v : Value) → entry_matches e name v ≡ entry_matches f name v
  unfolding entry_matches
  entry_matches-read name v = rw (read name)

  flat_matches-read : (m : Fields) → flat_matches e m ≡ flat_matches f m
  unfolding flat_matches
  flat_matches-read end = refl
  flat_matches-read (field name v m) = rw (entry_matches-read name v, flat_matches-read m)

  key_items-read : (names : List Text) → key_items e names ≡ key_items f names
  unfolding key_items
  key_items-read [] = refl
  key_items-read (name ∷ names) = rw (read name, key_items-read names)

  module _ (p : Platform) where
    condition_matches-read : (c : Condition) → condition_matches p e c ≡ condition_matches p f c
    unfolding condition_matches
    condition_matches-read c = rw (read c.name)

    all_match-read : (cs : List Condition) → all_match p e cs ≡ all_match p f cs
    unfolding all_match
    all_match-read [] = refl
    all_match-read (c ∷ cs) = rw (condition_matches-read c, all_match-read cs)

    any_match-read : (cs : List Condition) → any_match p e cs ≡ any_match p f cs
    unfolding any_match
    any_match-read [] = refl
    any_match-read (c ∷ cs) = rw (condition_matches-read c, any_match-read cs)

    none_match-read : (cs : List Condition) → none_match p e cs ≡ none_match p f cs
    unfolding none_match
    none_match-read [] = refl
    none_match-read (c ∷ cs) = rw (condition_matches-read c, none_match-read cs)

    logic_matches-read :
        (a b n : List Condition) → logic_matches p e a b n ≡ logic_matches p f a b n
    unfolding logic_matches
    logic_matches-read a [] n = rw (all_match-read a, none_match-read n)
    logic_matches-read a (c ∷ b) n =
        rw (all_match-read a, any_match-read (c ∷ b), none_match-read n)

    matches-read : (spec : MatchSpec) → matches p e spec ≡ matches p f spec
    unfolding matches
    matches-read spec = simp (flat_matches-read, logic_matches-read)

    -- If every name resolves to the same value for two events, Matches gives the same result for both
    -- with every specification, and so does BuildDedupKey with every list of key fields.
    pub matches-resolve_field :
        (spec : MatchSpec) (names : List Text)
        → (matches p e spec ≡ matches p f spec)
          × (build_dedup_key p e names ≡ build_dedup_key p f names)
    unfolding build_dedup_key
    matches-resolve_field spec names = (matches-read spec, rw (key_items-read names))

-- A name resolves by the fields alone.
pub resolve_field-fields :
    (e f : TrapEvent) (name : Text)
    → e.fields ≡ f.fields
    → resolve_field e name ≡ resolve_field f name
unfolding resolve_field
resolve_field-fields e f name h = rw h
