-- ===== src/Match/Distinct.antt =====
-- internal/match/match.go, BuildDedupKey: which events get the same key.
use snmptrap_relay.Match.Json.Objects.{IsValidItem, marshal-injective}
use snmptrap_relay.Match.Json.{KeyItem, marshal}
use snmptrap_relay.Match.Key.{items_of, keyed_by, build_dedup_key_lem}
use snmptrap_relay.Match.Std.{Platform}
use snmptrap_relay.Match.{resolve_field, build_dedup_key}
use snmptrap_relay.Model.{TrapEvent, DedupKey}
use snmptrap_relay.Prelude.{ℕ, ◌≡◌, ◌↔◌, ◌∙◌, ap, sym, refl, List, [], ◌∷◌, All, arith}
use snmptrap_relay.Result.{ok}
use snmptrap_relay.Text.Number.{hex_byte, hex_text}
use snmptrap_relay.Text.{Text}

-- The two events resolve the name to the same value.
abbrev pub Agree : TrapEvent → TrapEvent → Text → Type 0
Agree one two name = resolve_field one name ≡ resolve_field two name

hex_byte-injective :
    (c d : ℕ) (x y : Text)
    → hex_text (c ∷ x) ≡ hex_text (d ∷ y)
    → (c ≡ d) × (hex_text x ≡ hex_text y)
unfolding hex_text hex_byte
hex_byte-injective c d x y e = ground arith

hex_text-injective : (x y : List ℕ) → hex_text x ≡ hex_text y → x ≡ y
unfolding hex_text hex_byte
hex_text-injective [] [] e = refl
hex_text-injective [] (d ∷ y) e = cc
hex_text-injective (c ∷ x) [] e = cc
hex_text-injective (c ∷ x) (d ∷ y) e =
    let (first, rest) = hex_byte-injective c d x y e in cc (first, hex_text-injective x y rest)

-- What a key with no missing field is made of.
keyed_parts :
    (p : Platform) (items : List KeyItem) (missing : List Text) (k : DedupKey)
    → keyed_by p items missing ≡ ok k
    → k.missing_fields ≡ []
    → (marshal items ≡ ok k.repr) × (k.hash ≡ hex_text (p.sha256 k.repr))
unfolding marshal
keyed_parts p items [] k made full = ground arith
keyed_parts p items (m ∷ ms) k made full = absurd (ground arith)

items_of-Agree :
    (one two : TrapEvent) (names : List Text)
    → items_of one names ≡ items_of two names
    → All (Agree one two) names
items_of-Agree one two [] e = tt
items_of-Agree one two (name ∷ names) e =
    (ground arith, items_of-Agree one two names (ground arith))

Agree-items_of :
    (one two : TrapEvent) (names : List Text)
    → All (Agree one two) names
    → items_of one names ≡ items_of two names
Agree-items_of one two [] h = refl
Agree-items_of one two (name ∷ names) h = rw (h.0, Agree-items_of one two names h.1)

-- Two events for which BuildDedupKey finds all the names: if the names and what they resolve to are
-- UTF-8, and SHA-256 does not give the two JSON texts one sum, then the events have the same hash
-- exactly when every name resolves to the same value for both.
pub build_dedup_key-Agree :
    (p : Platform) (one two : TrapEvent) (name : Text) (names : List Text) (k l : DedupKey)
    → build_dedup_key p one (name ∷ names) ≡ ok k
    → build_dedup_key p two (name ∷ names) ≡ ok l
    → k.missing_fields ≡ []
    → l.missing_fields ≡ []
    → All IsValidItem (items_of one (name ∷ names))
    → All IsValidItem (items_of two (name ∷ names))
    → (p.sha256 k.repr ≡ p.sha256 l.repr → k.repr ≡ l.repr)
    → (k.hash ≡ l.hash) ↔ All (Agree one two) (name ∷ names)
build_dedup_key-Agree p one two name names k l hk hl full_k full_l vk vl apart =
    let (made_k, sum_k) =
      keyed_parts p _ _ k (sym (build_dedup_key_lem p one name names) ∙ hk) full_k in
    let (made_l, sum_l) =
      keyed_parts p _ _ l (sym (build_dedup_key_lem p two name names) ∙ hl) full_l in
    (
      λ h. items_of-Agree one two (name ∷ names) (
          marshal-injective _ _ _ _ k.repr l.repr vk vl made_k made_l
            (apart (hex_text-injective _ _ (sym sum_k ∙ h ∙ sum_l)))),
      λ h.
          let written : ok k.repr ≡ ok l.repr =
            sym made_k ∙ ap marshal (Agree-items_of one two (name ∷ names) h) ∙ made_l in
          let texts : k.repr ≡ l.repr = cc in
          sum_k ∙ ap (λ t. hex_text (p.sha256 t)) texts ∙ sym sum_l,
    )
