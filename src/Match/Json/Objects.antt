-- ===== src/Match/Json/Objects.antt =====
-- The JSON text of the items of a key: no two lists of items are written alike.
use mathlib.Core.List.{append_assoc}
use snmptrap_relay.Match.Json.Strings.{quoted-injective}
use snmptrap_relay.Match.Json.{KeyItem, quoted, item_json, marshal}
use snmptrap_relay.Prelude.{◌≡◌, refl, sym, ap, ◌∙◌, List, [], ◌∷◌, ◌++◌, map, true, All, drop}
use snmptrap_relay.Result.{ok}
use snmptrap_relay.Text.Utf8.{valid}
use snmptrap_relay.Text.{Text, lit, join, join_onto}

-- Both texts of an item are UTF-8.
abbrev pub IsValidItem : KeyItem → Type 0
IsValidItem i = (valid i.field ≡ true) × (valid i.value ≡ true)

same_item : (i j : KeyItem) → i.field ≡ j.field → i.value ≡ j.value → i ≡ j
same_item i j f v = cc

-- An item and what follows it.
item_text :
    (i : KeyItem) (x : Text)
    → item_json i ++ x
      ≡ lit "{\"field\":" ++ (quoted i.field ++ (lit ",\"value\":" ++ (quoted i.value ++ b'}' ∷ x)))
unfolding item_json
item_text i x = simp append_assoc

item_json-injective :
    (i j : KeyItem) (x y : Text)
    → IsValidItem i
    → IsValidItem j
    → item_json i ++ x ≡ item_json j ++ y
    → (i ≡ j) × (x ≡ y)
unfolding lit
item_json-injective i j x y vi vj e =
    let (f, e1) =
      quoted-injective i.field j.field _ _ vi.0 vj.0
        (ap (drop 9) (sym (item_text i x) ∙ e ∙ item_text j y)) in
    let (v, e2) = quoted-injective i.value j.value _ _ vi.1 vj.1 (ap (drop 9) e1) in
    (same_item i j f v, ap (drop 1) e2)

-- The items that follow the first.
abbrev behind : List KeyItem → Text
behind [] = b']' ∷ []
behind (i ∷ is) = b',' ∷ (item_json i ++ behind is)

join_onto-behind :
    (out : Text) (is : List KeyItem)
    → join_onto (b',' ∷ []) out (map item_json is) ++ b']' ∷ [] ≡ out ++ behind is
unfolding join_onto
join_onto-behind out [] = refl
join_onto-behind out (i ∷ is) =
    simp (join_onto-behind (out ++ (b',' ∷ item_json i)) is, append_assoc)

behind-injective :
    (is js : List KeyItem)
    → All IsValidItem is
    → All IsValidItem js
    → behind is ≡ behind js
    → is ≡ js
behind-injective [] [] vi vj e = refl
behind-injective [] (j ∷ js) vi vj e = cc
behind-injective (i ∷ is) [] vi vj e = cc
behind-injective (i ∷ is) (j ∷ js) vi vj e =
    let (first, rest) = item_json-injective i j (behind is) (behind js) vi.0 vj.0 (ap (drop 1) e) in
    cc (first, behind-injective is js vi.1 vj.1 rest)

-- The text between the brackets, with the one that closes.
abbrev inside : List KeyItem → Text
inside is = join (b',' ∷ []) (map item_json is) ++ b']' ∷ []

inside-behind : (i : KeyItem) (is : List KeyItem) → inside (i ∷ is) ≡ item_json i ++ behind is
unfolding join
inside-behind i is = join_onto-behind (item_json i) is

inside-injective :
    (i j : KeyItem) (is js : List KeyItem)
    → All IsValidItem (i ∷ is)
    → All IsValidItem (j ∷ js)
    → inside (i ∷ is) ≡ inside (j ∷ js)
    → ◌≡◌ {A = List KeyItem} (i ∷ is) (j ∷ js)
inside-injective i j is js vi vj e =
    let (first, rest) =
      item_json-injective i j (behind is) (behind js) vi.0 vj.0
        (sym (inside-behind i is) ∙ e ∙ inside-behind j js) in
    cc (first, behind-injective is js vi.1 vj.1 rest)

-- The text of one item or more, as Marshal returns it.
pub marshal-injective :
    (i j : KeyItem) (is js : List KeyItem) (x y : Text)
    → All IsValidItem (i ∷ is)
    → All IsValidItem (j ∷ js)
    → marshal (i ∷ is) ≡ ok x
    → marshal (j ∷ js) ≡ ok y
    → x ≡ y
    → ◌≡◌ {A = List KeyItem} (i ∷ is) (j ∷ js)
unfolding marshal
marshal-injective i j is js x y vi vj hx hy e =
    let texts : b'[' ∷ inside (i ∷ is) ≡ b'[' ∷ inside (j ∷ js) = cc in
    inside-injective i j is js vi vj (ap (drop 1) texts)
