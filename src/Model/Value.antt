-- ===== src/Model/Value.antt =====
-- internal/model/types.go, MatchSpec: the values that a YAML document decodes to.
-- A float64 and a timestamp are kept as the text that fmt.Sprint gives for them, which is all that
-- the source reads of them.
use snmptrap_relay.Prelude.{
  Bool, true, false, ◌||◌, List, [], ◌∷◌, ◌++◌, Option, none, some, ltb, ◌==◌, if◌then◌else◌,
}
use snmptrap_relay.Prelude.Int.{ℤ}
use snmptrap_relay.Text.Number.{int_text}
use snmptrap_relay.Text.{Text, lit, same, join}

-- `obj` is map[string]any, its entries in the order of a range; `dict` is map[any]any, which the
-- decoder gives for a map with a key that is no string, its pairs in the order in which fmt prints it.
mutual
  pub data Value : Type 0 where
    null : Value
    bool : Bool → Value
    int : ℤ → Value
    scalar : Text → Value
    str : Text → Value
    list : Items → Value
    obj : Fields → Value
    dict : Pairs → Value

  pub data Items : Type 0 where
    nil : Items
    cons : Value → Items → Items

  pub data Fields : Type 0 where
    end : Fields
    field : Text → Value → Fields → Fields

  pub data Pairs : Type 0 where
    stop : Pairs
    pair : Value → Value → Pairs → Pairs

-- m[k]
unfoldable pub field_get : Text → Fields → Option Value
field_get k end = none
field_get k (field j v m) = if same j k then some v else field_get k m

-- m[k] = v
unfoldable pub field_put : Text → Value → Fields → Fields
field_put k v end = field k v end
field_put k v (field j w m) = if same j k then field k v m else field j w (field_put k v m)

-- m[k] read as an interface value: nil where the key is missing
abbrev pub value_or_null : Option Value → Value
value_or_null none = null
value_or_null (some v) = v

unfoldable pub field_value : Text → Fields → Value
unfolding field_get
field_value k m = value_or_null (field_get k m)

-- v != nil
abbrev pub is_present : Value → Bool
is_present null = false
is_present _ = true

-- s, _ := v.(string)
unfoldable pub string_or_empty : Value → Text
string_or_empty (str s) = s
string_or_empty _ = []

-- s < t, byte by byte
text_lt : Text → Text → Bool
text_lt [] [] = false
text_lt [] (y ∷ t) = true
text_lt (x ∷ s) [] = false
text_lt (x ∷ s) (y ∷ t) = ltb x y || (if x == y then text_lt s t else false)

insert_sorted : Text → Text → List (Text × Text) → List (Text × Text)
insert_sorted k v [] = (k, v) ∷ []
insert_sorted k v ((j, w) ∷ m) =
    if text_lt k j then (k, v) ∷ (j, w) ∷ m else (j, w) ∷ insert_sorted k v m

abbrev entry_texts : List (Text × Text) → List Text
entry_texts [] = []
entry_texts ((k, v) ∷ m) = (k ++ (b':' ∷ v)) ∷ entry_texts m

abbrev bracketed : List Text → Text
bracketed parts = b'[' ∷ (join (b' ' ∷ []) parts ++ b']' ∷ [])

-- fmt.Sprint: a map[string]any prints in the order of its keys.
unfoldable mutual
  unfolding lit join text_lt insert_sorted int_text

  pub sprint : Value → Text
  sprint null = lit "<nil>"
  sprint (bool true) = lit "true"
  sprint (bool false) = lit "false"
  sprint (int z) = int_text z
  sprint (scalar s) = s
  sprint (str s) = s
  sprint (list xs) = bracketed (sprint_items xs)
  sprint (obj m) = lit "map" ++ bracketed (entry_texts (sprint_fields m))
  sprint (dict m) = lit "map" ++ bracketed (entry_texts (sprint_pairs m))

  pub sprint_items : Items → List Text
  sprint_items nil = []
  sprint_items (cons x xs) = sprint x ∷ sprint_items xs

  pub sprint_fields : Fields → List (Text × Text)
  sprint_fields end = []
  sprint_fields (field k v m) = insert_sorted k (sprint v) (sprint_fields m)

  pub sprint_pairs : Pairs → List (Text × Text)
  sprint_pairs stop = []
  sprint_pairs (pair k v m) = (sprint k, sprint v) ∷ sprint_pairs m

-- A map[any]any copied into a map[string]any, each key printed.
unfoldable pub printed_keys : Fields → Pairs → Fields
unfolding sprint field_put
printed_keys out stop = out
printed_keys out (pair k v m) = printed_keys (field_put (sprint k) v out) m
