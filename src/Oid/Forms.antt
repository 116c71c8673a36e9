-- ===== src/Oid/Forms.antt =====
-- internal/oidutil/oidutil.go: the two spellings of an object identifier are one to Lookup.
use snmptrap_relay.Dict
use snmptrap_relay.Oid.{dot, normalize, or_else, lookup}
use snmptrap_relay.Prelude.{◌≡◌, refl, List, ◌++◌, none, arith, ◌⊎◌, false}
use snmptrap_relay.Text.Plain.{IsPlain, trim_space_plain}
use snmptrap_relay.Text.{Text, same_iff, text_eq, has_prefix, trim_prefix}

-- Lookup finds the value of the first of the key, its normal form, and its normal form behind a dot
-- that the map holds.
pub lookup_lem :
    (m : List (Text × Text)) (key : Text)
    → lookup m key
      ≡ or_else
          (Dict.get key m)
          (or_else (Dict.get (normalize key) m) (Dict.get (dot ++ normalize key) m))
unfolding lookup
lookup_lem m key = ground (
  arith,
  same_iff (normalize key) key,
  same_iff (dot ++ normalize key) key,
  same_iff (dot ++ normalize key) (normalize key),
)

-- An object identifier in its canonical spelling, which begins with no dot.
pub record IsOid (k : Text) : Type 0 where
  pub plain : IsPlain k
  pub undotted : has_prefix k dot ≡ false

-- An identifier of plain characters that begins with no dot is the normal form of itself, and of
-- itself behind a dot.
pub normalize-IsOid : (k : Text) → IsOid k → (normalize k ≡ k) × (normalize (dot ++ k) ≡ k)
unfolding normalize has_prefix trim_prefix
normalize-IsOid k h = (
  rw (trim_space_plain k h.plain, h.undotted) refl,
  rw (trim_space_plain (dot ++ k) ((omega arith, omega arith), h.plain)) refl,
)

-- For an identifier of plain characters that begins with no dot, and that the map does not hold both
-- with and without a leading dot, Lookup finds the same with either spelling: the value of the
-- spelling that the map holds.
pub lookup_dotted :
    (m : List (Text × Text)) (k : Text)
    → IsOid k
    → (Dict.get k m ≡ none) ⊎ (Dict.get (dot ++ k) m ≡ none)
    → (lookup m k ≡ or_else (Dict.get k m) (Dict.get (dot ++ k) m))
      × (lookup m (dot ++ k) ≡ lookup m k)
lookup_dotted m k h one =
    let (plain, dotted) = normalize-IsOid k h in
    ground (arith, lookup_lem m k, lookup_lem m (dot ++ k))
