-- ===== src/Text.antt =====
-- Go strings: a string is its bytes. The functions of package strings that the source calls.
-- `to_lower` and `to_upper` change ASCII letters and leave other bytes alone.
pub mod Space
pub mod Number
pub mod Plain
pub mod Utf8
use Prim.Native.Char.{code}
use Prim.Native.String.{String}
use snmptrap_relay.Prelude.{
  ℕ, ◌+◌, ◌-◌, ◌≡◌, ◌↔◌, refl, Bool, true, false, ◌&&◌, ◌||◌, List, [], ◌∷◌, ◌++◌, map, arith, leb,
  ◌==◌, if◌then◌else◌, length, drop,
}
use snmptrap_relay.Dict.{Eq}

abbrev pub Text : Type 0
Text = List ℕ

-- The bytes of a literal, which is ASCII wherever it is used here.
unfoldable pub lit : String → Text
lit String.[] = []
lit (String.◌∷◌ c s) = code c ∷ lit s

-- s == t
unfoldable pub same : Text → Text → Bool
same [] [] = true
same [] (y ∷ t) = false
same (x ∷ s) [] = false
same (x ∷ s) (y ∷ t) = x == y && same s t

pub same_iff : (s t : Text) → (same s t ≡ true) ↔ (s ≡ t)
unfolding same
same_iff [] [] = ground arith
same_iff [] (y ∷ t) = ground arith
same_iff (x ∷ s) [] = ground arith
same_iff (x ∷ s) (y ∷ t) = ground (arith, same_iff s t)

pub same_refl : (s : Text) → same s s ≡ true
same_refl s = (same_iff s s).1 refl

instance abbrev pub text_eq : Eq Text
text_eq = record { beq = same; beq_iff = same_iff }

-- s == ""
abbrev pub is_empty : Text → Bool
is_empty [] = true
is_empty (x ∷ s) = false

-- strings.HasPrefix
unfoldable pub has_prefix : Text → Text → Bool
has_prefix s [] = true
has_prefix [] (c ∷ p) = false
has_prefix (x ∷ s) (c ∷ p) = x == c && has_prefix s p

-- strings.TrimPrefix
unfoldable pub trim_prefix : Text → Text → Text
unfolding has_prefix
trim_prefix s p = if has_prefix s p then drop (length p) s else s

-- strings.HasSuffix
unfoldable pub has_suffix : Text → Text → Bool
unfolding same
has_suffix s p = leb (length p) (length s) && same (drop (length s - length p) s) p

-- strings.Contains
unfoldable pub contains : Text → Text → Bool
unfolding has_prefix
contains [] p = has_prefix [] p
contains (x ∷ s) p = has_prefix (x ∷ s) p || contains s p

abbrev pub lower_byte : ℕ → ℕ
lower_byte c = if leb b'A' c && leb c b'Z' then c + 32 else c

upper_byte : ℕ → ℕ
upper_byte c = if leb b'a' c && leb c b'z' then c - 32 else c

-- strings.ToLower
unfoldable pub to_lower : Text → Text
to_lower = map lower_byte

-- strings.ToUpper
unfoldable pub to_upper : Text → Text
unfolding upper_byte
to_upper = map upper_byte

-- `out += sep + parts[i]` over the parts that follow the first
unfoldable pub join_onto : Text → Text → List Text → Text
join_onto sep out [] = out
join_onto sep out (p ∷ ps) = join_onto sep (out ++ (sep ++ p)) ps

-- the source's three copies of strings.Join
unfoldable pub join : Text → List Text → Text
unfolding join_onto
join sep [] = []
join sep (p ∷ ps) = join_onto sep p ps

pub lower_byte_idem : (c : ℕ) → lower_byte (lower_byte c) ≡ lower_byte c
lower_byte_idem c = ground arith

pub to_lower_idem : (s : Text) → to_lower (to_lower s) ≡ to_lower s
unfolding to_lower
to_lower_idem [] = refl
to_lower_idem (c ∷ s) = cc (lower_byte_idem c, to_lower_idem s)

-- What TrimPrefix removes is the prefix.
pub has_prefix-append : (p s : Text) → has_prefix (p ++ s) p ≡ true
unfolding has_prefix
has_prefix-append [] s = refl
has_prefix-append (c ∷ p) s = ground (arith, has_prefix-append p s)
