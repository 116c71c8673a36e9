-- ===== src/Text/Utf8/Ascii.antt =====
-- Texts of ASCII characters, as numbers and bytes are printed: they are UTF-8.
use snmptrap_relay.Prelude.Int.{ℤ, pos, negsuc}
use snmptrap_relay.Prelude.{
  ℕ, zero, suc, ◌≡◌, ◌+◌, ◌/◌, ◌%◌, ◌<◌, refl, true, List, [], ◌∷◌, ◌++◌, All, ltb, lt→ltb,
  Bool-cases, inl, inr, arith,
}
use snmptrap_relay.Text.Number.{digits_onto, nat_text, int_text, hex_byte, hex_text}
use snmptrap_relay.Text.Utf8.Runes.{ascii_first}
use snmptrap_relay.Text.Utf8.{valid_from, valid}
use snmptrap_relay.Text.{Text, join, join_onto}

abbrev pub IsAscii : Text → Type 0
IsAscii = All (λ (c : ℕ). c < 0x80)

-- Numbers that stand for bytes.
abbrev pub AreBytes : List ℕ → Type 0
AreBytes = All (λ (b : ℕ). b < 0x100)

pub All-append {ℓ κ} :
    {A : Type ℓ} (P : A → Type κ) (xs ys : List A) → All P xs → All P ys → All P (xs ++ ys)
All-append P [] ys h k = k
All-append P (x ∷ xs) ys h k = (h.0, All-append P xs ys h.1 k)

pub All-append_parts {ℓ κ} :
    {A : Type ℓ} (P : A → Type κ) (xs ys : List A) → All P (xs ++ ys) → All P xs × All P ys
All-append_parts P [] ys h = (tt, h)
All-append_parts P (x ∷ xs) ys h =
    let (left, right) = All-append_parts P xs ys h.1 in ((h.0, left), right)

ascii_from : (s : Text) → IsAscii s → valid_from 0 s ≡ true
unfolding valid_from
ascii_from [] h = refl
ascii_from (c ∷ s) h = rw (ascii_first c s (lt→ltb c 0x80 h.0), valid_from) (ascii_from s h.1)

-- A text of ASCII characters is UTF-8.
pub IsAscii-valid : (s : Text) → IsAscii s → valid s ≡ true
unfolding valid
IsAscii-valid s h = ascii_from s h

digits_onto-IsAscii : (f n : ℕ) (out : Text) → IsAscii out → IsAscii (digits_onto f n out)
unfolding digits_onto
digits_onto-IsAscii zero n out h = h
digits_onto-IsAscii (suc f) n out h = elim (Bool-cases (ltb n 10)) [
  | inl last ↦ rw last (ground arith, h)
  | inr more ↦ rw more (digits_onto-IsAscii f (n / 10) ((b'0' + n % 10) ∷ out) (omega arith, h))
]

pub nat_text-IsAscii : (n : ℕ) → IsAscii (nat_text n)
unfolding nat_text
nat_text-IsAscii n = digits_onto-IsAscii (suc n) n [] tt

pub int_text-IsAscii : (z : ℤ) → IsAscii (int_text z)
unfolding int_text
int_text-IsAscii (pos n) = nat_text-IsAscii n
int_text-IsAscii (negsuc n) = (omega arith, nat_text-IsAscii (suc n))

hex_byte-IsAscii : (b : ℕ) → b < 0x100 → IsAscii (hex_byte b)
unfolding hex_byte
hex_byte-IsAscii b h = ground arith

pub hex_text-IsAscii : (bs : List ℕ) → AreBytes bs → IsAscii (hex_text bs)
unfolding hex_text
hex_text-IsAscii [] h = tt
hex_text-IsAscii (b ∷ bs) h =
    All-append _ (hex_byte b) (hex_text bs) (hex_byte-IsAscii b h.0) (hex_text-IsAscii bs h.1)

join_onto-IsAscii :
    (sep out : Text) (parts : List Text)
    → IsAscii sep
    → IsAscii out
    → All IsAscii parts
    → IsAscii (join_onto sep out parts)
unfolding join_onto
join_onto-IsAscii sep out [] hs ho h = ho
join_onto-IsAscii sep out (p ∷ ps) hs ho h =
    join_onto-IsAscii sep (out ++ (sep ++ p)) ps hs
      (All-append _ out (sep ++ p) ho (All-append _ sep p hs h.0)) h.1

pub join-IsAscii :
    (sep : Text) (parts : List Text) → IsAscii sep → All IsAscii parts → IsAscii (join sep parts)
unfolding join
join-IsAscii sep [] hs h = tt
join-IsAscii sep (p ∷ ps) hs h = join_onto-IsAscii sep p ps hs h.0 h.1
