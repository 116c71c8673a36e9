-- ===== src/Text/Plain.antt =====
-- strings.TrimSpace on text that has no white space.
use mathlib.Core.List.{reverse-reverse, reverse-cons}
use snmptrap_relay.Prelude.{◌≡◌, refl, ◌<◌, [], ◌∷◌, ◌++◌, reverse, arith, All}
use snmptrap_relay.Text.Space.{space_width, space_width_rev, skip_spaces, trim_space}
use snmptrap_relay.Text.{Text}

-- Printable ASCII other than the space: what an object identifier is written with.
abbrev pub IsPlain : Text → Type 0
IsPlain = All (λ c. (0x20 < c) × (c < 0x7f))

-- Plain text has no white space at either end.
skip_spaces_plain :
    (s : Text)
    → IsPlain s
    → (skip_spaces space_width 0 s ≡ s) × (skip_spaces space_width_rev 0 s ≡ s)
unfolding skip_spaces space_width space_width_rev
skip_spaces_plain [] h = (refl, refl)
skip_spaces_plain (a ∷ []) h = ground arith
skip_spaces_plain (a ∷ b ∷ []) h = ground arith
skip_spaces_plain (a ∷ b ∷ c ∷ s) h = ground arith

pub IsPlain-append : (s t : Text) → IsPlain s → IsPlain t → IsPlain (s ++ t)
IsPlain-append [] t hs ht = ht
IsPlain-append (c ∷ s) t hs ht = (hs.0, IsPlain-append s t hs.1 ht)

IsPlain-reverse : (s : Text) → IsPlain s → IsPlain (reverse s)
IsPlain-reverse [] h = tt
IsPlain-reverse (c ∷ s) h =
    rw reverse-cons (IsPlain-append (reverse s) (c ∷ []) (IsPlain-reverse s h.1) (h.0, tt))

pub trim_space_plain : (s : Text) → IsPlain s → trim_space s ≡ s
unfolding trim_space
trim_space_plain s h =
    rw ((skip_spaces_plain s h).0, (skip_spaces_plain (reverse s) (IsPlain-reverse s h)).1)
      (reverse-reverse s)
