-- ===== src/Dedup/Cleanup.antt =====
-- internal/dedup/store.go, Cleanup.
use snmptrap_relay.Dedup.{CacheKey, key_eq, key_same_iff, is_expired, live, cleanup_loop}
use snmptrap_relay.Dict
use snmptrap_relay.Model.{DedupState}
use snmptrap_relay.Prelude.Int.{ℤ}
use snmptrap_relay.Prelude.{◌≡◌, ◌+◌, List, [], ◌∷◌, arith, All, true, false, length}

-- What is left is what was live, key by key.
pub get-cleanup_loop :
    (now : ℤ) (k : CacheKey) (m : List (CacheKey × DedupState))
    → Dict.IsDistinct m
    → Dict.get k (cleanup_loop now m).1 ≡ live now (Dict.get k m)
unfolding cleanup_loop Dict.get live
get-cleanup_loop now k [] d = ground arith
get-cleanup_loop now k ((i, state) ∷ m) d =
    ground (arith, get-cleanup_loop now k m d.1, key_same_iff i k)

pub cleanup_loop-IsDistinct :
    (now : ℤ) (m : List (CacheKey × DedupState))
    → Dict.IsDistinct m
    → Dict.IsDistinct (cleanup_loop now m).1
unfolding cleanup_loop live
cleanup_loop-IsDistinct now [] d = d
cleanup_loop-IsDistinct now ((i, state) ∷ m) d =
    ground (arith, cleanup_loop-IsDistinct now m d.1, get-cleanup_loop now i m d.1)

-- Every entry is either returned or kept.
pub cleanup_loop_count :
    (now : ℤ) (m : List (CacheKey × DedupState))
    → length (cleanup_loop now m).0 + length (cleanup_loop now m).1 ≡ length m
unfolding cleanup_loop
cleanup_loop_count now [] = omega arith
cleanup_loop_count now ((i, state) ∷ m) = ground (arith, cleanup_loop_count now m)

pub cleanup_loop-All {ℓ} :
    (P : CacheKey × DedupState → Type ℓ) (now : ℤ) (m : List (CacheKey × DedupState))
    → All P m
    → All P (cleanup_loop now m).1
unfolding cleanup_loop
cleanup_loop-All P now [] h = h
cleanup_loop-All P now ((i, state) ∷ m) h = ground (arith, cleanup_loop-All P now m h.1)

-- A state that Cleanup returns has expired, and is not held until a clear.
abbrev pub IsOver : ℤ → DedupState → Type 0
IsOver now state = (state.hold_until_clear ≡ false) × (is_expired state now ≡ true)

pub cleanup_loop-IsOver :
    (now : ℤ) (m : List (CacheKey × DedupState)) → All (IsOver now) (cleanup_loop now m).0
unfolding cleanup_loop
cleanup_loop-IsOver now [] = tt
cleanup_loop-IsOver now ((i, state) ∷ m) = ground (arith, cleanup_loop-IsOver now m)
