-- ===== src/Tests/Dedup.antt =====
-- The deduplication store at work.
use snmptrap_relay.Dedup
use snmptrap_relay.Dedup.Invariant.{IsValid, is_full, put-IsValid, new_store-IsValid}
use snmptrap_relay.Dedup.Oldest.{Entry, IsOldest}
use snmptrap_relay.Dedup.Refinement.{memory, Runs, touches, Reach-Runs}
use snmptrap_relay.Dedup.Steps.{here, next, stored, repeated, new_store-Reach-IsValid}
use snmptrap_relay.Dedup.Window.{get-put_window, get-put_ne}
use snmptrap_relay.Dedup.{
  Store, CacheKey, cache_key, key_same, key_eq, new_store, fresh_state, touched, is_expired,
  cleanup_loop, oldest_loop,
}
use snmptrap_relay.Dict
use snmptrap_relay.Model.{seconds, expires_at}
use snmptrap_relay.Prelude.Int.{pos, ltb_ℤ, ◌+ℤ◌}
use snmptrap_relay.Prelude.{
  ◌∷◌, [], ◌≡◌, refl, true, false, ◌||◌, ◌⊎◌, none, some, if◌then◌else◌, [],
}
use snmptrap_relay.Tests.{trap, link_down, link_up, at}
use snmptrap_relay.Text.{lit, same}

-- Everything that a run of the store computes with.
program : Unit {0}
unfolding Dedup.put Dedup.get Dedup.touch Dedup.clear Dedup.cleanup new_store key_same expires_at
    Dict.get Dict.put Dict.delete lit
program = tt

-- A store of two entries at most, after a first alarm.
abbrev one : Store
one =
    (Dedup.put (new_store (pos 2)) (lit "a") (lit "h1") [] (trap link_down (at 10)) (pos 300)
      false).1

-- The same after a second, with another key.
abbrev two : Store
two = (Dedup.put one (lit "a") (lit "h2") [] (trap link_up (at 20)) (pos 300) false).1

one-IsValid : IsValid one
one-IsValid =
    put-IsValid (new_store (pos 2)) (lit "a") (lit "h1") [] (trap link_down (at 10)) (pos 300) false
      (new_store-IsValid (pos 2))

two-IsValid : IsValid two
two-IsValid =
    put-IsValid one (lit "a") (lit "h2") [] (trap link_up (at 20)) (pos 300) false one-IsValid

two_full : is_full two ≡ true
unfolding program
two_full = refl

-- A third key evicts the first, which was seen longest ago.
third_evicts :
    (Dedup.get
      (Dedup.put two (lit "b") (lit "h3") [] (trap link_up (at 30)) (pos 300) false).1
      (lit "a")
      (lit "h1")
      (at 31)).0
    ≡ none
unfolding program
third_evicts = refl

new_store-Reach-IsValid_example : IsValid two
new_store-Reach-IsValid_example = new_store-Reach-IsValid (pos 2) two (
    next (next here (stored (lit "a") (lit "h1") [] (trap link_down (at 10)) (pos 300) false))
      (stored (lit "a") (lit "h2") [] (trap link_up (at 20)) (pos 300) false))

get-put_window_example : (Dedup.get one (lit "a") (lit "h1") (at 309)).0 ≡ (
    if false || ltb_ℤ (at 309) (at 10 +ℤ seconds (pos 300))
    then some (fresh_state (lit "a") (lit "h1") [] (trap link_down (at 10)) (pos 300) false)
    else none)
get-put_window_example =
    get-put_window (new_store (pos 2)) (lit "a") (lit "h1") (at 309) [] (trap link_down (at 10))
      (pos 300) false

get-put_ne_example :
    ((Dedup.get
        (Dedup.put two (lit "b") (lit "h3") [] (trap link_up (at 30)) (pos 300) false).1
        (lit "a")
        (lit "h1")
        (at 31)).0
      ≡ (Dedup.get two (lit "a") (lit "h1") (at 31)).0)
    ⊎ ((e : Entry) × (is_full two ≡ true)
        × (e.0 ≡ cache_key (lit "a") (lit "h1"))
        × (Dict.get (cache_key (lit "a") (lit "h1")) two.states ≡ some e.1)
        × IsOldest e two.states)
unfolding key_same same lit
get-put_ne_example =
    get-put_ne two (cache_key (lit "a") (lit "h1")) (lit "b") (lit "h3") [] (trap link_up (at 30))
      (pos 300) false (at 31) two-IsValid refl

-- The store after a repeat of its first alarm.
Reach-Runs_example :
    Runs two.limit
      (memory two)
      (touches (lit "a") (lit "h1") (trap link_down (at 40)) ∷ [])
      (memory (Dedup.touch two (lit "a") (lit "h1") (trap link_down (at 40))).1)
Reach-Runs_example =
    Reach-Runs (next here (repeated (lit "a") (lit "h1") (trap link_down (at 40)))) two-IsValid
