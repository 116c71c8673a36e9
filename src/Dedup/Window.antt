-- ===== src/Dedup/Window.antt =====
-- internal/dedup/store.go: what Get answers after each method, for the same key and for every other.
use snmptrap_relay.Dedup.Cleanup.{get-cleanup_loop}
use snmptrap_relay.Dedup.Invariant.{IsValid, is_full}
use snmptrap_relay.Dedup.Oldest.{Entry, IsOldest, evict_oldest-IsEvicted}
use snmptrap_relay.Dedup.{
  CacheKey, key_eq, key_same, key_same_iff, Store, cache_key, is_expired, live, cleanup, get,
  make_room, fresh_state, put, touched, touch, clear,
}
use snmptrap_relay.Dict
use snmptrap_relay.Dict.{get-put, get-delete}
use snmptrap_relay.Model.{TrapEvent, DedupState, expires_at, seconds}
use snmptrap_relay.Prelude.Int.{ℤ, ltb_ℤ, ◌≤ℤ◌, ◌+ℤ◌}
use snmptrap_relay.Prelude.{
  ◌≡◌, ◌∙◌, refl, sym, ap, Option, none, some, arith, true, false, Bool, ◌||◌, if◌then◌else◌,
  Option-cases, Bool-cases, inl, inr, ◌⊎◌,
}
use mathlib.Core.Option
use snmptrap_relay.Text.{Text}

-- Get answers what is stored and not expired.
pub get-live :
    (s : Store) (rule_id key_hash : Text) (now : ℤ)
    → (get s rule_id key_hash now).0 ≡ live now (Dict.get (cache_key rule_id key_hash) s.states)
unfolding get live
get-live s rule_id key_hash now = ground arith

-- What has expired stays expired.
pub live_mono :
    (now later : ℤ) (o : Option DedupState) → now ≤ℤ later → live later (live now o) ≡ live later o
unfolding live is_expired
live_mono now later none h = refl
live_mono now later (some state) h = ground arith

-- What Get leaves in the store, key by key.
pub get-after_get :
    (s : Store) (rule_id key_hash : Text) (now : ℤ) (k : CacheKey)
    → Dict.get k (get s rule_id key_hash now).1.states ≡ (
        if key_same (cache_key rule_id key_hash) k
        then live now (Dict.get k s.states)
        else Dict.get k s.states)
unfolding get live
get-after_get s rule_id key_hash now k =
    let key = cache_key rule_id key_hash in
    ground (arith, get-delete key k s.states, key_same_iff key k)

live-none : (now : ℤ) → live now none ≡ none
unfolding live
live-none now = refl

-- A suppressed repeat does not prolong the window.
live-touched :
    (now : ℤ) (state : DedupState) (event : TrapEvent)
    → live now (some (touched state event))
      ≡ Option.map (λ old. touched old event) (live now (some state))
unfolding live is_expired touched expires_at
live-touched now state event = ground arith

module _ (s : Store) (rule_id key_hash : Text) (later : ℤ) where
  -- On a valid store, a Get at the time of a Cleanup or later finds the same after the Cleanup as
  -- without it.
  pub get-cleanup :
      (now : ℤ)
      → IsValid s
      → now ≤ℤ later
      → (get (cleanup s now).1 rule_id key_hash later).0 ≡ (get s rule_id key_hash later).0
  unfolding cleanup
  get-cleanup now v h =
      let key = cache_key rule_id key_hash in
      get-live (cleanup s now).1 rule_id key_hash later
      ∙ ap (live later) (get-cleanup_loop now key s.states v.distinct)
      ∙ live_mono now later (Dict.get key s.states) h
      ∙ sym (get-live s rule_id key_hash later)

  -- A Get at the time of another Get or later finds the same after that Get as without it.
  pub get-get :
      (rule_id' key_hash' : Text) (now : ℤ)
      → now ≤ℤ later
      → (get (get s rule_id' key_hash' now).1 rule_id key_hash later).0
        ≡ (get s rule_id key_hash later).0
  get-get rule_id' key_hash' now h =
      let key = cache_key rule_id key_hash in
      ground (
        arith,
        get-live (get s rule_id' key_hash' now).1 rule_id key_hash later,
        get-live s rule_id key_hash later,
        get-after_get s rule_id' key_hash' now key,
        live_mono now later (Dict.get key s.states),
      )

  -- After Clear of a key, Get finds nothing for this key, and for any other what it found before.
  pub get-clear :
      (rule_id' key_hash' : Text)
      → (get (clear s rule_id' key_hash').1 rule_id key_hash later).0 ≡ (
          if key_same (cache_key rule_id' key_hash') (cache_key rule_id key_hash)
          then none
          else (get s rule_id key_hash later).0)
  unfolding clear live
  get-clear rule_id' key_hash' =
      let key = cache_key rule_id key_hash in
      let key' = cache_key rule_id' key_hash' in
      ground (
        arith,
        get-live (clear s rule_id' key_hash').1 rule_id key_hash later,
        get-live s rule_id key_hash later,
        get-delete key' key s.states,
      )

  -- After Touch of a key, Get at any time finds for this key what it found before, with the event's
  -- receiving time as the last and one suppression more, and for any other key what it found before.
  pub get-touch :
      (rule_id' key_hash' : Text) (event : TrapEvent)
      → (get (touch s rule_id' key_hash' event).1 rule_id key_hash later).0 ≡ (
          if key_same (cache_key rule_id' key_hash') (cache_key rule_id key_hash)
          then Option.map (λ state. touched state event) (get s rule_id key_hash later).0
          else (get s rule_id key_hash later).0)
  unfolding touch
  get-touch rule_id' key_hash' event =
      let key = cache_key rule_id key_hash in
      let key' = cache_key rule_id' key_hash' in
      elim (Option-cases (Dict.get key' s.states)) [
        | inl missing ↦
            rw (missing, touch)
              (ground
                (arith, key_same_iff key' key, get-live s rule_id key_hash later, live-none later))
        | inr (old, found) ↦
            rw (found, touch)
              (ground (
                arith,
                key_same_iff key' key,
                get-live (after_touch old key') rule_id key_hash later,
                get-live s rule_id key_hash later,
                get-put key' key (touched old event) s.states,
                live-touched later old event,
              ))
      ]
    where
      after_touch : DedupState → CacheKey → Store
      after_touch old key' = record s { states = Dict.put key' (touched old event) s.states }

  -- After Put, Get for the same key finds the new state if it is held until a clear or the time of the
  -- Get is before the event's receiving time plus the TTL, and else finds nothing.
  pub get-put_window :
      (key_repr : Text) (event : TrapEvent) (ttl : ℤ) (hold : Bool)
      → (get (put s rule_id key_hash key_repr event ttl hold).1 rule_id key_hash later).0 ≡ (
          if hold || ltb_ℤ later (event.received_at +ℤ seconds ttl)
          then some (fresh_state rule_id key_hash key_repr event ttl hold)
          else none)
  unfolding put live is_expired fresh_state expires_at
  get-put_window key_repr event ttl hold =
      let key = cache_key rule_id key_hash in
      let state = fresh_state rule_id key_hash key_repr event ttl hold in
      ground (
        arith,
        get-live (put s rule_id key_hash key_repr event ttl hold).1 rule_id key_hash later,
        get-put key key state (make_room s).states,
        key_same_iff key key,
      )

-- On a valid store, after Put of a key, Get for another key finds what it found before, unless the
-- store was full and the other key is that of an entry than which none was last seen earlier.
pub get-put_ne :
    (s : Store) (k : CacheKey) (rule_id key_hash key_repr : Text) (event : TrapEvent) (ttl : ℤ)
    (hold : Bool) (later : ℤ)
    → IsValid s
    → key_same (cache_key rule_id key_hash) k ≡ false
    → ((get (put s rule_id key_hash key_repr event ttl hold).1 k.rule_id k.key_hash later).0
        ≡ (get s k.rule_id k.key_hash later).0)
      ⊎ ((e : Entry) × (is_full s ≡ true)
          × (e.0 ≡ k)
          × (Dict.get k s.states ≡ some e.1)
          × IsOldest e s.states)
unfolding put make_room
get-put_ne s k rule_id key_hash key_repr event ttl hold later v ne =
    let key = cache_key rule_id key_hash in
    let state = fresh_state rule_id key_hash key_repr event ttl hold in
    let after = (put s rule_id key_hash key_repr event ttl hold).1 in
    let seen = get-live after k.rule_id k.key_hash later in
    let seen_before = get-live s k.rule_id k.key_hash later in
    let wrote = get-put key k state (make_room s).states in
    elim (Bool-cases (is_full s)) [
      | inr open_ ↦ inl (ground arith)
      | inl full ↦
          let (e, gone) = evict_oldest-IsEvicted s v.distinct (ground arith) in
          elim (Bool-cases (key_same e.0 k)) [
            | inl same_key ↦
                let is_k = (key_same_iff e.0 k).0 same_key in
                inr (e, full, is_k, rw (← is_k) gone.present, gone.oldest)
            | inr other ↦
                let dropped = get-delete e.0 k s.states in inl (ground (arith, gone.removed))
          ]
    ]
