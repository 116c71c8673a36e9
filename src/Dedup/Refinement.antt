-- ===== src/Dedup/Refinement.antt =====
-- internal/dedup/store.go: the store as a function from keys to states, which knows no order, no list and
-- no limit, and the steps that it makes there.
use snmptrap_relay.Dedup.Cleanup.{get-cleanup_loop}
use snmptrap_relay.Dedup.Invariant.{IsValid, is_full}
use snmptrap_relay.Dedup.Oldest.{Entry, IsEvicted, evict_oldest-IsEvicted}
use snmptrap_relay.Dedup.Steps.{
  Step, cleaned, got, stored, repeated, cleared, reordered, Reach, here, next, Reach-IsValid,
}
use snmptrap_relay.Dedup.Window.{get-after_get}
use snmptrap_relay.Dedup.{
  CacheKey, cache_key, key_eq, key_same, key_same_iff, Store, cleanup, get, put, touch, clear,
  touched, live, fresh_state, make_room, evict_oldest,
}
use snmptrap_relay.Dict
use snmptrap_relay.Dict.{All-get, get-put, get-delete}
use snmptrap_relay.Model.{TrapEvent, DedupState}
use snmptrap_relay.Prelude.Int.{ℤ, pos, ◌≤ℤ◌, ◌<ℤ◌}
use snmptrap_relay.Prelude.{
  ℕ, ◌≡◌, ◌∙◌, ◌⊎◌, refl, ap, sym, length, List, [], ◌∷◌, Bool, Option, none, some, Option-cases,
  Bool-cases, inl, inr, arith, if◌then◌else◌,
}
use snmptrap_relay.Text.{Text}
use mathlib.Core.Option
use mathlib.Core.Path.{subst, fun_ext}

-- What is remembered for each key.
abbrev pub Memory : Type 0
Memory = CacheKey → Option DedupState

abbrev pub memory : Store → Memory
memory s k = Dict.get k s.states

-- A memory that is changed at one key only.
abbrev pub with_key : CacheKey → Option DedupState → Memory → Memory
with_key key o f k = if key_same key k then o else f k

-- A memory of so many keys: a list without a key twice has the same.
abbrev pub Holds : Memory → ℕ → Type 0
Holds f n =
    (m : List Entry) × Dict.IsDistinct m × ((k : CacheKey) → Dict.get k m ≡ f k) × (length m ≡ n)

-- A key that is remembered, and than which none was last seen earlier.
abbrev pub IsVictim : Memory → CacheKey → Type 0
IsVictim f victim =
    (state : DedupState) × (f victim ≡ some state)
    × ((k : CacheKey) (other : DedupState)
        → f k ≡ some other
        → state.last_seen_at ≤ℤ other.last_seen_at)

-- The calls that change the store, with their arguments.
pub data Call : Type 0 where
  cleans : ℤ → Call
  looks_up : Text → Text → ℤ → Call
  stores : Text → Text → Text → TrapEvent → ℤ → Bool → Call
  touches : Text → Text → TrapEvent → Call
  clears : Text → Text → Call

-- What each call makes of a memory, under a limit. Put on a memory that holds as many keys as a positive limit
-- forgets one of the keys last seen first; no other call forgets what has not expired, but Clear its own key.
abbrev pub Does : ℤ → Call → Memory → Memory → Type 0
Does limit (cleans now) f g = (k : CacheKey) → g k ≡ live now (f k)
Does limit (looks_up rule_id key_hash now) f g =
    let key = cache_key rule_id key_hash in
    (k : CacheKey) → g k ≡ with_key key (live now (f key)) f k
Does limit (stores rule_id key_hash key_repr event ttl hold) f g =
    let key = cache_key rule_id key_hash in
    let state = some (fresh_state rule_id key_hash key_repr event ttl hold) in
    (n : ℕ) × Holds f n
    × ((((limit ≤ℤ pos 0) ⊎ (pos n <ℤ limit)) × ((k : CacheKey) → g k ≡ with_key key state f k))
        ⊎ ((pos 0 <ℤ limit)
            × (limit ≤ℤ pos n)
            × (victim : CacheKey) × IsVictim f victim
            × ((k : CacheKey) → g k ≡ with_key key state (with_key victim none f) k)))
Does limit (touches rule_id key_hash event) f g =
    let key = cache_key rule_id key_hash in
    (k : CacheKey) → g k ≡ with_key key (Option.map (λ state. touched state event) (f key)) f k
Does limit (clears rule_id key_hash) f g =
    (k : CacheKey) → g k ≡ with_key (cache_key rule_id key_hash) none f k

cleanup-Does :
    (s : Store) (now : ℤ)
    → IsValid s
    → Does s.limit (cleans now) (memory s) (memory (cleanup s now).1)
unfolding cleanup
cleanup-Does s now v k = get-cleanup_loop now k s.states v.distinct

get-Does :
    (s : Store) (rule_id key_hash : Text) (now : ℤ)
    → Does s.limit
        (looks_up rule_id key_hash now)
        (memory s)
        (memory (get s rule_id key_hash now).1)
get-Does s rule_id key_hash now k =
    ground
      (arith, get-after_get s rule_id key_hash now k, key_same_iff (cache_key rule_id key_hash) k)

clear-Does :
    (s : Store) (rule_id key_hash : Text)
    → Does s.limit (clears rule_id key_hash) (memory s) (memory (clear s rule_id key_hash).1)
unfolding clear
clear-Does s rule_id key_hash k = get-delete (cache_key rule_id key_hash) k s.states

touch-Does :
    (s : Store) (rule_id key_hash : Text) (event : TrapEvent)
    → Does s.limit
        (touches rule_id key_hash event)
        (memory s)
        (memory (touch s rule_id key_hash event).1)
unfolding touch
touch-Does s rule_id key_hash event k =
    let key = cache_key rule_id key_hash in
    elim (Option-cases (Dict.get key s.states)) [
      | inl missing ↦ rw (missing, touch) (ground (arith, missing, key_same_iff key k))
      | inr (state, found) ↦ rw (found, touch) (get-put key k (touched state event) s.states)
    ]

-- The entry that evictOldestLocked removes.
IsEvicted-IsVictim : (s : Store) (e : Entry) → IsEvicted s e → IsVictim (memory s) e.0
IsEvicted-IsVictim s e gone = (
  e.1,
  gone.present,
  λ k other found.
      All-get (λ x. e.1.last_seen_at ≤ℤ x.1.last_seen_at) k other s.states gone.oldest found,
)

put-Does :
    (s : Store) (rule_id key_hash key_repr : Text) (event : TrapEvent) (ttl : ℤ) (hold : Bool)
    → IsValid s
    → Does s.limit
        (stores rule_id key_hash key_repr event ttl hold)
        (memory s)
        (memory (put s rule_id key_hash key_repr event ttl hold).1)
unfolding put make_room
put-Does s rule_id key_hash key_repr event ttl hold v =
    let key = cache_key rule_id key_hash in
    let state = fresh_state rule_id key_hash key_repr event ttl hold in
    let stored : (m : Store) (k : CacheKey)
        → memory (record m { states = Dict.put key state m.states }) k
          ≡ with_key key (some state) (memory m) k =
      λ m k. get-put key k state m.states in
    (
      length s.states,
      (s.states, v.distinct, λ k. refl, refl),
      elim (Bool-cases (is_full s)) [
        | inr open_ ↦ inl (ground (arith, open_), λ k. rw (open_, make_room) (stored s k))
        | inl full ↦
            let (e, gone) = evict_oldest-IsEvicted s v.distinct (ground arith) in
            inr (
              ground (arith, full),
              ground (arith, full),
              e.0,
              IsEvicted-IsVictim s e gone,
              λ k.
                  rw (full, make_room)
                    (rw gone.removed (
                      stored (record s { states = Dict.delete e.0 s.states }) k
                      ∙ ap (λ o. if key_same key k then some state else o)
                          (get-delete e.0 k s.states))),
            )
      ],
    )

-- The runs of the memory, by their calls, the last call first.
pub data Runs (limit : ℤ) (f : Memory) : List Call → Memory → Type 0 where
  at_start : Runs limit f [] f
  then_does :
      {g h : Memory} {calls : List Call} (call : Call)
      → Runs limit f calls g
      → Does limit call g h
      → Runs limit f (call ∷ calls) h

-- The calls of a run of the store, the last one first; a reordering of the map is none.
abbrev pub calls_of : {s t : Store} → Reach s t → List Call
calls_of here = []
calls_of (next r (cleaned now)) = cleans now ∷ calls_of r
calls_of (next r (got rule_id key_hash now)) = looks_up rule_id key_hash now ∷ calls_of r
calls_of (next r (stored rule_id key_hash key_repr event ttl hold)) =
    stores rule_id key_hash key_repr event ttl hold ∷ calls_of r
calls_of (next r (repeated rule_id key_hash event)) = touches rule_id key_hash event ∷ calls_of r
calls_of (next r (cleared rule_id key_hash)) = clears rule_id key_hash ∷ calls_of r
calls_of (next r (reordered o)) = calls_of r

-- No call changes the limit.
Step-limit : {s t : Store} → Step s t → t.limit ≡ s.limit
unfolding cleanup get put make_room evict_oldest touch clear
Step-limit (cleaned now) = refl
Step-limit (got rule_id key_hash now) = ground arith
Step-limit (stored rule_id key_hash key_repr event ttl hold) = ground arith
Step-limit (repeated rule_id key_hash event) = ground arith
Step-limit (cleared rule_id key_hash) = refl
Step-limit (reordered r) = r.same_limit

Reach-limit : {s t : Store} → Reach s t → t.limit ≡ s.limit
Reach-limit here = refl
Reach-limit (next r st) = Step-limit st ∙ Reach-limit r

Step-Runs :
    {s t u : Store} (r : Reach s t) (st : Step t u)
    → IsValid t
    → Runs s.limit (memory s) (calls_of r) (memory t)
    → Runs s.limit (memory s) (calls_of (next r st)) (memory u)
Step-Runs {s} {t} r (cleaned now) v run = then_does (cleans now) run (cleanup-Does t now v)
Step-Runs {s} {t} r (got rule_id key_hash now) v run =
    then_does (looks_up rule_id key_hash now) run (get-Does t rule_id key_hash now)
Step-Runs {s} {t} {u} r (stored rule_id key_hash key_repr event ttl hold) v run =
    let call = stores rule_id key_hash key_repr event ttl hold in
    then_does call run (
      subst (λ limit. Does limit call (memory t) (memory u)) (Reach-limit r)
        (put-Does t rule_id key_hash key_repr event ttl hold v))
Step-Runs {s} {t} r (repeated rule_id key_hash event) v run =
    then_does (touches rule_id key_hash event) run (touch-Does t rule_id key_hash event)
Step-Runs {s} {t} r (cleared rule_id key_hash) v run =
    then_does (clears rule_id key_hash) run (clear-Does t rule_id key_hash)
Step-Runs {s} r (reordered o) v run =
    subst (λ f. Runs s.limit (memory s) (calls_of r) f) (sym (fun_ext o.same_entries)) run

-- The store refines a memory from keys to states, which has no list and no order: from a valid store, every
-- sequence of calls, with reorderings of the map in between, is for the memory a run of the same calls with
-- the same arguments, under the store's limit. There Cleanup forgets what has expired; Get forgets its key if that
-- has expired; Touch and Clear change their own key alone; and Put remembers the new state, and if the memory
-- holds as many keys as a positive limit it forgets first one key than which none was last seen earlier.
pub Reach-Runs :
    {s t : Store} (r : Reach s t) → IsValid s → Runs s.limit (memory s) (calls_of r) (memory t)
Reach-Runs here v = at_start
Reach-Runs (next r st) v = Step-Runs r st (Reach-IsValid r v) (Reach-Runs r v)
