-- ===== src/Dedup/Steps.antt =====
-- internal/dedup/store.go: the store under any sequence of calls. The workers and the cleanup ticker
-- call the methods in some order, each call under the mutex, and the map may change its range order.
use snmptrap_relay.Dedup.Invariant.{
  IsKeyed, IsValid, new_store-IsValid, cleanup-IsValid, get-IsValid, put-IsValid, touch-IsValid,
  clear-IsValid,
}
use snmptrap_relay.Dedup.Oldest.{Entry}
use snmptrap_relay.Dedup.{
  CacheKey, key_eq, key_same_iff, Store, new_store, cleanup, get, put, touch, clear,
}
use snmptrap_relay.Dict
use snmptrap_relay.Dict.{All-get}
use snmptrap_relay.Model.{TrapEvent, DedupState}
use snmptrap_relay.Prelude.Int.{ℤ}
use snmptrap_relay.Prelude.{◌≡◌, List, [], ◌∷◌, some, arith, All, Bool, length, sym, ◌∙◌}
use snmptrap_relay.Text.{Text}

-- The same map in another order.
pub record IsReordering (s t : Store) : Type 0 where
  pub same_limit : t.limit ≡ s.limit
  pub same_length : length t.states ≡ length s.states
  pub distinct : Dict.IsDistinct t.states
  pub same_entries : (k : CacheKey) → Dict.get k t.states ≡ Dict.get k s.states

pub data Step (s : Store) : Store → Type 0 where
  cleaned : (now : ℤ) → Step s (cleanup s now).1
  got : (rule_id key_hash : Text) (now : ℤ) → Step s (get s rule_id key_hash now).1
  stored :
      (rule_id key_hash key_repr : Text) (event : TrapEvent) (ttl : ℤ) (hold : Bool)
      → Step s (put s rule_id key_hash key_repr event ttl hold).1
  repeated :
      (rule_id key_hash : Text) (event : TrapEvent) → Step s (touch s rule_id key_hash event).1
  cleared : (rule_id key_hash : Text) → Step s (clear s rule_id key_hash).1
  reordered : {t : Store} → IsReordering s t → Step s t

pub data Reach (s : Store) : Store → Type 0 where
  here : Reach s s
  next : {t u : Store} → Reach s t → Step t u → Reach s u

pub Reach-trans : {s t u : Store} → Reach s t → Reach t u → Reach s u
Reach-trans r here = r
Reach-trans r (next q st) = next (Reach-trans r q) st

-- A predicate that holds of every lookup holds of every entry.
All-of_get :
    (P : Entry → Type 0) (m : List Entry)
    → Dict.IsDistinct m
    → ((k : CacheKey) (state : DedupState) → Dict.get k m ≡ some state → P (k, state))
    → All P m
unfolding Dict.get
All-of_get P [] d h = tt
All-of_get P ((i, state) ∷ m) d h = (
  h i state (ground (arith, key_same_iff i i)),
  All-of_get P m d.1 (λ k found_state found. h k found_state (ground (arith, key_same_iff i k))),
)

reordered-IsValid : {s t : Store} → IsReordering s t → IsValid s → IsValid t
reordered-IsValid {s} {t} r v = record {
  distinct = r.distinct;
  keyed =
      All-of_get IsKeyed t.states r.distinct (λ k state found.
        All-get IsKeyed k state s.states v.keyed (sym (r.same_entries k) ∙ found));
  bounded = rw (r.same_length, r.same_limit) v.bounded;
}

pub Step-IsValid : {s t : Store} → Step s t → IsValid s → IsValid t
Step-IsValid {s} (cleaned now) v = cleanup-IsValid s now v
Step-IsValid {s} (got rule_id key_hash now) v = get-IsValid s rule_id key_hash now v
Step-IsValid {s} (stored rule_id key_hash key_repr event ttl hold) v =
    put-IsValid s rule_id key_hash key_repr event ttl hold v
Step-IsValid {s} (repeated rule_id key_hash event) v = touch-IsValid s rule_id key_hash event v
Step-IsValid {s} (cleared rule_id key_hash) v = clear-IsValid s rule_id key_hash v
Step-IsValid (reordered r) v = reordered-IsValid r v

pub Reach-IsValid : {s t : Store} → Reach s t → IsValid s → IsValid t
Reach-IsValid here v = v
Reach-IsValid (next r st) v = Step-IsValid st (Reach-IsValid r v)

-- Whatever the workers call, and in whatever order, a store made by NewStore holds no key twice,
-- every state stands under the key of its own rule and hash, and a store with a positive limit never
-- holds more entries than the limit.
pub new_store-Reach-IsValid : (limit : ℤ) (t : Store) → Reach (new_store limit) t → IsValid t
new_store-Reach-IsValid limit t r = Reach-IsValid r (new_store-IsValid limit)
