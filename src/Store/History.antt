-- ===== src/Store/History.antt =====
-- Every state of the store of internal/store/store.go: what any sequence of its operations reaches
-- from a new store. `Get` takes part by its second half alone, with any outcome of the first half,
-- so that the sequences cover all interleavings of the goroutines.
use self_healing_distributed.Prelude.{
  ℕ, String, Bool, true, false, Option, none, some, List, [], ◌∷◌, string_key, nat_key, Bool-cases,
  inl, inr, if◌then◌else◌,
}
use self_healing_distributed.Prelude.Map.{Map, lookup}
use self_healing_distributed.Time.{is_expired}
use self_healing_distributed.Store.{
  Entry, Store, delete_locked, move_to_front, touch_item, touch_lru, set, set_with_expiry,
  set_version, has_version,
}
use self_healing_distributed.Store.Access.{
  Read, missing, expired, found, get_finish, still_expired, still_element, remove, sweep_entries,
  sweep, close,
}
use self_healing_distributed.Store.Invariant.{
  IsValid, delete_locked-IsValid, put_entry-IsValid, evict_if_needed-IsValid,
}
use self_healing_distributed.Store.Links.{Links-move}

pub data Operation : Type 0 where
  -- key, value, ttl, clock
  write : String → String → ℕ → ℕ → Operation
  -- key, value, expiry
  write_with_expiry : String → String → ℕ → Operation
  -- key, value, expiry, version
  write_version : String → String → ℕ → ℕ → Operation
  -- the second half of `Get`
  finish : String → Read → ℕ → Operation
  touch : String → Operation
  erase : String → Operation
  tick : ℕ → Operation
  stop : Operation

unfoldable pub apply : Operation → Store → Store
apply (write key value ttl now) s = set key value ttl now s
apply (write_with_expiry key value expires_at) s = set_with_expiry key value expires_at s
apply (write_version key value expires_at version) s =
    (set_version key value expires_at version s).1
apply (finish key r now) s = get_finish key r now s
apply (touch key) s = touch_lru key s
apply (erase key) s = remove key s
apply (tick now) s = sweep now s
apply stop s = close s

unfoldable pub run : List Operation → Store → Store
unfolding apply
run [] s = s
run (op ∷ ops) s = run ops (apply op s)

move-IsValid :
    (s : Store) (id : ℕ) → IsValid s → IsValid (record s { lru_list = move_to_front id s.lru_list })
move-IsValid s id v = record {
  distinct = v.distinct;
  sized = v.sized;
  memory = v.memory;
  links = Links-move s.lru_list s.entries s.next_element id v.links;
}

set_version-IsValid :
    (key value : String) (expires_at version : ℕ) (s : Store)
    → IsValid s
    → IsValid (set_version key value expires_at version s).1
unfolding set_version
set_version-IsValid key value expires_at version s v =
    elim (Bool-cases (has_version (lookup key s.entries) version)) [
      | inl stale ↦ rw stale v
      | inr newer ↦
          rw newer (evict_if_needed-IsValid _ (put_entry-IsValid key value expires_at version s v))
    ]

get_finish-IsValid :
    (key : String) (r : Read) (now : ℕ) (s : Store) → IsValid s → IsValid (get_finish key r now s)
unfolding get_finish
get_finish-IsValid key missing now s v = v
get_finish-IsValid key expired now s v =
    elim (Bool-cases (still_expired (lookup key s.entries) now)) [
      | inl dead ↦ rw dead (delete_locked-IsValid key s v)
      | inr live ↦ rw live v
    ]
get_finish-IsValid key (found value none) now s v = v
get_finish-IsValid key (found value (some id)) now s v =
    elim (Bool-cases (still_element (lookup key s.entries) id)) [
      | inl same ↦ rw same (move-IsValid s id v)
      | inr other ↦ rw other v
    ]

touch_item-IsValid : (o : Option Entry) (s : Store) → IsValid s → IsValid (touch_item o s)
unfolding touch_item
touch_item-IsValid none s v = v
touch_item-IsValid (some item) s v = go item.lru_element
  where
    go :
        (o : Option ℕ)
        → IsValid
            (elim o [ none ↦ s | some id ↦ record s { lru_list = move_to_front id s.lru_list } ])
    go none = v
    go (some id) = move-IsValid s id v

sweep_entries-IsValid :
    (now : ℕ) (m : Map String Entry) (s : Store) → IsValid s → IsValid (sweep_entries now m s)
unfolding sweep_entries
sweep_entries-IsValid now [] s v = v
sweep_entries-IsValid now ((key, item) ∷ m) s v =
    elim (Bool-cases (is_expired item.expires_at now)) [
      | inl dead ↦
          rw dead
            (sweep_entries-IsValid now m (delete_locked key s) (delete_locked-IsValid key s v))
      | inr live ↦ rw live (sweep_entries-IsValid now m s v)
    ]

sweep-IsValid : (now : ℕ) (s : Store) → IsValid s → IsValid (sweep now s)
unfolding sweep
sweep-IsValid now s v = go s.closed
  where
    go : (b : Bool) → IsValid (if b then s else sweep_entries now s.entries s)
    go true = v
    go false = sweep_entries-IsValid now s.entries s v

pub apply-IsValid : (op : Operation) (s : Store) → IsValid s → IsValid (apply op s)
unfolding apply set set_with_expiry touch_lru remove close
apply-IsValid (write key value ttl now) s v =
    evict_if_needed-IsValid _ (put_entry-IsValid key value _ _ s v)
apply-IsValid (write_with_expiry key value expires_at) s v =
    evict_if_needed-IsValid _ (put_entry-IsValid key value expires_at _ s v)
apply-IsValid (write_version key value expires_at version) s v =
    set_version-IsValid key value expires_at version s v
apply-IsValid (finish key r now) s v = get_finish-IsValid key r now s v
apply-IsValid (touch key) s v = touch_item-IsValid (lookup key s.entries) s v
apply-IsValid (erase key) s v = delete_locked-IsValid key s v
apply-IsValid (tick now) s v = sweep-IsValid now s v
apply-IsValid stop s v = record {
  distinct = v.distinct;
  sized = v.sized;
  memory = v.memory;
  links = v.links;
}

-- Whatever the operations, in whatever order, a well-formed store stays well formed: its keys are
-- distinct, its memory counter is the sum of the sizes of its entries modulo 2 ^ 64, each size is
-- that of the key and the value, and the entries and the elements of the LRU list point to each
-- other one to one.
pub run-IsValid : (ops : List Operation) (s : Store) → IsValid s → IsValid (run ops s)
unfolding run
run-IsValid [] s v = v
run-IsValid (op ∷ ops) s v = run-IsValid ops (apply op s) (apply-IsValid op s v)
