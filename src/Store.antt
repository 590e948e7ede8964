-- ===== src/Store.antt =====
-- internal/store/store.go: the in-memory store of one node, with expiry, versions and LRU eviction.
-- An operation takes the clock readings that the code makes, and returns the new state. Each one
-- runs under the store's mutex; `Get`, which takes it twice, is two steps.
pub mod Access
pub mod Links
pub mod Eviction
pub mod Invariant
pub mod History
pub mod Lookups
pub mod Capacity
pub mod Recency
pub mod Written
pub mod Versions
pub mod Bounds
pub mod Quiet
pub mod Spec
pub mod Refinement
mod Tests
use Prim.Native.String.{len}
use self_healing_distributed.Prelude.{
  ℕ, zero, suc, ◌+◌, ◌%◌, String, Bool, true, false, not, ◌&&◌, ◌||◌, Option, none, some, List, [],
  ◌∷◌, length, ◌==◌, nat_key, string_key, if◌then◌else◌,
}
use self_healing_distributed.Prelude.Int64.{two63, two64, add64, sub64, slt, sle}
use self_healing_distributed.Prelude.Map.{Map, lookup, insert, delete}
use self_healing_distributed.Time.{second, add_duration, is_expired}

pub record Entry : Type 0 where
  pub value : String
  pub expires_at : ℕ
  pub version : ℕ
  -- the element's identity in the LRU list, which stands for the pointer
  pub lru_element : Option ℕ
  pub size : ℕ

-- `container/list`: the elements from the front, by identity, each with its value, a key
abbrev pub Elements : Type 0
Elements = Map ℕ String

pub record Store : Type 0 where
  pub entries : Map String Entry
  pub interval : ℕ
  pub closed : Bool
  pub mem_cap : ℕ
  pub current_mem : ℕ
  pub lru_list : Option Elements
  -- the identity of the next element that is allocated
  pub next_element : ℕ

unfoldable pub default_interval : ℕ → ℕ
default_interval sweep_interval = if sle sweep_interval 0 then second else sweep_interval

unfoldable pub new : ℕ → Store
unfolding default_interval
new sweep_interval = record {
  entries = [];
  interval = default_interval sweep_interval;
  closed = false;
  mem_cap = 0;
  current_mem = 0;
  lru_list = none;
  next_element = 0;
}

pub new_with_eviction : ℕ → ℕ → Store
unfolding default_interval
new_with_eviction sweep_interval mem_cap = record {
  entries = [];
  interval = default_interval sweep_interval;
  closed = false;
  mem_cap = mem_cap;
  current_mem = 0;
  lru_list = some [];
  next_element = 0;
}

pub has_eviction : Store → Bool
has_eviction s = slt 0 s.mem_cap

-- `s.lruList.Remove(element)`; on a nil list it does nothing, since the list is not the element's
unfoldable pub remove_element : Option ℕ → Option Elements → Option Elements
remove_element none l = l
remove_element (some id) none = none
remove_element (some id) (some l) = some (delete id l)

-- `s.lruList.MoveToFront(element)`
unfoldable pub move_to_front_of : ℕ → Option String → Elements → Elements
move_to_front_of id none l = l
move_to_front_of id (some key) l = (id, key) ∷ delete id l

unfoldable pub move_to_front : ℕ → Option Elements → Option Elements
unfolding move_to_front_of
move_to_front id none = none
move_to_front id (some l) = some (move_to_front_of id (lookup id l) l)

-- `s.lruList.Back()`
pub back : Elements → Option (ℕ × String)
back [] = none
back (e ∷ []) = some e
back (e ∷ f ∷ l) = back (f ∷ l)

-- `deleteLocked`
unfoldable pub delete_item : String → Option Entry → Store → Store
delete_item key none s = s
delete_item key (some item) s = record s {
  current_mem = sub64 s.current_mem item.size;
  lru_list = remove_element item.lru_element s.lru_list;
  entries = delete key s.entries;
}

unfoldable pub delete_locked : String → Store → Store
unfolding delete_item
delete_locked key s = delete_item key (lookup key s.entries) s

-- the body of the loop of `evictIfNeeded`
evict_item : String → Option Entry → Store → Store
evict_item key none s = s
evict_item key (some item) s = record s {
  current_mem = sub64 s.current_mem item.size;
  entries = delete key s.entries;
}

pub evict_back : ℕ → String → Store → Store
unfolding evict_item
evict_back id key s =
    let s' = record s { lru_list = remove_element (some id) s.lru_list } in
    evict_item key (lookup key s'.entries) s'

pub back_of : Option Elements → Option (ℕ × String)
unfolding back
back_of none = none
back_of (some l) = back l

-- `for s.currentMem > s.memCap`, on the rounds that are left
pub evict_loop : ℕ → Store → Store
evict_loop zero s = s
evict_loop (suc fuel) s = elim (slt s.mem_cap s.current_mem) [
  | false ↦ s
  | true ↦ elim (back_of s.lru_list) [
    | none ↦ s
    | some (id, key) ↦ evict_loop fuel (evict_back id key s)
  ]
]

-- `evictIfNeeded`: each round takes one element off the list
unfoldable pub evict_if_listed : Option Elements → Store → Store
evict_if_listed none s = s
evict_if_listed (some l) s = evict_loop (suc (length l)) s

unfoldable pub evict_if_needed : Store → Store
unfolding evict_if_listed
evict_if_needed s = if sle s.mem_cap 0 then s else evict_if_listed s.lru_list s

-- what a write does to the entry that it replaces
unfoldable pub detach : Option Entry → Store → Store
detach none s = s
detach (some existing) s = record s {
  current_mem = sub64 s.current_mem existing.size;
  lru_list = remove_element existing.lru_element s.lru_list;
}

-- `s.lruList.PushFront(key)`, where the list is not nil
unfoldable pub push_front : String → Option Elements → ℕ → Option ℕ × Option Elements × ℕ
push_front key none next = (none, none, next)
push_front key (some l) next = (some next, some ((next, key) ∷ l), suc next)

-- the new entry and its element, once the old ones are detached
unfoldable pub put_detached : String → String → ℕ → ℕ → Store → Store
put_detached key value expires_at version s =
    let entry_size = (len key + len value) % two64 in
    let (element, list, next) = push_front key s.lru_list s.next_element in
    record s {
      current_mem = add64 s.current_mem entry_size;
      lru_list = list;
      next_element = next;
      entries =
          insert key
            (record {
              value = value;
              expires_at = expires_at;
              version = version;
              lru_element = element;
              size = entry_size;
            })
            s.entries;
    }

-- the part that `Set`, `SetWithExpiry` and `SetVersion` share, up to the eviction
unfoldable pub put_entry : String → String → ℕ → ℕ → Store → Store
put_entry key value expires_at version s =
    put_detached key value expires_at version (detach (lookup key s.entries) s)

unfoldable pub next_version : Option Entry → ℕ
next_version none = 1
next_version (some existing) = add64 existing.version 1

unfoldable pub set_with_expiry : String → String → ℕ → Store → Store
set_with_expiry key value expires_at s =
    evict_if_needed (put_entry key value expires_at (next_version (lookup key s.entries)) s)

unfoldable pub expiry_of_ttl : ℕ → ℕ → ℕ
expiry_of_ttl ttl now = if slt 0 ttl then add_duration now ttl else 0

unfoldable pub set : String → String → ℕ → ℕ → Store → Store
set key value ttl now s =
    evict_if_needed
      (put_entry key value (expiry_of_ttl ttl now) (next_version (lookup key s.entries)) s)

unfoldable pub expires_at_of : Option Entry → ℕ
expires_at_of none = 0
expires_at_of (some item) = item.expires_at

unfoldable pub get_expiry : String → Store → ℕ
unfolding expires_at_of
get_expiry key s = expires_at_of (lookup key s.entries)

-- `none` is `ErrNotFound`.
unfoldable pub live_item : ℕ → Option Entry → Option (String × ℕ × ℕ)
live_item now none = none
live_item now (some item) =
    if is_expired item.expires_at now
    then none
    else some (item.value, item.version, item.expires_at)

unfoldable pub get_with_version : String → ℕ → Store → Option (String × ℕ × ℕ)
unfolding live_item
get_with_version key now s = live_item now (lookup key s.entries)

-- `touchLRU`
pub touch_item : Option Entry → Store → Store
touch_item none s = s
touch_item (some item) s = elim item.lru_element [
  | none ↦ s
  | some id ↦ record s { lru_list = move_to_front id s.lru_list }
]

pub touch_lru : String → Store → Store
unfolding touch_item
touch_lru key s = touch_item (lookup key s.entries) s

unfoldable pub has_version : Option Entry → ℕ → Bool
has_version none version = false
has_version (some existing) version = sle version existing.version

unfoldable pub set_version : String → String → ℕ → ℕ → Store → Bool × Store
unfolding has_version
set_version key value expires_at version s =
    if has_version (lookup key s.entries) version
    then (false, s)
    else (true, evict_if_needed (put_entry key value expires_at version s))
