-- ===== src/Store/Access.antt =====
-- internal/store/store.go, the rest of it: `Get`, `Delete`, the listings, the sweep and `Close`.
use self_healing_distributed.Prelude.{
  ℕ, String, Bool, true, false, Option, none, some, List, [], ◌∷◌, length, ◌==◌, nat_key,
  string_key, if◌then◌else◌,
}
use self_healing_distributed.Prelude.Map.{Map, lookup}
use self_healing_distributed.Time.{is_expired}
use self_healing_distributed.Store.{Store, Entry, delete_locked, move_to_front}

-- What the first part of `Get`, under the read lock, found.
pub data Read : Type 0 where
  missing expired : Read
  found : String → Option ℕ → Read

unfoldable pub read_item : ℕ → Option Entry → Read
read_item now none = missing
read_item now (some item) =
    if is_expired item.expires_at now then expired else found item.value item.lru_element

unfoldable pub get_read : String → ℕ → Store → Read
unfolding read_item
get_read key now s = read_item now (lookup key s.entries)

-- `ok && item is expired`, read again under the write lock
unfoldable pub still_expired : Option Entry → ℕ → Bool
still_expired none now = false
still_expired (some item) now = is_expired item.expires_at now

-- `ok && item.lruElement == lruElement`
unfoldable pub still_element : Option Entry → ℕ → Bool
still_element none id = false
still_element (some item) id = elim item.lru_element [ none ↦ false | some id' ↦ id' == id ]

-- The second part of `Get`, under the write lock; the store may have changed in between.
unfoldable pub get_finish : String → Read → ℕ → Store → Store
unfolding still_expired still_element
get_finish key missing now s = s
get_finish key expired now s =
    if still_expired (lookup key s.entries) now then delete_locked key s else s
get_finish key (found value none) now s = s
get_finish key (found value (some id)) now s =
    if still_element (lookup key s.entries) id
    then record s { lru_list = move_to_front id s.lru_list }
    else s

-- `none` is `ErrNotFound`.
unfoldable pub result_of : Read → Option String
result_of missing = none
result_of expired = none
result_of (found value element) = some value

-- `Get` with nothing in between: the two clock readings are `now` and `now'`.
unfoldable pub get : String → ℕ → ℕ → Store → Option String × Store
unfolding result_of get_read get_finish
get key now now' s = let r = get_read key now s in (result_of r, get_finish key r now' s)

unfoldable pub remove : String → Store → Store
remove key s = delete_locked key s

unfoldable pub live_keys : ℕ → Map String Entry → List String
live_keys now [] = []
live_keys now ((key, item) ∷ m) =
    let rest = live_keys now m in if is_expired item.expires_at now then rest else key ∷ rest

unfoldable pub keys : ℕ → Store → List String
unfolding live_keys
keys now s = live_keys now s.entries

unfoldable pub memory_usage : Store → ℕ
memory_usage s = s.current_mem

unfoldable pub memory_cap : Store → ℕ
memory_cap s = s.mem_cap

unfoldable pub entry_count : Store → ℕ
entry_count s = length s.entries

-- one tick of `sweepLoop`: the `range` over the entries that were there when it began
unfoldable pub sweep_entries : ℕ → Map String Entry → Store → Store
sweep_entries now [] s = s
sweep_entries now ((key, item) ∷ m) s =
    sweep_entries now m (if is_expired item.expires_at now then delete_locked key s else s)

unfoldable pub sweep : ℕ → Store → Store
unfolding sweep_entries
sweep now s = if s.closed then s else sweep_entries now s.entries s

-- `Close`; the second call returns at once
unfoldable pub close : Store → Store
close s = record s { closed = true }
