-- ===== src/Store/Tests.antt =====
-- Runs of internal/store/store.go, with and without a memory cap, and the theorems at these runs.
use self_healing_distributed.Prelude.{
  ◌≡◌, ◌≤◌, refl, inr, true, false, none, some, List, [], ◌∷◌, arith, nat_key, string_key,
}
use self_healing_distributed.Prelude.Int64.{slt}
use self_healing_distributed.Prelude.Map.{lookup, insert, delete, total}
use self_healing_distributed.Time.{second, is_expired, add_duration, milliseconds}
use self_healing_distributed.Store.{
  Entry, Store, new, new_with_eviction, default_interval, has_eviction, remove_element,
  move_to_front_of, move_to_front, back, delete_item, delete_locked, evict_item, evict_back,
  back_of, evict_loop, evict_if_listed, evict_if_needed, detach, push_front, put_detached,
  put_entry, next_version, set_with_expiry, expiry_of_ttl, set, expires_at_of, get_expiry,
  live_item, get_with_version, touch_item, touch_lru, has_version, set_version,
}
use self_healing_distributed.Store.Access.{
  expired, found, read_item, get_read, still_expired, still_element, get_finish, result_of, get,
  remove, live_keys, keys, memory_usage, memory_cap, entry_count, sweep_entries, sweep, close,
}
use self_healing_distributed.Store.Invariant.{
  IsValid, new-IsValid, new_with_eviction-IsValid, entry_size,
}
use self_healing_distributed.Store.History.{
  Operation, write, write_with_expiry, write_version, finish, touch, erase, tick, stop, apply, run,
  run-IsValid,
}
use self_healing_distributed.Store.Lookups.{sweep-lookup}
use self_healing_distributed.Store.Capacity.{evict_if_needed-fits}
use self_healing_distributed.Store.Recency.{Evicts, evict_if_needed-Evicts, evict_if_needed-front}
use self_healing_distributed.Store.Written.{set-get, set_version-get}
use self_healing_distributed.Store.Bounds.{writes-within}
use self_healing_distributed.Store.Spec.{
  forget, view, next, has, unexpired, assign, put, meaning, meanings,
}
use self_healing_distributed.Store.Refinement.{run-refines}

program : Unit {0}
unfolding lookup insert delete total is_expired add_duration milliseconds new new_with_eviction
    default_interval has_eviction remove_element move_to_front_of move_to_front back delete_item
    delete_locked evict_item evict_back back_of evict_loop evict_if_listed evict_if_needed detach
    push_front put_detached put_entry next_version set_with_expiry expiry_of_ttl set expires_at_of
    get_expiry live_item get_with_version touch_item touch_lru has_version set_version read_item
    get_read still_expired still_element get_finish result_of get remove live_keys keys memory_usage
    memory_cap entry_count sweep_entries sweep close apply run forget view next has unexpired assign
    put meaning meanings
program = tt

abbrev empty : Store
empty = new 0

abbrev small : Store
small = new_with_eviction second 8

-- Three writes of four bytes each, with a read of the oldest key before the last one.
abbrev filling : List Operation
filling = write "a" "123" 0 5 ∷ write "b" "456" 0 6 ∷ finish "a" (found "123" (some 0)) 7 ∷ []

abbrev filled : Store
filled = run filling small

-- The cap takes two of the three: the one that was not read goes.
evicted_run :
    (keys 9 filled ≡ "a" ∷ "b" ∷ [])
    × ((keys 9 (set "c" "789" 0 8 filled) ≡ "a" ∷ "c" ∷ [])
        × (memory_usage (set "c" "789" 0 8 filled) ≡ 8))
unfolding program
evicted_run = (refl, (refl, refl))

-- A time to live that runs out, and the sweep after it.
expired_run :
    ((get "k" 104 104 (set "k" "v" 5 100 empty)).0 ≡ some "v")
    × (((get "k" 105 105 (set "k" "v" 5 100 empty)).0 ≡ none)
        × (entry_count (sweep 105 (set "k" "v" 5 100 empty)) ≡ 0))
unfolding program
expired_run = (refl, (refl, refl))

-- An older version is refused, a newer one is taken.
versions_run :
    let (a, s) = set_version "k" "new" 0 7 empty in
    let (b, s') = set_version "k" "old" 0 6 s in
    (a ≡ true) × ((b ≡ false) × (get_with_version "k" 1 s' ≡ some ("new", 7, 0)))
unfolding program
versions_run = (refl, (refl, refl))

-- A time to live in milliseconds that wraps around as a Duration leaves an entry without expiry.
wrapped_ttl : milliseconds 18_446_744_073_709 ≡ 18_446_744_073_709_000_000
unfolding program
wrapped_ttl = refl

filled-IsValid : IsValid filled
filled-IsValid = run-IsValid filling small (new_with_eviction-IsValid second 8)

abbrev changing : List Operation
changing =
    write "k" "v" 5 100
    ∷ write_with_expiry "k" "w" 90
    ∷ write_version "j" "x" 0 3
    ∷ finish "k" expired 95
    ∷ touch "j"
    ∷ tick 105
    ∷ erase "j"
    ∷ stop
    ∷ []

run-IsValid_example : IsValid (run changing small)
run-IsValid_example = run-IsValid changing small (new_with_eviction-IsValid second 8)

run-refines_example : view (run changing empty) ≡ meanings changing (view empty)
run-refines_example = run-refines changing empty (new-IsValid 0) (unfold new in refl)

writes-within_example :
    ((total entry_size (set "c" "789" 0 8 filled).entries ≤ 8)
      × (memory_usage (set "c" "789" 0 8 filled)
          ≡ total entry_size (set "c" "789" 0 8 filled).entries))
    × ((total entry_size (set_with_expiry "c" "789" 20 filled).entries ≤ 8)
        × (memory_usage (set_with_expiry "c" "789" 20 filled)
            ≡ total entry_size (set_with_expiry "c" "789" 20 filled).entries))
unfolding program
writes-within_example =
    writes-within "c" "789" 0 8 20 filled ((0, "a") ∷ (1, "b") ∷ []) filled-IsValid refl refl
      (omega arith)

-- The same store under a smaller cap.
abbrev over_cap : Store
over_cap = record filled { mem_cap = 5 }

over_cap-IsValid : IsValid over_cap
over_cap-IsValid = record {
  distinct = filled-IsValid.distinct;
  sized = filled-IsValid.sized;
  memory = filled-IsValid.memory;
  links = filled-IsValid.links;
}

evict_if_needed-Evicts_example :
    Evicts ((0, "a") ∷ (1, "b") ∷ []) over_cap (evict_if_needed over_cap)
unfolding program
evict_if_needed-Evicts_example =
    evict_if_needed-Evicts over_cap ((0, "a") ∷ (1, "b") ∷ []) over_cap-IsValid refl

evict_if_needed-fits_example : slt 5 (evict_if_needed over_cap).current_mem ≡ false
unfolding program
evict_if_needed-fits_example =
    evict_if_needed-fits over_cap ((0, "a") ∷ (1, "b") ∷ []) over_cap-IsValid refl refl

abbrev entry_a : Entry
entry_a = record { value = "123"; expires_at = 0; version = 1; lru_element = some 0; size = 4 }

evict_if_needed-front_example : lookup "a" (evict_if_needed over_cap).entries ≡ some entry_a
unfolding program
evict_if_needed-front_example =
    evict_if_needed-front over_cap ((1, "b") ∷ []) 0 "a" entry_a over_cap-IsValid refl refl
      (omega arith) (omega arith)

set-get_example : (get "c" 12 12 (set "c" "789" 5 8 filled)).0 ≡ some "789"
unfolding program
set-get_example =
    set-get "c" "789" 5 8 12 12 filled filled-IsValid (inr (inr (omega arith, omega arith)))

set_version-get_example :
    let (stored?, s') = set_version "a" "789" 20 4 filled in
    (has_version (lookup "a" s'.entries) 4 ≡ true)
    × ((stored? ≡ true) × (get_with_version "a" 12 s' ≡ some ("789", 4, 20)))
unfolding program
set_version-get_example =
    set_version-get "a" "789" 20 4 12 filled filled-IsValid (inr (inr (omega arith, omega arith)))

sweep-lookup_example : lookup "k" (sweep 105 (set "k" "v" 5 100 empty)).entries ≡ none
unfolding program
sweep-lookup_example =
    sweep-lookup 105 (set "k" "v" 5 100 empty) "k"
      (run-IsValid (write "k" "v" 5 100 ∷ []) empty (new-IsValid 0)).distinct
