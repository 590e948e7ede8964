-- ===== src/Server/Race/Tests.antt =====
-- Two quorum writes of one key that both choose their version before one of them stores it.
use self_healing_distributed.Prelude.{
  ℕ, ◌≡◌, refl, inl, true, false, some, arith, ◌==◌, nat_key, string_key, if◌then◌else◌,
}
use self_healing_distributed.Prelude.Map.{lookup, insert}
use self_healing_distributed.Store.{
  Store, new as new_store, default_interval, set_version, has_version, get_with_version, live_item,
  put_entry, put_detached, detach, push_front, evict_if_needed, evict_if_listed, remove_element,
}
use self_healing_distributed.Time.{is_expired}
use self_healing_distributed.Store.Invariant.{IsValid, new-IsValid}
use self_healing_distributed.Server.Quorum.{version_of}
use self_healing_distributed.Server.Race.{
  Race, Write, stored, update, next_version_of, choose, put, Reach, start, later, choose_step,
  put_step, before, Reach-refused,
}

program : Unit {0}
unfolding lookup insert new_store default_interval set_version has_version get_with_version
    live_item put_entry put_detached detach push_front evict_if_needed evict_if_listed
    remove_element version_of update next_version_of choose put is_expired
program = tt

abbrev two_writes : ℕ → Write
two_writes i = record { value = if i == 0 then "v" else "w"; expires_at = 0 }

abbrev empty : Store
empty = new_store 0

abbrev both_chosen : Race
both_chosen = choose "k" two_writes 1 7 (choose "k" two_writes 0 7 (before "k" two_writes empty))

abbrev both_stored : Race
both_stored = put "k" two_writes 1 1 (put "k" two_writes 0 1 both_chosen)

-- The second write is dropped: the key has the first value.
race_run :
    (both_stored.phase 0 ≡ stored 1 true)
    × (both_stored.phase 1 ≡ stored 1 false)
    × (get_with_version "k" 9 both_stored.store ≡ some ("v", 1, 0))
unfolding program
race_run = (refl, refl, refl)

raced : Reach "k" two_writes (before "k" two_writes empty) both_stored
unfolding program
raced =
    later
      (later (later (later start (choose_step 0 7 refl)) (choose_step 1 7 refl))
        (put_step 0 1 refl))
      (put_step 1 1 refl)

empty-store : IsValid empty
empty-store = new-IsValid 0

Reach-refused_example :
    (false ≡ false) × (has_version (lookup "k" both_stored.store.entries) 1 ≡ true)
unfolding program
Reach-refused_example =
    Reach-refused "k" two_writes empty empty-store (λ i. inl refl) both_stored raced 0 1 1 true
      false refl refl (λ e. ground arith)
