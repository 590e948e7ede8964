-- ===== src/Migration/Tests.antt =====
-- A migration of internal/rebalance/rebalance.go between two concrete nodes.
use self_healing_distributed.Prelude.{
  ℕ, ◌≡◌, ◌≢◌, refl, inl, String, none, some, [], arith, string_key, nat_key, if◌then◌else◌, ◌==◌,
}
use text.Mathlib.TextEquality.{eq_iff}
use self_healing_distributed.Prelude.Map.{lookup, insert}
use self_healing_distributed.Time.{is_expired, unix_milli, of_unix_milli}
use self_healing_distributed.Ring.{zero_node}
use self_healing_distributed.Placement.{Placement}
use self_healing_distributed.Store.{
  Entry, new as new_store, default_interval, put_entry, put_detached, detach, push_front,
  evict_if_needed, evict_if_listed, remove_element, set_with_expiry, next_version, get_with_version,
  live_item,
}
use self_healing_distributed.Store.Invariant.{IsValid, new-IsValid}
use self_healing_distributed.Server.{Server, new, expiry_of_wire}
use self_healing_distributed.Rebalance.{
  Migration, pending, complete, verifying, push, execute_migration,
}
use self_healing_distributed.Migration.{Pair}
use self_healing_distributed.Migration.Steps.{IsHeld, network}
use self_healing_distributed.Migration.Safety.{migration-moves, migration-keeps}

program : Unit {0}
unfolding lookup insert is_expired new new_store default_interval put_entry put_detached detach
    push_front evict_if_needed evict_if_listed remove_element set_with_expiry next_version
    get_with_version live_item expiry_of_wire unix_milli of_unix_milli
program = tt

abbrev old_node : Server
old_node = new (set_with_expiry "k" "v" 0 (new_store 0)) "a"

abbrev new_node : Server
new_node = new (new_store 0) "b"

abbrev both : Pair
both = record { old = old_node; new = new_node; clock = 7 }

abbrev everywhere : Placement
everywhere = record { owner = λ key. none; replicas = λ key. [] }

abbrev to : String → Migration
to addr = record {
  key = "k";
  old_owner = zero_node;
  new_owner = record { id = "b"; addr = addr };
  status = pending;
  error = none;
  timestamp = 0;
}

abbrev held : Entry
held = record { value = "v"; expires_at = 0; version = 1; lru_element = none; size = 2 }

is_held : IsHeld "k" held old_node 7
unfolding program
is_held = record { named = refl; entry = refl; fresh = refl }

a_not_b : ◌≢◌ {A = String} "a:80" "b:80"
a_not_b = ground (arith, eq_iff "a:80" "b:80")

new_node-store : IsValid new_node.store
unfolding new
new_node-store = new-IsValid 0

migration-moves_example :
    let (error, m', p') =
      execute_migration (network everywhere "a:80" "b:80") (to "b:80") "a:80" both in
    (error ≡ none)
    × (m'.status ≡ complete)
    × ((k : String)
        → lookup k p'.old.store.entries
          ≡ (if "k" == k then none else lookup k old_node.store.entries))
    × ((now : ℕ) → get_with_version "k" now p'.new.store ≡ some ("v", 1, 0))
unfolding program
migration-moves_example =
    migration-moves everywhere "a:80" "b:80" (to "b:80") held both a_not_b refl is_held
      new_node-store (inl refl)

migration-keeps_example :
    let (error, m', p') =
      execute_migration (network everywhere "a:80" "b:80") (to "c:80") "a:80" both in
    (error ≡ some push)
    × (m'.status ≡ verifying)
    × (p'.new ≡ new_node)
    × ((k : String) → lookup k p'.old.store.entries ≡ lookup k old_node.store.entries)
migration-keeps_example =
    migration-keeps everywhere "a:80" "b:80" (to "c:80") held both refl refl is_held
