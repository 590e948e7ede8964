-- ===== src/Rebalance/Tests.antt =====
-- A run of internal/rebalance/rebalance.go where no other node can be reached.
use self_healing_distributed.Prelude.{
  ℕ, suc, ◌+◌, ◌≡◌, refl, true, false, none, some, [], ◌∷◌, length, string_key, nat_key,
}
use self_healing_distributed.Http.{Env}
use self_healing_distributed.Placement.{Placement}
use self_healing_distributed.Rebalance.{new, rebalance, compute_key_movements, movement}
use self_healing_distributed.Rebalance.Accounts.{
  moving, is_complete, is_failed, count, rebalance-accounts,
}

abbrev silent : Env ℕ
silent = record {
  round_trip = λ r clock. (none, suc clock);
  now = λ clock. (clock, suc clock);
  well_formed = λ r. true;
}

abbrev elsewhere : Placement
elsewhere = record {
  owner = λ key. some (record { id = "b"; addr = "b:80" });
  replicas = λ key. [];
}

rebalance-accounts_example :
    let (result, rb', w') = rebalance silent elsewhere "a" "a:80" ("k" ∷ "j" ∷ []) new 7 in
    (moving result.migrations ≡ "k" ∷ "j" ∷ [])
    × (result.moved_keys ≡ count is_complete result.migrations)
    × (result.failed_keys ≡ count is_failed result.migrations)
    × (result.moved_keys + result.failed_keys ≡ length result.migrations)
    × (result.total_keys ≡ 2)
    × (rb'.in_progress ≡ false)
    × (rb'.last_result ≡ some result)
unfolding new compute_key_movements movement
rebalance-accounts_example =
    rebalance-accounts silent elsewhere "a" "a:80" ("k" ∷ "j" ∷ []) new 7 refl
