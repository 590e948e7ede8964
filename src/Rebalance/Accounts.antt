-- ===== src/Rebalance/Accounts.antt =====
-- The accounts of a run of internal/rebalance/rebalance.go: which keys it moves, and what it reports.
use self_healing_distributed.Prelude.{
  ℕ, ◌+◌, ◌≡◌, refl, ap, ◌∙◌, String, Bool, true, false, Option, none, some, List, [], ◌∷◌, map,
  arith, length, ◌==◌, string_key, Bool-cases, Option-cases, inl, inr, if◌then◌else◌,
}
use self_healing_distributed.Http.{Env}
use self_healing_distributed.Placement.{Placement}
use self_healing_distributed.Rebalance.{
  Migration, MigrationStatus, complete, failed, MigrationError, Rebalancer, Pulled, Outcome,
  refused, unreachable, bad_status, answered, with_status, after_push, push_pulled, after_pull,
  execute_migration, movement, compute_key_movements, plan, execute_all, rebalance, fetch,
  bare_request, accept_request, decode_pulled,
}

-- The keys of some migrations.
abbrev pub moving : List Migration → List String
moving = map (λ m. m.key)

abbrev pub is_complete : MigrationStatus → Bool
is_complete complete = true
is_complete s = false

abbrev pub is_failed : MigrationStatus → Bool
is_failed failed = true
is_failed s = false

-- How many migrations have a status.
unfoldable pub count : (MigrationStatus → Bool) → List Migration → ℕ
count f [] = 0
count f (m ∷ ms) = let rest = count f ms in if f m.status then rest + 1 else rest

-- The outcome of one migration: it is of the same key, and complete if there is no error.
abbrev IsOutcome : {W : Type 0} → Migration → Option MigrationError × Migration × W → Type 0
IsOutcome m x = (x.1.key ≡ m.key) × (x.0 ≡ none → x.1.status ≡ complete)

module _ {W : Type 0} (env : Env W) where
  after_push-IsOutcome :
      (m : Migration) (addr : String) (x : Outcome × W) → IsOutcome m (after_push env m addr x)
  unfolding after_push with_status
  after_push-IsOutcome m addr (refused, w) = (refl, λ e. absurd (ground arith))
  after_push-IsOutcome m addr (unreachable, w) = (refl, λ e. absurd (ground arith))
  after_push-IsOutcome m addr (bad_status n, w) = (refl, λ e. absurd (ground arith))
  after_push-IsOutcome m addr (answered body, w) = (refl, λ e. refl)

  push_pulled-IsOutcome :
      (m : Migration) (addr : String) (o : Option Pulled) (w : W)
      → IsOutcome m (push_pulled env m addr o w)
  unfolding push_pulled with_status
  push_pulled-IsOutcome m addr none w = (refl, λ e. absurd (ground arith))
  push_pulled-IsOutcome m addr (some pulled) w =
      after_push-IsOutcome m addr (fetch env (accept_request m.new_owner.addr m.key pulled) w)

  after_pull-IsOutcome :
      (m : Migration) (addr : String) (x : Outcome × W) → IsOutcome m (after_pull env m addr x)
  unfolding after_pull with_status
  after_pull-IsOutcome m addr (refused, w) = (refl, λ e. absurd (ground arith))
  after_pull-IsOutcome m addr (unreachable, w) = (refl, λ e. absurd (ground arith))
  after_pull-IsOutcome m addr (bad_status n, w) = (refl, λ e. absurd (ground arith))
  after_pull-IsOutcome m addr (answered body, w) =
      push_pulled-IsOutcome m addr (decode_pulled body) w

  -- The migrations after the second loop, and its two numbers.
  abbrev IsAccount : List Migration → List Migration × ℕ × ℕ × W → Type 0
  IsAccount ms x =
      (moving x.0 ≡ moving ms)
      × (x.1 ≡ count is_complete x.0)
      × (x.2 ≡ count is_failed x.0)
      × (x.1 + x.2 ≡ length x.0)
      × (length x.0 ≡ length ms)

  execute_all-IsAccount :
      (addr : String) (ms : List Migration) (w : W) → IsAccount ms (execute_all env addr ms w)
  unfolding execute_all count
  execute_all-IsAccount addr [] w = (refl, refl, refl, refl, refl)
  execute_all-IsAccount addr (m ∷ ms) w =
      let x = execute_migration env m addr w in
      let (key, done) =
        after_pull-IsOutcome m addr (fetch env (bare_request addr "/rebalance/pull" m.key) w) in
      elim (Option-cases x.0) [
        | inr (e, p) ↦
            let (a, b, c, d, f) = execute_all-IsAccount addr ms x.2 in
            rw (p, execute_all)
              (ground (arith, key, a), b, omega (arith, c), omega (arith, d), omega (arith, f))
        | inl p ↦
            let (a, b, c, d, f) = execute_all-IsAccount addr ms (env.now x.2).1 in
            let st : x.1.status ≡ complete = done p in
            rw (p, execute_all)
              (
                ground (arith, key, a),
                ground (arith, b, st),
                ground (arith, c, st),
                omega (arith, d),
                omega (arith, f),
              )
      ]

  plan-moving :
      (place : Placement) (local_node_id : String) (keys : List String) (w : W)
      → moving (plan env place local_node_id keys w).0
        ≡ moving (compute_key_movements place local_node_id keys)
  unfolding plan compute_key_movements movement
  plan-moving place local_node_id [] w = refl
  plan-moving place local_node_id (key ∷ keys) w = elim (Option-cases (place.owner key)) [
    | inl p ↦ rw (p, plan) (plan-moving place local_node_id keys w)
    | inr (owner, p) ↦
        rw (p, plan)
          (elim (Bool-cases (owner.id == local_node_id)) [
            | inl own ↦ rw (own, plan) (plan-moving place local_node_id keys w)
            | inr other ↦
                rw (other, plan) (ap (◌∷◌ key) (plan-moving place local_node_id keys (env.now w).1))
          ])
  ]

  -- A run that is not refused tries exactly the keys that `ComputeKeyMovements` lists, in that order;
  -- it counts as moved the migrations that are complete and as failed those that have failed, and
  -- each one is one or the other. Afterwards no run is in progress, and the result is the last one.
  pub rebalance-accounts :
      (place : Placement) (local_node_id addr : String) (keys : List String) (rb : Rebalancer)
      (w : W)
      → rb.in_progress ≡ false
      → let (result, rb', w') = rebalance env place local_node_id addr keys rb w in
        (moving result.migrations ≡ moving (compute_key_movements place local_node_id keys))
        × (result.moved_keys ≡ count is_complete result.migrations)
        × (result.failed_keys ≡ count is_failed result.migrations)
        × (result.moved_keys + result.failed_keys ≡ length result.migrations)
        × (result.total_keys ≡ length keys)
        × (rb'.in_progress ≡ false)
        × (rb'.last_result ≡ some result)
  unfolding rebalance
  rebalance-accounts place local_node_id addr keys rb w free =
      let planned = plan env place local_node_id keys (env.now w).1 in
      let (a, b, c, d, f) = execute_all-IsAccount addr planned.0 planned.1 in
      let p = plan-moving place local_node_id keys (env.now w).1 in
      rw (free, rebalance) (a ∙ p, b, c, d, refl, refl, refl)
