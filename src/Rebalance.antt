-- ===== src/Rebalance.antt =====
-- internal/rebalance/rebalance.go: the migration of keys to the nodes that own them. A run is one
-- step here; the nodes that it talks to change behind the transport.
pub mod Accounts
mod Tests
use self_healing_distributed.Prelude.{
  ℕ, ◌+◌, ◌-◌, String, Bool, true, false, Option, none, some, List, [], ◌∷◌, length, ◌==◌, nat_key,
  string_key, if◌then◌else◌, ◌>>=◌,
}
use self_healing_distributed.Http.{
  Env, Request, Response, Body, text, number, object, blank, decode, text_field, number_field, ok,
}
use self_healing_distributed.Ring.{Node, zero_node}
use self_healing_distributed.Placement.{Placement}

pub data MigrationStatus : Type 0 where
  pending pulling verifying complete failed : MigrationStatus

-- the errors of `ExecuteMigration`, by the step that failed, with the status of an answer
pub data MigrationError : Type 0 where
  create_pull pull create_accept push decode_pull : MigrationError
  old_owner_status new_owner_status : ℕ → MigrationError

pub record Migration : Type 0 where
  pub key : String
  pub old_owner : Node
  pub new_owner : Node
  pub status : MigrationStatus
  pub error : Option MigrationError
  pub timestamp : ℕ

pub record Result : Type 0 where
  pub total_keys : ℕ
  pub moved_keys : ℕ
  pub failed_keys : ℕ
  pub duration : ℕ
  pub migrations : List Migration
  pub started_at : ℕ
  pub completed_at : ℕ

pub record Rebalancer : Type 0 where
  pub in_progress : Bool
  pub last_result : Option Result
  pub migrations : List Migration

unfoldable pub new : Rebalancer
new = record { in_progress = false; last_result = none; migrations = [] }

-- A request with no body, as the pull and the completion are, to the node at `addr`.
unfoldable pub bare_request : String → String → String → Request
bare_request addr path key = record {
  method = "POST";
  host = addr;
  path = path;
  key = key;
  body = blank;
}

-- What the old owner answered with: key, value and expiry.
pub record Pulled : Type 0 where
  pub key : String
  pub value : String
  pub expires_at_ms : ℕ

unfoldable pub decode_pulled : Body → Option Pulled
unfolding decode text_field number_field
decode_pulled body = do
  m ← decode body
  key ← text_field "key" m
  value ← text_field "value" m
  ms ← number_field "expires_at_ms" m
  some (record { key = key; value = value; expires_at_ms = ms })

unfoldable pub accept_request : String → String → Pulled → Request
accept_request addr key pulled = record {
  method = "POST";
  host = addr;
  path = "/rebalance/accept";
  key = key;
  body = object (
      ("key", text pulled.key)
      ∷ ("value", text pulled.value)
      ∷ ("expires_at_ms", number pulled.expires_at_ms)
      ∷ []);
}

-- The outcome of a request: `http.NewRequest` or the transport fails, or a status and a body.
pub data Outcome : Type 0 where
  refused unreachable : Outcome
  bad_status : ℕ → Outcome
  answered : Body → Outcome

unfoldable pub outcome_of : Option Response → Outcome
outcome_of none = unreachable
outcome_of (some resp) = if resp.status == ok then answered resp.body else bad_status resp.status

unfoldable pub with_status : MigrationStatus → Migration → Migration
with_status status m = record m { status = status }

-- The keys that another node owns, as `ComputeKeyMovements` lists them.
unfoldable pub movement : Option Node → String → String → List Migration → List Migration
movement none local_node_id key rest = rest
movement (some owner) local_node_id key rest =
    if owner.id == local_node_id
    then rest
    else (record {
      key = key;
      old_owner = zero_node;
      new_owner = owner;
      status = pending;
      error = none;
      timestamp = 0;
    })
      ∷ rest

unfoldable pub compute_key_movements : Placement → String → List String → List Migration
unfolding movement
compute_key_movements place local_node_id [] = []
compute_key_movements place local_node_id (key ∷ local_keys) =
    movement (place.owner key) local_node_id key
      (compute_key_movements place local_node_id local_keys)

module _ {W : Type 0} (env : Env W) where
  unfoldable pub fetch : Request → W → Outcome × W
  unfolding outcome_of
  fetch r w =
      if env.well_formed r
      then (let (answer, w') = env.round_trip r w in (outcome_of answer, w'))
      else (refused, w)

  -- `ExecuteMigration`, by what the push to the new owner has come to
  unfoldable pub after_push :
      Migration → String → Outcome × W → Option MigrationError × Migration × W
  unfolding fetch bare_request with_status
  after_push m old_owner_addr (refused, w) = (some create_accept, with_status verifying m, w)
  after_push m old_owner_addr (unreachable, w) = (some push, with_status verifying m, w)
  after_push m old_owner_addr (bad_status n, w) =
      (some (new_owner_status n), with_status verifying m, w)
  after_push m old_owner_addr (answered body, w) =
      let (signal, w') = fetch (bare_request old_owner_addr "/rebalance/complete" m.key) w in
      (none, with_status complete m, w')

  unfoldable pub push_pulled :
      Migration → String → Option Pulled → W → Option MigrationError × Migration × W
  unfolding fetch accept_request after_push with_status
  push_pulled m old_owner_addr none w = (some decode_pull, with_status pulling m, w)
  push_pulled m old_owner_addr (some pulled) w =
      after_push m old_owner_addr (fetch (accept_request m.new_owner.addr m.key pulled) w)

  -- and by what the pull has come to
  unfoldable pub after_pull :
      Migration → String → Outcome × W → Option MigrationError × Migration × W
  unfolding decode_pulled push_pulled with_status
  after_pull m old_owner_addr (refused, w) = (some create_pull, with_status pulling m, w)
  after_pull m old_owner_addr (unreachable, w) = (some pull, with_status pulling m, w)
  after_pull m old_owner_addr (bad_status n, w) =
      (some (old_owner_status n), with_status pulling m, w)
  after_pull m old_owner_addr (answered body, w) =
      push_pulled m old_owner_addr (decode_pulled body) w

  unfoldable pub execute_migration : Migration → String → W → Option MigrationError × Migration × W
  unfolding fetch bare_request after_pull
  execute_migration m old_owner_addr w =
      after_pull m old_owner_addr (fetch (bare_request old_owner_addr "/rebalance/pull" m.key) w)

  -- the first loop of `Rebalance`, which also reads the clock for each key that moves
  unfoldable pub plan : Placement → String → List String → W → List Migration × W
  plan place local_node_id [] w = ([], w)
  plan place local_node_id (key ∷ local_keys) w = elim (place.owner key) [
    | none ↦ plan place local_node_id local_keys w
    | some owner ↦ elim (owner.id == local_node_id) [
      | true ↦ plan place local_node_id local_keys w
      | false ↦
          let (now, w') = env.now w in
          let (rest, w'') = plan place local_node_id local_keys w' in
          (
            (record {
              key = key;
              old_owner = zero_node;
              new_owner = owner;
              status = pending;
              error = none;
              timestamp = now;
            })
                ∷ rest,
            w'',
          )
    ]
  ]

  -- the second loop: the migrations as they are then, and how many were moved and have failed
  unfoldable pub execute_all : String → List Migration → W → List Migration × ℕ × ℕ × W
  unfolding execute_migration
  execute_all old_owner_addr [] w = ([], 0, 0, w)
  execute_all old_owner_addr (m ∷ ms) w =
      let (error, m', w') = execute_migration m old_owner_addr w in
      elim error [
        | some e ↦
            let (rest, moved, failures, w'') = execute_all old_owner_addr ms w' in
            ((record m' { status = failed; error = some e }) ∷ rest, moved, failures + 1, w'')
        | none ↦
            let (now, w'') = env.now w' in
            let (rest, moved, failures, w''') = execute_all old_owner_addr ms w'' in
            ((record m' { timestamp = now }) ∷ rest, moved + 1, failures, w''')
      ]

  -- `Rebalance`; a run while another one is in progress does nothing
  unfoldable pub rebalance :
      Placement → String → String → List String → Rebalancer → W → Result × Rebalancer × W
  unfolding plan execute_all
  rebalance place local_node_id old_owner_addr local_keys rb w =
      let (started, w1) = env.now w in
      if rb.in_progress
      then (let (completed, w2) = env.now w1 in
          (
            record {
              total_keys = 0;
              moved_keys = 0;
              failed_keys = 0;
              duration = 0;
              migrations = [];
              started_at = started;
              completed_at = completed;
            },
            rb,
            w2,
          ))
      else (let (planned, w2) = plan place local_node_id local_keys w1 in
          let (migrations, moved, failures, w3) = execute_all old_owner_addr planned w2 in
          let (ended, w4) = env.now w3 in
          let (completed, w5) = env.now w4 in
          let result : Result = record {
            total_keys = length local_keys;
            moved_keys = moved;
            failed_keys = failures;
            duration = ended - started;
            migrations = migrations;
            started_at = started;
            completed_at = completed;
          } in
          (
            result,
            record { in_progress = false; last_result = some result; migrations = migrations },
            w5,
          ))
