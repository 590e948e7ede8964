-- ===== src/Migration.antt =====
-- Two nodes of the cluster and the network between them: the migration of internal/rebalance/rebalance.go
-- from a node to another one, as the handlers of internal/server/server.go serve it. No other node
-- answers, and the clock, which both nodes read, moves on with each reading.
pub mod Steps
pub mod Safety
mod Tests
use self_healing_distributed.Prelude.{
  ℕ, suc, String, Bool, true, false, Option, none, some, List, [], ◌∷◌, ◌==◌, nat_key, string_key,
  if◌then◌else◌,
}
use self_healing_distributed.Http.{Env, Request, Response, write_error, not_found}
use self_healing_distributed.Placement.{Placement}
use self_healing_distributed.Server.{Server}
use self_healing_distributed.Server.Routes.{serve}

pub record Pair : Type 0 where
  pub old : Server
  pub new : Server
  pub clock : ℕ

-- What a node has around it while it serves a request of the migration.
unfoldable pub alone : Env ℕ
alone = record {
  round_trip = λ r clock. (none, clock);
  now = λ clock. (clock, suc clock);
  well_formed = λ r. true;
}

-- The files of the dashboard, which no request of a migration asks for.
unfoldable pub no_files : Request → Response
unfolding write_error
no_files r = write_error not_found "no such file"

module _ (place : Placement) (old_addr new_addr : String) where
  unfoldable pub at_old : Request → Pair → Option Response × Pair
  unfolding alone serve no_files
  at_old r p =
      let (resp, s, clock) = serve alone place no_files r p.old p.clock in
      (some resp, record { old = s; new = p.new; clock = clock })

  unfoldable pub at_new : Request → Pair → Option Response × Pair
  unfolding alone serve no_files
  at_new r p =
      let (resp, s, clock) = serve alone place no_files r p.new p.clock in
      (some resp, record { old = p.old; new = s; clock = clock })

  unfoldable pub deliver : Request → Pair → Option Response × Pair
  unfolding at_old at_new
  deliver r p =
      if r.host == old_addr
      then at_old r p
      else if r.host == new_addr
      then at_new r p
      else (none, p)

  unfoldable pub between : Env Pair
  unfolding deliver
  between = record {
    round_trip = deliver;
    now = λ p. (p.clock, record p { clock = suc p.clock });
    well_formed = λ r. true;
  }
