-- ===== src/Network.antt =====
-- A node of internal/server/server.go as those see it that send it requests: it answers each of them.
pub mod Proxy
mod Tests
use self_healing_distributed.Prelude.{true, some}
use self_healing_distributed.Http.{Env, Request, Response}
use self_healing_distributed.Placement.{Placement}
use self_healing_distributed.Server.{Server}
use self_healing_distributed.Server.Routes.{serve}

-- A node and what it has around it.
pub record Host (W : Type 0) : Type 0 where
  pub server : Server
  pub world : W

module _ {W : Type 0} (env : Env W) (place : Placement) (website : Request → Response) where
  unfoldable pub reaching : Env (Host W)
  unfolding serve
  reaching = record {
    round_trip = λ r h.
        let (resp, s, w) = serve env place website r h.server h.world in
        (some resp, record { server = s; world = w });
    now = λ h. let (t, w) = env.now h.world in (t, record h { world = w });
    well_formed = λ r. true;
  }
