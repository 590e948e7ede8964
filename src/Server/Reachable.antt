-- ===== src/Server/Reachable.antt =====
-- The quorum writes of internal/server/server.go where all other nodes can be reached, over a lawful
-- placement.
use self_healing_distributed.Prelude.{
  ℕ, ◌+◌, ◌/◌, ◌≡◌, refl, ap, subst, String, Bool, true, false, some, List, [], ◌∷◌, arith, length,
  ltb, ◌==◌, string_key, nat_key,
}
use self_healing_distributed.Http.{Env, Request, ok, write_json, decode, number_field, number_of}
use self_healing_distributed.Prelude.Map.{lookup}
use self_healing_distributed.Ring.{Node, seen_in}
use self_healing_distributed.Ring.Replication.{ids}
use self_healing_distributed.Placement.{Placement, IsLawful}
use self_healing_distributed.Server.{Server, send}
use self_healing_distributed.Server.Quorum.{
  QuorumSetRequest, quorum_needed, acks_response, is_ok, quorum_set_request,
}
use self_healing_distributed.Server.Quorum.Handlers.{quorum_write, count_acks}
use self_healing_distributed.Server.Majority.{reported}

-- Every request can be made, and is answered 200.
pub record AllReachable {W : Type 0} (env : Env W) : Type 0 where
  pub formed : (r : Request) → env.well_formed r ≡ true
  pub answers : (r : Request) (w : W) → is_ok (env.round_trip r w).0 ≡ true

module _ {W : Type 0} (env : Env W) (place : Placement) (reachable : AllReachable env) where
  send-is_ok : (r : Request) (w : W) → is_ok (send env r w).0 ≡ true
  unfolding send
  send-is_ok r w = rw (reachable.formed r) (reachable.answers r w)

  count_acks-all :
      (key value : String) (expires_at version : ℕ) (nodes : List Node) (node_id : String) (w : W)
      → seen_in node_id (ids nodes) ≡ false
      → (count_acks env place key value expires_at version nodes node_id w).0 ≡ length nodes
  unfolding count_acks seen_in
  count_acks-all key value expires_at version [] node_id w h = refl
  count_acks-all key value expires_at version (n ∷ nodes) node_id w h =
      let r = quorum_set_request n.addr key value expires_at version in
      let other : (n.id == node_id) ≡ false = ground arith in
      let rest : seen_in node_id (ids nodes) ≡ false = ground arith in
      let got = send-is_ok r w in
      rw (other, count_acks)
        (rw got (
          omega (
            arith,
            count_acks-all key value expires_at version nodes node_id (send env r w).1 rest,
          )))

  full_acks :
      (acks n : ℕ) (failing : Bool) (version : ℕ)
      → acks ≡ n
      → ((acks_response acks failing (quorum_needed n) version).status ≡ ok)
        × (reported "acks" (acks_response acks failing (quorum_needed n) version) ≡ some (n + 1))
  unfolding acks_response quorum_needed write_json decode number_field number_of lookup
  full_acks acks n failing version e =
      let many : ltb (acks + 1) ((n + 1) / 2 + 1) ≡ false = ground arith in
      rw many (refl, ap (λ x. some (x + 1)) e)

  -- Where every request is answered 200 and the placement is lawful, a quorum write at the owner of
  -- the key succeeds, and counts all replicas and the owner.
  pub quorum_write-succeeds :
      (req : QuorumSetRequest) (s : Server) (w : W) (owner : Node)
      → IsLawful place
      → place.owner req.key ≡ some owner
      → owner.id ≡ s.node_id
      → ((quorum_write env place req s w).0.status ≡ ok)
        × (reported "acks" (quorum_write env place req s w).0
            ≡ some (length (place.replicas req.key) + 1))
  unfolding quorum_write
  quorum_write-succeeds req s w owner lawful p self =
      let unseen : seen_in s.node_id (ids (place.replicas req.key)) ≡ false =
        subst (λ x. seen_in x (ids (place.replicas req.key)) ≡ false) self
          (lawful.distinct req.key owner p).0 in
      full_acks _ (length (place.replicas req.key)) _ _
        (count_acks-all req.key req.value _ _ (place.replicas req.key) s.node_id _ unseen)
