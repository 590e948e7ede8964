-- ===== src/Server/Retried.antt =====
-- internal/server/server.go: a tick of the retry loop forgets or keeps what was recorded as pending.
use self_healing_distributed.Prelude.{
  ◌≡◌, refl, String, List, [], ◌∷◌, string_key, nat_key, Bool-cases, Option-cases, inl, inr,
}
use self_healing_distributed.Http.{Env}
use self_healing_distributed.Placement.{Placement}
use self_healing_distributed.Store.{get_with_version}
use self_healing_distributed.Server.{Server}
use self_healing_distributed.Server.Replication.{
  RetryTarget, untrack, scan_pending, retry_targets, replicate_to, retry_failed_replications,
}
use self_healing_distributed.Server.Pending.{IsTracked, Forgets, untrack-IsTracked, untrack-Forgets}
use self_healing_distributed.Server.Retries.{scan_pending-IsTracked}

-- The node after some retries: its store is the same, and its pending replications are some of
-- those before.
pub record IsRetried (s s' : Server) : Type 0 where
  pub store : s'.store ≡ s.store
  pub tracked : IsTracked s'.pending_repls
  pub forgets : Forgets s.pending_repls s'.pending_repls

module _ {W : Type 0} (env : Env W) where
  untracked :
      (key id : String) (s : Server) (s' : Server)
      → IsTracked s.pending_repls
      → IsRetried (record s { pending_repls = untrack key id s.pending_repls }) s'
      → IsRetried s s'
  untracked key id s s' h r = record {
    store = r.store;
    tracked = r.tracked;
    forgets = λ k i t q. untrack-Forgets key id s.pending_repls k i t (r.forgets k i t q);
  }

  pub retry_targets-IsRetried :
      (place : Placement) (targets : List RetryTarget) (s : Server) (w : W)
      → IsTracked s.pending_repls
      → IsRetried s (retry_targets env place targets s w).0
  unfolding retry_targets
  retry_targets-IsRetried place [] s w h = record {
    store = refl;
    tracked = h;
    forgets = λ k i t q. q;
  }
  retry_targets-IsRetried place (t ∷ targets) s w h =
      let s' = record s { pending_repls = untrack t.key t.replica_id s.pending_repls } in
      let h' = untrack-IsTracked t.key t.replica_id s.pending_repls h in
      elim (Option-cases (get_with_version t.key (env.now w).0 s.store)) [
        | inl gone ↦
            rw (gone, retry_targets)
              (untracked t.key t.replica_id s (retry_targets env place targets s' (env.now w).1).0 h
                (retry_targets-IsRetried place targets s' (env.now w).1 h'))
        | inr ((value, version, expires_at), p) ↦
            let sent =
              replicate_to env t.key value expires_at t.replica_id (place.replicas t.key)
                (env.now w).1 in
            rw (p, retry_targets)
              (elim (Bool-cases sent.0) [
                | inl acked ↦ rw acked (
                    untracked t.key t.replica_id s (retry_targets env place targets s' sent.1).0 h
                      (retry_targets-IsRetried place targets s' sent.1 h'))
                | inr unsent ↦ rw unsent (retry_targets-IsRetried place targets s sent.1 h)
              ])
      ]

  -- Where the pending replications are well formed, a tick of the retry loop leaves the store
  -- alone and the pending replications well formed, and adds nothing to them: what is still
  -- pending is so since its first failure.
  pub retry_failed_replications-IsRetried :
      (place : Placement) (s : Server) (w : W)
      → IsTracked s.pending_repls
      → IsRetried s (retry_failed_replications env place s w).0
  unfolding retry_failed_replications
  retry_failed_replications-IsRetried place s w h =
      let scan = scan_pending env s.pending_repls s w in
      let (h', f) = scan_pending-IsTracked env s s.pending_repls w h in
      let r =
        retry_targets-IsRetried place scan.1 (record s { pending_repls = scan.0 }) scan.2 h' in
      record {
        store = r.store;
        tracked = r.tracked;
        forgets = λ k i t q. f k i t (r.forgets k i t q);
      }
