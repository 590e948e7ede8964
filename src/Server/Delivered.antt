-- ===== src/Server/Delivered.antt =====
-- internal/server/server.go: a tick of the retry loop takes away what is pending, once the replica
-- answers again.
mod Tests
use self_healing_distributed.Prelude.{
  ℕ, ◌≡◌, refl, sym, ap, subst, ◌∙◌, String, Bool, true, false, ◌&&◌, ◌||◌, Option, none, some,
  List, [], ◌∷◌, ◌++◌, arith, ◌==◌, string_key, nat_key, if◌then◌else◌, Bool-cases, Option-cases,
  inl, inr,
}
use self_healing_distributed.Prelude.Int64.{sle}
use self_healing_distributed.Prelude.Map.{Map, lookup}
use self_healing_distributed.Http.{Env}
use self_healing_distributed.Ring.{Node, seen_in, is_some}
use self_healing_distributed.Ring.Replication.{ids}
use self_healing_distributed.Placement.{Placement}
use self_healing_distributed.Store.{get_with_version}
use self_healing_distributed.Server.{Server, Pending, send, replicate_request}
use self_healing_distributed.Server.Replication.{
  RetryTarget, replicas_of, pending_since, untrack, since, scan_replicas, scan_pending,
  retry_targets, replicate_to, retry_failed_replications,
}
use self_healing_distributed.Server.Pending.{
  IsTracked, Forgets, pending_since-untrack, untrack-IsTracked, absent_replicas, present_replicas,
}
use self_healing_distributed.Server.Retries.{scan_pending-IsTracked}
use self_healing_distributed.Server.Retried.{retry_targets-IsRetried}
use self_healing_distributed.Server.Due.{has_target, IsDue, scan_pending-has_target}

-- Every replication of the key to a node of the identity is answered.
pub record Answers {W : Type 0} (env : Env W) (key id : String) : Type 0 where
  pub answers :
      (n : Node) (value : String) (expires_at : ℕ) (w : W)
      → n.id ≡ id
      → is_some (send env (replicate_request n.addr key value expires_at) w).0 ≡ true

module _ {W : Type 0} (env : Env W) (key id : String) where
  replicate_to-sent :
      (value : String) (expires_at : ℕ) (nodes : List Node) (w : W)
      → seen_in id (ids nodes) ≡ true
      → Answers env key id
      → (replicate_to env key value expires_at id nodes w).0 ≡ true
  unfolding replicate_to seen_in is_some
  replicate_to-sent value expires_at [] w h a = absurd (ground arith)
  replicate_to-sent value expires_at (n ∷ nodes) w h a = elim (Bool-cases (n.id == id)) [
    | inl same ↦
        let named : n.id ≡ id = ground (arith, same, string_key.equals_iff n.id id) in
        let r = replicate_request n.addr key value expires_at in
        rw (same, replicate_to)
          (elim (Option-cases (send env r w).0) [
            | inl silence ↦ absurd (ground (arith, silence, a.answers n value expires_at w named))
            | inr (resp, e) ↦ rw e refl
          ])
    | inr other ↦
        rw (other, replicate_to)
          (replicate_to-sent value expires_at nodes w (ground (arith, other)) a)
  ]

  module _ (place : Placement) where
    -- What is not pending is not pending after some retries.
    retry_targets-none :
        (targets : List RetryTarget) (s : Server) (w : W)
        → IsTracked s.pending_repls
        → pending_since key id s.pending_repls ≡ none
        → pending_since key id (retry_targets env place targets s w).0.pending_repls ≡ none
    retry_targets-none targets s w h e =
        let s' = (retry_targets env place targets s w).0 in
        elim (Option-cases (pending_since key id s'.pending_repls)) [
          | inl q ↦ q
          | inr (t, q) ↦ absurd (
              ground
                (arith, e, (retry_targets-IsRetried env place targets s w h).forgets key id t q))
        ]

    cleared :
        (t : RetryTarget) (targets : List RetryTarget) (s : Server) (w : W)
        → t.key ≡ key
        → t.replica_id ≡ id
        → IsTracked s.pending_repls
        → let s' = record s { pending_repls = untrack t.key t.replica_id s.pending_repls } in
          pending_since key id (retry_targets env place targets s' w).0.pending_repls ≡ none
    cleared t targets s w same same_id h =
        retry_targets-none targets
          (record s { pending_repls = untrack t.key t.replica_id s.pending_repls }) w
          (untrack-IsTracked t.key t.replica_id s.pending_repls h)
          (ground (
            arith,
            same,
            same_id,
            pending_since-untrack t.key t.replica_id s.pending_repls key id,
            string_key.equals_iff t.key key,
            string_key.equals_iff t.replica_id id,
          ))

    abbrev replicate_to_target : RetryTarget → String → ℕ → W → Bool × W
    replicate_to_target t value expires_at =
        replicate_to env t.key value expires_at t.replica_id (place.replicas t.key)

    replicate_to_target-sent :
        (t : RetryTarget) (value : String) (expires_at : ℕ) (w : W)
        → t.key ≡ key
        → t.replica_id ≡ id
        → seen_in id (ids (place.replicas key)) ≡ true
        → Answers env key id
        → (replicate_to_target t value expires_at w).0 ≡ true
    replicate_to_target-sent t value expires_at w same same_id member a =
        subst
          (λ x. (replicate_to env x value expires_at t.replica_id (place.replicas x) w).0 ≡ true)
          (sym same)
          (subst (λ x. (replicate_to env key value expires_at x (place.replicas key) w).0 ≡ true)
            (sym same_id) (replicate_to-sent value expires_at (place.replicas key) w member a))

    retry_targets-clears :
        (targets : List RetryTarget) (s : Server) (w : W)
        → IsTracked s.pending_repls
        → seen_in id (ids (place.replicas key)) ≡ true
        → Answers env key id
        → has_target key id targets ≡ true
        → pending_since key id (retry_targets env place targets s w).0.pending_repls ≡ none
    unfolding retry_targets has_target
    retry_targets-clears [] s w h member a q = absurd (ground arith)
    retry_targets-clears (t ∷ targets) s w h member a q =
        let h' = untrack-IsTracked t.key t.replica_id s.pending_repls h in
        let s' = record s { pending_repls = untrack t.key t.replica_id s.pending_repls } in
        elim (Bool-cases (t.key == key && t.replica_id == id)) [
          | inl here ↦
              let same : t.key ≡ key = ground (arith, here, string_key.equals_iff t.key key) in
              let same_id : t.replica_id ≡ id =
                ground (arith, here, string_key.equals_iff t.replica_id id) in
              elim (Option-cases (get_with_version t.key (env.now w).0 s.store)) [
                | inl gone ↦
                    rw (gone, retry_targets) (cleared t targets s (env.now w).1 same same_id h)
                | inr ((value, version, expires_at), p) ↦
                    let to = replicate_to_target t value expires_at (env.now w).1 in
                    let sent : to.0 ≡ true =
                      replicate_to_target-sent t value expires_at (env.now w).1 same same_id member
                        a in
                    rw (p, retry_targets) (rw sent (cleared t targets s to.1 same same_id h))
              ]
          | inr other ↦
              let later : has_target key id targets ≡ true = ground (arith, other) in
              elim (Option-cases (get_with_version t.key (env.now w).0 s.store)) [
                | inl gone ↦
                    rw (gone, retry_targets)
                      (retry_targets-clears targets s' (env.now w).1 h' member a later)
                | inr ((value, version, expires_at), p) ↦
                    let to = replicate_to_target t value expires_at (env.now w).1 in
                    rw (p, retry_targets)
                      (elim (Bool-cases to.0) [
                        | inl acked ↦
                            rw acked (retry_targets-clears targets s' to.1 h' member a later)
                        | inr unsent ↦
                            rw unsent (retry_targets-clears targets s to.1 h member a later)
                      ])
              ]
        ]

    -- Where the pending replications are well formed, and the replication of a key to a replica of it
    -- has been pending since some time, is due for a retry and not too old by the clock, and the
    -- replica answers every replication of the key: after one tick of the retry loop, it is not
    -- pending any more.
    pub retry_failed_replications-delivers :
        (first : ℕ) (s : Server) (w : W) (Within : W → Type 0)
        → IsTracked s.pending_repls
        → pending_since key id s.pending_repls ≡ some first
        → seen_in id (ids (place.replicas key)) ≡ true
        → IsDue env first s Within
        → Within w
        → Answers env key id
        → pending_since key id (retry_failed_replications env place s w).0.pending_repls ≡ none
    unfolding retry_failed_replications
    retry_failed_replications-delivers first s w Within h since_first member clock q a =
        let scan = scan_pending env s.pending_repls s w in
        retry_targets-clears scan.1 (record s { pending_repls = scan.0 }) scan.2
          (scan_pending-IsTracked env s s.pending_repls w h).0 member a
          (scan_pending-has_target env key id first s Within clock s.pending_repls w q since_first)
