-- ===== src/Server/Records.antt =====
-- internal/server/server.go: a replication records the replicas that it did not reach.
use self_healing_distributed.Prelude.{
  ℕ, ◌≡◌, refl, ◌∙◌, String, Bool, true, false, some, List, [], ◌∷◌, arith, string_key, nat_key,
  ◌==◌, Bool-cases, Option-cases, inl, inr, if◌then◌else◌,
}
use self_healing_distributed.Http.{Env}
use self_healing_distributed.Ring.{Node, seen_in}
use self_healing_distributed.Ring.Replication.{ids}
use self_healing_distributed.Placement.{Placement}
use self_healing_distributed.Server.{Server, send, replicate_request}
use self_healing_distributed.Server.Replication.{
  pending_since, track_failed_replication, replicate_each, replicate_set,
}
use self_healing_distributed.Server.Pending.{
  IsTracked, Forgets, track-IsTracked, pending_since-track,
}

-- A replica of the key, and not the node itself, is pending after the replication.
abbrev pub IsMissing : String → List Node → Server → Server → Type 0
IsMissing key nodes s s' =
    (id : String) × (t : ℕ) × (pending_since key id s'.pending_repls ≡ some t)
    × (seen_in id (ids nodes) ≡ true)
    × ((id == s.node_id) ≡ false)

-- The node after a replication of the key to the nodes: its store is the same, and what was pending
-- is so since the same time. If all went well it is the same node; otherwise one of the replicas,
-- and not the node itself, is pending.
pub record IsReplicated (key : String) (nodes : List Node) (s s' : Server) (success : Bool)
    : Type 0 where
  pub store : s'.store ≡ s.store
  pub self : s'.node_id ≡ s.node_id
  pub tracked : IsTracked s'.pending_repls
  pub keeps : Forgets s'.pending_repls s.pending_repls
  pub outcome : if success then s' ≡ s else IsMissing key nodes s s'

IsMissing-outcome :
    (key : String) (nodes : List Node) (s s' : Server) (success : Bool)
    → success ≡ false
    → IsMissing key nodes s s'
    → (if success then s' ≡ s else IsMissing key nodes s s')
IsMissing-outcome key nodes s s' true h m = absurd (ground arith)
IsMissing-outcome key nodes s s' false h m = m

module _ {W : Type 0} (env : Env W) where
  -- the node once a failure is recorded
  record IsRecorded (key id : String) (s s' : Server) : Type 0 where
    store : s'.store ≡ s.store
    self : s'.node_id ≡ s.node_id
    tracked : IsTracked s'.pending_repls
    keeps : Forgets s'.pending_repls s.pending_repls
    recorded : (t : ℕ) × (pending_since key id s'.pending_repls ≡ some t)

  track_failed-IsRecorded :
      (key id : String) (s : Server) (w : W)
      → IsTracked s.pending_repls
      → IsRecorded key id s (track_failed_replication env key id s w).0
  unfolding track_failed_replication
  track_failed-IsRecorded key id s w h =
      let now = (env.now w).0 in
      let p = s.pending_repls in
      elim (Option-cases (pending_since key id p)) [
        | inr (t, e) ↦
            rw (e, track_failed_replication)
              (record {
                store = refl;
                self = refl;
                tracked = h;
                keeps = λ k i u q. q;
                recorded = (t, e);
              })
        | inl e ↦
            rw (e, track_failed_replication)
              (record {
                store = refl;
                self = refl;
                tracked = track-IsTracked key id now p h;
                keeps = λ k i u q. ground (
                  arith,
                  pending_since-track key id now p k i,
                  string_key.equals_iff key k,
                  string_key.equals_iff id i,
                );
                recorded = (
                  now,
                  ground (
                    arith,
                    pending_since-track key id now p key id,
                    string_key.equals_iff key key,
                    string_key.equals_iff id id,
                  ),
                );
              })
      ]

  -- The first replica is the node itself, or it was reached: nothing is recorded for it.
  skipped :
      (key : String) (n : Node) (nodes : List Node) (s s' : Server) (success : Bool)
      → IsReplicated key nodes s s' success
      → IsReplicated key (n ∷ nodes) s s' success
  skipped key n nodes s s' success r = record {
    store = r.store;
    self = r.self;
    tracked = r.tracked;
    keeps = r.keeps;
    outcome = go success r.outcome;
  }
    where
      go :
          (b : Bool)
          → (if b then s' ≡ s else IsMissing key nodes s s')
          → (if b then s' ≡ s else IsMissing key (n ∷ nodes) s s')
      go true h = h
      go false (id, t, e, member, other) = (id, t, e, unfold seen_in in ground arith, other)

  -- Once a replica has failed the outcome is a failure, which is recorded.
  replicate_each_failed :
      (key value : String) (expires_at : ℕ) (nodes : List Node) (s : Server) (w : W)
      → IsTracked s.pending_repls
      → let (success, s', w') = replicate_each env key value expires_at nodes false s w in
        (success ≡ false)
        × (s'.store ≡ s.store)
        × (s'.node_id ≡ s.node_id)
        × IsTracked s'.pending_repls
        × Forgets s'.pending_repls s.pending_repls
  unfolding replicate_each
  replicate_each_failed key value expires_at [] s w h = (refl, refl, refl, h, λ k i t q. q)
  replicate_each_failed key value expires_at (n ∷ nodes) s w h =
      let sent = send env (replicate_request n.addr key value expires_at) w in
      let tracked = track_failed_replication env key n.id s sent.1 in
      elim (Bool-cases (n.id == s.node_id)) [
        | inl same ↦
            rw (same, replicate_each) (replicate_each_failed key value expires_at nodes s w h)
        | inr other ↦
            rw (other, replicate_each)
              (elim (Option-cases sent.0) [
                | inr (resp, p) ↦ rw p (replicate_each_failed key value expires_at nodes s sent.1 h)
                | inl p ↦
                    let r = track_failed-IsRecorded key n.id s sent.1 h in
                    let (a, b, c, d, e) =
                      replicate_each_failed key value expires_at nodes tracked.0 tracked.1
                        r.tracked in
                    rw p (a, b ∙ r.store, c ∙ r.self, d, λ k i t q. e k i t (r.keeps k i t q))
              ])
      ]

  replicate_each-IsReplicated :
      (key value : String) (expires_at : ℕ) (nodes : List Node) (s : Server) (w : W)
      → IsTracked s.pending_repls
      → let (success, s', w') = replicate_each env key value expires_at nodes true s w in
        IsReplicated key nodes s s' success
  unfolding replicate_each
  replicate_each-IsReplicated key value expires_at [] s w h = record {
    store = refl;
    self = refl;
    tracked = h;
    keeps = λ k i t q. q;
    outcome = refl;
  }
  replicate_each-IsReplicated key value expires_at (n ∷ nodes) s w h =
      let sent = send env (replicate_request n.addr key value expires_at) w in
      let tracked = track_failed_replication env key n.id s sent.1 in
      elim (Bool-cases (n.id == s.node_id)) [
        | inl same ↦
            rw (same, replicate_each)
              (skipped key n nodes s _ _
                (replicate_each-IsReplicated key value expires_at nodes s w h))
        | inr other ↦
            rw (other, replicate_each)
              (elim (Option-cases sent.0) [
                | inr (resp, p) ↦ rw p (
                    skipped key n nodes s _ _
                      (replicate_each-IsReplicated key value expires_at nodes s sent.1 h))
                | inl p ↦
                    let r = track_failed-IsRecorded key n.id s sent.1 h in
                    let (a, b, c, d, e) =
                      replicate_each_failed key value expires_at nodes tracked.0 tracked.1
                        r.tracked in
                    let (t, found) = r.recorded in
                    rw p (record {
                      store = b ∙ r.store;
                      self = c ∙ r.self;
                      tracked = d;
                      keeps = λ k i u q. e k i u (r.keeps k i u q);
                      outcome = IsMissing-outcome key (n ∷ nodes) s _ _ a (
                        n.id,
                        t,
                        e key n.id t found,
                        unfold seen_in in ground (arith, string_key.equals_iff n.id n.id),
                        other,
                      );
                    })
              ])
      ]

  pub replicate_set-IsReplicated :
      (place : Placement) (key value : String) (expires_at : ℕ) (s : Server) (w : W)
      → IsTracked s.pending_repls
      → let (success, s', w') = replicate_set env place key value expires_at s w in
        IsReplicated key (place.replicas key) s s' success
  unfolding replicate_set
  replicate_set-IsReplicated place key value expires_at s w h =
      replicate_each-IsReplicated key value expires_at (place.replicas key) s w h
