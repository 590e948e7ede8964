-- ===== src/Server/Due.antt =====
-- internal/server/server.go: the scan of a tick of the retry loop plans a retry of what is due.
use self_healing_distributed.Prelude.{
  ℕ, ◌≡◌, refl, sym, subst, ◌∙◌, String, Bool, true, false, ◌&&◌, ◌||◌, some, List, [], ◌∷◌, ◌++◌,
  arith, ◌==◌, string_key, nat_key, Bool-cases, inl, inr,
}
use self_healing_distributed.Prelude.Int64.{sle}
use self_healing_distributed.Prelude.Map.{Map, lookup}
use self_healing_distributed.Http.{Env}
use self_healing_distributed.Server.{Server, Pending}
use self_healing_distributed.Server.Replication.{
  RetryTarget, replicas_of, pending_since, since, scan_replicas, scan_pending,
}

-- Whether a retry of the key to the replica is planned.
unfoldable pub has_target : String → String → List RetryTarget → Bool
has_target key id [] = false
has_target key id (t ∷ ts) = t.key == key && t.replica_id == id || has_target key id ts

has_target-append :
    (key id : String) (ts us : List RetryTarget)
    → has_target key id (ts ++ us) ≡ (has_target key id ts || has_target key id us)
unfolding has_target
has_target-append key id [] us = refl
has_target-append key id (t ∷ ts) us = ground (arith, has_target-append key id ts us)

-- The clock, as the node reads it from a state of the network on: what failed first at a time is
-- due for a retry, and not too old.
pub record IsDue {W : Type 0} (env : Env W) (first : ℕ) (s : Server) (Within : W → Type 0)
    : Type 0 where
  pub stays : (w : W) → Within w → Within (env.now w).1
  pub due : (w : W) → Within w → sle s.retry_interval (since first (env.now w).0) ≡ true
  pub young : (w : W) → Within w → sle s.max_pending_age (since first (env.now w).0) ≡ false

module _ {W : Type 0} (env : Env W) (key id : String) where
  module _ (first : ℕ) (s : Server) (Within : W → Type 0) (clock : IsDue env first s Within) where
    scan_replicas-has_target :
        (m : Map String ℕ) (w : W)
        → Within w
        → lookup id m ≡ some first
        → has_target key id (scan_replicas env key m s w).1 ≡ true
    unfolding scan_replicas has_target lookup
    scan_replicas-has_target [] w q h = absurd (ground arith)
    scan_replicas-has_target ((i, t) ∷ m) w q h =
        let age = since t (env.now w).0 in
        let rest = scan_replicas env key m s (env.now w).1 in
        elim (Bool-cases (i == id)) [
          | inl same ↦
              let e : t ≡ first = ground (arith, same) in
              rw e (
                rw (clock.young w q)
                  (rw (clock.due w q) (ground (arith, same, string_key.equals_iff key key))))
          | inr other ↦
              let below =
                scan_replicas-has_target m (env.now w).1 (clock.stays w q) (ground arith) in
              elim (Bool-cases (sle s.max_pending_age age)) [
                | inl old ↦ rw old below
                | inr young ↦ rw young (elim (Bool-cases (sle s.retry_interval age)) [
                  | inl due ↦ rw due (ground (arith, below))
                  | inr early ↦ rw early below
                ])
              ]
        ]

  scan_replicas-Within :
      (first : ℕ) (s : Server) (Within : W → Type 0) (clock : IsDue env first s Within) (k : String)
      (m : Map String ℕ) (w : W)
      → Within w
      → Within (scan_replicas env k m s w).2
  unfolding scan_replicas
  scan_replicas-Within first s Within clock k [] w q = q
  scan_replicas-Within first s Within clock k ((i, t) ∷ m) w q =
      let age = since t (env.now w).0 in
      let below = scan_replicas-Within first s Within clock k m (env.now w).1 (clock.stays w q) in
      elim (Bool-cases (sle s.max_pending_age age)) [
        | inl old ↦ rw (old, scan_replicas) below
        | inr young ↦
            rw (young, scan_replicas)
              (elim (Bool-cases (sle s.retry_interval age)) [
                | inl due ↦ rw due below
                | inr early ↦ rw early below
              ])
      ]

  pub scan_pending-has_target :
      (first : ℕ) (s : Server) (Within : W → Type 0) (clock : IsDue env first s Within)
      (p : Pending) (w : W)
      → Within w
      → pending_since key id p ≡ some first
      → has_target key id (scan_pending env p s w).1 ≡ true
  unfolding scan_pending pending_since replicas_of lookup
  scan_pending-has_target first s Within clock [] w q h = absurd (ground arith)
  scan_pending-has_target first s Within clock ((k, m) ∷ p) w q h =
      let scan = scan_replicas env k m s w in
      has_target-append key id scan.1 (scan_pending env p s scan.2).1
      ∙ elim (Bool-cases (k == key)) [
        | inl same ↦
            let e : k ≡ key = ground (arith, same, string_key.equals_iff k key) in
            let found : lookup id m ≡ some first = ground (arith, same) in
            let here : has_target key id scan.1 ≡ true =
              subst (λ x. has_target key id (scan_replicas env x m s w).1 ≡ true) (sym e)
                (scan_replicas-has_target first s Within clock m w q found) in
            ground (arith, here)
        | inr other ↦
            let there =
              scan_pending-has_target first s Within clock p scan.2
                (scan_replicas-Within first s Within clock k m w q) (ground (arith, other)) in
            ground (arith, there)
      ]
