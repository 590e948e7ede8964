-- ===== src/Server/Validity.antt =====
-- A node is sound if its store and its pending replications are well formed. Requests that
-- internal/server/server.go forwards, and what it reads and writes for them, keep it sound.
use self_healing_distributed.Prelude.{
  ℕ, String, List, [], ◌∷◌, ◌==◌, nat_key, string_key, Bool-cases, Option-cases, inl, inr,
}
use self_healing_distributed.Time.{milliseconds}
use self_healing_distributed.Http.{Env, Request, Body, read_request_body}
use self_healing_distributed.Ring.{Node}
use self_healing_distributed.Placement.{Placement}
use self_healing_distributed.Store.{Store}
use self_healing_distributed.Store.Access.{get, get_read}
use self_healing_distributed.Store.Invariant.{IsValid}
use self_healing_distributed.Store.History.{apply, apply-IsValid, write, erase, finish}
use self_healing_distributed.Server.{Server, is_node_alive, try_order, send, get_request}
use self_healing_distributed.Server.Pending.{IsTracked}
use self_healing_distributed.Server.Forward.{
  decode_set, store_set, store_get, replica_write, forward_each, forward_to_replica, forward,
  forward_with_body, fallback_each, forward_with_fallback,
}

pub record IsSound (s : Server) : Type 0 where
  pub store : IsValid s.store
  pub pending : IsTracked s.pending_repls

pub with_store :
    (s : Server) (store : Store) → IsSound s → IsValid store → IsSound (record s { store = store })
with_store s store v h = record { store = h; pending = v.pending }

module _ {W : Type 0} (env : Env W) where
  pub store_set-IsSound :
      (key value : String) (ttl : ℕ) (s : Server) (w : W)
      → IsSound s
      → IsSound (store_set env key value ttl s w).0
  unfolding store_set apply
  store_set-IsSound key value ttl s w v =
      with_store s _ v (apply-IsValid (write key value ttl (env.now w).0) s.store v.store)

  pub store_get-IsSound :
      (key : String) (s : Server) (w : W) → IsSound s → IsSound (store_get env key s w).1
  unfolding store_get get apply
  store_get-IsSound key s w v = with_store s _ v (
      apply-IsValid (finish key (get_read key (env.now w).0 s.store) (env.now (env.now w).1).0)
        s.store v.store)

  replica_write-IsSound :
      (r : Request) (key : String) (body : Body) (s : Server) (w : W)
      → IsSound s
      → IsSound (replica_write env r key body s w).1
  unfolding replica_write apply
  replica_write-IsSound r key body s w v = elim (Bool-cases (r.path == "/set")) [
    | inl is_set ↦ rw is_set (elim (Option-cases (decode_set body)) [
      | inl p ↦ rw p v
      | inr (req, p) ↦ rw p (store_set-IsSound req.key req.value (milliseconds req.ttl_ms) s w v)
    ])
    | inr not_set ↦ rw not_set (elim (Bool-cases (r.path == "/delete")) [
      | inl is_delete ↦ rw is_delete (with_store s _ v (apply-IsValid (erase key) s.store v.store))
      | inr other ↦ rw other v
    ])
  ]

  forward_each-IsSound :
      (r : Request) (key : String) (body : Body) (nodes : List Node) (s : Server) (w : W)
      → IsSound s
      → IsSound (forward_each env r key body nodes s w).1
  unfolding forward_each
  forward_each-IsSound r key body [] s w v = v
  forward_each-IsSound r key body (n ∷ nodes) s w v =
      let sent = send env (record r { host = n.addr; key = key; body = body }) w in
      elim (Bool-cases (n.id == s.node_id)) [
        | inl self ↦ rw (self, forward_each) (replica_write-IsSound r key body s w v)
        | inr other ↦
            rw (other, forward_each)
              (elim (Option-cases sent.0) [
                | inl p ↦ rw (p, forward_each) (forward_each-IsSound r key body nodes s sent.1 v)
                | inr (resp, p) ↦ rw (p, forward_each) v
              ])
      ]

  forward_to_replica-IsSound :
      (place : Placement) (r : Request) (key : String) (s : Server) (w : W)
      → IsSound s
      → IsSound (forward_to_replica env place r key s w).1
  unfolding forward_to_replica
  forward_to_replica-IsSound place r key s w v = elim (Option-cases (read_request_body r)) [
    | inl p ↦ rw (p, forward_to_replica) v
    | inr (body, p) ↦
        rw (p, forward_to_replica)
          (forward_each-IsSound r key body (try_order (place.replicas key) s) s w v)
  ]

  pub forward-IsSound :
      (place : Placement) (r : Request) (key : String) (s : Server) (w : W)
      → IsSound s
      → IsSound (forward env place r key s w).1
  unfolding forward
  forward-IsSound place r key s w v = elim (Option-cases (place.owner key)) [
    | inl p ↦ rw (p, forward) v
    | inr (owner, p) ↦
        rw (p, forward)
          (elim (Bool-cases (is_node_alive owner.id s)) [
            | inr dead ↦ rw (dead, forward) (forward_to_replica-IsSound place r key s w v)
            | inl alive ↦
                rw (alive, forward)
                  (elim (Option-cases (read_request_body r)) [
                    | inl q ↦ rw (q, forward) v
                    | inr (body, q) ↦ rw (q, forward) v
                  ])
          ])
  ]

  pub forward_with_body-IsSound :
      (place : Placement) (r : Request) (key : String) (body : Body) (s : Server) (w : W)
      → IsSound s
      → IsSound (forward_with_body env place r key body s w).1
  unfolding forward_with_body
  forward_with_body-IsSound place r key body s w v = elim (Option-cases (place.owner key)) [
    | inl p ↦ rw (p, forward_with_body) v
    | inr (owner, p) ↦
        rw (p, forward_with_body)
          (elim (Bool-cases (is_node_alive owner.id s)) [
            | inr dead ↦
                rw (dead, forward_with_body)
                  (forward_to_replica-IsSound place (record r { body = body }) key s w v)
            | inl alive ↦ rw (alive, forward_with_body) v
          ])
  ]

  fallback_each-IsSound :
      (key : String) (nodes : List Node) (s : Server) (w : W)
      → IsSound s
      → IsSound (fallback_each env key nodes s w).1
  unfolding fallback_each
  fallback_each-IsSound key [] s w v = v
  fallback_each-IsSound key (n ∷ nodes) s w v =
      let sent = send env (get_request n.addr key) w in
      let read = store_get env key s w in
      let v' = store_get-IsSound key s w v in
      elim (Bool-cases (n.id == s.node_id)) [
        | inl self ↦
            rw (self, fallback_each)
              (elim (Option-cases read.0) [
                | inl p ↦ rw (p, fallback_each) (fallback_each-IsSound key nodes read.1 read.2 v')
                | inr (x, p) ↦ rw (p, fallback_each) v'
              ])
        | inr other ↦
            rw (other, fallback_each)
              (elim (Option-cases sent.0) [
                | inl p ↦ rw (p, fallback_each) (fallback_each-IsSound key nodes s sent.1 v)
                | inr (resp, p) ↦ rw (p, fallback_each) v
              ])
      ]

  pub forward_with_fallback-IsSound :
      (place : Placement) (key : String) (s : Server) (w : W)
      → IsSound s
      → IsSound (forward_with_fallback env place key s w).1
  unfolding forward_with_fallback
  forward_with_fallback-IsSound place key s w v =
      let nodes = try_order (place.replicas key) s in
      elim (Option-cases (place.owner key)) [
        | inl p ↦ rw (p, forward_with_fallback) v
        | inr (primary, p) ↦
            let r = get_request primary.addr key in
            rw (p, forward_with_fallback)
              (elim (Bool-cases (is_node_alive primary.id s)) [
                | inr dead ↦
                    rw (dead, forward_with_fallback) (fallback_each-IsSound key nodes s w v)
                | inl alive ↦
                    rw (alive, forward_with_fallback)
                      (elim (Bool-cases (env.well_formed r)) [
                        | inr bad ↦ rw (bad, forward_with_fallback) v
                        | inl good ↦
                            rw (good, forward_with_fallback)
                              (elim (Option-cases (env.round_trip r w).0) [
                                | inl q ↦
                                    rw (q, forward_with_fallback)
                                      (fallback_each-IsSound key nodes s (env.round_trip r w).1 v)
                                | inr (resp, q) ↦ rw (q, forward_with_fallback) v
                              ])
                      ])
              ])
      ]
