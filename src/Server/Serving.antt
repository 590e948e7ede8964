-- ===== src/Server/Serving.antt =====
-- The handlers of internal/server/server.go for what other nodes send keep the node sound.
use self_healing_distributed.Prelude.{
  ℕ, String, Bool, true, false, Option, none, some, ◌==◌, string_key, nat_key, if◌then◌else◌,
}
use self_healing_distributed.Http.{Request, Response}
use self_healing_distributed.Store.{set_with_expiry}
use self_healing_distributed.Store.Access.{remove}
use self_healing_distributed.Store.History.{
  apply, apply-IsValid, write_with_expiry, write_version, erase,
}
use self_healing_distributed.Server.{Server, Task, start, expiry_of_wire}
use self_healing_distributed.Server.Handlers.{
  ReplicateRequest, decode_replicate, store_replica, handle_replica_set, handle_replica_delete,
  accept, handle_rebalance_accept, handle_rebalance_complete,
}
use self_healing_distributed.Server.Quorum.{
  VersionedWrite, decode_versioned, store_versioned, handle_replica_quorum_set,
}
use self_healing_distributed.Server.Validity.{IsSound, with_store}

-- A node into whose store a value with an expiry is written, and one without the key.
pub stored-IsSound :
    (key value : String) (expires_at : ℕ) (s : Server)
    → IsSound s
    → IsSound (record s { store = set_with_expiry key value expires_at s.store })
unfolding apply
stored-IsSound key value expires_at s v =
    with_store s _ v (apply-IsValid (write_with_expiry key value expires_at) s.store v.store)

pub erased-IsSound :
    (key : String) (s : Server) → IsSound s → IsSound (record s { store = remove key s.store })
unfolding apply
erased-IsSound key s v = with_store s _ v (apply-IsValid (erase key) s.store v.store)

-- `go f()`
pub started-IsSound : (t : Task) (s : Server) → IsSound s → IsSound (start t s)
unfolding start
started-IsSound t s v = record { store = v.store; pending = v.pending }

-- A handler checks the method and the key, and leaves the node alone where they are wrong.
guarded :
    (b : Bool) (x y : Response × Server)
    → IsSound x.1
    → IsSound y.1
    → IsSound (if b then x else y).1
guarded true x y v v' = v
guarded false x y v v' = v'

store_replica-IsSound :
    (o : Option ReplicateRequest) (s : Server) → IsSound s → IsSound (store_replica o s).1
unfolding store_replica
store_replica-IsSound none s v = v
store_replica-IsSound (some req) s v =
    guarded (req.key == "") _ _ v
      (stored-IsSound req.key req.value (expiry_of_wire req.expires_at_ms) s v)

accept-IsSound : (o : Option ReplicateRequest) (s : Server) → IsSound s → IsSound (accept o s).1
unfolding accept
accept-IsSound none s v = v
accept-IsSound (some req) s v =
    stored-IsSound req.key req.value (expiry_of_wire req.expires_at_ms) s v

store_versioned-IsSound :
    (o : Option VersionedWrite) (s : Server) → IsSound s → IsSound (store_versioned o s).1
unfolding store_versioned apply
store_versioned-IsSound none s v = v
store_versioned-IsSound (some req) s v = with_store s _ v (
    apply-IsValid (write_version req.key req.value (expiry_of_wire req.expires_at_ms) req.version)
      s.store v.store)

module _ (r : Request) (s : Server) (v : IsSound s) where
  pub handle_replica_set-IsSound : IsSound (handle_replica_set r s).1
  unfolding handle_replica_set
  handle_replica_set-IsSound =
      guarded (r.method == "POST") _ _ (store_replica-IsSound (decode_replicate r.body) s v) v

  pub handle_replica_delete-IsSound : IsSound (handle_replica_delete r s).1
  unfolding handle_replica_delete
  handle_replica_delete-IsSound =
      guarded (r.method == "DELETE") _ _ (guarded (r.key == "") _ _ v (erased-IsSound r.key s v)) v

  pub handle_rebalance_accept-IsSound : IsSound (handle_rebalance_accept r s).1
  unfolding handle_rebalance_accept
  handle_rebalance_accept-IsSound =
      guarded (r.method == "POST") _ _
        (guarded (r.key == "") _ _ v (accept-IsSound (decode_replicate r.body) s v)) v

  pub handle_rebalance_complete-IsSound : IsSound (handle_rebalance_complete r s).1
  unfolding handle_rebalance_complete
  handle_rebalance_complete-IsSound =
      guarded (r.method == "POST") _ _ (guarded (r.key == "") _ _ v (erased-IsSound r.key s v)) v

  pub handle_replica_quorum_set-IsSound : IsSound (handle_replica_quorum_set r s).1
  unfolding handle_replica_quorum_set
  handle_replica_quorum_set-IsSound =
      guarded (r.method == "POST") _ _
        (guarded (r.key == "") _ _ v (store_versioned-IsSound (decode_versioned r.body) s v)) v
