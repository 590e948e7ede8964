-- ===== src/Server/Answering.antt =====
-- The handlers of internal/server/server.go for what clients send keep the node sound.
use self_healing_distributed.Prelude.{
  ℕ, String, Bool, true, false, Option, none, some, ◌==◌, string_key, nat_key, Bool-cases,
  Option-cases, inl, inr, if◌then◌else◌,
}
use self_healing_distributed.Prelude.Int64.{slt}
use self_healing_distributed.Time.{milliseconds}
use self_healing_distributed.Http.{Env, Request, Response}
use self_healing_distributed.Placement.{Placement}
use self_healing_distributed.Store.{set_version}
use self_healing_distributed.Store.History.{apply, apply-IsValid, write_version}
use self_healing_distributed.Server.{Server, owns_local}
use self_healing_distributed.Server.Forward.{
  SetRequest, decode_set, encode_set, store_get, read_from_replica,
}
use self_healing_distributed.Server.Handlers.{
  write_owned, set_decoded, handle_set, read_missing, read_owned, handle_get, handle_delete, pull,
  pull_read, handle_rebalance_pull,
}
use self_healing_distributed.Server.Quorum.{QuorumSetRequest, decode_quorum_set}
use self_healing_distributed.Server.Quorum.Handlers.{
  quorum_write, quorum_set_decoded, handle_quorum_set, handle_quorum_get, handle_replica_get,
}
use self_healing_distributed.Server.Validity.{
  IsSound, with_store, store_set-IsSound, store_get-IsSound, forward-IsSound,
  forward_with_body-IsSound, forward_with_fallback-IsSound,
}
use self_healing_distributed.Server.Serving.{erased-IsSound, started-IsSound}

module _ {W : Type 0} (env : Env W) (place : Placement) where
  pub guarded_by :
      (b : Bool) (x y : Response × Server × W)
      → IsSound x.1
      → IsSound y.1
      → IsSound (if b then x else y).1
  guarded_by true x y v v' = v
  guarded_by false x y v v' = v'

  set_decoded-IsSound :
      (r : Request) (o : Option SetRequest) (s : Server) (w : W)
      → IsSound s
      → IsSound (set_decoded env place r o s w).1
  unfolding set_decoded write_owned
  set_decoded-IsSound r none s w v = v
  set_decoded-IsSound r (some req) s w v = elim (Bool-cases (req.key == "")) [
    | inl empty ↦ rw (empty, set_decoded) v
    | inr keyed ↦
        rw (keyed, set_decoded)
          (elim (Bool-cases (slt req.ttl_ms 0)) [
            | inl negative ↦ rw negative v
            | inr positive ↦ rw positive (elim (Bool-cases (owns_local place req.key s)) [
              | inl own ↦ rw own (
                  started-IsSound _ _
                    (store_set-IsSound env req.key req.value (milliseconds req.ttl_ms) s w v))
              | inr other ↦
                  rw other (forward_with_body-IsSound env place r req.key (encode_set req) s w v)
            ])
          ])
  ]

  read_missing-IsSound :
      (key : String) (s : Server) (w : W) → IsSound s → IsSound (read_missing env place key s w).1
  unfolding read_missing
  read_missing-IsSound key s w v = elim (Option-cases (read_from_replica env place key s w).0) [
    | inl p ↦ rw (p, read_missing) v
    | inr (copy, p) ↦ rw (p, read_missing) (started-IsSound _ s v)
  ]

  read_owned-IsSound :
      (key : String) (s : Server) (w : W) → IsSound s → IsSound (read_owned env place key s w).1
  unfolding read_owned
  read_owned-IsSound key s w v =
      let read = store_get env key s w in
      let v' = store_get-IsSound env key s w v in
      elim (Option-cases read.0) [
        | inl p ↦ rw (p, read_owned) (read_missing-IsSound key read.1 read.2 v')
        | inr (x, p) ↦ rw (p, read_owned) v'
      ]

  pull_read-IsSound :
      (key : String) (read : Option String × Server × W)
      → IsSound read.1
      → IsSound (pull_read env place key read).1
  unfolding pull_read
  pull_read-IsSound key (none, s, w) v = read_missing-IsSound key s w v
  pull_read-IsSound key (some x, s, w) v = v

  pull-IsSound :
      (key : String) (s : Server) (w : W) → IsSound s → IsSound (pull env place key s w).1
  unfolding pull
  pull-IsSound key s w v =
      pull_read-IsSound key (store_get env key s w) (store_get-IsSound env key s w v)

  quorum_write-IsSound :
      (req : QuorumSetRequest) (s : Server) (w : W)
      → IsSound s
      → IsSound (quorum_write env place req s w).1
  unfolding quorum_write apply
  quorum_write-IsSound req s w v = written _ _
    where
      written :
          (expires_at version : ℕ)
          → IsSound
              (record s { store = (set_version req.key req.value expires_at version s.store).1 })
      written expires_at version =
          with_store s _ v
            (apply-IsValid (write_version req.key req.value expires_at version) s.store v.store)

  quorum_set_decoded-IsSound :
      (o : Option QuorumSetRequest) (s : Server) (w : W)
      → IsSound s
      → IsSound (quorum_set_decoded env place o s w).1
  unfolding quorum_set_decoded
  quorum_set_decoded-IsSound none s w v = v
  quorum_set_decoded-IsSound (some req) s w v = elim (Bool-cases (req.key == "")) [
    | inl empty ↦ rw (empty, quorum_set_decoded) v
    | inr keyed ↦
        rw (keyed, quorum_set_decoded)
          (elim (Bool-cases (owns_local place req.key s)) [
            | inl own ↦ rw own (quorum_write-IsSound req s w v)
            | inr other ↦ rw other v
          ])
  ]

  module _ (r : Request) (s : Server) (w : W) (v : IsSound s) where
    pub handle_set-IsSound : IsSound (handle_set env place r s w).1
    unfolding handle_set
    handle_set-IsSound =
        guarded_by (r.method == "POST") _ _ (set_decoded-IsSound r (decode_set r.body) s w v) v

    pub handle_get-IsSound : IsSound (handle_get env place r s w).1
    unfolding handle_get
    handle_get-IsSound =
        guarded_by (r.method == "GET") _ _
          (guarded_by (r.key == "") _ _ v (
            guarded_by (owns_local place r.key s) _ _ (read_owned-IsSound r.key s w v)
              (forward_with_fallback-IsSound env place r.key s w v)))
          v

    pub handle_delete-IsSound : IsSound (handle_delete env place r s w).1
    unfolding handle_delete
    handle_delete-IsSound =
        guarded_by (r.method == "DELETE") _ _
          (guarded_by (r.key == "") _ _ v (
            guarded_by (owns_local place r.key s) _ _
              (started-IsSound _ _ (erased-IsSound r.key s v))
              (forward-IsSound env place r r.key s w v)))
          v

    pub handle_rebalance_pull-IsSound : IsSound (handle_rebalance_pull env place r s w).1
    unfolding handle_rebalance_pull
    handle_rebalance_pull-IsSound =
        guarded_by (r.method == "POST") _ _
          (guarded_by (r.key == "") _ _ v (pull-IsSound r.key s w v)) v

    pub handle_quorum_set-IsSound : IsSound (handle_quorum_set env place r s w).1
    unfolding handle_quorum_set
    handle_quorum_set-IsSound =
        guarded_by (r.method == "POST") _ _
          (quorum_set_decoded-IsSound (decode_quorum_set r.body) s w v) v

    pub handle_quorum_get-IsSound : IsSound (handle_quorum_get env place r s w).1
    unfolding handle_quorum_get
    handle_quorum_get-IsSound =
        guarded_by (r.method == "GET") _ _ (guarded_by (r.key == "") _ _ v v) v

    pub handle_replica_get-IsSound : IsSound (handle_replica_get env place r s w).1
    unfolding handle_replica_get
    handle_replica_get-IsSound = guarded_by (r.key == "") _ _ v v
