-- ===== src/Server/Reading.antt =====
-- What can be read through internal/server/server.go after a write through it.
use self_healing_distributed.Prelude.{
  ℕ, ◌≡◌, refl, sym, ap, subst, ◌∙◌, String, true, false, none, some, [], ◌∷◌, ◌++◌, ◌==◌,
  string_key, nat_key, if◌then◌else◌,
}
use self_healing_distributed.Prelude.Int64.{slt}
use self_healing_distributed.Prelude.Map.{lookup}
use self_healing_distributed.Time.{is_expired, unix_milli, milliseconds}
use self_healing_distributed.Http.{
  Env, Request, decode, text_field, number_field, text_of, number_of, ok, write_json,
}
use self_healing_distributed.Placement.{Placement}
use self_healing_distributed.Store.{get_with_version, next_version, expiry_of_ttl, has_version}
use self_healing_distributed.Store.Invariant.{IsValid, size_of}
use self_healing_distributed.Store.Written.{Fits, set-get, set_with_expiry-get, set_version-get}
use self_healing_distributed.Server.{
  Server, replicate, start, owns_local, expiry_of_wire, replicate_request,
}
use self_healing_distributed.Server.Forward.{
  SetRequest, decode_set, store_set, store_get, value_response, forward_with_fallback,
}
use self_healing_distributed.Server.Handlers.{
  handle_set, missing_key, set_decoded, write_owned, handle_get, read_owned, handle_replica_set,
  store_replica, decode_replicate,
}
use self_healing_distributed.Server.Quorum.{
  quorum_set_request, handle_replica_quorum_set, store_versioned, decode_versioned,
}

-- A message that replicates a write of a key that is not empty to a node whose store is well formed
-- and has room for it is answered 200, and leaves the node with the value, the next version that it
-- has for the key, and the expiry as it went over the wire; a read finds nothing once that has
-- passed.
pub handle_replica_set-get :
    (addr key value : String) (expires_at now : ℕ) (s : Server)
    → (key == "") ≡ false
    → IsValid s.store
    → Fits s.store (size_of key value)
    → let (resp, s') = handle_replica_set (replicate_request addr key value expires_at) s in
      let expiry = expiry_of_wire (unix_milli expires_at) in
      (resp.status ≡ ok)
      × (get_with_version key now s'.store ≡ (
          if is_expired expiry now
          then none
          else some (value, next_version (lookup key s.store.entries), expiry)))
unfolding handle_replica_set replicate_request decode_replicate decode text_field number_field
    text_of number_of lookup store_replica write_json
handle_replica_set-get addr key value expires_at now s named v fits = rw named (
  refl,
  set_with_expiry-get key value (expiry_of_wire (unix_milli expires_at)) now s.store v fits,
)

-- A message of a quorum write of a key that is not empty to a node whose store is well formed and
-- has room for it is answered 200, and leaves the node with its version or a later one of the key.
pub handle_replica_quorum_set-acks :
    (addr key value : String) (expires_at version : ℕ) (s : Server)
    → (key == "") ≡ false
    → IsValid s.store
    → Fits s.store (size_of key value)
    → let (resp, s') =
        handle_replica_quorum_set (quorum_set_request addr key value expires_at version) s in
      (resp.status ≡ ok) × (has_version (lookup key s'.store.entries) version ≡ true)
unfolding handle_replica_quorum_set quorum_set_request decode_versioned decode text_field
    number_field text_of number_of lookup store_versioned write_json
handle_replica_quorum_set-acks addr key value expires_at version s named v fits = rw named (
  refl,
  (set_version-get key value (expiry_of_wire (unix_milli expires_at)) version 0 s.store v fits).0,
)

module _ {W : Type 0} (env : Env W) (place : Placement) where
  -- A write that passes all checks at the owner is carried out.
  pub handle_set-owned :
      (r : Request) (req : SetRequest) (s : Server) (w : W)
      → (r.method == "POST") ≡ true
      → decode_set r.body ≡ some req
      → (req.key == "") ≡ false
      → slt req.ttl_ms 0 ≡ false
      → owns_local place req.key s ≡ true
      → handle_set env place r s w ≡ write_owned env place req s w
  unfolding handle_set
  handle_set-owned r req s w post decoded named positive own = rw post (
      ap (λ o. set_decoded env place r o s w) decoded
      ∙ unfold set_decoded in rw (named, set_decoded) (rw positive (rw own refl)))

  read_owned-found :
      (key value : String) (s : Server) (w : W)
      → (store_get env key s w).0 ≡ some value
      → (read_owned env place key s w).0 ≡ value_response key value
  unfolding read_owned
  read_owned-found key value s w p = rw (p, read_owned) refl

  -- A read that passes all checks at the owner is served there.
  pub handle_get-owned :
      (q : Request) (key : String) (s : Server) (w : W)
      → (q.method == "GET") ≡ true
      → q.key ≡ key
      → (key == "") ≡ false
      → owns_local place key s ≡ true
      → handle_get env place q s w ≡ read_owned env place key s w
  unfolding handle_get
  handle_get-owned q key s w get_method same named own = rw get_method (
      subst
        (λ k.
          (if k == ""
            then (missing_key, s, w)
            else if owns_local place k s
            then read_owned env place k s w
            else forward_with_fallback env place k s w)
          ≡ read_owned env place key s w)
        (sym same) (rw (named, own) refl))

  -- A well-formed write, with a key and no negative time to live, at the owner of the key, whose
  -- store is well formed and has room for it, is answered 200 and starts one replication of it; a
  -- read of the key at the same node right afterwards is answered with the value, where its time
  -- to live has not run out by then.
  pub handle_set-handle_get :
      (r q : Request) (req : SetRequest) (s : Server) (w : W)
      → (r.method == "POST") ≡ true
      → decode_set r.body ≡ some req
      → (req.key == "") ≡ false
      → slt req.ttl_ms 0 ≡ false
      → owns_local place req.key s ≡ true
      → (q.method == "GET") ≡ true
      → q.key ≡ req.key
      → IsValid s.store
      → Fits s.store (size_of req.key req.value)
      → is_expired
          (expiry_of_ttl (milliseconds req.ttl_ms) (env.now w).0)
          (env.now (handle_set env place r s w).2).0
        ≡ false
      → let (resp, s', w') = handle_set env place r s w in
        let (resp', s'', w'') = handle_get env place q s' w' in
        let copied = expiry_of_ttl (milliseconds req.ttl_ms) (env.now (env.now w).1).0 in
        (resp.status ≡ ok)
        × (s'.tasks ≡ s.tasks ++ replicate req.key req.value copied ∷ [])
        × (resp' ≡ value_response req.key req.value)
  unfolding write_owned store_set start
  handle_set-handle_get r q req s w post decoded named positive own get_method same v fits live =
      let key = req.key in
      let e = handle_set-owned r req s w post decoded named positive own in
      let x = write_owned env place req s w in
      let own' : owns_local place key x.1 ≡ true =
        unfold owns_local write_owned store_set start in own in
      let live' : is_expired (expiry_of_ttl (milliseconds req.ttl_ms) (env.now w).0) (env.now x.2).0
          ≡ false =
        ap (λ y. is_expired (expiry_of_ttl (milliseconds req.ttl_ms) (env.now w).0) (env.now y.2).0)
          (sym e)
        ∙ live in
      rw e (
        refl,
        refl,
        ap (λ y. y.0) (handle_get-owned q key x.1 x.2 get_method same named own')
            ∙ read_owned-found key req.value x.1 x.2 (
                unfold store_get write_owned store_set start in
                (set-get key req.value (milliseconds req.ttl_ms) (env.now w).0 (env.now x.2).0
                    (env.now (env.now x.2).1).0 s.store v fits
                  ∙ rw live' refl)),
      )
