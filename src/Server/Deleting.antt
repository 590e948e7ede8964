-- ===== src/Server/Deleting.antt =====
-- What a read through internal/server/server.go finds after a deletion through it.
mod Tests
use self_healing_distributed.Prelude.{
  ℕ, ◌≡◌, refl, sym, ap, subst, ◌∙◌, String, true, false, Option, none, some, [], ◌∷◌, ◌++◌, ◌==◌,
  arith, string_key, nat_key, if◌then◌else◌,
}
use self_healing_distributed.Prelude.Map.{lookup}
use self_healing_distributed.Http.{
  Env, Request, Response, text, ok, not_found, write_json, write_error,
}
use self_healing_distributed.Placement.{Placement}
use self_healing_distributed.Store.{Store}
use self_healing_distributed.Store.Access.{get, get_read, read_item, get_finish, result_of, remove}
use self_healing_distributed.Store.Lookups.{delete_locked-lookup}
use self_healing_distributed.Server.{Server, replicate_deletion, start, owns_local}
use self_healing_distributed.Server.Forward.{store_get, read_from_replica, value_response}
use self_healing_distributed.Server.Handlers.{
  handle_delete, handle_get, read_owned, read_missing, missing_key,
}
use self_healing_distributed.Server.Reading.{handle_get-owned}

get_missing :
    (key : String) (now now' : ℕ) (s : Store)
    → lookup key s.entries ≡ none
    → get key now now' s ≡ (none, s)
unfolding get get_read read_item result_of get_finish
get_missing key now now' s h = rw h refl

module _ {W : Type 0} (env : Env W) (place : Placement) where
  abbrev pub erased : String → Server → Server
  erased key s = record s {
    store = remove key s.store;
    tasks = s.tasks ++ replicate_deletion key ∷ [];
  }

  handle_delete-owned :
      (r : Request) (s : Server) (w : W)
      → (r.method == "DELETE") ≡ true
      → (r.key == "") ≡ false
      → owns_local place r.key s ≡ true
      → handle_delete env place r s w
        ≡ (write_json ok (("status", text "ok") ∷ []), erased r.key s, w)
  unfolding handle_delete start
  handle_delete-owned r s w delete named own = rw delete (rw named (rw own refl))

  store_get-missing :
      (key : String) (s : Server) (w : W)
      → lookup key s.store.entries ≡ none
      → store_get env key s w ≡ (none, s, (env.now (env.now w).1).1)
  unfolding store_get
  store_get-missing key s w gone =
      ap (λ x. (x.0, record s { store = x.1 }, (env.now (env.now w).1).1))
        (get_missing key (env.now w).0 (env.now (env.now w).1).0 s.store gone)

  -- What `handleGet` does with the result of the local read.
  abbrev after_get : String → Option String × Server × W → Response × Server × W
  after_get key (value, s, w) = elim value [
    | some v ↦ (value_response key v, s, w)
    | none ↦ read_missing env place key s w
  ]

  read_owned-store_get :
      (key : String) (s : Server) (w : W)
      → read_owned env place key s w ≡ after_get key (store_get env key s w)
  unfolding read_owned
  read_owned-store_get key s w = refl

  read_missing_nowhere :
      (key : String) (s : Server) (w : W)
      → (read_from_replica env place key s w).0 ≡ none
      → (read_missing env place key s w).0 ≡ write_error not_found "key not found"
  unfolding read_missing
  read_missing_nowhere key s w no_copy = rw (no_copy, read_missing) refl

  -- A read at the owner whose store does not have the key, and whose replicas have no copy either.
  read_owned-missing :
      (key : String) (s : Server) (w : W)
      → lookup key s.store.entries ≡ none
      → (read_from_replica env place key s (env.now (env.now w).1).1).0 ≡ none
      → (read_owned env place key s w).0 ≡ write_error not_found "key not found"
  read_owned-missing key s w gone no_copy =
      ap (λ x. x.0)
        (read_owned-store_get key s w ∙ ap (after_get key) (store_get-missing key s w gone))
      ∙ read_missing_nowhere key s (env.now (env.now w).1).1 no_copy

  -- A deletion at the owner of the key is answered 200 and starts one deletion at the replicas; a
  -- read of the key at the same node right afterwards is answered 404, where none of the replicas
  -- that the node then asks has a copy.
  pub handle_delete-handle_get :
      (r q : Request) (s : Server) (w : W)
      → (r.method == "DELETE") ≡ true
      → (r.key == "") ≡ false
      → owns_local place r.key s ≡ true
      → (q.method == "GET") ≡ true
      → q.key ≡ r.key
      → (read_from_replica env place r.key
          (handle_delete env place r s w).1
          (env.now (env.now w).1).1).0
        ≡ none
      → let (resp, s', w') = handle_delete env place r s w in
        let (resp', s'', w'') = handle_get env place q s' w' in
        (resp.status ≡ ok)
        × (s'.tasks ≡ s.tasks ++ replicate_deletion r.key ∷ [])
        × (resp'.status ≡ not_found)
  handle_delete-handle_get r q s w delete named own get_method same no_copy =
      let e = handle_delete-owned r s w delete named own in
      let s' = erased r.key s in
      let own' : owns_local place r.key s' ≡ true = unfold owns_local in own in
      let gone : lookup r.key s'.store.entries ≡ none =
        unfold remove in
        ground
          (arith, delete_locked-lookup r.key s.store r.key, string_key.equals_iff r.key r.key) in
      let no_copy' =
        subst (λ y. (read_from_replica env place r.key y.1 (env.now (env.now w).1).1).0 ≡ none) e
          no_copy in
      rw e (
        unfold write_json in refl,
        refl,
        ap (λ y. y.0.status) (handle_get-owned env place q r.key s' w get_method same named own')
            ∙ ap (λ x. x.status) (read_owned-missing r.key s' w gone no_copy')
            ∙ unfold write_error write_json in refl,
      )
