-- ===== src/Migration/Steps.antt =====
-- The steps of a migration of internal/rebalance/rebalance.go: what the handlers of the two nodes do
-- with its requests, and how `ExecuteMigration` goes on by what they answer.
use self_healing_distributed.Prelude.{
  ℕ, suc, ◌+◌, ◌-◌, ◌/◌, ◌%◌, ◌<◌, ◌≡◌, refl, ap, ◌∙◌, String, true, false, none, some, [], ◌∷◌,
  arith, ◌==◌, nat_key, string_key,
}
use self_healing_distributed.Prelude.Int64.{two63}
use self_healing_distributed.Prelude.Map.{lookup}
use self_healing_distributed.Time.{is_expired, unix_milli, of_unix_milli, millisecond, epoch_ms}
use self_healing_distributed.Http.{
  Env, Request, Response, Body, Members, object, text, number, decode, text_field, number_field,
  text_of, number_of, ok, write_json,
}
use self_healing_distributed.Placement.{Placement}
use self_healing_distributed.Store.{Entry, Store, get_expiry, set_with_expiry}
use self_healing_distributed.Store.Access.{found, get_finish, remove}
use self_healing_distributed.Store.Lookups.{get_finish-lookup, get-found, get_expiry-found}
use self_healing_distributed.Server.{Server, expiry_of_wire}
use self_healing_distributed.Server.Forward.{store_get}
use self_healing_distributed.Server.Handlers.{
  handle_rebalance_pull, pull, pull_read, handle_rebalance_accept, accept, decode_replicate,
  handle_rebalance_complete,
}
use self_healing_distributed.Server.Routes.{serve, dispatch, route_in}
use self_healing_distributed.Rebalance.{
  Migration, Pulled, execute_migration, after_pull, after_push, push_pulled, fetch, outcome_of,
  bare_request, accept_request, decode_pulled, with_status, complete, unreachable, answered, push,
  verifying,
}
use self_healing_distributed.Migration.{Pair, alone, no_files, at_old, at_new, deliver, between}

-- What a receiver makes of an expiry that was sent: none stays none, and an instant after 1970
-- whose milliseconds fit an `int64` loses what it has below the millisecond.
pub expiry_of_wire-unix_milli :
    (e : ℕ)
    → epoch_ms < e / millisecond
    → e / millisecond < epoch_ms + two63
    → (expiry_of_wire (unix_milli 0) ≡ 0) × (expiry_of_wire (unix_milli e) ≡ e - e % millisecond)
unfolding expiry_of_wire unix_milli of_unix_milli
expiry_of_wire-unix_milli e h k = (refl, ground arith)

-- A key that can be migrated: it is not empty, and the store has it with this entry.
pub record IsHeld (key : String) (item : Entry) (s : Server) (now : ℕ) : Type 0 where
  pub named : (key == "") ≡ false
  pub entry : lookup key s.store.entries ≡ some item
  pub fresh : is_expired item.expires_at now ≡ false

-- The store of the old node after it has served the pull.
abbrev pub touched : String → Entry → Server → ℕ → Store
touched key item s now = get_finish key (found item.value item.lru_element) now s.store

abbrev pub pulled_of : String → Entry → Pulled
pulled_of key item = record {
  key = key;
  value = item.value;
  expires_at_ms = unix_milli item.expires_at;
}

module _ (place : Placement) (key addr : String) where
  -- the answer to a pull, and the old node after it
  abbrev pub offer : Entry → Response
  offer item = write_json ok (
      ("key", text key)
      ∷ ("value", text item.value)
      ∷ ("expires_at_ms", number (unix_milli item.expires_at))
      ∷ [])

  store_get-held :
      (item : Entry) (s : Server) (now : ℕ)
      → IsHeld key item s now
      → store_get alone key s now
        ≡ (some item.value, record s { store = touched key item s (suc now) }, suc (suc now))
  unfolding alone store_get
  store_get-held item s now h =
      ap (λ x. (x.0, record s { store = x.1 }, suc (suc now)))
        (get-found key now (suc now) s.store item h.entry h.fresh)

  pull-held :
      (item : Entry) (s : Server) (now : ℕ)
      → IsHeld key item s now
      → pull alone place key s now
        ≡ (offer item, record s { store = touched key item s (suc now) }, suc (suc now))
  unfolding pull pull_read
  pull-held item s now h =
      let e : get_expiry key (touched key item s (suc now)) ≡ item.expires_at =
        get_expiry-found key (touched key item s (suc now)) item (
          get_finish-lookup key (found item.value item.lru_element) (suc now) s.store key
          ∙ h.entry) in
      ap (pull_read alone place key) (store_get-held item s now h) ∙ rw e refl

  pub serve-pull :
      (item : Entry) (s : Server) (now : ℕ)
      → IsHeld key item s now
      → serve alone place no_files (bare_request addr "/rebalance/pull" key) s now
        ≡ (offer item, record s { store = touched key item s (suc now) }, suc (suc now))
  unfolding serve dispatch route_in handle_rebalance_pull bare_request
  serve-pull item s now h = rw h.named (pull-held item s now h)

  pub serve-accept :
      (pulled : Pulled) (s : Server) (now : ℕ)
      → (key == "") ≡ false
      → serve alone place no_files (accept_request addr key pulled) s now ≡ (
        write_json ok (("status", text "accepted") ∷ ("key", text pulled.key) ∷ []),
        record s {
          store =
              set_with_expiry pulled.key pulled.value (expiry_of_wire pulled.expires_at_ms) s.store;
        },
        now,
      )
  unfolding alone serve dispatch route_in handle_rebalance_accept accept decode_replicate decode
      text_field number_field text_of number_of lookup accept_request
  serve-accept pulled s now h = rw h refl

  pub serve_complete :
      (s : Server) (now : ℕ)
      → (key == "") ≡ false
      → serve alone place no_files (bare_request addr "/rebalance/complete" key) s now ≡ (
        write_json ok (("status", text "deleted") ∷ ("key", text key) ∷ []),
        record s { store = remove key s.store },
        now,
      )
  unfolding alone serve dispatch route_in handle_rebalance_complete bare_request
  serve_complete s now h = rw h refl

-- The steps of `ExecuteMigration`, by what the requests have answered.
module _ {W : Type 0} (env : Env W) (m : Migration) (addr : String) where
  pub execute-answered :
      (body : Body) (pulled : Pulled) (w w' : W)
      → fetch env (bare_request addr "/rebalance/pull" m.key) w ≡ (answered body, w')
      → decode_pulled body ≡ some pulled
      → execute_migration env m addr w ≡ push_pulled env m addr (some pulled) w'
  unfolding execute_migration after_pull
  execute-answered body pulled w w' p q =
      ap (after_pull env m addr) p ∙ ap (λ o. push_pulled env m addr o w') q

  pub push-answered :
      (body : Body) (pulled : Pulled) (w w' : W)
      → fetch env (accept_request m.new_owner.addr m.key pulled) w ≡ (answered body, w')
      → push_pulled env m addr (some pulled) w ≡ (
        none,
        with_status complete m,
        (fetch env (bare_request addr "/rebalance/complete" m.key) w').1,
      )
  unfolding push_pulled after_push
  push-answered body pulled w w' p = ap (after_push env m addr) p

  pub push-unreachable :
      (pulled : Pulled) (w w' : W)
      → fetch env (accept_request m.new_owner.addr m.key pulled) w ≡ (unreachable, w')
      → push_pulled env m addr (some pulled) w ≡ (some push, with_status verifying m, w')
  unfolding push_pulled after_push
  push-unreachable pulled w w' p = ap (after_push env m addr) p

module _ (place : Placement) (old_addr new_addr : String) where
  abbrev pub network : Env Pair
  network = between place old_addr new_addr

  pub fetch-old :
      (r : Request) (p : Pair) (members : Members) (s : Server) (clock : ℕ)
      → (r.host == old_addr) ≡ true
      → serve alone place no_files r p.old p.clock ≡ (write_json ok members, s, clock)
      → fetch network r p
        ≡ (answered (object members), record { old = s; new = p.new; clock = clock })
  unfolding fetch between deliver at_old outcome_of write_json
  fetch-old r p members s clock h e =
      rw h (ap (λ x. (outcome_of (some x.0), record { old = x.1; new = p.new; clock = x.2 })) e)

  pub fetch-new :
      (r : Request) (p : Pair) (members : Members) (s : Server) (clock : ℕ)
      → (r.host == old_addr) ≡ false
      → (r.host == new_addr) ≡ true
      → serve alone place no_files r p.new p.clock ≡ (write_json ok members, s, clock)
      → fetch network r p
        ≡ (answered (object members), record { old = p.old; new = s; clock = clock })
  unfolding fetch between deliver at_new outcome_of write_json
  fetch-new r p members s clock h h' e =
      rw (h, h')
        (ap (λ x. (outcome_of (some x.0), record { old = p.old; new = x.1; clock = x.2 })) e)

  pub fetch-away :
      (r : Request) (p : Pair)
      → (r.host == old_addr) ≡ false
      → (r.host == new_addr) ≡ false
      → fetch network r p ≡ (unreachable, p)
  unfolding fetch between deliver outcome_of
  fetch-away r p h h' = rw (h, h') refl
