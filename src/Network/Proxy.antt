-- ===== src/Network/Proxy.antt =====
-- Requests for a key to a node of internal/server/server.go that does not own it, and that reaches the
-- owner. Both nodes place the key alike.
use self_healing_distributed.Prelude.{
  ◌≡◌, refl, sym, ap, subst, ◌∙◌, String, true, false, Option, none, some, ◌==◌, string_key,
  nat_key, arith, if◌then◌else◌,
}
use self_healing_distributed.Prelude.Int64.{slt}
use self_healing_distributed.Prelude.Map.{lookup}
use self_healing_distributed.Time.{is_expired, milliseconds}
use self_healing_distributed.Http.{
  Env, Request, Response, Body, decode, text_field, number_field, text_of, number_of, ok, blank,
}
use self_healing_distributed.Ring.{Node}
use self_healing_distributed.Placement.{Placement}
use self_healing_distributed.Store.{expiry_of_ttl}
use self_healing_distributed.Store.Invariant.{IsValid, size_of}
use self_healing_distributed.Store.Written.{Fits}
use self_healing_distributed.Server.{
  Server, owns_local, is_owner, is_node_alive, get_request as get_of, try_order,
}
use self_healing_distributed.Server.Forward.{
  SetRequest, decode_set, encode_set, value_response, do_forward, forward_with_body,
  forward_with_fallback, fallback_each,
}
use self_healing_distributed.Server.Handlers.{handle_set, handle_get, set_decoded}
use self_healing_distributed.Server.Routes.{serve, dispatch, route_in, routes}
use self_healing_distributed.Server.Reading.{handle_set-handle_get}
use self_healing_distributed.Network.{Host, reaching}

module _ {W : Type 0} (env : Env W) (place : Placement) where
  abbrev passed_on : Request → String → Body → Node → Request
  passed_on r key body owner = record r { host = owner.addr; key = key; body = body }

  forward_with_body-alive :
      (r : Request) (key : String) (body : Body) (owner : Node) (s : Server) (w : W)
      → place.owner key ≡ some owner
      → is_node_alive owner.id s ≡ true
      → forward_with_body env place r key body s w
        ≡ (let (resp, w') = do_forward env (passed_on r key body owner) w in (resp, s, w'))
  unfolding forward_with_body
  forward_with_body-alive r key body owner s w owned alive =
      rw (owned, forward_with_body) (rw (alive, forward_with_body) refl)

  owns_local-other :
      (key : String) (owner : Node) (s : Server)
      → place.owner key ≡ some owner
      → (owner.id == s.node_id) ≡ false
      → owns_local place key s ≡ false
  unfolding owns_local is_owner
  owns_local-other key owner s owned other = rw owned other

  -- A write of a key that another node owns, which is alive, is passed on to it.
  handle_set-forwarded :
      (r : Request) (req : SetRequest) (owner : Node) (s : Server) (w : W)
      → (r.method == "POST") ≡ true
      → decode_set r.body ≡ some req
      → (req.key == "") ≡ false
      → slt req.ttl_ms 0 ≡ false
      → place.owner req.key ≡ some owner
      → (owner.id == s.node_id) ≡ false
      → is_node_alive owner.id s ≡ true
      → handle_set env place r s w ≡ (
          let (resp, w') = do_forward env (passed_on r req.key (encode_set req) owner) w in
          (resp, s, w'))
  unfolding handle_set
  handle_set-forwarded r req owner s w post decoded named positive owned other alive = rw post (
      ap (λ o. set_decoded env place r o s w) decoded
      ∙ unfold set_decoded in
        rw (named, set_decoded)
          (rw positive (rw (owns_local-other req.key owner s owned other) refl))
        ∙ forward_with_body-alive r req.key (encode_set req) owner s w owned alive)

  forward_with_fallback-alive :
      (key : String) (owner : Node) (s : Server) (w w' : W) (resp : Response)
      → place.owner key ≡ some owner
      → is_node_alive owner.id s ≡ true
      → env.well_formed (get_of owner.addr key) ≡ true
      → env.round_trip (get_of owner.addr key) w ≡ (some resp, w')
      → forward_with_fallback env place key s w ≡ (resp, s, w')
  unfolding forward_with_fallback
  forward_with_fallback-alive key owner s w w' resp owned alive formed answered =
      rw (owned, forward_with_fallback)
        (rw (alive, forward_with_fallback)
          (rw formed (
            ap
              (λ (x : Option Response × W). elim x.0 [
                | some found ↦ (found, s, x.1)
                | none ↦ fallback_each env key (try_order (place.replicas key) s) s x.1
              ])
              answered)))

  -- A read of it is passed on too, where the owner answers.
  handle_get-forwarded :
      (q : Request) (key : String) (owner : Node) (s : Server) (w w' : W) (resp : Response)
      → (q.method == "GET") ≡ true
      → q.key ≡ key
      → (key == "") ≡ false
      → place.owner key ≡ some owner
      → (owner.id == s.node_id) ≡ false
      → is_node_alive owner.id s ≡ true
      → env.well_formed (get_of owner.addr key) ≡ true
      → env.round_trip (get_of owner.addr key) w ≡ (some resp, w')
      → handle_get env place q s w ≡ (resp, s, w')
  unfolding handle_get
  handle_get-forwarded q key owner s w w' resp get_method same named owned other alive formed
        answered =
      rw get_method (
        rw same (
          rw named (
            rw (owns_local-other key owner s owned other)
              (forward_with_fallback-alive key owner s w w' resp owned alive formed answered))))

module _ {W : Type 0} (env : Env W) (place : Placement) (website : Request → Response) where
  abbrev owner_node : Env (Host W)
  owner_node = reaching env place website

  serve_set :
      (r : Request) (s : Server) (w : W)
      → (r.method == "OPTIONS") ≡ false
      → r.path ≡ "/set"
      → serve env place website r s w ≡ handle_set env place r s w
  unfolding serve
  serve_set r s w method path =
      ap
        (λ b.
          if b
          then (record { status = 204; body = blank }, s, w)
          else dispatch env place website (route_in routes r.path) r s w)
        method
      ∙ ap (λ p. dispatch env place website (route_in routes p) r s w) path
      ∙ unfold dispatch route_in in refl

  -- What the owner makes of a write that is passed on, and of a read.
  abbrev written : Request → Host W → Response × Host W
  written r h =
      let (resp, s, w) = handle_set env place r h.server h.world in
      (resp, record { server = s; world = w })

  do_forward_set :
      (r : Request) (h : Host W)
      → (r.method == "OPTIONS") ≡ false
      → r.path ≡ "/set"
      → do_forward owner_node r h ≡ written r h
  unfolding do_forward reaching
  do_forward_set r h method path =
      ap (λ (y : Response × Server × W). (y.0, record { server = y.1; world = y.2 }))
        (serve_set r h.server h.world method path)

  abbrev read : String → Node → Host W → Response × Host W
  read key owner h =
      let (resp, s, w) = handle_get env place (get_of owner.addr key) h.server h.world in
      (resp, record { server = s; world = w })

  round_trip_get :
      (key : String) (owner : Node) (h : Host W)
      → owner_node.round_trip (get_of owner.addr key) h
        ≡ (let (resp, h') = read key owner h in (some resp, h'))
  unfolding reaching serve dispatch route_in get_of
  round_trip_get key owner h = refl

  decode_set-encode_set : (req : SetRequest) → decode_set (encode_set req) ≡ some req
  unfolding decode_set encode_set decode text_field number_field text_of number_of lookup
  decode_set-encode_set req = refl

  -- Where the owner of a key is alive for another node, and reached by it: a write of the key at the
  -- other node, well formed, with a key and no negative time to live, is answered 200 and changes
  -- nothing there, and a read of the key at the other node right afterwards is answered with the
  -- value, if the store of the owner is well formed and has room for it, and the time to live has
  -- not run out by then.
  pub handle_set-handle_get_proxied :
      (r q : Request) (req : SetRequest) (owner : Node) (s : Server) (h : Host W)
      → r.method ≡ "POST"
      → r.path ≡ "/set"
      → decode_set r.body ≡ some req
      → (req.key == "") ≡ false
      → slt req.ttl_ms 0 ≡ false
      → place.owner req.key ≡ some owner
      → (owner.id == s.node_id) ≡ false
      → is_node_alive owner.id s ≡ true
      → h.server.node_id ≡ owner.id
      → (q.method == "GET") ≡ true
      → q.key ≡ req.key
      → IsValid h.server.store
      → Fits h.server.store (size_of req.key req.value)
      → is_expired
          (expiry_of_ttl (milliseconds req.ttl_ms) (env.now h.world).0)
          (env.now (handle_set owner_node place r s h).2.world).0
        ≡ false
      → let (resp, s', h') = handle_set owner_node place r s h in
        let (resp', s'', h'') = handle_get owner_node place q s' h' in
        (resp.status ≡ ok) × (s' ≡ s) × (resp' ≡ value_response req.key req.value)
  unfolding reaching
  handle_set-handle_get_proxied r q req owner s h post path decoded named positive owned other alive
        itself get_method same v fits live =
      let key = req.key in
      let r' = passed_on env place r key (encode_set req) owner in
      let x = written r' h in
      let h' = x.1 in
      let is_post : (r.method == "POST") ≡ true = rw post refl in
      let no_preflight : (r.method == "OPTIONS") ≡ false = rw post refl in
      let sent =
        handle_set-forwarded owner_node place r req owner s h is_post decoded named positive owned
          other alive
        ∙ ap (λ (y : Response × Host W). (y.0, s, y.1)) (do_forward_set r' h no_preflight path) in
      let own : owns_local place key h.server ≡ true =
        unfold owns_local is_owner in
        rw owned (ground (arith, itself, string_key.equals_iff owner.id h.server.node_id)) in
      let (stored, _, found) =
        handle_set-handle_get env place r' (get_of owner.addr key) req h.server h.world is_post
          (decode_set-encode_set req) named positive own (unfold get_of in refl)
          (unfold get_of in refl) v fits
          (subst
            (λ (y : Response × Server × Host W).
              is_expired (expiry_of_ttl (milliseconds req.ttl_ms) (env.now h.world).0)
                (env.now y.2.world).0
              ≡ false)
            sent live) in
      let answered =
        handle_get-forwarded owner_node place q key owner s h' (read key owner h').1
          (read key owner h').0 get_method same named owned other alive refl
          (round_trip_get key owner h') in
      subst
        (λ (y : Response × Server × Host W).
          (y.0.status ≡ ok)
          × (y.1 ≡ s)
          × ((handle_get owner_node place q y.1 y.2).0 ≡ value_response req.key req.value))
        (sym sent) (stored, refl, ap (λ y. y.0) answered ∙ found)
