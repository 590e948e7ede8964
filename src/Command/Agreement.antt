-- ===== src/Command/Agreement.antt =====
-- The nodes that cmd/cache/main.go starts with each other as peers place every key alike.
use self_healing_distributed.Prelude.{
  ℕ, ◌<◌, ◌≡◌, ◌≢◌, refl, sym, ap, subst, ◌∙◌, String, Bool, true, false, ◌||◌, none, some, List,
  [], ◌∷◌, arith, ◌==◌, string_key, Bool-cases, inl, inr, if◌then◌else◌,
}
use self_healing_distributed.Prelude.Map.{lookup}
use self_healing_distributed.Text.{split, comma, trim_space}
use self_healing_distributed.Ring.{
  Node, Ring, new as new_ring, lookup_node, seen_in, is_some, add_node,
}
use self_healing_distributed.Ring.Invariant.{
  IsDigest, IsValid, point, new-IsValid, add_node-IsValid,
}
use self_healing_distributed.Ring.Agreement.{
  Apart, IsExact, add_node-IsExact, add_node-rounds, add_node-lookup, Alike-lookup_node,
}
use self_healing_distributed.Command.{Flags, add_peers, boot_ring}

-- The identities that a node has for the others, and for itself.
unfoldable pub peer_names : List String → List String
peer_names [] = []
peer_names (p ∷ ps) =
    let rest = peer_names ps in let peer = trim_space p in if peer == "" then rest else peer ∷ rest

unfoldable pub names : Flags → List String
unfolding peer_names
names f = f.id ∷ peer_names (split comma f.peers)

abbrev named : String → Node
named id = record { id = id; addr = id }

-- The ring knows exactly the nodes of the test, each under its address.
abbrev Knows : Ring → (String → Bool) → Type 0
Knows r f = (id : String) → lookup id r.nodes ≡ (if f id then some (named id) else none)

module _ (sha256 : String → List ℕ) (all : String → Bool)
    (apart : (x y : String) → all x ≡ true → all y ≡ true → Apart sha256 150 x y) where
  record IsBuilt (r : Ring) (f : String → Bool) : Type 0 where
    valid : IsValid sha256 r
    exact : IsExact sha256 r
    rounds : r.virtual_nodes ≡ 150
    knows : Knows r f

  add_node-Knows :
      (x : String) (r : Ring) (f : String → Bool)
      → Knows r f
      → Knows (add_node sha256 (named x) r) (λ id. x == id || f id)
  unfolding is_some
  add_node-Knows x r f knows id =
      ground (arith, knows id, add_node-lookup sha256 (named x) r id, string_key.equals_iff x id)

  add_node-IsBuilt :
      (x : String) (r : Ring) (f : String → Bool)
      → ((y : String) → f y ≡ true → all y ≡ true)
      → all x ≡ true
      → IsBuilt r f
      → IsBuilt (add_node sha256 (named x) r) (λ id. x == id || f id)
  add_node-IsBuilt x r f within here b = record {
    valid = add_node-IsValid sha256 (named x) r b.valid;
    exact =
        add_node-IsExact sha256 (named x) r
          (λ id n h.
            subst (λ k. Apart sha256 k x id) (sym b.rounds)
              (apart x id here (within id (ground (arith, b.knows id)))))
          b.exact;
    rounds = add_node-rounds sha256 (named x) r ∙ b.rounds;
    knows = add_node-Knows x r f b.knows;
  }

  same_test :
      (r : Ring) (f g : String → Bool) → ((id : String) → f id ≡ g id) → IsBuilt r f → IsBuilt r g
  same_test r f g e b = record {
    valid = b.valid;
    exact = b.exact;
    rounds = b.rounds;
    knows = λ id. b.knows id ∙ ap (λ t. if t then some (named id) else none) (e id);
  }

  add_peers-IsBuilt :
      (ps : List String) (r : Ring) (f : String → Bool)
      → ((y : String) → (f y || seen_in y (peer_names ps)) ≡ true → all y ≡ true)
      → IsBuilt r f
      → IsBuilt (add_peers sha256 ps r) (λ y. f y || seen_in y (peer_names ps))
  unfolding add_peers peer_names seen_in
  add_peers-IsBuilt [] r f within b = same_test r f _ (λ id. ground arith) b
  add_peers-IsBuilt (p ∷ ps) r f within b =
      let peer = trim_space p in
      elim (Bool-cases (peer == "")) [
        | inl blank ↦
            rw (blank, add_peers)
              (add_peers-IsBuilt ps r f (λ y h. within y (rw (blank, peer_names) h)) b)
        | inr there ↦
            rw (there, add_peers)
              (same_test _ _ _ (λ id. ground arith)
                (add_peers-IsBuilt ps (add_node sha256 (named peer) r) (λ id. peer == id || f id)
                  (λ y h. within y (rw (there, peer_names) (ground arith)))
                  (add_node-IsBuilt peer r f (λ y h. within y (ground arith))
                    (within peer
                      (rw (there, peer_names) (ground (arith, string_key.equals_iff peer peer))))
                    b)))
      ]

  first-IsBuilt :
      (x : String)
      → all x ≡ true
      → IsBuilt (add_node sha256 (named x) (new_ring 150)) (λ y. x == y || false)
  unfolding new_ring lookup
  first-IsBuilt x here =
      add_node-IsBuilt x (new_ring 150) (λ y. false) (λ y h. absurd (ground arith)) here
        (record {
          valid = new-IsValid sha256 150;
          exact = λ id n j h. absurd (ground arith);
          rounds = refl;
          knows = λ id. refl;
        })

  -- the ring of the node alone, and with its peers
  boot_ring_named : Flags → Ring
  boot_ring_named f =
      let r = add_node sha256 (named f.id) (new_ring 150) in
      if f.peers == "" then r else add_peers sha256 (split comma f.peers) r

  boot_ring_named-IsBuilt :
      (f : Flags)
      → ((y : String) → seen_in y (names f) ≡ true → all y ≡ true)
      → IsBuilt (boot_ring_named f) (λ y. seen_in y (names f))
  unfolding boot_ring_named names peer_names seen_in split trim_space
  boot_ring_named-IsBuilt f within =
      let first =
        first-IsBuilt f.id (within f.id (ground (arith, string_key.equals_iff f.id f.id))) in
      elim (Bool-cases (f.peers == "")) [
        | inl alone ↦
            let e : peer_names (split comma f.peers) ≡ [] =
              ap (λ t. peer_names (split comma t)) ((string_key.equals_iff f.peers "").0 alone) in
            rw alone (same_test _ _ _ (λ y. ground (arith, e)) first)
        | inr peers ↦ rw peers (
            same_test _ _ _ (λ y. ground arith)
              (add_peers-IsBuilt (split comma f.peers) _ (λ y. f.id == y || false)
                (λ y h. within y (ground arith)) first))
      ]

  boot_ring-IsBuilt :
      (f : Flags)
      → f.id ≡ f.advertise_addr
      → ((y : String) → seen_in y (names f) ≡ true → all y ≡ true)
      → IsBuilt (boot_ring sha256 f) (λ y. seen_in y (names f))
  unfolding boot_ring boot_ring_named
  boot_ring-IsBuilt f same within =
      subst
        (λ a.
          IsBuilt
            (let r = add_node sha256 (record { id = f.id; addr = a }) (new_ring 150) in
              if f.peers == "" then r else add_peers sha256 (split comma f.peers) r)
            (λ y. seen_in y (names f)))
        same (boot_ring_named-IsBuilt f within)

-- Two nodes whose identities are the addresses that they advertise, and that know the same nodes,
-- themselves included, whatever the order and the spacing of their peer lists, have rings that find
-- the same owner for every key, where no two of these nodes share a point. SHA-256 is any function
-- to lists of bytes.
pub boot_ring-agrees :
    (sha256 : String → List ℕ) (f g : Flags)
    → IsDigest sha256
    → f.id ≡ f.advertise_addr
    → g.id ≡ g.advertise_addr
    → ((x : String) → seen_in x (names f) ≡ seen_in x (names g))
    → ((x y : String)
        → seen_in x (names f) ≡ true
        → seen_in y (names f) ≡ true
        → x ≢ y
        → (i j : ℕ) → i < 150
        → j < 150
        → point sha256 x i ≢ point sha256 y j)
    → (key : String)
    → lookup_node sha256 key (boot_ring sha256 f) ≡ lookup_node sha256 key (boot_ring sha256 g)
boot_ring-agrees sha256 f g digest same same' names_agree apart key =
    let all : String → Bool = λ x. seen_in x (names f) in
    let a = boot_ring-IsBuilt sha256 all apart f same (λ y h. h) in
    let b = boot_ring-IsBuilt sha256 all apart g same' (λ y h. names_agree y ∙ h) in
    Alike-lookup_node sha256 digest key _ _ (record {
      valid = a.valid;
      valid' = b.valid;
      exact = a.exact;
      exact' = b.exact;
      rounds = a.rounds ∙ sym b.rounds;
      nodes = λ id.
          a.knows id
          ∙ ap (λ t. if t then some (named id) else none) (names_agree id)
          ∙ sym (b.knows id);
    })
