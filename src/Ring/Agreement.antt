-- ===== src/Ring/Agreement.antt =====
-- When two rings of internal/ring/ring.go, built in different orders, place all keys alike.
use self_healing_distributed.Prelude.{
  ℕ, ◌<◌, ◌≡◌, ◌≢◌, refl, sym, ap, ◌∙◌, String, not, ◌&&◌, none, some, List, arith, ◌==◌, nat_key,
  string_key, Bool-cases, Option-cases, inl, inr, if◌then◌else◌,
}
use self_healing_distributed.Prelude.Map.{lookup, insert, lookup-insert, lookup-insert_cases}
use self_healing_distributed.Ring.{
  Node, Ring, hash, lookup_node, is_some, add_node, add_points, rebuild_points,
}
use self_healing_distributed.Ring.Points.{IsNearest-unique, length-pos}
use self_healing_distributed.Ring.Invariant.{
  IsDigest, hash-lt, IsValid, point, is_point, is_point-index, index-is_point, add_points-lookup,
}
use self_healing_distributed.Ring.Placement.{placed, mem-points, point-lt, is_some-of, found-pos}

module _ (sha256 : String → List ℕ) where
  -- Each registered node has all its points.
  abbrev pub IsExact : Ring → Type 0
  IsExact r =
      (id : String) (n : Node) (j : ℕ)
      → lookup id r.nodes ≡ some n
      → j < r.virtual_nodes
      → lookup (point sha256 id j) r.point_to_node ≡ some id

  -- No point of a node is one of another node's.
  abbrev pub Apart : ℕ → String → String → Type 0
  Apart rounds x y =
      x ≢ y → (i j : ℕ) → i < rounds → j < rounds → point sha256 x i ≢ point sha256 y j

  add_new-IsExact :
      (node : Node) (r : Ring)
      → ((id : String) (n : Node) → lookup id r.nodes ≡ some n → Apart r.virtual_nodes node.id id)
      → IsExact r
      → IsExact (
          rebuild_points (record r {
            nodes = insert node.id node r.nodes;
            point_to_node = add_points sha256 r.virtual_nodes 0 node.id r.point_to_node;
          }))
  unfolding rebuild_points
  add_new-IsExact node r apart exact id n j h lt =
      let l =
        add_points-lookup sha256 r.virtual_nodes 0 node.id r.point_to_node (point sha256 id j) in
      elim (lookup-insert_cases node.id id node n r.nodes h) [
        | inl (same, _) ↦
            let its =
              index-is_point sha256 r.virtual_nodes 0 node.id j (omega arith) (omega arith) in
            let its' =
              ap (λ x. is_point sha256 r.virtual_nodes 0 node.id (point sha256 x j)) (sym same)
              ∙ its in
            ground (arith, l)
        | inr (other, old) ↦
            elim (Bool-cases (is_point sha256 r.virtual_nodes 0 node.id (point sha256 id j))) [
              | inl its ↦
                  let (i, il, e) = is_point-index sha256 r.virtual_nodes 0 node.id _ its in
                  absurd (apart id n old other i j (omega arith) lt (sym e))
              | inr free ↦ l ∙ rw free (exact id n j old lt)
            ]
      ]

  pub add_node-IsExact :
      (node : Node) (r : Ring)
      → ((id : String) (n : Node) → lookup id r.nodes ≡ some n → Apart r.virtual_nodes node.id id)
      → IsExact r
      → IsExact (add_node sha256 node r)
  unfolding add_node
  add_node-IsExact node r apart exact = elim (Bool-cases (is_some (lookup node.id r.nodes))) [
    | inl there ↦ rw there exact
    | inr fresh ↦ rw fresh (add_new-IsExact node r apart exact)
  ]

  pub add_node-rounds :
      (node : Node) (r : Ring) → (add_node sha256 node r).virtual_nodes ≡ r.virtual_nodes
  unfolding add_node rebuild_points
  add_node-rounds node r = elim (Bool-cases (is_some (lookup node.id r.nodes))) [
    | inl there ↦ rw there refl
    | inr fresh ↦ rw fresh refl
  ]

  -- A node joins under its identity unless that is taken.
  pub add_node-lookup :
      (node : Node) (r : Ring) (id : String)
      → lookup id (add_node sha256 node r).nodes ≡ (
          if node.id == id && not (is_some (lookup id r.nodes))
          then some node
          else lookup id r.nodes)
  unfolding add_node rebuild_points is_some
  add_node-lookup node r id = elim (Bool-cases (node.id == id)) [
    | inl same ↦
        let e = (string_key.equals_iff node.id id).0 same in
        elim (Option-cases (lookup id r.nodes)) [
          | inl absent ↦
              ground (arith, e, ap (λ x. lookup x r.nodes) e, lookup-insert node.id id node r.nodes)
          | inr (n, there) ↦ ground (arith, e, ap (λ x. lookup x r.nodes) e)
        ]
    | inr other ↦ elim (Bool-cases (is_some (lookup node.id r.nodes))) [
      | inl there ↦ rw there (ground arith)
      | inr fresh ↦ rw fresh (ground (arith, lookup-insert node.id id node r.nodes))
    ]
  ]

  -- A node that joins takes no point away, and has its first one.
  pub add_node-owner :
      (node : Node) (r : Ring) (p : ℕ) (id : String)
      → lookup p r.point_to_node ≡ some id
      → (jd : String) × (lookup p (add_node sha256 node r).point_to_node ≡ some jd)
  unfolding add_node rebuild_points
  add_node-owner node r p id h = elim (Bool-cases (is_some (lookup node.id r.nodes))) [
    | inl there ↦ rw there (id, h)
    | inr fresh ↦
        let l = add_points-lookup sha256 r.virtual_nodes 0 node.id r.point_to_node p in
        rw fresh (elim (Bool-cases (is_point sha256 r.virtual_nodes 0 node.id p)) [
          | inl its ↦ (node.id, l ∙ rw its refl)
          | inr old ↦ (id, l ∙ rw old h)
        ])
  ]

  pub add_node_first :
      (node : Node) (r : Ring)
      → lookup node.id r.nodes ≡ none
      → 0 < r.virtual_nodes
      → lookup (point sha256 node.id 0) (add_node sha256 node r).point_to_node ≡ some node.id
  unfolding add_node rebuild_points is_some
  add_node_first node r fresh some_rounds =
      let its = index-is_point sha256 r.virtual_nodes 0 node.id 0 (omega arith) (omega arith) in
      rw fresh (
        add_points-lookup sha256 r.virtual_nodes 0 node.id r.point_to_node (point sha256 node.id 0)
        ∙ rw its refl)

  -- Two rings with the same nodes, and as many points for each.
  pub record Alike (r r' : Ring) : Type 0 where
    pub valid : IsValid sha256 r
    pub valid' : IsValid sha256 r'
    pub exact : IsExact r
    pub exact' : IsExact r'
    pub rounds : r.virtual_nodes ≡ r'.virtual_nodes
    pub nodes : (id : String) → lookup id r.nodes ≡ lookup id r'.nodes

  Alike-sym : (r r' : Ring) → Alike r r' → Alike r' r
  Alike-sym r r' a = record {
    valid = a.valid';
    valid' = a.valid;
    exact = a.exact';
    exact' = a.exact;
    rounds = sym a.rounds;
    nodes = λ id. sym (a.nodes id);
  }

  Alike-owner :
      (r r' : Ring)
      → Alike r r'
      → (p : ℕ) (id : String) → lookup p r.point_to_node ≡ some id
      → lookup p r'.point_to_node ≡ some id
  Alike-owner r r' a p id h =
      let (j, n, e, lt, there) = a.valid.owned p id h in
      ap (λ x. lookup x r'.point_to_node) e
      ∙ a.exact' id n j (sym (a.nodes id) ∙ there) (omega (arith, a.rounds))

  module _ (digest : IsDigest sha256) (key : String) where
    Alike-found :
        (r r' : Ring) (n : Node)
        → Alike r r'
        → lookup_node sha256 key r ≡ some n
        → lookup_node sha256 key r' ≡ some n
    Alike-found r r' n s h =
        let a = placed sha256 digest r s.valid key (found-pos sha256 digest r s.valid key n h) in
        let owner = Alike-owner r r' s a.p a.id a.owner in
        let in' = mem-points sha256 digest r' s.valid' a.p ∙ is_some-of _ a.id owner in
        let b = placed sha256 digest r' s.valid' key (length-pos a.p r'.points in') in
        let back = Alike-owner r' r (Alike-sym r r' s) b.p b.id b.owner in
        let e : a.p ≡ b.p =
          IsNearest-unique (hash sha256 key) a.p b.p r.points r'.points (hash-lt sha256 digest key)
            (point-lt sha256 digest r s.valid a.p a.nearest.member)
            (point-lt sha256 digest r' s.valid' b.p b.nearest.member) a.nearest b.nearest
            (mem-points sha256 digest r s.valid b.p ∙ is_some-of _ b.id back) in' in
        let same : a.id ≡ b.id = ground (arith, owner, b.owner) in
        b.result ∙ ground (arith, s.nodes a.id, a.registered, b.registered, a.result)

    -- Two well-formed rings with the same nodes, each with all its points, place the key alike.
    pub Alike-lookup_node :
        (r r' : Ring) → Alike r r' → lookup_node sha256 key r ≡ lookup_node sha256 key r'
    Alike-lookup_node r r' s = elim (Option-cases (lookup_node sha256 key r)) [
      | inr (n, h) ↦ h ∙ sym (Alike-found r r' n s h)
      | inl h ↦ elim (Option-cases (lookup_node sha256 key r')) [
        | inl h' ↦ h ∙ sym h'
        | inr (n, h') ↦ absurd (ground (arith, h, Alike-found r' r n (Alike-sym r r' s) h'))
      ]
    ]
