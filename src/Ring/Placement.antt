-- ===== src/Ring/Placement.antt =====
-- Where `Lookup` of internal/ring/ring.go places a key, and what a change of the ring moves.
use self_healing_distributed.Prelude.{
  ℕ, ◌<◌, ◌≡◌, ◌≢◌, ◌⊎◌, refl, subst, ap, sym, ◌∙◌, String, true, false, Option, none, some, List,
  arith, length, nat_key, string_key, Bool-cases, inl, inr, get_or,
}
use self_healing_distributed.Prelude.Map.{
  lookup, insert, delete, lookup-insert_self, lookup-insert_ne, lookup-delete_ne,
}
use self_healing_distributed.Ring.{
  Node, Ring, keys_of, rebuild_points, is_some, hash, add_points, delete_points, add_node,
  remove_node, node_point_key, point_index, lookup_node, owner_at, node_at,
}
use self_healing_distributed.Ring.Points.{
  two32, mem, mem-sort, mem-keys_of, IsSorted-sort, IsNearest, point_index-IsNearest, length-pos,
  IsNearest-unique, IsSorted,
}
use self_healing_distributed.Ring.Invariant.{
  IsDigest, hash-lt, point, is_point, is_point-index, add_points-lookup, delete_points-lookup,
  IsValid, add_node-IsValid, remove_node-IsValid,
}

pub is_some-cases : {A : Type 0} (o : Option A) → is_some o ≡ true → (a : A) × (o ≡ some a)
unfolding is_some
is_some-cases none h = absurd (ground arith)
is_some-cases (some a) h = (a, refl)

pub is_some-of : {A : Type 0} (o : Option A) (a : A) → o ≡ some a → is_some o ≡ true
unfolding is_some
is_some-of o a h = rw h

-- Where a key is placed: the nearest point clockwise of its hash, the node that the table has there,
-- and what `Lookup` returns.
pub record Placed (sha256 : String → List ℕ) (key : String) (r : Ring) : Type 0 where
  pub p : ℕ
  pub id : String
  pub node : Node
  pub nearest : IsNearest (hash sha256 key) r.points p
  pub owner : lookup p r.point_to_node ≡ some id
  pub registered : lookup id r.nodes ≡ some node
  pub result : lookup_node sha256 key r ≡ some node

module _ (sha256 : String → List ℕ) (digest : IsDigest sha256) where
  module _ (r : Ring) (v : IsValid sha256 r) where
    -- A number is a point of the ring exactly if the table has it.
    pub mem-points : (p : ℕ) → mem p r.points ≡ is_some (lookup p r.point_to_node)
    mem-points p =
        ap (mem p) v.listing ∙ mem-sort p (keys_of r.point_to_node) ∙ mem-keys_of p r.point_to_node

    pub point-lt : (p : ℕ) → mem p r.points ≡ true → p < two32
    point-lt p h =
        let (id, e) = is_some-cases (lookup p r.point_to_node) (sym (mem-points p) ∙ h) in
        let (j, n, q, _, _) = v.owned p id e in
        omega (arith, hash-lt sha256 digest (node_point_key id j))

    -- On a well-formed ring with points, `Lookup` finds a registered node, that of the nearest
    -- point clockwise of the hash of the key.
    pub placed : (key : String) → 0 < length r.points → Placed sha256 key r
    placed key inhabited =
        let (lt, near) =
          point_index-IsNearest sha256 key r.points
            (subst IsSorted (sym v.listing) (IsSorted-sort (keys_of r.point_to_node)))
            (hash-lt sha256 digest key) point-lt inhabited in
        let p = get_or r.points (point_index sha256 key r.points) 0 in
        let (id, e) = is_some-cases (lookup p r.point_to_node) (sym (mem-points p) ∙ near.member) in
        let (_, n, _, _, q) = v.owned p id e in
        record {
          p = p;
          id = id;
          node = n;
          nearest = near;
          owner = e;
          registered = q;
          result = unfold lookup_node owner_at node_at in ground (arith, e, q);
        }

    pub found-pos :
        (key : String) (n : Node) → lookup_node sha256 key r ≡ some n → 0 < length r.points
    unfolding lookup_node
    found-pos key n h = ground arith

  added_fields :
      (node : Node) (r : Ring)
      → lookup node.id r.nodes ≡ none
      → ((add_node sha256 node r).point_to_node
          ≡ add_points sha256 r.virtual_nodes 0 node.id r.point_to_node)
        × ((add_node sha256 node r).nodes ≡ insert node.id node r.nodes)
  unfolding add_node rebuild_points is_some
  added_fields node r h = rw h (refl, refl)

  -- On a well-formed ring, a node that joins takes keys over to itself only: a key that a node
  -- owns stays there, or moves to the new node.
  pub add_node-moves :
      (node : Node) (r : Ring) (key : String) (n : Node)
      → IsValid sha256 r
      → lookup node.id r.nodes ≡ none
      → lookup_node sha256 key r ≡ some n
      → (lookup_node sha256 key (add_node sha256 node r) ≡ some n)
        ⊎ (lookup_node sha256 key (add_node sha256 node r) ≡ some node)
  add_node-moves node r key n v fresh h =
      let r' = add_node sha256 node r in
      let v' = add_node-IsValid sha256 node r v in
      let (table, nodes) = added_fields node r fresh in
      let a = placed r v key (found-pos r v key n h) in
      let looked = λ (p : ℕ).
        ap (lookup p) table
        ∙ add_points-lookup sha256 r.virtual_nodes 0 node.id r.point_to_node p in
      let still : is_some (lookup a.p r'.point_to_node) ≡ true =
        unfold is_some in ground (arith, looked a.p, a.owner) in
      let b = placed r' v' key (length-pos a.p r'.points (mem-points r' v' a.p ∙ still)) in
      let same_n : n ≡ a.node = ground (arith, a.result, h) in
      elim (Bool-cases (is_point sha256 r.virtual_nodes 0 node.id b.p)) [
        | inl its ↦
            let i : b.id ≡ node.id = ground (arith, looked b.p, b.owner) in
            let m : b.node ≡ node = ground (
              arith,
              ap (lookup b.id) nodes,
              b.registered,
              lookup-insert_self node.id node r.nodes,
            ) in
            inr (b.result ∙ ap some m)
        | inr old ↦
            let o : lookup b.p r.point_to_node ≡ some b.id = ground (arith, looked b.p, b.owner) in
            let e : a.p ≡ b.p =
              IsNearest-unique (hash sha256 key) a.p b.p r.points r'.points
                (hash-lt sha256 digest key) (point-lt r v a.p a.nearest.member)
                (point-lt r' v' b.p b.nearest.member) a.nearest b.nearest
                (mem-points r v b.p ∙ is_some-of _ b.id o) (mem-points r' v' a.p ∙ still) in
            let i : a.id ≡ b.id = ground (arith, a.owner) in
            let other : node.id ≢ b.id = λ q. ground (arith, a.registered) in
            let m : b.node ≡ n = ground (
              arith,
              ap (lookup b.id) nodes,
              b.registered,
              a.registered,
              lookup-insert_ne node.id b.id node r.nodes other,
            ) in
            inl (b.result ∙ ap some m)
      ]

  removed_fields :
      (node_id : String) (r : Ring) (gone : Node)
      → lookup node_id r.nodes ≡ some gone
      → ((remove_node sha256 node_id r).point_to_node
          ≡ delete_points sha256 r.virtual_nodes 0 node_id r.point_to_node)
        × ((remove_node sha256 node_id r).nodes ≡ delete node_id r.nodes)
  unfolding remove_node rebuild_points is_some
  removed_fields node_id r gone h = rw h (refl, refl)

  -- On a well-formed ring, a node that leaves, and that shares no point with another node, moves
  -- its own keys only: a key that another node owned stays there.
  pub remove_node-keeps :
      (node_id : String) (r : Ring) (key : String) (n gone : Node)
      → IsValid sha256 r
      → lookup node_id r.nodes ≡ some gone
      → ((j : ℕ)
          → j < r.virtual_nodes
          → lookup (point sha256 node_id j) r.point_to_node ≡ some node_id)
      → lookup_node sha256 key r ≡ some n
      → n.id ≢ node_id
      → lookup_node sha256 key (remove_node sha256 node_id r) ≡ some n
  remove_node-keeps node_id r key n gone v there unshared h ne =
      let r' = remove_node sha256 node_id r in
      let v' = remove_node-IsValid sha256 node_id r v in
      let (table, nodes) = removed_fields node_id r gone there in
      let a = placed r v key (found-pos r v key n h) in
      let looked = λ (p : ℕ).
        ap (lookup p) table
        ∙ delete_points-lookup sha256 r.virtual_nodes 0 node_id r.point_to_node p in
      let same_n : a.node ≡ n = ground (arith, a.result, h) in
      let own : a.id ≢ node_id = λ q. ne (ground (arith, v.named a.id a.node a.registered)) in
      let not_its : is_point sha256 r.virtual_nodes 0 node_id a.p ≡ false =
        elim (Bool-cases (is_point sha256 r.virtual_nodes 0 node_id a.p)) [
          | inl its ↦
              let (j, lt, e) = is_point-index sha256 r.virtual_nodes 0 node_id a.p its in
              absurd (own (ground (arith, a.owner, unshared j (omega arith))))
          | inr other ↦ other
        ] in
      let still : lookup a.p r'.point_to_node ≡ some a.id = ground (arith, looked a.p, a.owner) in
      let in' = mem-points r' v' a.p ∙ is_some-of _ a.id still in
      let b = placed r' v' key (length-pos a.p r'.points in') in
      let o : lookup b.p r.point_to_node ≡ some b.id = ground (arith, looked b.p, b.owner) in
      let e : a.p ≡ b.p =
        IsNearest-unique (hash sha256 key) a.p b.p r.points r'.points (hash-lt sha256 digest key)
          (point-lt r v a.p a.nearest.member) (point-lt r' v' b.p b.nearest.member) a.nearest
          b.nearest (mem-points r v b.p ∙ is_some-of _ b.id o) in' in
      let i : a.id ≡ b.id = ground (arith, a.owner) in
      let other : node_id ≢ b.id = λ q. own (i ∙ sym q) in
      let m : b.node ≡ n = ground (
        arith,
        ap (lookup b.id) nodes,
        b.registered,
        a.registered,
        lookup-delete_ne node_id b.id r.nodes other,
      ) in
      b.result ∙ ap some m
