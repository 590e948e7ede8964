-- ===== src/Command/Life.antt =====
-- A node that cmd/cache/main.go has started.
use self_healing_distributed.Prelude.{
  ℕ, ◌≡◌, refl, ◌∙◌, String, Bool, true, false, none, some, List, [], ◌∷◌, arith, ◌==◌, nat_key,
  string_key, Bool-cases, inl, inr,
}
use self_healing_distributed.Prelude.Int64.{slt}
use self_healing_distributed.Prelude.Map.{lookup}
use self_healing_distributed.Time.{second}
use self_healing_distributed.Text.{split, comma, trim_space}
use self_healing_distributed.Http.{Env, Request, Response}
use self_healing_distributed.Ring.{Node, Ring, new as new_ring, add_node, lookup_node}
use self_healing_distributed.Ring.Points.{length-pos}
use self_healing_distributed.Ring.Invariant.{
  IsDigest, IsValid, new-IsValid, add_node-IsValid, point,
}
use self_healing_distributed.Ring.Agreement.{add_node_first, add_node-owner}
use self_healing_distributed.Ring.Placement.{placed, mem-points, is_some-of}
use self_healing_distributed.Placement.{IsLawful}
use self_healing_distributed.Placement.Consistent.{placement_of, placement_of-IsLawful}
use self_healing_distributed.Store.Invariant.{
  IsValid as IsStore, new-IsValid as new-IsStore, new_with_eviction-IsValid,
}
use self_healing_distributed.Cluster.{Cluster, new as new_cluster}
use self_healing_distributed.Cluster.Membership.{Memberlist, create, create-created, member_config}
use self_healing_distributed.Server.{Server, new as new_server, with_cluster, with_listen_addr}
use self_healing_distributed.Server.Tasks.{Move, moves}
use self_healing_distributed.Server.Validity.{IsSound}
use self_healing_distributed.Server.Life.{moves-IsSound}
use self_healing_distributed.Command.{
  Flags, with_defaults, boot_store, add_peers, boot_ring, booted, boot, config_of,
}

module _ (sha256 : String → List ℕ) where
  -- A well-formed ring that has some point.
  record IsReady (r : Ring) : Type 0 where
    valid : IsValid sha256 r
    p : ℕ
    id : String
    owner : lookup p r.point_to_node ≡ some id

  IsReady-new : (n : Node) → IsReady (add_node sha256 n (new_ring 150))
  unfolding new_ring lookup
  IsReady-new n = record {
    valid = add_node-IsValid sha256 n (new_ring 150) (new-IsValid sha256 150);
    p = point sha256 n.id 0;
    id = n.id;
    owner = add_node_first sha256 n (new_ring 150) refl (omega arith);
  }

  IsReady-add : (n : Node) (r : Ring) → IsReady r → IsReady (add_node sha256 n r)
  IsReady-add n r h =
      let (id, owner) = add_node-owner sha256 n r h.p h.id h.owner in
      record { valid = add_node-IsValid sha256 n r h.valid; p = h.p; id = id; owner = owner }

  add_peers-IsReady : (ps : List String) (r : Ring) → IsReady r → IsReady (add_peers sha256 ps r)
  unfolding add_peers
  add_peers-IsReady [] r h = h
  add_peers-IsReady (p ∷ ps) r h = elim (Bool-cases (trim_space p == "")) [
    | inl blank ↦ rw (blank, add_peers) (add_peers-IsReady ps r h)
    | inr there ↦ rw (there, add_peers) (add_peers-IsReady ps _ (IsReady-add _ r h))
  ]

  boot_ring-IsReady : (f : Flags) → IsReady (boot_ring sha256 f)
  unfolding boot_ring
  boot_ring-IsReady f = elim (Bool-cases (f.peers == "")) [
    | inl alone ↦ rw alone (IsReady-new _)
    | inr peers ↦ rw peers (add_peers-IsReady (split comma f.peers) _ (IsReady-new _))
  ]

  -- On a ring that has a point every key has an owner.
  owner_of :
      (digest : IsDigest sha256) (r : Ring)
      → IsReady r
      → (key : String) → (n : Node) × (lookup_node sha256 key r ≡ some n)
  owner_of digest r h key =
      let in_points = mem-points sha256 digest r h.valid h.p ∙ is_some-of _ h.id h.owner in
      let a = placed sha256 digest r h.valid key (length-pos h.p r.points in_points) in
      (a.node, a.result)

boot_store-IsValid : (f : Flags) → IsStore (boot_store f)
unfolding boot_store
boot_store-IsValid f = elim (Bool-cases (slt 0 f.mem_cap)) [
  | inl capped ↦ rw capped (new_with_eviction-IsValid second f.mem_cap)
  | inr unlimited ↦ rw unlimited (new-IsStore second)
]

-- The node that the flags give, in a cluster.
abbrev pub started : Flags → Cluster → Server
started f c = with_cluster c (with_listen_addr f.advertise_addr (new_server (boot_store f) f.id))

started-IsSound : (f : Flags) (c : Cluster) → IsSound (started f c)
unfolding with_cluster with_listen_addr new_server lookup
started-IsSound f c = record {
  store = boot_store-IsValid f;
  pending = record { distinct = tt; replicas = λ key m h. absurd (ground arith) };
}

module _ {W : Type 0} (sha256 : String → List ℕ) (list : Memberlist W) (flags : Flags) (w : W) where
  -- the flags with their defaults, and whether the list of members could be created
  abbrev filled : Flags
  filled = with_defaults flags

  abbrev joins : Bool
  joins = (list.create (member_config (config_of filled)) w).0

  boot-started :
      joins ≡ true
      → (boot sha256 list flags w).0
        ≡ some (started filled (new_cluster filled.id), boot_ring sha256 filled)
  unfolding boot booted config_of
  boot-started h =
      let e : (create list (config_of filled) w).0 ≡ some (new_cluster filled.id) =
        create-created list (config_of filled) w ∙ rw h refl in
      rw e refl

  pub boot_failed : joins ≡ false → (boot sha256 list flags w).0 ≡ none
  unfolding boot booted config_of
  boot_failed h =
      let e : (create list (config_of filled) w).0 ≡ none =
        create-created list (config_of filled) w ∙ rw h refl in
      rw e refl

  -- Where memberlist can be set up, the command starts a node, whose store and pending replications
  -- are well formed and stay so, whatever happens to the node in whatever order. Its ring is lawful:
  -- no replica of a key is another one or the owner; and every key has an owner. SHA-256 is any
  -- function to lists of bytes.
  pub boot-serves :
      IsDigest sha256
      → (env : Env W) (website : Request → Response)
      → (list.create (member_config (config_of (with_defaults flags))) w).0 ≡ true
      → (s : Server) × (r : Ring) × ((boot sha256 list flags w).0 ≡ some (s, r))
        × ((ms : List Move) → IsSound (moves env (placement_of sha256 2 r) website ms s w).0)
        × IsLawful (placement_of sha256 2 r)
        × ((key : String) → (n : Node) × (lookup_node sha256 key r ≡ some n))
  boot-serves digest env website h =
      let s = started filled (new_cluster filled.id) in
      let r = boot_ring sha256 filled in
      let ready = boot_ring-IsReady sha256 filled in
      (
        s,
        r,
        boot-started h,
        (λ ms.
            moves-IsSound env (placement_of sha256 2 r) website ms s w
              (started-IsSound filled (new_cluster filled.id))),
        placement_of-IsLawful sha256 digest 2 r ready.valid (omega arith),
        owner_of sha256 digest r ready,
      )
