-- ===== src/Ring.antt =====
-- internal/ring/ring.go: the consistent hashing ring. SHA-256 is a parameter, a function from texts to
-- their digests, as lists of bytes.
pub mod Search
pub mod Points
pub mod Invariant
pub mod Placement
pub mod Replication
pub mod Replicas
pub mod Changes
pub mod Reference
pub mod Agreement
mod Tests
use Prim.Native.String.{◌++◌ as append}
use self_healing_distributed.Prelude.{
  ℕ, zero, suc, ◌+◌, ◌-◌, ◌*◌, ◌/◌, ◌%◌, String, Bool, true, false, not, Option, none, some, List,
  [], ◌∷◌, ◌++◌, map, length, get_or, leb, ltb, ◌==◌, nat_key, string_key, if◌then◌else◌,
}
use self_healing_distributed.Prelude.Int64.{two63, two64, sle}
use self_healing_distributed.Text.{itoa}
use self_healing_distributed.Prelude.Map.{Map, lookup, insert, delete}
use Search.{search}

pub record Node : Type 0 where
  pub id : String
  pub addr : String

pub record Ring : Type 0 where
  pub nodes : Map String Node
  -- the sorted hash values
  pub points : List ℕ
  pub point_to_node : Map ℕ String
  pub virtual_nodes : ℕ

abbrev pub zero_node : Node
zero_node = record { id = ""; addr = "" }

unfoldable pub new : ℕ → Ring
new virtual_nodes = record {
  nodes = [];
  points = [];
  point_to_node = [];
  virtual_nodes = if sle virtual_nodes 0 then 150 else virtual_nodes;
}

-- `nodePointKey`
unfoldable pub node_point_key : String → ℕ → String
unfolding itoa
node_point_key node_id replica = append node_id (append "#" (itoa replica))

-- `binary.BigEndian.Uint32(sum[:4])`; a digest has 32 bytes
unfoldable pub uint32_of : List ℕ → ℕ
uint32_of (a ∷ b ∷ c ∷ d ∷ rest) = ((a * 256 + b) * 256 + c) * 256 + d
uint32_of _ = 0

-- `sort.Slice` by `<`
insert_sorted : ℕ → List ℕ → List ℕ
insert_sorted p [] = p ∷ []
insert_sorted p (q ∷ qs) = if leb p q then p ∷ q ∷ qs else q ∷ insert_sorted p qs

pub sort : List ℕ → List ℕ
unfolding insert_sorted
sort [] = []
sort (p ∷ ps) = insert_sorted p (sort ps)

abbrev pub keys_of : Map ℕ String → List ℕ
keys_of = map (λ e. e.0)

pub rebuild_points : Ring → Ring
unfolding sort
rebuild_points r = record r { points = sort (keys_of r.point_to_node) }

-- a missing key reads as the zero value
pub node_at : String → Map String Node → Node
node_at id nodes = elim (lookup id nodes) [ none ↦ zero_node | some n ↦ n ]

pub owner_at : ℕ → Map ℕ String → String
owner_at p m = elim (lookup p m) [ none ↦ "" | some id ↦ id ]

unfoldable pub is_some : {A : Type 0} → Option A → Bool
is_some none = false
is_some (some a) = true

pub nodes_of : Ring → List Node
nodes_of r = map (λ e. e.1) r.nodes

-- `seen[nodeID]`
unfoldable pub seen_in : String → List String → Bool
seen_in id [] = false
seen_in id (x ∷ xs) = if x == id then true else seen_in id xs

-- the loop of `Replicas` on the rounds that are left: the round, the identities seen, the replicas
-- so far; `at` reads the identity at a number of steps from the primary's point, and `wanted` is
-- `replicationFactor-1`
pub collect : (ℕ → String) → Map String Node → ℕ → ℕ → ℕ → List String → List Node → List Node
collect at nodes wanted zero i seen replicas = replicas
collect at nodes wanted (suc rounds) i seen replicas = elim (seen_in (at i) seen) [
  | true ↦ collect at nodes wanted rounds (i + 1) seen replicas
  | false ↦ elim (leb wanted (length replicas + 1)) [
    | true ↦ replicas ++ node_at (at i) nodes ∷ []
    | false ↦
        collect at nodes wanted rounds (i + 1) (at i ∷ seen) (replicas ++ node_at (at i) nodes ∷ [])
  ]
]

module _ (sha256 : String → List ℕ) where
  unfoldable pub hash : String → ℕ
  unfolding uint32_of
  hash key = uint32_of (sha256 key)

  -- the loops over the virtual nodes, on the rounds that are left
  pub add_points : ℕ → ℕ → String → Map ℕ String → Map ℕ String
  unfolding hash node_point_key
  add_points zero i id m = m
  add_points (suc rounds) i id m =
      add_points rounds (i + 1) id (insert (hash (node_point_key id i)) id m)

  pub delete_points : ℕ → ℕ → String → Map ℕ String → Map ℕ String
  unfolding hash node_point_key
  delete_points zero i id m = m
  delete_points (suc rounds) i id m =
      delete_points rounds (i + 1) id (delete (hash (node_point_key id i)) m)

  pub add_node : Node → Ring → Ring
  unfolding add_points rebuild_points is_some
  add_node node r =
      if is_some (lookup node.id r.nodes)
      then r
      else rebuild_points (record r {
        nodes = insert node.id node r.nodes;
        point_to_node = add_points r.virtual_nodes 0 node.id r.point_to_node;
      })

  pub remove_node : String → Ring → Ring
  unfolding delete_points rebuild_points is_some
  remove_node node_id r =
      if is_some (lookup node_id r.nodes)
      then rebuild_points (record r {
        nodes = delete node_id r.nodes;
        point_to_node = delete_points r.virtual_nodes 0 node_id r.point_to_node;
      })
      else r

  -- the first point that is not below the hash, or the first point
  pub point_index : String → List ℕ → ℕ
  unfolding hash
  point_index key points =
      let h = hash key in
      let idx = search (length points) (λ i. leb h (get_or points i 0)) in
      if idx == length points then 0 else idx

  -- `Lookup`; `none` stands for `false`
  pub lookup_node : String → Ring → Option Node
  unfolding point_index owner_at node_at
  lookup_node key r =
      if length r.points == 0
      then none
      else some (
          node_at (owner_at (get_or r.points (point_index key r.points) 0) r.point_to_node) r.nodes)

  abbrev pub id_at : Ring → ℕ → ℕ → String
  id_at r idx i = owner_at (get_or r.points ((idx + i) % length r.points) 0) r.point_to_node

  -- `Replicas`; `none` stands for the panic on a ring that has nodes and no points
  pub replicas : String → ℕ → Ring → Option (List Node)
  unfolding point_index owner_at collect
  replicas key replication_factor r =
      if leb (length r.nodes) 1
      then some []
      else if sle replication_factor 1
      then some []
      else if length r.points == 0
      then none
      else let idx = point_index key r.points in
        let primary_id = owner_at (get_or r.points idx 0) r.point_to_node in
        some (
          collect (id_at r idx) r.nodes (replication_factor - 1) (length r.points - 1) 1
            (primary_id ∷ []) [])
