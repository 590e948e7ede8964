-- ===== src/Ring/Invariant.antt =====
-- The well-formed rings of internal/ring/ring.go, and `AddNode` and `RemoveNode` on them.
use native.Mathlib.Decide.{ℕ_discrete}
use self_healing_distributed.Prelude.{
  ℕ, zero, suc, ◌+◌, ◌≤◌, ◌<◌, ◌≡◌, ◌≢◌, refl, subst, ap, sym, ◌∙◌, String, Bool, true, false, ◌||◌,
  none, some, List, [], ◌∷◌, arith, ◌==◌, nat_key, string_key, Bool-cases, inl, inr, if◌then◌else◌,
}
use self_healing_distributed.Prelude.Map.{
  Map, lookup, insert, delete, lookup-insert, lookup-delete, some-lookup-delete,
  lookup-insert_cases, lookup-insert_self, lookup-delete_ne,
}
use self_healing_distributed.Ring.{
  Node, Ring, new, sort, keys_of, rebuild_points, is_some, hash, uint32_of, node_point_key,
  add_points, delete_points, add_node, remove_node,
}
use self_healing_distributed.Ring.Points.{two32}

abbrev IsBytes : List ℕ → Type 0
IsBytes [] = Unit
IsBytes (b ∷ bs) = (b < 256) × IsBytes bs

-- What the ring uses of SHA-256: a digest is a list of bytes.
abbrev pub IsDigest : (String → List ℕ) → Type 0
IsDigest sha256 = (key : String) → IsBytes (sha256 key)

uint32_of-lt : (l : List ℕ) → IsBytes l → uint32_of l < two32
unfolding uint32_of
uint32_of-lt [] h = omega arith
uint32_of-lt (a ∷ []) h = omega arith
uint32_of-lt (a ∷ b ∷ []) h = omega arith
uint32_of-lt (a ∷ b ∷ c ∷ []) h = omega arith
uint32_of-lt (a ∷ b ∷ c ∷ d ∷ l) h = omega arith

pub hash-lt :
    (sha256 : String → List ℕ) → IsDigest sha256 → (key : String) → hash sha256 key < two32
unfolding hash
hash-lt sha256 digest key = uint32_of-lt (sha256 key) (digest key)

module _ (sha256 : String → List ℕ) where
  abbrev pub point : String → ℕ → ℕ
  point id i = hash sha256 (node_point_key id i)

  -- Whether `p` is the point of one of the virtual nodes from `i` on, on the rounds that are left.
  pub is_point : ℕ → ℕ → String → ℕ → Bool
  is_point zero i id p = false
  is_point (suc rounds) i id p = point id i == p || is_point rounds (i + 1) id p

  pub add_points-lookup :
      (rounds i : ℕ) (id : String) (m : Map ℕ String) (p : ℕ)
      → lookup p (add_points sha256 rounds i id m)
        ≡ (if is_point rounds i id p then some id else lookup p m)
  unfolding add_points is_point
  add_points-lookup zero i id m p = refl
  add_points-lookup (suc rounds) i id m p =
      add_points-lookup rounds (i + 1) id (insert (point id i) id m) p
      ∙ ground (arith, lookup-insert (point id i) p id m)

  pub delete_points-lookup :
      (rounds i : ℕ) (id : String) (m : Map ℕ String) (p : ℕ)
      → lookup p (delete_points sha256 rounds i id m)
        ≡ (if is_point rounds i id p then none else lookup p m)
  unfolding delete_points is_point
  delete_points-lookup zero i id m p = refl
  delete_points-lookup (suc rounds) i id m p =
      delete_points-lookup rounds (i + 1) id (delete (point id i) m) p
      ∙ ground (arith, lookup-delete (point id i) p m)

  pub is_point-index :
      (rounds i : ℕ) (id : String) (p : ℕ)
      → is_point rounds i id p ≡ true
      → (j : ℕ) × (j < i + rounds) × (p ≡ point id j)
  unfolding is_point
  is_point-index zero i id p h = absurd (ground arith)
  is_point-index (suc rounds) i id p h = elim (Bool-cases (point id i == p)) [
    | inl same ↦ (i, omega arith, ground arith)
    | inr other ↦
        let (j, lt, e) = is_point-index rounds (i + 1) id p (ground arith) in (j, omega arith, e)
  ]

  pub index-is_point :
      (rounds i : ℕ) (id : String) (j : ℕ)
      → i ≤ j
      → j < i + rounds
      → is_point rounds i id (point id j) ≡ true
  unfolding is_point
  index-is_point zero i id j lo hi = absurd (omega arith)
  index-is_point (suc rounds) i id j lo hi = elim (ℕ_discrete i j) [
    | yes e ↦ ground arith
    | no ne ↦ ground (arith, index-is_point rounds (i + 1) id j (omega arith) (omega arith))
  ]

  -- The points are the sorted keys of the table, each of which is a point of the registered node
  -- that it names, and each node is registered under its identity.
  pub record IsValid (r : Ring) : Type 0 where
    pub listing : r.points ≡ sort (keys_of r.point_to_node)
    pub owned :
        (p : ℕ) (id : String)
        → lookup p r.point_to_node ≡ some id
        → (j : ℕ) × (n : Node) × (p ≡ point id j)
          × (j < r.virtual_nodes)
          × (lookup id r.nodes ≡ some n)
    pub named : (id : String) (n : Node) → lookup id r.nodes ≡ some n → n.id ≡ id

  pub new-IsValid : (virtual_nodes : ℕ) → IsValid (new virtual_nodes)
  unfolding new lookup sort
  new-IsValid virtual_nodes = record {
    listing = refl;
    owned = λ p id h. absurd (ground arith);
    named = λ id n h. absurd (ground arith);
  }

  -- An insertion keeps what is registered registered.
  registered :
      (id : String) (n node : Node) (m : Map String Node)
      → lookup id m ≡ some n
      → (n' : Node) × (lookup id (insert node.id node m) ≡ some n')
  registered id n node m h = elim (Bool-cases (node.id == id)) [
    | inl same ↦ (node, ground (arith, lookup-insert node.id id node m))
    | inr other ↦ (n, ground (arith, lookup-insert node.id id node m))
  ]

  added-owned :
      (node : Node) (r : Ring)
      → IsValid r
      → (p : ℕ) (id : String)
      → lookup p (add_points sha256 r.virtual_nodes 0 node.id r.point_to_node) ≡ some id
      → (j : ℕ) × (n : Node) × (p ≡ point id j)
        × (j < r.virtual_nodes)
        × (lookup id (insert node.id node r.nodes) ≡ some n)
  added-owned node r v p id h =
      let l = add_points-lookup r.virtual_nodes 0 node.id r.point_to_node p in
      elim (Bool-cases (is_point r.virtual_nodes 0 node.id p)) [
        | inl its ↦
            let (j, lt, e) = is_point-index r.virtual_nodes 0 node.id p its in
            let same : node.id ≡ id = ground arith in
            (
              j,
              node,
              (rw (← same) e),
              omega arith,
              rw (← same) (lookup-insert_self node.id node r.nodes),
            )
        | inr old ↦
            let (j, n, e, lt, q) = v.owned p id (ground arith) in
            let (n', q') = registered id n node r.nodes q in (j, n', e, lt, q')
      ]

  add_new-IsValid :
      (node : Node) (r : Ring)
      → IsValid r
      → IsValid (
          rebuild_points (record r {
            nodes = insert node.id node r.nodes;
            point_to_node = add_points sha256 r.virtual_nodes 0 node.id r.point_to_node;
          }))
  unfolding rebuild_points
  add_new-IsValid node r v = record {
    listing = refl;
    owned = added-owned node r v;
    named = λ id n h. elim (lookup-insert_cases node.id id node n r.nodes h) [
      | inl (e, f) ↦ ground arith
      | inr (_, f) ↦ v.named id n f
    ];
  }

  pub add_node-IsValid : (node : Node) (r : Ring) → IsValid r → IsValid (add_node sha256 node r)
  unfolding add_node
  add_node-IsValid node r v = elim (Bool-cases (is_some (lookup node.id r.nodes))) [
    | inl there ↦ rw there v
    | inr fresh ↦ rw fresh (add_new-IsValid node r v)
  ]

  -- What is left after a removal belongs to another node.
  pub kept_point :
      (node_id : String) (r : Ring)
      → IsValid r
      → (p : ℕ) (id : String)
      → lookup p (delete_points sha256 r.virtual_nodes 0 node_id r.point_to_node) ≡ some id
      → (lookup p r.point_to_node ≡ some id) × (node_id ≢ id)
  kept_point node_id r v p id h =
      let l = delete_points-lookup r.virtual_nodes 0 node_id r.point_to_node p in
      let kept : is_point r.virtual_nodes 0 node_id p ≡ false = ground arith in
      let there : lookup p r.point_to_node ≡ some id = ground arith in
      let (j, n, e, lt, q) = v.owned p id there in
      (
        there,
        (λ same.
            let its = index-is_point r.virtual_nodes 0 node_id j (omega arith) (omega arith) in
            let e' : point node_id j ≡ p = ap (λ x. point x j) same ∙ sym e in
            ground (arith, subst (λ x. is_point r.virtual_nodes 0 node_id x ≡ true) e' its)),
      )

  removed-IsValid :
      (node_id : String) (r : Ring)
      → IsValid r
      → IsValid (
          rebuild_points (record r {
            nodes = delete node_id r.nodes;
            point_to_node = delete_points sha256 r.virtual_nodes 0 node_id r.point_to_node;
          }))
  unfolding rebuild_points
  removed-IsValid node_id r v = record {
    listing = refl;
    owned = λ p id h.
        let (there, other) = kept_point node_id r v p id h in
        let (j, n, e, lt, q) = v.owned p id there in
        (j, n, e, lt, lookup-delete_ne node_id id r.nodes other ∙ q);
    named = λ id n h. v.named id n (some-lookup-delete node_id id n r.nodes h).1;
  }

  pub remove_node-IsValid : (id : String) (r : Ring) → IsValid r → IsValid (remove_node sha256 id r)
  unfolding remove_node
  remove_node-IsValid id r v = elim (Bool-cases (is_some (lookup id r.nodes))) [
    | inl there ↦ rw there (removed-IsValid id r v)
    | inr absent ↦ rw absent v
  ]
