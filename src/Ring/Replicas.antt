-- ===== src/Ring/Replicas.antt =====
-- `Replicas` of internal/ring/ring.go on a well-formed ring.
use native.Mathlib.Nat.{mod-lt, mod-eq_of_lt}
use native.Mathlib.Decide.{ℕ_discrete, dec_lt}
use self_healing_distributed.Prelude.{
  ℕ, ◌+◌, ◌-◌, ◌%◌, ◌≤◌, ◌<◌, ◌≡◌, ◌≢◌, refl, subst, ap, sym, ◌∙◌, String, Bool, true, false, some,
  List, [], ◌∷◌, arith, length, nat_key, string_key, get_or, ◌⊎◌, inl, inr, ltb, leb, ◌||◌,
  Bool-cases,
}
use self_healing_distributed.Prelude.Int64.{two63, sle}
use self_healing_distributed.Prelude.Map.{lookup}
use self_healing_distributed.Ring.{
  Node, Ring, seen_in, collect, node_at, owner_at, point_index, replicas, lookup_node, id_at,
  keys_of,
}
use self_healing_distributed.Ring.Points.{
  mem-get, get-of-mem, point_index-IsNearest, IsSorted, IsSorted-sort,
}
use self_healing_distributed.Ring.Invariant.{IsDigest, IsValid, hash-lt}
use self_healing_distributed.Ring.Placement.{
  mem-points, is_some-cases, is_some-of, found-pos, point-lt,
}
use self_healing_distributed.Ring.Replication.{
  ids, IsUnique, AllRegistered, IsOutcome, collect-IsOutcome,
}

-- Going round from an index reaches every index.
reach :
    (idx q n : ℕ) → idx < n → q < n → q ≢ idx → (j : ℕ) × (1 ≤ j) × (j < n) × ((idx + j) % n ≡ q)
reach idx q n a b ne = elim (dec_lt q idx) [
  | yes lo ↦
      let e : idx + (q + n - idx) ≡ q + n = omega arith in
      (q + n - idx, omega arith, omega arith, rw e (grind arith))
  | no hi ↦
      let e : idx + (q - idx) ≡ q = omega arith in
      (q - idx, omega arith, omega arith, rw e (mod-eq_of_lt b))
]

-- One node, or a factor of one, and there is no replica.
pub replicas-nil :
    (sha256 : String → List ℕ) (key : String) (replication_factor : ℕ) (r : Ring)
    → (leb (length r.nodes) 1 || sle replication_factor 1) ≡ true
    → replicas sha256 key replication_factor r ≡ some []
unfolding replicas
replicas-nil sha256 key rf r h = ground arith

module _ (sha256 : String → List ℕ) (digest : IsDigest sha256) (r : Ring)
    (v : IsValid sha256 r) where
  owner_at-some :
      (p : ℕ) (id : String) → lookup p r.point_to_node ≡ some id → owner_at p r.point_to_node ≡ id
  unfolding owner_at
  owner_at-some p id h = rw (h, owner_at)

  node_at-some : (id : String) (n : Node) → lookup id r.nodes ≡ some n → node_at id r.nodes ≡ n
  unfolding node_at
  node_at-some id n h = rw (h, node_at)

  -- The node at an index of the points is registered.
  at_index :
      (i : ℕ)
      → i < length r.points
      → let id = owner_at (get_or r.points i 0) r.point_to_node in
        (lookup (get_or r.points i 0) r.point_to_node ≡ some id)
        × (lookup id r.nodes ≡ some (node_at id r.nodes))
        × ((node_at id r.nodes).id ≡ id)
  at_index i lt =
      let p = get_or r.points i 0 in
      let (id, e) =
        is_some-cases (lookup p r.point_to_node)
          (sym (mem-points sha256 digest r v p) ∙ mem-get r.points i lt) in
      let (_, n, _, _, q) = v.owned p id e in
      let m = node_at-some id n q in
      subst
        (λ x.
          (lookup p r.point_to_node ≡ some x)
          × (lookup x r.nodes ≡ some (node_at x r.nodes))
          × ((node_at x r.nodes).id ≡ x))
        (sym (owner_at-some p id e))
        (e, q ∙ ap some (sym m), ap (λ (x : Node). x.id) m ∙ v.named id n q)

  -- `Lookup` is the node at the index that it finds.
  lookup-first :
      (key : String)
      → 0 < length r.points
      → lookup_node sha256 key r
        ≡ some (
            node_at
              (owner_at (get_or r.points (point_index sha256 key r.points) 0) r.point_to_node)
              r.nodes)
  unfolding lookup_node
  lookup-first key inhabited = ground arith

  replicas-collect :
      (key : String) (rf : ℕ)
      → 0 < length r.points
      → 1 < length r.nodes
      → sle rf 1 ≡ false
      → let idx = point_index sha256 key r.points in
        replicas sha256 key rf r
        ≡ some (
            collect
              (id_at sha256 r idx)
              r.nodes
              (rf - 1)
              (length r.points - 1)
              1
              (owner_at (get_or r.points idx 0) r.point_to_node ∷ [])
              [])
  unfolding replicas
  replicas-collect key rf inhabited many factor = ground arith

  seen_nil : (x : String) → seen_in x [] ≡ false
  unfolding seen_in
  seen_nil x = refl

  seen_self : (x : String) (xs : List String) → seen_in x (x ∷ xs) ≡ true
  unfolding seen_in
  seen_self x xs = ground (arith, string_key.equals_iff x x)

  -- Each owner of a point is the primary or at a round.
  owner_reached :
      (idx p : ℕ) (id : String) (seen : String → Bool)
      → idx < length r.points
      → lookup p r.point_to_node ≡ some id
      → seen (owner_at (get_or r.points idx 0) r.point_to_node) ≡ true
      → ((j : ℕ) → 1 ≤ j → j < 1 + (length r.points - 1) → seen (id_at sha256 r idx j) ≡ true)
      → seen id ≡ true
  owner_reached idx p id seen lt e base all =
      let m = mem-points sha256 digest r v p ∙ is_some-of (lookup p r.point_to_node) id e in
      let (q, ql, qe) = get-of-mem r.points p m in
      let its : owner_at (get_or r.points q 0) r.point_to_node ≡ id =
        ap (λ x. owner_at x r.point_to_node) qe ∙ owner_at-some p id e in
      elim (ℕ_discrete q idx) [
        | yes same ↦
            subst (λ x. seen x ≡ true)
              (ap (λ x. owner_at (get_or r.points x 0) r.point_to_node) (sym same) ∙ its) base
        | no ne ↦
            let (j, lo, hi, je) = reach idx q (length r.points) lt ql ne in
            subst (λ x. seen x ≡ true)
              (ap (λ x. owner_at (get_or r.points x 0) r.point_to_node) je ∙ its)
              (all j lo (omega arith))
      ]

  -- `Replicas` on a well-formed ring of more than one node that has an owner for the key, with a
  -- replication factor from 2 on and below 2 ^ 63: fewer nodes than the factor, each registered,
  -- no two alike and none the owner; and they are one fewer than the factor, or no other node has
  -- a point on the ring.
  pub replicas-choice :
      (key : String) (replication_factor : ℕ) (primary : Node)
      → lookup_node sha256 key r ≡ some primary
      → 1 < length r.nodes
      → sle replication_factor 1 ≡ false
      → replication_factor < two63
      → (l : List Node) × (replicas sha256 key replication_factor r ≡ some l)
        × IsUnique (primary.id ∷ ids l)
        × (length l < replication_factor)
        × AllRegistered r.nodes l
        × ((length l + 1 ≡ replication_factor)
            ⊎ ((p : ℕ) (id : String)
                → lookup p r.point_to_node ≡ some id
                → seen_in id (primary.id ∷ ids l) ≡ true))
  replicas-choice key rf primary h many factor range =
      let points = r.points in
      let two : 2 ≤ rf = ground arith in
      let idx = point_index sha256 key points in
      let inhabited = found-pos sha256 digest r v key primary h in
      let (lt, _) =
        point_index-IsNearest sha256 key points
          (subst IsSorted (sym v.listing) (IsSorted-sort (keys_of r.point_to_node)))
          (hash-lt sha256 digest key) (point-lt sha256 digest r v) inhabited in
      let there = λ (i : ℕ). at_index ((idx + i) % length points) (mod-lt (idx + i) inhabited) in
      let first = owner_at (get_or points idx 0) r.point_to_node in
      let same : primary ≡ node_at first r.nodes = ground (arith, h, lookup-first key inhabited) in
      let is_first : primary.id ≡ first = ap (λ (n : Node). n.id) same ∙ (at_index idx lt).2 in
      let l = collect (id_at sha256 r idx) r.nodes (rf - 1) (length points - 1) 1 (first ∷ []) [] in
      let o : IsOutcome (id_at sha256 r idx) r.nodes (rf - 1) first (λ i. (there i).2)
          (λ i. (there i).1) 1 (length points - 1) [] l =
        collect-IsOutcome (id_at sha256 r idx) r.nodes (rf - 1) first (λ i. (there i).2)
          (λ i. (there i).1) (length points - 1) 1 (first ∷ []) []
          (record {
            unique = (seen_nil first, tt);
            same = λ x. refl;
            room = omega arith;
            all = tt;
          }) in
      (
        l,
        replicas-collect key rf inhabited many factor,
        subst (λ x. IsUnique (x ∷ ids l)) (sym is_first) o.unique,
        omega (arith, o.bound),
        o.all,
        enough l (omega (arith, o.bound)) (λ small p id e.
            owner_reached idx p id (λ x. seen_in x (primary.id ∷ ids l)) lt e
              (subst (λ x. seen_in first (x ∷ ids l) ≡ true) (sym is_first)
                (seen_self first (ids l)))
              (λ j lo hi.
                subst (λ x. seen_in (id_at sha256 r idx j) (x ∷ ids l) ≡ true) (sym is_first)
                  (o.complete (omega arith) j lo hi))),
      )
    where
      enough :
          (l : List Node)
          → length l + 1 ≤ rf
          → (length l + 1 < rf
              → (p : ℕ) (id : String) → lookup p r.point_to_node ≡ some id
              → seen_in id (primary.id ∷ ids l) ≡ true)
          → (length l + 1 ≡ rf)
            ⊎ ((p : ℕ) (id : String)
                → lookup p r.point_to_node ≡ some id
                → seen_in id (primary.id ∷ ids l) ≡ true)
      enough l room all = elim (Bool-cases (ltb (length l + 1) rf)) [
        | inl few ↦ inr (all (ground arith))
        | inr full ↦ inl (ground arith)
      ]
