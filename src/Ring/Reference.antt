-- ===== src/Ring/Reference.antt =====
-- What `Lookup` of internal/ring/ring.go is meant to find, without the sorted points and the binary
-- search: a walk through the table for the point that is the nearest one clockwise.
use self_healing_distributed.Prelude.{
  ℕ, ◌≡◌, refl, sym, ap, subst, ◌∙◌, String, Option, none, some, List, [], ◌∷◌, arith, leb, ◌==◌,
  nat_key, string_key, Bool-cases, inl, inr, if◌then◌else◌,
}
use self_healing_distributed.Prelude.Map.{Map, lookup}
use self_healing_distributed.Ring.{Node, Ring, keys_of, hash, lookup_node, sort}
use self_healing_distributed.Ring.Points.{
  mem, mem-keys_of, clockwise, IsNearest, IsNearest-unique, length-pos,
}
use self_healing_distributed.Ring.Invariant.{IsDigest, hash-lt, IsValid}
use self_healing_distributed.Ring.Placement.{placed, mem-points, point-lt, is_some-of}

-- The first of two entries of the table if it is no further from the hash.
closer : ℕ → ℕ × String → Option (ℕ × String) → Option (ℕ × String)
closer h e none = some e
closer h e (some f) = if leb (clockwise h e.0) (clockwise h f.0) then some e else some f

unfoldable pub nearest_entry : ℕ → Map ℕ String → Option (ℕ × String)
unfolding closer
nearest_entry h [] = none
nearest_entry h (e ∷ m) = closer h e (nearest_entry h m)

unfoldable pub node_of_entry : Option (ℕ × String) → Map String Node → Option Node
node_of_entry none nodes = none
node_of_entry (some (p, id)) nodes = lookup id nodes

unfoldable pub walk : (String → List ℕ) → String → Ring → Option Node
unfolding nearest_entry node_of_entry
walk sha256 key r = node_of_entry (nearest_entry (hash sha256 key) r.point_to_node) r.nodes

-- The walk ends at an entry of the table, no point of which is nearer.
record IsClosest (h : ℕ) (m : Map ℕ String) (p : ℕ) (id : String) : Type 0 where
  found : lookup p m ≡ some id
  near : IsNearest h (keys_of m) p

IsClosest-head : (h : ℕ) (p : ℕ) (id : String) → IsClosest h ((p, id) ∷ []) p id
unfolding lookup mem
IsClosest-head h p id = record {
  found = ground arith;
  near = record { member = ground arith; nearest = λ q m. ground arith };
}

-- What the walk through the table finds, if anything.
abbrev Ends : ℕ → Map ℕ String → Option (ℕ × String) → Type 0
Ends h m none = m ≡ []
Ends h m (some (p, id)) = IsClosest h m p id

closer-Ends :
    (h p q : ℕ) (id jd : String) (m : Map ℕ String)
    → IsClosest h m q jd
    → Ends h ((p, id) ∷ m) (closer h (p, id) (some (q, jd)))
unfolding lookup mem closer
closer-Ends h p q id jd m c = elim (Bool-cases (leb (clockwise h p) (clockwise h q))) [
  | inl le ↦ rw le (record {
    found = ground arith;
    near = record {
      member = ground arith;
      nearest = λ x k. elim (Bool-cases (p == x)) [
        | inl same ↦ ground arith
        | inr other ↦ ground (arith, c.near.nearest x (ground arith))
      ];
    };
  })
  | inr gt ↦ rw gt (record {
    found = ground (arith, c.found);
    near = record {
      member = ground (arith, c.near.member);
      nearest = λ x k. elim (Bool-cases (p == x)) [
        | inl same ↦ ground arith
        | inr other ↦ c.near.nearest x (ground arith)
      ];
    };
  })
]

step :
    (h p : ℕ) (id : String) (m : Map ℕ String) (o : Option (ℕ × String))
    → Ends h m o
    → Ends h ((p, id) ∷ m) (closer h (p, id) o)
unfolding closer
step h p id m none e = subst (λ l. IsClosest h ((p, id) ∷ l) p id) (sym e) (IsClosest-head h p id)
step h p id m (some (q, jd)) c = closer-Ends h p q id jd m c

nearest_entry-Ends : (h : ℕ) (m : Map ℕ String) → Ends h m (nearest_entry h m)
unfolding nearest_entry
nearest_entry-Ends h [] = refl
nearest_entry-Ends h ((p, id) ∷ m) = step h p id m (nearest_entry h m) (nearest_entry-Ends h m)

module _ (sha256 : String → List ℕ) (digest : IsDigest sha256) (r : Ring) (v : IsValid sha256 r)
    (key : String) where
  -- A nearest entry of the table is where `Lookup` ends.
  lookup_node-closest :
      (p : ℕ) (id : String)
      → IsClosest (hash sha256 key) r.point_to_node p id
      → lookup_node sha256 key r ≡ lookup id r.nodes
  lookup_node-closest p id c =
      let in_points = mem-points sha256 digest r v p ∙ is_some-of _ id c.found in
      let a = placed sha256 digest r v key (length-pos p r.points in_points) in
      let in_table = mem-keys_of a.p r.point_to_node ∙ is_some-of _ a.id a.owner in
      let e : a.p ≡ p =
        IsNearest-unique (hash sha256 key) a.p p r.points (keys_of r.point_to_node)
          (hash-lt sha256 digest key) (point-lt sha256 digest r v a.p a.nearest.member)
          (point-lt sha256 digest r v p in_points) a.nearest c.near in_points in_table in
      let same : a.id ≡ id = ground (arith, a.owner, c.found) in
      a.result ∙ ground (arith, a.registered)

  lookup_node_empty : r.point_to_node ≡ [] → lookup_node sha256 key r ≡ none
  unfolding lookup_node sort
  lookup_node_empty e =
      let empty : r.points ≡ [] = v.listing ∙ ap (λ m. sort (keys_of m)) e in rw empty refl

  lookup_node-Ends :
      (o : Option (ℕ × String))
      → Ends (hash sha256 key) r.point_to_node o
      → lookup_node sha256 key r ≡ node_of_entry o r.nodes
  unfolding node_of_entry
  lookup_node-Ends none e = lookup_node_empty e
  lookup_node-Ends (some (p, id)) c = lookup_node-closest p id c

  -- On a well-formed ring, with or without nodes, the binary search of `Lookup` among the sorted
  -- points finds for each key what the walk through the whole table for the nearest point finds.
  pub lookup_node-walk : lookup_node sha256 key r ≡ walk sha256 key r
  unfolding walk
  lookup_node-walk =
      lookup_node-Ends (nearest_entry (hash sha256 key) r.point_to_node)
        (nearest_entry-Ends (hash sha256 key) r.point_to_node)
