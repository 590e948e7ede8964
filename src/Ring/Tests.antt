-- ===== src/Ring/Tests.antt =====
-- Runs of internal/ring/ring.go on a ring of three nodes, over a small checksum in place of SHA-256,
-- and the theorems at these runs.
use Prim.Native.Char.{code}
use Prim.Native.String.{String}
use text.Mathlib.TextEquality.{eq_iff}
use self_healing_distributed.Prelude.{
  ℕ, zero, suc, ◌+◌, ◌*◌, ◌%◌, ◌<◌, ◌≡◌, ◌≢◌, ◌⊎◌, refl, true, none, some, List, [], ◌∷◌, arith,
  length, nat_key, string_key,
}
use self_healing_distributed.Prelude.Map.{lookup, insert, delete}
use self_healing_distributed.Ring.{
  Node, Ring, new, node_point_key, add_node, remove_node, lookup_node, replicas, hash, seen_in,
  rebuild_points, node_at, owner_at, collect,
}
use self_healing_distributed.Text.{itoa}
use self_healing_distributed.Ring.Search.{search}
use self_healing_distributed.Ring.Invariant.{IsDigest, IsValid, new-IsValid, point}
use self_healing_distributed.Ring.Changes.{Change, join, leave, changes, changes-IsValid}
use self_healing_distributed.Ring.Placement.{add_node-moves, remove_node-keeps}
use self_healing_distributed.Ring.Replication.{ids, IsUnique, AllRegistered}
use self_healing_distributed.Ring.Reference.{walk, lookup_node-walk}
use self_healing_distributed.Ring.Replicas.{replicas-choice}

checksum : ℕ → String → ℕ
checksum acc String.[] = acc
checksum acc (String.◌∷◌ c s) = checksum ((acc * 31 + code c) % 256) s

digest_of : String → List ℕ
digest_of s = 0 ∷ 0 ∷ 0 ∷ (checksum 7 s % 256) ∷ []

program : Unit {0}
unfolding new itoa node_point_key add_node remove_node lookup_node replicas hash seen_in lookup
    insert delete rebuild_points node_at owner_at collect search checksum digest_of changes
program = tt

itoa_runs : itoa 1_203 ≡ "1203"
unfolding program
itoa_runs = refl

abbrev node_a : Node
node_a = record { id = "a"; addr = "10.0.0.1:80" }

abbrev node_b : Node
node_b = record { id = "b"; addr = "10.0.0.2:80" }

abbrev node_c : Node
node_c = record { id = "c"; addr = "10.0.0.3:80" }

abbrev joins : List Change
joins = join node_a ∷ join node_b ∷ []

abbrev two_nodes : Ring
two_nodes = changes digest_of joins (new 2)

-- The table of the ring, and the placement of two keys before and after a third node joins.
points_run : two_nodes.points ≡ 39 ∷ 40 ∷ 232 ∷ 233 ∷ []
unfolding program
points_run = refl

lookup_run :
    (lookup_node digest_of "x" two_nodes ≡ some node_b)
    × (lookup_node digest_of "x" (add_node digest_of node_c two_nodes) ≡ some node_c)
unfolding program
lookup_run = (refl, refl)

replicas_run : replicas digest_of "x" 2 two_nodes ≡ some (node_a ∷ [])
unfolding program
replicas_run = refl

toy-IsDigest : IsDigest digest_of
unfolding digest_of
toy-IsDigest key = (omega arith, (omega arith, (omega arith, (omega arith, tt))))

two_nodes-IsValid : IsValid digest_of two_nodes
two_nodes-IsValid = changes-IsValid digest_of joins (new 2) (new-IsValid digest_of 2)

changes-IsValid_example : IsValid digest_of (changes digest_of joins (new 2))
changes-IsValid_example = changes-IsValid digest_of joins (new 2) (new-IsValid digest_of 2)

add_node-moves_example :
    (lookup_node digest_of "x" (add_node digest_of node_c two_nodes) ≡ some node_b)
    ⊎ (lookup_node digest_of "x" (add_node digest_of node_c two_nodes) ≡ some node_c)
unfolding program
add_node-moves_example =
    add_node-moves digest_of toy-IsDigest node_c two_nodes "x" node_b two_nodes-IsValid refl refl

b_not_a : ◌≢◌ {A = String} "b" "a"
b_not_a = ground (arith, eq_iff "b" "a")

a_owns : (j : ℕ) → j < 2 → lookup (point digest_of "a" j) two_nodes.point_to_node ≡ some "a"
unfolding program
a_owns zero h = refl
a_owns (suc zero) h = refl
a_owns (suc (suc j)) h = absurd (omega arith)

remove_node-keeps_example :
    lookup_node digest_of "x" (remove_node digest_of "a" two_nodes) ≡ some node_b
unfolding program
remove_node-keeps_example =
    remove_node-keeps digest_of toy-IsDigest "a" two_nodes "x" node_b node_a two_nodes-IsValid refl
      a_owns refl b_not_a

replicas-choice_example :
    (l : List Node) × (replicas digest_of "x" 2 two_nodes ≡ some l)
    × IsUnique ("b" ∷ ids l)
    × (length l < 2)
    × AllRegistered two_nodes.nodes l
    × ((length l + 1 ≡ 2)
        ⊎ ((p : ℕ) (id : String)
            → lookup p two_nodes.point_to_node ≡ some id
            → seen_in id ("b" ∷ ids l) ≡ true))
unfolding program
replicas-choice_example =
    replicas-choice digest_of toy-IsDigest two_nodes two_nodes-IsValid "x" 2 node_b refl
      (omega arith) refl (omega arith)

-- The binary search against the walk through the table.
lookup_node-walk_example : lookup_node digest_of "x" two_nodes ≡ walk digest_of "x" two_nodes
lookup_node-walk_example = lookup_node-walk digest_of toy-IsDigest two_nodes two_nodes-IsValid "x"

-- Where two nodes share a point, a join and a leave of the second do not give the ring back: the
-- first node has lost the point. Over one value for all digests the ring keeps no point at all.
abbrev one_digest : String → List ℕ
one_digest key = 0 ∷ 0 ∷ 0 ∷ 7 ∷ []

shared_point_lost :
    (lookup_node one_digest "x" (changes one_digest (join node_a ∷ []) (new 2)) ≡ some node_a)
    × (lookup_node one_digest "x"
          (changes one_digest (join node_a ∷ join node_b ∷ leave "b" ∷ []) (new 2))
        ≡ none)
unfolding program
shared_point_lost = (refl, refl)
