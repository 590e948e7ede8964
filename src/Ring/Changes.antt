-- ===== src/Ring/Changes.antt =====
-- The rings that joins and leaves reach, in internal/ring/ring.go.
use self_healing_distributed.Prelude.{ℕ, String, List, [], ◌∷◌}
use self_healing_distributed.Ring.{Node, Ring, add_node, remove_node}
use self_healing_distributed.Ring.Invariant.{IsValid, add_node-IsValid, remove_node-IsValid}

pub data Change : Type 0 where
  join : Node → Change
  leave : String → Change

module _ (sha256 : String → List ℕ) where
  pub change : Change → Ring → Ring
  change (join node) r = add_node sha256 node r
  change (leave id) r = remove_node sha256 id r

  unfoldable pub changes : List Change → Ring → Ring
  unfolding change
  changes [] r = r
  changes (c ∷ cs) r = changes cs (change c r)

  change-IsValid : (c : Change) (r : Ring) → IsValid sha256 r → IsValid sha256 (change c r)
  unfolding change
  change-IsValid (join node) r v = add_node-IsValid sha256 node r v
  change-IsValid (leave id) r v = remove_node-IsValid sha256 id r v

  -- Whatever nodes join and leave a well-formed ring, in whatever order, and however their points
  -- collide, the ring stays well formed: its points are the sorted keys of its table, each point is
  -- that of a virtual node of the node that the table names there, and that node is registered.
  pub changes-IsValid :
      (cs : List Change) (r : Ring) → IsValid sha256 r → IsValid sha256 (changes cs r)
  unfolding changes
  changes-IsValid [] r v = v
  changes-IsValid (c ∷ cs) r v = changes-IsValid cs (change c r) (change-IsValid c r v)
