-- ===== src/Placement/Consistent.antt =====
-- The placement that a ring of internal/ring/ring.go gives, and that it is lawful.
use self_healing_distributed.Prelude.{
  ℕ, ◌<◌, refl, String, Option, none, some, List, [], arith, length, leb, ◌||◌, Bool-cases, inl,
  inr, string_key,
}
use self_healing_distributed.Prelude.Int64.{two63, sle}
use self_healing_distributed.Ring.{Node, Ring, lookup_node, replicas, seen_in}
use self_healing_distributed.Ring.Invariant.{IsDigest, IsValid}
use self_healing_distributed.Ring.Replicas.{replicas-choice, replicas-nil}
use self_healing_distributed.Placement.{Placement, IsLawful}

-- Where the ring would panic there is no replica.
unfoldable pub nodes_or_none : Option (List Node) → List Node
nodes_or_none none = []
nodes_or_none (some l) = l

module _ (sha256 : String → List ℕ) where
  unfoldable pub placement_of : ℕ → Ring → Placement
  unfolding nodes_or_none
  placement_of replication_factor r = record {
    owner = λ key. lookup_node sha256 key r;
    replicas = λ key. nodes_or_none (replicas sha256 key replication_factor r);
  }

  pub placement_of-IsLawful :
      (digest : IsDigest sha256) (replication_factor : ℕ) (r : Ring)
      → IsValid sha256 r
      → replication_factor < two63
      → IsLawful (placement_of replication_factor r)
  unfolding placement_of nodes_or_none
  placement_of-IsLawful digest rf r v range = record {
    distinct = λ key owner p. elim (Bool-cases (leb (length r.nodes) 1 || sle rf 1)) [
      | inl alone ↦ rw (replicas-nil sha256 key rf r alone) (unfold seen_in in (refl, tt))
      | inr many ↦
          let (l, e, unique, _, _, _) =
            replicas-choice sha256 digest r v key rf owner p (ground arith) (ground arith) range in
          rw e unique
    ];
  }
