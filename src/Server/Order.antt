-- ===== src/Server/Order.antt =====
-- The order in which internal/server/server.go tries the replicas of a key.
use self_healing_distributed.Prelude.{
  ◌+◌, ◌≡◌, refl, ◌∙◌, String, Bool, true, false, List, [], ◌∷◌, ◌++◌, ◌||◌, arith, length,
  string_key, Bool-cases, inl, inr, length-append,
}
use self_healing_distributed.Ring.{Node, seen_in}
use self_healing_distributed.Ring.Replication.{ids}
use self_healing_distributed.Server.{Server, is_node_alive, split_by_alive, try_order}

-- All nodes of a list count as alive, or none does.
abbrev pub AllCount : Bool → List Node → Server → Type 0
AllCount b [] s = Unit
AllCount b (n ∷ nodes) s = (is_node_alive n.id s ≡ b) × AllCount b nodes s

seen_in-append :
    (id : String) (l l' : List Node)
    → seen_in id (ids (l ++ l')) ≡ (seen_in id (ids l) || seen_in id (ids l'))
unfolding seen_in
seen_in-append id [] l' = refl
seen_in-append id (n ∷ l) l' = ground (arith, seen_in-append id l l')

-- The parts of a split, and that no node is lost or added.
record IsSplit (nodes : List Node) (s : Server) (x : List Node × List Node) : Type 0 where
  alive : AllCount true x.0 s
  dead : AllCount false x.1 s
  size : length x.0 + length x.1 ≡ length nodes
  same : (id : String) → (seen_in id (ids x.0) || seen_in id (ids x.1)) ≡ seen_in id (ids nodes)

split_by_alive-IsSplit : (nodes : List Node) (s : Server) → IsSplit nodes s (split_by_alive nodes s)
unfolding split_by_alive seen_in
split_by_alive-IsSplit [] s = record { alive = tt; dead = tt; size = refl; same = λ id. refl }
split_by_alive-IsSplit (n ∷ nodes) s =
    let h = split_by_alive-IsSplit nodes s in
    elim (Bool-cases (is_node_alive n.id s)) [
      | inl up ↦
          rw (up, split_by_alive)
            (record {
              alive = (up, h.alive);
              dead = h.dead;
              size = omega (arith, h.size);
              same = λ id. ground (arith, h.same id);
            })
      | inr down ↦
          rw (down, split_by_alive)
            (record {
              alive = h.alive;
              dead = (down, h.dead);
              size = omega (arith, h.size);
              same = λ id. ground (arith, h.same id);
            })
    ]

-- The nodes are tried in an order in which all that count as alive come before all that do not; each
-- node is tried, as often as it is there, and no other.
pub try_order-alive :
    (nodes : List Node) (s : Server)
    → (alive : List Node) × (dead : List Node) × (try_order nodes s ≡ alive ++ dead)
      × AllCount true alive s
      × AllCount false dead s
      × (length (try_order nodes s) ≡ length nodes)
      × ((id : String) → seen_in id (ids (try_order nodes s)) ≡ seen_in id (ids nodes))
unfolding try_order
try_order-alive nodes s =
    let (alive, dead) = split_by_alive nodes s in
    let h = split_by_alive-IsSplit nodes s in
    (
      alive,
      dead,
      refl,
      h.alive,
      h.dead,
      length-append alive dead ∙ h.size,
      λ id. seen_in-append id alive dead ∙ h.same id,
    )
