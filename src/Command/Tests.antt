-- ===== src/Command/Tests.antt =====
-- Nodes that cmd/cache/main.go starts with concrete flags, over a digest of the first byte in place of
-- SHA-256 and a memberlist that always succeeds.
use Prim.Native.Char.{code}
use Prim.Native.String.{String, ◌++◌ as append}
use text.Mathlib.TextLemmas.{cons-append}
use self_healing_distributed.Prelude.{
  ℕ, ◌<◌, ◌*◌, ◌^◌, ◌%◌, ◌≡◌, ◌≢◌, ◌⊎◌, inl, inr, refl, sym, ap, ◌∙◌, true, false, some, List, [],
  ◌∷◌, arith, ◌==◌, string_key, nat_key, Bool-cases,
}
use self_healing_distributed.Text.{
  decimal, split, trim_space, starts_with, atoi, split_host_port, join_host_port, contains,
  split_last, split_first, itoa,
}
use self_healing_distributed.Ring.{
  Node, Ring, lookup_node, seen_in, hash, node_point_key, uint32_of,
}
use self_healing_distributed.Ring.Invariant.{IsDigest, point}
use self_healing_distributed.Placement.{IsLawful}
use self_healing_distributed.Placement.Consistent.{placement_of}
use self_healing_distributed.Cluster.Membership.{Memberlist}
use self_healing_distributed.Server.{Server}
use self_healing_distributed.Server.Tasks.{Move, moves}
use self_healing_distributed.Server.Validity.{IsSound}
use self_healing_distributed.Migration.{alone, no_files}
use self_healing_distributed.Command.{
  Flags, boot_ring, boot, seed_of, seed_host, seed_port, default_port, host_of, port_of,
  gossip_bind_addr, cluster_bind_port, peers_to_gossip_peers, seeds_each,
}
use self_healing_distributed.Command.Agreement.{names, peer_names, boot_ring-agrees}
use self_healing_distributed.Command.Life.{boot-serves}

flags_of : String → String → Flags
flags_of addr peers = record {
  addr = addr;
  advertise_addr = addr;
  id = addr;
  peers = peers;
  gossip_advertise_addr = "";
  cluster_port = 0;
  mem_cap = 0;
}

program : Unit {0}
unfolding flags_of split trim_space starts_with atoi split_host_port join_host_port contains
    split_last split_first itoa seed_of seed_host seed_port default_port decimal host_of port_of
    gossip_bind_addr cluster_bind_port peers_to_gossip_peers seeds_each
program = tt

-- Seeds with their own ports, with a uniform port, and for a port without a host.
seeds_run :
    (peers_to_gossip_peers "10.0.0.2:8080, :8081,," 9_080 true
      ≡ "10.0.0.2:9080" ∷ "127.0.0.1:9081" ∷ [])
    × (peers_to_gossip_peers "10.0.0.2:8080,host" 7_946 false ≡ "10.0.0.2:7946" ∷ "host:7946" ∷ [])
unfolding program
seeds_run = (refl, refl)

-- A peer at port 64535 binds port 65535 for gossip, and its seed has the node's own port.
last_port_run :
    (cluster_bind_port (flags_of "10.0.0.2:64535" "") ≡ (65_535, true))
    × (seed_of "10.0.0.2:64535" 9_080 true ≡ "10.0.0.2:9080")
unfolding program
last_port_run = (refl, refl)

first_digest : String → List ℕ
first_digest String.[] = []
first_digest (String.◌∷◌ c s) = (code c % 256) ∷ 0 ∷ 0 ∷ 0 ∷ []

first-IsDigest : IsDigest first_digest
unfolding first_digest
first-IsDigest String.[] = tt
first-IsDigest (String.◌∷◌ c s) = (omega arith, (omega arith, (omega arith, (omega arith, tt))))

abbrev node_a : Flags
node_a = flags_of "a:80" "b:80"

abbrev node_b : Flags
node_b = flags_of "b:80" " a:80 "

same_names : (x : String) → seen_in x (names node_a) ≡ seen_in x (names node_b)
unfolding program names peer_names seen_in
same_names x = ground arith

-- All points of a node lie where the first byte of its name is.
point_a : (i : ℕ) → point first_digest "a:80" i ≡ 97 * 2 ^ 24
unfolding hash node_point_key first_digest uint32_of
point_a i = rw (cons-append "a" ":80" (append "#" (itoa i))) refl

point_b : (i : ℕ) → point first_digest "b:80" i ≡ 98 * 2 ^ 24
unfolding hash node_point_key first_digest uint32_of
point_b i = rw (cons-append "b" ":80" (append "#" (itoa i))) refl

name-cases : (x : String) → seen_in x (names node_a) ≡ true → (x ≡ "a:80") ⊎ (x ≡ "b:80")
unfolding program names peer_names seen_in
name-cases x h = elim (Bool-cases ("a:80" == x)) [
  | inl same ↦ inl (sym ((string_key.equals_iff "a:80" x).0 same))
  | inr other ↦ inr (sym ((string_key.equals_iff "b:80" x).0 (ground arith)))
]

apart :
    (x y : String)
    → seen_in x (names node_a) ≡ true
    → seen_in y (names node_a) ≡ true
    → x ≢ y
    → (i j : ℕ) → i < 150
    → j < 150
    → point first_digest x i ≢ point first_digest y j
apart x y hx hy ne i j il jl e = elim (name-cases x hx) [
  | inl xa ↦ elim (name-cases y hy) [
    | inl ya ↦ ne (xa ∙ sym ya)
    | inr yb ↦
        let a = ap (λ z. point first_digest z i) xa ∙ point_a i in
        let b = ap (λ z. point first_digest z j) yb ∙ point_b j in omega (arith, a, b, e)
  ]
  | inr xb ↦ elim (name-cases y hy) [
    | inl ya ↦
        let a = ap (λ z. point first_digest z i) xb ∙ point_b i in
        let b = ap (λ z. point first_digest z j) ya ∙ point_a j in omega (arith, a, b, e)
    | inr yb ↦ ne (xb ∙ sym yb)
  ]
]

boot_ring-agrees_example :
    lookup_node first_digest "k" (boot_ring first_digest node_a)
    ≡ lookup_node first_digest "k" (boot_ring first_digest node_b)
unfolding program
boot_ring-agrees_example =
    boot_ring-agrees first_digest node_a node_b first-IsDigest refl refl same_names apart "k"

abbrev willing : Memberlist ℕ
willing = record {
  create = λ cfg w. (true, w);
  join = λ seeds w. (true, w);
  leave = λ w. (true, w);
  shutdown = λ w. (true, w);
}

boot-serves_example :
    (s : Server) × (r : Ring) × ((boot first_digest willing node_a 7).0 ≡ some (s, r))
    × ((ms : List Move) → IsSound (moves alone (placement_of first_digest 2 r) no_files ms s 7).0)
    × IsLawful (placement_of first_digest 2 r)
    × ((key : String) → (n : Node) × (lookup_node first_digest key r ≡ some n))
boot-serves_example = boot-serves first_digest willing node_a 7 first-IsDigest alone no_files refl
