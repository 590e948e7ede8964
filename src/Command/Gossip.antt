-- ===== src/Command/Gossip.antt =====
-- The gossip seeds that cmd/cache/main.go derives from the addresses of the peers.
use self_healing_distributed.Prelude.{nat_key, string_key}
