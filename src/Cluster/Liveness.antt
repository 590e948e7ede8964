-- ===== src/Cluster/Liveness.antt =====
-- The liveness table of internal/cluster/cluster.go against the events that it is kept from.
use self_healing_distributed.Prelude.{
  ℕ, ◌+◌, ◌≡◌, refl, sym, ap, ◌∙◌, String, Bool, true, false, List, [], ◌∷◌, arith, length, ◌==◌,
  string_key, if◌then◌else◌, length-append,
}
use self_healing_distributed.Prelude.Map.{lookup-insert}
use self_healing_distributed.Cluster.{
  Cluster, set_node_alive, record_event, notify_join, notify_leave, flag_of, is_alive,
}

-- A report of the membership protocol, at a time.
pub data Report : Type 0 where
  joined left : ℕ → String → Report

unfoldable pub notify : Report → Cluster → Cluster
unfolding notify_join notify_leave
notify (joined now node) c = notify_join now node c
notify (left now node) c = notify_leave now node c

unfoldable pub notify_all : List Report → Cluster → Cluster
unfolding notify
notify_all [] c = c
notify_all (r ∷ rs) c = notify_all rs (notify r c)

-- What the last report of a node says, or what was so before the reports.
unfoldable pub last_report : String → Bool → List Report → Bool
last_report node before [] = before
last_report node before (joined now n ∷ rs) =
    last_report node (if n == node then true else before) rs
last_report node before (left now n ∷ rs) =
    last_report node (if n == node then false else before) rs

is_alive-notify :
    (r : Report) (c : Cluster) (node : String)
    → is_alive node (notify r c) ≡ last_report node (is_alive node c) (r ∷ [])
unfolding notify notify_join notify_leave is_alive flag_of set_node_alive record_event last_report
is_alive-notify (joined now n) c node = ground (arith, lookup-insert n node true c.alive_nodes)
is_alive-notify (left now n) c node = ground (arith, lookup-insert n node false c.alive_nodes)

events-notify : (r : Report) (c : Cluster) → length (notify r c).events ≡ length c.events + 1
unfolding notify notify_join notify_leave set_node_alive record_event
events-notify (joined now n) c = length-append c.events _
events-notify (left now n) c = length-append c.events _

last_report-cons :
    (node : String) (before : Bool) (r : Report) (rs : List Report)
    → last_report node before (r ∷ rs) ≡ last_report node (last_report node before (r ∷ [])) rs
unfolding last_report
last_report-cons node before (joined now n) rs = refl
last_report-cons node before (left now n) rs = refl

-- A node counts as alive exactly if the last report about it was that it joined; without a report, if
-- it counted so before. Each report adds one event to the log.
pub is_alive-notify_all :
    (rs : List Report) (c : Cluster) (node : String)
    → (is_alive node (notify_all rs c) ≡ last_report node (is_alive node c) rs)
      × (length (notify_all rs c).events ≡ length c.events + length rs)
unfolding notify_all last_report
is_alive-notify_all [] c node = (refl, omega arith)
is_alive-notify_all (r ∷ rs) c node =
    let (a, b) = is_alive-notify_all rs (notify r c) node in
    (
      a
          ∙ ap (λ x. last_report node x rs) (is_alive-notify r c node)
          ∙ sym (last_report-cons node (is_alive node c) r rs),
      omega (arith, b, events-notify r c),
    )
