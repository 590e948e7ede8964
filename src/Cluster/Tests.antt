-- ===== src/Cluster/Tests.antt =====
-- Reports of the membership protocol to internal/cluster/cluster.go.
use self_healing_distributed.Prelude.{◌≡◌, refl, false, List, [], ◌∷◌, length, string_key, nat_key}
use self_healing_distributed.Prelude.Map.{insert}
use self_healing_distributed.Cluster.{
  new, is_alive, alive_count, count_alive, notify_join, notify_leave, set_node_alive, record_event,
  event_name, node_failed,
}
use self_healing_distributed.Cluster.Liveness.{
  Report, joined, left, notify, notify_all, last_report, is_alive-notify_all,
}

abbrev reports : List Report
reports = joined 5 "b" ∷ joined 6 "c" ∷ left 9 "b" ∷ []

is_alive-notify_all_example :
    (is_alive "b" (notify_all reports (new "a")) ≡ false)
    × (length (notify_all reports (new "a")).events ≡ 3)
unfolding last_report new
is_alive-notify_all_example = is_alive-notify_all reports (new "a") "b"

counts_run : (alive_count (notify_all reports (new "a")) ≡ 2) × (event_name node_failed ≡ "FAILED")
unfolding new notify_all notify notify_join notify_leave set_node_alive record_event alive_count
    count_alive insert event_name
counts_run = (refl, refl)
