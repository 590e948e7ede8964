-- ===== src/Text/Tests.antt =====
-- Runs of the text functions that the commands use.
use self_healing_distributed.Prelude.{◌≡◌, refl, true, false, none, some, [], ◌∷◌}
use self_healing_distributed.Text.{
  split, comma, trim_space, atoi, split_host_port, join_host_port, contains, split_last,
  split_first,
}

split_run :
    (split comma "a, b,,c" ≡ "a" ∷ " b" ∷ "" ∷ "c" ∷ [])
    × (split comma "" ≡ "" ∷ [])
    × (trim_space "  a b\t" ≡ "a b")
unfolding split trim_space
split_run = (refl, refl, refl)

atoi_run :
    (atoi "+8080" ≡ (8_080, true))
    × (atoi "-0" ≡ (0, true))
    × (atoi "80a" ≡ (0, false))
    × (atoi "" ≡ (0, false))
    × (atoi "9223372036854775808" ≡ (9_223_372_036_854_775_807, false))
unfolding atoi
atoi_run = (refl, refl, refl, refl, refl)

split_host_port_run :
    (split_host_port "10.0.0.1:80" ≡ some ("10.0.0.1", "80"))
    × (split_host_port ":80" ≡ some ("", "80"))
    × (split_host_port "[::1]:80" ≡ some ("::1", "80"))
    × (split_host_port "::1:80" ≡ none)
    × (split_host_port "[::1]" ≡ none)
    × (split_host_port "host" ≡ none)
    × (join_host_port "::1" "80" ≡ "[::1]:80")
unfolding split_host_port join_host_port contains split_last split_first
split_host_port_run = (refl, refl, refl, refl, refl, refl, refl)
