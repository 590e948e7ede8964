-- ===== src/Text/Addresses.antt =====
-- The address of a host and a port, as `net.JoinHostPort` writes it and `net.SplitHostPort` reads it.
use Prim.Native.Char.{code}
use Prim.Native.String.{◌++◌}
use text.Mathlib.TextLemmas.{append-nil, append_assoc, nil-append, cons-append}
use self_healing_distributed.Prelude.{
  ℕ, ◌≡◌, refl, ap, subst, sym, ◌∙◌, String, false, none, some, arith, Bool-cases, inl, inr, ◌==◌,
  nat_key, string_key,
}
use self_healing_distributed.Text.{
  contains, colon, open_bracket, close_bracket, split_last, split_first, split_host_port,
  join_host_port, host_port, in_brackets, plain,
}

split_last_absent : (b : ℕ) (s : String) → contains b s ≡ false → split_last b s ≡ none
unfolding contains split_last
split_last_absent b String.[] h = refl
split_last_absent b (String.◌∷◌ c s) h = ground (arith, split_last_absent b s)

-- The last byte of a text is the last one of what it ends with, and the first one of a text is the
-- first one of what follows a text without it.
split_last-append :
    (b : ℕ) (s t u v : String)
    → split_last b t ≡ some (u, v)
    → split_last b (s ++ t) ≡ some (s ++ u, v)
unfolding split_last
split_last-append b String.[] t u v h = rw (nil-append t, nil-append u) h
split_last-append b (String.◌∷◌ c s) t u v h =
    rw (cons-append c s t, cons-append c s u) (rw (split_last-append b s t u v h, split_last) refl)

split_first-append :
    (b : ℕ) (s t u v : String)
    → contains b s ≡ false
    → split_first b t ≡ some (u, v)
    → split_first b (s ++ t) ≡ some (s ++ u, v)
unfolding contains split_first
split_first-append b String.[] t u v h e = rw (nil-append t, nil-append u) e
split_first-append b (String.◌∷◌ c s) t u v h e =
    let head : (code c == b) ≡ false = ground arith in
    rw (cons-append c s t, cons-append c s u)
      (rw (head, split_first) (rw (split_first-append b s t u v (ground arith) e) refl))

-- A host in brackets and one without, before the port.
plain_host :
    (host port : String)
    → contains colon host ≡ false
    → contains open_bracket host ≡ false
    → contains close_bracket host ≡ false
    → contains open_bracket port ≡ false
    → contains close_bracket port ≡ false
    → host_port host port ≡ some (host, port)
unfolding host_port plain contains
plain_host String.[] port h a b c d = rw (c, d) refl
plain_host (String.◌∷◌ x host) port h a b c d =
    let head : (code x == open_bracket) ≡ false = ground arith in
    rw (head, host_port) (rw h (rw a (rw b (rw (c, d) refl))))

-- A text behind a bracket.
bracket : (s : String) → "[" ++ s ≡ String.◌∷◌ "[" s
bracket s = cons-append "[" "" s ∙ ap (String.◌∷◌ "[") (nil-append s)

bracketed_host :
    (host port : String)
    → contains open_bracket host ≡ false
    → contains close_bracket host ≡ false
    → contains open_bracket port ≡ false
    → contains close_bracket port ≡ false
    → host_port (String.◌∷◌ "[" (host ++ "]")) port ≡ some (host, port)
unfolding host_port in_brackets split_first
bracketed_host host port a b c d =
    rw (split_first-append close_bracket host "]" "" "" b refl)
      (rw (append-nil host) (rw a (rw c (rw d refl))))

last_colon :
    (port : String) → contains colon port ≡ false → split_last colon (":" ++ port) ≡ some ("", port)
unfolding split_last
last_colon port h =
    rw (cons-append ":" "" port)
      (rw (nil-append port) (rw (split_last_absent colon port h, split_last) refl))

split_host_port-last :
    (s front port : String)
    → split_last colon s ≡ some (front, port)
    → split_host_port s ≡ host_port front port
unfolding split_host_port
split_host_port-last s front port h = rw (h, split_host_port) refl

-- The address of a host without brackets and a port without brackets and colons is read back.
pub split_host_port-join_host_port :
    (host port : String)
    → contains open_bracket host ≡ false
    → contains close_bracket host ≡ false
    → contains colon port ≡ false
    → contains open_bracket port ≡ false
    → contains close_bracket port ≡ false
    → split_host_port (join_host_port host port) ≡ some (host, port)
unfolding join_host_port
split_host_port-join_host_port host port a b c d e =
    let last = split_last-append colon host (":" ++ port) "" port (last_colon port c) in
    let last' : split_last colon ("]:" ++ port) ≡ some ("]", port) =
      subst (λ t. split_last colon t ≡ some ("]", port)) (sym (append_assoc "]" ":" port))
        (split_last-append colon "]" (":" ++ port) "" port (last_colon port c)) in
    let inner = split_last-append colon host ("]:" ++ port) "]" port last' in
    elim (Bool-cases (contains colon host)) [
      | inl colons ↦ rw colons (
          split_host_port-last ("[" ++ (host ++ ("]:" ++ port))) ("[" ++ (host ++ "]")) port
            (split_last-append colon "[" (host ++ ("]:" ++ port)) (host ++ "]") port inner)
          ∙ ap (λ t. host_port t port) (bracket (host ++ "]"))
          ∙ bracketed_host host port a b d e)
      | inr simple ↦ rw simple (
          split_host_port-last (host ++ (":" ++ port)) (host ++ "") port last
          ∙ rw (append-nil host) (plain_host host port simple a b d e))
    ]
