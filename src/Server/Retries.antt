-- ===== src/Server/Retries.antt =====
-- internal/server/server.go: what a replication and a tick of the retry loop do to the pending
-- replications.
use self_healing_distributed.Prelude.{
  ℕ, ◌≡◌, ◌≢◌, refl, sym, subst, ◌∙◌, String, false, none, some, [], ◌∷◌, arith, string_key,
  nat_key, ◌==◌, Bool-cases, Option-cases, inl, inr,
}
use self_healing_distributed.Prelude.Int64.{sle}
use self_healing_distributed.Prelude.Map.{
  Map, lookup, Distinct, lookup-cons_cases, lookup-cons_ne, lookup-cons_self,
}
use self_healing_distributed.Http.{Env}
use self_healing_distributed.Server.{Server, Pending}
use self_healing_distributed.Server.Replication.{
  pending_since, since, scan_replicas, is_drained, scan_pending,
}
use self_healing_distributed.Server.Pending.{
  Sub, IsTracked, Forgets, absent_replicas, present_replicas,
}

Sub-none :
    (small great : Map String ℕ) (id : String)
    → Sub small great
    → lookup id great ≡ none
    → lookup id small ≡ none
Sub-none small great id h p = elim (Option-cases (lookup id small)) [
  | inl q ↦ q
  | inr (t, q) ↦ absurd (ground (arith, h id t q))
]

Sub-keep :
    (id : String) (t : ℕ) (small great : Map String ℕ)
    → Sub small great
    → Sub ((id, t) ∷ small) ((id, t) ∷ great)
unfolding lookup
Sub-keep id t small great h i u p = elim (Bool-cases (id == i)) [
  | inl same ↦ ground arith
  | inr other ↦ ground (arith, h i u)
]

Sub-skip :
    (id : String) (t : ℕ) (small great : Map String ℕ)
    → lookup id great ≡ none
    → Sub small great
    → Sub small ((id, t) ∷ great)
unfolding lookup
Sub-skip id t small great p h i u q = ground (arith, h i u q, string_key.equals_iff id i)

module _ {W : Type 0} (env : Env W) (s : Server) where
  scan_replicas-Sub :
      (key : String) (m : Map String ℕ) (w : W)
      → Distinct m
      → let kept = (scan_replicas env key m s w).0 in Sub kept m × Distinct kept
  unfolding scan_replicas
  scan_replicas-Sub key [] w d = (λ i t p. p, tt)
  scan_replicas-Sub key ((id, first) ∷ m) w d =
      let age = since first (env.now w).0 in
      let rest = scan_replicas env key m s (env.now w).1 in
      let (sub, d') = scan_replicas-Sub key m (env.now w).1 d.1 in
      let kept : Sub ((id, first) ∷ rest.0) ((id, first) ∷ m) × Distinct ((id, first) ∷ rest.0) =
        (Sub-keep id first rest.0 m sub, (Sub-none rest.0 m id sub d.0, d')) in
      elim (Bool-cases (sle s.max_pending_age age)) [
        | inl old ↦ rw (old, scan_replicas) (Sub-skip id first rest.0 m d.0 sub, d')
        | inr young ↦
            rw (young, scan_replicas)
              (elim (Bool-cases (sle s.retry_interval age)) [
                | inl due ↦ rw due kept
                | inr early ↦ rw early kept
              ])
      ]

  is_drained-kept : (m kept : Map String ℕ) → m ≢ [] → is_drained m kept ≡ false → kept ≢ []
  unfolding is_drained
  is_drained-kept [] kept h p = absurd (h refl)
  is_drained-kept (e ∷ m) [] h p = absurd (ground arith)
  is_drained-kept (e ∷ m) (f ∷ kept) h p = λ q. ground arith

  -- What the scan keeps of a key, it keeps of the replicas of that key.
  abbrev Shrinks : Pending → Pending → Type 0
  Shrinks p p' =
      (key : String) (m' : Map String ℕ)
      → lookup key p' ≡ some m'
      → (m : Map String ℕ) × (lookup key p ≡ some m) × Sub m' m × Distinct m' × (m' ≢ [])

  scan_pending-Shrinks :
      (p : Pending) (w : W)
      → IsTracked p
      → let p' = (scan_pending env p s w).0 in Shrinks p p' × Distinct p'
  unfolding scan_pending
  scan_pending-Shrinks [] w h = (λ key m' q. absurd (unfold lookup in ground arith), tt)
  scan_pending-Shrinks ((key, m) ∷ p) w h =
      let scan = scan_replicas env key m s w in
      let own = h.replicas key m (lookup-cons_self key m p) in
      let (sub, d) = scan_replicas-Sub key m w own.0 in
      let tail : IsTracked p = record {
        distinct = h.distinct.1;
        replicas = λ k n q. h.replicas k n (below k n q);
      } in
      let (rest, d') = scan_pending-Shrinks p scan.2 tail in
      let p' = (scan_pending env p s scan.2).0 in
      let lifted : Shrinks ((key, m) ∷ p) p' =
        λ k n q. let (old, e, x, y, z) = rest k n q in (old, below k old e, x, y, z) in
      let fresh : lookup key p' ≡ none = no_key p' rest in
      elim (Bool-cases (is_drained m scan.0)) [
        | inl gone ↦ rw (gone, scan_pending) (lifted, d')
        | inr left ↦
            rw (left, scan_pending)
              (
                (λ k n q. elim (lookup-cons_cases key k scan.0 n p' q) [
                  | inl (e, e') ↦ (
                    m,
                    subst (λ z. lookup z ((key, m) ∷ p) ≡ some m) e (lookup-cons_self key m p),
                    subst (λ z. Sub z m) e' sub,
                    subst Distinct e' d,
                    subst (λ z. z ≢ []) e' (is_drained-kept m scan.0 own.1 left),
                  )
                  | inr (_, e) ↦ lifted k n e
                ]),
                (fresh, d'),
              )
      ]
    where
      below :
          (k : String) (n : Map String ℕ) → lookup k p ≡ some n → lookup k ((key, m) ∷ p) ≡ some n
      below k n q = lookup-cons_ne key k m p (λ e. absurd (ground (arith, h.distinct.0))) ∙ q

      no_key : (p' : Pending) → Shrinks p p' → lookup key p' ≡ none
      no_key p' f = elim (Option-cases (lookup key p')) [
        | inl q ↦ q
        | inr (n, q) ↦ absurd (ground (arith, h.distinct.0, (f key n q).1))
      ]

  pub scan_pending-IsTracked :
      (p : Pending) (w : W)
      → IsTracked p
      → let p' = (scan_pending env p s w).0 in IsTracked p' × Forgets p p'
  scan_pending-IsTracked p w h =
      let (f, d) = scan_pending-Shrinks p w h in
      (
        record {
          distinct = d;
          replicas = λ k n q. let (m, _, _, d', some_left) = f k n q in (d', some_left);
        },
        λ k i t q. since_before k i t q f,
      )
    where
      since_before :
          (k i : String) (t : ℕ)
          → pending_since k i (scan_pending env p s w).0 ≡ some t
          → Shrinks p (scan_pending env p s w).0
          → pending_since k i p ≡ some t
      since_before k i t q f =
          let p' = (scan_pending env p s w).0 in
          elim (Option-cases (lookup k p')) [
            | inl r ↦ absurd (ground (arith, absent_replicas k i p' r))
            | inr (m', r) ↦
                let (m, e, sub, _, _) = f k m' r in
                present_replicas k i m p e ∙ sub i t (sym (present_replicas k i m' p' r) ∙ q)
          ]
