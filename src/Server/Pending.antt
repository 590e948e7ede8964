-- ===== src/Server/Pending.antt =====
-- The pending replications of internal/server/server.go: how they are recorded, retried and dropped.
use self_healing_distributed.Prelude.{
  ℕ, ◌≡◌, ◌≢◌, refl, subst, ap, String, Option, none, some, [], ◌∷◌, arith, string_key, nat_key,
  ◌==◌, Bool-cases, Option-cases, inl, inr, if◌then◌else◌,
}
use self_healing_distributed.Prelude.Map.{
  Map, lookup, insert, delete, Distinct, insert-Distinct, delete-Distinct, lookup-insert,
  lookup-delete, lookup-insert_cases, some-lookup-delete,
}
use self_healing_distributed.Server.{Pending}
use self_healing_distributed.Server.Replication.{
  replicas_of, pending_since, track, drop_replica, untrack,
}

-- What the smaller map has, the greater one has as well.
abbrev pub Sub : Map String ℕ → Map String ℕ → Type 0
Sub small great = (id : String) (t : ℕ) → lookup id small ≡ some t → lookup id great ≡ some t

-- Each key is there once, with replicas that are there once, and with one at least.
pub record IsTracked (p : Pending) : Type 0 where
  pub distinct : Distinct p
  pub replicas : (key : String) (m : Map String ℕ) → lookup key p ≡ some m → Distinct m × (m ≢ [])

-- Whatever is pending in the second was pending before, since the same time.
abbrev pub Forgets : Pending → Pending → Type 0
Forgets p p' =
    (key id : String) (t : ℕ) → pending_since key id p' ≡ some t → pending_since key id p ≡ some t

pub absent_replicas :
    (key id : String) (p : Pending) → lookup key p ≡ none → pending_since key id p ≡ none
unfolding pending_since replicas_of lookup
absent_replicas key id p h = rw h refl

pub present_replicas :
    (key id : String) (m : Map String ℕ) (p : Pending)
    → lookup key p ≡ some m
    → pending_since key id p ≡ lookup id m
unfolding pending_since replicas_of
present_replicas key id m p h = rw h refl

replicas_of-Distinct :
    (key : String) (p : Pending) → IsTracked p → Distinct (replicas_of (lookup key p))
unfolding replicas_of
replicas_of-Distinct key p h = elim (Option-cases (lookup key p)) [
  | inl q ↦ rw q tt
  | inr (m, q) ↦ rw q (h.replicas key m q).0
]

insert_some : (id : String) (t : ℕ) (m : Map String ℕ) → insert id t m ≢ []
unfolding insert
insert_some id t [] h = ground arith
insert_some id t ((i, u) ∷ m) h = ground arith

pub track-IsTracked :
    (key id : String) (now : ℕ) (p : Pending) → IsTracked p → IsTracked (track key id now p)
unfolding track
track-IsTracked key id now p h =
    let old = replicas_of (lookup key p) in
    record {
      distinct = insert-Distinct key (insert id now old) p h.distinct;
      replicas = λ k m q. elim (lookup-insert_cases key k (insert id now old) m p q) [
        | inl (_, e) ↦
            subst (λ x. Distinct x × (x ≢ [])) e
              (insert-Distinct id now old (replicas_of-Distinct key p h), insert_some id now old)
        | inr (_, e) ↦ h.replicas k m e
      ];
    }

-- A failure is recorded for its key and replica, and for no other.
pub pending_since-track :
    (key id : String) (now : ℕ) (p : Pending) (k i : String)
    → pending_since k i (track key id now p) ≡ (
        if key == k
        then (if id == i then some now else pending_since k i p)
        else pending_since k i p)
unfolding pending_since track replicas_of
pending_since-track key id now p k i = elim (Bool-cases (key == k)) [
  | inl same ↦ ground (
    arith,
    lookup-insert key k (insert id now (replicas_of (lookup key p))) p,
    lookup-insert id i now (replicas_of (lookup key p)),
    string_key.equals_iff key k,
  )
  | inr other ↦ ground (arith, lookup-insert key k (insert id now (replicas_of (lookup key p))) p)
]

drop_replica-IsTracked :
    (key id : String) (o : Option (Map String ℕ)) (p : Pending)
    → lookup key p ≡ o
    → IsTracked p
    → IsTracked (drop_replica key id o p)
unfolding drop_replica
drop_replica-IsTracked key id none p q h = h
drop_replica-IsTracked key id (some m) p q h = go (delete id m) refl
  where
    go :
        (left : Map String ℕ)
        → delete id m ≡ left
        → IsTracked (elim left [ [] ↦ delete key p | e ∷ rest ↦ insert key (e ∷ rest) p ])
    go [] e = record {
      distinct = delete-Distinct key p h.distinct;
      replicas = λ k m' r. h.replicas k m' (some-lookup-delete key k m' p r).1;
    }
    go (x ∷ rest) e = record {
      distinct = insert-Distinct key (x ∷ rest) p h.distinct;
      replicas = λ k m' r. elim (lookup-insert_cases key k (x ∷ rest) m' p r) [
        | inl (_, same) ↦
            subst (λ y. Distinct y × (y ≢ [])) same
              (subst Distinct e (delete-Distinct id m (h.replicas key m q).0), λ z. ground arith)
        | inr (_, old) ↦ h.replicas k m' old
      ];
    }

pub untrack-IsTracked : (key id : String) (p : Pending) → IsTracked p → IsTracked (untrack key id p)
unfolding untrack
untrack-IsTracked key id p h = drop_replica-IsTracked key id (lookup key p) p refl h

lookup_empty : (i : String) → ◌≡◌ {A = Option ℕ} (lookup i []) none
unfolding lookup
lookup_empty i = refl

drop_replica-since :
    (key id : String) (o : Option (Map String ℕ)) (p : Pending) (k i : String)
    → lookup key p ≡ o
    → pending_since k i (drop_replica key id o p)
      ≡ (if key == k then (if id == i then none else pending_since k i p) else pending_since k i p)
unfolding drop_replica pending_since replicas_of
drop_replica-since key id none p k i q =
    let empty : lookup i [] ≡ none = lookup_empty i in ground (arith, string_key.equals_iff key k)
drop_replica-since key id (some m) p k i q = go (delete id m) refl
  where
    go :
        (left : Map String ℕ)
        → delete id m ≡ left
        → pending_since k i (elim left [ [] ↦ delete key p | e ∷ rest ↦ insert key (e ∷ rest) p ])
          ≡ (if key == k
              then (if id == i then none else pending_since k i p)
              else pending_since k i p)
    go [] e = ground (
      arith,
      lookup-delete key k p,
      lookup-delete id i m,
      string_key.equals_iff key k,
      ap (lookup i) e,
    )
    go (x ∷ rest) e = ground (
      arith,
      lookup-insert key k (x ∷ rest) p,
      lookup-delete id i m,
      string_key.equals_iff key k,
      ap (lookup i) e,
    )

-- What is dropped is the one replica of the one key.
pub pending_since-untrack :
    (key id : String) (p : Pending) (k i : String)
    → pending_since k i (untrack key id p)
      ≡ (if key == k then (if id == i then none else pending_since k i p) else pending_since k i p)
unfolding untrack
pending_since-untrack key id p k i = drop_replica-since key id (lookup key p) p k i refl

pub untrack-Forgets : (key id : String) (p : Pending) → Forgets p (untrack key id p)
untrack-Forgets key id p k i t h = ground (arith, pending_since-untrack key id p k i)
