-- ===== src/Server/Race.antt =====
-- Quorum writes of one key that run at the same time at its primary, as internal/server/server.go
-- serves them. `handleQuorumSet` reads the version of the key and stores the next one under two
-- different holds of the store's lock, so that other writes can come in between; what follows, the
-- messages to the replicas, does not touch the store. Each writer goes through its two steps in any
-- interleaving with the others.
mod Tests
use self_healing_distributed.Prelude.{
  ℕ, ◌+◌, ◌≡◌, ◌≢◌, refl, sym, ap, subst, ◌∙◌, String, Bool, true, false, ◌&&◌, ◌==◌, ◌⊎◌, nat_key,
  string_key, arith, if◌then◌else◌, Bool-cases, inl, inr,
}
use self_healing_distributed.Prelude.Int64.{add64}
use self_healing_distributed.Prelude.Map.{lookup}
use self_healing_distributed.Store.{Store, get_with_version, set_version, has_version}
use self_healing_distributed.Store.Invariant.{IsValid, size_of}
use self_healing_distributed.Store.Written.{Fits}
use self_healing_distributed.Store.Versions.{
  set_version-Fits, set_version-IsValid, set_version-later, accepted-version, set_version-has,
}
use self_healing_distributed.Http.{Env}
use self_healing_distributed.Placement.{Placement}
use self_healing_distributed.Server.{Server}
use self_healing_distributed.Server.Quorum.{QuorumSetRequest, version_of}
use self_healing_distributed.Server.Quorum.Handlers.{quorum_write}

-- What a writer writes.
pub record Write : Type 0 where
  pub value : String
  pub expires_at : ℕ

-- A writer has not begun, has chosen its version, or has stored it, with what `SetVersion` said.
pub data Phase : Type 0 where
  idle : Phase
  chosen : ℕ → Phase
  stored : ℕ → Bool → Phase

pub record Race : Type 0 where
  pub store : Store
  pub phase : ℕ → Phase

unfoldable pub update : (ℕ → Phase) → ℕ → Phase → ℕ → Phase
update f i p j = if i == j then p else f j

-- the first step, which reads the version of the key
unfoldable pub next_version_of : String → ℕ → Store → ℕ
unfolding version_of
next_version_of key now s = add64 (version_of (get_with_version key now s)) 1

abbrev phase_version : Phase → ℕ
phase_version idle = 0
phase_version (chosen v) = v
phase_version (stored v b) = v

abbrev phase_flag : Phase → Bool
phase_flag idle = false
phase_flag (chosen v) = false
phase_flag (stored v b) = b

update-cases :
    (f : ℕ → Phase) (i : ℕ) (p : Phase) (j : ℕ) (q : Phase)
    → update f i p j ≡ q
    → ((i ≡ j) × (p ≡ q)) ⊎ (f j ≡ q)
unfolding update
update-cases f i p j q h = elim (Bool-cases (i == j)) [
  | inl same ↦ inl ((nat_key.equals_iff i j).0 same, subst (λ b. (if b then p else f j) ≡ q) same h)
  | inr other ↦ inr (subst (λ b. (if b then p else f j) ≡ q) other h)
]

module _ (key : String) (writes : ℕ → Write) where
  unfoldable pub choose : ℕ → ℕ → Race → Race
  unfolding next_version_of update
  choose i now r = record r { phase = update r.phase i (chosen (next_version_of key now r.store)) }

  -- the second step, which stores it
  unfoldable pub put : ℕ → ℕ → Race → Race
  unfolding update
  put i version r =
      let w = writes i in
      let (accepted, s) = set_version key w.value w.expires_at version r.store in
      record { store = s; phase = update r.phase i (stored version accepted) }

  pub data Step (r : Race) : Race → Type 0 where
    choose_step : (i now : ℕ) → r.phase i ≡ idle → Step r (choose i now r)
    put_step : (i version : ℕ) → r.phase i ≡ chosen version → Step r (put i version r)

  pub data Reach (r : Race) : Race → Type 0 where
    start : Reach r r
    later : {t u : Race} → Reach r t → Step t u → Reach r u

  -- What holds of the writers that have stored, whatever the others do.
  record IsOrdered (r : Race) : Type 0 where
    valid : IsValid r.store
    fits : (i : ℕ) → Fits r.store (size_of key (writes i).value)
    held :
        (i v : ℕ) (b : Bool)
        → r.phase i ≡ stored v b
        → has_version (lookup key r.store.entries) v ≡ true
    unique : (i j v : ℕ) → r.phase i ≡ stored v true → r.phase j ≡ stored v true → i ≡ j

  choose-IsOrdered : (i now : ℕ) (r : Race) → IsOrdered r → IsOrdered (choose i now r)
  unfolding choose
  choose-IsOrdered i now r h =
      let c = chosen (next_version_of key now r.store) in
      let old : (j v : ℕ) (b : Bool) → update r.phase i c j ≡ stored v b → r.phase j ≡ stored v b =
        λ j v b e. elim (update-cases r.phase i c j (stored v b) e) [
          | inl (_, p) ↦ absurd (ground arith)
          | inr p ↦ p
        ] in
      record {
        valid = h.valid;
        fits = h.fits;
        held = λ j v b e. h.held j v b (old j v b e);
        unique = λ j k v e e'. h.unique j k v (old j v true e) (old k v true e');
      }

  put-IsOrdered : (i version : ℕ) (r : Race) → IsOrdered r → IsOrdered (put i version r)
  unfolding put
  put-IsOrdered i version r h =
      let value = (writes i).value in
      let at = (writes i).expires_at in
      let b' = (set_version key value at version r.store).0 in
      let apart : (j v : ℕ) → stored version b' ≡ stored v true → r.phase j ≡ stored v true → ⊥ =
        λ j v p q.
          accepted-version key value at version r.store v (h.held j v true q) (ap phase_flag p)
            (sym (ap phase_version p)) in
      let cases =
        λ (j v : ℕ) (b : Bool). update-cases r.phase i (stored version b') j (stored v b) in
      record {
        valid = set_version-IsValid key value at version r.store h.valid;
        fits = λ j. set_version-Fits key value at version r.store _ (h.fits j);
        held = λ j v b e. elim (cases j v b e) [
          | inl (_, p) ↦
              subst (λ n. has_version (lookup key (put i version r).store.entries) n ≡ true)
                (ap phase_version p)
                (set_version-has key value at version r.store h.valid (h.fits i))
          | inr p ↦
              set_version-later key value at version r.store v h.valid (h.fits i) (h.held j v b p)
        ];
        unique = λ j k v e e'. elim (cases j v true e) [
          | inl (p, q) ↦ elim (cases k v true e') [
            | inl (p', _) ↦ sym p ∙ p'
            | inr q' ↦ absurd (apart k v q q')
          ]
          | inr q ↦ elim (cases k v true e') [
            | inl (p', q') ↦ absurd (apart j v q' q)
            | inr q' ↦ h.unique j k v q q'
          ]
        ];
      }

  Step-IsOrdered : (r t : Race) → Step r t → IsOrdered r → IsOrdered t
  Step-IsOrdered r t (choose_step i now p) h = choose-IsOrdered i now r h
  Step-IsOrdered r t (put_step i version p) h = put-IsOrdered i version r h

  Reach-IsOrdered : (r t : Race) → IsOrdered r → Reach r t → IsOrdered t
  Reach-IsOrdered r t h start = h
  Reach-IsOrdered r t h (later {t = m} reach step) =
      Step-IsOrdered m t step (Reach-IsOrdered r m h reach)

  abbrev pub before : Store → Race
  before s = record { store = s; phase = λ i. idle }

  before-IsOrdered :
      (s : Store)
      → IsValid s
      → ((i : ℕ) → Fits s (size_of key (writes i).value))
      → IsOrdered (before s)
  before-IsOrdered s v f = record {
    valid = v;
    fits = f;
    held = λ i n b e. absurd (ground arith);
    unique = λ i j n e e'. absurd (ground arith);
  }

  both_accepted :
      (r : Race)
      → IsOrdered r
      → (i j v : ℕ) (b b' : Bool) → r.phase i ≡ stored v b
      → r.phase j ≡ stored v b'
      → i ≢ j
      → (b && b') ≡ false
  both_accepted r h i j v true true p q ne = absurd (ne (h.unique i j v p q))
  both_accepted r h i j v true false p q ne = refl
  both_accepted r h i j v false b' p q ne = refl

  -- However the quorum writes of a key interleave at its primary, whose store is well formed and has
  -- room for each of them: of two that have stored the same version, `SetVersion` has refused one,
  -- and the key has that version or a later one.
  pub Reach-refused :
      (s : Store)
      → IsValid s
      → ((i : ℕ) → Fits s (size_of key (writes i).value))
      → (r : Race) → Reach (before s) r
      → (i j v : ℕ) (b b' : Bool) → r.phase i ≡ stored v b
      → r.phase j ≡ stored v b'
      → i ≢ j
      → ((b && b') ≡ false) × (has_version (lookup key r.store.entries) v ≡ true)
  Reach-refused s valid fits r reach i j v b b' p q ne =
      let h = Reach-IsOrdered (before s) r (before-IsOrdered s valid fits) reach in
      (both_accepted r h i j v b b' p q ne, h.held i v b p)

-- What `handleQuorumSet` does to the store is the two steps of a writer that nobody disturbs.
module _ {W : Type 0} (env : Env W) (place : Placement) where
  pub quorum_write-steps :
      (req : QuorumSetRequest) (s : Server) (w : W)
      → (expires_at : ℕ) × ((quorum_write env place req s w).1.store
          ≡ (put req.key
              (λ i. record { value = req.value; expires_at = expires_at })
              0
              (next_version_of req.key (env.now (env.now w).1).0 s.store)
              (before req.key
                (λ i. record { value = req.value; expires_at = expires_at })
                s.store)).store)
  unfolding quorum_write put next_version_of
  quorum_write-steps req s w = (_, refl)
