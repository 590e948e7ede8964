-- ===== src/Store/Versions.antt =====
-- The versions of a key under `SetVersion` of internal/store/store.go, one write after the other.
use self_healing_distributed.Prelude.{
  ℕ, ◌≡◌, ◌≢◌, refl, sym, ap, subst, ◌∙◌, String, true, false, Option, none, some, arith,
  string_key, Bool-cases, inl, inr,
}
use self_healing_distributed.Prelude.Int64.{sle}
use self_healing_distributed.Prelude.Map.{lookup}
use self_healing_distributed.Store.{
  Store, Entry, has_version, set_version, put_entry, evict_if_needed,
}
use self_healing_distributed.Store.Invariant.{IsValid, size_of, new_entry}
use self_healing_distributed.Store.History.{apply, apply-IsValid, write_version}
use self_healing_distributed.Store.Eviction.{evict_if_needed_induction, evict_if_needed-unlisted}
use self_healing_distributed.Store.Capacity.{evict_back_fields}
use self_healing_distributed.Store.Lookups.{set_version-stale}
use self_healing_distributed.Store.Written.{Fits, put_cap, put-unlisted, written, set_version-get}

evicted_cap : (s : Store) → (evict_if_needed s).mem_cap ≡ s.mem_cap
evicted_cap s =
    evict_if_needed_induction (λ t. t.mem_cap ≡ s.mem_cap)
      (λ t id key h _ q. (evict_back_fields id key t).1 ∙ h) s refl

-- What is newer than an entry is newer than the versions that the entry has.
later_version :
    (o : Option Entry) (old version : ℕ)
    → has_version o old ≡ true
    → has_version o version ≡ false
    → sle old version ≡ true
unfolding has_version
later_version none old version h k = absurd (ground arith)
later_version (some item) old version h k = ground arith

module _ (key value : String) (expires_at version : ℕ) (s : Store) where
  abbrev next : Store
  next = (set_version key value expires_at version s).1

  set_version-newer :
      has_version (lookup key s.entries) version ≡ false
      → set_version key value expires_at version s
        ≡ (true, evict_if_needed (put_entry key value expires_at version s))
  unfolding set_version
  set_version-newer newer = rw newer refl

  fields :
      (P : Store → Type 0)
      → P s
      → P (evict_if_needed (put_entry key value expires_at version s))
      → P next
  fields P a b = elim (Bool-cases (has_version (lookup key s.entries) version)) [
    | inl stale ↦
        subst (λ x. P x.1) (sym (set_version-stale key value expires_at version s stale)) a
    | inr newer ↦ subst (λ x. P x.1) (sym (set_version-newer newer)) b
  ]

  -- A write leaves the room that there is for an entry.
  pub set_version-Fits : (n : ℕ) → Fits s n → Fits next n
  set_version-Fits n f = fields (λ t. Fits t n) f (kept f)
    where
      cap : (evict_if_needed (put_entry key value expires_at version s)).mem_cap ≡ s.mem_cap
      cap =
          evicted_cap (put_entry key value expires_at version s)
          ∙ put_cap key value expires_at version s

      kept : Fits s n → Fits (evict_if_needed (put_entry key value expires_at version s)) n
      kept (inl p) =
          let q = put-unlisted key value expires_at version s p in
          inl (subst (λ t. t.lru_list ≡ none) (sym (evict_if_needed-unlisted _ q)) q)
      kept (inr (inl off)) = inr (inl (subst (λ c. sle c 0 ≡ true) (sym cap) off))
      kept (inr (inr (a, b))) = inr (inr (rw cap a, rw cap b))

  pub set_version-IsValid : IsValid s → IsValid next
  unfolding apply
  set_version-IsValid v = apply-IsValid (write_version key value expires_at version) s v

  -- A version that the key had, or a later one, it has after the write.
  pub set_version-later :
      (old : ℕ)
      → IsValid s
      → Fits s (size_of key value)
      → has_version (lookup key s.entries) old ≡ true
      → has_version (lookup key next.entries) old ≡ true
  set_version-later old v f h = elim (Bool-cases (has_version (lookup key s.entries) version)) [
    | inl stale ↦
        subst (λ x. has_version (lookup key x.1.entries) old ≡ true)
          (sym (set_version-stale key value expires_at version s stale)) h
    | inr newer ↦
        subst (λ x. has_version (lookup key x.1.entries) old ≡ true) (sym (set_version-newer newer))
          (rw (written key value expires_at version s v f) (
            unfold has_version new_entry in
            later_version (lookup key s.entries) old version h newer))
  ]

  -- A write that is accepted has another version than those that the key had.
  pub accepted-version :
      (old : ℕ)
      → has_version (lookup key s.entries) old ≡ true
      → (set_version key value expires_at version s).0 ≡ true
      → old ≢ version
  accepted-version old h accepted e =
      let stale : has_version (lookup key s.entries) version ≡ true =
        subst (λ n. has_version (lookup key s.entries) n ≡ true) e h in
      ground
        (arith, ap (λ x. x.0) (set_version-stale key value expires_at version s stale), accepted)

  -- After a write the key has its version or a later one, whether it was accepted or not.
  pub set_version-has :
      IsValid s → Fits s (size_of key value) → has_version (lookup key next.entries) version ≡ true
  set_version-has v f = (set_version-get key value expires_at version 0 s v f).0
