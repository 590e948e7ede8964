-- ===== src/Store/Written.antt =====
-- What can be read from the store of internal/store/store.go after a write of the same key.
use self_healing_distributed.Prelude.{
  ℕ, ◌≤◌, ◌<◌, ◌≡◌, ◌⊎◌, refl, sym, subst, String, true, false, Option, none, some, ◌∷◌, arith,
  string_key, nat_key, Bool-cases, Option-cases, inl, inr, if◌then◌else◌,
}
use self_healing_distributed.Prelude.Int64.{two63, sle}
use self_healing_distributed.Prelude.Map.{lookup, delete}
use self_healing_distributed.Time.{is_expired}
use self_healing_distributed.Store.{
  Entry, Elements, Store, detach, push_front, put_detached, put_entry, remove_element,
  evict_if_needed, set_with_expiry, set, set_version, has_version, next_version, expiry_of_ttl,
  get_with_version, live_item,
}
use self_healing_distributed.Store.Access.{get, get_read, read_item, result_of}
use self_healing_distributed.Store.Eviction.{evict_if_needed-off, evict_if_needed-unlisted}
use self_healing_distributed.Store.Invariant.{IsValid, new_entry, size_of, put_entry-IsValid}
use self_healing_distributed.Store.Lookups.{put_entry-lookup}
use self_healing_distributed.Store.Recency.{evict_if_needed-front}

-- An entry of this size is not evicted by its own write: there is no list, no cap, or room for
-- the entry alone.
abbrev pub Fits : Store → ℕ → Type 0
Fits s size =
    (s.lru_list ≡ none) ⊎ ((sle s.mem_cap 0 ≡ true) ⊎ ((size ≤ s.mem_cap) × (s.mem_cap < two63)))

detach-list :
    (o : Option Entry) (s : Store) (l : Elements)
    → s.lru_list ≡ some l
    → (l' : Elements) × ((detach o s).lru_list ≡ some l')
unfolding detach remove_element
detach-list none s l p = (l, p)
detach-list (some item) s l p = go item.lru_element
  where
    go : (o : Option ℕ) → (l' : Elements) × (remove_element o s.lru_list ≡ some l')
    go none = (l, p)
    go (some id) = (delete id l, rw p)

detach-unlisted : (o : Option Entry) (s : Store) → s.lru_list ≡ none → (detach o s).lru_list ≡ none
unfolding detach remove_element
detach-unlisted none s p = p
detach-unlisted (some item) s p = ground arith

detach_cap : (o : Option Entry) (s : Store) → (detach o s).mem_cap ≡ s.mem_cap
unfolding detach
detach_cap none s = refl
detach_cap (some item) s = refl

module _ (key value : String) (expires_at version : ℕ) (s : Store) where
  -- The entry that a write of the key stores.
  abbrev stored : Entry
  stored = new_entry key value expires_at version (detach (lookup key s.entries) s)

  abbrev after : Store
  after = put_entry key value expires_at version s

  pub put_cap : (put_entry key value expires_at version s).mem_cap ≡ s.mem_cap
  unfolding put_entry put_detached
  put_cap = detach_cap (lookup key s.entries) s

  pub put-unlisted : s.lru_list ≡ none → (put_entry key value expires_at version s).lru_list ≡ none
  unfolding put_entry put_detached push_front
  put-unlisted p = ground (arith, detach-unlisted (lookup key s.entries) s p)

  pub put-front :
      (l : Elements)
      → s.lru_list ≡ some l
      → (id : ℕ) × (rest : Elements) × ((put_entry key value expires_at version s).lru_list
          ≡ some ((id, key) ∷ rest))
  unfolding put_entry put_detached push_front
  put-front l p =
      let (l', q) = detach-list (lookup key s.entries) s l p in
      ((detach (lookup key s.entries) s).next_element, l', rw q)

  put_self : lookup key (put_entry key value expires_at version s).entries ≡ some stored
  put_self =
      ground
        (arith, put_entry-lookup key value expires_at version s key, string_key.equals_iff key key)

  -- A written entry that fits is there after the write.
  pub written :
      IsValid s
      → Fits s (size_of key value)
      → lookup key (evict_if_needed (put_entry key value expires_at version s)).entries
        ≡ some stored
  written v (inl p) = rw (evict_if_needed-unlisted after (put-unlisted p)) put_self
  written v (inr (inl off)) =
      rw (evict_if_needed-off after (subst (λ c. sle c 0 ≡ true) (sym put_cap) off)) put_self
  written v (inr (inr (fits, positive))) = elim (Option-cases s.lru_list) [
    | inl p ↦ rw (evict_if_needed-unlisted after (put-unlisted p)) put_self
    | inr (l, p) ↦
        let (id, rest, q) = put-front l p in
        evict_if_needed-front (put_entry key value expires_at version s) rest id key stored
          (put_entry-IsValid key value expires_at version s v) q put_self
          (unfold new_entry in rw put_cap fits) (rw put_cap positive)
  ]

-- On a well-formed store that the entry fits into, a read of the key right after `SetWithExpiry`
-- has the value, the next version and the expiry, and nothing once the expiry has passed.
pub set_with_expiry-get :
    (key value : String) (expires_at now : ℕ) (s : Store)
    → IsValid s
    → Fits s (size_of key value)
    → get_with_version key now (set_with_expiry key value expires_at s) ≡ (
        if is_expired expires_at now
        then none
        else some (value, next_version (lookup key s.entries), expires_at))
unfolding get_with_version live_item set_with_expiry new_entry
set_with_expiry-get key value expires_at now s v fits =
    rw (written key value expires_at (next_version (lookup key s.entries)) s v fits)

-- On a well-formed store that the entry fits into, `Get` after `Set` finds the value, until the
-- time to live has passed since the clock reading of the write; without a time to live, at any
-- time.
pub set-get :
    (key value : String) (ttl written_at now now' : ℕ) (s : Store)
    → IsValid s
    → Fits s (size_of key value)
    → (get key now now' (set key value ttl written_at s)).0
      ≡ (if is_expired (expiry_of_ttl ttl written_at) now then none else some value)
unfolding get get_read read_item set new_entry result_of
set-get key value ttl written_at now now' s v fits =
    rw
      (written key value (expiry_of_ttl ttl written_at) (next_version (lookup key s.entries)) s v
        fits)
      (ground arith)

-- On a well-formed store that the entry fits into, after `SetVersion` the key holds the given
-- version or a later one. Where the store had such a version before, nothing has changed and the
-- call says false; otherwise a read has the given value, version and expiry, and nothing once the
-- expiry has passed, and the call says true.
pub set_version-get :
    (key value : String) (expires_at version now : ℕ) (s : Store)
    → IsValid s
    → Fits s (size_of key value)
    → let (stored?, s') = set_version key value expires_at version s in
      (has_version (lookup key s'.entries) version ≡ true)
      × (if has_version (lookup key s.entries) version
          then (stored? ≡ false) × (s' ≡ s)
          else (stored? ≡ true)
            × (get_with_version key now s'
                ≡ (if is_expired expires_at now then none else some (value, version, expires_at))))
unfolding set_version
set_version-get key value expires_at version now s v fits =
    elim (Bool-cases (has_version (lookup key s.entries) version)) [
      | inl stale ↦ rw stale (stale, (refl, refl))
      | inr newer ↦
          let w = written key value expires_at version s v fits in
          rw newer (
            rw w (unfold has_version new_entry in ground arith),
            (refl, (unfold get_with_version live_item new_entry in rw w)),
          )
    ]
