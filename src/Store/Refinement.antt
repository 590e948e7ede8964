-- ===== src/Store/Refinement.antt =====
-- The store of internal/store/store.go refines the map of Store/Spec.antt, where it has no list.
use self_healing_distributed.Prelude.{
  ℕ, ◌≡◌, refl, sym, ap, ◌∙◌, String, Option, none, some, List, [], ◌∷◌, arith, string_key,
  Bool-cases, inl, inr, if◌then◌else◌,
}
use self_healing_distributed.Prelude.Map.{lookup}
use self_healing_distributed.Store.{
  Entry, Store, put_entry, evict_if_needed, set_with_expiry, set, set_version, has_version,
  next_version, expiry_of_ttl, touch_lru, delete_locked,
}
use self_healing_distributed.Store.Access.{
  missing, expired, found, get_finish, still_expired, remove, sweep, close,
}
use self_healing_distributed.Store.Eviction.{evict_if_needed-unlisted}
use self_healing_distributed.Store.History.{
  Operation, write, write_with_expiry, write_version, finish, touch, erase, tick, stop, apply, run,
  apply-IsValid,
}
use self_healing_distributed.Store.Invariant.{IsValid, new_entry}
use self_healing_distributed.Store.Lookups.{
  delete_locked-lookup, put_entry-lookup, get_finish-lookup, touch_lru-entries, sweep-lookup, live,
}
use self_healing_distributed.Store.Quiet.{
  IsUnlisted, delete_locked-IsQuiet, sweep-IsQuiet, get_finish-IsQuiet, touch_item-IsQuiet,
  put_entry-IsQuiet,
}
use self_healing_distributed.Store.Spec.{
  Spec, forget, view, next, has, unexpired, assign, put, meaning, meanings,
}

Spec-path : {p q : Spec} → p.closed ≡ q.closed → ((k : String) → p.items k ≡ q.items k) → p ≡ q
Spec-path c h = λ i. record { closed = c i; items = λ k. h k i }

next-forget : (o : Option Entry) → next (forget o) ≡ next_version o
unfolding next forget next_version
next-forget none = refl
next-forget (some item) = refl

has-forget : (o : Option Entry) (version : ℕ) → has (forget o) version ≡ has_version o version
unfolding has forget has_version
has-forget none version = refl
has-forget (some item) version = refl

forget-live : (now : ℕ) (o : Option Entry) → forget (live now o) ≡ unexpired now (forget o)
unfolding forget unexpired
forget-live now none = refl
forget-live now (some item) = ground arith

expired_forget :
    (now : ℕ) (o : Option Entry)
    → forget (if still_expired o now then none else o) ≡ unexpired now (forget o)
unfolding forget unexpired still_expired
expired_forget now none = refl
expired_forget now (some item) = ground arith

module _ (key value : String) (expires_at version : ℕ) (s : Store) (u : IsUnlisted s) where
  put_alone :
      evict_if_needed (put_entry key value expires_at version s)
      ≡ put_entry key value expires_at version s
  put_alone =
      evict_if_needed-unlisted (put_entry key value expires_at version s)
        ((put_entry-IsQuiet key value expires_at version s).unlisted u)

  view-put :
      view (evict_if_needed (put_entry key value expires_at version s))
      ≡ put key value expires_at version (view s)
  view-put = rw put_alone (
      unfold view put in
      Spec-path (put_entry-IsQuiet key value expires_at version s).closed (λ k.
        unfold new_entry forget in
        ground (arith, put_entry-lookup key value expires_at version s k)))

  write-IsUnlisted : IsUnlisted (evict_if_needed (put_entry key value expires_at version s))
  write-IsUnlisted = rw put_alone ((put_entry-IsQuiet key value expires_at version s).unlisted u)

view-erase : (key : String) (s : Store) → view (delete_locked key s) ≡ assign key none (view s)
unfolding view assign forget
view-erase key s =
    Spec-path (delete_locked-IsQuiet key s).closed
      (λ k. ground (arith, delete_locked-lookup key s k))

view-finish :
    (key : String) (now : ℕ) (s : Store)
    → view (get_finish key expired now s) ≡ assign key (unexpired now ((view s).items key)) (view s)
unfolding view assign
view-finish key now s = Spec-path (get_finish-IsQuiet key expired now s).closed (λ k. ground (
  arith,
  get_finish-lookup key expired now s k,
  expired_forget now (lookup key s.entries),
  string_key.equals_iff key k,
))

view-sweep : (now : ℕ) (s : Store) → IsValid s → view (sweep now s) ≡ meaning (tick now) (view s)
unfolding view meaning
view-sweep now s v =
    Spec-path (ground (arith, (sweep-IsQuiet now s).closed))
      (λ k. ground (arith, sweep-lookup now s k v.distinct, forget-live now (lookup k s.entries)))

view-same :
    (s t : Store)
    → t.closed ≡ s.closed
    → ((k : String) → lookup k t.entries ≡ lookup k s.entries)
    → view t ≡ view s
unfolding view
view-same s t c h = Spec-path c (λ k. ap forget (h k))

view-write :
    (key value : String) (expires_at : ℕ) (s : Store)
    → IsUnlisted s
    → let s' =
        evict_if_needed (put_entry key value expires_at (next_version (lookup key s.entries)) s) in
      (view s' ≡ put key value expires_at (next ((view s).items key)) (view s)) × IsUnlisted s'
view-write key value expires_at s u =
    let n = next_version (lookup key s.entries) in
    (
      view-put key value expires_at n s u
          ∙ ap (λ m. put key value expires_at m (view s))
              (sym (unfold view in next-forget (lookup key s.entries))),
      write-IsUnlisted key value expires_at n s u,
    )

view-version :
    (key value : String) (expires_at version : ℕ) (s : Store)
    → IsUnlisted s
    → let s' = (set_version key value expires_at version s).1 in
      (view s' ≡ meaning (write_version key value expires_at version) (view s)) × IsUnlisted s'
unfolding set_version meaning view
view-version key value expires_at version s u =
    let o = lookup key s.entries in
    elim (Bool-cases (has_version o version)) [
      | inl stale ↦ rw (stale, has-forget o version ∙ stale) (refl, u)
      | inr newer ↦
          rw (newer, has-forget o version ∙ newer)
            (
              view-put key value expires_at version s u,
              write-IsUnlisted key value expires_at version s u,
            )
    ]

-- One operation on a well-formed store without a list is its meaning on the map.
pub apply-refines :
    (op : Operation) (s : Store)
    → IsValid s
    → IsUnlisted s
    → (view (apply op s) ≡ meaning op (view s)) × IsUnlisted (apply op s)
unfolding apply set set_with_expiry get_finish touch_lru remove close meaning view
apply-refines (write key value ttl now) s v u = view-write key value (expiry_of_ttl ttl now) s u
apply-refines (write_with_expiry key value expires_at) s v u = view-write key value expires_at s u
apply-refines (write_version key value expires_at version) s v u =
    view-version key value expires_at version s u
apply-refines (finish key missing now) s v u = (refl, u)
apply-refines (finish key expired now) s v u =
    (view-finish key now s, (get_finish-IsQuiet key expired now s).unlisted u)
apply-refines (finish key (found value element) now) s v u = (
  view-same s (get_finish key (found value element) now s)
      (get_finish-IsQuiet key (found value element) now s).closed
      (λ k. get_finish-lookup key (found value element) now s k),
  (get_finish-IsQuiet key (found value element) now s).unlisted u,
)
apply-refines (touch key) s v u =
    let quiet = touch_item-IsQuiet (lookup key s.entries) s in
    (
      view-same s (touch_lru key s) quiet.closed (λ k. ap (lookup k) (touch_lru-entries key s)),
      quiet.unlisted u,
    )
apply-refines (erase key) s v u = (view-erase key s, (delete_locked-IsQuiet key s).unlisted u)
apply-refines (tick now) s v u = (view-sweep now s v, (sweep-IsQuiet now s).unlisted u)
apply-refines stop s v u = (refl, u)

-- On a well-formed store without an LRU list, where nothing is evicted, every sequence of
-- operations, `Get` by its halves included, has the effect on the readable map that the
-- specification gives it.
pub run-refines :
    (ops : List Operation) (s : Store)
    → IsValid s
    → IsUnlisted s
    → view (run ops s) ≡ meanings ops (view s)
unfolding run meanings
run-refines [] s v u = refl
run-refines (op ∷ ops) s v u =
    let (e, u') = apply-refines op s v u in
    run-refines ops (apply op s) (apply-IsValid op s v) u' ∙ ap (meanings ops) e
