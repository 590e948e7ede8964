-- ===== src/Store/Bounds.antt =====
-- Writes of internal/store/store.go against the memory cap.
use native.Mathlib.Nat.{le_trans}
use self_healing_distributed.Prelude.{
  ℕ, ◌+◌, ◌≤◌, ◌<◌, ◌≡◌, refl, sym, subst, ap, String, false, Option, none, some, arith, string_key,
}
use self_healing_distributed.Prelude.Int64.{two63, sle, slt}
use self_healing_distributed.Prelude.Map.{
  lookup, insert, total, total-insert, total-delete, Distinct,
}
use self_healing_distributed.Store.{
  Entry, Elements, Store, put_entry, put_detached, detach, evict_item, evict_back, evict_if_needed,
  set_with_expiry, set, next_version, expiry_of_ttl,
}
use self_healing_distributed.Store.Access.{memory_usage}
use self_healing_distributed.Store.Eviction.{evict_if_needed_induction}
use self_healing_distributed.Store.Invariant.{
  IsValid, entry_size, size_of, put_entry-IsValid, evict_if_needed-IsValid, evict_back-IsValid,
  new_entry, entries-detach,
}
use self_healing_distributed.Store.Capacity.{evict_if_needed-fits}
use self_healing_distributed.Store.Written.{put-front, put_cap}

total-evict_item :
    (key : String) (o : Option Entry) (s : Store)
    → Distinct s.entries
    → total entry_size (evict_item key o s).entries ≤ total entry_size s.entries
unfolding evict_item
total-evict_item key none s d = omega arith
total-evict_item key (some item) s d = omega (arith, total-delete entry_size key s.entries d)

total-evict_back :
    (id : ℕ) (key : String) (s : Store)
    → Distinct s.entries
    → total entry_size (evict_back id key s).entries ≤ total entry_size s.entries
unfolding evict_back
total-evict_back id key s d = total-evict_item key _ _ d

evict_total :
    (s : Store)
    → IsValid s
    → total entry_size (evict_if_needed s).entries ≤ total entry_size s.entries
evict_total s v =
    (evict_if_needed_induction
      (λ t. IsValid t × (total entry_size t.entries ≤ total entry_size s.entries))
      (λ t id key h _ q.
        (evict_back-IsValid t id key h.0 q, le_trans (total-evict_back id key t h.0.distinct) h.1))
      s (v, omega arith)).1

module _ (key value : String) (expires_at version : ℕ) (s : Store) where
  put_total :
      total entry_size (put_entry key value expires_at version s).entries
      ≤ total entry_size s.entries + size_of key value
  unfolding put_entry put_detached new_entry
  put_total =
      let o = lookup key s.entries in
      let d = detach o s in
      let e = ap (total entry_size) (entries-detach o s) in
      let n = new_entry key value expires_at version d in
      let q : (put_entry key value expires_at version s).entries ≡ insert key n d.entries = refl in
      omega (
        arith,
        e,
        ap (total entry_size) q,
        total-insert entry_size key (new_entry key value expires_at version d) d.entries,
      )

  put_fits :
      (l : Elements)
      → IsValid s
      → s.lru_list ≡ some l
      → sle s.mem_cap 0 ≡ false
      → slt s.mem_cap (evict_if_needed (put_entry key value expires_at version s)).current_mem
        ≡ false
  put_fits l v p on =
      let t = put_entry key value expires_at version s in
      let (id, rest, q) = put-front key value expires_at version s l p in
      let c = put_cap key value expires_at version s in
      subst (λ m. slt m (evict_if_needed t).current_mem ≡ false) c
        (evict_if_needed-fits t _ (put_entry-IsValid key value expires_at version s v) q
          (subst (λ m. sle m 0 ≡ false) (sym c) on))

  put_within :
      (l : Elements)
      → IsValid s
      → s.lru_list ≡ some l
      → sle s.mem_cap 0 ≡ false
      → total entry_size s.entries + size_of key value < two63
      → total entry_size (evict_if_needed (put_entry key value expires_at version s)).entries
        ≤ s.mem_cap
  put_within l v p on small =
      let t = put_entry key value expires_at version s in
      let v' = put_entry-IsValid key value expires_at version s v in
      ground (
        arith,
        put_fits l v p on,
        (evict_if_needed-IsValid t v').memory,
        evict_total t v',
        put_total,
      )

-- On a well-formed store with a list and a positive cap, `Set` and `SetWithExpiry` leave entries
-- whose sizes sum up to the cap at most, as long as the sizes before with the new one stay below 2
-- ^ 63; and `MemoryUsage` is that sum.
pub writes-within :
    (key value : String) (ttl now expires_at : ℕ) (s : Store) (l : Elements)
    → IsValid s
    → s.lru_list ≡ some l
    → sle s.mem_cap 0 ≡ false
    → total entry_size s.entries + size_of key value < two63
    → let a = set key value ttl now s in
      let b = set_with_expiry key value expires_at s in
      ((total entry_size a.entries ≤ s.mem_cap) × (memory_usage a ≡ total entry_size a.entries))
      × ((total entry_size b.entries ≤ s.mem_cap) × (memory_usage b ≡ total entry_size b.entries))
unfolding set set_with_expiry memory_usage
writes-within key value ttl now expires_at s l v p on small =
    (one (expiry_of_ttl ttl now), one expires_at)
  where
    one :
        (e : ℕ)
        → let t = evict_if_needed (put_entry key value e (next_version (lookup key s.entries)) s) in
          (total entry_size t.entries ≤ s.mem_cap) × (t.current_mem ≡ total entry_size t.entries)
    one e =
        let n = next_version (lookup key s.entries) in
        let v' = put_entry-IsValid key value e n s v in
        let within = put_within key value e n s l v p on small in
        let before = put_total key value e n s in
        let shrunk = evict_total (put_entry key value e n s) v' in
        (within, omega (arith, (evict_if_needed-IsValid (put_entry key value e n s) v').memory))
