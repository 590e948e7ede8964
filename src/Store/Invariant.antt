-- ===== src/Store/Invariant.antt =====
-- The well-formedness of the store of internal/store/store.go, kept by each piece of its operations.
use Prim.Native.String.{len}
use self_healing_distributed.Prelude.{
  ℕ, ◌+◌, ◌%◌, ◌<◌, ◌≡◌, ◌≢◌, refl, sym, subst, String, Option, none, some, [], ◌∷◌, arith, nat_key,
  string_key, inl, inr,
}
use self_healing_distributed.Prelude.Int64.{two64, sub64}
use self_healing_distributed.Prelude.Map.{
  lookup, insert, delete, Distinct, total, weight, total-insert, total-delete, insert-Distinct,
  delete-Distinct, some-lookup-delete, lookup-insert_cases, lookup-delete_self, lookup-delete_ne,
  lookup-insert-delete, lookup-delete, lookup-cons_self, lookup-cons_ne,
}
use self_healing_distributed.Store.{
  Entry, Elements, Store, new, new_with_eviction, delete_item, delete_locked, evict_item,
  evict_back, evict_if_needed, back, back_of, detach, push_front, put_entry, put_detached,
  remove_element,
}
use self_healing_distributed.Store.Eviction.{evict_if_needed_induction}
use self_healing_distributed.Store.Links.{
  Linked, Links, Linked-delete, Links-remove, Links-ext, Links-push,
}

-- `int64(len(key) + len(value))`
abbrev pub size_of : String → String → ℕ
size_of key value = (len key + len value) % two64

abbrev pub entry_size : Entry → ℕ
entry_size item = item.size

-- The memory counter is the sum of the sizes, modulo 2 ^ 64.
pub record IsValid (s : Store) : Type 0 where
  pub distinct : Distinct s.entries
  pub sized :
      (k : String) (item : Entry)
      → lookup k s.entries ≡ some item
      → item.size ≡ size_of k item.value
  pub memory : s.current_mem ≡ total entry_size s.entries % two64
  pub links : Links s.lru_list s.entries s.next_element

pub new-IsValid : (interval : ℕ) → IsValid (new interval)
unfolding new lookup total
new-IsValid interval = record {
  distinct = tt;
  sized = λ k item p. absurd (ground arith);
  memory = omega arith;
  links = λ k item p. absurd (ground arith);
}

pub new_with_eviction-IsValid :
    (interval mem_cap : ℕ) → IsValid (new_with_eviction interval mem_cap)
unfolding new_with_eviction lookup total
new_with_eviction-IsValid interval mem_cap = record {
  distinct = tt;
  sized = λ k item p. absurd (ground arith);
  memory = omega arith;
  links = record {
    ids = tt;
    fresh = λ id k p. absurd (ground arith);
    element = λ k item p. absurd (ground arith);
    entry = λ id k p. absurd (ground arith);
  };
}

size-lt :
    (s : Store) (k : String) (item : Entry)
    → IsValid s
    → lookup k s.entries ≡ some item
    → item.size < two64
size-lt s k item v p = omega (arith, v.sized k item p)

-- An entry is taken out with its element, or by the eviction.
drop-IsValid :
    (s : Store) (key : String) (item : Entry) (l : Option Elements)
    → IsValid s
    → lookup key s.entries ≡ some item
    → Links l (delete key s.entries) s.next_element
    → IsValid (record s {
      current_mem = sub64 s.current_mem item.size;
      lru_list = l;
      entries = delete key s.entries;
    })
drop-IsValid s key item l v p links = record {
  distinct = delete-Distinct key s.entries v.distinct;
  sized = λ k x q. v.sized k x (some-lookup-delete key k x s.entries q).1;
  memory =
      let w : weight entry_size (lookup key s.entries) ≡ item.size = rw p in
      omega (
        arith,
        v.memory,
        w,
        size-lt s key item v p,
        total-delete entry_size key s.entries v.distinct,
      );
  links = links;
}

delete_item-IsValid :
    (s : Store) (key : String) (o : Option Entry)
    → IsValid s
    → lookup key s.entries ≡ o
    → IsValid (delete_item key o s)
unfolding delete_item
delete_item-IsValid s key none v p = v
delete_item-IsValid s key (some item) v p =
    drop-IsValid s key item (remove_element item.lru_element s.lru_list) v p
      (Links-remove s.lru_list s.entries s.next_element key item v.links p)

pub delete_locked-IsValid : (key : String) (s : Store) → IsValid s → IsValid (delete_locked key s)
unfolding delete_locked
delete_locked-IsValid key s v = delete_item-IsValid s key (lookup key s.entries) v refl

-- The element at the back of a list that is linked is found by its identity.
pub back-lookup :
    (l : Elements) (id : ℕ) (key : String)
    → Distinct l
    → back l ≡ some (id, key)
    → lookup id l ≡ some key
unfolding back
back-lookup [] id key d p = absurd (ground arith)
back-lookup ((j, k) ∷ []) id key d p = ground (arith, lookup-cons_self j k [])
back-lookup ((j, k) ∷ f ∷ l) id key d p =
    let ih = back-lookup (f ∷ l) id key d.1 p in
    let other : j ≢ id = λ r. ground (arith, d.0) in rw (lookup-cons_ne j id k (f ∷ l) other) ih

-- An eviction of the element at the back keeps the invariant, and its entry goes with it.
evict_item-IsValid :
    (s : Store) (l : Elements) (id : ℕ) (key : String) (o : Option Entry)
    → IsValid s
    → s.lru_list ≡ some l
    → Linked l s.entries s.next_element
    → lookup id l ≡ some key
    → lookup key s.entries ≡ o
    → IsValid (evict_item key o (record s { lru_list = some (delete id l) }))
unfolding evict_item
evict_item-IsValid s l id key none v q h p e = absurd (ground (arith, h.entry id key p))
evict_item-IsValid s l id key (some item) v q h p e =
    drop-IsValid s key item (some (delete id l)) v e
      (Linked-delete l s.entries s.next_element id key h (h.entry id key p))

pub evict_back-IsValid :
    (s : Store) (id : ℕ) (key : String)
    → IsValid s
    → back_of s.lru_list ≡ some (id, key)
    → IsValid (evict_back id key s)
unfolding evict_back back_of remove_element
evict_back-IsValid s id key v p = go s.lru_list refl v.links p
  where
    go :
        (o : Option Elements)
        → s.lru_list ≡ o
        → Links o s.entries s.next_element
        → back_of o ≡ some (id, key)
        → IsValid (evict_back id key s)
    go none q h b = absurd (ground arith)
    go (some l) q h b =
        let e : remove_element (some id) s.lru_list ≡ some (delete id l) = rw q in
        subst (λ o. IsValid (evict_item key (lookup key s.entries) (record s { lru_list = o })))
          (sym e)
          (evict_item-IsValid s l id key (lookup key s.entries) v q h (back-lookup l id key h.ids b)
            refl)

pub evict_if_needed-IsValid : (s : Store) → IsValid s → IsValid (evict_if_needed s)
evict_if_needed-IsValid =
    evict_if_needed_induction IsValid (λ s id key v _ p. evict_back-IsValid s id key v p)

-- What the replacement of an entry leaves, once the entry is gone, is well formed.
detach-IsValid :
    (s : Store) (key : String) (o : Option Entry)
    → IsValid s
    → lookup key s.entries ≡ o
    → IsValid (record (detach o s) { entries = delete key s.entries })
unfolding detach
detach-IsValid s key none v p = record {
  distinct = delete-Distinct key s.entries v.distinct;
  sized = λ k x q. v.sized k x (some-lookup-delete key k x s.entries q).1;
  memory =
      let w : weight entry_size (lookup key s.entries) ≡ 0 = rw p in
      omega (arith, v.memory, w, total-delete entry_size key s.entries v.distinct);
  links =
      Links-ext s.lru_list s.entries (delete key s.entries) s.next_element
        (λ k. ground (arith, lookup-delete key k s.entries, string_key.equals_iff key k)) v.links;
}
detach-IsValid s key (some item) v p =
    drop-IsValid s key item (remove_element item.lru_element s.lru_list) v p
      (Links-remove s.lru_list s.entries s.next_element key item v.links p)

pub entries-detach : (o : Option Entry) (s : Store) → (detach o s).entries ≡ s.entries
unfolding detach
entries-detach none s = refl
entries-detach (some item) s = refl

module _ (key value : String) (expires_at version : ℕ) (s : Store) where
  -- The entry that a write stores.
  unfoldable pub new_entry : Entry
  new_entry = record {
    value = value;
    expires_at = expires_at;
    version = version;
    lru_element = (push_front key s.lru_list s.next_element).0;
    size = size_of key value;
  }

  put_detached-IsValid :
      IsValid (record s { entries = delete key s.entries })
      → Distinct s.entries
      → IsValid (put_detached key value expires_at version s)
  unfolding put_detached new_entry
  put_detached-IsValid v d = record {
    distinct = insert-Distinct key _ s.entries d;
    sized = λ k x p. elim (lookup-insert_cases key k new_entry x s.entries p) [
      | inl (q, r) ↦ rw (← r, ← q)
      | inr (ne, q) ↦ v.sized k x (rw (lookup-delete_ne key k s.entries ne) q)
    ];
    memory = omega (
      arith,
      v.memory,
      total-insert entry_size key new_entry s.entries,
      total-delete entry_size key s.entries d,
    );
    links =
        Links-ext (push_front key s.lru_list s.next_element).1
          (insert key new_entry (delete key s.entries)) (insert key new_entry s.entries)
          (push_front key s.lru_list s.next_element).2
          (λ k. lookup-insert-delete key k new_entry s.entries)
          (Links-push s.lru_list (delete key s.entries) s.next_element key new_entry v.links
            (lookup-delete_self key s.entries) refl);
  }

-- A write keeps the invariant, before anything is evicted.
pub put_entry-IsValid :
    (key value : String) (expires_at version : ℕ) (s : Store)
    → IsValid s
    → IsValid (put_entry key value expires_at version s)
unfolding put_entry
put_entry-IsValid key value expires_at version s v =
    let o = lookup key s.entries in
    put_detached-IsValid key value expires_at version (detach o s)
      (rw (entries-detach o s) (detach-IsValid s key o v refl)) (rw (entries-detach o s) v.distinct)
