-- ===== src/Store/Recency.antt =====
-- What the eviction of internal/store/store.go takes: elements from the back of the LRU list, each
-- with its entry, and never the element at the front where its entry fits under the cap.
use mathlib.Core.List.{append_assoc, append-nil}
use self_healing_distributed.Prelude.{
  ℕ, ◌%◌, ◌<◌, ◌≤◌, ◌≡◌, ◌≢◌, refl, sym, subst, ap, ◌∙◌, String, Bool, true, false, ◌||◌, Option,
  none, some, [], ◌∷◌, ◌++◌, arith, string_key, nat_key, ◌==◌, inl, inr, if◌then◌else◌,
}
use self_healing_distributed.Prelude.Int64.{two64, two63, slt}
use self_healing_distributed.Prelude.Map.{
  lookup, delete, total, weight, lookup-delete, lookup-cons_self, lookup-cons_cases, delete-cons_ne,
  total_single, lookup-cons_ne,
}
use self_healing_distributed.Store.{
  Entry, Elements, Store, back, back_of, evict_item, evict_back, evict_if_needed,
}
use self_healing_distributed.Store.Eviction.{evict_if_needed_induction}
use self_healing_distributed.Store.Invariant.{IsValid, entry_size, evict_back-IsValid, back-lookup}
use self_healing_distributed.Store.Capacity.{evict_back_fields, round_list, back-append, linked}

-- Whether a list has an element of the key.
abbrev pub listed : String → Elements → Bool
listed k [] = false
listed k ((id, key) ∷ l) = key == k || listed k l

listed-append : (k : String) (l l' : Elements) → listed k (l ++ l') ≡ (listed k l || listed k l')
listed-append k [] l' = refl
listed-append k ((id, key) ∷ l) l' = ground (arith, listed-append k l l')

evict_item-lookup :
    (key : String) (o : Option Entry) (s : Store) (k : String)
    → lookup key s.entries ≡ o
    → lookup k (evict_item key o s).entries ≡ (if key == k then none else lookup k s.entries)
unfolding evict_item
evict_item-lookup key none s k p = ground (arith, string_key.equals_iff key k)
evict_item-lookup key (some item) s k p = lookup-delete key k s.entries

pub evict_back-lookup :
    (id : ℕ) (key : String) (s : Store) (k : String)
    → lookup k (evict_back id key s).entries ≡ (if key == k then none else lookup k s.entries)
unfolding evict_back
evict_back-lookup id key s k = evict_item-lookup key _ _ k refl

-- `s'` is `s` after an eviction, where `l` was the list: a part at its end is gone, each element
-- with the entry of its key, and nothing else has changed for a lookup.
pub record Evicts (l : Elements) (s s' : Store) : Type 0 where
  pub kept : Elements
  pub dropped : Elements
  pub listing : s'.lru_list ≡ some kept
  pub split : l ≡ kept ++ dropped
  pub entries :
      (k : String) → lookup k s'.entries ≡ (if listed k dropped then none else lookup k s.entries)

Evicts-round :
    (l : Elements) (s t : Store) (id : ℕ) (key : String)
    → IsValid t
    → Evicts l s t
    → back_of t.lru_list ≡ some (id, key)
    → Evicts l s (evict_back id key t)
Evicts-round l s t id key v h q =
    let (p', b) = round_list t h.kept id key h.listing q in
    record {
      kept = delete id h.kept;
      dropped = (id, key) ∷ h.dropped;
      listing = p';
      split =
          h.split
          ∙ ap (λ x. x ++ h.dropped) (back-append h.kept id key (linked t h.kept v h.listing).ids b)
          ∙ append_assoc (delete id h.kept) ((id, key) ∷ []) h.dropped;
      entries = λ k. evict_back-lookup id key t k ∙ ground (arith, h.entries k);
    }

-- On a well-formed store with a list, the eviction takes elements from the back of the list, where
-- the least recently used keys stand, and the entries of exactly those.
pub evict_if_needed-Evicts :
    (s : Store) (l : Elements) → IsValid s → s.lru_list ≡ some l → Evicts l s (evict_if_needed s)
evict_if_needed-Evicts s l v p =
    (evict_if_needed_induction (λ t. IsValid t × Evicts l s t)
      (λ t id key h _ q. (evict_back-IsValid t id key h.0 q, Evicts-round l s t id key h.0 h.1 q)) s
      (
        v,
        (record {
          kept = l;
          dropped = [];
          listing = p;
          split = sym (append-nil l);
          entries = λ k. refl;
        }),
      )).1

back-rest :
    (x : ℕ × String) (l : Elements) (f : ℕ × String) (r : Elements) {o : Option (ℕ × String)}
    → l ≡ f ∷ r
    → back (x ∷ l) ≡ o
    → back l ≡ o
unfolding back
back-rest x [] f r e p = absurd (ground arith)
back-rest x (g ∷ l) f r e p = p

-- The element `id` of the key stands at the front, and the key has its entry.
record IsFirst (mem_cap id : ℕ) (key : String) (item : Entry) (s : Store) : Type 0 where
  rest : Elements
  cap : s.mem_cap ≡ mem_cap
  valid : IsValid s
  listing : s.lru_list ≡ some ((id, key) ∷ rest)
  entry : lookup key s.entries ≡ some item

module _ (mem_cap id : ℕ) (key : String) (item : Entry) (fits : item.size ≤ mem_cap)
    (positive : mem_cap < two63) where
  -- Where the front is the only element, its entry is the only one, and the store is within the cap.
  alone_fits :
      (s : Store)
      → (h : IsFirst mem_cap id key item s) → h.rest ≡ []
      → slt s.mem_cap s.current_mem ≡ false
  alone_fits s h e =
      let t : total entry_size s.entries ≡ weight entry_size (lookup key s.entries) =
        total_single entry_size key s.entries h.valid.distinct only in
      let w : weight entry_size (lookup key s.entries) ≡ item.size = rw h.entry in
      let m : s.current_mem ≡ item.size % two64 =
        h.valid.memory ∙ ap (λ (x : ℕ). x % two64) (t ∙ w) in
      ground (arith, h.cap)
    where
      only : (k : String) (x : Entry) → lookup k s.entries ≡ some x → key ≡ k
      only k x q =
          let (j, _, r) = (linked s ((id, key) ∷ h.rest) h.valid h.listing).element k x q in
          let r' : lookup j ((id, key) ∷ []) ≡ some k =
            subst (λ z. lookup j ((id, key) ∷ z) ≡ some k) e r in
          elim (lookup-cons_cases id j key k [] r') [
            | inl (_, z) ↦ z
            | inr (_, z) ↦ absurd (unfold lookup in ground arith)
          ]

  IsFirst-round :
      (s : Store) (id' : ℕ) (key' : String)
      → IsFirst mem_cap id key item s
      → slt s.mem_cap s.current_mem ≡ true
      → back_of s.lru_list ≡ some (id', key')
      → IsFirst mem_cap id key item (evict_back id' key' s)
  IsFirst-round s id' key' h over q = go h.rest refl
    where
      go : (r : Elements) → h.rest ≡ r → IsFirst mem_cap id key item (evict_back id' key' s)
      go [] e = absurd (ground (arith, alone_fits s h e))
      go (f ∷ r) e =
          let l = (id, key) ∷ h.rest in
          let (p', b) = round_list s l id' key' h.listing q in
          let links = linked s l h.valid h.listing in
          let found : lookup id' h.rest ≡ some key' =
            back-lookup h.rest id' key' links.ids.1 (back-rest (id, key) h.rest f r e b) in
          let other : id ≢ id' = λ z. ground (arith, links.ids.0) in
          let own = links.entry id key (lookup-cons_self id key h.rest) in
          let its = links.entry id' key' (lookup-cons_ne id id' key h.rest other ∙ found) in
          record {
            rest = delete id' h.rest;
            cap = (evict_back_fields id' key' s).1 ∙ h.cap;
            valid = evict_back-IsValid s id' key' h.valid q;
            listing = p' ∙ ap some (delete-cons_ne id' id key h.rest other);
            entry =
                evict_back-lookup id' key' s key
                ∙ ground (arith, string_key.equals_iff key' key, h.entry);
          }

  -- The entry of the element at the front survives the eviction, if it fits under the cap alone.
  evict-front :
      (s : Store)
      → IsFirst mem_cap id key item s
      → lookup key (evict_if_needed s).entries ≡ some item
  evict-front s h =
      (evict_if_needed_induction (IsFirst mem_cap id key item)
        (λ t id' key' h' over q. IsFirst-round t id' key' h' over q) s h).entry

-- On a well-formed store, the entry of the element at the front of the list survives the eviction,
-- if its size is at most the cap, which is below 2 ^ 63.
pub evict_if_needed-front :
    (s : Store) (rest : Elements) (id : ℕ) (key : String) (item : Entry)
    → IsValid s
    → s.lru_list ≡ some ((id, key) ∷ rest)
    → lookup key s.entries ≡ some item
    → item.size ≤ s.mem_cap
    → s.mem_cap < two63
    → lookup key (evict_if_needed s).entries ≡ some item
evict_if_needed-front s rest id key item v p q fits positive =
    evict-front s.mem_cap id key item fits positive s
      (record { rest = rest; cap = refl; valid = v; listing = p; entry = q })
