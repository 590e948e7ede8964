-- ===== src/Store/Capacity.antt =====
-- The memory cap of internal/store/store.go: the eviction ends, takes the least recently used
-- entries only, and leaves the store within its cap.
use self_healing_distributed.Prelude.{
  ℕ, zero, suc, ◌+◌, ◌<◌, ◌≡◌, ◌≢◌, ◌⊎◌, refl, sym, subst, ap, ◌∙◌, String, false, Option, none,
  some, [], ◌∷◌, ◌++◌, arith, string_key, nat_key, Bool-cases, Option-cases, inl, inr, length,
  length-append,
}
use self_healing_distributed.Prelude.Int64.{slt, sle}
use self_healing_distributed.Prelude.Map.{lookup, delete, Distinct, delete-cons_ne, total_empty}
use self_healing_distributed.Store.{
  Entry, Elements, Store, back, back_of, evict_item, evict_back, evict_loop, evict_if_needed,
  remove_element,
}
use self_healing_distributed.Store.Eviction.{
  evict_loop-fits, evict_loop-empty, evict_loop-round, evict_if_needed-loop,
  evict_if_needed_induction,
}
use self_healing_distributed.Store.Invariant.{
  IsValid, entry_size, evict_back-IsValid, back-lookup, evict_if_needed-IsValid,
}
use self_healing_distributed.Store.Links.{Linked, Links}

-- Taking out the element at the back leaves what stands before it.
pub back-append :
    (l : Elements) (id : ℕ) (key : String)
    → Distinct l
    → back l ≡ some (id, key)
    → l ≡ delete id l ++ (id, key) ∷ []
unfolding back
back-append [] id key d p = absurd (ground arith)
back-append ((j, k) ∷ []) id key d p = unfold delete in ground arith
back-append ((j, k) ∷ f ∷ l) id key d p =
    let other : j ≢ id = λ r. ground (arith, d.0, back-lookup (f ∷ l) id key d.1 p) in
    rw (delete-cons_ne id j k (f ∷ l) other) (ap (◌∷◌ (j, k)) (back-append (f ∷ l) id key d.1 p))

back-none : (l : Elements) → back l ≡ none → l ≡ []
unfolding back
back-none [] h = refl
back-none (e ∷ []) h = absurd (ground arith)
back-none (e ∷ f ∷ l) h = absurd (ground (arith, back-none (f ∷ l) h))

-- The fields that an eviction of one element sets or leaves.
evict_item_fields :
    (key : String) (o : Option Entry) (s : Store)
    → ((evict_item key o s).lru_list ≡ s.lru_list) × ((evict_item key o s).mem_cap ≡ s.mem_cap)
unfolding evict_item
evict_item_fields key none s = (refl, refl)
evict_item_fields key (some item) s = (refl, refl)

pub evict_back_fields :
    (id : ℕ) (key : String) (s : Store)
    → ((evict_back id key s).lru_list ≡ remove_element (some id) s.lru_list)
      × ((evict_back id key s).mem_cap ≡ s.mem_cap)
unfolding evict_back
evict_back_fields id key s = evict_item_fields key _ _

length-init :
    (l : Elements) (id : ℕ) (key : String)
    → Distinct l
    → back l ≡ some (id, key)
    → length (delete id l) + 1 ≡ length l
length-init l id key d p =
    omega
      (arith, ap length (back-append l id key d p), length-append (delete id l) ((id, key) ∷ []))

pub linked :
    (s : Store) (l : Elements) → IsValid s → s.lru_list ≡ some l → Linked l s.entries s.next_element
linked s l v p = subst (λ o. Links o s.entries s.next_element) p v.links

-- What one round does to the list.
pub round_list :
    (s : Store) (l : Elements) (id : ℕ) (key : String)
    → s.lru_list ≡ some l
    → back_of s.lru_list ≡ some (id, key)
    → ((evict_back id key s).lru_list ≡ some (delete id l)) × (back l ≡ some (id, key))
unfolding back_of remove_element
round_list s l id key p q =
    ((evict_back_fields id key s).0 ∙ rw p, subst (λ o. back_of o ≡ some (id, key)) p q)

abbrev IsDone : Store → Type 0
IsDone s = (slt s.mem_cap s.current_mem ≡ false) ⊎ (back_of s.lru_list ≡ none)

-- The loop ends by its test or with an empty list: the fuel is enough.
evict_loop-IsDone :
    (fuel : ℕ) (s : Store) (l : Elements)
    → IsValid s
    → s.lru_list ≡ some l
    → length l < fuel
    → IsDone (evict_loop fuel s)
evict_loop-IsDone zero s l v p h = absurd (omega arith)
evict_loop-IsDone (suc fuel) s l v p h = elim (Bool-cases (slt s.mem_cap s.current_mem)) [
  | inl over ↦ elim (Option-cases (back_of s.lru_list)) [
    | inl gone ↦ subst IsDone (sym (evict_loop-empty (suc fuel) s gone)) (inr gone)
    | inr ((id, key), q) ↦
        let (p', b) = round_list s l id key p q in
        let shorter = length-init l id key (linked s l v p).ids b in
        subst IsDone (sym (evict_loop-round fuel s id key over q)) (
          evict_loop-IsDone fuel (evict_back id key s) (delete id l)
            (evict_back-IsValid s id key v q) p' (omega arith))
  ]
  | inr fits ↦ subst IsDone (sym (evict_loop-fits (suc fuel) s fits)) (inl fits)
]

-- A store whose list is empty is empty.
empty-fits :
    (s : Store) (l : Elements) → IsValid s → s.lru_list ≡ some l → back l ≡ none → s.current_mem ≡ 0
empty-fits s l v p b =
    let e : l ≡ [] = back-none l b in
    let none_there : (k : String) → lookup k s.entries ≡ none =
      λ k. absent k (lookup k s.entries) refl in
    omega (arith, v.memory, total_empty entry_size s.entries none_there)
  where
    absent : (k : String) (o : Option Entry) → lookup k s.entries ≡ o → lookup k s.entries ≡ none
    absent k none q = q
    absent k (some item) q =
        let (id, _, r) = (linked s l v p).element k item q in
        absurd (unfold lookup in ground (arith, back-none l b))

pub evict-keeps :
    (s : Store) (l : Elements)
    → s.lru_list ≡ some l
    → ((evict_if_needed s).mem_cap ≡ s.mem_cap)
      × ((l' : Elements) × ((evict_if_needed s).lru_list ≡ some l'))
evict-keeps s l p =
    evict_if_needed_induction
      (λ t. (t.mem_cap ≡ s.mem_cap) × ((l' : Elements) × (t.lru_list ≡ some l')))
      (λ t id key h _ q. (
        (evict_back_fields id key t).1 ∙ h.0,
        (delete id h.1.0, (round_list t h.1.0 id key h.1.1 q).0),
      ))
      s (refl, (l, p))

-- On a well-formed store with a list and a positive cap, `evictIfNeeded` ends with the memory
-- counter within the cap.
pub evict_if_needed-fits :
    (s : Store) (l : Elements)
    → IsValid s
    → s.lru_list ≡ some l
    → sle s.mem_cap 0 ≡ false
    → slt s.mem_cap (evict_if_needed s).current_mem ≡ false
evict_if_needed-fits s l v p on =
    let (cap, (l', p')) = evict-keeps s l p in
    let done : IsDone (evict_if_needed s) =
      subst IsDone (sym (evict_if_needed-loop s l p on))
        (evict_loop-IsDone (suc (length l)) s l v p (omega arith)) in
    elim done [
      | inl fits ↦ subst (λ c. slt c (evict_if_needed s).current_mem ≡ false) cap fits
      | inr gone ↦
          let zero_left =
            empty-fits (evict_if_needed s) l' (evict_if_needed-IsValid s v) p'
              (unfold back_of in subst (λ o. back_of o ≡ none) p' gone) in
          rw zero_left (no_cap on)
    ]
  where
    no_cap : sle s.mem_cap 0 ≡ false → slt s.mem_cap 0 ≡ false
    no_cap h = ground arith
