-- ===== src/Store/Links.antt =====
-- The pointers between the entries and the LRU list of internal/store/store.go: what links them,
-- and how one removal, one push and one move keep the links.
use native.Mathlib.Decide.{ℕ_discrete}
use self_healing_distributed.Prelude.{
  sym, ◌∙◌, ℕ, suc, ◌<◌, ◌≡◌, ◌≢◌, refl, String, Option, none, some, ◌∷◌, arith, nat_key,
  string_key, inl, inr,
}
use self_healing_distributed.Prelude.Map.{
  Map, lookup, insert, delete, Distinct, delete-Distinct, lookup-delete_ne, lookup-cons_cases,
  lookup-insert_cases, lookup-cons_self, lookup-cons_ne, lookup-insert_self, lookup-insert_ne,
  lookup-delete_self, some-lookup-delete,
}
use self_healing_distributed.Store.{
  Entry, Elements, remove_element, push_front, move_to_front_of, move_to_front,
}

abbrev pub element_of : Option Entry → Option ℕ
element_of none = none
element_of (some item) = item.lru_element

-- Each entry has an element of its own in the list, and each element has its entry.
pub record Linked (l : Elements) (m : Map String Entry) (next : ℕ) : Type 0 where
  pub ids : Distinct l
  pub fresh : (id : ℕ) (k : String) → lookup id l ≡ some k → id < next
  pub element :
      (k : String) (item : Entry)
      → lookup k m ≡ some item
      → (id : ℕ) × (item.lru_element ≡ some id) × (lookup id l ≡ some k)
  pub entry : (id : ℕ) (k : String) → lookup id l ≡ some k → element_of (lookup k m) ≡ some id

abbrev pub Links : Option Elements → Map String Entry → ℕ → Type 0
Links none m next = (k : String) (item : Entry) → lookup k m ≡ some item → item.lru_element ≡ none
Links (some l) m next = Linked l m next

element_of-some :
    (o : Option Entry) (id : ℕ)
    → element_of o ≡ some id
    → (item : Entry) × (o ≡ some item) × (item.lru_element ≡ some id)
element_of-some none id h = absurd (ground arith)
element_of-some (some item) id h = (item, refl, h)

-- The element that an entry names stands in the list under the entry's key.
pub Linked-lookup :
    (l : Elements) (m : Map String Entry) (next id : ℕ) (key : String)
    → Linked l m next
    → element_of (lookup key m) ≡ some id
    → lookup id l ≡ some key
Linked-lookup l m next id key h e =
    let (item, p, q) = element_of-some (lookup key m) id e in
    let (j, a, b) = h.element key item p in let r : j ≡ id = ground arith in rw (← r) b

pub Linked-delete :
    (l : Elements) (m : Map String Entry) (next id : ℕ) (key : String)
    → Linked l m next
    → element_of (lookup key m) ≡ some id
    → Linked (delete id l) (delete key m) next
Linked-delete l m next id key h e = record {
  ids = delete-Distinct id l h.ids;
  fresh = λ j k p. h.fresh j k (some-lookup-delete id j k l p).1;
  element = λ k item p.
      let (ne, q) = some-lookup-delete key k item m p in
      let (j, a, b) = h.element k item q in
      let other : id ≢ j = λ r. ne (ground (arith, Linked-lookup l m next id key h e, b)) in
      (j, a, rw (lookup-delete_ne id j l other) b);
  entry = λ j k p.
      let (ne, q) = some-lookup-delete id j k l p in
      let f = h.entry j k q in
      let other : key ≢ k = λ r. ne (ground arith) in rw (lookup-delete_ne key k m other) f;
}

pub Linked-push :
    (l : Elements) (m : Map String Entry) (next : ℕ) (key : String) (item : Entry)
    → Linked l m next
    → lookup key m ≡ none
    → item.lru_element ≡ some next
    → Linked ((next, key) ∷ l) (insert key item m) (suc next)
Linked-push l m next key item h absent e = record {
  ids = (unlisted (lookup next l) refl, h.ids);
  fresh = λ j k p. elim (lookup-cons_cases next j key k l p) [
    | inl (q, _) ↦ omega arith
    | inr (_, q) ↦ omega (arith, h.fresh j k q)
  ];
  element = λ k x p. elim (lookup-insert_cases key k item x m p) [
    | inl (q, r) ↦ (next, rw (← r) e, rw (← q) (lookup-cons_self next key l))
    | inr (ne, q) ↦
        let (j, a, b) = h.element k x q in
        let old = h.fresh j k b in (j, a, rw (lookup-cons_ne next j key l (omega arith)) b)
  ];
  entry = λ j k p. elim (lookup-cons_cases next j key k l p) [
    | inl (q, r) ↦ rw (← r, lookup-insert_self key item m, ← q) e
    | inr (_, q) ↦
        let f = h.entry j k q in
        let other : key ≢ k = λ r. ground arith in rw (lookup-insert_ne key k item m other) f
  ];
}
  where
    unlisted : (o : Option String) → lookup next l ≡ o → lookup next l ≡ none
    unlisted none q = q
    unlisted (some k) q = absurd (omega (arith, h.fresh next k q))

pub Linked-move :
    (l : Elements) (m : Map String Entry) (next id : ℕ) (key : String)
    → Linked l m next
    → lookup id l ≡ some key
    → Linked ((id, key) ∷ delete id l) m next
Linked-move l m next id key h p = record {
  ids = (lookup-delete_self id l, delete-Distinct id l h.ids);
  fresh = λ j k q. h.fresh j k (back_to j k q);
  element = λ k item q. let (j, a, b) = h.element k item q in (j, a, moved j k b);
  entry = λ j k q. h.entry j k (back_to j k q);
}
  where
    back_to :
        (j : ℕ) (k : String) → lookup j ((id, key) ∷ delete id l) ≡ some k → lookup j l ≡ some k
    back_to j k q = elim (lookup-cons_cases id j key k (delete id l) q) [
      | inl (r, t) ↦ rw (← r, ← t) p
      | inr (_, r) ↦ (some-lookup-delete id j k l r).1
    ]

    moved : (j : ℕ) (k : String) → lookup j l ≡ some k → lookup j ((id, key) ∷ delete id l) ≡ some k
    moved j k b = elim (ℕ_discrete id j) [
      | yes r ↦ ground (arith, lookup-cons_self id key (delete id l))
      | no ne ↦ rw (lookup-cons_ne id j key (delete id l) ne, lookup-delete_ne id j l ne) b
    ]

-- Only what a lookup sees of the entries matters.
pub Linked-ext :
    (l : Elements) (m m' : Map String Entry) (next : ℕ)
    → ((k : String) → lookup k m' ≡ lookup k m)
    → Linked l m next
    → Linked l m' next
Linked-ext l m m' next same h = record {
  ids = h.ids;
  fresh = h.fresh;
  element = λ k item p. h.element k item (sym (same k) ∙ p);
  entry = λ j k p. rw (same k) (h.entry j k p);
}

-- A deletion of an entry with its element keeps the links.
pub Links-remove :
    (o : Option Elements) (m : Map String Entry) (next : ℕ) (key : String) (item : Entry)
    → Links o m next
    → lookup key m ≡ some item
    → Links (remove_element item.lru_element o) (delete key m) next
unfolding remove_element
Links-remove none m next key item h p =
    let r : remove_element item.lru_element none ≡ none = rw (h key item p) in
    rw r (λ k x q. h k x (some-lookup-delete key k x m q).1)
Links-remove (some l) m next key item h p =
    let (id, a, b) = h.element key item p in rw a (Linked-delete l m next id key h (rw p a))

pub Links-ext :
    (o : Option Elements) (m m' : Map String Entry) (next : ℕ)
    → ((k : String) → lookup k m' ≡ lookup k m)
    → Links o m next
    → Links o m' next
Links-ext none m m' next same h = λ k item p. h k item (sym (same k) ∙ p)
Links-ext (some l) m m' next same h = Linked-ext l m m' next same h

-- A push with the entry that points to the new element keeps the links.
pub Links-push :
    (o : Option Elements) (m : Map String Entry) (next : ℕ) (key : String) (item : Entry)
    → Links o m next
    → lookup key m ≡ none
    → item.lru_element ≡ (push_front key o next).0
    → Links (push_front key o next).1 (insert key item m) (push_front key o next).2
unfolding push_front
Links-push none m next key item h absent e = λ k x p. elim (lookup-insert_cases key k item x m p) [
  | inl (_, r) ↦ rw (← r) e
  | inr (_, q) ↦ h k x q
]
Links-push (some l) m next key item h absent e = Linked-push l m next key item h absent e

Links-move_of :
    (l : Elements) (m : Map String Entry) (next id : ℕ) (o : Option String)
    → lookup id l ≡ o
    → Linked l m next
    → Linked (move_to_front_of id o l) m next
unfolding move_to_front_of
Links-move_of l m next id none p h = h
Links-move_of l m next id (some key) p h = Linked-move l m next id key h p

-- A move to the front keeps the links, whatever the element.
pub Links-move :
    (o : Option Elements) (m : Map String Entry) (next id : ℕ)
    → Links o m next
    → Links (move_to_front id o) m next
unfolding move_to_front
Links-move none m next id h = h
Links-move (some l) m next id h = Links-move_of l m next id (lookup id l) refl h
