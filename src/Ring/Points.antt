-- ===== src/Ring/Points.antt =====
-- The sorted points of internal/ring/ring.go, and the clockwise search among them.
use self_healing_distributed.Prelude.{
  ℕ, zero, suc, ◌+◌, ◌-◌, ◌%◌, ◌^◌, ◌≤◌, ◌<◌, ◌≡◌, refl, String, Bool, true, false, ◌||◌, List, [],
  ◌∷◌, arith, length, get_or, leb, ltb, ◌==◌, nat_key, Bool-cases, inl, inr, if◌then◌else◌,
}
use self_healing_distributed.Prelude.Map.{Map, lookup}
use self_healing_distributed.Ring.{insert_sorted, sort, keys_of, is_some, hash, point_index}
use self_healing_distributed.Ring.Search.{search, search-IsFirst, IsFirst}

abbrev pub two32 : ℕ
two32 = 2 ^ 32

unfoldable pub mem : ℕ → List ℕ → Bool
mem p [] = false
mem p (q ∷ qs) = q == p || mem p qs

-- `p` is at most each element.
abbrev IsLeast : ℕ → List ℕ → Type 0
IsLeast p [] = Unit
IsLeast p (q ∷ qs) = (p ≤ q) × IsLeast p qs

abbrev pub IsSorted : List ℕ → Type 0
IsSorted [] = Unit
IsSorted (p ∷ ps) = IsLeast p ps × IsSorted ps

mem-insert_sorted : (p q : ℕ) (l : List ℕ) → mem p (insert_sorted q l) ≡ (q == p || mem p l)
unfolding mem insert_sorted
mem-insert_sorted p q [] = refl
mem-insert_sorted p q (x ∷ l) = ground (arith, mem-insert_sorted p q l)

pub mem-sort : (p : ℕ) (l : List ℕ) → mem p (sort l) ≡ mem p l
unfolding mem sort
mem-sort p [] = refl
mem-sort p (q ∷ l) = ground (arith, mem-insert_sorted p q (sort l), mem-sort p l)

pub mem-keys_of : (p : ℕ) (m : Map ℕ String) → mem p (keys_of m) ≡ is_some (lookup p m)
unfolding mem lookup is_some
mem-keys_of p [] = refl
mem-keys_of p ((q, id) ∷ m) = ground (arith, mem-keys_of p m)

IsLeast-trans : (p q : ℕ) (l : List ℕ) → p ≤ q → IsLeast q l → IsLeast p l
IsLeast-trans p q [] h k = tt
IsLeast-trans p q (x ∷ l) h k = (omega arith, IsLeast-trans p q l h k.1)

IsLeast-insert_sorted : (p q : ℕ) (l : List ℕ) → p ≤ q → IsLeast p l → IsLeast p (insert_sorted q l)
unfolding insert_sorted
IsLeast-insert_sorted p q [] h k = (h, tt)
IsLeast-insert_sorted p q (x ∷ l) h k = elim (Bool-cases (leb q x)) [
  | inl le ↦ rw le (h, k)
  | inr gt ↦ rw gt (k.0, IsLeast-insert_sorted p q l h k.1)
]

IsSorted-insert_sorted : (q : ℕ) (l : List ℕ) → IsSorted l → IsSorted (insert_sorted q l)
unfolding insert_sorted
IsSorted-insert_sorted q [] s = (tt, tt)
IsSorted-insert_sorted q (x ∷ l) s = elim (Bool-cases (leb q x)) [
  | inl le ↦ let qx : q ≤ x = ground arith in rw le ((qx, IsLeast-trans q x l qx s.0), s)
  | inr gt ↦
      let xq : x ≤ q = ground arith in
      rw gt (IsLeast-insert_sorted x q l xq s.0, IsSorted-insert_sorted q l s.1)
]

pub IsSorted-sort : (l : List ℕ) → IsSorted (sort l)
unfolding sort
IsSorted-sort [] = tt
IsSorted-sort (p ∷ l) = IsSorted-insert_sorted p (sort l) (IsSorted-sort l)

IsLeast-get : (p : ℕ) (l : List ℕ) (b : ℕ) → IsLeast p l → b < length l → p ≤ get_or l b 0
IsLeast-get p [] b k h = absurd (omega arith)
IsLeast-get p (x ∷ l) zero k h = k.0
IsLeast-get p (x ∷ l) (suc b) k h = IsLeast-get p l b k.1 (omega arith)

pub IsSorted-get :
    (l : List ℕ) (a b : ℕ) → IsSorted l → a ≤ b → b < length l → get_or l a 0 ≤ get_or l b 0
IsSorted-get [] a b s h k = absurd (omega arith)
IsSorted-get (x ∷ l) zero zero s h k = omega arith
IsSorted-get (x ∷ l) zero (suc b) s h k = IsLeast-get x l b s.0 (omega arith)
IsSorted-get (x ∷ l) (suc a) zero s h k = absurd (omega arith)
IsSorted-get (x ∷ l) (suc a) (suc b) s h k = IsSorted-get l a b s.1 (omega arith) (omega arith)

pub mem-get : (l : List ℕ) (i : ℕ) → i < length l → mem (get_or l i 0) l ≡ true
unfolding mem
mem-get [] i h = absurd (omega arith)
mem-get (x ∷ l) zero h = ground arith
mem-get (x ∷ l) (suc i) h = ground (arith, mem-get l i (omega arith))

pub get-of-mem :
    (l : List ℕ) (p : ℕ) → mem p l ≡ true → (i : ℕ) × (i < length l) × (get_or l i 0 ≡ p)
unfolding mem
get-of-mem [] p h = absurd (ground arith)
get-of-mem (x ∷ l) p h = elim (Bool-cases (x == p)) [
  | inl same ↦ (0, omega arith, ground arith)
  | inr other ↦ let (i, lt, e) = get-of-mem l p (ground arith) in (suc i, omega arith, e)
]

-- How far clockwise the point lies from the hash.
abbrev pub clockwise : ℕ → ℕ → ℕ
clockwise h p = (p + two32 - h) % two32

-- The point `p` of the list is the first one clockwise from `h`.
pub record IsNearest (h : ℕ) (points : List ℕ) (p : ℕ) : Type 0 where
  pub member : mem p points ≡ true
  pub nearest : (q : ℕ) → mem q points ≡ true → clockwise h p ≤ clockwise h q

module _ (h : ℕ) (points : List ℕ) (sorted : IsSorted points) (hash_bound : h < two32)
    (bound : (p : ℕ) → mem p points ≡ true → p < two32) (inhabited : 0 < length points) where
  abbrev reached : ℕ → Bool
  reached i = leb h (get_or points i 0)

  reached_monotone : (a b : ℕ) → a ≤ b → b < length points → reached a ≡ true → reached b ≡ true
  reached_monotone a b p q r = ground (arith, IsSorted-get points a b sorted p q)

  IsNearest-first :
      (k : ℕ)
      → IsFirst (length points) reached k
      → k < length points
      → IsNearest h points (get_or points k 0)
  IsNearest-first k f lt = record {
    member = mem-get points k lt;
    nearest = λ q m.
        let (i, il, e) = get-of-mem points q m in
        let pb = bound (get_or points k 0) (mem-get points k lt) in
        let qb = bound q m in
        let up : h ≤ get_or points k 0 = ground (arith, f.above lt) in
        elim (Bool-cases (ltb i k)) [
          | inl lo ↦ let down : q < h = ground (arith, f.below i (ground arith)) in omega arith
          | inr hi ↦
              let ki : k ≤ i = ground arith in
              let le = IsSorted-get points k i sorted ki il in omega arith
        ];
  }

  IsNearest-wrapped :
      (k : ℕ)
      → IsFirst (length points) reached k
      → k ≡ length points
      → IsNearest h points (get_or points 0 0)
  IsNearest-wrapped k f end = record {
    member = mem-get points 0 inhabited;
    nearest = λ q m.
        let (i, il, e) = get-of-mem points q m in
        let down : q < h = ground (arith, f.below i (omega arith)) in
        let le = IsSorted-get points 0 i sorted (omega arith) il in omega arith;
  }

  IsNearest-index :
      (k : ℕ)
      → IsFirst (length points) reached k
      → let i = if k == length points then 0 else k in
        (i < length points) × IsNearest h points (get_or points i 0)
  IsNearest-index k f = elim (Bool-cases (k == length points)) [
    | inl end ↦ rw end (inhabited, IsNearest-wrapped k f (ground arith))
    | inr inner ↦
        let lt : k < length points = ground (arith, f.within) in
        rw inner (lt, IsNearest-first k f lt)
  ]

-- The binary search with its wrap to the first point finds the nearest point clockwise.
pub point_index-IsNearest :
    (sha256 : String → List ℕ) (key : String) (points : List ℕ)
    → IsSorted points
    → hash sha256 key < two32
    → ((p : ℕ) → mem p points ≡ true → p < two32)
    → 0 < length points
    → (point_index sha256 key points < length points)
      × IsNearest (hash sha256 key) points (get_or points (point_index sha256 key points) 0)
unfolding point_index
point_index-IsNearest sha256 key points sorted hash_bound bound inhabited =
    IsNearest-index (hash sha256 key) points sorted hash_bound bound inhabited
      (search (length points) (reached (hash sha256 key) points sorted hash_bound bound inhabited))
      (search-IsFirst (length points)
        (reached (hash sha256 key) points sorted hash_bound bound inhabited)
        (reached_monotone (hash sha256 key) points sorted hash_bound bound inhabited))

pub length-pos : (p : ℕ) (l : List ℕ) → mem p l ≡ true → 0 < length l
unfolding mem
length-pos p [] h = absurd (ground arith)
length-pos p (q ∷ l) h = omega arith

-- Two nearest points that lie in each other's list are one.
pub IsNearest-unique :
    (h p q : ℕ) (l l' : List ℕ)
    → h < two32
    → p < two32
    → q < two32
    → IsNearest h l p
    → IsNearest h l' q
    → mem q l ≡ true
    → mem p l' ≡ true
    → p ≡ q
IsNearest-unique h p q l l' hb pb qb n n' mq mp = omega (arith, n.nearest q mq, n'.nearest p mp)
