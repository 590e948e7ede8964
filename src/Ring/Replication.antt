-- ===== src/Ring/Replication.antt =====
-- The nodes that `Replicas` of internal/ring/ring.go chooses.
use native.Mathlib.Decide.{ℕ_discrete}
use self_healing_distributed.Prelude.{
  ℕ, zero, suc, ◌+◌, ◌≤◌, ◌<◌, ◌≡◌, refl, subst, sym, ◌∙◌, String, true, false, ◌||◌, some, List,
  [], ◌∷◌, ◌++◌, arith, map, length, length-append, leb, ◌==◌, nat_key, string_key, Bool-cases, inl,
  inr,
}
use self_healing_distributed.Prelude.Map.{Map, lookup}
use self_healing_distributed.Ring.{Node, seen_in, collect, node_at}

abbrev pub ids : List Node → List String
ids = map (λ n. n.id)

-- No identity stands twice.
abbrev pub IsUnique : List String → Type 0
IsUnique [] = Unit
IsUnique (x ∷ xs) = (seen_in x xs ≡ false) × IsUnique xs

-- Each node of the list is the one that is registered under its identity.
abbrev pub AllRegistered : Map String Node → List Node → Type 0
AllRegistered nodes [] = Unit
AllRegistered nodes (n ∷ l) = (lookup n.id nodes ≡ some n) × AllRegistered nodes l

AllRegistered-append :
    (nodes : Map String Node) (l : List Node) (n : Node)
    → AllRegistered nodes l
    → lookup n.id nodes ≡ some n
    → AllRegistered nodes (l ++ n ∷ [])
AllRegistered-append nodes [] n a h = (h, tt)
AllRegistered-append nodes (m ∷ l) n a h = (a.0, AllRegistered-append nodes l n a.1 h)

seen_in-append :
    (x y : String) (l : List Node) (n : Node)
    → n.id ≡ y
    → seen_in x (ids (l ++ n ∷ [])) ≡ (seen_in x (ids l) || y == x)
unfolding seen_in
seen_in-append x y [] n e = ground arith
seen_in-append x y (m ∷ l) n e = ground (arith, seen_in-append x y l n e)

IsUnique-append :
    (l : List Node) (n : Node)
    → IsUnique (ids l)
    → seen_in n.id (ids l) ≡ false
    → IsUnique (ids (l ++ n ∷ []))
unfolding seen_in
IsUnique-append [] n u h = (refl, tt)
IsUnique-append (m ∷ l) n u h = (
  ground (
    arith,
    seen_in-append m.id n.id l n refl,
    string_key.equals_iff n.id m.id,
    string_key.equals_iff m.id n.id,
  ),
  IsUnique-append l n u.1 (ground arith),
)

module _ (at : ℕ → String) (nodes : Map String Node) (wanted : ℕ) (primary : String)
    (named : (i : ℕ) → (node_at (at i) nodes).id ≡ at i)
    (registered : (i : ℕ) → lookup (at i) nodes ≡ some (node_at (at i) nodes)) where
  -- The choice so far: the primary and the replicas are distinct, and are what has been seen.
  pub record IsChoice (seen : List String) (chosen : List Node) : Type 0 where
    pub unique : IsUnique (primary ∷ ids chosen)
    pub same : (x : String) → seen_in x seen ≡ seen_in x (primary ∷ ids chosen)
    pub room : length chosen < wanted
    pub all : AllRegistered nodes chosen

  -- The choice at the end, from `chosen` on over the rounds from `i`: it is distinct and not too
  -- large, and one that is too small has every identity of the rounds.
  pub record IsOutcome (i rounds : ℕ) (chosen result : List Node) : Type 0 where
    pub unique : IsUnique (primary ∷ ids result)
    pub bound : length result ≤ wanted
    pub all : AllRegistered nodes result
    pub grows :
        (x : String)
        → seen_in x (primary ∷ ids chosen) ≡ true
        → seen_in x (primary ∷ ids result) ≡ true
    pub complete :
        length result < wanted
        → (j : ℕ) → i ≤ j
        → j < i + rounds
        → seen_in (at j) (primary ∷ ids result) ≡ true

  abbrev next : ℕ → List Node → List Node
  next i chosen = chosen ++ node_at (at i) nodes ∷ []

  IsUnique-next :
      (i : ℕ) (seen : List String) (chosen : List Node)
      → IsChoice seen chosen
      → seen_in (at i) seen ≡ false
      → IsUnique (primary ∷ ids (next i chosen))
  unfolding seen_in
  IsUnique-next i seen chosen c h =
      let s = c.same (at i) in
      let a = seen_in-append primary (at i) chosen (node_at (at i) nodes) (named i) in
      (
        ground (
          arith,
          c.unique.0,
          string_key.equals_iff primary (at i),
          string_key.equals_iff (at i) primary,
        ),
        IsUnique-append chosen (node_at (at i) nodes) c.unique.1 (rw (named i) (ground arith)),
      )

  seen-next :
      (i : ℕ) (x : String) (chosen : List Node)
      → seen_in x (primary ∷ ids (next i chosen)) ≡ (at i == x || seen_in x (primary ∷ ids chosen))
  unfolding seen_in
  seen-next i x chosen =
      ground (arith, seen_in-append x (at i) chosen (node_at (at i) nodes) (named i))

  collect-seen :
      (rounds i : ℕ) (seen : List String) (chosen : List Node)
      → seen_in (at i) seen ≡ true
      → collect at nodes wanted (suc rounds) i seen chosen
        ≡ collect at nodes wanted rounds (i + 1) seen chosen
  unfolding collect
  collect-seen rounds i seen chosen h = ground arith

  collect-full :
      (rounds i : ℕ) (seen : List String) (chosen : List Node)
      → seen_in (at i) seen ≡ false
      → leb wanted (length chosen + 1) ≡ true
      → collect at nodes wanted (suc rounds) i seen chosen ≡ next i chosen
  unfolding collect
  collect-full rounds i seen chosen h k = ground arith

  collect-more :
      (rounds i : ℕ) (seen : List String) (chosen : List Node)
      → seen_in (at i) seen ≡ false
      → leb wanted (length chosen + 1) ≡ false
      → collect at nodes wanted (suc rounds) i seen chosen
        ≡ collect at nodes wanted rounds (i + 1) (at i ∷ seen) (next i chosen)
  unfolding collect
  collect-more rounds i seen chosen h k = ground arith

  -- One more round in front, whose identity the choice has at its end.
  IsOutcome-later :
      (i rounds : ℕ) (chosen later result : List Node)
      → ((x : String)
          → seen_in x (primary ∷ ids chosen) ≡ true
          → seen_in x (primary ∷ ids later) ≡ true)
      → seen_in (at i) (primary ∷ ids later) ≡ true
      → IsOutcome (i + 1) rounds later result
      → IsOutcome i (suc rounds) chosen result
  IsOutcome-later i rounds chosen later result up this o = record {
    unique = o.unique;
    bound = o.bound;
    all = o.all;
    grows = λ x h. o.grows x (up x h);
    complete = λ small j lo hi. elim (ℕ_discrete i j) [
      | yes e ↦ subst (λ k. seen_in (at k) (primary ∷ ids result) ≡ true) e (o.grows (at i) this)
      | no ne ↦ o.complete small j (omega arith) (omega arith)
    ];
  }

  grown :
      (i : ℕ) (chosen : List Node) (x : String)
      → seen_in x (primary ∷ ids chosen) ≡ true
      → seen_in x (primary ∷ ids (next i chosen)) ≡ true
  grown i chosen x h = ground (arith, seen-next i x chosen)

  own : (i : ℕ) (chosen : List Node) → seen_in (at i) (primary ∷ ids (next i chosen)) ≡ true
  own i chosen = ground (arith, seen-next i (at i) chosen, string_key.equals_iff (at i) (at i))

  length-next : (i : ℕ) (chosen : List Node) → length (next i chosen) ≡ length chosen + 1
  length-next i chosen = omega (arith, length-append chosen (node_at (at i) nodes ∷ []))

  all-next :
      (i : ℕ) (chosen : List Node)
      → AllRegistered nodes chosen
      → AllRegistered nodes (next i chosen)
  all-next i chosen a =
      AllRegistered-append nodes chosen (node_at (at i) nodes) a
        (subst (λ k. lookup k nodes ≡ some (node_at (at i) nodes)) (sym (named i)) (registered i))

  IsChoice-next :
      (i : ℕ) (seen : List String) (chosen : List Node)
      → IsChoice seen chosen
      → seen_in (at i) seen ≡ false
      → leb wanted (length chosen + 1) ≡ false
      → IsChoice (at i ∷ seen) (next i chosen)
  IsChoice-next i seen chosen c fresh more = record {
    unique = IsUnique-next i seen chosen c fresh;
    same = λ x. unfold seen_in in ground (arith, seen-next i x chosen, c.same x);
    room = ground (arith, length-next i chosen);
    all = all-next i chosen c.all;
  }

  full-IsOutcome :
      (i rounds : ℕ) (seen : List String) (chosen : List Node)
      → IsChoice seen chosen
      → seen_in (at i) seen ≡ false
      → leb wanted (length chosen + 1) ≡ true
      → IsOutcome i (suc rounds) chosen (next i chosen)
  full-IsOutcome i rounds seen chosen c fresh full = record {
    unique = IsUnique-next i seen chosen c fresh;
    bound = omega (arith, c.room, length-next i chosen);
    all = all-next i chosen c.all;
    grows = grown i chosen;
    complete = λ small j lo hi. absurd (ground (arith, length-next i chosen));
  }

  -- The choice at the end is an outcome of the choice so far.
  pub collect-IsOutcome :
      (rounds i : ℕ) (seen : List String) (chosen : List Node)
      → IsChoice seen chosen
      → IsOutcome i rounds chosen (collect at nodes wanted rounds i seen chosen)
  collect-IsOutcome zero i seen chosen c = record {
    unique = unfold collect in c.unique;
    bound = let le : length chosen ≤ wanted = omega (arith, c.room) in unfold collect in le;
    all = unfold collect in c.all;
    grows = λ x h. unfold collect in h;
    complete = λ small j lo hi. absurd (omega arith);
  }
  collect-IsOutcome (suc rounds) i seen chosen c = elim (Bool-cases (seen_in (at i) seen)) [
    | inl old ↦
        subst (IsOutcome i (suc rounds) chosen) (sym (collect-seen rounds i seen chosen old)) (
          IsOutcome-later i rounds chosen chosen _ (λ x h. h) (sym (c.same (at i)) ∙ old)
            (collect-IsOutcome rounds (i + 1) seen chosen c))
    | inr fresh ↦ elim (Bool-cases (leb wanted (length chosen + 1))) [
      | inl full ↦
          subst (IsOutcome i (suc rounds) chosen)
            (sym (collect-full rounds i seen chosen fresh full))
            (full-IsOutcome i rounds seen chosen c fresh full)
      | inr more ↦
          subst (IsOutcome i (suc rounds) chosen)
            (sym (collect-more rounds i seen chosen fresh more))
            (IsOutcome-later i rounds chosen (next i chosen) _ (grown i chosen) (own i chosen) (
              collect-IsOutcome rounds (i + 1) (at i ∷ seen) (next i chosen)
                (IsChoice-next i seen chosen c fresh more)))
    ]
  ]
