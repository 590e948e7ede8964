-- ===== src/Ring/Search.antt =====
-- Go's `sort.Search`, the binary search that internal/ring/ring.go calls: on a test that stays true
-- once it is true, it finds the first index at which the test holds.
use self_healing_distributed.Prelude.{
  ℕ, zero, suc, ◌+◌, ◌-◌, ◌/◌, ◌≤◌, ◌<◌, ◌≡◌, refl, subst, Bool, true, false, arith, ltb,
  Bool-cases, inl, inr,
}

search_loop : ℕ → ℕ → ℕ → (ℕ → Bool) → ℕ
search_loop zero i j f = i
search_loop (suc fuel) i j f = elim (ltb i j) [
  | false ↦ i
  | true ↦
      let h = (i + j) / 2 in
      elim (f h) [ false ↦ search_loop fuel (h + 1) j f | true ↦ search_loop fuel i h f ]
]

unfoldable pub search : ℕ → (ℕ → Bool) → ℕ
unfolding search_loop
search n f = search_loop n 0 n f

search_loop-done : (fuel i j : ℕ) (f : ℕ → Bool) → ltb i j ≡ false → search_loop fuel i j f ≡ i
unfolding search_loop
search_loop-done zero i j f h = refl
search_loop-done (suc fuel) i j f h = ground arith

search_loop-left :
    (fuel i j : ℕ) (f : ℕ → Bool)
    → ltb i j ≡ true
    → f ((i + j) / 2) ≡ true
    → search_loop (suc fuel) i j f ≡ search_loop fuel i ((i + j) / 2) f
unfolding search_loop
search_loop-left fuel i j f h p = ground arith

search_loop-right :
    (fuel i j : ℕ) (f : ℕ → Bool)
    → ltb i j ≡ true
    → f ((i + j) / 2) ≡ false
    → search_loop (suc fuel) i j f ≡ search_loop fuel ((i + j) / 2 + 1) j f
unfolding search_loop
search_loop-right fuel i j f h p = ground arith

-- What a search in a range of `n` finds.
pub record IsFirst (n : ℕ) (f : ℕ → Bool) (k : ℕ) : Type 0 where
  pub within : k ≤ n
  pub below : (i : ℕ) → i < k → f i ≡ false
  pub above : k < n → f k ≡ true

module _ (n : ℕ) (f : ℕ → Bool)
    (monotone : (a b : ℕ) → a ≤ b → b < n → f a ≡ true → f b ≡ true) where
  -- An empty range ends the search.
  ended :
      (i j : ℕ)
      → i ≤ j
      → j ≤ n
      → j ≤ i
      → ((a : ℕ) → a < i → f a ≡ false)
      → (j < n → f j ≡ true)
      → IsFirst n f i
  ended i j p q r lo hi =
      let e : j ≡ i = omega arith in
      record {
        within = omega arith;
        below = lo;
        above = λ lt. subst (λ k. f k ≡ true) e (hi (omega arith));
      }

  -- Below an index at which the test fails it fails.
  before : (h : ℕ) → f h ≡ false → (a : ℕ) → a ≤ h → h < n → f a ≡ false
  before h no_h a p q = elim (Bool-cases (f a)) [
    | inl yes_a ↦ absurd (cc (monotone a h p q yes_a))
    | inr no_a ↦ no_a
  ]

  search_loop-IsFirst :
      (fuel i j : ℕ)
      → i ≤ j
      → j ≤ n
      → j - i ≤ fuel
      → ((a : ℕ) → a < i → f a ≡ false)
      → (j < n → f j ≡ true)
      → IsFirst n f (search_loop fuel i j f)
  search_loop-IsFirst zero i j p q r lo hi =
      rw (search_loop-done 0 i j f (ground arith)) (ended i j p q (omega arith) lo hi)
  search_loop-IsFirst (suc fuel) i j p q r lo hi = elim (Bool-cases (ltb i j)) [
    | inr done ↦ rw (search_loop-done (suc fuel) i j f done) (ended i j p q (ground arith) lo hi)
    | inl more ↦
        let h = (i + j) / 2 in
        let ij : i < j = ground arith in
        elim (Bool-cases (f h)) [
          | inl yes_h ↦ rw (search_loop-left fuel i j f more yes_h) (
              search_loop-IsFirst fuel i h (omega arith) (omega arith) (omega arith) lo
                (λ _. yes_h))
          | inr no_h ↦ rw (search_loop-right fuel i j f more no_h) (
              search_loop-IsFirst fuel (h + 1) j (omega arith) q (omega arith)
                (λ a lt. before h no_h a (omega arith) (omega arith)) hi)
        ]
  ]

  -- `sort.Search` finds the first index at which the test holds, `n` if there is none.
  pub search-IsFirst : IsFirst n f (search n f)
  unfolding search
  search-IsFirst =
      search_loop-IsFirst n 0 n (omega arith) (omega arith) (omega arith)
        (λ a h. absurd (omega arith)) (λ h. absurd (omega arith))
