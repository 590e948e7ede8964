-- ===== src/Store/Eviction.antt =====
-- The loop of `evictIfNeeded` in internal/store/store.go: its rounds as equations, and its
-- induction.
use self_healing_distributed.Prelude.{
  ℕ, zero, suc, ◌≡◌, refl, sym, subst, String, true, false, Option, none, some, arith, Bool-cases,
  Option-cases, inl, inr, length,
}
use self_healing_distributed.Prelude.Int64.{slt, sle}
use self_healing_distributed.Store.{
  Elements, Store, evict_back, evict_loop, evict_if_listed, evict_if_needed, back_of,
}

pub evict_loop-zero : (s : Store) → evict_loop 0 s ≡ s
unfolding evict_loop
evict_loop-zero s = refl

pub evict_loop-fits :
    (fuel : ℕ) (s : Store) → slt s.mem_cap s.current_mem ≡ false → evict_loop fuel s ≡ s
unfolding evict_loop
evict_loop-fits zero s h = refl
evict_loop-fits (suc fuel) s h = ground arith

pub evict_loop-empty : (fuel : ℕ) (s : Store) → back_of s.lru_list ≡ none → evict_loop fuel s ≡ s
unfolding evict_loop
evict_loop-empty zero s h = refl
evict_loop-empty (suc fuel) s h = ground arith

pub evict_loop-round :
    (fuel : ℕ) (s : Store) (id : ℕ) (key : String)
    → slt s.mem_cap s.current_mem ≡ true
    → back_of s.lru_list ≡ some (id, key)
    → evict_loop (suc fuel) s ≡ evict_loop fuel (evict_back id key s)
unfolding evict_loop
evict_loop-round fuel s id key h p = ground arith

-- What every round of the eviction keeps, the eviction keeps.
module _ {ℓ} (P : Store → Type ℓ)
    (keep : (s : Store) (id : ℕ) (key : String)
      → P s
      → slt s.mem_cap s.current_mem ≡ true
      → back_of s.lru_list ≡ some (id, key)
      → P (evict_back id key s)) where
  pub evict_loop_induction : (fuel : ℕ) (s : Store) → P s → P (evict_loop fuel s)
  evict_loop_induction zero s h = subst P (sym (evict_loop-zero s)) h
  evict_loop_induction (suc fuel) s h = elim (Bool-cases (slt s.mem_cap s.current_mem)) [
    | inl over ↦ elim (Option-cases (back_of s.lru_list)) [
      | inl gone ↦ subst P (sym (evict_loop-empty (suc fuel) s gone)) h
      | inr ((id, key), p) ↦
          subst P (sym (evict_loop-round fuel s id key over p))
            (evict_loop_induction fuel (evict_back id key s) (keep s id key h over p))
    ]
    | inr fits ↦ subst P (sym (evict_loop-fits (suc fuel) s fits)) h
  ]

  evict_if_listed_induction : (o : Option Elements) (s : Store) → P s → P (evict_if_listed o s)
  unfolding evict_if_listed
  evict_if_listed_induction none s h = h
  evict_if_listed_induction (some l) s h = evict_loop_induction (suc (length l)) s h

  pub evict_if_needed_induction : (s : Store) → P s → P (evict_if_needed s)
  unfolding evict_if_needed
  evict_if_needed_induction s h = elim (Bool-cases (sle s.mem_cap 0)) [
    | inl off ↦ rw off h
    | inr on ↦ rw on (evict_if_listed_induction s.lru_list s h)
  ]

-- With a cap and a list, `evictIfNeeded` is the loop.
pub evict_if_needed-loop :
    (s : Store) (l : Elements)
    → s.lru_list ≡ some l
    → sle s.mem_cap 0 ≡ false
    → evict_if_needed s ≡ evict_loop (suc (length l)) s
unfolding evict_if_needed evict_if_listed
evict_if_needed-loop s l p on =
    rw on (subst (λ o. evict_if_listed o s ≡ evict_loop (suc (length l)) s) (sym p) refl)

-- Without a cap or without a list, nothing is evicted.
pub evict_if_needed-off : (s : Store) → sle s.mem_cap 0 ≡ true → evict_if_needed s ≡ s
unfolding evict_if_needed
evict_if_needed-off s off = rw off

pub evict_if_needed-unlisted : (s : Store) → s.lru_list ≡ none → evict_if_needed s ≡ s
unfolding evict_if_needed evict_if_listed
evict_if_needed-unlisted s p = elim (Bool-cases (sle s.mem_cap 0)) [
  | inl off ↦ rw off
  | inr on ↦ rw on (subst (λ o. evict_if_listed o s ≡ s) (sym p) refl)
]
