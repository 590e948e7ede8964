-- ===== src/Text/Decimals.antt =====
-- A decimal number has no byte but digits, so that it can stand as a port.
use Prim.Native.Char.{code}
use Prim.Native.String.{◌++◌}
use text.Mathlib.TextLemmas.{nil-append, cons-append}
use self_healing_distributed.Prelude.{
  ℕ, zero, suc, ◌/◌, ◌%◌, ◌≡◌, refl, String, Bool, true, false, ◌||◌, ◌&&◌, not, List, [], ◌∷◌,
  arith, get_or, ltb, Bool-cases, inl, inr, ◌==◌, nat_key,
}
use self_healing_distributed.Text.{
  contains, colon, open_bracket, close_bracket, digits, digit, itoa_loop, itoa,
}

-- No byte that `net.SplitHostPort` looks for.
pub record IsClear (s : String) : Type 0 where
  pub colons : contains colon s ≡ false
  pub opens : contains open_bracket s ≡ false
  pub closes : contains close_bracket s ≡ false

contains-append :
    (b : ℕ) (s t : String)
    → contains b s ≡ false
    → contains b t ≡ false
    → contains b (s ++ t) ≡ false
unfolding contains
contains-append b String.[] t h k = rw (nil-append t) k
contains-append b (String.◌∷◌ c s) t h k =
    let head : (code c == b) ≡ false = ground arith in
    rw (cons-append c s t) (rw (head, contains) (contains-append b s t (ground arith) k))

pub append-IsClear : (s t : String) → IsClear s → IsClear t → IsClear (s ++ t)
append-IsClear s t a b = record {
  colons = contains-append colon s t a.colons b.colons;
  opens = contains-append open_bracket s t a.opens b.opens;
  closes = contains-append close_bracket s t a.closes b.closes;
}

all_clear : List String → Bool
all_clear [] = true
all_clear (s ∷ l) =
    not (contains colon s || contains open_bracket s || contains close_bracket s) && all_clear l

get_or-IsClear : (l : List String) (i : ℕ) → all_clear l ≡ true → IsClear (get_or l i "")
unfolding all_clear contains
get_or-IsClear [] i a = record { colons = refl; opens = refl; closes = refl }
get_or-IsClear (s ∷ l) zero a = record {
  colons = ground arith;
  opens = ground arith;
  closes = ground arith;
}
get_or-IsClear (s ∷ l) (suc i) a = get_or-IsClear l i (ground arith)

digit-IsClear : (d : ℕ) → IsClear (digit d)
unfolding digit all_clear contains
digit-IsClear d = get_or-IsClear digits d refl

itoa_loop-IsClear : (fuel n : ℕ) → IsClear (itoa_loop fuel n)
unfolding itoa_loop contains
itoa_loop-IsClear zero n = record { colons = refl; opens = refl; closes = refl }
itoa_loop-IsClear (suc fuel) n = elim (Bool-cases (ltb n 10)) [
  | inl small ↦ rw (small, itoa_loop) (digit-IsClear n)
  | inr large ↦
      rw (large, itoa_loop)
        (append-IsClear _ _ (itoa_loop-IsClear fuel (n / 10)) (digit-IsClear (n % 10)))
]

pub itoa-IsClear : (n : ℕ) → IsClear (itoa n)
unfolding itoa
itoa-IsClear n = itoa_loop-IsClear (suc n) n
