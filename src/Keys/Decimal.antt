-- ===== src/Keys/Decimal.antt =====
-- `str(index)` for a natural number.
use smart_executor.Prelude.{
  ℕ, zero, suc, ◌+◌, ◌-◌, ◌*◌, ◌/◌, ◌%◌, ◌<◌, ◌≡◌, refl, List, [], ◌∷◌, ◌++◌, false, contains,
  arith, ltb, if◌then◌else◌, contains-append, sym, ◌∙◌, ap, nat_eq, Bool-cases, inl, inr,
}

digits : ℕ → ℕ → List ℕ
digits zero n = []
digits (suc fuel) n =
    let front = digits fuel (n / 10) in
    if ltb n 10 then (48 + n) ∷ [] else front ++ (48 + n % 10) ∷ []

-- `n + 1` rounds are enough, since each divides by ten.
unfoldable pub decimal : ℕ → List ℕ
unfolding digits
decimal n = digits (suc n) n

value_from : ℕ → List ℕ → ℕ
value_from acc [] = acc
value_from acc (c ∷ cs) = value_from (acc * 10 + (c - 48)) cs

value_from-append :
    (acc : ℕ) (xs ys : List ℕ) → value_from acc (xs ++ ys) ≡ value_from (value_from acc xs) ys
unfolding value_from
value_from-append acc [] ys = refl
value_from-append acc (x ∷ xs) ys = value_from-append (acc * 10 + (x - 48)) xs ys

value_from-digits : (fuel n : ℕ) → n < fuel → value_from 0 (digits fuel n) ≡ n
unfolding value_from digits
value_from-digits zero n h = elim h [ ]
value_from-digits (suc fuel) n h = elim (Bool-cases (ltb n 10)) [
  | inl small ↦ rw small (omega arith)
  | inr large ↦
      rw (large, value_from-append 0 (digits fuel (n / 10)) ((48 + n % 10) ∷ []))
        (ground (arith, value_from-digits fuel (n / 10)))
]

pub decimal_injective : (m n : ℕ) → decimal m ≡ decimal n → m ≡ n
unfolding decimal
decimal_injective m n h =
    sym (value_from-digits (suc m) m (omega arith))
    ∙ ap (value_from 0) h
    ∙ value_from-digits (suc n) n (omega arith)

not-contains-digits : (c : ℕ) → c < 48 → (fuel n : ℕ) → contains (digits fuel n) c ≡ false
unfolding digits contains
not-contains-digits c low zero n = refl
not-contains-digits c low (suc fuel) n = ground (
  arith,
  not-contains-digits c low fuel (n / 10),
  contains-append (digits fuel (n / 10)) ((48 + n % 10) ∷ []) c,
)

-- The decimal digits of a number hold no character below `0`.
pub not-contains-decimal : (c n : ℕ) → c < 48 → contains (decimal n) c ≡ false
unfolding decimal
not-contains-decimal c n low = not-contains-digits c low (suc n) n
