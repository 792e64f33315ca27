-- ===== src/Percent.antt =====
-- Coverage in per cent, as the code computes it: `covered / total * 100` on double floats. A float
-- is a pair of naturals, `m` over two to the power `e`.
use smart_executor.Prelude.{
  ℕ, zero, suc, ◌+◌, ◌*◌, ◌/◌, ◌%◌, ◌^◌, ◌≡◌, refl, Bool, true, false, ltb, leb, if◌then◌else◌,
  nat_eq, list_eq,
}

abbrev pub Float : Type 0
Float = ℕ × ℕ

-- The first exponent that gives the quotient 53 bits, from `e` on. The fuel is the range of the
-- exponents of a double.
unfoldable pub exponent : ℕ → ℕ → ℕ → ℕ → ℕ
exponent zero e n d = e
exponent (suc fuel) e n d = elim (leb (2 ^ 52) (n * 2 ^ e / d)) [
  | true ↦ e
  | false ↦ exponent fuel (suc e) n d
]

-- A quotient with its remainder `r`, rounded to the nearest, and to the even one of two.
unfoldable pub round_half_even : ℕ → ℕ → ℕ → ℕ
round_half_even q r d = if ltb (2 * r) d then q else (if ltb d (2 * r) then q + 1 else q + q % 2)

-- The float nearest to the quotient of two naturals.
unfoldable pub quotient_float : ℕ → ℕ → Float
unfolding exponent round_half_even
quotient_float zero d = (0, 0)
quotient_float (suc n) d =
    let e = exponent 1075 0 (suc n) d in
    (round_half_even (suc n * 2 ^ e / d) (suc n * 2 ^ e % d) d, e)

unfoldable pub percent : ℕ → ℕ → Float
unfolding quotient_float
percent covered total =
    let (m, e) = quotient_float covered total in quotient_float (m * 100) (2 ^ e)

-- The float is less than the number.
unfoldable pub less_than : Float → ℕ → Bool
less_than (m, e) n = ltb m (n * 2 ^ e)

-- The first float is at most the second.
unfoldable pub at_most : Float → Float → Bool
at_most (m, e) (m', e') = leb (m * 2 ^ e') (m' * 2 ^ e)

-- 57 of 100 are below 57 per cent in floats, and 1 of 2 is 50 per cent.
below_57 : less_than (percent 57 100) 57 ≡ true
unfolding less_than percent
below_57 = refl

half : less_than (percent 1 2) 50 ≡ false
unfolding less_than percent
half = refl

all : less_than (percent 7 7) 100 ≡ false
unfolding less_than percent
all = refl
