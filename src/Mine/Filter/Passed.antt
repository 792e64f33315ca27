-- ===== src/Mine/Filter/Passed.antt =====
-- The keys of `filter_states` that are passed over, by their text.
use smart_executor.Prelude.{
  ◌==◌, contains, ℕ, zero, suc, ◌+◌, ◌-◌, ◌≡◌, refl, ap, ◌∙◌, ◌↔◌, ◌⊎◌, inl, inr, true, [], ◌∷◌,
  ◌++◌, arith, Bool-cases, codes, length, take, drop, length-append, nat_eq, list_eq,
}
use smart_executor.Assign.{fallback}
use smart_executor.Keys.{name_iff, hash, Name}
use smart_executor.Mine.{ends_with, is_fallback_run, starts_with}

-- The text starts with the first one, or ends with it.
abbrev pub BeginsWith : Name → Name → Type 0
BeginsWith prefix text = (m : Name) × (text ≡ prefix ++ m)

abbrev pub EndsWith : Name → Name → Type 0
EndsWith suffix text = (m : Name) × (text ≡ m ++ suffix)

-- Of several functions, of which the first text starts and the last one ends with `fallback`; or of
-- which the last two are `fallback`, where the first of the two may have more in front of it.
abbrev pub IsPassedOver : Name → Type 0
IsPassedOver text =
    (contains text hash ≡ true)
    × ((BeginsWith fallback text × EndsWith fallback text)
        ⊎ EndsWith (codes "fallback#fallback") text)

take-drop : (n : ℕ) (xs : Name) → xs ≡ take n xs ++ drop n xs
take-drop zero xs = refl
take-drop (suc n) [] = refl
take-drop (suc n) (x ∷ xs) = ap (◌∷◌ x) (take-drop n xs)

take-length_append : (xs ys : Name) → take (length xs) (xs ++ ys) ≡ xs
take-length_append [] ys = refl
take-length_append (x ∷ xs) ys = ap (◌∷◌ x) (take-length_append xs ys)

drop-length_append : (xs ys : Name) → drop (length xs) (xs ++ ys) ≡ ys
drop-length_append [] ys = refl
drop-length_append (x ∷ xs) ys = drop-length_append xs ys

starts_with_iff : (prefix text : Name) → (starts_with prefix text ≡ true) ↔ BeginsWith prefix text
unfolding starts_with
starts_with_iff prefix text = (
  λ h. (
    drop (length prefix) text,
    take-drop (length prefix) text
        ∙ ap (λ t. t ++ drop (length prefix) text)
            ((name_iff (take (length prefix) text) prefix).0 h),
  ),
  λ (m, e).
      (name_iff (take (length prefix) text) prefix).1
        (ap (take (length prefix)) e ∙ take-length_append prefix m),
)

ends_with_iff : (suffix text : Name) → (ends_with suffix text ≡ true) ↔ EndsWith suffix text
unfolding ends_with
ends_with_iff suffix text =
    let n = length text - length suffix in
    (
      λ h. (
        take n text,
        take-drop n text
            ∙ ap (λ t. take n text ++ t) ((name_iff (drop n text) suffix).0 (ground arith)),
      ),
      λ (m, e).
          let long : length text ≡ length m + length suffix =
            ap length e ∙ length-append m suffix in
          let short : n ≡ length m = omega arith in
          let ends : drop n text == suffix ≡ true =
            (name_iff (drop n text) suffix).1 (
              ap (λ k. drop k text) short ∙ ap (drop (length m)) e ∙ drop-length_append m suffix) in
          ground arith,
    )

pub is_fallback_run_iff : (text : Name) → (is_fallback_run text ≡ true) ↔ IsPassedOver text
unfolding is_fallback_run
is_fallback_run_iff text =
    let starts = starts_with_iff fallback text in
    let ends = ends_with_iff fallback text in
    let twice = ends_with_iff (codes "fallback#fallback") text in
    (
      λ h. (
        ground arith,
        elim (Bool-cases (ends_with (codes "fallback#fallback") text)) [
          | inl two ↦ inr (twice.0 two)
          | inr other ↦ inl (starts.0 (ground arith), ends.0 (ground arith))
        ],
      ),
      λ (several, passed). elim passed [
        | inl (s, e) ↦ let a = starts.1 s in let b = ends.1 e in ground arith
        | inr two ↦ let a = twice.1 two in ground arith
      ],
    )
