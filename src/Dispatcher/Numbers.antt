-- ===== src/Dispatcher/Numbers.antt =====
-- `get_back_functin_signature` and `get_address_from_argument` in
-- fdg/instruction_modification.py: the text and the number of the bytes of a `PUSH`.
use smart_executor.Prelude.{
  ◌==◌, ℕ, zero, suc, ◌+◌, ◌*◌, ◌/◌, ◌%◌, ◌^◌, List, [], ◌∷◌, ◌++◌, ltb, if◌then◌else◌, codes,
  length, nat_eq, list_eq,
}

-- `hex(item)[2:]`, the digits of a natural number. Each round divides by sixteen, so that `n + 1`
-- rounds are enough.
hex_digit : ℕ → ℕ
hex_digit d = if ltb d 10 then 48 + d else 87 + d

hex_digits : ℕ → ℕ → List ℕ
unfolding hex_digit
hex_digits zero n = []
hex_digits (suc fuel) n =
    let front = hex_digits fuel (n / 16) in
    if ltb n 16 then hex_digit n ∷ [] else front ++ hex_digit (n % 16) ∷ []

unfoldable pub hex : ℕ → List ℕ
unfolding hex_digits
hex n = hex_digits (suc n) n

-- `v if len(v)==2 else '0'+v`
unfoldable pub hex_byte : ℕ → List ℕ
unfolding hex
hex_byte item = let v = hex item in if length v == 2 then v else 48 ∷ v

unfoldable pub signature_from : List ℕ → List ℕ → List ℕ
unfolding hex_byte
signature_from key [] = key
signature_from key (item ∷ items) = signature_from (key ++ hex_byte item) items

unfoldable pub get_back_functin_signature : List ℕ → List ℕ
unfolding signature_from
get_back_functin_signature byte_tuple =
    signature_from (if length byte_tuple == 3 then codes "0x" ++ codes "00" else codes "0x")
      byte_tuple

-- The loop, with `value` and `exp`
unfoldable pub address_from : ℕ → ℕ → List ℕ → ℕ
address_from value exp [] = value
address_from value exp (item ∷ items) = address_from (value + item * 256 ^ exp) (suc exp) items

unfoldable pub reversed {ℓ} : {A : Type ℓ} → List A → List A
reversed [] = []
reversed (x ∷ xs) = reversed xs ++ x ∷ []

unfoldable pub get_address_from_argument : List ℕ → ℕ
unfolding address_from reversed
get_address_from_argument int_tuple = address_from 0 0 (reversed int_tuple)
