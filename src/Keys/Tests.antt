-- ===== src/Keys/Tests.antt =====
-- Runs of the key functions, and the instances of the theorems about them.
use smart_executor.Keys.{Name, get_key_1, get_key_1_prefix, get_ftn_seq_from_key_1, get_key}
use smart_executor.Keys.RoundTrip.{
  AreNames, get_ftn_seq_from_key_1-get_key_1, get_key_1_prefix-get_key_1,
}
use smart_executor.Prelude.{contains, List, [], ◌∷◌, codes, ◌≡◌, refl, some, nat_eq, list_eq}

abbrev pub mint_burn : List Name
mint_burn = codes "mint()" ∷ codes "burn()" ∷ []

get_key_1-mint_burn : get_key_1 mint_burn 12 ≡ codes "mint()#burn()#12"
unfolding get_key_1
get_key_1-mint_burn = refl

get_ftn_seq-mint_burn : get_ftn_seq_from_key_1 (codes "mint()#burn()#12") ≡ mint_burn
unfolding get_ftn_seq_from_key_1
get_ftn_seq-mint_burn = refl

prefix-mint_burn : get_key_1_prefix (codes "mint()#burn()#12") ≡ some (codes "mint()#burn()")
unfolding get_key_1_prefix
prefix-mint_burn = refl

mint_burn-AreNames : AreNames mint_burn
unfolding contains
mint_burn-AreNames = (refl, (refl, tt))

get_ftn_seq_from_key_1-get_key_1_example :
    get_ftn_seq_from_key_1 (get_key_1 mint_burn 12) ≡ mint_burn
get_ftn_seq_from_key_1-get_key_1_example =
    get_ftn_seq_from_key_1-get_key_1 (codes "mint()") (codes "burn()" ∷ []) 12 mint_burn-AreNames

get_key_1_prefix-get_key_1_example :
    get_key_1_prefix (get_key_1 mint_burn 12) ≡ some (get_key mint_burn)
get_key_1_prefix-get_key_1_example =
    get_key_1_prefix-get_key_1 (codes "mint()") (codes "burn()" ∷ []) 12
