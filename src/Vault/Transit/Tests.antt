-- ===== src/Vault/Transit/Tests.antt =====
-- Ciphertexts in a document and base64, and the theorems at concrete inputs.
use dynamic_config_remote.Common.{
  ◌+◌, ◌≡◌, refl, List, [], ◌∷◌, some, Text, text, text_eq, split_at_text, strip_prefix,
  contains_text, All, arith,
}
use dynamic_config_remote.Vault.Transit.{ciphertexts, ciphertexts_in, unbase64}
use dynamic_config_remote.Vault.Transit.Base64.{base64, unbase64-base64}
use dynamic_config_remote.Vault.Transit.Runs.{Runs, kept_once}
use dynamic_config_remote.Vault.Transit.Found.{
  IsCiphertext, Distinct, ciphertexts-IsCiphertext, ciphertexts_in_fuel,
}

abbrev document : Text
document = text "{\"a\":\"vault:v1:Ab+/=\",\"b\":\"vault:v1:Ab+/=\",\"c\":\"vault:v2:x\"}"

each_is_listed_once : ciphertexts document ≡ text "vault:v1:Ab+/=" ∷ []
unfolding ciphertexts split_at_text strip_prefix text contains_text text_eq
each_is_listed_once = refl

ciphertexts-IsCiphertext_example :
    ((runs : List Text) × Runs document runs × (ciphertexts document ≡ kept_once [] runs))
    × All IsCiphertext (ciphertexts document)
    × Distinct (ciphertexts document)
ciphertexts-IsCiphertext_example = ciphertexts-IsCiphertext document

abbrev rest : Text
rest = text "vault:v1:x"

ciphertexts_in_fuel_example : ciphertexts_in (11 + 4) rest [] ≡ ciphertexts_in 11 rest []
unfolding text
ciphertexts_in_fuel_example = ciphertexts_in_fuel 11 4 rest [] (omega arith)

unbase64-base64_example : unbase64 (base64 (104 ∷ 105 ∷ [])) ≡ some (104 ∷ 105 ∷ [])
unbase64-base64_example = unbase64-base64 (104 ∷ 105 ∷ []) (omega arith, (omega arith, tt))

padding_is_dropped : unbase64 (text "aGk=") ≡ some (text "hi")
unfolding unbase64 text
padding_is_dropped = refl
