-- ===== src/Server/Names/Tests.antt =====
-- The unit tests of names.rs.
use dynamic_config_remote.Common.{◌≡◌, refl, true, false, [], text, is_digit}
use dynamic_config_remote.Server.Names.{is_name, is_key_path}

a_name_is_narrow :
    (is_name (text "billing.api_2") ≡ true)
    × (is_name [] ≡ false)
    × (is_name (text "..") ≡ false)
    × (is_name (text ".hidden") ≡ false)
    × (is_name (text "bill ing") ≡ false)
    × (is_name (text "bill/ing") ≡ false)
unfolding is_name text is_digit
a_name_is_narrow = (refl, refl, refl, refl, refl, refl)

a_key_path_has_no_empty_segment :
    (is_key_path (text "pool.max_size") ≡ true)
    × (is_key_path (text ".") ≡ false)
    × (is_key_path (text "pool.") ≡ false)
    × (is_key_path (text "pool..max") ≡ false)
unfolding is_key_path text is_digit
a_key_path_has_no_empty_segment = (refl, refl, refl, refl)
