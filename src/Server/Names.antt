-- ===== src/Server/Names.antt =====
-- dynamic-config-server/src/routes/names.rs: the segments of a path that name something.
pub mod Narrow
mod Tests
use dynamic_config_remote.Common.{
  ℕ, Bool, true, false, not, ◌&&◌, ◌||◌, List, [], ◌∷◌, Text, all, is_empty, is_ascii_alphanumeric,
  utf8_len, split, leb, ◌==◌, if◌then◌else◌,
}

-- A character of a name behind its first one.
unfoldable pub is_name_char : ℕ → Bool
unfolding is_ascii_alphanumeric
is_name_char c = is_ascii_alphanumeric c || (c == b'.' || c == b'_' || c == b'-')

unfoldable pub is_name : Text → Bool
unfolding is_name_char is_ascii_alphanumeric utf8_len
is_name [] = false
is_name (first ∷ characters) =
    is_ascii_alphanumeric first
    && (leb (utf8_len (first ∷ characters)) 64 && all is_name_char characters)

unfoldable pub is_key_char : ℕ → Bool
unfolding is_ascii_alphanumeric
is_key_char c = is_ascii_alphanumeric c || (c == b'_' || c == b'-')

unfoldable pub is_key_path : Text → Bool
unfolding is_key_char utf8_len split
is_key_path value =
    not (is_empty value)
    && (leb (utf8_len value) 256
        && all (λ segment. not (is_empty segment) && all is_key_char segment) (split b'.' value))
