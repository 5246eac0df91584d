-- ===== src/Server/Names/Narrow.antt =====
-- What a name cannot hold.
use dynamic_config_remote.Common.{
  ℕ, ◌≤◌, ◌<◌, ◌≡◌, ◌≢◌, refl, Bool, true, false, ◌||◌, [], ◌∷◌, Text, length, all,
  is_ascii_alphanumeric, is_digit, utf8_len, contains_char, leb, ◌==◌, arith, and_true,
}
use dynamic_config_remote.Server.Names.{is_name, is_name_char}

-- A character that no name holds: a control character, a space, a separator of paths or of the
-- fields of an audit line, and everything that is not ASCII.
abbrev pub is_foreign : ℕ → Bool
is_foreign c = leb c b',' || (c == b'/' || (c == b'=' || leb 0x7f c))

name_char_narrow : (c : ℕ) → is_name_char c ≡ true → (is_foreign c ≡ false) × (c < 0x7f)
unfolding is_name_char is_ascii_alphanumeric is_digit
name_char_narrow c h = ground arith

name_chars_narrow :
    (characters : Text) (c : ℕ)
    → all is_name_char characters ≡ true
    → is_foreign c ≡ true
    → (contains_char c characters ≡ false) × (utf8_len characters ≡ length characters)
unfolding contains_char utf8_len
name_chars_narrow [] c h foreign = (refl, refl)
name_chars_narrow (d ∷ characters) c h foreign =
    let (here, later) = and_true (is_name_char d) (all is_name_char characters) h in
    ground (arith, name_char_narrow d here, name_chars_narrow characters c later foreign)

alphanumeric_narrow :
    (c : ℕ) → is_ascii_alphanumeric c ≡ true → (is_name_char c ≡ true) × (c ≢ b'.')
unfolding is_name_char is_ascii_alphanumeric is_digit
alphanumeric_narrow c h = ground arith

head_eq : {c d : ℕ} {s t : Text} → ◌≡◌ {A = Text} (c ∷ s) (d ∷ t) → c ≡ d
head_eq e = cc

-- A name has between 1 and 64 characters, does not begin with a dot, so is neither `.` nor `..`, and
-- holds no separator of paths, no space, no line break or other control character, and nothing that
-- is not ASCII.
pub is_name_narrow :
    (value : Text) (c : ℕ)
    → is_name value ≡ true
    → is_foreign c ≡ true
    → (1 ≤ length value)
      × (length value ≤ 64)
      × ((rest : Text) → value ≢ b'.' ∷ rest)
      × (contains_char c value ≡ false)
unfolding is_name
is_name_narrow [] c h foreign = cc
is_name_narrow (first ∷ characters) c h foreign =
    let (starts, more) = and_true (is_ascii_alphanumeric first) _ h in
    let (short, chars) =
      and_true (leb (utf8_len (first ∷ characters)) 64) (all is_name_char characters) more in
    let (plain, dotless) = alphanumeric_narrow first starts in
    let (absent, one_each) =
      name_chars_narrow (first ∷ characters) c (rw (plain, chars) refl) foreign in
    (ground arith, ground arith, λ rest e. dotless (head_eq e), absent)
