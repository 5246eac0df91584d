-- ===== src/Vault/Transit/Base64.antt =====
-- The decoder against the encoding of RFC 4648.
use dynamic_config_remote.Common.{
  ℕ, ◌+◌, ◌-◌, ◌*◌, ◌/◌, ◌%◌, ◌<◌, ◌≡◌, refl, ap, ◌∙◌, List, [], ◌∷◌, some, Text, All, as_bytes,
  utf8_char, ltb, ◌==◌, if◌then◌else◌, arith,
}
use dynamic_config_remote.Json.{and_then}
use dynamic_config_remote.Vault.Transit.{byte_at, sextet, without_padding, unpack, unbase64}

-- The character of six bits.
unfoldable pub character : ℕ → ℕ
character n =
    if ltb n 26
    then b'A' + n
    else if ltb n 52
    then b'a' + (n - 26)
    else if ltb n 62
    then b'0' + (n - 52)
    else if n == 62
    then b'+'
    else b'/'

-- Three bytes are four characters; the last one or two are padded.
unfoldable pub base64 : List ℕ → Text
unfolding character
base64 [] = []
base64 (a ∷ []) = character (a / 4) ∷ character (a % 4 * 16) ∷ b'=' ∷ b'=' ∷ []
base64 (a ∷ b ∷ []) =
    character (a / 4) ∷ character (a % 4 * 16 + b / 16) ∷ character (b % 16 * 4) ∷ b'=' ∷ []
base64 (a ∷ b ∷ c ∷ bs) =
    character (a / 4)
    ∷ character (a % 4 * 16 + b / 16)
    ∷ character (b % 16 * 4 + c / 64)
    ∷ character (c % 64)
    ∷ base64 bs

abbrev pub AreBytes : List ℕ → Type 0
AreBytes = All (λ b. b < 256)

sextet-character : (n : ℕ) → n < 64 → sextet (character n) ≡ some n
unfolding sextet character
sextet-character n h = ground arith

-- A character is one byte and no padding.
kept-character :
    (n : ℕ) (s : Text)
    → n < 64
    → without_padding (as_bytes (character n ∷ s)) ≡ character n ∷ without_padding (as_bytes s)
unfolding without_padding as_bytes utf8_char character
kept-character n s h = ground arith

-- The characters of four groups of six bits, and what they are the bits of.
packed_bytes : (p q r s : ℕ) → ℕ × ℕ × ℕ
packed_bytes p q r s =
    let packed = ((p * 64 + q) * 64 + r) * 64 + s in
    (byte_at packed 0, byte_at packed 1, byte_at packed 2)

unpack_four :
    (p q r s : ℕ) (rest : Text)
    → p < 64
    → q < 64
    → r < 64
    → s < 64
    → unbase64 (character p ∷ character q ∷ character r ∷ character s ∷ rest)
      ≡ and_then (unbase64 rest) λ bs.
        some ((packed_bytes p q r s).0 ∷ (packed_bytes p q r s).1 ∷ (packed_bytes p q r s).2 ∷ bs)
unfolding unbase64 unpack packed_bytes
unpack_four p q r s rest hp hq hr hs =
    rw
      (
        kept-character p (character q ∷ character r ∷ character s ∷ rest) hp,
        kept-character q (character r ∷ character s ∷ rest) hq,
        kept-character r (character s ∷ rest) hr,
        kept-character s rest hs,
        sextet-character p hp,
        sextet-character q hq,
        sextet-character r hr,
        sextet-character s hs,
      )
      refl

unpack_three :
    (p q r : ℕ)
    → p < 64
    → q < 64
    → r < 64
    → unbase64 (character p ∷ character q ∷ character r ∷ b'=' ∷ [])
      ≡ some ((packed_bytes p q r 0).0 ∷ (packed_bytes p q r 0).1 ∷ [])
unfolding unbase64 unpack packed_bytes without_padding as_bytes utf8_char
unpack_three p q r hp hq hr =
    rw
      (
        kept-character p (character q ∷ character r ∷ b'=' ∷ []) hp,
        kept-character q (character r ∷ b'=' ∷ []) hq,
        kept-character r (b'=' ∷ []) hr,
        sextet-character p hp,
        sextet-character q hq,
        sextet-character r hr,
      )
      (ap some (two_bytes (omega arith) (omega arith)))
  where
    two_bytes : {x y x' y' : ℕ} → x ≡ x' → y ≡ y' → ◌≡◌ {A = List ℕ} (x ∷ y ∷ []) (x' ∷ y' ∷ [])
    two_bytes h k = cc

unpack_two :
    (p q : ℕ)
    → p < 64
    → q < 64
    → unbase64 (character p ∷ character q ∷ b'=' ∷ b'=' ∷ []) ≡ some ((packed_bytes p q 0 0).0 ∷ [])
unfolding unbase64 unpack packed_bytes without_padding as_bytes utf8_char
unpack_two p q hp hq =
    rw
      (
        kept-character p (character q ∷ b'=' ∷ b'=' ∷ []) hp,
        kept-character q (b'=' ∷ b'=' ∷ []) hq,
        sextet-character p hp,
        sextet-character q hq,
      )
      (ap (λ x. some (x ∷ [])) (omega arith))

-- Three bytes, cut into groups of six bits, are put together again.
packed_bytes-groups :
    (a b c : ℕ)
    → a < 256
    → b < 256
    → c < 256
    → ((packed_bytes (a / 4) (a % 4 * 16 + b / 16) (b % 16 * 4 + c / 64) (c % 64)).0 ≡ a)
      × ((packed_bytes (a / 4) (a % 4 * 16 + b / 16) (b % 16 * 4 + c / 64) (c % 64)).1 ≡ b)
      × ((packed_bytes (a / 4) (a % 4 * 16 + b / 16) (b % 16 * 4 + c / 64) (c % 64)).2 ≡ c)
unfolding packed_bytes
packed_bytes-groups a b c ha hb hc = (omega arith, omega arith, omega arith)

group_of_one : (a : ℕ) → a < 256 → (packed_bytes (a / 4) (a % 4 * 16) 0 0).0 ≡ a
unfolding packed_bytes
group_of_one a ha = omega arith

group_of_two :
    (a b : ℕ)
    → a < 256
    → b < 256
    → ((packed_bytes (a / 4) (a % 4 * 16 + b / 16) (b % 16 * 4) 0).0 ≡ a)
      × ((packed_bytes (a / 4) (a % 4 * 16 + b / 16) (b % 16 * 4) 0).1 ≡ b)
unfolding packed_bytes
group_of_two a b ha hb = (omega arith, omega arith)

-- A list of bytes, encoded as RFC 4648 has it, is decoded to the same bytes, however many they are.
pub unbase64-base64 : (bs : List ℕ) → AreBytes bs → unbase64 (base64 bs) ≡ some bs
unfolding unbase64 base64 unpack without_padding
unbase64-base64 [] h = refl
unbase64-base64 (a ∷ []) (ha, h) =
    unpack_two (a / 4) (a % 4 * 16) (omega arith) (omega arith)
    ∙ ap (λ x. some (x ∷ [])) (group_of_one a ha)
unbase64-base64 (a ∷ b ∷ []) (ha, (hb, h)) =
    let (first, second) = group_of_two a b ha hb in
    unpack_three (a / 4) (a % 4 * 16 + b / 16) (b % 16 * 4) (omega arith) (omega arith)
      (omega arith)
    ∙ rw (first, second) refl
unbase64-base64 (a ∷ b ∷ c ∷ bs) (ha, (hb, (hc, h))) =
    let (first, second, third) = packed_bytes-groups a b c ha hb hc in
    unpack_four (a / 4) (a % 4 * 16 + b / 16) (b % 16 * 4 + c / 64) (c % 64) (base64 bs)
      (omega arith) (omega arith) (omega arith) (omega arith)
    ∙ rw (unbase64-base64 bs h, first, second, third) refl
