-- ===== src/Vault/Transit.antt =====
-- dynamic-config-vault/src/transit.rs: ciphertexts in a document, replaced by what they hold.
--
-- The request to Vault is an argument: the body that the batch was answered with. The loop over the
-- document has as much fuel as the document has characters, and drops one at least in each round.
pub mod Base64
pub mod Runs
pub mod Found
mod Tests
use mathlib.Core.Option
use dynamic_config_remote.Common.{
  ℕ, zero, suc, ◌+◌, ◌-◌, ◌*◌, ◌/◌, ◌%◌, ◌^◌, Bool, true, false, not, ◌&&◌, ◌||◌, List, [], ◌∷◌,
  ◌++◌, Option, none, some, Text, text, text_eq, length, split_at_text, strip_prefix, is_empty,
  is_ascii_alphanumeric, contains_text, text_leb, as_bytes, decimal, ltb, leb, ◌==◌, if◌then◌else◌,
  Result, ok, err, ◌>>=◌, ok_or, map_err, ensure, trim_end_char,
}
use dynamic_config_remote.Engine.{Engine}
use dynamic_config_remote.Json.{Json, get_json, as_str, as_array, and_then}

abbrev pub marker : Text
marker = b'v' ∷ b'a' ∷ b'u' ∷ b'l' ∷ b't' ∷ b':' ∷ b'v' ∷ b'1' ∷ b':' ∷ []

abbrev pub is_cipher : ℕ → Bool
is_cipher c = is_ascii_alphanumeric c || (c == b'+' || (c == b'/' || (c == b'=' || c == b':')))

-- The characters of a ciphertext at the front of a text, and what follows them.
unfoldable pub span_cipher : Text → Text × Text
unfolding is_ascii_alphanumeric
span_cipher [] = ([], [])
span_cipher (c ∷ s) =
    let rest = span_cipher s in if is_cipher c then (c ∷ rest.0, rest.1) else ([], c ∷ s)

-- A marker with nothing behind it is no ciphertext, and one that was found is not listed again.
abbrev pub listed : Text → List Text → List Text
listed found_text found =
    if not (is_empty found_text) && not (contains_text (marker ++ found_text) found)
    then found ++ (marker ++ found_text) ∷ []
    else found

-- The rounds of the loop of `ciphertexts`; every character of the marker is one of a ciphertext.
unfoldable pub ciphertexts_in : ℕ → Text → List Text → List Text
unfolding split_at_text span_cipher contains_text
ciphertexts_in zero rest found = found
ciphertexts_in (suc fuel) rest found = elim (split_at_text marker rest) [
  | none ↦ found
  | some (before, after) ↦
      let (body, tail) = span_cipher after in ciphertexts_in fuel tail (listed body found)
]

unfoldable pub ciphertexts : Text → List Text
unfolding ciphertexts_in
ciphertexts document = ciphertexts_in (suc (length document)) document []

-- The six bits of a character of base64.
unfoldable pub sextet : ℕ → Option ℕ
sextet b =
    if leb b'A' b && leb b b'Z'
    then some (b - b'A')
    else if leb b'a' b && leb b b'z'
    then some (b - b'a' + 26)
    else if leb b'0' b && leb b b'9'
    then some (b - b'0' + 52)
    else if b == b'+'
    then some 62
    else if b == b'/'
    then some 63
    else none

unfoldable pub without_padding : List ℕ → List ℕ
without_padding [] = []
without_padding (b ∷ bs) = let rest = without_padding bs in if b == b'=' then rest else b ∷ rest

-- The bytes of `packed`, a number of 24 bits, from the top.
abbrev pub byte_at : ℕ → ℕ → ℕ
byte_at packed index = packed / 2 ^ (16 - index * 8) % 256

-- Chunks of four characters; the last may be shorter, and one character alone holds no byte. The
-- shift by six makes room for the next six bits, so the `|` is a sum.
unfoldable pub unpack : List ℕ → Option (List ℕ)
unfolding sextet
unpack [] = some []
unpack (a ∷ []) = and_then (sextet a) λ p. some []
unpack (a ∷ b ∷ []) =
    and_then (sextet a) λ p.
      and_then (sextet b) λ q. let packed = (p * 64 + q) * 2 ^ 12 in some (byte_at packed 0 ∷ [])
unpack (a ∷ b ∷ c ∷ []) = and_then (sextet a) λ p. and_then (sextet b) λ q. and_then (sextet c) λ r.
    let packed = ((p * 64 + q) * 64 + r) * 2 ^ 6 in some (byte_at packed 0 ∷ byte_at packed 1 ∷ [])
unpack (a ∷ b ∷ c ∷ d ∷ bs) =
    let later = unpack bs in
    and_then (sextet a) λ p. and_then (sextet b) λ q. and_then (sextet c) λ r.
      and_then (sextet d) λ s.
        let packed = ((p * 64 + q) * 64 + r) * 64 + s in
        and_then later λ rest. some (byte_at packed 0 ∷ byte_at packed 1 ∷ byte_at packed 2 ∷ rest)

unfoldable pub unbase64 : Text → Option (List ℕ)
unfolding without_padding unpack as_bytes
unbase64 t = unpack (without_padding (as_bytes t))

-- `str::replace` of a pattern that is not empty: from the left, each place that was replaced left
-- behind. The number is how many characters of the last place are still to be dropped.
unfoldable pub replace_from : Text → Text → ℕ → Text → Text
unfolding strip_prefix
replace_from pattern_ by skip [] = []
replace_from pattern_ by (suc skip) (c ∷ s) = replace_from pattern_ by skip s
replace_from pattern_ by zero (c ∷ s) =
    let here = replace_from pattern_ by (length pattern_ - 1) s in
    let later = replace_from pattern_ by zero s in
    elim (strip_prefix pattern_ (c ∷ s)) [ some rest ↦ by ++ here | none ↦ c ∷ later ]

-- `sort_by_key(Reverse(len))`, which is stable, of keys in the order of a `BTreeMap`.
unfoldable pub insert_longest : Text × Text → List (Text × Text) → List (Text × Text)
insert_longest p [] = p ∷ []
insert_longest p (q ∷ qs) =
    let rest = insert_longest p qs in if leb (length q.0) (length p.0) then p ∷ q ∷ qs else q ∷ rest

unfoldable pub longest_first : List (Text × Text) → List (Text × Text)
unfolding insert_longest
longest_first [] = []
longest_first (p ∷ ps) = insert_longest p (longest_first ps)

unfoldable pub replaced_all : List (Text × Text) → Text → Text
unfolding replace_from
replaced_all [] document = document
replaced_all ((ciphertext, plaintext) ∷ ps) document =
    replaced_all ps (replace_from ciphertext plaintext zero document)

insert_pair : Text × Text → List (Text × Text) → List (Text × Text)
insert_pair p [] = p ∷ []
insert_pair p (q ∷ qs) =
    let rest = insert_pair p qs in if text_leb p.0 q.0 then p ∷ q ∷ qs else q ∷ rest

-- The entries of a `BTreeMap` that was made from these, whose keys are distinct.
unfoldable pub in_order : List (Text × Text) → List (Text × Text)
unfolding insert_pair text_leb
in_order [] = []
in_order (p ∷ ps) = insert_pair p (in_order ps)

module _ (e : Engine) (from_utf8 : List ℕ → Option Text) where
  open e use {Error}

  pub record Transit : Type 0 where
    pub mount : Text
    pub key : Text

  unfoldable pub describe : Transit → Text
  describe t = text "vault transit " ++ (t.mount ++ (text "/" ++ t.key))

  unfoldable pub complaint : Transit → Text → Error
  unfolding describe
  complaint t what = e.remote (describe t ++ (text ": " ++ what))

  -- The plaintext of one result; a result may be an error of its own.
  unfoldable pub plaintext_of : Transit → Json → Result Text Error
  unfolding complaint unbase64
  plaintext_of t result = elim (and_then (get_json (text "error") result) as_str) [
    | some error ↦ err (complaint t (text "a value could not be decrypted: " ++ error))
    | none ↦ do
      encoded ←
          ok_or (and_then (get_json (text "plaintext") result) as_str)
            (complaint t (text "a decrypt result carried no plaintext"))
      bytes ← ok_or (unbase64 encoded) (complaint t (text "a decrypted value is not base64"))
      ok_or (from_utf8 bytes) (
          complaint t
            (text "a decrypted value is not UTF-8; this stage writes text into a text document"))
  ]

  unfoldable pub plaintexts_of : Transit → List Text → List Json → Result (List (Text × Text)) Error
  unfolding plaintext_of
  plaintexts_of t (ciphertext ∷ ciphertexts) (result ∷ results) = do
    plaintext ← plaintext_of t result
    rest ← plaintexts_of t ciphertexts results
    ok ((ciphertext, plaintext) ∷ rest)
  plaintexts_of t _ _ = ok []

  abbrev pub miscounted : Transit → List Text → List Json → Error
  miscounted t asked results = complaint t (
      text "asked to decrypt "
      ++ (decimal (length asked)
          ++ (text " values and " ++ (decimal (length results) ++ text " came back"))))

  -- `decrypt`, from what the request was answered with.
  unfoldable pub decrypt :
      Transit → List Text → Result Json Error → Result (List (Text × Text)) Error
  unfolding plaintexts_of complaint
  decrypt t asked answered = do
    response ← answered
    results ←
        ok_or
          (and_then (and_then (get_json (text "data") response) (get_json (text "batch_results")))
            as_array)
          (complaint t (text "the transit decrypt answered without `data.batch_results`"))
    _ ← ensure (length results == length asked) (miscounted t asked results)
    plaintexts_of t asked results

  -- `apply`: a document that holds no ciphertext costs no request.
  unfoldable pub apply : Transit → (List Text → Result Json Error) → Text → Result Text Error
  unfolding ciphertexts decrypt in_order longest_first replaced_all
  apply t request document =
      let asked = ciphertexts document in
      if is_empty asked then ok document else (do
        plaintexts ← decrypt t asked (request asked)
        ok (replaced_all (longest_first (in_order plaintexts)) document))
