-- ===== src/Server/Audit/Line.antt =====
-- An audit entry is one line.
use dynamic_config_remote.Common.{
  ℕ, ◌≡◌, refl, All, false, List, [], ◌∷◌, ◌++◌, Option, none, some, Text, text, contains_char,
  contains_char-append, contains_char-decimal, arith, is_digit,
}
use dynamic_config_remote.Server.Audit.{
  Outcome, served, unauthenticated, not_found, malformed, unavailable, as_str, AuditEntry, field,
  numbered, line, written, pieces,
}

abbrev pub line_feed : ℕ
line_feed = 10

abbrev pub IsOneLine : Text → Type 0
IsOneLine t = contains_char line_feed t ≡ false

append_one : (s t : Text) → IsOneLine s → IsOneLine t → IsOneLine (s ++ t)
append_one s t hs ht = ground (arith, contains_char-append line_feed s t)

written_one : (ts : List Text) → All IsOneLine ts → IsOneLine (written ts)
unfolding contains_char
written_one [] h = refl
written_one (t ∷ ts) (one, ones) = append_one t (written ts) one (written_one ts ones)

as_str_one : (outcome : Outcome) → IsOneLine (as_str outcome)
unfolding as_str text contains_char
as_str_one served = refl
as_str_one unauthenticated = refl
as_str_one not_found = refl
as_str_one malformed = refl
as_str_one unavailable = refl

numbered_one : (generation : Option ℕ) → IsOneLine (numbered generation)
unfolding text contains_char is_digit
numbered_one none = refl
numbered_one (some generation) = contains_char-decimal line_feed generation refl

-- An entry is one line of the log as long as what it names holds no line break.
pub line-IsOneLine :
    (entry : AuditEntry)
    → IsOneLine (field entry.caller)
    → IsOneLine (field entry.application)
    → IsOneLine (field entry.profile)
    → IsOneLine entry.endpoint
    → IsOneLine (line entry)
unfolding line pieces text contains_char
line-IsOneLine entry caller application profile endpoint = written_one (pieces entry) (
  refl,
  (
    caller,
    (
      refl,
      (
        application,
        (
          refl,
          (
            profile,
            (
              refl,
              (
                endpoint,
                (refl, (as_str_one entry.outcome, (refl, (numbered_one entry.generation, tt)))),
              ),
            ),
          ),
        ),
      ),
    ),
  ),
)
