-- ===== src/Redis.antt =====
-- dynamic-config-redis/src/lib.rs: a source that reads keys of a Redis server.
--
-- The client is the crate redis, and what the server answers is an argument: a record for the calls
-- of one fetch. The mutex around the connection is held for the whole of `read`, so a fetch is one
-- step on the connection that is kept.
pub mod Glob
pub mod Scan
pub mod Fetch
pub mod Watch
mod Tests
use dynamic_config_remote.Common.{
  ℕ, zero, suc, ◌*◌, ◌^◌, Bool, true, false, not, ◌||◌, List, [], ◌∷◌, ◌++◌, Option, none, some,
  Text, text, text_eq, join, is_some, ◌==◌, if◌then◌else◌, Result, ok, err, ◌>>=◌, ensure, ok_or,
  map_err, length, any, is_empty, decimal, sort_texts, dedup_texts,
}
use dynamic_config_remote.Engine.{Engine, Documents}
use dynamic_config_remote.Store.Attempts.{Attempts, silent, reporting}
use dynamic_config_remote.Store.Documents.{
  Overlap, later_wins, refused, merged, agreed_format, within_key_budget, under_prefix,
}

abbrev pub most_scan_rounds : ℕ
most_scan_rounds = 1000

abbrev pub default_timeout : ℕ
default_timeout = 10 * 10 ^ 9

pub data Keys : Type 0 where
  one : Text → Keys
  several : List Text → Keys
  prefix : Text → Keys

abbrev pub named : Keys → List Text
named (one key) = key ∷ []
named (several keys) = keys
named (prefix p) = []

abbrev pub describe_keys : Keys → Text
describe_keys (one key) = text "key " ++ key
describe_keys (several keys) = text "keys " ++ join (text ", ") keys
describe_keys (prefix p) = text "prefix " ++ p

abbrev pub overlap : Keys → Overlap
overlap (one key) = later_wins
overlap (several keys) = later_wins
overlap (prefix p) = refused

abbrev pub is_special : ℕ → Bool
is_special c = c == b'\\' || (c == b'*' || (c == b'?' || (c == b'[' || c == b']')))

-- A text as a pattern that matches it and nothing else.
unfoldable pub globbed : Text → Text
globbed [] = []
globbed (c ∷ s) = let rest = globbed s in if is_special c then b'\\' ∷ c ∷ rest else c ∷ rest

-- What is read of a `redis::RedisError`.
pub record RedisError : Type 0 where
  pub shown : Text
  pub authentication_failed : Bool
  pub code : Option Text

abbrev pub is_auth_code : Option Text → Bool
is_auth_code none = false
is_auth_code (some code) =
    text_eq code (text "NOAUTH")
    || (text_eq code (text "WRONGPASS") || text_eq code (text "NOPERM"))

module _ (e : Engine) (Connection : Type 0) where
  open e use {Error, Format}

  pub record Redis : Type 0 where
    pub connection : Option Connection
    pub keys : Keys
    pub format : Option Format
    pub disagreement : Option Text
    pub described : Text
    pub timeout : ℕ
    pub attempts : Attempts

  -- What the server answers to the calls of one fetch: to opening a connection, to each `SCAN` with
  -- the rounds that are left, the cursor and the pattern, and to an `MGET`.
  pub record Server : Type 0 where
    pub opening : Result Connection RedisError
    pub scan_reply : Connection → ℕ → ℕ → Text → Result (ℕ × List Text) RedisError
    pub mget : Connection → List Text → Result (List (Option Text)) RedisError

  unfoldable pub build : Keys → Text → Redis
  build keys described =
      let settled : Option Format × Option Text = elim (agreed_format e (named keys)) [
        | ok format ↦ (format, none)
        | err complaint ↦ (none, some complaint)
      ] in
      record {
        connection = none;
        keys = keys;
        format = settled.0;
        disagreement = settled.1;
        described = described;
        timeout = default_timeout;
        attempts = silent;
      }

  abbrev pub with_format : Format → Redis → Redis
  with_format format r = record r { format = some format; disagreement = none }

  -- The connection that is kept was opened under the old deadline.
  abbrev pub with_timeout : ℕ → Redis → Redis
  with_timeout timeout r = record r { timeout = timeout; connection = none }

  abbrev pub reporting_to : Redis → Redis
  reporting_to r = record r { attempts = reporting }

  unfoldable pub describe : Redis → Text
  describe r = text "redis " ++ (r.described ++ (text " " ++ describe_keys r.keys))

  unfoldable pub complaint : Redis → Text → Error
  unfolding describe
  complaint r what = e.remote (describe r ++ (text ": " ++ what))

  unfoldable pub settled_format : Redis → Result Format Error
  unfolding complaint
  settled_format r = elim r.disagreement [
    | some said ↦ err (complaint r said)
    | none ↦ ok_or r.format (complaint r (text "the key names no format; call `with_format`"))
  ]

  -- A refusal that waiting does not cure is told apart from the others.
  unfoldable pub classified : Redis → RedisError → Error
  unfolding describe
  classified r error =
      let shown = describe r ++ (text ": " ++ error.shown) in
      if error.authentication_failed || is_auth_code error.code
      then e.auth shown
      else e.remote shown

  -- The keys of one batch of a scan, added to those that were found.
  unfoldable pub collected : Redis → Text → List Text → List Text → Result (List Text) Error
  unfolding describe
  collected r p found [] = ok found
  collected r p found (key ∷ batch) = do
    _ ← under_prefix e key p (describe r)
    collected r p (found ++ key ∷ []) batch

  -- The rounds of `scan` that are left.
  unfoldable pub scan_rounds :
      Redis
      → (ℕ → ℕ → Text → Result (ℕ × List Text) RedisError)
      → Text
      → ℕ
      → ℕ
      → List Text
      → Result (List Text) Error
  unfolding complaint classified collected describe
  scan_rounds r reply p zero cursor found = err (
      complaint r (
        text "the scan did not finish in "
        ++ (decimal most_scan_rounds ++ text " rounds; the server is not advancing the cursor")))
  scan_rounds r reply p (suc rounds) cursor found = do
    (next, batch) ← map_err (classified r) (reply rounds cursor (globbed p ++ b'*' ∷ []))
    all ← collected r p found batch
    let distinct = dedup_texts (sort_texts all)
    _ ← within_key_budget e (length distinct) (describe r)
    if next == 0 then ok distinct else scan_rounds r reply p rounds next distinct

  unfoldable pub scan :
      Redis → (ℕ → ℕ → Text → Result (ℕ × List Text) RedisError) → Text → Result (List Text) Error
  unfolding scan_rounds
  scan r reply p = scan_rounds r reply p most_scan_rounds 0 []

  unfoldable pub keys_to_read : Redis → Server → Connection → Result (List Text) Error
  unfolding scan
  keys_to_read r server c = elim r.keys [
    | one key ↦ ok (key ∷ [])
    | several keys ↦ ok keys
    | prefix p ↦ scan r (server.scan_reply c) p
  ]

  -- Each key with the value that stands in its place of the answer.
  unfoldable pub held : Redis → List Text → List (Option Text) → Result (List (Text × Text)) Error
  unfolding complaint
  held r (key ∷ keys) (some value ∷ values) = do rest ← held r keys values; ok ((key, value) ∷ rest)
  held r (key ∷ keys) (none ∷ values) =
      err (complaint r (text "`" ++ (key ++ text "` holds no value")))
  held r _ _ = ok []

  -- An `MGET` with no keys is a protocol error.
  unfoldable pub some_keys : Redis → List Text → Result (Unit {0}) Error
  unfolding complaint
  some_keys r keys =
      ensure (not (is_empty keys))
        (complaint r (text "nothing matched, so there is nothing to load"))

  -- `read`, once there is a connection.
  unfoldable pub read_on : Redis → Server → Connection → Result (List (Text × Text)) Error
  unfolding keys_to_read some_keys held classified
  read_on r server c = do
    keys ← keys_to_read r server c
    _ ← some_keys r keys
    values ← map_err (classified r) (server.mget c keys)
    held r keys values

  unfoldable pub read : Redis → Server → Redis × Result (List (Text × Text)) Error
  unfolding read_on classified
  read r server = elim r.connection [
    | some c ↦ (r, read_on r server c)
    | none ↦ elim server.opening [
      | err error ↦ (r, err (classified r error))
      | ok c ↦ (record r { connection = some c }, read_on r server c)
    ]
  ]

  module _ (d : Documents e) where
    -- A fetch that fails drops the connection, which may be what broke.
    unfoldable pub fetch : Redis → Server → Redis × Result d.Fetched Error
    unfolding settled_format read describe
    fetch r server = elim (settled_format r) [
      | err error ↦ (r, err error)
      | ok format ↦
          let (after, documents) = read r server in
          elim (documents >>= λ found. merged e d found format (overlap r.keys) (describe r)) [
            | ok document ↦ (after, ok document)
            | err error ↦ (record after { connection = none }, err error)
          ]
    ]
