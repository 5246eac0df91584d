-- ===== src/S3.antt =====
-- dynamic-config-s3/src/lib.rs: a source that reads objects of an S3 bucket.
--
-- The client is the AWS SDK, and what the store answers is an argument. The client's own timeouts
-- and retries are the SDK's.
pub mod Reads
pub mod Watch
pub mod Listing
mod Tests
use mathlib.Core.Option
use dynamic_config_remote.Common.{
  ℕ, zero, suc, ◌+◌, Bool, true, false, List, [], ◌∷◌, ◌++◌, Option, none, some, Text, text,
  text_eq, join, any, ends_with_char, if◌then◌else◌, Result, ok, err, ◌>>=◌, ok_or, map_err,
  is_empty, length, decimal,
}
use dynamic_config_remote.Engine.{Engine, Documents}
use dynamic_config_remote.Store.Attempts.{Attempts, silent}
use dynamic_config_remote.Store.Documents.{
  Overlap, later_wins, refused, merged, agreed_format, within_key_budget, under_prefix,
}

abbrev pub auth_codes : List Text
auth_codes =
    text "AccessDenied"
    ∷ text "InvalidAccessKeyId"
    ∷ text "SignatureDoesNotMatch"
    ∷ text "ExpiredToken"
    ∷ text "InvalidToken"
    ∷ text "TokenRefreshRequired"
    ∷ []

abbrev pub most_list_pages : ℕ
most_list_pages = 32

pub data Keys : Type 0 where
  one : Text → Keys
  several : List Text → Keys
  prefix : Text → Keys

abbrev pub named : Keys → List Text
named (one key) = key ∷ []
named (several keys) = keys
named (prefix p) = []

abbrev pub describe_keys : Keys → Text
describe_keys (one key) = key
describe_keys (several keys) = text "keys " ++ join (text ", ") keys
describe_keys (prefix p) = text "prefix " ++ p

abbrev pub overlap : Keys → Overlap
overlap (one key) = later_wins
overlap (several keys) = later_wins
overlap (prefix p) = refused

-- What is read of an error of the SDK.
pub record S3Error : Type 0 where
  pub shown : Text
  pub code : Option Text

-- One page of a listing: the keys that it names, and how it goes on.
pub record Page : Type 0 where
  pub contents : List (Option Text)
  pub next_token : Option Text

-- An object: its tag, and its body as bytes or the text of the error that it broke off with.
pub record Object : Type 0 where
  pub tag : Option Text
  pub body : Result (List ℕ) Text

-- What the store answers: to a listing, with the pages that are left and the token, to a `GET` and to
-- a `HEAD`.
pub record Bucket : Type 0 where
  pub page : ℕ → Option Text → Result Page S3Error
  pub get_object : Text → Result Object S3Error
  pub head_object : Text → Result (Option Text) S3Error

module _ (e : Engine) (from_utf8 : List ℕ → Result Text Text) where
  open e use {Error, Format}

  pub record Source : Type 0 where
    pub bucket : Text
    pub keys : Keys
    pub format : Option Format
    pub disagreement : Option Text
    pub endpoint : Option Text
    pub attempts : Attempts

  unfoldable pub from_client : Text → Keys → Source
  from_client bucket keys =
      let settled : Option Format × Option Text = elim (agreed_format e (named keys)) [
        | ok format ↦ (format, none)
        | err complaint ↦ (none, some complaint)
      ] in
      record {
        bucket = bucket;
        keys = keys;
        format = settled.0;
        disagreement = settled.1;
        endpoint = none;
        attempts = silent;
      }

  abbrev pub with_format : Format → Source → Source
  with_format format s = record s { format = some format; disagreement = none }

  unfoldable pub describe : Source → Text
  describe s =
      let place = s.bucket ++ (text "/" ++ describe_keys s.keys) in
      elim s.endpoint [
        | some endpoint ↦ text "s3 " ++ (endpoint ++ (text " " ++ place))
        | none ↦ text "s3 " ++ place
      ]

  unfoldable pub complaint : Source → Text → Error
  unfolding describe
  complaint s what = e.remote (describe s ++ (text ": " ++ what))

  unfoldable pub settled_format : Source → Result Format Error
  unfolding complaint
  settled_format s = elim s.disagreement [
    | some said ↦ err (complaint s said)
    | none ↦ ok_or s.format (complaint s (text "the key names no format; call `with_format`"))
  ]

  unfoldable pub single_key : Source → Result Text Error
  unfolding complaint
  single_key s = elim s.keys [
    | one key ↦ ok key
    | several keys ↦ err (several_keys s)
    | prefix p ↦ err (several_keys s)
  ]
    where
      several_keys : Source → Error
      several_keys s = complaint s (
          text
            "a source that reads several keys cannot be watched; poll `refresh_remote_async()` on a timer instead")

  unfoldable pub classified : Source → S3Error → Error
  unfolding describe text_eq
  classified s error =
      let shown = describe s ++ (text ": " ++ error.shown) in
      elim error.code [
        | none ↦ e.remote shown
        | some code ↦ if any (text_eq code) auth_codes then e.auth shown else e.remote shown
      ]
