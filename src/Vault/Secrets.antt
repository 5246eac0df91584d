-- ===== src/Vault/Secrets.antt =====
-- dynamic-config-vault/src/lib.rs, from what Vault answers to a document and its lease.
--
-- An `Instant` here is the wall clock, in whole seconds since the epoch; a lease's length is in
-- seconds too, as Vault has it.
use dynamic_config_remote.Common.{
  ℕ, ◌-◌, Bool, false, List, [], ◌∷◌, ◌++◌, Option, none, some, Text, text, join, trim_start_char,
  is_empty, leb, ◌==◌, if◌then◌else◌, Result, ok, err, ◌>>=◌, ok_or, parse_signed, Integer, natural,
  below_zero,
}
use dynamic_config_remote.Engine.{Engine, Documents}
use dynamic_config_remote.Json.{
  Json, object, number, entry, no_entries, get_json, as_str, as_u64, as_bool, is_null, and_then,
  unwrap_or,
}

pub data Keys : Type 0 where
  one : Text → Keys
  several : List Text → Keys

abbrev pub named : Keys → List Text
named (one p) = p ∷ []
named (several paths) = paths

abbrev pub describe_keys : Keys → Text
describe_keys (one p) = p
describe_keys (several paths) = text "paths " ++ join (text ", ") paths

pub data Mode : Type 0 where
  kv2 dynamic : Mode

-- The `Lease` of the crate dynamic-config, as this crate makes it.
pub record Granted : Type 0 where
  pub id : Text
  pub ttl : ℕ
  pub renewable : Bool

pub record Reading : Type 0 where
  pub document : Text
  pub version : ℕ
  pub lease : Option Granted

-- `Value::as_i64`
abbrev pub as_i64 : Json → Option Integer
as_i64 (number n) = parse_signed n
as_i64 _ = none

abbrev minus : Integer → ℕ → Option ℕ
minus (natural n) now = if leb n now then none else some (n - now)
minus (below_zero n) now = none

-- The seconds until the certificate of an answer expires; nothing where it looks expired already.
unfoldable pub certificate_life : ℕ → Json → Option ℕ
certificate_life now body =
    and_then
      (and_then (and_then (get_json (text "data") body) (get_json (text "expiration"))) as_i64)
      λ expiration. minus expiration now

-- Whichever runs out first; no length of the lease is no limit.
abbrev pub shorter : ℕ → Option ℕ → ℕ
shorter ttl none = ttl
shorter ttl (some until) = if ttl == 0 then until else if leb until ttl then until else ttl

unfoldable pub lease_in : ℕ → Json → Option Granted
unfolding certificate_life
lease_in now body = and_then (and_then (get_json (text "lease_id") body) as_str) λ id.
    if is_empty id
    then none
    else some (record {
      id = id;
      ttl =
          shorter (unwrap_or (and_then (get_json (text "lease_duration") body) as_u64) 0)
            (certificate_life now body);
      renewable = unwrap_or (and_then (get_json (text "renewable") body) as_bool) false;
    })

module _ (e : Engine) (to_text : Json → Text) where
  open e use {Error}

  -- Where a secret is: the part of the source that the paths and the messages are made from.
  pub record Place : Type 0 where
    pub address : Text
    pub mount : Text
    pub mode : Mode
    pub keys : Keys
    pub key : Text

  unfoldable pub describe : Place → Text
  describe v =
      text "vault " ++ (v.address ++ (text " " ++ (v.mount ++ (text "/" ++ describe_keys v.keys))))

  unfoldable pub complaint : Place → Text → Error
  unfolding describe
  complaint v what = e.remote (describe v ++ (text ": " ++ what))

  unfoldable pub url : Place → Text → Text
  url v p =
      let tail = trim_start_char b'/' p in
      elim v.mode [
        | kv2 ↦ v.address ++ (text "/v1/" ++ (v.mount ++ (text "/data/" ++ tail)))
        | dynamic ↦ v.address ++ (text "/v1/" ++ (v.mount ++ (text "/" ++ tail)))
      ]

  unfoldable pub metadata_url : Place → Text → Text
  metadata_url v p =
      v.address ++ (text "/v1/" ++ (v.mount ++ (text "/metadata/" ++ trim_start_char b'/' p)))

  -- `json!({ key: values }).to_string()`
  abbrev pub section : Place → Json → Text
  section v values = to_text (object (entry v.key values no_entries))

  unfoldable pub read_kv2 : Place → Text → Json → Result Reading Error
  unfolding complaint describe
  read_kv2 v p body = do
    values ← ok_or (and_then (get_json (text "data") body) (get_json (text "data"))) (
        complaint v (
          text "`"
          ++ (p
              ++ text
                  "` answered without `data.data`; is this a KV v2 mount? A dynamic-secret engine is read with `with_dynamic()`")))
    if is_null values
        then err (
            e.absent (
              describe v
              ++ (text ": `" ++ (p ++ text "` holds no values; the version is deleted"))))
        else ok (record {
          document = section v values;
          version =
              unwrap_or
                (and_then
                  (and_then (and_then (get_json (text "data") body) (get_json (text "metadata")))
                    (get_json (text "version")))
                  as_u64)
                0;
          lease = none;
        })

  unfoldable pub read_dynamic : ℕ → Place → Text → Json → Result Reading Error
  unfolding complaint describe lease_in
  read_dynamic now v p body = do
    values ← ok_or (get_json (text "data") body) (
        complaint v (
          text "`"
          ++ (p
              ++ text
                  "` answered without `data`; is this a secrets engine? A KV v2 mount is read without `with_dynamic()`")))
    if is_null values
        then err (e.absent (describe v ++ (text ": `" ++ (p ++ text "` issued no credential"))))
        else ok (record { document = section v values; version = 0; lease = lease_in now body })

  -- What `read_one` makes of the body of an answer.
  unfoldable pub reading_of : ℕ → Place → Text → Json → Result Reading Error
  unfolding read_kv2 read_dynamic
  reading_of now v p body = elim v.mode [
    | kv2 ↦ read_kv2 v p body
    | dynamic ↦ read_dynamic now v p body
  ]

  -- The paths that cannot be watched, and the ones that cannot be read as a dynamic secret.
  unfoldable pub single_path : Place → Result Text Error
  unfolding complaint
  single_path v = elim v.keys [
    | one p ↦ ok p
    | several paths ↦ err (
        complaint v (
          text
            "a source that reads several paths cannot be watched; poll `refresh_remote()` on a timer instead"))
  ]

  unfoldable pub single_dynamic_path : Place → Result Text Error
  unfolding complaint
  single_dynamic_path v = elim v.keys [
    | one p ↦ ok p
    | several paths ↦ err (
        complaint v (
          text
            "a dynamic-secret source reads one path. Each read mints a credential with its own lease, and merging them would leave every lease but one unrenewed — use one source per credential"))
  ]

  -- The version counter of the metadata; a mount without one is no KV v2 mount.
  unfoldable pub version_in : Place → Json → Result ℕ Error
  unfolding complaint
  version_in v body =
      ok_or
        (and_then (and_then (get_json (text "data") body) (get_json (text "current_version")))
          as_u64)
        (complaint v (text "the metadata has no `data.current_version`; is this a KV v2 mount?"))

  module _ (d : Documents e) (lease : Granted → d.Lease) where
    -- `read`, from the reading of the one path: the revision of a version, and the lease.
    unfoldable pub fetched_of : e.Format → Place → Reading → d.Fetched
    fetched_of json v read =
        let plain = d.fetched read.document json in
        let numbered : d.Fetched = elim v.mode [
          | kv2 ↦ d.with_revision (d.counter read.version) plain
          | dynamic ↦ plain
        ] in
        elim read.lease [ none ↦ numbered | some granted ↦ d.with_lease (lease granted) numbered ]
