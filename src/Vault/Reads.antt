-- ===== src/Vault/Reads.antt =====
-- dynamic-config-vault/src/lib.rs, `get_once`, `get` and what is built on them: reading secrets, and
-- the leases of dynamic ones.
pub mod Permits
mod Tests
use mathlib.Core.Option
use dynamic_config_remote.Common.{
  ℕ, Bool, true, false, List, [], ◌∷◌, ◌++◌, Option, none, some, Text, text, ◌==◌, if◌then◌else◌,
  Result, ok, err, ◌>>=◌, ok_or, map_err, decimal,
}
use dynamic_config_remote.Engine.{Engine, Documents}
use dynamic_config_remote.Json.{Json, object, number, entry, no_entries}
use dynamic_config_remote.Store.Concurrency.{StoreRuntimePolicy, InFlight, admit, give_back}
use dynamic_config_remote.Store.Credential.{Cached, invalidate}
use dynamic_config_remote.Store.Documents.{Overlap, later_wins, merged}
use dynamic_config_remote.Vault.{Auth, Session}
use dynamic_config_remote.Vault.Secrets.{
  Mode, kv2, dynamic, named, Granted, Reading, Place, describe, complaint, url, metadata_url,
  lease_in, reading_of, single_path, single_dynamic_path, version_in, fetched_of,
}
use dynamic_config_remote.Vault.Requests.{
  HttpError, is_status, Meets, pair, no_fields, can_relogin, CallError, forbidden, other,
  into_error, Vault, too_many, post, token_for,
}

module _ (e : Engine) (to_text : Json → Text) (latest : ℕ) where
  open e use {Error}

  abbrev V : Type 0
  V = Vault e to_text latest

  abbrev C : Type 0
  C = CallError e to_text latest

  -- A 403 is a refused token, and a 404 an answer: the path holds nothing.
  unfoldable pub call_error : V → HttpError → C
  unfolding describe
  call_error v error =
      let shown = describe e to_text v.place ++ (text ": " ++ error.shown) in
      if is_status 403 error
      then forbidden (e.auth shown)
      else if is_status 404 error
      then other (e.absent shown)
      else other (e.remote shown)

  unfoldable pub received : V → Text → Result (Result Json Text) HttpError → Result Json C
  unfolding call_error complaint
  received v what reply = do
    answered ← map_err (call_error v) reply
    map_err
        (λ error. other (
          complaint e to_text v.place
            (text "the " ++ (what ++ (text " response was not JSON: " ++ error)))))
        answered

  -- `get_once`: one request, under a permit that is held for as long as it takes.
  unfoldable pub get_once :
      V → Meets → ℕ × ℕ → (Text → Result (Result Json Text) HttpError) → Text → V × Result Json C
  unfolding admit give_back token_for received
  get_once v m times reply what =
      let (policy, admitted) = admit v.concurrency in
      let (after, held) = token_for e to_text latest (record v { concurrency = policy }) m times in
      elim admitted [
        | none ↦ (record v { concurrency = policy }, err (other (too_many e to_text latest v)))
        | some permit ↦ (
          record after { concurrency = give_back after.concurrency permit },
          map_err other held >>= λ secret. received v what (reply secret),
        )
      ]

  -- `get`: a token that was refused is replaced once, where there is a way to log in.
  unfoldable pub get_value : V → Meets → Text → V × Result Json Error
  unfolding get_once
  get_value v m what =
      let (after, answer) = get_once v m m.first_times m.first_reply what in
      let emptied : V = record after { session = invalidate after.session } in
      let (final, again) = get_once emptied m m.second_times m.second_reply what in
      elim answer [
        | ok value ↦ (after, ok value)
        | err (other error) ↦ (after, err error)
        | err (forbidden error) ↦
            if can_relogin v.auth
            then (final, map_err (into_error e to_text latest) again)
            else (after, err error)
      ]

  unfoldable pub read_one : ℕ → V → Meets → Text → V × Result Reading Error
  unfolding get_value reading_of
  read_one now v m p =
      let (after, body) = get_value v m (text "secret") in
      (after, body >>= λ b. reading_of e to_text now v.place p b)

  -- `CheckError`
  pub data CheckError : Type 0 where
    not_kv2 transient : Error → CheckError

  unfoldable pub current_version : V → Meets → V × Result ℕ CheckError
  unfolding single_path get_value version_in
  current_version v m = elim (single_path e to_text v.place) [
    | err error ↦ (v, err (transient error))
    | ok p ↦
        let (after, body) = get_value v m (text "metadata") in
        (after, map_err transient body >>= λ b. map_err not_kv2 (version_in e to_text v.place b))
  ]

  -- The paths in call order; the first that cannot be read fails the whole.
  unfoldable pub documents :
      ℕ → V → (Text → Meets) → List Text → V × Result (List (Text × Text)) Error
  unfolding read_one
  documents now v m [] = (v, ok [])
  documents now v m (p ∷ paths) =
      let (after, first) = read_one now v (m p) p in
      let (final, rest) = documents now after m paths in
      elim first [
        | err error ↦ (after, err error)
        | ok read ↦ (final, rest >>= λ more. ok ((p, read.document) ∷ more))
      ]

  -- `RenewableSource`: a renewal answers with the lease, as the issuing read did.
  unfoldable pub renew : ℕ → V → Meets → Granted → V × Result Granted Error
  unfolding token_for post lease_in complaint
  renew now v m granted =
      let (after, held) = token_for e to_text latest v m m.first_times in
      elim held [
        | err error ↦ (after, err error)
        | ok secret ↦
            let (final, response) =
              post e to_text latest after m (v.place.address ++ text "/v1/sys/leases/renew") secret
                (pair (text "lease_id") granted.id
                  (object (entry (text "increment") (number (decimal granted.ttl)) no_entries)))
                (text "the lease renewal") in
            (
              final,
              response >>= λ body.
                  ok_or (lease_in now body)
                    (complaint e to_text v.place (text "the renewal answered without a lease")),
            )
      ]

  unfoldable pub revoke : V → Meets → Granted → V × Result (Unit {0}) Error
  unfolding token_for post
  revoke v m granted =
      let (after, held) = token_for e to_text latest v m m.first_times in
      elim held [
        | err error ↦ (after, err error)
        | ok secret ↦
            let (final, response) =
              post e to_text latest after m (v.place.address ++ text "/v1/sys/leases/revoke") secret
                (pair (text "lease_id") granted.id no_fields) (text "the lease revocation") in
            (final, response >>= λ body. ok tt)
      ]

  module _ (d : Documents e) (lease : Granted → d.Lease) (json : e.Format) where
    unfoldable pub read : ℕ → V → Meets → V × Result (d.Fetched × ℕ) Error
    unfolding single_path read_one fetched_of
    read now v m = elim (single_path e to_text v.place) [
      | err error ↦ (v, err error)
      | ok p ↦
          let (after, answer) = read_one now v m p in
          (after, answer >>= λ r. ok (fetched_of e to_text d lease json v.place r, r.version))
    ]

    -- `fetch`: a dynamic secret is never merged, which would drop its lease.
    unfoldable pub fetch : ℕ → V → (Text → Meets) → V × Result d.Fetched Error
    unfolding single_dynamic_path read documents describe
    fetch now v m = elim v.place.mode [
      | kv2 ↦
          let (after, found) = documents now v m (named v.place.keys) in
          (after, found >>= λ pairs. merged e d pairs json later_wins (describe e to_text v.place))
      | dynamic ↦ elim (single_dynamic_path e to_text v.place) [
        | err error ↦ (v, err error)
        | ok p ↦ let (after, answer) = read now v (m p) in (after, answer >>= λ r. ok r.0)
      ]
    ]
