-- ===== src/Firestore/Session.antt =====
-- dynamic-config-firestore/src/auth.rs, and the requests of lib.rs: a token, and what it is sent with.
use dynamic_config_remote.Common.{
  ℕ, ◌*◌, Bool, false, ◌++◌, Option, none, some, Text, text, ltb, ◌==◌, ◌||◌, if◌then◌else◌, Result,
  ok, err, ◌>>=◌, ok_or, map_err,
}
use dynamic_config_remote.Engine.{Engine}
use dynamic_config_remote.Json.{Json, get_json, as_str, as_u64, and_then}
use dynamic_config_remote.Store.Credential.{Cached, Issued, second, get, invalidate}
use dynamic_config_remote.Firestore.{
  emulator, access_token, metadata_server, can_refresh, Firestore, describe, complaint,
}

-- What is read of a `ureq::Error`.
pub record HttpError : Type 0 where
  pub status : Option ℕ
  pub shown : Text

abbrev pub is_status : ℕ → HttpError → Bool
is_status code error = elim error.status [ none ↦ false | some s ↦ s == code ]

-- An answer: an error, or a body that is JSON or the text of why it is none.
abbrev pub Reply : Type 0
Reply = Result (Result Json Text) HttpError

-- What a request meets: the answer of the metadata server, the answers to the request with its token,
-- for the first time and for the retry, and the clock at the check and behind the trip.
pub record Meets : Type 0 where
  pub metadata : Text → Reply
  pub first_reply : Option Text → Reply
  pub second_reply : Option Text → Reply
  pub first_times : ℕ × ℕ
  pub second_times : ℕ × ℕ

module _ (e : Engine) (latest : ℕ) where
  open e use {Error}

  pub data CallError : Type 0 where
    unauthorized forbidden other : Error → CallError

  abbrev pub into_error : CallError → Error
  into_error (unauthorized error) = error
  into_error (forbidden error) = error
  into_error (other error) = error

  -- The metadata server that answers and refuses is a failure of authentication.
  abbrev pub mint_error : HttpError → Error
  mint_error error =
      let shown = text "firestore: the metadata server: " ++ error.shown in
      if is_status 401 error || is_status 403 error then e.auth shown else e.remote shown

  -- A length of zero does not end.
  unfoldable pub issued_by : Json → Result (Issued Text) Error
  issued_by response = do
    secret ←
        ok_or (and_then (get_json (text "access_token") response) as_str)
          (e.remote (text "firestore: the metadata server returned no `access_token`"))
    ok (record {
      value = secret;
      ttl =
          and_then (and_then (get_json (text "expires_in") response) as_u64)
            λ seconds. if ltb 0 seconds then some (seconds * second) else none;
    })

  unfoldable pub mint : (Text → Reply) → Text → Result (Issued Text) Error
  unfolding issued_by
  mint metadata url = do
    answered ← map_err mint_error (metadata url)
    response ←
        map_err
          (λ error.
            e.remote (text "firestore: the metadata server's response was not JSON: " ++ error))
          answered
    issued_by response

  -- `bearer`: the session, and what it presents. What was held before is not looked at.
  unfoldable pub bearer : Firestore → Meets → ℕ × ℕ → Cached Text × Result (Option Text) Error
  unfolding get mint
  bearer f m (now, later) = elim f.auth [
    | emulator ↦ (f.session, ok none)
    | access_token token ↦ (f.session, ok (some token))
    | metadata_server url ↦
        let o = get latest f.session now later (λ previous. mint m.metadata url) in
        (o.cache, o.answer >>= λ secret. ok (some secret))
  ]

  unfoldable pub sorted : Firestore → HttpError → CallError
  unfolding describe
  sorted f error =
      let shown = describe f ++ (text ": " ++ error.shown) in
      if is_status 401 error
      then unauthorized (e.auth shown)
      else if is_status 403 error
      then forbidden (e.auth shown)
      else other (e.remote shown)

  unfoldable pub received : Firestore → Reply → Result Json CallError
  unfolding sorted complaint
  received f reply = do
    answered ← map_err (sorted f) reply
    map_err (λ error. other (complaint e f (text "the response was not JSON: " ++ error))) answered

  -- `get_once` and `post_once`: one request, under the token of the moment.
  unfoldable pub call_once :
      Firestore → Meets → ℕ × ℕ → (Option Text → Reply) → Firestore × Result Json CallError
  unfolding bearer received
  call_once f m times reply =
      let (session, held) = bearer f m times in
      (record f { session = session }, map_err other held >>= λ token. received f (reply token))

  -- `get` and `post`: a token that was refused is replaced once, where there is another to ask for.
  unfoldable pub call : Firestore → Meets → Firestore × Result Json Error
  unfolding call_once
  call f m =
      let (after, answer) = call_once f m m.first_times m.first_reply in
      let (final, again) =
        call_once (record after { session = invalidate after.session }) m m.second_times
          m.second_reply in
      elim answer [
        | ok value ↦ (after, ok value)
        | err (forbidden error) ↦ (after, err error)
        | err (other error) ↦ (after, err error)
        | err (unauthorized error) ↦
            if can_refresh f.auth then (final, map_err into_error again) else (after, err error)
      ]
