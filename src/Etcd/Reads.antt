-- ===== src/Etcd/Reads.antt =====
-- dynamic-config-etcd/src/lib.rs: reading a key, a list of keys or the range of a prefix.
use dynamic_config_remote.Common.{
  ℕ, Bool, List, [], ◌∷◌, ◌++◌, Option, none, some, Text, text, leb, if◌then◌else◌, Result, ok, err,
  ◌>>=◌, map_err, ensure, is_empty, length, decimal,
}
use dynamic_config_remote.Engine.{Engine, Documents}
use dynamic_config_remote.Store.Documents.{merged, within_key_budget, under_prefix}
use dynamic_config_remote.Etcd.{
  most_transaction_keys, overlap, EtcdError, KeyValue, OpResponse, Cluster, Etcd, describe,
  complaint, settled_format, classified, wrapped, is_expired_token, one, several, prefix, got,
  something_else,
}

module _ (e : Engine) (debug_duration : ℕ → Text) where
  open e use {Error, Format}

  abbrev pub Source : Type 0
  Source = Etcd e debug_duration

  -- Under a prefix, a key that is not there is refused.
  unfoldable pub expected_key : Source → Text → Result (Unit {0}) Error
  unfolding describe
  expected_key s key = elim s.keys [
    | prefix p ↦ under_prefix e key p (describe e debug_duration s)
    | one k ↦ ok tt
    | several ks ↦ ok tt
  ]

  unfoldable pub pair_of : Source → KeyValue → Result (Text × Text) Error
  unfolding complaint expected_key
  pair_of s kv = do
    key ←
        map_err (λ error. complaint e debug_duration s (text "a key is not UTF-8: " ++ error))
          kv.key
    _ ← expected_key s key
    value ←
        map_err
          (λ error.
            complaint e debug_duration s (text "`" ++ (key ++ (text "` is not UTF-8: " ++ error))))
          kv.value
    ok (key, value)

  unfoldable pub pairs : Source → List KeyValue → Result (List (Text × Text)) Error
  unfolding pair_of
  pairs s [] = ok []
  pairs s (kv ∷ kvs) = do first ← pair_of s kv; rest ← pairs s kvs; ok (first ∷ rest)

  unfoldable pub present : Source → Option Text → List KeyValue → Result (Unit {0}) Error
  unfolding complaint
  present s none kvs = ok tt
  present s (some key) kvs =
      if is_empty kvs
      then err (complaint e debug_duration s (text "`" ++ (key ++ text "` holds no value")))
      else ok tt

  unfoldable pub pairs_of : Source → Option Text → List KeyValue → Result (List (Text × Text)) Error
  unfolding present pairs
  pairs_of s expected kvs = do _ ← present s expected kvs; pairs s kvs

  -- Zipped with the request: an empty range does not say which key is missing.
  unfoldable pub answers_of :
      Source → List Text → List OpResponse → Result (List (Text × Text)) Error
  unfolding pairs_of complaint
  answers_of s (key ∷ keys) (got kvs ∷ answers) = do
    first ← pairs_of s (some key) kvs
    rest ← answers_of s keys answers
    ok (first ++ rest)
  answers_of s (key ∷ keys) (something_else ∷ answers) =
      err (complaint e debug_duration s (text "the store answered a read with something else"))
  answers_of s _ _ = ok []

  -- A range that is read as a set: no more keys than one document is folded from.
  unfoldable pub set_of : Source → List KeyValue → Result (List (Text × Text)) Error
  unfolding pairs_of describe
  set_of s kvs = do
    _ ← within_key_budget e (length kvs) (describe e debug_duration s)
    pairs_of s none kvs

  abbrev pub in_time :
      Bool → Error → Result (List (Text × Text)) Error → Result (List (Text × Text)) Error
  in_time late error answer = if late then err error else answer

  -- `range_at`: the keys of a prefix as they were at a revision.
  unfoldable pub range_at : Source → Cluster → Text → ℕ → Result (List (Text × Text)) Error
  unfolding set_of complaint
  range_at s cluster p revision =
      in_time cluster.late
        (complaint e debug_duration s (
          text "timed out after "
          ++ (debug_duration s.timeout
              ++ text " re-reading the range the watch reported a change to")))
        (map_err (wrapped e debug_duration s) (cluster.prefixed p (some revision)) >>= λ kvs.
          set_of s kvs)

  -- A list that one transaction does not carry is refused before anything is asked.
  unfoldable pub carried : Source → List Text → Result (Unit {0}) Error
  unfolding complaint
  carried s keys = ensure (leb (length keys) most_transaction_keys) (
      complaint e debug_duration s (
        decimal (length keys)
        ++ (text " keys is more than the "
            ++ (decimal most_transaction_keys
                ++ text
                    " one etcd transaction carries (`--max-txn-ops`); reading them would take several round trips at several revisions, which is the torn document this avoids — read a prefix, or install a source per group"))))

  unfoldable pub get_once : Source → Cluster → Result (List (Text × Text)) Error
  unfolding carried pairs_of answers_of set_of complaint
  get_once s cluster =
      let timed_out =
        complaint e debug_duration s (text "timed out after " ++ debug_duration s.timeout) in
      elim s.keys [
        | one key ↦ in_time cluster.late timed_out (
            map_err (wrapped e debug_duration s) (cluster.range key) >>= λ kvs.
            pairs_of s (some key) kvs)
        | several keys ↦ do
          _ ← carried s keys
          in_time cluster.late timed_out (
              map_err (wrapped e debug_duration s) (cluster.txn keys) >>= λ answers.
              answers_of s keys answers)
        | prefix p ↦
            in_time cluster.late timed_out (
              map_err (wrapped e debug_duration s) (cluster.prefixed p none) >>= λ kvs.
              set_of s kvs)
      ]

  -- `refresh_token`, from the client's answer.
  unfoldable pub refreshed : Source → Result (Unit {0}) EtcdError → Result (Unit {0}) Error
  unfolding describe classified
  refreshed s answer =
      map_err
        (λ error.
          classified e debug_duration
            (describe e debug_duration s
              ++ (text ": the auth token expired and could not be replaced: " ++ error.shown))
            error)
        answer

  -- A read whose token expired: one refresh and one retry.
  unfoldable pub with_refresh {ℓ} :
      {A : Type ℓ}
      → Source
      → Result A Error
      → Result (Unit {0}) EtcdError
      → Result A Error
      → Result A Error
  unfolding is_expired_token refreshed
  with_refresh s first refresh again = elim first [
    | ok answer ↦ ok answer
    | err error ↦
        if is_expired_token e debug_duration error
        then (refreshed s refresh >>= λ u. again)
        else err error
  ]

  module _ (d : Documents e) where
    unfoldable pub fetch :
        Source → Cluster → Result (Unit {0}) EtcdError → Cluster → Result d.Fetched Error
    unfolding settled_format with_refresh get_once describe
    fetch s cluster refresh again = do
      format ← settled_format e debug_duration s
      documents ← with_refresh s (get_once s cluster) refresh (get_once s again)
      merged e d documents format (overlap s.keys) (describe e debug_duration s)
