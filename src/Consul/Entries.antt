-- ===== src/Consul/Entries.antt =====
-- dynamic-config-consul/src/lib.rs, from what the agent answers to documents.
use dynamic_config_remote.Common.{
  ℕ, Bool, true, false, not, List, [], ◌∷◌, ◌++◌, Option, none, some, Text, text, trim_start_char,
  ends_with_char, if◌then◌else◌, Result, ok, err, ◌>>=◌, ok_or, map_err, ensure, is_empty, length,
}
use dynamic_config_remote.Engine.{Engine, Documents}
use dynamic_config_remote.Json.{Json, get_json, as_str, and_then, unwrap_or}
use dynamic_config_remote.Store.Documents.{refused, merged, within_key_budget, under_prefix}
use dynamic_config_remote.Store.Tls.{TlsConfig}
use dynamic_config_remote.Consul.{
  one, several, prefix, named, overlap, Reply, Agent, Consul, describe, complaint, settled_format,
}
use dynamic_config_remote.Consul.Session.{get_reply}

-- The decoder of base64 and `String::from_utf8`, with the text of their errors.
pub record Decoder : Type 0 where
  pub base64 : Text → Result (List ℕ) Text
  pub from_utf8 : List ℕ → Result Text Text

module _ (e : Engine) (latest : ℕ) (decoder : Decoder) where
  open e use {Error, Format}

  -- The text that stands under a key, from the value of its entry.
  unfoldable pub text_of : Consul e → Text → Option Text → Result Text Error
  unfolding complaint
  text_of c key value = do
    encoded ← ok_or value (complaint e c (text "`" ++ (key ++ text "` holds no value")))
    decoded ←
        map_err
          (λ error. complaint e c (text "`" ++ (key ++ (text "` is not valid base64: " ++ error))))
          (decoder.base64 encoded)
    map_err (λ error. complaint e c (text "`" ++ (key ++ (text "` is not UTF-8: " ++ error))))
        (decoder.from_utf8 decoded)

  abbrev pub key_of_entry : Option Text → Json → Text
  key_of_entry expected entry = elim (and_then (get_json (text "Key") entry) as_str) [
    | some key ↦ key
    | none ↦ unwrap_or expected []
  ]

  -- An entry that a source reads: under a prefix a key that ends in a slash is a folder, and skipped.
  unfoldable pub taken : Consul e → Text → Result Bool Error
  unfolding describe
  taken c key = elim c.keys [
    | one k ↦ ok true
    | several ks ↦ ok true
    | prefix p ↦ do
      _ ← under_prefix e key (trim_start_char b'/' p) (describe e c)
      ok (not (ends_with_char b'/' key))
  ]

  unfoldable pub pairs_of_entries :
      Consul e → Option Text → List Json → Result (List (Text × Text)) Error
  unfolding text_of taken
  pairs_of_entries c expected [] = ok []
  pairs_of_entries c expected (entry ∷ entries) =
      let key = key_of_entry expected entry in
      let later = pairs_of_entries c expected entries in
      taken c key >>= λ wanted.
      if wanted
      then (do
        found ← text_of c key (and_then (get_json (text "Value") entry) as_str)
        rest ← later
        ok ((key, found) ∷ rest))
      else later

  -- A key that was asked for by name and has no entry holds nothing.
  unfoldable pub present : Consul e → Option Text → List Json → Result (Unit {0}) Error
  unfolding complaint
  present c none entries = ok tt
  present c (some key) entries =
      ensure (not (is_empty entries)) (complaint e c (text "`" ++ (key ++ text "` holds no value")))

  unfoldable pub pairs_of : Consul e → Option Text → List Json → Result (List (Text × Text)) Error
  unfolding present pairs_of_entries
  pairs_of c expected entries = do
    _ ← present c expected entries
    pairs_of_entries c expected entries

  abbrev pub not_json : Consul e → Text → Error
  not_json c error = complaint e c (text "the response was not JSON: " ++ error)

  -- `read`, of a key or of a subtree, from the body of the answer.
  unfoldable pub read_body : Consul e → Text → Bool → Reply → Result (List (Text × Text)) Error
  unfolding pairs_of complaint describe
  read_body c key recurse reply = do
    entries ← map_err (not_json c) reply.body
    _ ← (if recurse then within_key_budget e (length entries) (describe e c) else ok tt)
    pairs_of c (if recurse then none else some key) entries

  unfoldable pub read :
      Consul e → Agent → Text → Bool → Consul e × Result (List (Text × Text)) Error
  unfolding get_reply read_body
  read c a key recurse =
      let (after, answered) = get_reply e latest c a in
      (after, answered >>= λ reply. read_body c key recurse reply)

  -- A named list, key by key.
  unfoldable pub read_all :
      Consul e → (Text → Agent) → List Text → Consul e × Result (List (Text × Text)) Error
  unfolding read
  read_all c agent_for [] = (c, ok [])
  read_all c agent_for (key ∷ keys) =
      let (after, first) = read c (agent_for key) key false in
      let (final, rest) = read_all after agent_for keys in
      elim first [
        | err error ↦ (after, err error)
        | ok pairs ↦ (final, rest >>= λ more. ok (pairs ++ more))
      ]

  unfoldable pub documents :
      Consul e → (Text → Agent) → Consul e × Result (List (Text × Text)) Error
  unfolding read read_all
  documents c agent_for = elim c.keys [
    | one key ↦ read c (agent_for key) key false
    | several keys ↦ read_all c agent_for keys
    | prefix p ↦ read c (agent_for p) p true
  ]

  -- An agent of the caller's carries its own TLS settings: a second set is refused.
  unfoldable pub agent_of :
      Consul e → (TlsConfig → Result (Unit {0}) Error) → Result (Unit {0}) Error
  unfolding complaint
  agent_of c build =
      if c.agent
      then elim c.tls [
        | none ↦ ok tt
        | some tls ↦ err (
            complaint e c (
              text
                "`with_agent` and `with_tls` were both called; an agent already carries its own TLS configuration, so this is refused rather than resolved — put the certificate authority on the agent, or drop the agent"))
      ]
      else elim c.tls [ none ↦ ok tt | some tls ↦ build tls ]

  -- `pairs.pop()`, without its key.
  abbrev pub last_text : List (Text × Text) → Option Text
  last_text [] = none
  last_text ((key, found) ∷ []) = some found
  last_text (pair ∷ next ∷ pairs) = last_text (next ∷ pairs)

  -- What a watch makes of the entries of an answer: nothing where the key holds nothing.
  unfoldable pub watched_text :
      Documents e → Consul e → Bool → Format → List Json → Result (Option Text) Error
  unfolding pairs_of describe
  watched_text d c false format entries =
      ok (elim (pairs_of c (elim (named c.keys) [ [] ↦ none | key ∷ keys ↦ some key ]) entries) [
        | err error ↦ none
        | ok pairs ↦ last_text pairs
      ])
  watched_text d c true format entries = do
    _ ← within_key_budget e (length entries) (describe e c)
    pairs ← pairs_of c none entries
    if is_empty pairs then ok none else (do
      document ← merged e d pairs format refused (describe e c)
      ok (some (d.text_of document)))

  module _ (d : Documents e) where
    unfoldable pub fetch :
        Consul e
        → (TlsConfig → Result (Unit {0}) Error)
        → (Text → Agent)
        → Consul e × Result d.Fetched Error
    unfolding settled_format agent_of documents describe
    fetch c build agent_for =
        elim (do format ← settled_format e c; _ ← agent_of c build; ok format) [
          | err error ↦ (c, err error)
          | ok format ↦
              let (after, found) = documents c agent_for in
              (after, found >>= λ pairs. merged e d pairs format (overlap c.keys) (describe e c))
        ]
