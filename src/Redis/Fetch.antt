-- ===== src/Redis/Fetch.antt =====
-- What a fetch answers with, and what it does to the connection.
use dynamic_config_remote.Common.{
  ◌≡◌, ◌⊎◌, refl, sym, ap, ◌∙◌, List, [], ◌∷◌, Option, none, some, Text, length, map, ok, err,
  ◌>>=◌, map_err, map_err-eq-ok, >>=-eq-ok, ok_injective, Result-cases, Result-differ, Option-cases,
  arith, inl, inr, subst,
}
use dynamic_config_remote.Engine.{Engine, Documents}
use dynamic_config_remote.Store.Documents.{merged}
use dynamic_config_remote.Redis.{
  Redis, Server, describe, overlap, settled_format, classified, keys_to_read, held, some_keys,
  read_on, read, fetch,
}

module _ (e : Engine) (Connection : Type 0) where
  open e use {Error, Format}

  abbrev pub keys_of : List (Text × Text) → List Text
  keys_of = map (λ p. p.0)

  abbrev pub values_of : List (Text × Text) → List (Option Text)
  values_of = map (λ p. some p.1)

  -- An `MGET` is answered with one value, or nil, for each of its keys.
  abbrev pub IsServer : Server e Connection → Type 0
  IsServer server =
      (c : Connection) (keys : List Text) (values : List (Option Text))
      → server.mget c keys ≡ ok values
      → length values ≡ length keys

  held_sound :
      (r : Redis e Connection) (keys : List Text) (values : List (Option Text))
      (documents : List (Text × Text))
      → length values ≡ length keys
      → held e Connection r keys values ≡ ok documents
      → (keys ≡ keys_of documents) × (values ≡ values_of documents)
  unfolding held
  held_sound r [] [] documents same h =
      subst (λ ds. ([] ≡ keys_of ds) × ([] ≡ values_of ds)) (ok_injective h) (refl, refl)
  held_sound r [] (v ∷ values) documents same h = absurd (omega (arith, same))
  held_sound r (key ∷ keys) [] documents same h = absurd (omega (arith, same))
  held_sound r (key ∷ keys) (none ∷ values) documents same h = cc
  held_sound r (key ∷ keys) (some value ∷ values) documents same h =
      let (rest, later, h') = >>=-eq-ok (held e Connection r keys values) _ h in
      let (ks, vs) = held_sound r keys values rest (omega (arith, same)) later in
      subst (λ ds. (key ∷ keys ≡ keys_of ds) × (some value ∷ values ≡ values_of ds))
        (ok_injective h') (ap (◌∷◌ key) ks, ap (◌∷◌ (some value)) vs)

  -- Every key was read by one `MGET`, and every one of them held a value.
  abbrev pub IsRead : Redis e Connection → Server e Connection → List (Text × Text) → Type 0
  IsRead r server documents =
      (c : Connection) × (keys_to_read e Connection r server c ≡ ok (keys_of documents))
      × (server.mget c (keys_of documents) ≡ ok (values_of documents))

  read_on_sound :
      (r : Redis e Connection) (server : Server e Connection) (c : Connection)
      (documents : List (Text × Text))
      → IsServer server
      → read_on e Connection r server c ≡ ok documents
      → IsRead r server documents
  unfolding read_on
  read_on_sound r server c documents is h =
      let (keys, listed, h₁) = >>=-eq-ok (keys_to_read e Connection r server c) _ h in
      let (u, some_key, h₂) = >>=-eq-ok (some_keys e Connection r keys) _ h₁ in
      let (values, answered, h₃) =
        >>=-eq-ok (map_err (classified e Connection r) (server.mget c keys)) _ h₂ in
      let got = map_err-eq-ok (classified e Connection r) (server.mget c keys) answered in
      let (ks, vs) = held_sound r keys values documents (is c keys values got) h₃ in
      (
        c,
        listed ∙ ap ok ks,
        subst (λ k. server.mget c k ≡ ok (values_of documents)) ks (got ∙ ap ok vs),
      )

  read_sound :
      (r : Redis e Connection) (server : Server e Connection) (documents : List (Text × Text))
      → IsServer server
      → (read e Connection r server).1 ≡ ok documents
      → IsRead r server documents
  unfolding read
  read_sound r server documents is h = elim (Option-cases r.connection) [
    | inr (c, kept) ↦ read_on_sound r server c documents is (rw (read, kept) at h)
    | inl absent ↦ elim (Result-cases server.opening) [
      | inl (c, opened) ↦ read_on_sound r server c documents is (rw (read, absent, opened) at h)
      | inr (error, failed) ↦ absurd (Result-differ (rw (read, absent, failed) at h))
    ]
  ]

  module _ (d : Documents e) where
    -- The document is folded from what one `MGET` read, under the settings of the source.
    abbrev pub IsSnapshot : Redis e Connection → Server e Connection → d.Fetched → Type 0
    IsSnapshot r server x =
        (format : Format) × (documents : List (Text × Text)) × (settled_format e Connection r
          ≡ ok format)
        × IsRead r server documents
        × (merged e d documents format (overlap r.keys) (describe e Connection r) ≡ ok x)

    fetch_cases :
        (r : Redis e Connection) (server : Server e Connection) (format : Format)
        → settled_format e Connection r ≡ ok format
        → ((x : d.Fetched) × ((fetch e Connection d r server).1 ≡ ok x)
            × (((fetch e Connection d r server).0).connection
                ≡ ((read e Connection r server).0).connection)
            × (((read e Connection r server).1 >>= λ found.
                  merged e d found format (overlap r.keys) (describe e Connection r))
                ≡ ok x))
          ⊎ ((error : Error) × ((fetch e Connection d r server).1 ≡ err error)
              × (((fetch e Connection d r server).0).connection ≡ none))
    unfolding fetch
    fetch_cases r server format settled =
        elim (Result-cases (
          (read e Connection r server).1 >>= λ found.
          merged e d found format (overlap r.keys) (describe e Connection r))) [
            | inl (x, fine) ↦
                inl (x, rw (fetch, settled, fine) refl, rw (fetch, settled, fine) refl, fine)
            | inr (error, bad) ↦
                inr (error, rw (fetch, settled, bad) refl, rw (fetch, settled, bad) refl)
          ]

    -- What a fetch answers with is one state of the server, never a mixture: every key of the source
    -- was read by one `MGET`, every one of them held a value, and the document is what these fold to.
    pub fetch-IsSnapshot :
        (r : Redis e Connection) (server : Server e Connection) (x : d.Fetched)
        → IsServer server
        → (fetch e Connection d r server).1 ≡ ok x
        → IsSnapshot r server x
    unfolding fetch
    fetch-IsSnapshot r server x is h = elim (Result-cases (settled_format e Connection r)) [
      | inr (error, unsettled) ↦ absurd (Result-differ (rw (fetch, unsettled) at h))
      | inl (format, settled) ↦ elim (fetch_cases r server format settled) [
        | inr (error, failed, dropped) ↦ absurd (Result-differ (sym failed ∙ h))
        | inl (y, fine, kept, both) ↦
            let (documents, was_read, folds) = >>=-eq-ok (read e Connection r server).1 _ both in
            (
              format,
              documents,
              settled,
              read_sound r server documents is was_read,
              folds ∙ (sym fine ∙ h),
            )
      ]
    ]

    -- Whatever a fetch does, it changes nothing of the source but the connection that it keeps.
    abbrev pub Keeps : Redis e Connection → Redis e Connection → Type 0
    Keeps r after = (c : Option Connection) × (after ≡ record r { connection = c })

    read-Keeps :
        (r : Redis e Connection) (server : Server e Connection)
        → Keeps r (read e Connection r server).0
    unfolding read
    read-Keeps r server = elim (Option-cases r.connection) [
      | inr (c, kept) ↦ rw (read, kept) (r.connection, refl)
      | inl absent ↦ elim (Result-cases server.opening) [
        | inl (c, opened) ↦ rw (read, absent, opened) (some c, refl)
        | inr (error, shut) ↦ rw (read, absent, shut) (r.connection, refl)
      ]
    ]

    pub fetch-Keeps :
        (r : Redis e Connection) (server : Server e Connection)
        → Keeps r (fetch e Connection d r server).0
    unfolding fetch
    fetch-Keeps r server = elim (Result-cases (settled_format e Connection r)) [
      | inr (error, unsettled) ↦ rw (fetch, unsettled) (r.connection, refl)
      | inl (format, settled) ↦
          let (c, same) = read-Keeps r server in
          elim (Result-cases (
            (read e Connection r server).1 >>= λ found.
            merged e d found format (overlap r.keys) (describe e Connection r))) [
              | inl (x, fine) ↦ rw (fetch, settled, fine) (c, same)
              | inr (error, bad) ↦
                  rw (fetch, settled, bad)
                    (none, ap (λ (s : Redis e Connection). record s { connection = none }) same)
            ]
    ]

    abbrev pub IsKept : Redis e Connection → Server e Connection → Option Connection → Type 0
    IsKept r server kept =
        (c : Connection) × (kept ≡ some c)
        × ((r.connection ≡ some c) ⊎ ((r.connection ≡ none) × (server.opening ≡ ok c)))

    read-IsKept :
        (r : Redis e Connection) (server : Server e Connection) (documents : List (Text × Text))
        → (read e Connection r server).1 ≡ ok documents
        → IsKept r server ((read e Connection r server).0).connection
    unfolding read
    read-IsKept r server documents h = elim (Option-cases r.connection) [
      | inr (c, kept) ↦ (c, rw (read, kept) kept, inl kept)
      | inl absent ↦ elim (Result-cases server.opening) [
        | inl (c, opened) ↦ (c, rw (read, absent, opened) refl, inr (absent, opened))
        | inr (error, shut) ↦ absurd (Result-differ (rw (read, absent, shut) at h))
      ]
    ]

    -- After a fetch that went to the server and failed, no connection is kept, so the next one opens a
    -- fresh one; after one that succeeded the connection that it read on is kept.
    pub fetch_connection :
        (r : Redis e Connection) (server : Server e Connection) (format : Format)
        → settled_format e Connection r ≡ ok format
        → ((error : Error)
            → (fetch e Connection d r server).1 ≡ err error
            → ((fetch e Connection d r server).0).connection ≡ none)
          × ((x : d.Fetched)
              → (fetch e Connection d r server).1 ≡ ok x
              → IsKept r server ((fetch e Connection d r server).0).connection)
    fetch_connection r server format settled = elim (fetch_cases r server format settled) [
      | inr (error, bad, dropped) ↦
          (λ error' h. dropped, λ x h. absurd (Result-differ (sym bad ∙ h)))
      | inl (y, fine, same, both) ↦ (
        λ error h. absurd (Result-differ (sym h ∙ fine)),
        λ x h.
            let (documents, was_read, folds) = >>=-eq-ok (read e Connection r server).1 _ both in
            subst (IsKept r server) (sym same) (read-IsKept r server documents was_read),
      )
    ]
