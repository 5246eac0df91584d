-- ===== src/Etcd/Watch/Pinned.antt =====
-- At which revision the documents of a prefix are read.
use dynamic_config_remote.Common.{
  ℕ, ◌≡◌, ◌⊎◌, refl, sym, subst, List, ◌∷◌, none, some, true, false, Text, Result, ok, err,
  Result-cases, Result-differ, Bool-cases, Option-cases, inl, inr, is_empty,
}
use dynamic_config_remote.Engine.{Engine, Documents}
use dynamic_config_remote.Store.Attempts.{Callback, guarded}
use dynamic_config_remote.Store.Attempts.Traces.{delivered-failed}
use dynamic_config_remote.Store.Documents.{refused, merged}
use dynamic_config_remote.Etcd.{prefix, EtcdError, Etcd, Cluster, describe, is_expired_token}
use dynamic_config_remote.Etcd.Reads.{refreshed, range_at, with_refresh}
use dynamic_config_remote.Etcd.Watch.{
  WatchResponse, Watched, deliver, received, on_set, on_batch, on_message, batch,
}

module _ (e : Engine) (debug_duration : ℕ → Text) (d : Documents e) (on_change : Callback e d)
    (format : e.Format) (s : Etcd e debug_duration) where
  open e use {Error}

  abbrev W : Type 0
  W = Watched e debug_duration d on_change format s

  -- The range at this revision, read before or after the token was refreshed, as one document.
  abbrev pub IsPinned : Text → ℕ → Cluster → Cluster → d.Fetched → Type 0
  IsPinned p revision cluster again x =
      (documents : List (Text × Text)) × (folded : d.Fetched) × ((range_at e debug_duration s
            cluster p revision
          ≡ ok documents)
        ⊎ (range_at e debug_duration s again p revision ≡ ok documents))
      × (merged e d documents format refused (describe e debug_duration s) ≡ ok folded)
      × (x ≡ d.with_revision (d.counter revision) folded)

  with_refresh-eq-ok :
      {A : Type 0} (first again : Result A Error) (refresh : Result (Unit {0}) EtcdError) (a : A)
      → with_refresh e debug_duration s first refresh again ≡ ok a
      → (first ≡ ok a) ⊎ (again ≡ ok a)
  unfolding with_refresh
  with_refresh-eq-ok (ok b) again refresh a h = inl h
  with_refresh-eq-ok (err error) again refresh a h =
      elim (Bool-cases (is_expired_token e debug_duration error)) [
        | inr other ↦ absurd (Result-differ (rw (with_refresh, other) at h))
        | inl expired ↦ elim (Result-cases (refreshed e debug_duration s refresh)) [
          | inr (failure, bad) ↦ absurd (Result-differ (rw (with_refresh, expired, bad) at h))
          | inl (u, fine) ↦ inr (rw (with_refresh, expired, fine) at h)
        ]
      ]

  -- Why there is no document of the range at this revision: it cannot be read, also not after a
  -- refresh, it holds nothing, or what it holds does not fit together.
  abbrev pub Unread : Text → ℕ → Cluster → Result (Unit {0}) EtcdError → Cluster → Type 0
  Unread p revision cluster refresh again =
      let answer =
        with_refresh e debug_duration s (range_at e debug_duration s cluster p revision) refresh
          (range_at e debug_duration s again p revision) in
      ((error : Error) × (answer ≡ err error))
      ⊎ ((documents : List (Text × Text)) × (answer ≡ ok documents)
          × ((is_empty documents ≡ true)
              ⊎ ((error : Error) × (merged e d documents format refused
                      (describe e debug_duration s)
                    ≡ err error))))

  -- What a step delivers of the range: nothing where there is no document of it, or else the document
  -- of it at the revision.
  abbrev pub Delivers : Text → ℕ → Cluster → Result (Unit {0}) EtcdError → Cluster → W → W → Type 0
  Delivers p revision cluster refresh again w after =
      ((after.trace.delivered ≡ w.trace.delivered) × Unread p revision cluster refresh again)
      ⊎ ((x : d.Fetched) × IsPinned p revision cluster again x
          × (after.trace.delivered ≡ x ∷ w.trace.delivered))

  on_set-Delivers :
      (w : W) (p : Text) (revision : ℕ) (cluster : Cluster) (refresh : Result (Unit {0}) EtcdError)
      (again : Cluster)
      → Delivers p revision cluster refresh again w
          (on_set e debug_duration d on_change format s w p revision cluster refresh again).0
  unfolding on_set deliver guarded
  on_set-Delivers w p revision cluster refresh again =
      let first = range_at e debug_duration s cluster p revision in
      let second = range_at e debug_duration s again p revision in
      elim (Result-cases (with_refresh e debug_duration s first refresh second)) [
        | inr (error, bad) ↦
            inl (rw (on_set, bad) (delivered-failed e d s.attempts error w.trace), inl (error, bad))
        | inl (documents, fine) ↦ elim (Bool-cases (is_empty documents)) [
          | inl gone ↦ inl (rw (on_set, fine, gone) refl, inr (documents, fine, inl gone))
          | inr some_keys ↦
              elim (Result-cases
                (merged e d documents format refused (describe e debug_duration s))) [
                  | inr (error, torn) ↦ inl (
                    rw (on_set, fine, some_keys, torn)
                        (delivered-failed e d s.attempts error w.trace),
                    inr (documents, fine, inr (error, torn)),
                  )
                  | inl (folded, whole) ↦ inr (
                    d.with_revision (d.counter revision) folded,
                    (
                      documents,
                      folded,
                      with_refresh-eq-ok first second refresh documents fine,
                      whole,
                      refl,
                    ),
                    rw (on_set, fine, some_keys, whole) refl,
                  )
                ]
        ]
      ]

  -- A batch says that the watch was cancelled, announces no change, or does not say at what revision.
  abbrev pub IsSilent : WatchResponse → Type 0
  IsSilent response =
      ((reason : Text) × (response.cancelled ≡ some reason))
      ⊎ ((is_empty response.events ≡ true) ⊎ (response.revision ≡ none))

  -- A watch on a prefix delivers the set as it was at the revision of the batch that announced the
  -- change, all of it read at that one revision, and says so: never a mixture of two revisions. Nothing
  -- is delivered for a batch that was cancelled, that announces no change or that carries no revision,
  -- nor where the set at its revision cannot be read, is empty or cannot be merged; for every other
  -- batch the set is delivered.
  pub on_message-Delivers :
      (w : W) (p : Text) (response : WatchResponse) (cluster : Cluster)
      (refresh : Result (Unit {0}) EtcdError) (again : Cluster)
      → s.keys ≡ prefix p
      → let after =
          (on_message e debug_duration d on_change format s w
            (batch response cluster refresh again)).0 in
        ((after.trace.delivered ≡ w.trace.delivered) × IsSilent response)
        ⊎ ((revision : ℕ) × (response.revision ≡ some revision)
            × (response.cancelled ≡ none)
            × (is_empty response.events ≡ false)
            × Delivers p revision cluster refresh again w after)
  unfolding on_message on_batch
  on_message-Delivers w p response cluster refresh again is =
      let at = received e debug_duration d on_change format s w response in
      elim (Option-cases response.cancelled) [
        | inr (reason, over) ↦
            inl (rw over (delivered-failed e d s.attempts _ w.trace), inl (reason, over))
        | inl going ↦ elim (Bool-cases (is_empty response.events)) [
          | inl quiet ↦ inl (rw (going, is, quiet) refl, inr (inl quiet))
          | inr news ↦ elim (Option-cases response.revision) [
            | inl nowhere ↦ inl (rw (going, is, news, nowhere) refl, inr (inr nowhere))
            | inr (revision, here) ↦
                let opens : on_batch e debug_duration d on_change format s at response cluster
                      refresh again
                    ≡ on_set e debug_duration d on_change format s at p revision cluster refresh
                        again =
                  simp (on_batch, going, is, news, here) in
                inr (
                  revision,
                  here,
                  going,
                  news,
                  subst (λ a. Delivers p revision cluster refresh again w a.0) (sym opens)
                      (on_set-Delivers at p revision cluster refresh again),
                )
          ]
        ]
      ]
