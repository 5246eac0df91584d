-- ===== src/Store/Transform/Carried.antt =====
-- A transform changes the text of a document and nothing else of it.
use dynamic_config_remote.Common.{
  ◌⊎◌, ◌≡◌, inl, inr, refl, sym, ap, ◌∙◌, List, [], ◌∷◌, Option, none, some, Result, ok, >>=-eq-ok,
  ok_injective, err, Result-differ, Result-cases, subst,
}
use dynamic_config_remote.Engine.{Engine, Documents}
use dynamic_config_remote.Store.Transform.{
  Transform, carry_revision, carry_lease, rewrite, transformed_watch,
}

module _ (e : Engine) (d : Documents e) where
  -- The same document, with the text that the transform makes of its text.
  abbrev pub IsRewritten : Transform e d → d.Fetched → d.Fetched → Type 0
  IsRewritten t fetched rewritten =
      (t.apply (d.text_of fetched) ≡ ok (d.text_of rewritten))
      × (d.format_of rewritten ≡ d.format_of fetched)
      × (d.revision_of rewritten ≡ d.revision_of fetched)
      × (d.lease_of rewritten ≡ d.lease_of fetched)

  revision_carried :
      (revision : Option d.Revision) (x : d.Fetched)
      → d.revision_of x ≡ none
      → (d.revision_of (carry_revision e d revision x) ≡ revision)
        × (d.text_of (carry_revision e d revision x) ≡ d.text_of x)
        × (d.format_of (carry_revision e d revision x) ≡ d.format_of x)
        × (d.lease_of (carry_revision e d revision x) ≡ d.lease_of x)
  revision_carried none x h = (h, refl, refl, refl)
  revision_carried (some r) x h = (
    d.revision-with_revision r x,
    d.text-with_revision r x,
    d.format-with_revision r x,
    d.lease-with_revision r x,
  )

  lease_carried :
      (lease : Option d.Lease) (x : d.Fetched)
      → d.lease_of x ≡ none
      → (d.lease_of (carry_lease e d lease x) ≡ lease)
        × (d.text_of (carry_lease e d lease x) ≡ d.text_of x)
        × (d.format_of (carry_lease e d lease x) ≡ d.format_of x)
        × (d.revision_of (carry_lease e d lease x) ≡ d.revision_of x)
  lease_carried none x h = (h, refl, refl, refl)
  lease_carried (some l) x h = (
    d.lease-with_lease l x,
    d.text-with_lease l x,
    d.format-with_lease l x,
    d.revision-with_lease l x,
  )

  rewrite-IsRewritten :
      (t : Transform e d) (fetched rewritten : d.Fetched)
      → rewrite e d t fetched ≡ ok rewritten
      → IsRewritten t fetched rewritten
  unfolding rewrite
  rewrite-IsRewritten t fetched rewritten h =
      let (body, applied, h') = >>=-eq-ok (t.apply (d.text_of fetched)) _ h in
      let fresh = d.fetched body (d.format_of fetched) in
      let dated = carry_revision e d (d.revision_of fetched) fresh in
      let (revision, text_r, format_r, lease_r) =
        revision_carried (d.revision_of fetched) fresh
          (d.revision-fetched body (d.format_of fetched)) in
      let (lease, text_l, format_l, revision_l) =
        lease_carried (d.lease_of fetched) dated
          (lease_r ∙ d.lease-fetched body (d.format_of fetched)) in
      subst (IsRewritten t fetched) (ok_injective h') (
        applied ∙ ap ok (sym (text_l ∙ text_r ∙ d.text-fetched body (d.format_of fetched))),
        format_l ∙ format_r ∙ d.format-fetched body (d.format_of fetched),
        revision_l ∙ revision,
        lease,
      )

  -- How a watch over these deliveries, which ends like this by itself, answers and what its caller
  -- sees: of each document in turn, either the transform fails with the answer, or the rewritten
  -- document is seen, and then the callback refuses it with the answer, or accepts it and the rest
  -- follows.
  abbrev pub Rewrites :
      Transform e d
      → (d.Fetched → Result (Unit {0}) e.Error)
      → List d.Fetched
      → Result (Unit {0}) e.Error
      → Result (Unit {0}) e.Error
      → List d.Fetched
      → Type 0
  Rewrites t on_change [] ends answer seen = (answer ≡ ends) × (seen ≡ [])
  Rewrites t on_change (fetched ∷ deliveries) ends answer seen =
      ((error : e.Error) × (t.apply (d.text_of fetched) ≡ err error)
        × (answer ≡ err error)
        × (seen ≡ []))
      ⊎ ((rewritten : d.Fetched) × IsRewritten t fetched rewritten
          × (((error : e.Error) × (on_change rewritten ≡ err error)
                × (answer ≡ err error)
                × (seen ≡ rewritten ∷ []))
              ⊎ ((later : List d.Fetched) × (on_change rewritten ≡ ok tt)
                  × (seen ≡ rewritten ∷ later)
                  × Rewrites t on_change deliveries ends answer later)))

  rewrite-eq-err :
      (t : Transform e d) (fetched : d.Fetched) (error : e.Error)
      → rewrite e d t fetched ≡ err error
      → t.apply (d.text_of fetched) ≡ err error
  unfolding rewrite
  rewrite-eq-err t fetched error h = elim (Result-cases (t.apply (d.text_of fetched))) [
    | inl (body, applied) ↦ absurd (Result-differ (sym (rw (rewrite, applied) at h)))
    | inr (failure, failed) ↦ failed ∙ ap err (same (rw (rewrite, failed) at h))
  ]
    where
      same :
          {failure : e.Error}
          → ◌≡◌ {A = Result d.Fetched e.Error} (err failure) (err error)
          → failure ≡ error
      same h = cc

  -- The caller of a watch sees every document that the source delivers, in order, with the text that
  -- the transform makes of it, in the format and with the revision and the lease that it came with,
  -- until the first text on which the transform fails or the first document that the callback refuses:
  -- there the watch ends with that error, and otherwise it ends as the source's own watch does.
  pub transformed_watch-Rewrites :
      (t : Transform e d) (on_change : d.Fetched → Result (Unit {0}) e.Error)
      (deliveries : List d.Fetched) (ends : Result (Unit {0}) e.Error)
      → let run = transformed_watch e d deliveries ends t on_change in
        Rewrites t on_change deliveries ends run.0 run.1
  unfolding transformed_watch
  transformed_watch-Rewrites t on_change [] ends = (refl, refl)
  transformed_watch-Rewrites t on_change (fetched ∷ deliveries) ends =
      let later = transformed_watch e d deliveries ends t on_change in
      elim (Result-cases (rewrite e d t fetched)) [
        | inr (error, failed) ↦
            rw (transformed_watch, failed)
              (inl (error, rewrite-eq-err t fetched error failed, refl, refl))
        | inl (rewritten, fine) ↦
            let here = rewrite-IsRewritten t fetched rewritten fine in
            elim (Result-cases (on_change rewritten)) [
              | inr (error, refused) ↦
                  rw (transformed_watch, fine, refused)
                    (inr (rewritten, here, inl (error, refused, refl, refl)))
              | inl (u, accepted) ↦
                  rw (transformed_watch, fine, accepted)
                    (inr (
                      rewritten,
                      here,
                      inr (
                        later.1,
                        accepted,
                        refl,
                        transformed_watch-Rewrites t on_change deliveries ends,
                      ),
                    ))
            ]
      ]
