-- ===== src/S3/Watch/Seen.antt =====
-- How far a watch says that it has come.
use dynamic_config_remote.Common.{
  ℕ, ◌≡◌, ◌⊎◌, inl, inr, refl, sym, subst, List, ◌∷◌, Option, none, Text, text_eq, Result, ok,
  Result-cases, Option-cases, Bool-cases,
}
use dynamic_config_remote.Engine.{Engine, Documents}
use dynamic_config_remote.Store.Attempts.{Callback, guarded}
use dynamic_config_remote.Store.Attempts.Traces.{delivered-failed}
use dynamic_config_remote.S3.{Source}
use dynamic_config_remote.S3.Reads.{etag, read}
use dynamic_config_remote.S3.Watch.{Round, Watched, deliver, tag_or, on_move, on_tag, on_round}

module _ (e : Engine) (from_utf8 : List ℕ → Result Text Text) (d : Documents e)
    (opaque : Text → d.Revision) (on_change : Callback e d) (s : Source e from_utf8) where
  abbrev W : Type 0
  W = Watched e from_utf8 d opaque on_change s

  -- What a round does to what was seen and to what was delivered: nothing to either, or the first
  -- tag was seen, or the tag of the check was another one, the object was read, its document was
  -- delivered, and what was seen is the tag that was read with it.
  abbrev pub Tagged : Round → W → W → Type 0
  Tagged round w after =
      ((after.seen ≡ w.seen) × (after.trace.delivered ≡ w.trace.delivered))
      ⊎ (((w.seen ≡ none) × (after.trace.delivered ≡ w.trace.delivered))
          ⊎ ((x : d.Fetched) × (current : Option Text) × (tag : Text) × (etag e from_utf8 s
                  round.checking
                ≡ ok tag)
              × (read e from_utf8 d opaque s round.reading ≡ ok (x, current))
              × (after.seen ≡ tag_or current tag)
              × (after.trace.delivered ≡ x ∷ w.trace.delivered)))

  on_move-Tagged :
      (w : W) (round : Round) (tag : Text)
      → etag e from_utf8 s round.checking ≡ ok tag
      → Tagged round w (on_move e from_utf8 d opaque on_change s w round tag).0
  unfolding on_move deliver guarded
  on_move-Tagged w round tag checked =
      elim (Result-cases (read e from_utf8 d opaque s round.reading)) [
        | inr (error, bad) ↦
            rw (on_move, bad) (inl (refl, delivered-failed e d s.attempts error w.trace))
        | inl ((x, current), fine) ↦
            inr (
              inr
                (x, current, tag, checked, fine, rw (on_move, fine) refl, rw (on_move, fine) refl))
      ]

  on_tag-Tagged :
      (w : W) (round : Round) (tag : Text)
      → etag e from_utf8 s round.checking ≡ ok tag
      → Tagged round w (on_tag e from_utf8 d opaque on_change s w round tag).0
  unfolding on_tag text_eq
  on_tag-Tagged w round tag checked = elim (Option-cases w.seen) [
    | inl first ↦ inr (inl (first, rw (on_tag, first) refl))
    | inr (seen, known) ↦ elim (Bool-cases (text_eq seen tag)) [
      | inl same ↦ rw (on_tag, known, same) (inl (known, refl))
      | inr other ↦
          let opens : on_tag e from_utf8 d opaque on_change s w round tag
              ≡ on_move e from_utf8 d opaque on_change s w round tag =
            simp (on_tag, known, other) in
          subst (λ a. Tagged round w a.0) (sym opens) (on_move-Tagged w round tag checked)
    ]
  ]

  -- After the first tick, what a watch has seen moves only with a document that was read and
  -- delivered, and to the tag that was read with it (the tag of the check where the read has none): a
  -- change whose read fails is not passed over, and the next round asks for it again.
  pub on_round-Tagged :
      (w : W) (round : Round) → Tagged round w (on_round e from_utf8 d opaque on_change s w round).0
  unfolding on_round
  on_round-Tagged w round = elim (Result-cases (etag e from_utf8 s round.checking)) [
    | inl (tag, fine) ↦
        let opens : on_round e from_utf8 d opaque on_change s w round
            ≡ on_tag e from_utf8 d opaque on_change s w round tag =
          simp (on_round, fine) in
        subst (λ a. Tagged round w a.0) (sym opens) (on_tag-Tagged w round tag fine)
    | inr (error, bad) ↦
        rw (on_round, bad) (inl (refl, delivered-failed e d s.attempts error w.trace))
  ]
