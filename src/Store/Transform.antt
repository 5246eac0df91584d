-- ===== src/Store/Transform.antt =====
-- dynamic-config-store-core/src/transform.rs: a store whose documents are rewritten on the way.
pub mod Carried
mod Tests
use dynamic_config_remote.Common.{
  List, [], ◌∷◌, ◌++◌, Option, none, some, Text, text, Result, ok, err, ◌>>=◌,
}
use dynamic_config_remote.Engine.{Engine, Documents}

module _ (e : Engine) (d : Documents e) where
  open e use {Error}
  open d use {Fetched}

  -- The trait: a transform is whatever the caller brings.
  pub record Transform : Type 0 where
    pub apply : Text → Result Text Error
    pub description : Text

  -- A source: what a fetch gives, and the documents that a watch delivers until it ends by itself.
  pub record Source : Type 0 where
    pub fetch : Result Fetched Error
    pub deliveries : List Fetched
    pub ends : Result (Unit {0}) Error
    pub description : Text

  abbrev pub carry_revision : Option d.Revision → Fetched → Fetched
  carry_revision none carried = carried
  carry_revision (some revision) carried = d.with_revision revision carried

  abbrev pub carry_lease : Option d.Lease → Fetched → Fetched
  carry_lease none carried = carried
  carry_lease (some lease) carried = d.with_lease lease carried

  unfoldable pub rewrite : Transform → Fetched → Result Fetched Error
  rewrite t fetched = do
    body ← t.apply (d.text_of fetched)
    ok (
        carry_lease (d.lease_of fetched)
          (carry_revision (d.revision_of fetched) (d.fetched body (d.format_of fetched))))

  unfoldable pub transformed_fetch : Source → Transform → Result Fetched Error
  unfolding rewrite
  transformed_fetch source t = do fetched ← source.fetch; rewrite t fetched

  unfoldable pub describe : Source → Transform → Text
  describe source t = source.description ++ (text " through " ++ t.description)

  -- A source's own watch hands each document to the callback, and ends with the first error of it.
  -- The second part of the result is what the callback of the caller was called with.
  unfoldable pub transformed_watch :
      List Fetched
      → Result (Unit {0}) Error
      → Transform
      → (Fetched → Result (Unit {0}) Error)
      → Result (Unit {0}) Error × List Fetched
  unfolding rewrite
  transformed_watch [] ends t on_change = (ends, [])
  transformed_watch (fetched ∷ deliveries) ends t on_change =
      let (ended, seen) = transformed_watch deliveries ends t on_change in
      elim (rewrite t fetched) [
        | err error ↦ (err error, [])
        | ok rewritten ↦ elim (on_change rewritten) [
          | err error ↦ (err error, rewritten ∷ [])
          | ok _ ↦ (ended, rewritten ∷ seen)
        ]
      ]
