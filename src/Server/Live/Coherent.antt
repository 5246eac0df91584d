-- ===== src/Server/Live/Coherent.antt =====
-- What a section that is looked up is, and that a document never goes out under a number that is
-- ahead of it.
use dynamic_config_remote.Common.{
  ℕ, ◌≤◌, ◌≡◌, ◌&&◌, List, [], ◌∷◌, some, Text, text_eq, text_eq_iff, find, arith, Option-cases,
  inl, inr,
}
use dynamic_config_remote.Server.Document.{Json}
use dynamic_config_remote.Server.Live.{Cells, Section, Server, section, installed}

module _ (cells : Cells) where
  -- What the cell documents: the number of the install whose document is in place at a moment, which
  -- only grows. An install publishes its document first and its generation afterwards.
  pub record Installs : Type 0 where
    pub number : cells.Dynamic → ℕ → ℕ
    pub lags : (d : cells.Dynamic) (t : ℕ) → cells.generation d t ≤ number d t
    pub grows : (d : cells.Dynamic) (t u : ℕ) → t ≤ u → number d t ≤ number d u

  -- Whatever installs land between the two reads, the pair that a handler answers with is the document
  -- of the second moment and a generation that this document is not behind.
  pub installed_coherent :
      (h : Installs) (s : Section cells) (first second generation : ℕ) (document : Json)
      → first ≤ second
      → installed cells s first second ≡ some (generation, document)
      → (cells.current s.config second ≡ some document) × (generation ≤ h.number s.config second)
  unfolding installed
  installed_coherent h s first second generation document order e =
      let lag = h.lags s.config first in
      let growth = h.grows s.config first second order in
      elim (Option-cases (cells.current s.config second)) [
        | inl nothing ↦ absurd (ground arith)
        | inr (there, it) ↦ ground arith
      ]

  found :
      (sections : List (Section cells)) (application profile : Text) (s : Section cells)
      → find (λ s. text_eq s.application application && text_eq s.profile profile) sections ≡ some s
      → (s.application ≡ application) × (s.profile ≡ profile)
  found [] application profile s h = cc
  found (t ∷ sections) application profile s h = ground (
    arith,
    text_eq_iff t.application application,
    text_eq_iff t.profile profile,
    found sections application profile s,
  )

  -- The section that is found is the one that was asked for.
  pub section_found :
      (server : Server cells) (application profile : Text) (s : Section cells)
      → section cells server application profile ≡ some s
      → (s.application ≡ application) × (s.profile ≡ profile)
  unfolding section
  section_found server application profile s h = found server.sections application profile s h
