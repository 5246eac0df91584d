-- ===== src/Vault/Watch/Seen.antt =====
-- How far a watch says that it has come.
use dynamic_config_remote.Common.{ℕ, ◌≡◌, ◌≢◌, ◌⊎◌, err, ◌∷◌, none, some, Text, ok}
use dynamic_config_remote.Engine.{Engine, Documents}
use dynamic_config_remote.Json.{Json}
use dynamic_config_remote.Store.Attempts.{Attempts, Callback}
use dynamic_config_remote.Vault.Secrets.{Granted}
use dynamic_config_remote.Vault.Requests.{Vault}
use dynamic_config_remote.Vault.Reads.{CheckError, current_version, read}
use dynamic_config_remote.Vault.Watch.{Round, Watched}

module _ (e : Engine) (to_text : Json → Text) (latest : ℕ) (d : Documents e)
    (lease : Granted → d.Lease) (json : e.Format) (on_change : Callback e d)
    (attempts : Attempts) where
  abbrev W : Type 0
  W = Watched e to_text latest d lease json on_change attempts

  -- The secret is read again, from this source: where that fails, nothing moves, and where it does not,
  -- the document is delivered and its version is the one that was seen.
  abbrev pub Rereads : Vault e to_text latest → Round → W → W → Type 0
  Rereads source round w after =
      let answer = (read e to_text latest d lease json round.now source round.reading).1 in
      ((error : e.Error) × (answer ≡ err error)
        × (after.seen ≡ w.seen)
        × (after.trace.delivered ≡ w.trace.delivered))
      ⊎ ((x : d.Fetched) × (version : ℕ) × (answer ≡ ok (x, version))
          × (after.seen ≡ some version)
          × (after.trace.delivered ≡ x ∷ w.trace.delivered))

  -- What a round does once the counter of the secret stands at a version: it is the first that is seen,
  -- or the one that was seen, or another one.
  abbrev pub Compares : Vault e to_text latest → ℕ → Round → W → W → Type 0
  Compares source version round w after =
      ((w.seen ≡ none) × (after.seen ≡ some version) × (after.trace.delivered ≡ w.trace.delivered))
      ⊎ (((w.seen ≡ some version)
            × (after.seen ≡ w.seen)
            × (after.trace.delivered ≡ w.trace.delivered))
          ⊎ ((seen : ℕ) × (w.seen ≡ some seen) × (seen ≢ version) × Rereads source round w after))

  -- A round asks for the counter first; where that fails, nothing moves.
  abbrev pub Moves : Round → W → W → Type 0
  Moves round w after =
      let checked = current_version e to_text latest w.source round.checking in
      ((error : CheckError e to_text latest) × (checked.1 ≡ err error)
        × (after.seen ≡ w.seen)
        × (after.trace.delivered ≡ w.trace.delivered))
      ⊎ ((version : ℕ) × (checked.1 ≡ ok version) × Compares checked.0 version round w after)
