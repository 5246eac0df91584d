-- ===== src/Etcd/Watch/Recovering.antt =====
-- How often a watch recovers, and where it goes on.
use dynamic_config_remote.Common.{
  ℕ, ◌+◌, ◌≤◌, ◌≡◌, refl, List, [], ◌∷◌, Text, length, All, ok, Result-cases, Result-differ,
  Bool-cases, inl, inr, ltb, arith,
}
use dynamic_config_remote.Engine.{Engine, Documents}
use dynamic_config_remote.Store.Attempts.{Callback}
use dynamic_config_remote.Etcd.{EtcdError, Etcd, is_expired_token}
use dynamic_config_remote.Etcd.Watch.{
  most_token_recoveries, Recovery, Message, batch, closed, broken, Watched, break_error, recovered,
  resumed, on_broken, on_message, follow,
}

module _ (e : Engine) (debug_duration : ℕ → Text) (d : Documents e) (on_change : Callback e d)
    (format : e.Format) (s : Etcd e debug_duration) where
  open e use {Error}

  abbrev W : Type 0
  W = Watched e debug_duration d on_change format s

  abbrev pub IsBroken : Message → Type 0
  IsBroken (batch response cluster refresh again) = ⊥
  IsBroken closed = ⊥
  IsBroken (broken error recovery) = Unit

  -- A break that does not end the watch is one recovery more, and not past the last that is allowed.
  on_broken_counts :
      (w : W) (error : EtcdError) (recovery : Recovery)
      → (on_broken e debug_duration d on_change format s w error recovery).1 ≡ ok tt
      → ((on_broken e debug_duration d on_change format s w error recovery).0.token_recoveries
          ≡ w.token_recoveries + 1)
        × (w.token_recoveries + 1 ≤ most_token_recoveries)
  unfolding on_broken
  on_broken_counts w error recovery h =
      let counted : W = record w { token_recoveries = w.token_recoveries + 1 } in
      elim (Bool-cases (
        is_expired_token e debug_duration
          (break_error e debug_duration d on_change format s error))) [
            | inr other ↦ absurd (Result-differ (rw (on_broken, other) at h))
            | inl expired ↦ elim (Bool-cases (ltb most_token_recoveries (w.token_recoveries + 1))) [
              | inl often ↦ absurd (Result-differ (rw (on_broken, expired, often) at h))
              | inr still ↦
                  elim (Result-cases
                    (recovered e debug_duration d on_change format s counted recovery)) [
                      | inr (failure, bad) ↦
                          absurd (Result-differ (rw (on_broken, expired, still, resumed, bad) at h))
                      | inl (u, fine) ↦
                          (rw (on_broken, expired, still, resumed, fine) refl, ground arith)
                    ]
            ]
          ]

  -- A stream that only ever breaks, however willingly every new token is handed out, is given up after
  -- three recoveries since the last message: the login is not hammered.
  pub follow_recoveries :
      (w : W) (messages : List Message)
      → All IsBroken messages
      → w.token_recoveries ≤ most_token_recoveries
      → (follow e debug_duration d on_change format s w messages).1 ≡ ok tt
      → w.token_recoveries + length messages ≤ most_token_recoveries
  unfolding follow on_message
  follow_recoveries w [] b few h = omega (arith, few)
  follow_recoveries w (batch response cluster refresh again ∷ messages) (b, bs) few h = absurd b
  follow_recoveries w (closed ∷ messages) (b, bs) few h = absurd b
  follow_recoveries w (broken error recovery ∷ messages) (b, bs) few h =
      let step = on_broken e debug_duration d on_change format s w error recovery in
      elim (Result-cases step.1) [
        | inr (failure, over) ↦ absurd (Result-differ (rw (follow, on_message, over) at h))
        | inl (tt, on) ↦
            let (counted, allowed) = on_broken_counts w error recovery on in
            let later =
              follow_recoveries step.0 messages bs (omega (arith, counted, allowed))
                (rw (follow, on_message, on) at h) in
            omega (arith, counted, later)
      ]
