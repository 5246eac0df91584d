-- ===== src/Server/Live/Streams.antt =====
-- The ceiling on open change streams.
use dynamic_config_remote.Common.{
  ℕ, zero, suc, ◌+◌, ◌-◌, ◌^◌, ◌≤◌, ◌<◌, ◌≡◌, refl, Bool, true, false, List, [], ◌∷◌, some,
  get_elem?, set, arith, leb, inl, inr, Option-cases,
}
use dynamic_config_remote.Store.Concurrency.{Action}
use dynamic_config_remote.Server.Live.{
  Cells, Server, open_round, open_stream, close_stream, streams_enabled, Streaming, idle, opening,
  turned_away, streaming, stream_act, stream_step, stream_run, all_idle, is_open, open_streams,
}

module _ (cells : Cells) where
  -- The counter is the number of streams that are open, and no more than the ceiling, which stays.
  abbrev pub IsWithin : ℕ → Server cells → List (Streaming cells) → Type 0
  IsWithin ceiling server threads =
      (server.max_streams ≡ ceiling)
      × (server.streams ≡ open_streams cells threads)
      × (server.streams ≤ ceiling)

  open_streams-set :
      (threads : List (Streaming cells)) (i : ℕ) (old new : Streaming cells)
      → get_elem? threads i ≡ some old
      → open_streams cells (set threads i new) + is_open cells old
        ≡ open_streams cells threads + is_open cells new
  open_streams-set [] i old new h = cc
  open_streams-set (x ∷ xs) zero old new h = ground arith
  open_streams-set (x ∷ xs) (suc i) old new h = omega (arith, open_streams-set xs i old new h)

  is_open-le-open_streams :
      (threads : List (Streaming cells)) (i : ℕ) (stream : Streaming cells)
      → get_elem? threads i ≡ some stream
      → is_open cells stream ≤ open_streams cells threads
  is_open-le-open_streams [] i stream h = cc
  is_open-le-open_streams (x ∷ xs) zero stream h = ground arith
  is_open-le-open_streams (x ∷ xs) (suc i) stream h =
      omega (arith, is_open-le-open_streams xs i stream h)

  -- What one access does to the counter, whatever the other threads hold.
  stream_act_balance :
      (server : Server cells) (stream : Streaming cells) (spurious : Bool)
      → is_open cells stream ≤ server.streams
      → server.streams ≤ server.max_streams
      → server.max_streams < 2 ^ 64
      → let r = stream_act cells server stream spurious in
        (r.0.streams + is_open cells stream ≡ server.streams + is_open cells r.1)
        × (r.0.streams ≤ server.max_streams)
        × (r.0.max_streams ≡ server.max_streams)
  unfolding stream_act open_round close_stream
  stream_act_balance server idle spurious c h l = ground arith
  stream_act_balance server (opening held) spurious c h l = ground arith
  stream_act_balance server turned_away spurious c h l = ground arith
  stream_act_balance server streaming spurious c h l = ground arith

  stream_step-IsWithin :
      (ceiling : ℕ) (server : Server cells) (threads : List (Streaming cells)) (a : Action)
      → ceiling < 2 ^ 64
      → IsWithin ceiling server threads
      → let r = stream_step cells server threads a in IsWithin ceiling r.0 r.1
  unfolding stream_step
  stream_step-IsWithin ceiling server threads a small (same, exact, within) =
      elim (Option-cases (get_elem? threads a.thread)) [
        | inl missing ↦ rw (missing, stream_step) (same, exact, within)
        | inr (stream, found) ↦
            let held = is_open-le-open_streams threads a.thread stream found in
            let balance =
              stream_act_balance server stream a.spurious (omega (arith, held, exact))
                (omega (arith, within, same)) (omega (arith, small, same)) in
            let next = (stream_act cells server stream a.spurious).1 in
            let moved = open_streams-set threads a.thread stream next found in
            rw (found, stream_step)
              (
                omega (arith, balance, same),
                omega (arith, moved, balance, exact),
                omega (arith, balance, same),
              )
      ]

  stream_run-IsWithin :
      (ceiling : ℕ) (server : Server cells) (threads : List (Streaming cells))
      (schedule : List Action)
      → ceiling < 2 ^ 64
      → IsWithin ceiling server threads
      → let r = stream_run cells server threads schedule in IsWithin ceiling r.0 r.1
  unfolding stream_run
  stream_run-IsWithin ceiling server threads [] small h = h
  stream_run-IsWithin ceiling server threads (a ∷ schedule) small h =
      let r = stream_step cells server threads a in
      stream_run-IsWithin ceiling r.0 r.1 schedule small
        (stream_step-IsWithin ceiling server threads a small h)

  open_streams-all_idle : (n : ℕ) → open_streams cells (all_idle cells n) ≡ 0
  open_streams-all_idle zero = refl
  open_streams-all_idle (suc n) = omega (arith, open_streams-all_idle n)

  -- From a server on which no stream is open, whatever the number of threads and the interleaving of
  -- their accesses, loads and spurious failures included: the counter is exactly the number of streams
  -- that are open, so neither the increment nor the decrement ever wraps, and it is at most the
  -- ceiling, so none is ever open where streams are turned off.
  pub stream_run-all_idle-IsWithin :
      (server : Server cells) (threads : ℕ) (schedule : List Action)
      → server.streams ≡ 0
      → server.max_streams < 2 ^ 64
      → let r = stream_run cells server (all_idle cells threads) schedule in
        IsWithin server.max_streams r.0 r.1
  stream_run-all_idle-IsWithin server threads schedule none_open small =
      stream_run-IsWithin server.max_streams server (all_idle cells threads) schedule small
        (refl, omega (arith, none_open, open_streams-all_idle threads), omega (arith, none_open))

  -- Undisturbed, a stream is opened exactly below the ceiling, so none where streams are turned off,
  -- and closing it gives the place back.
  pub open_stream-close_stream :
      (server : Server cells)
      → server.streams < 2 ^ 64 - 1
      → ((open_stream cells server).1 ≡ leb (server.streams + 1) server.max_streams)
        × ((open_stream cells server).1 ≡ true
            → (streams_enabled cells server ≡ true)
              × (close_stream cells (open_stream cells server).0 ≡ server))
        × ((open_stream cells server).1 ≡ false → (open_stream cells server).0 ≡ server)
  unfolding open_stream open_round close_stream streams_enabled
  open_stream-close_stream server small = ground arith
