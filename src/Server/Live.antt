-- ===== src/Server/Live.antt =====
-- dynamic-config-server/src/server.rs: the served sections, and the server that owns them.
--
-- `Dynamic<Document>` is the crate dynamic-config's cell: what the server reads of it, as a parameter.
-- A cell changes while a request is answered, so every read names the moment it is made at. The threads
-- that serve change streams share one atomic counter; a schedule is a list of single accesses to it,
-- each with the thread that makes it, so it is any interleaving.
pub mod Coherent
pub mod Streams
pub mod Sample
mod Tests
use dynamic_config_remote.Common.{
  ℕ, ◌≤◌, ◌+◌, ◌-◌, ◌%◌, ◌^◌, Bool, true, false, ◌&&◌, not, List, [], ◌∷◌, Option, none, some, Text,
  text_eq, is_some, all, find, leb, ltb, ◌==◌, if◌then◌else◌, Result, get_elem?, set,
}
use dynamic_config_remote.Store.Concurrency.{Action}
use dynamic_config_remote.Server.Auth.{Authenticator, Principal, authenticate}
use dynamic_config_remote.Server.Audit.{AuditEntry}
use dynamic_config_remote.Server.Document.{Json}

pub record Cells : Type 1 where
  pub Dynamic : Type 0
  pub current : Dynamic → ℕ → Option Json
  pub generation : Dynamic → ℕ → ℕ
  pub Status : Type 0
  pub status : Dynamic → ℕ → Status
  pub status_generation : Status → ℕ
  pub is_healthy : Status → Bool
  pub Error : Type 0
  pub kind : Error → Text
  pub path : Error → Text
  pub Report : Type 0
  pub check : Dynamic → ℕ → Result Report Error
  pub Explanation : Type 0
  pub explain : Dynamic → Text → ℕ → Result Explanation Error
  pub redacted : Explanation → Explanation

module _ (cells : Cells) where
  open cells use {Dynamic}

  pub record Section : Type 0 where
    pub application : Text
    pub profile : Text
    pub config : Dynamic

  -- The generation is read first, and the document second.
  unfoldable pub installed : Section → ℕ → ℕ → Option (ℕ × Json)
  installed s first second =
      let generation = cells.generation s.config first in
      elim (cells.current s.config second) [
        | none ↦ none
        | some document ↦ some (generation, document)
      ]

  unfoldable pub section_is_ready : Section → ℕ → ℕ → Bool
  section_is_ready s first second =
      is_some (cells.current s.config first) && cells.is_healthy (cells.status s.config second)

  -- The sections are in the order of the map; the audit log is newest first. The address and the loaded
  -- certificate are left out: nothing that answers a request reads them.
  pub record Server : Type 0 where
    pub sections : List Section
    pub authenticator : Authenticator
    pub audit : List AuditEntry
    pub max_streams : ℕ
    pub streams : ℕ

  unfoldable pub section : Server → Text → Text → Option Section
  section server application profile =
      find (λ s. text_eq s.application application && text_eq s.profile profile) server.sections

  -- Each section is read when its turn comes.
  unfoldable pub sections_ready : ℕ → List Section → Bool
  unfolding section_is_ready
  sections_ready now [] = true
  sections_ready now (s ∷ sections) =
      section_is_ready s now (now + 1) && sections_ready (now + 2) sections

  unfoldable pub is_ready : Server → ℕ → Bool
  unfolding sections_ready
  is_ready server now = sections_ready now server.sections

  unfoldable pub record_entry : Server → AuditEntry → Server
  record_entry server entry = record server { audit = entry ∷ server.audit }

  unfoldable pub streams_enabled : Server → Bool
  streams_enabled server = ltb 0 server.max_streams

  -- What one round of the loop of `open_stream` finds.
  pub data Round : Type 0 where
    full : Round
    opened : Round
    again : ℕ → Round

  -- One round: the test of the value that was read, and the exchange, which may fail spuriously.
  unfoldable pub open_round : Server → ℕ → Bool → Server × Round
  open_round server held spurious =
      if leb server.max_streams held
      then (server, full)
      else if held == server.streams && not spurious
      then (record server { streams = (held + 1) % 2 ^ 64 }, opened)
      else (server, again server.streams)

  -- `open_stream` with no other thread at work: whether there is a permit.
  unfoldable pub open_stream : Server → Server × Bool
  unfolding open_round
  open_stream server = permit (open_round server server.streams false)
    where
      permit : Server × Round → Server × Bool
      permit (after, opened) = (after, true)
      permit (after, _) = (after, false)

  -- `drop` of a permit; `fetch_sub` wraps.
  unfoldable pub close_stream : Server → Server
  close_stream server = record server { streams = (server.streams + 2 ^ 64 - 1) % 2 ^ 64 }

  -- Where a thread stands that serves a change stream: outside, in the loop of `open_stream` with the
  -- value it read, told *no*, or with a permit.
  pub data Streaming : Type 0 where
    idle : Streaming
    opening : ℕ → Streaming
    turned_away : Streaming
    streaming : Streaming

  abbrev pub stands : Round → Streaming
  stands full = turned_away
  stands opened = streaming
  stands (again held) = opening held

  -- One atomic access of a thread: the load that `open_stream` starts with, one round of its loop, or
  -- the release of a permit. A thread that was turned away goes on with something else.
  unfoldable pub stream_act : Server → Streaming → Bool → Server × Streaming
  unfolding open_round close_stream
  stream_act server idle spurious = (server, opening server.streams)
  stream_act server (opening held) spurious =
      let (after, round) = open_round server held spurious in (after, stands round)
  stream_act server turned_away spurious = (server, idle)
  stream_act server streaming spurious = (close_stream server, idle)

  -- A thread that is not there does nothing.
  unfoldable pub stream_step : Server → List Streaming → Action → Server × List Streaming
  unfolding stream_act
  stream_step server threads a = elim (get_elem? threads a.thread) [
    | none ↦ (server, threads)
    | some stream ↦
        let (after, next) = stream_act server stream a.spurious in
        (after, set threads a.thread next)
  ]

  -- Any interleaving of the accesses of any number of threads.
  unfoldable pub stream_run : Server → List Streaming → List Action → Server × List Streaming
  unfolding stream_step
  stream_run server threads [] = (server, threads)
  stream_run server threads (a ∷ schedule) =
      let (after, threads') = stream_step server threads a in stream_run after threads' schedule

  abbrev pub all_idle : ℕ → List Streaming
  all_idle ℕ.zero = []
  all_idle (ℕ.suc n) = idle ∷ all_idle n

  -- The streams that are open.
  abbrev pub is_open : Streaming → ℕ
  is_open streaming = 1
  is_open idle = 0
  is_open turned_away = 0
  is_open (opening held) = 0

  abbrev pub open_streams : List Streaming → ℕ
  open_streams [] = 0
  open_streams (stream ∷ streams) = is_open stream + open_streams streams
