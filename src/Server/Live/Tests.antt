-- ===== src/Server/Live/Tests.antt =====
-- The theorems about sections and streams at concrete inputs.
use dynamic_config_remote.Common.{◌≤◌, ◌≡◌, refl, List, [], ◌∷◌, true, false, some, arith}
use dynamic_config_remote.Store.Concurrency.{Action}
use dynamic_config_remote.Server.Live.{
  installed, is_ready, Server, all_idle, streaming, turned_away, stream_run,
}
use dynamic_config_remote.Server.Live.Coherent.{installed_coherent}
use dynamic_config_remote.Server.Live.Streams.{IsWithin, stream_run-all_idle-IsWithin}
use dynamic_config_remote.Server.Live.Sample.{cells, installs, served, billing, server}

a_server_waits_for_every_section :
    (is_ready cells server 0 ≡ false) × (is_ready cells server 1 ≡ true)
unfolding is_ready
a_server_waits_for_every_section = (refl, refl)

billing_is_there : installed cells billing 3 4 ≡ some (2, served)
unfolding installed
billing_is_there = refl

installed_coherent_example :
    (cells.current billing.config 4 ≡ some served) × (2 ≤ installs.number billing.config 4)
installed_coherent_example =
    installed_coherent cells installs billing 3 4 2 served (omega arith) billing_is_there

-- Two threads that both read the counter before one of them opens the only stream.
abbrev schedule : List Action
schedule =
    record { thread = 0; spurious = false }
    ∷ record { thread = 1; spurious = false }
    ∷ record { thread = 0; spurious = false }
    ∷ record { thread = 1; spurious = false }
    ∷ record { thread = 1; spurious = false }
    ∷ []

abbrev narrow : Server cells
narrow = record server { max_streams = 1; streams = 0 }

the_second_is_turned_away :
    (stream_run cells narrow (all_idle cells 2) schedule).1 ≡ streaming ∷ turned_away ∷ []
unfolding stream_run
the_second_is_turned_away = refl

stream_run-all_idle-IsWithin_example :
    IsWithin cells 1
      (stream_run cells narrow (all_idle cells 2) schedule).0
      (stream_run cells narrow (all_idle cells 2) schedule).1
stream_run-all_idle-IsWithin_example =
    stream_run-all_idle-IsWithin cells narrow 2 schedule refl (omega arith)
