-- ===== src/Etcd/Tests.antt =====
-- A source over a small cluster, and the theorems at concrete inputs.
use dynamic_config_remote.Common.{
  is_empty, ℕ, ◌+◌, ◌≤◌, ◌≡◌, ◌⊎◌, refl, false, List, [], ◌∷◌, none, some, Text, text, length, ok,
  err, arith, strip_prefix, split_at_text, contains_char,
}
use dynamic_config_remote.Engine.Sample.{sample, stored}
use dynamic_config_remote.Store.Attempts.{reporting, untouched, Callback, returned}
use dynamic_config_remote.Store.Documents.{merged, under_prefix, within_key_budget}
use dynamic_config_remote.Etcd.{
  prefix, EtcdError, KeyValue, Cluster, Etcd, is_expired_token, classified,
}
use dynamic_config_remote.Etcd.Reads.{with_refresh, refreshed, fetch, get_once}
use dynamic_config_remote.Etcd.Watch.{
  other_event, WatchResponse, Recovery, Message, batch, broken, watch_once, Watched, on_message,
  follow,
}
use dynamic_config_remote.Etcd.Watch.Recovering.{follow_recoveries}
use dynamic_config_remote.Etcd.Watch.Pinned.{Delivers, IsSilent, on_message-Delivers}

abbrev shown_duration : ℕ → Text
shown_duration n = []

abbrev kv : Text → Text → KeyValue
kv key value = record { key = ok key; value = ok value; mod_revision = 4 }

abbrev cluster : Cluster
cluster = record {
  range = λ key. ok (kv key (5 ∷ []) ∷ []);
  txn = λ keys. err (record { shown = []; status = none });
  prefixed =
      λ p revision. ok (kv (b'p' ∷ b'a' ∷ []) (5 ∷ []) ∷ kv (b'p' ∷ b'b' ∷ []) (6 ∷ []) ∷ []);
  late = false;
}

abbrev source : Etcd sample shown_duration
source = record {
  keys = prefix (b'p' ∷ []);
  format = some b'j';
  disagreement = none;
  endpoints = [];
  timeout = 1;
  attempts = reporting;
}

the_range_is_folded :
    fetch sample shown_duration stored source cluster (ok tt) cluster
    ≡ ok (record { body = 5 ∷ 6 ∷ []; format = b'j'; revision = none; lease = none })
unfolding fetch with_refresh get_once under_prefix within_key_budget strip_prefix merged
    contains_char
the_range_is_folded = refl

abbrev accepting : Callback sample stored
accepting earlier x = returned (ok tt)

abbrev W : Type 0
W = Watched sample shown_duration stored accepting b'j' source

abbrev begun : W
begun = record { token_recoveries = 0; resume_from = none; trace = untouched sample stored }

abbrev moved : WatchResponse
moved = record { revision = some 9; events = other_event ∷ []; cancelled = none }

on_message-Delivers_example :
    (((on_message sample shown_duration stored accepting b'j' source begun
          (batch moved cluster (ok tt) cluster)).0.trace.delivered
        ≡ [])
      × IsSilent sample shown_duration stored accepting b'j' source moved)
    ⊎ ((revision : ℕ) × (moved.revision ≡ some revision)
        × (moved.cancelled ≡ none)
        × (is_empty moved.events ≡ false)
        × Delivers sample shown_duration stored accepting b'j' source
            (b'p' ∷ [])
            revision
            cluster
            (ok tt)
            cluster
            begun
            (on_message sample shown_duration stored accepting b'j' source begun
              (batch moved cluster (ok tt) cluster)).0)
on_message-Delivers_example =
    on_message-Delivers sample shown_duration stored accepting b'j' source begun (b'p' ∷ []) moved
      cluster (ok tt) cluster refl

abbrev expired : EtcdError
expired = record { shown = text "invalid auth token"; status = none }

abbrev willing : Recovery
willing = record { refresh = ok tt; established = λ from. ok tt }

abbrev breaks : List Message
breaks = broken expired willing ∷ broken expired willing ∷ broken expired willing ∷ []

three_breaks_are_survived :
    (follow sample shown_duration stored accepting b'j' source begun breaks).1 ≡ ok tt
unfolding follow on_message is_expired_token split_at_text strip_prefix text classified watch_once
    refreshed
three_breaks_are_survived = refl

follow_recoveries_example : 0 + length breaks ≤ 3
follow_recoveries_example =
    follow_recoveries sample shown_duration stored accepting b'j' source begun breaks
      (tt, (tt, (tt, tt))) (omega arith) three_breaks_are_survived
