-- ===== src/Nats/Tests.antt =====
-- A source over a small bucket, and the theorems at concrete inputs.
use dynamic_config_remote.Common.{
  ℕ, ◌≡◌, refl, true, false, List, [], ◌∷◌, none, some, Text, text, contains_char, Result, ok, err,
}
use dynamic_config_remote.Engine.Sample.{sample, stored}
use dynamic_config_remote.Store.Attempts.{reporting, untouched, Callback, returned}
use dynamic_config_remote.Store.Documents.{merged}
use dynamic_config_remote.Store.Tls.{TlsConfig, new_tls, with_ca_certificate_file, is_empty_tls}
use dynamic_config_remote.Nats.{several, Answer, value, Nats, fetch}
use dynamic_config_remote.Nats.Watch.{Entry, put, delete, follow}
use dynamic_config_remote.Nats.Watch.Written.{written, onto, follow-written}
use dynamic_config_remote.Nats.Tls.{ConnectOptions, with_tls_options}
use dynamic_config_remote.Nats.Tls.Applied.{Applied, with_tls_options-Applied}

abbrev decoded : List ℕ → Result Text Text
decoded [] = err (text "nothing")
decoded (b ∷ bytes) = ok (b ∷ bytes)

abbrev shown_duration : ℕ → Text
shown_duration n = []

abbrev source : Nats sample decoded shown_duration
source = record {
  keys = several ((b'a' ∷ []) ∷ (b'b' ∷ []) ∷ []);
  format = some b'j';
  disagreement = none;
  server = [];
  bucket = [];
  timeout = 1;
  attempts = reporting;
}

abbrev store : Text → Answer
store key = value (5 ∷ key)

the_keys_are_folded_in_call_order :
    fetch sample decoded shown_duration stored source store
    ≡ ok (record { body = 5 ∷ b'a' ∷ 5 ∷ b'b' ∷ []; format = b'j'; revision = none; lease = none })
unfolding fetch merged contains_char
the_keys_are_folded_in_call_order = refl

abbrev accepting : Callback sample stored
accepting earlier x = returned (ok tt)

abbrev written_at : ℕ → List ℕ → Result Entry Text
written_at revision bytes = ok (record { operation = put; value = bytes; revision = revision })

-- A write, a deletion, a write, a value that is not text, and a write that is not reached.
abbrev stream : List (Result Entry Text)
stream =
    written_at 3 (7 ∷ [])
    ∷ ok (record { operation = delete; value = []; revision = 4 })
    ∷ written_at 5 (8 ∷ [])
    ∷ written_at 6 []
    ∷ written_at 7 (9 ∷ [])
    ∷ []

two_writes_are_delivered :
    written sample decoded shown_duration stored accepting source b'j' stream
    ≡ record { body = 7 ∷ []; format = b'j'; revision = some 3; lease = none }
      ∷ record { body = 8 ∷ []; format = b'j'; revision = some 5; lease = none }
      ∷ []
two_writes_are_delivered = refl

follow-written_example :
    ((follow sample decoded shown_duration stored accepting source b'j'
        (untouched sample stored)
        stream).0.delivered
      ≡ onto sample decoded shown_duration stored accepting source
          (written sample decoded shown_duration stored accepting source b'j' stream)
          [])
    × ((error : Text) × ((follow sample decoded shown_duration stored accepting source b'j'
            (untouched sample stored)
            stream).1
          ≡ err error))
follow-written_example =
    follow-written sample decoded shown_duration stored accepting source (λ earlier x. refl) b'j'
      (untouched sample stored) stream

abbrev plain : ConnectOptions
plain = record { root_certificates = []; client_certificate = none; tls_required = false }

abbrev pinned : ConnectOptions
pinned = record {
  root_certificates = text "ca.pem" ∷ [];
  client_certificate = none;
  tls_required = true;
}

abbrev authority : TlsConfig
authority = with_ca_certificate_file (text "ca.pem") new_tls

an_authority_requires_tls :
    with_tls_options sample (λ t. t) plain authority (text "nats") ≡ ok pinned
unfolding with_tls_options is_empty_tls
an_authority_requires_tls = refl

with_tls_options-Applied_example : Applied sample (λ t. t) plain authority pinned
with_tls_options-Applied_example =
    with_tls_options-Applied sample (λ t. t) plain pinned authority (text "nats")
      an_authority_requires_tls
