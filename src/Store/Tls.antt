-- ===== src/Store/Tls.antt =====
-- dynamic-config-store-core/src/tls.rs: the TLS settings that a caller hands to a store.
--
-- A path is its text, and `Vec<u8>` a list of numbers. Reading a file is the file system's, and an
-- argument: the bytes, or the text of the error.
use dynamic_config_remote.Common.{
  ℕ, Bool, false, not, ◌&&◌, List, Option, none, some, Text, text, ◌++◌, is_some, Result, ok, ◌>>=◌,
  map_err,
}
use dynamic_config_remote.Engine.{Engine}

pub data Pem : Type 0 where
  file : Text → Pem
  bytes : List ℕ → Pem

pub record ClientCertificate : Type 0 where
  pub certificate : Pem
  pub key : Pem

pub record TlsConfig : Type 0 where
  pub ca : Option Pem
  pub client : Option ClientCertificate
  pub server_name : Option Text
  pub skip_verification : Bool

unfoldable pub pem_path : Pem → Option Text
pem_path (file p) = some p
pem_path (bytes b) = none

abbrev pub new_tls : TlsConfig
new_tls = record { ca = none; client = none; server_name = none; skip_verification = false }

abbrev pub with_ca_certificate_file : Text → TlsConfig → TlsConfig
with_ca_certificate_file p tls = record tls { ca = some (file p) }

abbrev pub with_ca_certificate_pem : List ℕ → TlsConfig → TlsConfig
with_ca_certificate_pem pem tls = record tls { ca = some (bytes pem) }

abbrev pub with_client_certificate_files : Text → Text → TlsConfig → TlsConfig
with_client_certificate_files certificate key tls = record tls {
  client = some (record { certificate = file certificate; key = file key });
}

abbrev pub with_client_certificate_pem : List ℕ → List ℕ → TlsConfig → TlsConfig
with_client_certificate_pem certificate key tls = record tls {
  client = some (record { certificate = bytes certificate; key = bytes key });
}

abbrev pub with_server_name : Text → TlsConfig → TlsConfig
with_server_name name tls = record tls { server_name = some name }

abbrev pub with_skip_verification : Bool → TlsConfig → TlsConfig
with_skip_verification skip tls = record tls { skip_verification = skip }

unfoldable pub is_empty_tls : TlsConfig → Bool
is_empty_tls tls =
    not (is_some tls.ca)
    && (not (is_some tls.client) && (not (is_some tls.server_name) && not tls.skip_verification))

module _ (e : Engine) where
  open e use {Error}

  unfoldable pub unsupported : Text → Text → Text → Error
  unsupported described setting instead = e.remote (
      described
      ++ (text ": "
          ++ (setting
              ++ (text " cannot be expressed here, and is refused rather than ignored; "
                  ++ instead))))

  module _ (read_file : Text → Result (List ℕ) Text) where
    unfoldable pub read_pem : Pem → Text → Text → Result (List ℕ) Error
    read_pem (bytes b) described what = ok b
    read_pem (file p) described what =
        map_err
          (λ error. e.remote (
            described
            ++ (text ": reading " ++ (what ++ (text " from " ++ (p ++ (text ": " ++ error)))))))
          (read_file p)

    unfoldable pub ca_certificate_pem : TlsConfig → Text → Result (Option (List ℕ)) Error
    unfolding read_pem
    ca_certificate_pem tls described = elim tls.ca [
      | none ↦ ok none
      | some pem ↦ do read ← read_pem pem described (text "the CA certificate"); ok (some read)
    ]

    unfoldable pub client_certificate_pem :
        TlsConfig → Text → Result (Option (List ℕ × List ℕ)) Error
    unfolding read_pem
    client_certificate_pem tls described = elim tls.client [
      | none ↦ ok none
      | some client ↦ do
        certificate ← read_pem client.certificate described (text "the client certificate")
        key ← read_pem client.key described (text "the client private key")
        ok (some (certificate, key))
    ]
