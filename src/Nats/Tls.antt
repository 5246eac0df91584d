-- ===== src/Nats/Tls.antt =====
-- dynamic-config-nats/src/lib.rs, `with_tls_options`: TLS settings on the options of a connection.
--
-- Of the `ConnectOptions` of the crate async-nats, what these settings write is modelled. Its
-- `add_client_certificate` replaces the one that was there, and `add_root_certificates` adds.
pub mod Applied
use mathlib.Core.Option
use dynamic_config_remote.Common.{
  Bool, true, false, not, List, [], ◌∷◌, ◌++◌, Option, none, some, Text, text, if◌then◌else◌,
  Result, ok, err, ◌>>=◌, ok_or, ensure,
}
use dynamic_config_remote.Engine.{Engine}
use dynamic_config_remote.Store.Tls.{
  Pem, ClientCertificate, TlsConfig, pem_path, is_empty_tls, unsupported,
}
use dynamic_config_remote.Nats.{redacted}

pub record ConnectOptions : Type 0 where
  pub root_certificates : List Text
  pub client_certificate : Option (Text × Text)
  pub tls_required : Bool

module _ (e : Engine) (debug : Text → Text) where
  open e use {Error}

  abbrev pub unnamed : Text → TlsConfig → Result (Unit {0}) Error
  unnamed described tls = elim tls.server_name [
    | none ↦ ok tt
    | some name ↦ err (
        unsupported e described
          (text "verifying against the name " ++ (debug name ++ text " rather than the address's"))
          (text
            "`async-nats` takes no name override; address the server by the name its certificate carries"))
  ]

  abbrev pub verified : Text → TlsConfig → Result (Unit {0}) Error
  verified described tls = ensure (not tls.skip_verification) (
      unsupported e described (text "connecting without verifying the server") (
        text
          "`async-nats` reaches that only through a hand-built `rustls::ClientConfig`; name the authority with `with_ca_certificate_file` instead"))

  unfoldable pub with_authority : Text → TlsConfig → ConnectOptions → Result ConnectOptions Error
  unfolding pem_path
  with_authority described tls options = elim tls.ca [
    | none ↦ ok options
    | some ca ↦ do
      p ← ok_or (pem_path ca) (
          unsupported e described (text "a certificate authority from PEM bytes")
            (text "`async-nats` opens the file itself; name it with `with_ca_certificate_file`"))
      ok (record options { root_certificates = options.root_certificates ++ p ∷ [] })
  ]

  unfoldable pub with_client : Text → TlsConfig → ConnectOptions → Result ConnectOptions Error
  unfolding pem_path
  with_client described tls options =
      let refusal : Error = unsupported e described (text "a client certificate from PEM bytes") (
        text
          "`async-nats` opens the files itself; name them with `with_client_certificate_files`") in
      elim tls.client [
        | none ↦ ok options
        | some client ↦ do
          certificate ← ok_or (pem_path client.certificate) refusal
          key ← ok_or (pem_path client.key) refusal
          ok (record options { client_certificate = some (certificate, key) })
      ]

  unfoldable pub with_tls_options : ConnectOptions → TlsConfig → Text → Result ConnectOptions Error
  unfolding with_authority with_client is_empty_tls
  with_tls_options options tls described = do
    _ ← unnamed described tls
    _ ← verified described tls
    rooted ← with_authority described tls options
    certified ← with_client described tls rooted
    ok (if is_empty_tls tls then certified else record certified { tls_required = true })
