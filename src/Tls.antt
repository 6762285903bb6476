-- ===== src/Tls.antt =====
-- core/rust/src/tls.rs: the certificate archive, which `openssl` makes where there is none, and the
-- acceptor that is built from it.
pub mod Loaded
mod Tests
use pg_prism.Prelude.{if◌then◌else◌, Bool, true, false, List, [], ◌∷◌, ◌++◌, Option, none, some}
use pg_prism.Text.{Str, Bytes, codes}
use pg_prism.Proxy.Handshake.{TlsAcceptor}

-- `Box<dyn Error>`: a command that could not be started, the two messages of the source, and the
-- errors of the reading, of the archive and of the builder.
pub data TlsError : Type 0 where
  not_started generate_failed export_failed not_read bad_archive not_built : TlsError

pub data TlsResult (A : Type 0) : Type 0 where
  ok : A → TlsResult A
  err : TlsError → TlsResult A

-- A file of the working directory, which the process may read or may not.
pub data File : Type 0 where
  readable : Bytes → File
  unreadable : File

abbrev pub Files : Type 0
Files = Str → Option File

-- The files that are there, and the arguments of the commands that were run.
pub record Machine : Type 0 where
  pub files : Files
  pub ran : List (List Str)

abbrev pub cert_path : Str
cert_path = codes "server.crt"

abbrev pub key_path : Str
key_path = codes "server.key"

abbrev pub p12_path : Str
p12_path = codes "identity.p12"

abbrev pub generate_args : List Str
generate_args =
    codes "req"
    ∷ codes "-new"
    ∷ codes "-newkey"
    ∷ codes "rsa:2048"
    ∷ codes "-days"
    ∷ codes "365"
    ∷ codes "-nodes"
    ∷ codes "-x509"
    ∷ codes "-keyout"
    ∷ key_path
    ∷ codes "-out"
    ∷ cert_path
    ∷ codes "-subj"
    ∷ codes "/CN=localhost"
    ∷ []

abbrev pub export_args : List Str
export_args =
    codes "pkcs12"
    ∷ codes "-export"
    ∷ codes "-out"
    ∷ p12_path
    ∷ codes "-inkey"
    ∷ key_path
    ∷ codes "-in"
    ∷ cert_path
    ∷ codes "-passout"
    ∷ codes "pass:mypassword"
    ∷ []

-- `Path::new(path).exists()`
abbrev pub exists : Option File → Bool
exists none = false
exists (some file) = true

-- `std::fs::read(path)`
abbrev pub read : Option File → Option Bytes
read none = none
read (some unreadable) = none
read (some (readable bytes)) = some bytes

-- The program `openssl`, which is given its arguments and the files and may fail to start; and what
-- native-tls makes of an archive and of an identity.
pub record TlsTools : Type 1 where
  pub openssl : List Str → Files → Option Bool × Files
  pub Identity : Type 0
  pub from_pkcs12 : Bytes → Str → Option Identity
  pub build : Identity → Option TlsAcceptor

module _ (tools : TlsTools) where
  -- `Command::new("openssl").args(args).status()`
  abbrev pub status : List Str → Machine → Option Bool × Machine
  status args machine =
      let (result, files) = tools.openssl args machine.files in
      (result, record machine { files = files; ran = machine.ran ++ (args ∷ []) })

  -- `status()?`, and the message if it was no success.
  abbrev pub then_success :
      Option Bool × Machine
      → TlsError
      → (Machine → TlsResult Unit × Machine)
      → TlsResult Unit × Machine
  then_success (none, machine) e f = (err not_started, machine)
  then_success (some false, machine) e f = (err e, machine)
  then_success (some true, machine) e f = f machine

  abbrev pub generate : Machine → TlsResult Unit × Machine
  generate machine = then_success (status generate_args machine) generate_failed (λ generated.
      then_success (status export_args generated) export_failed (λ exported. (ok tt, exported)))

  unfoldable pub ensure_ssl_certificates : Machine → TlsResult Unit × Machine
  ensure_ssl_certificates machine =
      if exists (machine.files p12_path) then (ok tt, machine) else generate machine

  -- `from_pkcs12(...)?` and `build()?`
  abbrev pub built : Option TlsAcceptor → TlsResult TlsAcceptor
  built none = err not_built
  built (some acceptor) = ok acceptor

  abbrev pub identified : Option tools.Identity → TlsResult TlsAcceptor
  identified none = err bad_archive
  identified (some identity) = built (tools.build identity)

  abbrev pub accept_with : Option Bytes → TlsResult TlsAcceptor
  accept_with none = err not_read
  accept_with (some p12_bytes) = identified (tools.from_pkcs12 p12_bytes (codes "mypassword"))

  abbrev pub with_certificates : TlsResult Unit × Machine → TlsResult TlsAcceptor × Machine
  with_certificates (err e, machine) = (err e, machine)
  with_certificates (ok x, machine) = (accept_with (read (machine.files p12_path)), machine)

  unfoldable pub load_tls_acceptor : Machine → TlsResult TlsAcceptor × Machine
  unfolding ensure_ssl_certificates
  load_tls_acceptor machine = with_certificates (ensure_ssl_certificates machine)
