-- ===== src/Tls/Tests.antt =====
-- Runs of the loading of the acceptor.
use pg_prism.Prelude.{
  Bool, true, false, List, [], ◌∷◌, Option, none, some, ◌≡◌, refl, if◌then◌else◌, list_eq,
}
use pg_prism.Text.{Str, Bytes, codes}
use pg_prism.Tls.{
  ok, File, readable, unreadable, err, not_read, Files, Machine, p12_path, key_path, cert_path,
  TlsTools, load_tls_acceptor, ensure_ssl_certificates,
}
use pg_prism.Tls.Loaded.{load_tls_acceptor-again}

abbrev write_file : Str → Bytes → Files → Files
write_file path bytes files name = if list_eq name path then some (readable bytes) else files name

-- `openssl req` writes the key and the certificate, and `openssl pkcs12` the archive if both are there.
abbrev export_file : Option File → Option File → Files → Option Bool × Files
export_file (some (readable key)) (some (readable cert)) files =
    (some true, write_file p12_path (1 ∷ key) files)
export_file _ _ files = (some false, files)

abbrev openssl : List Str → Files → Option Bool × Files
openssl [] files = (none, files)
openssl (command ∷ args) files =
    if list_eq command (codes "req")
    then (some true, write_file key_path (7 ∷ []) (write_file cert_path (8 ∷ []) files))
    else export_file (files key_path) (files cert_path) files

abbrev tools : TlsTools
tools = record {
  openssl = openssl;
  Identity = Bytes;
  from_pkcs12 =
      λ bytes password. if list_eq password (codes "mypassword") then some bytes else none;
  build = λ identity. some (λ socket. some socket);
}

abbrev bare : Machine
bare = record { files = λ name. none; ran = [] }

abbrev made : Machine
unfolding load_tls_acceptor ensure_ssl_certificates
made = (load_tls_acceptor tools bare).1

made_again : load_tls_acceptor tools made ≡ (ok (λ socket. some socket), made)
unfolding made load_tls_acceptor ensure_ssl_certificates list_eq
made_again = load_tls_acceptor-again tools bare made (λ socket. some socket) refl

-- An archive that is there and cannot be read.
abbrev locked : Machine
locked = record {
  files = λ name. if list_eq name p12_path then some unreadable else none;
  ran = [];
}

locked_ends : load_tls_acceptor tools locked ≡ (err not_read, locked)
unfolding load_tls_acceptor ensure_ssl_certificates list_eq
locked_ends = refl
