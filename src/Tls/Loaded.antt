-- ===== src/Tls/Loaded.antt =====
-- What `load_tls_acceptor` of core/rust/src/tls.rs has run and read, on every branch.
use mathlib.Core.Path.{subst}
use pg_prism.Prelude.{
  Bool, true, false, Bool-cases, List, [], ◌∷◌, ◌++◌, Option, none, some, ◌≡◌, ◌⊎◌, inl, inr, refl,
  ap, ◌∙◌, append_assoc,
}
use pg_prism.Text.{Str, Bytes, codes}
use pg_prism.Proxy.Handshake.{TlsAcceptor}
use pg_prism.Tls.{
  File, readable, unreadable, read, TlsError, not_started, generate_failed, export_failed, not_read,
  bad_archive, not_built, TlsResult, ok, err, Machine, p12_path, generate_args, export_args, exists,
  TlsTools, status, then_success, built, identified, accept_with, with_certificates,
  load_tls_acceptor,
}

-- The archive was there, and nothing was run; or it was not, and both commands were.
abbrev pub Ensured : Machine → Machine → Type 0
Ensured before after =
    ((exists (before.files p12_path) ≡ true) × (after ≡ before))
    ⊎ ((exists (before.files p12_path) ≡ false)
        × (after.ran ≡ before.ran ++ (generate_args ∷ export_args ∷ [])))

-- The archive was not there, and the first command was run, which the second may have followed.
abbrev pub Tried : Machine → Machine → Type 0
Tried before after =
    (exists (before.files p12_path) ≡ false)
    × ((after.ran ≡ before.ran ++ (generate_args ∷ []))
        ⊎ (after.ran ≡ before.ran ++ (generate_args ∷ export_args ∷ [])))

module _ (tools : TlsTools) where
  abbrev pub Explained : Machine → Machine → TlsError → Type 0
  Explained before after not_started = Tried before after
  Explained before after generate_failed =
      (exists (before.files p12_path) ≡ false) × (after.ran ≡ before.ran ++ (generate_args ∷ []))
  Explained before after export_failed =
      (exists (before.files p12_path) ≡ false)
      × (after.ran ≡ before.ran ++ (generate_args ∷ export_args ∷ []))
  Explained before after not_read =
      Ensured before after
      × ((after.files p12_path ≡ none) ⊎ (after.files p12_path ≡ some unreadable))
  Explained before after bad_archive =
      Ensured before after
      × ((bytes : Bytes) × (after.files p12_path ≡ some (readable bytes))
          × (tools.from_pkcs12 bytes (codes "mypassword") ≡ none))
  Explained before after not_built =
      Ensured before after
      × ((bytes : Bytes) × (identity : tools.Identity) × (after.files p12_path
            ≡ some (readable bytes))
          × (tools.from_pkcs12 bytes (codes "mypassword") ≡ some identity)
          × (tools.build identity ≡ none))

  abbrev pub Shown : Machine → TlsResult TlsAcceptor × Machine → Type 0
  Shown before (ok acceptor, after) =
      Ensured before after
      × ((bytes : Bytes) × (identity : tools.Identity) × (after.files p12_path
            ≡ some (readable bytes))
          × (tools.from_pkcs12 bytes (codes "mypassword") ≡ some identity)
          × (tools.build identity ≡ some acceptor))
  Shown before (err e, after) = Explained before after e

  module _ (before after : Machine) (ensured : Ensured before after) where
    built-Shown :
        (bytes : Bytes) (identity : tools.Identity) (x : Option TlsAcceptor)
        → after.files p12_path ≡ some (readable bytes)
        → tools.from_pkcs12 bytes (codes "mypassword") ≡ some identity
        → tools.build identity ≡ x
        → Shown before (built tools x, after)
    built-Shown bytes identity none there named e = (ensured, (bytes, identity, there, named, e))
    built-Shown bytes identity (some acceptor) there named e =
        (ensured, (bytes, identity, there, named, e))

    identified-Shown :
        (bytes : Bytes) (x : Option tools.Identity)
        → after.files p12_path ≡ some (readable bytes)
        → tools.from_pkcs12 bytes (codes "mypassword") ≡ x
        → Shown before (identified tools x, after)
    identified-Shown bytes none there e = (ensured, (bytes, there, e))
    identified-Shown bytes (some identity) there e =
        built-Shown bytes identity (tools.build identity) there e refl

    accept_with-Shown :
        (file : Option File)
        → after.files p12_path ≡ file
        → Shown before (accept_with tools (read file), after)
    accept_with-Shown none e = (ensured, inl e)
    accept_with-Shown (some unreadable) e = (ensured, inr e)
    accept_with-Shown (some (readable bytes)) e = identified-Shown bytes _ e refl

  module _ (before : Machine) (missing : exists (before.files p12_path) ≡ false) where
    exported-Shown :
        (result : Option Bool × Machine)
        → result.1.ran ≡ before.ran ++ (generate_args ∷ export_args ∷ [])
        → Shown before (
            with_certificates tools
              (then_success tools result export_failed (λ exported. (ok tt, exported))))
    exported-Shown (none, after) ran = (missing, inr ran)
    exported-Shown (some false, after) ran = (missing, ran)
    exported-Shown (some true, after) ran =
        accept_with-Shown before after (inr (missing, ran)) _ refl

    generated-Shown :
        (result : Option Bool × Machine)
        → result.1.ran ≡ before.ran ++ (generate_args ∷ [])
        → Shown before (
            with_certificates tools (
              then_success tools result generate_failed (λ generated.
                then_success tools
                  (status tools export_args generated)
                  export_failed
                  (λ exported. (ok tt, exported)))))
    generated-Shown (none, after) ran = (missing, inl ran)
    generated-Shown (some false, after) ran = (missing, ran)
    generated-Shown (some true, generated) ran =
        exported-Shown (status tools export_args generated) (
          ap (λ (c : List (List Str)). c ++ (export_args ∷ [])) ran
          ∙ append_assoc before.ran (generate_args ∷ []) (export_args ∷ []))

  pub load_tls_acceptor-Shown :
      (machine : Machine) → Shown machine (load_tls_acceptor tools machine)
  unfolding load_tls_acceptor
  load_tls_acceptor-Shown machine = elim (Bool-cases (exists (machine.files p12_path))) [
    | inl there ↦ rw there (accept_with-Shown machine machine (inl (there, refl)) _ refl)
    | inr missing ↦
        rw missing (generated-Shown machine missing (status tools generate_args machine) refl)
  ]

  loaded_again :
      (before after : Machine) (acceptor : TlsAcceptor)
      → Shown before (ok acceptor, after)
      → load_tls_acceptor tools after ≡ (ok acceptor, after)
  unfolding load_tls_acceptor
  loaded_again before after acceptor (ensured, (bytes, identity, there, named, e)) =
      let is_there : exists (after.files p12_path) ≡ true = ap exists there in
      let accepted : accept_with tools (read (after.files p12_path)) ≡ ok acceptor =
        ap (λ (file : Option File). accept_with tools (read file)) there
        ∙ ap (λ (i : Option tools.Identity). identified tools i) named
        ∙ ap (λ (x : Option TlsAcceptor). built tools x) e in
      rw is_there (ap (λ (r : TlsResult TlsAcceptor). (r, after)) accepted)

  -- Once an acceptor has been loaded, another start gives the same one, runs no command and changes
  -- no file.
  pub load_tls_acceptor-again :
      (before after : Machine) (acceptor : TlsAcceptor)
      → load_tls_acceptor tools before ≡ (ok acceptor, after)
      → load_tls_acceptor tools after ≡ (ok acceptor, after)
  load_tls_acceptor-again before after acceptor loaded =
      loaded_again before after acceptor
        (subst (λ r. Shown before r) loaded (load_tls_acceptor-Shown before))
