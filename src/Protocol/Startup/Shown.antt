-- ===== src/Protocol/Startup/Shown.antt =====
-- What the server reads in what `inject_ip_startup` of core/rust/src/protocol.rs writes.
use mathlib.Core.Path.{subst}
use pg_prism.Prelude.{
  sym, some, take, drop, length-take, length-append, drop-length_append, ℕ, ◌≤◌, ◌<◌, Bool, true,
  false, ◌||◌, List, [], ◌∷◌, ◌++◌, ◌≡◌, ◌≢◌, refl, ap, ◌∙◌, arith, if◌then◌else◌, Bool-cases, inl,
  inr, length, All, All-append, is_empty, list_eq,
}
use pg_prism.Net.{IsAddressText}
use pg_prism.Text.{Str, Bytes}
use pg_prism.Text.Utf8.{from_utf8_lossy}
use pg_prism.Protocol.Startup.ServerReads.{
  server_params, read_params, one_sets_app_name, AreNamed, read_params-serialise,
  length-serialise_lt,
}
use pg_prism.Protocol.{is_app_name, inject_ip_startup, extract_user_db}
use pg_prism.Protocol.Startup.{
  Param, serialise, params_of, app_name, addressed, names_app, new_app_name, rewritten,
}
use pg_prism.Protocol.Startup.Named.{
  ShownIn, is_app_name-lossy, IsAddressText-IsPrintable, IsAddressText-IsNulFree, addressed-ShownIn,
  added-ShownIn,
}
use pg_prism.Protocol.Startup.Asked.{asked_user, asked_db, extract_user_db-asked}
use pg_prism.Protocol.Startup.Identity.{extract_user_db-inject_ip_startup, eq_nil}
use pg_prism.Protocol.Startup.Refines.{
  IsNulFree, inject_ip_startup_lem, rewritten-AreNulFree, params_of-AreNulFree, lossy-nil,
  is_app_name-nil, key-with_address,
}

-- The server reads a startup message to its end, and finds an application name in it; of each that
-- it finds it stores a value that shows the address. Meant are the parameters that are named exactly
-- `application_name`: others, of which the server may make the same setting, are not.
pub record ServerShows (ip : Str) (message : Bytes) : Type 0 where
  pub params : List Param
  pub reads : server_params message ≡ some params
  pub named : one_sets_app_name params ≡ true
  pub shown : All (ShownIn ip) params

names_app-append : (ps qs : List Param) → names_app (ps ++ qs) ≡ (names_app ps || names_app qs)
unfolding names_app
names_app-append [] qs = refl
names_app-append (p ∷ ps) qs = ground (arith, names_app-append ps qs)

names_app-addressed : (ip : Str) (ps : List Param) → names_app (addressed ip ps) ≡ names_app ps
unfolding names_app addressed
names_app-addressed ip [] = refl
names_app-addressed ip (p ∷ ps) = elim (Bool-cases (is_empty p.key)) [
  | inl e ↦ rw (e, eq_nil p.key e, lossy-nil, is_app_name-nil) (names_app-addressed ip ps)
  | inr e ↦ rw (e, key-with_address ip p, names_app-addressed ip ps) refl
]

is_app_name-app_name : is_app_name (from_utf8_lossy app_name) ≡ true
unfolding is_app_name from_utf8_lossy list_eq
is_app_name-app_name = refl

names_app-rewritten : (ip : Str) (ps : List Param) → names_app (rewritten ip ps) ≡ true
unfolding rewritten
names_app-rewritten ip ps =
    names_app-append (addressed ip ps) (if names_app ps then [] else new_app_name ip ∷ [])
    ∙ rw (names_app-addressed ip ps) (last (names_app ps))
  where
    last : (b : Bool) → (b || names_app (if b then [] else new_app_name ip ∷ [])) ≡ true
    last true = refl
    last false = unfold names_app in rw is_app_name-app_name refl

one_sets-names_app : (ps : List Param) → one_sets_app_name ps ≡ names_app ps
unfolding one_sets_app_name names_app
one_sets-names_app [] = refl
one_sets-names_app (p ∷ ps) = rw (is_app_name-lossy p.key, one_sets-names_app ps) refl

addressed-AreNamed : (ip : Str) (ps : List Param) → AreNamed (addressed ip ps)
unfolding addressed
addressed-AreNamed ip [] = tt
addressed-AreNamed ip (p ∷ ps) = elim (Bool-cases (is_empty p.key)) [
  | inl e ↦ rw e (addressed-AreNamed ip ps)
  | inr e ↦ rw e (rw (key-with_address ip p) e, addressed-AreNamed ip ps)
]

rewritten-AreNamed : (ip : Str) (ps : List Param) → AreNamed (rewritten ip ps)
unfolding rewritten
rewritten-AreNamed ip ps =
    All-append (λ (p : Param). is_empty p.key ≡ false) (addressed ip ps) _
      (addressed-AreNamed ip ps) (last (names_app ps))
  where
    last : (b : Bool) → AreNamed (if b then [] else new_app_name ip ∷ [])
    last true = tt
    last false = (refl, tt)

-- What the server reads is what the program means it to get.
pub server_params-inject_ip_startup :
    (payload : Bytes) (ip : Str)
    → 4 ≤ length payload
    → IsNulFree ip
    → server_params (inject_ip_startup payload ip) ≡ some (rewritten ip (params_of payload))
server_params-inject_ip_startup payload ip long free =
    let ps = rewritten ip (params_of payload) in
    let four : length (take 4 payload) ≡ 4 = omega (arith, length-take 4 payload) in
    rw (inject_ip_startup_lem payload ip long) (
      ap (λ (bytes : Bytes). read_params (length (take 4 payload ++ serialise ps)) bytes)
        (subst (λ (n : ℕ). drop n (take 4 payload ++ serialise ps) ≡ serialise ps) four
          (drop-length_append (take 4 payload) (serialise ps)))
      ∙ read_params-serialise (length (take 4 payload ++ serialise ps)) ps
          (omega (arith, length-serialise_lt ps, length-append (take 4 payload) (serialise ps)))
          (rewritten-AreNulFree ip (params_of payload) free (params_of-AreNulFree payload))
          (rewritten-AreNamed ip (params_of payload)))

-- The server that reads the injected payload as PostgreSQL documents the message, up to the empty
-- name that must be its last byte, finds a parameter named exactly `application_name`, and of each
-- that it finds it stores a value that shows the whole address, cleaned and cut off behind 63
-- characters: " - " and the address stand at its end, or it is a blank and the address. The address
-- is one of 1 to 59 characters of an address literal. Of other parameters, `options` among them,
-- nothing is said.
pub inject_ip_startup-ServerShows :
    (payload : Bytes) (ip : Str)
    → 4 ≤ length payload
    → ip ≢ []
    → IsAddressText ip
    → length ip < 60
    → ServerShows ip (inject_ip_startup payload ip)
inject_ip_startup-ServerShows payload ip long ne h short = record {
  params = rewritten ip (params_of payload);
  reads = server_params-inject_ip_startup payload ip long (IsAddressText-IsNulFree ip h);
  named =
      one_sets-names_app (rewritten ip (params_of payload))
      ∙ names_app-rewritten ip (params_of payload);
  shown =
      unfold rewritten in
      All-append (ShownIn ip) (addressed ip (params_of payload)) _
        (addressed-ShownIn ip (params_of payload) (IsAddressText-IsPrintable ip h) short)
        (added-ShownIn ip (names_app (params_of payload)) ne h short);
}

some_inj : (ps qs : List Param) → some ps ≡ some qs → ps ≡ qs
some_inj ps qs e = cc e

-- Whatever parameters the server reads in the rewritten message, the user and the database for which
-- they ask are those that `extract_user_db` has found in the client's message, as text.
pub extract_user_db-server_params :
    (payload : Bytes) (ip : Str) (params : List Param)
    → 4 ≤ length payload
    → IsNulFree ip
    → server_params (inject_ip_startup payload ip) ≡ some params
    → extract_user_db payload
      ≡ (from_utf8_lossy (asked_user params), from_utf8_lossy (asked_db params))
extract_user_db-server_params payload ip params long free e =
    sym (extract_user_db-inject_ip_startup payload ip long free)
    ∙ extract_user_db-asked payload ip long free
    ∙ ap (λ (ps : List Param). (from_utf8_lossy (asked_user ps), from_utf8_lossy (asked_db ps)))
        (some_inj _ _ (sym (server_params-inject_ip_startup payload ip long free) ∙ e))
