-- ===== src/Protocol/Startup/Asked.antt =====
-- The user and the database for which a startup message asks the server, apart from how
-- `extract_user_db` of core/rust/src/protocol.rs finds them.
use mathlib.Core.Path.{subst}
use pg_prism.Prelude.{
  ◌≤◌, ◌<◌, Bool, true, false, List, [], ◌∷◌, ◌≡◌, ◌≢◌, refl, sym, ap, ◌∙◌, arith, if◌then◌else◌,
  Bool-cases, inl, inr, length, All, is_empty, list_eq, list_eq_iff,
}
use pg_prism.Text.{Str, Bytes, codes}
use pg_prism.Text.Utf8.{
  from_utf8_lossy, from_utf8_lossy-ascii, from_utf8_lossy-of_ascii, from_utf8_lossy-ne-nil,
}
use pg_prism.Protocol.{inject_ip_startup, default_db, extract_user_db}
use pg_prism.Protocol.Startup.{Param, params_of, rewritten}
use pg_prism.Protocol.Startup.Refines.{IsNulFree, lossy-nil, params_of-inject_ip_startup}
use pg_prism.Protocol.Startup.Identity.{
  find_params, extract_user_db-params, length-inject_ip_startup,
}

-- The value that counts is the last one of the name.
unfoldable pub last_value : Bytes → Bytes → List Param → Bytes
last_value name value [] = value
last_value name value (p ∷ ps) = last_value name (if list_eq p.key name then p.value else value) ps

abbrev user_name : Bytes
user_name = codes "user"

abbrev db_name : Bytes
db_name = codes "database"

abbrev pub asked_user : List Param → Bytes
asked_user ps = last_value user_name [] ps

-- PostgreSQL documents that the database is the user's name where it is not given.
abbrev or_user : Bytes → Bytes → Bytes
or_user user db = if is_empty db then user else db

abbrev pub asked_db : List Param → Bytes
asked_db ps = or_user (asked_user ps) (last_value db_name [] ps)

-- The program takes a key for a name in ASCII exactly if it is that, byte for byte.
pub list_eq-lossy :
    (name key : Bytes)
    → All (λ c. c < 0x80) name
    → list_eq (from_utf8_lossy key) name ≡ list_eq key name
list_eq-lossy name key low = elim (Bool-cases (list_eq (from_utf8_lossy key) name)) [
  | inl e ↦ rw e (sym (exact ((list_eq_iff (from_utf8_lossy key) name).0 e)))
  | inr e ↦ elim (Bool-cases (list_eq key name)) [
    | inl e' ↦ absurd (cc (sym e ∙ lossy ((list_eq_iff key name).0 e')))
    | inr e' ↦ rw (e, e') refl
  ]
]
  where
    exact : from_utf8_lossy key ≡ name → list_eq key name ≡ true
    exact e = (list_eq_iff key name).1 (
        sym (from_utf8_lossy-ascii key (subst (λ (s : Str). All (λ c. c < 0x80) s) (sym e) low))
        ∙ e)

    lossy : key ≡ name → list_eq (from_utf8_lossy key) name ≡ true
    lossy e = rw e ((list_eq_iff (from_utf8_lossy name) name).1 (from_utf8_lossy-of_ascii name low))

user_low : All (λ c. c < 0x80) user_name
user_low = ground arith

db_low : All (λ c. c < 0x80) db_name
db_low = ground arith

user_no_db : (key : Bytes) → list_eq key user_name ≡ true → list_eq key db_name ≡ false
unfolding list_eq
user_no_db key e = rw ((list_eq_iff key user_name).0 e) refl

find_params-last_value :
    (ps : List Param) (user db : Bytes)
    → find_params ps (from_utf8_lossy user) (from_utf8_lossy db)
      ≡ (from_utf8_lossy (last_value user_name user ps), from_utf8_lossy (last_value db_name db ps))
unfolding find_params last_value
find_params-last_value [] user db = refl
find_params-last_value (p ∷ ps) user db =
    rw (list_eq-lossy user_name p.key user_low, list_eq-lossy db_name p.key db_low)
      (elim (Bool-cases (list_eq p.key user_name)) [
        | inl u ↦ rw (u, user_no_db p.key u) (find_params-last_value ps p.value db)
        | inr u ↦ rw u (elim (Bool-cases (list_eq p.key db_name)) [
          | inl d ↦ rw d (find_params-last_value ps user p.value)
          | inr d ↦ rw d (find_params-last_value ps user db)
        ])
      ])

not_empty : (s : Str) → s ≢ [] → is_empty s ≡ false
not_empty [] h = absurd (h refl)
not_empty (c ∷ s) h = refl

default_db-or_user :
    (user db : Bytes)
    → default_db (from_utf8_lossy user, from_utf8_lossy db)
      ≡ (from_utf8_lossy user, from_utf8_lossy (or_user user db))
default_db-or_user user [] = rw lossy-nil refl
default_db-or_user user (b ∷ db) =
    ap
      (λ (none : Bool).
        (from_utf8_lossy user, if none then from_utf8_lossy user else from_utf8_lossy (b ∷ db)))
      (not_empty (from_utf8_lossy (b ∷ db)) (from_utf8_lossy-ne-nil b db))

-- What `extract_user_db` finds in the rewritten message is what the message asks the server for.
pub extract_user_db-asked :
    (payload : Bytes) (ip : Str)
    → 4 ≤ length payload
    → IsNulFree ip
    → extract_user_db (inject_ip_startup payload ip) ≡ (
      from_utf8_lossy (asked_user (rewritten ip (params_of payload))),
      from_utf8_lossy (asked_db (rewritten ip (params_of payload))),
    )
extract_user_db-asked payload ip long free =
    let ps = rewritten ip (params_of payload) in
    extract_user_db-params (inject_ip_startup payload ip) (length-inject_ip_startup payload ip long)
    ∙ rw (params_of-inject_ip_startup payload ip long free) (
        ap default_db (
          subst
            (λ (none : Str). find_params ps none none ≡ (
              from_utf8_lossy (last_value user_name [] ps),
              from_utf8_lossy (last_value db_name [] ps),
            ))
            lossy-nil (find_params-last_value ps [] []))
        ∙ default_db-or_user (last_value user_name [] ps) (last_value db_name [] ps))
