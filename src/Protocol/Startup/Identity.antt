-- ===== src/Protocol/Startup/Identity.antt =====
-- `extract_user_db` of core/rust/src/protocol.rs before and after the injection.
use pg_prism.Prelude.{
  ◌≤◌, Bool, true, false, List, [], ◌∷◌, ◌++◌, ◌≡◌, refl, sym, ap, ◌∙◌, arith, ltb, if◌then◌else◌,
  Bool-cases, inl, inr, length, length-append, length-take, take, is_empty, list_eq, list_eq_iff,
}
use pg_prism.Text.{Str, Bytes, codes}
use pg_prism.Text.Utf8.{from_utf8_lossy}
use pg_prism.Protocol.{
  parts_of, is_app_name, inject_ip_startup, find_user_db, default_db, extract_user_db,
}
use pg_prism.Protocol.Startup.{
  Param, pairs, params_of, serialise, app_name, addressed, names_app, new_app_name, rewritten,
}
use pg_prism.Protocol.Startup.Refines.{
  IsNulFree, inject_ip_startup_lem, lossy-nil, params_of-inject_ip_startup,
}

-- The user and the database that a list of parameters names; the last of each counts.
unfoldable pub find_params : List Param → Str → Str → Str × Str
find_params [] user db = (user, db)
find_params (p ∷ ps) user db =
    let key = from_utf8_lossy p.key in
    let val = from_utf8_lossy p.value in
    let is_user = list_eq key (codes "user") in
    let is_db = list_eq key (codes "database") in
    find_params ps (if is_user then val else user)
      (if is_user then db else if is_db then val else db)

find_user_db-pairs :
    (parts : List Bytes) (user db : Str)
    → find_user_db parts user db ≡ find_params (pairs parts) user db
unfolding find_user_db find_params pairs
find_user_db-pairs [] user db = refl
find_user_db-pairs (k ∷ []) user db = refl
find_user_db-pairs (k ∷ v ∷ parts) user db = find_user_db-pairs parts _ _

pub extract_user_db-params :
    (payload : Bytes)
    → 4 ≤ length payload
    → extract_user_db payload ≡ default_db (find_params (params_of payload) [] [])
unfolding extract_user_db params_of
extract_user_db-params payload long =
    let short : ltb (length payload) 4 ≡ false = ground arith in
    rw short (ap default_db (find_user_db-pairs (parts_of payload) [] []))

pub eq_nil : (k : Bytes) → is_empty k ≡ true → k ≡ []
eq_nil [] h = refl
eq_nil (b ∷ k) h = cc

app_name_eq : (key : Str) → is_app_name key ≡ true → key ≡ app_name
unfolding is_app_name
app_name_eq key h = (list_eq_iff key app_name).0 h

find_params-addressed :
    (ip : Str) (ps : List Param) (user db : Str)
    → find_params (addressed ip ps) user db ≡ find_params ps user db
unfolding find_params addressed list_eq
find_params-addressed ip [] user db = refl
find_params-addressed ip (p ∷ ps) user db = elim (Bool-cases (is_empty p.key)) [
  | inl e ↦ rw (e, eq_nil p.key e, lossy-nil) (find_params-addressed ip ps user db)
  | inr e ↦ rw e (elim (Bool-cases (is_app_name (from_utf8_lossy p.key))) [
    | inl a ↦ rw (a, app_name_eq (from_utf8_lossy p.key) a) (find_params-addressed ip ps user db)
    | inr a ↦ rw a (find_params-addressed ip ps _ _)
  ])
]

lossy-app_name : from_utf8_lossy app_name ≡ app_name
unfolding from_utf8_lossy
lossy-app_name = refl

find_params-added :
    (ip : Str) (ps : List Param) (found : Bool) (user db : Str)
    → find_params (ps ++ (if found then [] else new_app_name ip ∷ [])) user db
      ≡ find_params ps user db
unfolding find_params list_eq
find_params-added ip [] true user db = refl
find_params-added ip [] false user db = rw lossy-app_name refl
find_params-added ip (p ∷ ps) found user db = find_params-added ip ps found _ _

find_params-rewritten :
    (ip : Str) (ps : List Param) (user db : Str)
    → find_params (rewritten ip ps) user db ≡ find_params ps user db
unfolding rewritten
find_params-rewritten ip ps user db =
    find_params-added ip (addressed ip ps) (names_app ps) user db
    ∙ find_params-addressed ip ps user db

pub length-inject_ip_startup :
    (payload : Bytes) (ip : Str) → 4 ≤ length payload → 4 ≤ length (inject_ip_startup payload ip)
length-inject_ip_startup payload ip long = rw (inject_ip_startup_lem payload ip long) (
    omega (
      arith,
      length-append (take 4 payload) (serialise (rewritten ip (params_of payload))),
      length-take 4 payload,
    ))

-- The user and the database are the same before and after the injection, for every startup
-- payload with a version in it and an address without NULs: what Guardian has judged is what the
-- server is asked for.
pub extract_user_db-inject_ip_startup :
    (payload : Bytes) (ip : Str)
    → 4 ≤ length payload
    → IsNulFree ip
    → extract_user_db (inject_ip_startup payload ip) ≡ extract_user_db payload
extract_user_db-inject_ip_startup payload ip long hi =
    extract_user_db-params (inject_ip_startup payload ip) (length-inject_ip_startup payload ip long)
    ∙ rw (params_of-inject_ip_startup payload ip long hi)
        (ap default_db (find_params-rewritten ip (params_of payload) [] []))
    ∙ sym (extract_user_db-params payload long)
