-- ===== src/Protocol/Startup.antt =====
-- `inject_ip_startup` and `extract_user_db` against a startup message as a list of parameters.
pub mod Refines
pub mod Identity
pub mod Asked
pub mod ServerReads
pub mod Named
pub mod Shown
pub mod Size
use pg_prism.Prelude.{
  ℕ, ◌+◌, ◌-◌, ◌≤◌, ◌<◌, Bool, true, false, ◌||◌, List, [], ◌∷◌, ◌++◌, map, ◌≡◌, ◌≢◌, refl, sym, ap,
  ◌∙◌, arith, ltb, leb, ◌==◌, if◌then◌else◌, Bool-cases, inl, inr, length, length-append, All,
  All-append, append_assoc, append-nil, take, drop, is_empty, list_eq, list_eq_iff,
  take-append-drop,
}
use pg_prism.Text.{Str, Bytes, codes, as_bytes}
use pg_prism.Text.Split.{split, split-append, split_last, split-All}
use pg_prism.Text.Utf8.{from_utf8_lossy, from_utf8_lossy-ne-nil, from_utf8_lossy-nonzero}
use pg_prism.Protocol.{
  format_application_name, strip_nul, parts_of, is_app_name, copy_params, trim_start_matches,
  added_param, close_params, inject_ip_startup, find_user_db, default_db, extract_user_db,
}

-- A parameter, as raw bytes.
pub record Param : Type 0 where
  pub key : Bytes
  pub value : Bytes

-- Keys and values in turn; an odd last piece is no parameter.
pub pairs : List Bytes → List Param
pairs [] = []
pairs (key ∷ []) = []
pairs (key ∷ value ∷ parts) = record { key = key; value = value } ∷ pairs parts

-- The parameters of a startup payload.
unfoldable pub params_of : Bytes → List Param
unfolding pairs
params_of payload = pairs (parts_of payload)

abbrev pub bytes_of : Param → Bytes
bytes_of p = p.key ++ (0 ∷ (p.value ++ (0 ∷ [])))

-- The parameters on the wire: `key NUL value NUL` each, and a last NUL.
unfoldable pub serialise : List Param → Bytes
serialise [] = 0 ∷ []
serialise (p ∷ ps) = bytes_of p ++ serialise ps

abbrev pub app_name : Bytes
app_name = codes "application_name"

abbrev pub with_address : Str → Param → Param
with_address ip p =
    if is_app_name (from_utf8_lossy p.key)
    then record p { value = as_bytes (format_application_name (from_utf8_lossy p.value) ip) }
    else p

-- Parameters with an empty key go; the address is put into each application name.
pub addressed : Str → List Param → List Param
addressed ip [] = []
addressed ip (p ∷ ps) =
    let rest = addressed ip ps in if is_empty p.key then rest else with_address ip p ∷ rest

pub names_app : List Param → Bool
names_app [] = false
names_app (p ∷ ps) = is_app_name (from_utf8_lossy p.key) || names_app ps

abbrev pub new_app_name : Str → Param
new_app_name ip = record {
  key = app_name;
  value = as_bytes (trim_start_matches (format_application_name [] ip));
}

-- The parameters that the server is to get.
unfoldable pub rewritten : Str → List Param → List Param
unfolding addressed names_app
rewritten ip ps = addressed ip ps ++ (if names_app ps then [] else new_app_name ip ∷ [])

pub concat : List Param → Bytes
concat [] = []
concat (p ∷ ps) = bytes_of p ++ concat ps
