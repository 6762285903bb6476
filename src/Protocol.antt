-- ===== src/Protocol.antt =====
-- core/rust/src/protocol.rs: startup versions, the ErrorResponse, and the rewriting of a startup
-- message's parameters. Texts are `Str`, wire data is `Bytes`.
pub mod Server
pub mod AppName
pub mod Startup
pub mod Frames
mod Tests
use pg_prism.Prelude.{
  ℕ, ◌+◌, ◌-◌, ◌/◌, ◌%◌, Bool, true, false, ◌||◌, ◌&&◌, List, [], ◌∷◌, ◌++◌, ltb, leb, ◌==◌, within,
  if◌then◌else◌, is_empty, length, take, drop, list_eq,
}
use pg_prism.Text.{Str, Bytes, codes, encode_char, as_bytes, len}
use pg_prism.Text.Split.{split}
use pg_prism.Text.Utf8.{from_utf8_lossy}
use pg_prism.Wire.{as_u32, to_be_bytes}

abbrev pub ssl_request : ℕ
ssl_request = 80877103

abbrev pub gssenc_request : ℕ
gssenc_request = 80877104

abbrev pub cancel_request : ℕ
cancel_request = 80877102

abbrev pub startup_message : ℕ
startup_message = 196608

-- `(version >> 16) as u16`
unfoldable pub startup_major : ℕ → ℕ
startup_major version = version / 65536 % 65536

-- `(version & 0xffff) as u16`
unfoldable pub startup_minor : ℕ → ℕ
startup_minor version = version % 65536

unfoldable pub is_supported_startup : ℕ → Bool
unfolding startup_major
is_supported_startup version = startup_major version == 3

pub error_body : Str → Str → Bytes
error_body message code =
    b'S'
    ∷ (codes "ERROR"
        ++ (0
            ∷ b'V'
            ∷ (codes "ERROR"
                ++ (0
                    ∷ b'C'
                    ∷ (as_bytes code ++ (0 ∷ b'M' ∷ (as_bytes message ++ (0 ∷ 0 ∷ []))))))))

unfoldable pub make_error_response : Str → Str → Bytes
unfolding error_body
make_error_response message code =
    let body = error_body message code in b'E' ∷ (to_be_bytes (as_u32 (length body + 4)) ++ body)

abbrev pub namedatalen_limit : ℕ
namedatalen_limit = 63

unfoldable pub stored_len : ℕ → ℕ
stored_len byte = if leb 0x20 byte && ltb byte 0x7F then 1 else 4

pub stored_len_sum : Bytes → ℕ
unfolding stored_len
stored_len_sum [] = 0
stored_len_sum (b ∷ bs) = stored_len b + stored_len_sum bs

unfoldable pub stored_len_of : Str → ℕ
unfolding stored_len_sum
stored_len_of s = stored_len_sum (as_bytes s)

-- The loop of `truncate_to_stored_budget`, whose result is the text up to `end`.
pub truncate_from : ℕ → Str → ℕ → Str
truncate_from used [] budget = []
truncate_from used (c ∷ s) budget =
    let cost = stored_len_of (c ∷ []) in
    let rest = truncate_from (used + cost) s budget in
    if ltb budget (used + cost) then [] else c ∷ rest

unfoldable pub truncate_to_stored_budget : Str → ℕ → Str
unfolding truncate_from
truncate_to_stored_budget s budget = truncate_from 0 s budget

abbrev pub suffix_of : Str → Str
suffix_of app_ip = codes " - " ++ app_ip

unfoldable pub format_application_name : Str → Str → Str
unfolding truncate_to_stored_budget
format_application_name original_name app_ip =
    let suffix = suffix_of app_ip in
    if leb namedatalen_limit (len suffix)
    then truncate_to_stored_budget suffix namedatalen_limit
    else let truncated = truncate_to_stored_budget original_name (namedatalen_limit - len suffix) in
      truncated ++ suffix

-- `params_section.split_last()`: the section without a last byte that is NUL.
pub strip_nul : Bytes → Bytes
strip_nul [] = []
strip_nul (b ∷ []) = if b == 0 then [] else b ∷ []
strip_nul (b ∷ c ∷ bs) = b ∷ strip_nul (c ∷ bs)

-- The pieces between the NULs of the parameter section.
unfoldable pub parts_of : Bytes → List Bytes
unfolding strip_nul
parts_of payload = split 0 (strip_nul (drop 4 payload))

unfoldable pub is_app_name : Str → Bool
is_app_name key = list_eq key (codes "application_name")

-- The loop of `inject_ip_startup`: the payload so far, and `found_app_name`.
pub copy_params : Str → List Bytes → Bytes → Bool → Bytes × Bool
unfolding is_app_name
copy_params ip [] out found = (out, found)
copy_params ip (key ∷ []) out found = (out, found)
copy_params ip (raw_key ∷ raw_val ∷ parts) out found =
    let key = from_utf8_lossy raw_key in
    let val = from_utf8_lossy raw_val in
    let skip = copy_params ip parts out found in
    let new_val = if is_app_name key then as_bytes (format_application_name val ip) else raw_val in
    let copy =
      copy_params ip parts (out ++ (raw_key ++ (0 ∷ (new_val ++ (0 ∷ [])))))
        (is_app_name key || found) in
    if is_empty key then skip else copy

-- `s.trim_start_matches(" -")`
pub trim_start_matches : Str → Str
trim_start_matches [] = []
trim_start_matches (c ∷ []) = c ∷ []
trim_start_matches (c ∷ d ∷ s) =
    let rest = trim_start_matches s in if c == b' ' && d == b'-' then rest else c ∷ d ∷ s

-- The parameter added where the client sent none.
pub added_param : Str → Bytes
unfolding trim_start_matches
added_param ip =
    codes "application_name"
    ++ (0 ∷ (as_bytes (trim_start_matches (format_application_name [] ip)) ++ (0 ∷ [])))

-- What stands behind the loop.
pub close_params : Str → Bytes × Bool → Bytes
close_params ip (out, true) = out ++ (0 ∷ [])
close_params ip (out, false) = (out ++ added_param ip) ++ (0 ∷ [])

unfoldable pub inject_ip_startup : Bytes → Str → Bytes
unfolding copy_params close_params added_param parts_of
inject_ip_startup payload ip =
    if ltb (length payload) 4
    then payload
    else close_params ip (copy_params ip (parts_of payload) (take 4 payload) false)

-- The loop of `extract_user_db`.
pub find_user_db : List Bytes → Str → Str → Str × Str
find_user_db [] user db = (user, db)
find_user_db (key ∷ []) user db = (user, db)
find_user_db (raw_key ∷ raw_val ∷ parts) user db =
    let key = from_utf8_lossy raw_key in
    let val = from_utf8_lossy raw_val in
    let is_user = list_eq key (codes "user") in
    let is_db = list_eq key (codes "database") in
    find_user_db parts (if is_user then val else user)
      (if is_user then db else if is_db then val else db)

abbrev pub default_db : Str × Str → Str × Str
default_db (user, db) = (user, if is_empty db then user else db)

unfoldable pub extract_user_db : Bytes → Str × Str
unfolding find_user_db parts_of
extract_user_db payload =
    if ltb (length payload) 4 then ([], []) else default_db (find_user_db (parts_of payload) [] [])
