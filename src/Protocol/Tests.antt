-- ===== src/Protocol/Tests.antt =====
-- Runs of the injection and of the frames.
use pg_prism.Prelude.{◌+◌, ◌≤◌, ◌<◌, [], ◌∷◌, ◌++◌, some, ◌≡◌, arith, length}
use pg_prism.Text.{Str, Bytes, codes, as_bytes, encode_char}
use pg_prism.Net.{IsAddressText}
use pg_prism.Wire.{u32_size}
use pg_prism.Protocol.{
  stored_len_of, format_application_name, inject_ip_startup, extract_user_db, error_body,
  make_error_response,
}
use pg_prism.Protocol.AppName.{
  IsAddressed, format_application_name-IsAddressed, format_application_name-le,
}
use pg_prism.Protocol.Startup.Identity.{extract_user_db-inject_ip_startup}
use pg_prism.Protocol.Startup.Shown.{ServerShows, inject_ip_startup-ServerShows}
use pg_prism.Protocol.Startup.Named.{IsAddressText-IsPrintable, IsAddressText-IsNulFree}
use pg_prism.Protocol.Frames.{read_message, read_fields, fields_of, make_error_response-read}

-- Version 3.0, a user, and an application name.
abbrev startup : Bytes
startup =
    0
    ∷ 3
    ∷ 0
    ∷ 0
    ∷ (codes "user"
        ++ 0 ∷ codes "bob"
        ++ 0 ∷ codes "application_name"
        ++ 0 ∷ codes "psql"
        ++ 0 ∷ 0 ∷ [])

abbrev address : Str
address = codes "9.8.7.6"

is_address : IsAddressText address
is_address = (
  omega arith,
  (omega arith, (omega arith, (omega arith, (omega arith, (omega arith, (omega arith, tt)))))),
)

inject_ip_startup-ServerShows_example : ServerShows address (inject_ip_startup startup address)
inject_ip_startup-ServerShows_example =
    inject_ip_startup-ServerShows startup address (omega arith) (λ e. absurd (cc e)) is_address
      (omega arith)

extract_user_db-inject_ip_startup_example :
    extract_user_db (inject_ip_startup startup address) ≡ extract_user_db startup
extract_user_db-inject_ip_startup_example =
    extract_user_db-inject_ip_startup startup address (omega arith)
      (IsAddressText-IsNulFree address is_address)

format_application_name-IsAddressed_example :
    IsAddressed (codes "psql") address (format_application_name (codes "psql") address)
format_application_name-IsAddressed_example =
    format_application_name-IsAddressed (codes "psql") address
      (IsAddressText-IsPrintable address is_address) (omega arith)

psql_fits : stored_len_of (format_application_name (codes "psql") address) ≤ 63
psql_fits =
    format_application_name-le (codes "psql") address (IsAddressText-IsPrintable address is_address)

make_error_response-read_example :
    (body : Bytes) × (read_message (make_error_response (codes "no") (codes "28000") ++ codes "Z")
      ≡ some (b'E', body, codes "Z"))
    × (read_fields 5 body ≡ some (fields_of (codes "no") (codes "28000")))
unfolding error_body as_bytes encode_char
make_error_response-read_example =
    make_error_response-read (codes "no") (codes "28000") (codes "Z")
      (omega arith, (omega arith, tt))
      (omega arith, (omega arith, (omega arith, (omega arith, (omega arith, tt))))) short
  where
    short : length (error_body (codes "no") (codes "28000")) + 4 < u32_size
    short = omega arith
