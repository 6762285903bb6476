-- ===== src/Protocol/Startup/Named.antt =====
-- The address in the application names that `inject_ip_startup` of core/rust/src/protocol.rs writes.
use pg_prism.Prelude.{
  sym, ℕ, ◌<◌, Bool, true, false, List, [], ◌∷◌, ◌++◌, ◌≡◌, ◌≢◌, ◌⊎◌, refl, arith, if◌then◌else◌,
  Bool-cases, inl, inr, length, All, is_empty, list_eq,
}
use pg_prism.Net.{IsAddressText}
use pg_prism.Text.{Str, Bytes, as_bytes}
use pg_prism.Text.Utf8.{from_utf8_lossy}
use pg_prism.Protocol.Server.{server_stores, pg_clean_ascii, pg_clean_ascii_printable}
use pg_prism.Protocol.Startup.ServerReads.{sets_app_name}
use pg_prism.Protocol.{suffix_of, is_app_name, trim_start_matches}
use pg_prism.Protocol.AppName.{
  as_bytes-IsPrintable, IsPrintable, take_all, format_application_name-IsAddressed,
}
use pg_prism.Protocol.Startup.{Param, app_name, with_address, addressed, new_app_name}
use pg_prism.Protocol.Startup.Asked.{list_eq-lossy}
use pg_prism.Protocol.Startup.Refines.{IsNulFree, key-with_address}

-- What the server stores of the value ends with " - " and the address, or is a blank and the address.
abbrev pub ShowsAddress : Str → Bytes → Type 0
ShowsAddress ip value =
    ((front : Bytes) × (server_stores value ≡ front ++ suffix_of ip))
    ⊎ (server_stores value ≡ b' ' ∷ ip)

abbrev pub Shows : Bool → Str → Bytes → Type 0
Shows true ip value = ShowsAddress ip value
Shows false ip value = Unit

-- If the parameter is an application name, then what the server stores of it shows the address.
abbrev pub ShownIn : Str → Param → Type 0
ShownIn ip p = Shows (sets_app_name p) ip p.value

-- The program takes a key for `application_name` exactly if it is that, byte for byte.
app_name_ascii : All (λ c. c < 0x80) app_name
app_name_ascii = ground arith

pub is_app_name-lossy : (key : Bytes) → is_app_name (from_utf8_lossy key) ≡ list_eq key app_name
unfolding is_app_name
is_app_name-lossy key = list_eq-lossy app_name key app_name_ascii

pub IsAddressText-IsPrintable : (ip : Str) → IsAddressText ip → IsPrintable ip
IsAddressText-IsPrintable [] h = tt
IsAddressText-IsPrintable (c ∷ ip) h =
    ((omega arith, omega arith), IsAddressText-IsPrintable ip h.1)

pub IsAddressText-IsNulFree : (ip : Str) → IsAddressText ip → IsNulFree ip
IsAddressText-IsNulFree [] h = tt
IsAddressText-IsNulFree (c ∷ ip) h = (omega arith, IsAddressText-IsNulFree ip h.1)

with_address-ShownIn :
    (ip : Str) (p : Param) → IsPrintable ip → length ip < 60 → ShownIn ip (with_address ip p)
with_address-ShownIn ip p h short =
    rw (key-with_address ip p, sym (is_app_name-lossy p.key))
      (elim (Bool-cases (is_app_name (from_utf8_lossy p.key))) [
        | inl e ↦
            let out = format_application_name-IsAddressed (from_utf8_lossy p.value) ip h short in
            rw e (inl (pg_clean_ascii (as_bytes out.kept), out.stored))
        | inr e ↦ rw e tt
      ])

pub addressed-ShownIn :
    (ip : Str) (ps : List Param)
    → IsPrintable ip
    → length ip < 60
    → All (ShownIn ip) (addressed ip ps)
unfolding addressed
addressed-ShownIn ip [] h short = tt
addressed-ShownIn ip (p ∷ ps) h short = elim (Bool-cases (is_empty p.key)) [
  | inl e ↦ rw e (addressed-ShownIn ip ps h short)
  | inr e ↦ rw e (with_address-ShownIn ip p h short, addressed-ShownIn ip ps h short)
]

-- A blank is left in front of the address where the client sent no application name.
blank_left :
    (c : ℕ) (ip : Str)
    → IsAddressText (c ∷ ip)
    → trim_start_matches (suffix_of (c ∷ ip)) ≡ b' ' ∷ c ∷ ip
unfolding trim_start_matches
blank_left c ip h = ground arith

nothing_kept : (kept dropped : Str) → [] ≡ kept ++ dropped → kept ≡ []
nothing_kept [] dropped e = refl
nothing_kept (c ∷ kept) dropped e = cc

value-new_app_name :
    (ip : Str) → ip ≢ [] → IsAddressText ip → length ip < 60 → (new_app_name ip).value ≡ b' ' ∷ ip
value-new_app_name [] ne h short = absurd (ne refl)
value-new_app_name (c ∷ ip) ne h short =
    let printable = IsAddressText-IsPrintable (c ∷ ip) h in
    let out = format_application_name-IsAddressed [] (c ∷ ip) printable short in
    rw (out.shape, nothing_kept out.kept out.dropped out.splits, blank_left c ip h)
      (as_bytes-IsPrintable (b' ' ∷ c ∷ ip) ((omega arith, omega arith), printable))

stores_blank :
    (ip : Str)
    → ip ≢ []
    → IsAddressText ip
    → length ip < 60
    → server_stores (new_app_name ip).value ≡ b' ' ∷ ip
stores_blank ip ne h short =
    let printed : IsPrintable (b' ' ∷ ip) =
      ((omega arith, omega arith), IsAddressText-IsPrintable ip h) in
    let e = value-new_app_name ip ne h short in
    let clean = pg_clean_ascii_printable (b' ' ∷ ip) printed in
    rw (e, clean) (take_all 63 (b' ' ∷ ip) (omega (arith, short)))

pub added-ShownIn :
    (ip : Str) (found : Bool)
    → ip ≢ []
    → IsAddressText ip
    → length ip < 60
    → All (ShownIn ip) (if found then [] else new_app_name ip ∷ [])
unfolding list_eq
added-ShownIn ip true ne h short = tt
added-ShownIn ip false ne h short = (inr (stores_blank ip ne h short), tt)
