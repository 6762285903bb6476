-- ===== src/Protocol/Startup/ServerReads.antt =====
-- A startup message as PostgreSQL's documentation of the message formats has the server read it, apart
-- from how core/rust/src/protocol.rs takes one to pieces.
use pg_prism.Prelude.{
  ℕ, zero, suc, ◌<◌, Bool, false, ◌||◌, List, [], ◌∷◌, ◌++◌, Option, none, some, ◌≡◌, refl, arith,
  ◌==◌, if◌then◌else◌, length, length-append, All, append_assoc, drop, is_empty, list_eq,
}
use pg_prism.Text.{Bytes}
use pg_prism.Text.Split.{split_once, split_once-append}
use pg_prism.Protocol.Startup.{Param, app_name, bytes_of, serialise}
use pg_prism.Protocol.Startup.Refines.{IsNulFree, AreNulFree}

abbrev one_more : Bytes → Bytes → Option (List Param) → Option (List Param)
one_more key value none = none
one_more key value (some ps) = some (record { key = key; value = value } ∷ ps)

abbrev after_value :
    (Bytes → Option (List Param)) → Bytes → Option (Bytes × Bytes) → Option (List Param)
after_value read key none = none
after_value read key (some (value, rest)) = one_more key value (read rest)

abbrev after_key : (Bytes → Option (List Param)) → Option (Bytes × Bytes) → Option (List Param)
after_key read none = none
after_key read (some (key, rest)) = after_value read key (split_once 0 rest)

-- Names and values in turn, each ended by a NUL, up to an empty name, which must be the last byte. The
-- fuel is one more than the number of parameters.
pub read_params : ℕ → Bytes → Option (List Param)
read_params zero bytes = none
read_params (suc fuel) [] = none
read_params (suc fuel) (b ∷ bytes) =
    if b == 0
    then (if is_empty bytes then some [] else none)
    else after_key (read_params fuel) (split_once 0 (b ∷ bytes))

-- The parameters behind the version; there are fewer than bytes.
abbrev pub server_params : Bytes → Option (List Param)
server_params payload = read_params (length payload) (drop 4 payload)

-- A parameter of exactly this name.
abbrev pub sets_app_name : Param → Bool
sets_app_name p = list_eq p.key app_name

unfoldable pub one_sets_app_name : List Param → Bool
one_sets_app_name [] = false
one_sets_app_name (p ∷ ps) = sets_app_name p || one_sets_app_name ps

abbrev pub AreNamed : List Param → Type 0
AreNamed = All (λ p. is_empty p.key ≡ false)

read_params-cons :
    (fuel : ℕ) (key value rest : Bytes) (ps : List Param)
    → is_empty key ≡ false
    → IsNulFree key
    → IsNulFree value
    → read_params fuel rest ≡ some ps
    → read_params (suc fuel) ((key ++ (0 ∷ (value ++ (0 ∷ [])))) ++ rest)
      ≡ some (record { key = key; value = value } ∷ ps)
unfolding read_params
read_params-cons fuel [] value rest ps named k v e = absurd (cc named)
read_params-cons fuel (b ∷ key) value rest ps named k v e =
    let other : (b == 0) ≡ false = ground (arith, k.0) in
    rw
      (
        other,
        append_assoc key,
        split_once-append 0 (b ∷ key) ((value ++ (0 ∷ [])) ++ rest) k,
        append_assoc value,
        split_once-append 0 value rest v,
        e,
      )
      refl

pub read_params-serialise :
    (fuel : ℕ) (ps : List Param)
    → length ps < fuel
    → AreNulFree ps
    → AreNamed ps
    → read_params fuel (serialise ps) ≡ some ps
unfolding read_params serialise
read_params-serialise zero ps enough free named = absurd (omega (arith, enough))
read_params-serialise (suc fuel) [] enough free named = refl
read_params-serialise (suc fuel) (p ∷ ps) enough ((k, v), free) (named, nameds) =
    read_params-cons fuel p.key p.value (serialise ps) ps named k v
      (read_params-serialise fuel ps (omega (arith, enough)) free nameds)

pub length-serialise_lt : (ps : List Param) → length ps < length (serialise ps)
unfolding serialise
length-serialise_lt [] = omega arith
length-serialise_lt (p ∷ ps) = omega (
  arith,
  length-serialise_lt ps,
  length-append (bytes_of p) (serialise ps),
  length-append p.key (0 ∷ (p.value ++ (0 ∷ []))),
)
