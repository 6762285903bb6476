-- ===== src/Protocol/Startup/Refines.antt =====
-- `inject_ip_startup` of core/rust/src/protocol.rs against the list of parameters.
use pg_prism.Prelude.{
  ℕ, ◌+◌, ◌-◌, ◌≤◌, Bool, true, false, ◌||◌, List, [], ◌∷◌, ◌++◌, ◌≡◌, ◌≢◌, refl, sym, ap, ◌∙◌,
  arith, ltb, leb, if◌then◌else◌, or-true, or-false, Bool-cases, inl, inr, length, All, All-append,
  append_assoc, append-nil, take, drop, is_empty, list_eq, drop-length_append, length-take,
}
use pg_prism.Text.{Str, Bytes, as_bytes, encode_char, len}
use pg_prism.Text.Split.{split, split-append, split-All}
use pg_prism.Text.Utf8.{from_utf8_lossy, from_utf8_lossy-ne-nil, from_utf8_lossy-nonzero}
use pg_prism.Protocol.Startup.{
  Param, pairs, params_of, bytes_of, serialise, with_address, addressed, names_app, new_app_name,
  rewritten, concat,
}
use pg_prism.Protocol.{
  format_application_name, stored_len_of, truncate_from, truncate_to_stored_budget, suffix_of,
  strip_nul, parts_of, is_app_name, copy_params, trim_start_matches, added_param, close_params,
  inject_ip_startup,
}

serialise-append : (ps qs : List Param) → serialise (ps ++ qs) ≡ concat ps ++ serialise qs
unfolding serialise concat
serialise-append [] qs = refl
serialise-append (p ∷ ps) qs = rw (serialise-append ps qs) (sym (append_assoc (bytes_of p) _ _))

-- A key is empty exactly if its text is.
pub is_empty-lossy : (k : Bytes) → is_empty (from_utf8_lossy k) ≡ is_empty k
is_empty-lossy [] = unfold from_utf8_lossy in refl
is_empty-lossy (b ∷ k) = not_empty (from_utf8_lossy (b ∷ k)) (from_utf8_lossy-ne-nil b k)
  where
    not_empty : (s : Str) → s ≢ [] → is_empty s ≡ false
    not_empty [] h = absurd (h refl)
    not_empty (c ∷ s) h = refl

pub lossy-nil : from_utf8_lossy [] ≡ []
unfolding from_utf8_lossy
lossy-nil = refl

pub is_app_name-nil : is_app_name [] ≡ false
unfolding is_app_name list_eq
is_app_name-nil = refl

-- The loop from any state.
copy_params_lem :
    (ip : Str) (parts : List Bytes) (out : Bytes) (found : Bool)
    → copy_params ip parts out found
      ≡ (out ++ concat (addressed ip (pairs parts)), names_app (pairs parts) || found)
unfolding copy_params concat addressed names_app pairs
copy_params_lem ip [] out found = rw append-nil
copy_params_lem ip (k ∷ []) out found = rw append-nil
copy_params_lem ip ([] ∷ v ∷ parts) out found =
    rw (lossy-nil, is_app_name-nil) (copy_params_lem ip parts out found)
copy_params_lem ip ((b ∷ k) ∷ v ∷ parts) out found =
    rw (is_empty-lossy (b ∷ k)) (elim (Bool-cases (is_app_name (from_utf8_lossy (b ∷ k)))) [
      | inl e ↦ rw (e, copy_params_lem ip parts, append_assoc out, or-true)
      | inr e ↦ rw (e, copy_params_lem ip parts, append_assoc out)
    ])

-- What stands behind the loop, at either answer to `found_app_name`.
close_params_lem :
    (ip : Str) (version : Bytes) (ps : List Param) (found : Bool)
    → close_params ip (version ++ concat ps, found)
      ≡ version ++ serialise (ps ++ (if found then [] else new_app_name ip ∷ []))
unfolding close_params added_param serialise
close_params_lem ip version ps true =
    append_assoc version (concat ps) (0 ∷ []) ∙ ap (◌++◌ version) (sym (serialise-append ps []))
close_params_lem ip version ps false =
    rw (append_assoc version (concat ps), append_assoc version)
      (ap (◌++◌ version)
        (rw (append_assoc (concat ps)) (sym (serialise-append ps (new_app_name ip ∷ [])))))

-- A payload with a version in it becomes that version and the rewritten parameters.
pub inject_ip_startup_lem :
    (payload : Bytes) (ip : Str)
    → 4 ≤ length payload
    → inject_ip_startup payload ip ≡ take 4 payload ++ serialise (rewritten ip (params_of payload))
unfolding inject_ip_startup params_of rewritten
inject_ip_startup_lem payload ip long =
    let short : ltb (length payload) 4 ≡ false = ground arith in
    rw (short, copy_params_lem ip (parts_of payload), or-false)
      (close_params_lem ip (take 4 payload) (addressed ip (pairs (parts_of payload)))
        (names_app (pairs (parts_of payload))))

abbrev pub IsNulFree : Bytes → Type 0
IsNulFree = All (λ b. b ≢ 0)

-- No NUL in any key or value.
abbrev pub AreNulFree : List Param → Type 0
AreNulFree = All (λ p. IsNulFree p.key × IsNulFree p.value)

strip_nul-concat : (bs : Bytes) → strip_nul (bs ++ 0 ∷ []) ≡ bs
unfolding strip_nul
strip_nul-concat [] = refl
strip_nul-concat (b ∷ []) = refl
strip_nul-concat (b ∷ c ∷ bs) = ap (◌∷◌ b) (strip_nul-concat (c ∷ bs))

serialise-concat : (ps : List Param) → serialise ps ≡ concat ps ++ 0 ∷ []
unfolding serialise concat
serialise-concat [] = refl
serialise-concat (p ∷ ps) = rw (serialise-concat ps) (sym (append_assoc (bytes_of p) _ _))

pairs-concat : (ps : List Param) → AreNulFree ps → pairs (split 0 (concat ps)) ≡ ps
unfolding concat pairs
pairs-concat [] h = unfold split in refl
pairs-concat (p ∷ ps) h = rw (append_assoc p.key) (
    rw (split-append 0 p.key _ h.0.0) (
      rw (append_assoc p.value)
        (rw (split-append 0 p.value (concat ps) h.0.1) (ap (◌∷◌ p) (pairs-concat ps h.1)))))

-- Parameters without NULs read back from their bytes, behind any version.
pub params_of-serialise :
    (version : Bytes) (ps : List Param)
    → length version ≡ 4
    → AreNulFree ps
    → params_of (version ++ serialise ps) ≡ ps
unfolding params_of parts_of
params_of-serialise version ps four h = rw (← four) (
    rw (drop-length_append version (serialise ps), serialise-concat ps, strip_nul-concat)
      (pairs-concat ps h))

pairs-AreNulFree : (parts : List Bytes) → All IsNulFree parts → AreNulFree (pairs parts)
unfolding pairs
pairs-AreNulFree [] h = tt
pairs-AreNulFree (k ∷ []) h = tt
pairs-AreNulFree (k ∷ v ∷ parts) h = ((h.0, h.1.0), pairs-AreNulFree parts h.1.1)

pub params_of-AreNulFree : (payload : Bytes) → AreNulFree (params_of payload)
unfolding params_of parts_of
params_of-AreNulFree payload = pairs-AreNulFree _ (split-All 0 (strip_nul (drop 4 payload)))

encode_char-IsNulFree : (c : ℕ) → c ≢ 0 → IsNulFree (encode_char c)
unfolding encode_char
encode_char-IsNulFree c h = ground arith

as_bytes-IsNulFree : (s : Str) → IsNulFree s → IsNulFree (as_bytes s)
unfolding as_bytes
as_bytes-IsNulFree [] h = tt
as_bytes-IsNulFree (c ∷ s) h =
    All-append _ (encode_char c) _ (encode_char-IsNulFree c h.0) (as_bytes-IsNulFree s h.1)

truncate_from-IsNulFree :
    (used : ℕ) (s : Str) (budget : ℕ) → IsNulFree s → IsNulFree (truncate_from used s budget)
unfolding truncate_from
truncate_from-IsNulFree used [] budget h = tt
truncate_from-IsNulFree used (c ∷ s) budget h =
    elim (Bool-cases (ltb budget (used + stored_len_of (c ∷ [])))) [
      | inl e ↦ rw e tt
      | inr e ↦ rw e (h.0, truncate_from-IsNulFree (used + stored_len_of (c ∷ [])) s budget h.1)
    ]

format_application_name-IsNulFree :
    (name ip : Str) → IsNulFree name → IsNulFree ip → IsNulFree (format_application_name name ip)
unfolding format_application_name truncate_to_stored_budget
format_application_name-IsNulFree name ip hn hi =
    let suffix : IsNulFree (suffix_of ip) = ground arith in
    elim (Bool-cases (leb 63 (len (suffix_of ip)))) [
      | inl e ↦ rw e (truncate_from-IsNulFree 0 (suffix_of ip) 63 suffix)
      | inr e ↦ rw e (
          All-append _ (truncate_from 0 name (63 - len (suffix_of ip))) (suffix_of ip)
            (truncate_from-IsNulFree 0 name (63 - len (suffix_of ip)) hn) suffix)
    ]

trim_start_matches-IsNulFree : (s : Str) → IsNulFree s → IsNulFree (trim_start_matches s)
unfolding trim_start_matches
trim_start_matches-IsNulFree [] h = tt
trim_start_matches-IsNulFree (c ∷ []) h = h
trim_start_matches-IsNulFree (c ∷ d ∷ s) h = ground (arith, trim_start_matches-IsNulFree s h.1.1)

with_address-IsNulFree :
    (ip : Str) (p : Param) → IsNulFree ip → IsNulFree p.value → IsNulFree (with_address ip p).value
with_address-IsNulFree ip p hi hv = elim (Bool-cases (is_app_name (from_utf8_lossy p.key))) [
  | inl e ↦ rw e (
      as_bytes-IsNulFree _ (
        format_application_name-IsNulFree (from_utf8_lossy p.value) ip
          (from_utf8_lossy-nonzero p.value hv) hi))
  | inr e ↦ rw e hv
]

pub key-with_address : (ip : Str) (p : Param) → (with_address ip p).key ≡ p.key
key-with_address ip p = elim (Bool-cases (is_app_name (from_utf8_lossy p.key))) [
  | inl e ↦ rw e refl
  | inr e ↦ rw e refl
]

addressed-AreNulFree :
    (ip : Str) (ps : List Param) → IsNulFree ip → AreNulFree ps → AreNulFree (addressed ip ps)
unfolding addressed
addressed-AreNulFree ip [] hi h = tt
addressed-AreNulFree ip (p ∷ ps) hi h = elim (Bool-cases (is_empty p.key)) [
  | inl e ↦ rw e (addressed-AreNulFree ip ps hi h.1)
  | inr e ↦ rw e (
    (rw (key-with_address ip p) h.0.0, with_address-IsNulFree ip p hi h.0.1),
    addressed-AreNulFree ip ps hi h.1,
  )
]

pub rewritten-AreNulFree :
    (ip : Str) (ps : List Param) → IsNulFree ip → AreNulFree ps → AreNulFree (rewritten ip ps)
unfolding rewritten
rewritten-AreNulFree ip ps hi h =
    All-append _ (addressed ip ps) _ (addressed-AreNulFree ip ps hi h) (tail (names_app ps))
  where
    tail : (b : Bool) → AreNulFree (if b then [] else new_app_name ip ∷ [])
    tail true = tt
    tail false = (
      (
        (ground arith),
        as_bytes-IsNulFree _ (
            trim_start_matches-IsNulFree (format_application_name [] ip)
              (format_application_name-IsNulFree [] ip tt hi)),
      ),
      tt,
    )

pub params_of-inject_ip_startup :
    (payload : Bytes) (ip : Str)
    → 4 ≤ length payload
    → IsNulFree ip
    → params_of (inject_ip_startup payload ip) ≡ rewritten ip (params_of payload)
params_of-inject_ip_startup payload ip long hi = rw (inject_ip_startup_lem payload ip long) (
    params_of-serialise (take 4 payload) (rewritten ip (params_of payload))
      (omega (arith, length-take 4 payload))
      (rewritten-AreNulFree ip (params_of payload) hi (params_of-AreNulFree payload)))
