-- ===== src/Protocol/Startup/Size.antt =====
-- How long the payload is that `inject_ip_startup` of core/rust/src/protocol.rs writes.
use pg_prism.Prelude.{
  ℕ, ◌+◌, ◌-◌, ◌*◌, ◌≤◌, Bool, true, false, ◌||◌, ◌&&◌, List, [], ◌∷◌, ◌++◌, ◌≡◌, ◌≢◌, refl, ap,
  arith, ltb, ◌==◌, if◌then◌else◌, Bool-cases, inl, inr, length, length-append, length-take,
  length-drop, take, drop, is_empty,
}
use pg_prism.Text.{Str, Bytes, codes, as_bytes, len}
use pg_prism.Text.Split.{split, in_front, split-ne-nil}
use pg_prism.Text.Utf8.{from_utf8_lossy}
use pg_prism.Protocol.{
  format_application_name, strip_nul, parts_of, is_app_name, copy_params, trim_start_matches,
  added_param, close_params, inject_ip_startup,
}
use pg_prism.Protocol.AppName.{IsPrintable, as_bytes-append, len-format_application_name}

-- The length of the pieces with one separator behind each.
abbrev pieces_size : List Bytes → ℕ
pieces_size [] = 0
pieces_size (p ∷ ps) = length p + 1 + pieces_size ps

pieces_size-in_front :
    (c : ℕ) (ps : List Bytes) → ps ≢ [] → pieces_size (in_front c ps) ≡ pieces_size ps + 1
pieces_size-in_front c [] some_left = absurd (some_left refl)
pieces_size-in_front c (p ∷ ps) some_left = omega arith

pieces_size-split : (sep : ℕ) (s : Bytes) → pieces_size (split sep s) ≡ length s + 1
unfolding split
pieces_size-split sep [] = omega arith
pieces_size-split sep (c ∷ s) = elim (Bool-cases (c == sep)) [
  | inl e ↦ rw e (omega (arith, pieces_size-split sep s))
  | inr e ↦ rw e (
      omega
        (arith, pieces_size-split sep s, pieces_size-in_front c (split sep s) (split-ne-nil sep s)))
]

length-strip_nul : (s : Bytes) → length (strip_nul s) ≤ length s
unfolding strip_nul
length-strip_nul [] = omega arith
length-strip_nul (b ∷ []) = ground arith
length-strip_nul (b ∷ c ∷ s) = omega (arith, length-strip_nul (c ∷ s))

len-trim_start_matches : (s : Str) → len (trim_start_matches s) ≤ len s
unfolding trim_start_matches
len-trim_start_matches [] = omega arith
len-trim_start_matches (c ∷ []) = omega arith
len-trim_start_matches (c ∷ d ∷ s) = elim (Bool-cases (c == b' ' && d == b'-')) [
  | inl e ↦ rw e (
      omega (
        arith,
        len-trim_start_matches s,
        ap length (as_bytes-append (c ∷ d ∷ []) s),
        length-append (as_bytes (c ∷ d ∷ [])) (as_bytes s),
      ))
  | inr e ↦ rw e (omega arith)
]

length-record :
    (out k w : Bytes)
    → length (out ++ (k ++ (0 ∷ (w ++ (0 ∷ []))))) ≡ length out + (length k + length w + 2)
length-record out k w = omega (
  arith,
  length-append out (k ++ (0 ∷ (w ++ (0 ∷ [])))),
  length-append k (0 ∷ (w ++ (0 ∷ []))),
  length-append w (0 ∷ []),
)

module _ (ip : Str) (printable : IsPrintable ip) where
  length-new_val :
      (key : Bool) (val : Str) (raw : Bytes)
      → length (if key then as_bytes (format_application_name val ip) else raw) ≤ length raw + 63
  length-new_val true val raw = omega (arith, len-format_application_name val ip printable)
  length-new_val false val raw = omega arith

  copy_params-size :
      (parts : List Bytes) (out : Bytes) (found : Bool)
      → length (copy_params ip parts out found).0 ≤ length out + 33 * pieces_size parts
  unfolding copy_params
  copy_params-size [] out found = omega arith
  copy_params-size (k ∷ []) out found = omega arith
  copy_params-size (k ∷ v ∷ parts) out found =
      let key = from_utf8_lossy k in
      let val = from_utf8_lossy v in
      let new_val = if is_app_name key then as_bytes (format_application_name val ip) else v in
      elim (Bool-cases (is_empty key)) [
        | inl e ↦ rw e (omega (arith, copy_params-size parts out found))
        | inr e ↦ rw e (
            omega (
              arith,
              copy_params-size parts (out ++ (k ++ (0 ∷ (new_val ++ (0 ∷ [])))))
                  (is_app_name key || found),
              length-record out k new_val,
              length-new_val (is_app_name key) val v,
            ))
      ]

  length-added_param : length (added_param ip) ≤ 81
  unfolding added_param
  length-added_param =
      let value = as_bytes (trim_start_matches (format_application_name [] ip)) in
      omega (
        arith,
        length-record [] (codes "application_name") value,
        len-trim_start_matches (format_application_name [] ip),
        len-format_application_name [] ip printable,
      )

  length-close_params :
      (copied : Bytes × Bool) → length (close_params ip copied) ≤ length copied.0 + 82
  unfolding close_params
  length-close_params (out, true) = omega (arith, length-append out (0 ∷ []))
  length-close_params (out, false) = omega (
    arith,
    length-append (out ++ added_param ip) (0 ∷ []),
    length-append out (added_param ip),
    length-added_param,
  )

  length-parts_of : (payload : Bytes) → pieces_size (parts_of payload) ≤ length payload - 4 + 1
  unfolding parts_of
  length-parts_of payload = omega (
    arith,
    pieces_size-split 0 (strip_nul (drop 4 payload)),
    length-strip_nul (drop 4 payload),
    length-drop 4 payload,
  )

  -- The injection makes a payload at most thirty-three times as long.
  pub length-inject_ip_startup_le :
      (payload : Bytes)
      → 4 ≤ length payload
      → length (inject_ip_startup payload ip) ≤ 33 * length payload
  unfolding inject_ip_startup
  length-inject_ip_startup_le payload long =
      let short : ltb (length payload) 4 ≡ false = ground arith in
      rw short (
        omega (
          arith,
          length-close_params (copy_params ip (parts_of payload) (take 4 payload) false),
          copy_params-size (parts_of payload) (take 4 payload) false,
          length-parts_of payload,
          length-take 4 payload,
        ))
