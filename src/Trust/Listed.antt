-- ===== src/Trust/Listed.antt =====
-- `is_trusted` of core/rust/src/trust.rs against the entries of the allowlist.
use mathlib.Core.Path.{subst}
use pg_prism.Prelude.{
  true, ◌||◌, List, none, some, ◌≡◌, ◌↔◌, ◌⊎◌, inl, inr, refl, sym, Bool-cases, ◌∙◌, arith,
  some_inj, Exists, here, there, any-Exists, Exists-any, Exists-map,
}
use pg_prism.Text.{Str}
use pg_prism.Net.{IpAddr, ip_from_str, v4, v6, is_ipv4, to_ipv4_mapped}
use pg_prism.Net.Cidr.{CidrCrate}
use pg_prism.Trust.{TrustResult, ok, entries_of, normalise, TrustedProxies, parse, is_trusted}
use pg_prism.Trust.Forms.{IsForm, normalise-IsForm, IsForm-normalise}
use pg_prism.Trust.Allowlist.{
  Names, block, bare, AllName, nil, cons, ParseOutcome, nothing_listed, read, refused,
  parse-ParseOutcome,
}

module _ (crate : CidrCrate) where
  open crate use {IpCidr, cidr_from_str, new_host, contains}

  -- Some block holds the peer, in one of its forms.
  abbrev pub Holds : IpAddr → IpCidr → Type 0
  Holds peer net = (ip : IpAddr) × IsForm peer ip × (contains net ip ≡ true)

  Holds-or :
      (peer : IpAddr) (net : IpCidr)
      → ((contains net peer || contains net (normalise peer)) ≡ true) ↔ Holds peer net
  Holds-or peer net = (held, tested)
    where
      held : (contains net peer || contains net (normalise peer)) ≡ true → Holds peer net
      held h = elim (Bool-cases (contains net peer)) [
        | inl own ↦ (peer, inl refl, own)
        | inr other ↦ (normalise peer, normalise-IsForm peer, rw other at h)
      ]

      tested : Holds peer net → (contains net peer || contains net (normalise peer)) ≡ true
      tested (ip, form, h) = elim (IsForm-normalise peer ip form) [
        | inl same ↦ rw (subst (λ (a : IpAddr). contains net a ≡ true) same h) refl
        | inr same ↦ rw (subst (λ (a : IpAddr). contains net a ≡ true) same h) (ground arith)
      ]

  is_trusted-Holds :
      (trusted : TrustedProxies crate) (peer : IpAddr)
      → (is_trusted crate trusted peer ≡ true) ↔ Exists (Holds peer) trusted.nets
  unfolding is_trusted
  is_trusted-Holds trusted peer = (
    λ h. Exists-map (λ net. (Holds-or peer net).0) (any-Exists _ trusted.nets h),
    λ e. Exists-any _ (Exists-map (λ net. (Holds-or peer net).1) e),
  )

  -- One of the entries is a block that holds the peer, or the bare address of the peer; in one of
  -- its forms.
  pub data Listed (peer : IpAddr) : Str → Type 0 where
    in_block :
        {entry : Str} (net : IpCidr)
        → cidr_from_str entry ≡ some net
        → Holds peer net
        → Listed peer entry
    is_host :
        {entry : Str} (ip : IpAddr)
        → cidr_from_str entry ≡ none
        → ip_from_str entry ≡ some ip
        → IsForm peer ip
        → Listed peer entry

  host : (ip a : IpAddr) → (contains (new_host ip) a ≡ true) ↔ (ip ≡ a)
  host = crate.contains-new_host

  Listed-of_Holds :
      {peer : IpAddr} {entry : Str} {net : IpCidr}
      → Names crate entry net
      → Holds peer net
      → Listed peer entry
  Listed-of_Holds {net} (block e) h = in_block net e h
  Listed-of_Holds {peer} (bare ip no_block e is) (form, is_form, h) =
      let same : ip ≡ form = (host ip form).0 (rw is at h) in
      is_host ip no_block e (subst (λ (a : IpAddr). IsForm peer a) (sym same) is_form)

  Holds-of_Listed :
      {peer : IpAddr} {entry : Str} {net : IpCidr}
      → Names crate entry net
      → Listed peer entry
      → Holds peer net
  Holds-of_Listed {peer} (block e) (in_block net e' h) =
      let same = some_inj (sym e' ∙ e) in subst (Holds peer) same h
  Holds-of_Listed (block e) (is_host ip no_block e' h) = absurd (cc)
  Holds-of_Listed (bare ip no_block e is) (in_block net e' h) = absurd (cc)
  Holds-of_Listed {peer} (bare ip no_block e is) (is_host ip' no_block' e' is_form) =
      let same : ip ≡ ip' = some_inj (sym e ∙ e') in (ip', is_form, rw is ((host ip ip').1 same))

  Exists-Listed :
      {peer : IpAddr} {entries : List Str} {nets : List IpCidr}
      → AllName crate entries nets
      → Exists (Holds peer) nets
      → Exists (Listed peer) entries
  Exists-Listed nil e = elim e [ ]
  Exists-Listed (cons n all) (here h) = here (Listed-of_Holds n h)
  Exists-Listed (cons n all) (there e) = there (Exists-Listed all e)

  Exists-Holds :
      {peer : IpAddr} {entries : List Str} {nets : List IpCidr}
      → AllName crate entries nets
      → Exists (Listed peer) entries
      → Exists (Holds peer) nets
  Exists-Holds nil e = elim e [ ]
  Exists-Holds (cons n all) (here h) = here (Holds-of_Listed n h)
  Exists-Holds (cons n all) (there e) = there (Exists-Holds all e)

  ParseOutcome-AllName :
      {spec : Str} {trusted : TrustedProxies crate} {r : TrustResult (TrustedProxies crate)}
      → ParseOutcome crate spec r
      → r ≡ ok trusted
      → AllName crate (entries_of spec) trusted.nets
  ParseOutcome-AllName (nothing_listed e) h = absurd (cc h)
  ParseOutcome-AllName {trusted} (read {nets} first more e all) h =
      let same : nets ≡ trusted.nets = ground arith in rw (e, ← same) all
  ParseOutcome-AllName (refused earlier nets bad later e all nothing) h = absurd (cc h)

  -- Under an allowlist that was read, a peer is trusted exactly if one of the list's entries is a
  -- block that holds it or its bare address, where a peer `::ffff:a.b.c.d` may be listed in that form
  -- or as `a.b.c.d`.
  pub is_trusted-Listed :
      (spec : Str) (trusted : TrustedProxies crate) (peer : IpAddr)
      → parse crate spec ≡ ok trusted
      → (is_trusted crate trusted peer ≡ true) ↔ Exists (Listed peer) (entries_of spec)
  is_trusted-Listed spec trusted peer h =
      let all = ParseOutcome-AllName (parse-ParseOutcome crate spec) h in
      (
        λ t. Exists-Listed all ((is_trusted-Holds trusted peer).0 t),
        λ e. (is_trusted-Holds trusted peer).1 (Exists-Holds all e),
      )

to_ipv4_mapped-is_ipv4 : (a f : IpAddr) → to_ipv4_mapped a ≡ some f → is_ipv4 f ≡ true
unfolding to_ipv4_mapped
to_ipv4_mapped-is_ipv4 (v4 a b c d) f h = absurd (cc h)
to_ipv4_mapped-is_ipv4 (v6 a b c d e f g h) (v4 p q r s) m = refl
to_ipv4_mapped-is_ipv4 (v6 a b c d e f g h) (v6 p q r s t u v w) m = absurd (ground arith)

normalise-is_ipv4 : (a : IpAddr) → is_ipv4 a ≡ true → normalise a ≡ a
unfolding normalise
normalise-is_ipv4 (v4 a b c d) h = refl
normalise-is_ipv4 (v6 a b c d e f g h) i = absurd (cc i)

-- A peer that a listener on `::` sees in IPv4-mapped form is trusted if its IPv4 form is.
pub is_trusted-mapped :
    (crate : CidrCrate) (trusted : TrustedProxies crate) (peer v4_form : IpAddr)
    → to_ipv4_mapped peer ≡ some v4_form
    → is_trusted crate trusted v4_form ≡ true
    → is_trusted crate trusted peer ≡ true
is_trusted-mapped crate trusted peer v4_form mapped h =
    (is_trusted-Holds crate trusted peer).1
      (Exists-map (λ net. through net) ((is_trusted-Holds crate trusted v4_form).0 h))
  where
    is_form : normalise peer ≡ v4_form
    is_form = unfold normalise in rw mapped refl

    twice : normalise v4_form ≡ v4_form
    twice = normalise-is_ipv4 v4_form (to_ipv4_mapped-is_ipv4 peer v4_form mapped)

    same : (ip : IpAddr) → (ip ≡ v4_form) ⊎ (ip ≡ normalise v4_form) → ip ≡ normalise peer
    same ip (inl e) = e ∙ sym is_form
    same ip (inr e) = e ∙ twice ∙ sym is_form

    form_of : (ip : IpAddr) → (ip ≡ v4_form) ⊎ (ip ≡ normalise v4_form) → IsForm peer ip
    form_of ip e = subst (λ (a : IpAddr). IsForm peer a) (sym (same ip e)) (normalise-IsForm peer)

    through : (net : crate.IpCidr) → Holds crate v4_form net → Holds crate peer net
    through net (ip, form, h) = (ip, form_of ip (IsForm-normalise v4_form ip form), h)
