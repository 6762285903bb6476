-- ===== src/Trust/Allowlist.antt =====
-- `TrustedProxies::parse` of core/rust/src/trust.rs: what it accepts, and what it refuses.
use pg_prism.Prelude.{
  List, [], ◌∷◌, ◌++◌, none, some, ◌≡◌, inl, inr, refl, ap, ◌∙◌, if◌then◌else◌, is_empty,
  Option-cases,
}
use pg_prism.Text.{Str, trim}
use pg_prism.Net.{IpAddr, ip_from_str}
use pg_prism.Net.Cidr.{CidrCrate}
use pg_prism.Trust.{
  empty, bad_entry, TrustResult, ok, err, ◌>>=◌, entries_of, TrustedProxies, parse_entry,
  parse_entries, parse,
}

module _ (crate : CidrCrate) where
  open crate use {IpCidr, cidr_from_str, new_host, contains}

  -- What an entry stands for.
  pub data Names : Str → IpCidr → Type 0 where
    block : {entry : Str} {net : IpCidr} → cidr_from_str entry ≡ some net → Names entry net
    bare :
        {entry : Str} {net : IpCidr} (ip : IpAddr)
        → cidr_from_str entry ≡ none
        → ip_from_str entry ≡ some ip
        → net ≡ new_host ip
        → Names entry net

  -- The entries and their blocks, in the same order.
  pub data AllName : List Str → List IpCidr → Type 0 where
    nil : AllName [] []
    cons :
        {entry : Str} {net : IpCidr} {entries : List Str} {nets : List IpCidr}
        → Names entry net
        → AllName entries nets
        → AllName (entry ∷ entries) (net ∷ nets)

  -- Neither a block nor an address.
  abbrev pub NamesNothing : Str → Type 0
  NamesNothing entry = (cidr_from_str entry ≡ none) × (ip_from_str entry ≡ none)

  abbrev EntryOutcome : Str → TrustResult IpCidr → Type 0
  EntryOutcome entry (ok net) = Names entry net
  EntryOutcome entry (err e) = (e ≡ bad_entry entry) × NamesNothing entry

  parse_entry-EntryOutcome : (entry : Str) → EntryOutcome entry (parse_entry crate entry)
  unfolding parse_entry
  parse_entry-EntryOutcome entry = elim (Option-cases (cidr_from_str entry)) [
    | inr (net, e) ↦ rw e (block e)
    | inl no_block ↦ rw no_block (elim (Option-cases (ip_from_str entry)) [
      | inr (ip, e) ↦ rw e (bare ip no_block e refl)
      | inl no_ip ↦ rw no_ip (refl, (no_block, no_ip))
    ])
  ]

  -- All entries name blocks, or the first that names nothing is the error.
  abbrev pub EntriesOutcome : List Str → TrustResult (List IpCidr) → Type 0
  EntriesOutcome entries (ok nets) = AllName entries nets
  EntriesOutcome entries (err e) =
      (earlier : List Str) × (nets : List IpCidr) × (bad : Str) × (later : List Str) × (entries
        ≡ earlier ++ (bad ∷ later))
      × AllName earlier nets
      × NamesNothing bad
      × (e ≡ bad_entry bad)

  parse_entries-EntriesOutcome :
      (entries : List Str) → EntriesOutcome entries (parse_entries crate entries)
  unfolding parse_entries
  parse_entries-EntriesOutcome [] = nil
  parse_entries-EntriesOutcome (entry ∷ entries) =
      go (parse_entry crate entry) (parse_entries crate entries) (parse_entry-EntryOutcome entry)
        (parse_entries-EntriesOutcome entries)
    where
      go :
          (one : TrustResult IpCidr) (rest : TrustResult (List IpCidr))
          → EntryOutcome entry one
          → EntriesOutcome entries rest
          → EntriesOutcome (entry ∷ entries) (one >>= λ net. rest >>= λ nets. ok (net ∷ nets))
      go (err e) rest (is, nothing) r = ([], [], entry, entries, refl, nil, nothing, is)
      go (ok net) (ok nets) n r = cons n r
      go (ok net) (err e) n (earlier, nets, bad, later, splits, all, nothing, is) =
          (entry ∷ earlier, net ∷ nets, bad, later, ap (◌∷◌ entry) splits, cons n all, nothing, is)

  -- How an allowlist is read.
  pub data ParseOutcome (spec : Str) : TrustResult (TrustedProxies crate) → Type 0 where
    nothing_listed : entries_of spec ≡ [] → ParseOutcome spec (err empty)
    read :
        {nets : List IpCidr} (first : Str) (more : List Str)
        → entries_of spec ≡ first ∷ more
        → AllName (first ∷ more) nets
        → ParseOutcome spec (ok (record { nets = nets; spec = trim spec }))
    refused :
        (earlier : List Str) (nets : List IpCidr) (bad : Str) (later : List Str)
        → entries_of spec ≡ earlier ++ (bad ∷ later)
        → AllName earlier nets
        → NamesNothing bad
        → ParseOutcome spec (err (bad_entry bad))

  pub parse-ParseOutcome : (spec : Str) → ParseOutcome spec (parse crate spec)
  unfolding parse
  parse-ParseOutcome spec =
      go (entries_of spec) refl (parse_entries-EntriesOutcome (entries_of spec))
    where
      read_all :
          (first : Str) (more : List Str) (r : TrustResult (List IpCidr))
          → entries_of spec ≡ first ∷ more
          → EntriesOutcome (first ∷ more) r
          → ParseOutcome spec (r >>= λ nets. ok (record { nets = nets; spec = trim spec }))
      read_all first more (ok nets) e all = read first more e all
      read_all first more (err b) e (earlier, nets, bad, later, splits, all, nothing, is) =
          rw is (refused earlier nets bad later (e ∙ splits) all nothing)

      go :
          (entries : List Str)
          → entries_of spec ≡ entries
          → EntriesOutcome (entries_of spec) (parse_entries crate (entries_of spec))
          → ParseOutcome spec (
              if is_empty (entries_of spec)
              then err empty
              else (parse_entries crate (entries_of spec) >>= λ nets.
                  ok (record { nets = nets; spec = trim spec })))
      go [] e o = rw e (nothing_listed e)
      go (first ∷ more) e o =
          rw e (read_all first more (parse_entries crate (first ∷ more)) e (rw e at o))
