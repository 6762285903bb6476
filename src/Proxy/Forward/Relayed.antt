-- ===== src/Proxy/Forward/Relayed.antt =====
-- One round of `client_to_server` in core/rust/src/proxy.rs, on a whole message.
use pg_prism.Prelude.{
  ℕ, ◌+◌, ◌-◌, ◌<◌, Bool, true, ◌||◌, ◌&&◌, [], ◌∷◌, ◌++◌, ◌≡◌, refl, sym, ap, ◌∙◌, arith, ltb,
  ◌==◌, if◌then◌else◌, length, append_assoc, append-nil, Bool-cases, inl, inr,
}
use pg_prism.Text.{Bytes}
use pg_prism.Wire.{u32_size, as_u32, to_be_bytes, from_be_bytes-to_be_bytes}
use pg_prism.Guardian.Rules.{ConnectionContext}
use pg_prism.Guardian.Query.{check_query}
use pg_prism.Proxy.Stream.{BufReader, content, Outgoing}
use pg_prism.Proxy.Handshake.{be_u32}
use pg_prism.Proxy.Forward.{
  Relay, goes_on, copy_blind, is_inspected, blocked_packet, ready_for_query, refuse,
  forward_inspected, forward_blind, forward_one, settle,
}
use pg_prism.Proxy.Forward.Copy.{
  read_all, Works, write_all-Sent, write_both-Sent, copy_blind-Copied,
}

-- A message of the protocol: its type, a length that counts itself, and a body.
pub record Message : Type 0 where
  pub tag : ℕ
  pub body : Bytes

abbrev pub length_bytes : Message → Bytes
length_bytes m = to_be_bytes (as_u32 (length m.body + 4))

abbrev pub encode : Message → Bytes
encode m = m.tag ∷ (length_bytes m ++ m.body)

-- May it go on to the server? A Query or a Parse of fewer than 1024 bytes only if Guardian passes it.
abbrev pub lets_through : ConnectionContext → Message → Bool
lets_through context m =
    if (m.tag == b'Q' || m.tag == b'P') && ltb (length m.body) 1024
    then check_query m.body context
    else true

-- The relay behind one message.
pub record Relayed (relay : Relay) (rest to_server to_client : Bytes) (next : Relay) : Type 0 where
  pub behind : content next.reader ≡ rest
  pub same : next.reader.ending ≡ relay.reader.ending
  pub up_sent : next.upstream.sent ≡ relay.upstream.sent ++ to_server
  pub client_sent : next.client.sent ≡ relay.client.sent ++ to_client
  pub up_works : Works next.upstream
  pub client_works : Works next.client

be_u32-length_bytes :
    (m : Message) → length m.body + 4 < u32_size → be_u32 (length_bytes m) ≡ length m.body + 4
unfolding to_be_bytes
be_u32-length_bytes m fits =
    let same : as_u32 (length m.body + 4) ≡ length m.body + 4 = omega (arith, fits) in
    from_be_bytes-to_be_bytes (as_u32 (length m.body + 4)) (omega (arith, fits)) ∙ same

length-length_bytes : (m : Message) → length (length_bytes m) ≡ 4
unfolding to_be_bytes
length-length_bytes m = refl

pub refuse-sent :
    (client : Outgoing)
    → Works client
    → ((refuse client).sent ≡ client.sent ++ (blocked_packet ++ ready_for_query))
      × Works (refuse client)
unfolding refuse
refuse-sent client works =
    let (out, e, sent, works') = write_both-Sent client blocked_packet ready_for_query works in
    rw (refuse, e) (sent, works')

module _ (context : ConnectionContext) (m : Message) (relay : Relay) (rest : Bytes)
    (fits : length m.body + 4 < u32_size) (up_works : Works relay.upstream)
    (client_works : Works relay.client) where
  forward_inspected-Relayed :
      (r : BufReader)
      → content r ≡ rest
      → r.ending ≡ relay.reader.ending
      → (next : Relay) × (settle relay
            (forward_inspected r relay.upstream (m.tag ∷ []) (length_bytes m) m.body)
          ≡ goes_on next)
        × Relayed relay rest (encode m) [] next
  unfolding forward_inspected
  forward_inspected-Relayed r behind same =
      let (up1, wrote1, sent1, works1) =
        write_both-Sent relay.upstream (m.tag ∷ []) (length_bytes m) up_works in
      let (up2, wrote2, sent2, works2) = write_all-Sent up1 m.body works1 in
      (
        record relay { reader = r; upstream = up2 },
        rw (wrote1, wrote2) refl,
        record {
          behind = behind;
          same = same;
          up_sent =
              sent2
              ∙ ap (λ (b : Bytes). b ++ m.body) sent1
              ∙ append_assoc relay.upstream.sent (m.tag ∷ length_bytes m) m.body;
          client_sent = sym (append-nil relay.client.sent);
          up_works = works2;
          client_works = client_works;
        },
      )

  forward_blind-Relayed :
      (r : BufReader)
      → content r ≡ m.body ++ rest
      → r.ending ≡ relay.reader.ending
      → (next : Relay) × (settle relay
            (forward_blind r relay.upstream (m.tag ∷ []) (length_bytes m) (length m.body))
          ≡ goes_on next)
        × Relayed relay rest (encode m) [] next
  unfolding forward_blind
  forward_blind-Relayed r behind same =
      let (up1, wrote1, sent1, works1) =
        write_both-Sent relay.upstream (m.tag ∷ []) (length_bytes m) up_works in
      let (behind', same', sent2, works2) =
        copy_blind-Copied (length m.body) (length m.body) m.body rest r up1 refl (omega arith)
          behind works1 in
      let p = copy_blind (length m.body) (length m.body) r up1 in
      (
        record relay { reader = p.0; upstream = p.1 },
        rw wrote1 refl,
        record {
          behind = behind';
          same = same' ∙ same;
          up_sent =
              sent2
              ∙ ap (λ (b : Bytes). b ++ m.body) sent1
              ∙ append_assoc relay.upstream.sent (m.tag ∷ length_bytes m) m.body;
          client_sent = sym (append-nil relay.client.sent);
          up_works = works2;
          client_works = client_works;
        },
      )

  refused-Relayed :
      (r : BufReader)
      → content r ≡ rest
      → r.ending ≡ relay.reader.ending
      → Relayed relay rest []
          (blocked_packet ++ ready_for_query)
          (record relay { reader = r; client = refuse relay.client })
  refused-Relayed r behind same =
      let (sent, works) = refuse-sent relay.client client_works in
      record {
        behind = behind;
        same = same;
        up_sent = sym (append-nil relay.upstream.sent);
        client_sent = sent;
        up_works = up_works;
        client_works = works;
      }

  pub forward_one-Relayed :
      content relay.reader ≡ encode m ++ rest
      → (next : Relay) × (forward_one context relay ≡ goes_on next)
        × Relayed relay rest
            (if lets_through context m then encode m else [])
            (if lets_through context m then [] else blocked_packet ++ ready_for_query)
            next
  unfolding forward_one
  forward_one-Relayed e =
      let (r1, read1, behind1, same1) =
        read_all (m.tag ∷ []) (length_bytes m ++ m.body ++ rest) relay.reader 1 (omega arith)
          (e ∙ ap (λ (b : Bytes). m.tag ∷ b) refl) in
      let (r2, read2, behind2, same2) =
        read_all (length_bytes m) (m.body ++ rest) r1 4 (length-length_bytes m)
          (behind1 ∙ append_assoc (length_bytes m) m.body rest) in
      let payload_len : be_u32 (length_bytes m) - 4 ≡ length m.body =
        omega (arith, be_u32-length_bytes m fits) in
      elim (Bool-cases (is_inspected m.tag (length m.body))) [
        | inl inspected ↦
            let (r3, read3, behind3, same3) =
              read_all m.body rest r2 (length m.body) refl behind2 in
            elim (Bool-cases (check_query m.body context)) [
              | inl passes ↦
                  rw (read1, read2, payload_len, inspected, read3, passes)
                    (forward_inspected-Relayed r3 behind3 (same3 ∙ same2 ∙ same1))
              | inr blocked ↦
                  rw (read1, read2, payload_len, inspected, read3, blocked)
                    (_, refl, refused-Relayed r3 behind3 (same3 ∙ same2 ∙ same1))
            ]
        | inr blind ↦
            rw (read1, read2, payload_len, blind) (forward_blind-Relayed r2 behind2 (same2 ∙ same1))
      ]
