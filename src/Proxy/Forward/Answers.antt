-- ===== src/Proxy/Forward/Answers.antt =====
-- The direction from the server to the client in core/rust/src/proxy.rs.
use pg_prism.Prelude.{
  ◌+◌, false, List, [], ◌∷◌, ◌++◌, ◌≡◌, refl, sym, ap, ◌∙◌, take, append_assoc, append-nil,
  is_empty, All, Bool-cases, Option-cases, inl, inr,
}
use pg_prism.Text.{Bytes}
use pg_prism.Proxy.Stream.{End, flatten, Outgoing, write_all}
use pg_prism.Proxy.Client.Upstream.{
  IsPrefix, take-IsPrefix, IsPrefix-append_left, IsPrefix-append_right,
}
use pg_prism.Proxy.Forward.{ending_of, server_to_client}
use pg_prism.Proxy.Forward.Copy.{Works, write_all-Sent}

-- The bytes that were sent behind those before.
abbrev pub SentOf : Bytes → Bytes → Bytes → Type 0
SentOf before after whole = (part : Bytes) × (after ≡ before ++ part) × IsPrefix part whole

-- Whichever writes fail, the client gets the beginning of what the server sent, and nothing else.
pub server_to_client-SentOf :
    (reads : List Bytes) (ending : End) (client : Outgoing)
    → SentOf client.sent (server_to_client reads ending client).1.sent (flatten reads)
unfolding server_to_client flatten write_all
server_to_client-SentOf [] ending client = ([], sym (append-nil client.sent), ([], refl))
server_to_client-SentOf (buf ∷ reads) ending client = elim (Bool-cases (is_empty buf)) [
  | inl nothing ↦ rw nothing ([], sym (append-nil client.sent), (buf ++ flatten reads, refl))
  | inr something ↦ elim (Option-cases (client.fate client.writes)) [
    | inr (k, cut) ↦
        rw (something, cut)
          (
            take k buf,
            refl,
            IsPrefix-append_right (take k buf) buf (flatten reads) (take-IsPrefix k buf),
          )
    | inl whole ↦
        let (part, sent, is_prefix) =
          server_to_client-SentOf reads ending
            (record client { sent = client.sent ++ buf; writes = client.writes + 1 }) in
        rw (something, whole)
          (
            buf ++ part,
            sent ∙ append_assoc client.sent buf part,
            IsPrefix-append_left buf part (flatten reads) is_prefix,
          )
  ]
]

-- If no write fails and only the end of the stream reads as empty, then the client gets all that the
-- server sent, in order, and its socket is shut down exactly if the server's stream is closed.
pub server_to_client-whole :
    (reads : List Bytes) (ending : End) (client : Outgoing)
    → All (λ buf. is_empty buf ≡ false) reads
    → Works client
    → ((server_to_client reads ending client).0 ≡ ending_of ending)
      × ((server_to_client reads ending client).1.sent ≡ client.sent ++ flatten reads)
unfolding server_to_client flatten
server_to_client-whole [] ending client full works = (refl, sym (append-nil client.sent))
server_to_client-whole (buf ∷ reads) ending client (something, full) works =
    let (client', wrote, sent, works') = write_all-Sent client buf works in
    let (ends, all_sent) = server_to_client-whole reads ending client' full works' in
    rw (something, wrote)
      (
        ends,
        all_sent
            ∙ ap (λ (b : Bytes). b ++ flatten reads) sent
            ∙ append_assoc client.sent buf (flatten reads),
      )
