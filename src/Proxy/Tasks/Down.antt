-- ===== src/Proxy/Tasks/Down.antt =====
-- The steps of `server_to_client` and of the drain keep the invariant of the two tasks.
use mathlib.Core.Path.{subst}
use pg_prism.Prelude.{true, false, List, [], ◌∷◌, ◌++◌, ◌≡◌, refl, ap, ◌∙◌, arith, append_assoc}
use pg_prism.Text.{Bytes}
use pg_prism.Guardian.Rules.{ConnectionContext}
use pg_prism.Proxy.Stream.{BufReader, Outgoing}
use pg_prism.Proxy.Forward.Copy.{write_all-Sent}
use pg_prism.Proxy.Tasks.{
  up_reading, UpPc, up_dropped, down_reading, down_locking, down_sending, down_closing, down_done,
  Lock, free, by_down, State, client_write,
}
use pg_prism.Proxy.Tasks.Invariant.{answered, up_writes, Inv}
use pg_prism.Proxy.Stream.{content}
use pg_prism.Proxy.Forward.{sent_on, take_one}
use pg_prism.Proxy.Forward.Reference.Round.{take_one-TakesAs}
use pg_prism.Proxy.Tasks.Moves.{Opens-part, ServerSide-dropped}
use pg_prism.Proxy.Tasks.Parts.{
  answers_in-append, refusals_in-append, downs_not_ups, open_whole, idle_whole, idle-begun,
  shut-begun, ToClient-idle, ToClient-add,
}

module _ (context : ConnectionContext) (init : State) {reader : BufReader}
    {upstream client : Outgoing} where
  pub answer-Inv :
      {answers : List Bytes} {lock : Lock} {up : UpPc} (buf : Bytes)
      → Inv context init reader upstream client (buf ∷ answers) lock up down_reading
      → Inv context init reader upstream client answers lock up (down_locking buf)
  answer-Inv {up} buf inv = record {
    held = inv.held;
    blocks = inv.blocks;
    to_server = inv.to_server;
    to_client = inv.to_client;
    in_order = inv.in_order;
    counted = record {
      no_more = inv.counted.no_more;
      all_open = λ h. inv.counted.all_open (λ e. cc e);
    };
    locked = record {
      up_locks = inv.locked.up_locks;
      down_locks = inv.locked.down_locks;
      whole = open_whole up (down_locking buf) (λ e. cc e);
    };
  }

  pub answers_over-Inv :
      {answers : List Bytes} {lock : Lock} {up : UpPc}
      → Inv context init reader upstream client answers lock up down_reading
      → Inv context init reader upstream client answers lock up down_closing
  answers_over-Inv {up} inv = record {
    held = inv.held;
    blocks = inv.blocks;
    to_server = inv.to_server;
    to_client = inv.to_client;
    in_order = inv.in_order;
    counted = record {
      no_more = inv.counted.no_more;
      all_open = λ h. inv.counted.all_open (λ e. cc e);
    };
    locked = record {
      up_locks = inv.locked.up_locks;
      down_locks = inv.locked.down_locks;
      whole = open_whole up down_closing (λ e. cc e);
    };
  }

  pub down_lock-Inv :
      {answers : List Bytes} {up : UpPc} (buf : Bytes)
      → Inv context init reader upstream client answers free up (down_locking buf)
      → Inv context init reader upstream client answers by_down up (down_sending buf)
  down_lock-Inv {up} buf inv = record {
    held = inv.held;
    blocks = inv.blocks;
    to_server = inv.to_server;
    to_client = inv.to_client;
    in_order = inv.in_order;
    counted = record {
      no_more = inv.counted.no_more;
      all_open = λ h. inv.counted.all_open (λ e. cc e);
    };
    locked = record {
      up_locks = inv.locked.up_locks;
      down_locks = refl;
      whole = open_whole up (down_sending buf) (λ e. cc e);
    };
  }

  pub send_done-Inv :
      {answers : List Bytes} {lock : Lock} {up : UpPc} (buf : Bytes) (client' : Outgoing)
      → client_write (down_sending buf) client buf ≡ (true, client')
      → Inv context init reader upstream client answers lock up (down_sending buf)
      → Inv context init reader upstream client' answers free up down_reading
  send_done-Inv {answers} {lock} {up} buf client' wrote inv =
      let idle : up_writes up ≡ false =
        inv.locked.up_locks ∙ downs_not_ups lock inv.locked.down_locks in
      let (out, e, sent, works) = write_all-Sent client buf inv.to_client.client_works in
      let same : out ≡ client' = cc (e, wrote) in
      subst (λ c. Inv context init reader upstream c answers free up down_reading) same
        (record {
          held = inv.held;
          blocks = inv.blocks ++ (answered buf ∷ []);
          to_server = inv.to_server;
          to_client =
              ToClient-add (answered buf) buf (ap (λ (b : Bytes). b ++ buf) (idle-begun up idle))
                (idle-begun up idle) sent works inv.to_client;
          in_order = simp (answers_in-append, append_assoc, inv.in_order);
          counted = record {
            no_more =
                omega
                  (arith, inv.counted.no_more, refusals_in-append inv.blocks (answered buf ∷ []));
            all_open = λ h. omega (
              arith,
              inv.counted.all_open (λ e. cc e),
              refusals_in-append inv.blocks (answered buf ∷ []),
            );
          };
          locked = record {
            up_locks = idle;
            down_locks = refl;
            whole = open_whole up down_reading (λ e. cc e);
          };
        })

  pub send_failed-Inv :
      {answers : List Bytes} {lock : Lock} {up : UpPc} (buf : Bytes) (client' : Outgoing)
      → client_write (down_sending buf) client buf ≡ (false, client')
      → Inv context init reader upstream client answers lock up (down_sending buf)
      → Inv context init reader upstream client' answers free up down_closing
  send_failed-Inv buf client' wrote inv =
      let (out, e, sent, works) = write_all-Sent client buf inv.to_client.client_works in
      absurd (cc (e, wrote))

  pub shut-Inv :
      {answers : List Bytes} {up : UpPc}
      → Inv context init reader upstream client answers free up down_closing
      → Inv context init reader upstream client answers free up down_done
  shut-Inv {up} inv = record {
    held = inv.held;
    blocks = inv.blocks;
    to_server = inv.to_server;
    to_client = inv.to_client;
    in_order = inv.in_order;
    counted = record { no_more = inv.counted.no_more; all_open = λ h. absurd (h refl) };
    locked = record {
      up_locks = inv.locked.up_locks;
      down_locks = inv.locked.down_locks;
      whole = idle_whole up down_done inv.locked.up_locks;
    };
  }

  pub cut_short-Inv :
      {answers : List Bytes} {lock : Lock} (r : BufReader) (up' : Outgoing) (part more : Bytes)
      → take_one context reader upstream ≡ sent_on r up'
      → up'.sent ≡ upstream.sent ++ (part ++ more)
      → Inv context init reader upstream client answers lock up_reading down_done
      → Inv context init reader
          (record upstream { sent = upstream.sent ++ part })
          client
          answers
          free
          up_dropped
          down_done
  cut_short-Inv r up' part more taken is inv = record {
    held = inv.held;
    blocks = inv.blocks;
    to_server = (
      upstream,
      inv.to_server,
      part,
      refl,
      Opens-part _ reader r upstream up' _ part more
          (take_one-TakesAs context reader upstream inv.to_server.up_works (content reader) refl)
          taken is,
    );
    to_client = ToClient-idle refl refl inv.to_client;
    in_order = inv.in_order;
    counted = record { no_more = inv.counted.no_more; all_open = λ h. absurd (h refl) };
    locked = record { up_locks = refl; down_locks = refl; whole = refl };
  }

  pub give_up-Inv :
      {answers : List Bytes} {lock : Lock} {up : UpPc}
      → Inv context init reader upstream client answers lock up down_done
      → Inv context init reader upstream client answers free up_dropped down_done
  give_up-Inv {up} inv = record {
    held = inv.held;
    blocks = inv.blocks;
    to_server = ServerSide-dropped context init reader upstream inv.held up inv.to_server;
    to_client = ToClient-idle (shut-begun up inv.locked.whole) refl inv.to_client;
    in_order = inv.in_order;
    counted = record {
      no_more = omega (arith, inv.counted.no_more);
      all_open = λ h. absurd (h refl);
    };
    locked = record { up_locks = refl; down_locks = refl; whole = refl };
  }
