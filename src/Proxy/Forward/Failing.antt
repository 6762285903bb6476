-- ===== src/Proxy/Forward/Failing.antt =====
-- The direction from the client over a socket to the server that fails: `client_to_server` of
-- core/rust/src/proxy.rs beside the same over one that works.
pub mod Round
pub mod Kept
pub mod Stream
use mathlib.Core.Path.{subst}
use pg_prism.Prelude.{
  ℕ, zero, suc, ◌+◌, ◌-◌, ◌≤◌, ◌<◌, min, Bool, true, false, List, [], ◌∷◌, ◌++◌, Option, none, some,
  Option-cases, ◌≡◌, ◌⊎◌, inl, inr, refl, sym, ap, ◌∙◌, arith, append_assoc, append-nil, take,
  Bool-cases, ◌==◌, if◌then◌else◌,
}
use pg_prism.Text.{Bytes}
use pg_prism.Proxy.Stream.{End, BufReader, ReadResult, got, ended, read_exact, Outgoing, write_all}
use pg_prism.Proxy.Client.{then_write, write_both}
use pg_prism.Proxy.Client.Upstream.{
  IsPrefix, IsPrefix-append_right, take-IsPrefix, IsPrefix-append_left,
}
use pg_prism.Proxy.Forward.{case_read, after_copy, exhausted, transfer_size, copy_blind}
use pg_prism.Proxy.Forward.Copy.{Works, write_all-Sent}

-- Behind a write that fails, nothing more is sent on the socket.
abbrev pub FailsOnce : Outgoing → Type 0
FailsOnce up = (n k m : ℕ) → up.fate n ≡ some k → n < m → up.fate m ≡ some 0

-- A write has failed.
abbrev pub Broken : Outgoing → Type 0
Broken up = (m : ℕ) → up.writes ≤ m → up.fate m ≡ some 0

-- The socket has been sent what the working one has, or it has failed with the beginning of that.
abbrev pub Same : Outgoing → Outgoing → Type 0
Same up good = (up.sent ≡ good.sent) × FailsOnce up × Works good

abbrev pub Behind : Outgoing → Outgoing → Type 0
Behind up good = Broken up × IsPrefix up.sent good.sent × Works good

abbrev pub WriteSim : Bool × Outgoing → Bool × Outgoing → Type 0
WriteSim (ok, up) (ok', good) =
    (ok' ≡ true) × (((ok ≡ true) × Same up good) ⊎ ((ok ≡ false) × Behind up good))

pub write_all-WriteSim :
    (up good : Outgoing) (bytes : Bytes)
    → Same up good
    → WriteSim (write_all up bytes) (write_all good bytes)
unfolding write_all
write_all-WriteSim up good bytes (same, once, works) = elim (Option-cases (up.fate up.writes)) [
  | inl e ↦
      rw (e, works good.writes)
        (refl, inl (refl, (ap (λ (b : Bytes). b ++ bytes) same, once, works)))
  | inr (k, e) ↦
      rw (e, works good.writes)
        (
          refl,
          inr (
            refl,
            (
              λ m le. once up.writes k m e (omega (arith, le)),
              rw same (IsPrefix-append_left good.sent (take k bytes) bytes (take-IsPrefix k bytes)),
              works,
            ),
          ),
        )
]

-- A write on the working socket, where the other has failed.
pub write_all-Behind :
    (up good : Outgoing) (bytes : Bytes)
    → Behind up good
    → WriteSim (false, up) (write_all good bytes)
unfolding write_all
write_all-Behind up good bytes (broken, front, works) =
    rw (works good.writes)
      (refl, inr (refl, (broken, IsPrefix-append_right up.sent good.sent bytes front, works)))

pub then_write-WriteSim :
    (bytes : Bytes) (w v : Bool × Outgoing)
    → WriteSim w v
    → WriteSim (then_write bytes w) (then_write bytes v)
then_write-WriteSim bytes (true, up) (true, good) (e, inl (e', same)) =
    write_all-WriteSim up good bytes same
then_write-WriteSim bytes (false, up) (true, good) (e, inl (e', same)) = absurd (cc e')
then_write-WriteSim bytes (true, up) (true, good) (e, inr (e', behind)) = absurd (cc e')
then_write-WriteSim bytes (false, up) (true, good) (e, inr (e', behind)) =
    write_all-Behind up good bytes behind
then_write-WriteSim bytes (ok, up) (false, good) (e, how) = absurd (cc e)

pub write_both-WriteSim :
    (up good : Outgoing) (first second : Bytes)
    → Same up good
    → WriteSim (write_both up first second) (write_both good first second)
unfolding write_both
write_both-WriteSim up good first second same =
    then_write-WriteSim second _ _ (write_all-WriteSim up good first same)

-- What follows the writes, with the failure or without.
pub after_copy-WriteSim {ℓ} :
    {B : Type ℓ} (P : B → B → Type 0) (f g f' g' : Outgoing → B) (w v : Bool × Outgoing)
    → WriteSim w v
    → ((up good : Outgoing) → Same up good → P (f up) (f' good))
    → ((up good : Outgoing) → Behind up good → P (g up) (f' good))
    → P (after_copy w f g) (after_copy v f' g')
after_copy-WriteSim P f g f' g' (true, up) (true, good) (e, inl (e', same)) one two =
    one up good same
after_copy-WriteSim P f g f' g' (false, up) (true, good) (e, inl (e', same)) one two =
    absurd (cc e')
after_copy-WriteSim P f g f' g' (true, up) (true, good) (e, inr (e', behind)) one two =
    absurd (cc e')
after_copy-WriteSim P f g f' g' (false, up) (true, good) (e, inr (e', behind)) one two =
    two up good behind
after_copy-WriteSim P f g f' g' (ok, up) (false, good) (e, how) one two = absurd (cc e)

-- A write on a socket that has failed sends nothing.
pub write_all-Broken :
    (up : Outgoing) (bytes : Bytes)
    → Broken up
    → (up' : Outgoing) × (write_all up bytes ≡ (false, up')) × (up'.sent ≡ up.sent) × Broken up'
unfolding write_all
write_all-Broken up bytes broken =
    rw (broken up.writes (omega arith))
      (_, refl, append-nil up.sent, λ m le. broken m (omega (arith, le)))

-- What follows a read, over both.
pub case_read-both {ℓ} :
    {B : Type ℓ} (P : B → B → Type 0) (x : ReadResult) (h h' : End → B)
    (f f' : Bytes → BufReader → B)
    → ((e : End) → P (h e) (h' e))
    → ((bytes : Bytes) (r : BufReader) → P (f bytes r) (f' bytes r))
    → P (case_read x h f) (case_read x h' f')
case_read-both P (got bytes r) h h' f f' none_left some_read = some_read bytes r
case_read-both P (ended e) h h' f f' none_left some_read = none_left e

pub case_read-one {ℓ} :
    {B : Type ℓ} (P : B → Type 0) (x : ReadResult) (h : End → B) (f : Bytes → BufReader → B)
    → ((e : End) → P (h e))
    → ((bytes : Bytes) (r : BufReader) → P (f bytes r))
    → P (case_read x h f)
case_read-one P (got bytes r) h f none_left some_read = some_read bytes r
case_read-one P (ended e) h f none_left some_read = none_left e

-- The blind copy over both.
abbrev pub CopySim : BufReader × Outgoing → BufReader × Outgoing → Type 0
CopySim (reader, up) (reader', good) = ((reader ≡ reader') × Same up good) ⊎ Behind up good

pub copied-Behind :
    (fuel left : ℕ) (reader : BufReader) (up good : Outgoing)
    → Behind up good
    → Behind up (copy_blind fuel left reader good).1
unfolding copy_blind
copied-Behind zero left reader up good behind = behind
copied-Behind (suc fuel) left reader up good behind = elim (Bool-cases (left == 0)) [
  | inl e ↦ rw e behind
  | inr e ↦ rw e (
      case_read-one (λ (b : BufReader × Outgoing). Behind up b.1)
        (read_exact reader (min left transfer_size)) _ _ (λ x. behind)
        (λ bytes r.
          let (broken, front, works) = behind in
          let (good', wrote, sent, works') = write_all-Sent good bytes works in
          rw wrote (
            copied-Behind fuel (left - min left transfer_size) r up good'
              (broken, rw sent (IsPrefix-append_right up.sent good.sent bytes front), works'))))
]

pub copy_blind-CopySim :
    (fuel left : ℕ) (reader : BufReader) (up good : Outgoing)
    → Same up good
    → CopySim (copy_blind fuel left reader up) (copy_blind fuel left reader good)
unfolding copy_blind
copy_blind-CopySim zero left reader up good same = inl (refl, same)
copy_blind-CopySim (suc fuel) left reader up good same = elim (Bool-cases (left == 0)) [
  | inl e ↦ rw e (inl (refl, same))
  | inr e ↦ rw e (
      case_read-both CopySim (read_exact reader (min left transfer_size)) _ _ _ _
        (λ x. inl (refl, same))
        (λ bytes r.
          after_copy-WriteSim CopySim _ _ _ _ (write_all up bytes) (write_all good bytes)
            (write_all-WriteSim up good bytes same)
            (λ up' good' same'.
              copy_blind-CopySim fuel (left - min left transfer_size) r up' good' same')
            (λ up' good' behind.
              inr (copied-Behind fuel (left - min left transfer_size) r up' good' behind))))
]
