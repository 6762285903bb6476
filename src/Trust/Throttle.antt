-- ===== src/Trust/Throttle.antt =====
-- `should_log` of core/rust/src/trust.rs over a sequence of refusals.
use pg_prism.Prelude.{
  ℕ, suc, ◌+◌, ◌-◌, ◌%◌, ◌≤◌, ◌<◌, true, List, [], ◌∷◌, Option, none, some, ◌≡◌, arith, leb,
  case_option, length, Bool-cases, inl, inr,
}
use pg_prism.Limits.{u64_size}
use pg_prism.Trust.{RejectionLog, is_due, should_log}

-- The refusals at these times, in their order: what each call returns, and the log at the end.
unfoldable pub run_log : RejectionLog → List ℕ → List (Option ℕ) × RejectionLog
run_log log [] = ([], log)
run_log log (now ∷ times) =
    let (out, log') = should_log log now in
    let (outs, final) = run_log log' times in (out ∷ outs, final)

-- The events that the lines account for: each its own, and those that it reports.
abbrev pub accounted : List (Option ℕ) → ℕ
accounted [] = 0
accounted (none ∷ outs) = accounted outs
accounted (some n ∷ outs) = suc n + accounted outs

-- No refusal is lost: those that the lines account for and those still counted are the ones that
-- happened and those counted before, whatever the times and the interval are, while the counter
-- does not wrap.
pub run_log-accounted :
    (log : RejectionLog) (times : List ℕ)
    → log.suppressed + length times < u64_size
    → accounted (run_log log times).0 + (run_log log times).1.suppressed
      ≡ length times + log.suppressed
unfolding run_log should_log
run_log-accounted log [] h = omega arith
run_log-accounted log (now ∷ times) h = elim (Bool-cases (is_due log now)) [
  | inl due ↦ rw due (
      omega (
        arith,
        run_log-accounted (record log { last = some now; suppressed = 0 }) times (omega arith),
      ))
  | inr early ↦
      let small : (log.suppressed + 1) % u64_size ≡ log.suppressed + 1 = omega arith in
      rw (early, small)
        (omega (
          arith,
          run_log-accounted (record log { suppressed = log.suppressed + 1 }) times (omega arith),
        ))
]

-- The times at which a line is written.
abbrev pub line_times : List ℕ → List (Option ℕ) → List ℕ
line_times (now ∷ times) (some n ∷ outs) = now ∷ line_times times outs
line_times (now ∷ times) (none ∷ outs) = line_times times outs
line_times _ _ = []

-- Each time is at least the interval behind the one before it.
abbrev pub IsSpaced : ℕ → Option ℕ → List ℕ → Type 0
IsSpaced interval last [] = Unit
IsSpaced interval none (now ∷ times) = IsSpaced interval (some now) times
IsSpaced interval (some t) (now ∷ times) = (interval ≤ now - t) × IsSpaced interval (some now) times

IsSpaced-due :
    (log : RejectionLog) (now : ℕ) (times : List ℕ)
    → is_due log now ≡ true
    → IsSpaced log.interval (some now) times
    → IsSpaced log.interval log.last (now ∷ times)
IsSpaced-due log now times due h = by_last log.last due
  where
    by_last :
        (last : Option ℕ)
        → case_option last true (λ t. leb log.interval (now - t)) ≡ true
        → IsSpaced log.interval last (now ∷ times)
    by_last none due = h
    by_last (some t) due = (ground arith, h)

-- However many refusals there are, two lines are never closer than the interval.
pub run_log-IsSpaced :
    (log : RejectionLog) (times : List ℕ)
    → IsSpaced log.interval log.last (line_times times (run_log log times).0)
unfolding run_log should_log
run_log-IsSpaced log [] = tt
run_log-IsSpaced log (now ∷ times) = elim (Bool-cases (is_due log now)) [
  | inl due ↦ rw due (
      IsSpaced-due log now _ due
        (run_log-IsSpaced (record log { last = some now; suppressed = 0 }) times))
  | inr early ↦
      rw early
        (run_log-IsSpaced (record log { suppressed = (log.suppressed + 1) % u64_size }) times)
]
