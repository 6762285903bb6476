-- ===== src/Net/Literal.antt =====
-- The texts that `IpAddr::from_str` accepts.
mod Taken
use pg_prism.Prelude.{
  ℕ, zero, suc, ◌+◌, ◌-◌, ◌*◌, ◌≤◌, ◌<◌, Bool, true, false, List, [], ◌∷◌, ◌++◌, Option, none, some,
  ◌≡◌, ◌≢◌, refl, sym, ap, ◌∙◌, arith, ltb, ◌==◌, case_option, Bool-cases, Option-cases, inl, inr,
  length, length-append, All-append, append_assoc, append-nil,
}
use pg_prism.Text.{Str}
use pg_prism.Net.{
  IpAddr, v4, v6, IsAddressText, Parser, ◌>>=◌, to_digit, Digits, read_digits, read_number,
  read_char, separated, read_octet, read_ipv4_addr, segments_of, Groups, more_group, read_groups,
  of_segments, with_rest, read_tail, after_head, read_ipv6_addr, whole, or_else, ip_from_str,
}
use pg_prism.Net.Literal.Taken.{
  Consumed, Consumed-nothing, Consumed-trans, Consumed-le, >>=-eq-some, read_number-Consumed,
  read_char-Consumed, separated-Consumed, read_octet-Consumed, read_ipv4_addr-Consumed,
}

abbrev ipv4_chars : Bool → ℕ
ipv4_chars true = 16
ipv4_chars false = 0

-- What `read_groups` has consumed, by the number of segments.
record Read (left : ℕ) (s : Str) (r : Groups) : Type 0 where
  consumed : Consumed (5 * length r.groups + ipv4_chars r.ipv4) s r.rest
  few : length r.groups ≤ left

segments_of-le : (a : IpAddr) → length (segments_of a) ≤ 2
segments_of-le (v4 a b c d) = omega arith
segments_of-le (v6 a b c d e f g h) = omega arith

group-Consumed :
    (index : ℕ) (s : Str) {g : ℕ} {rest : Str}
    → separated b':' index (read_number 16 4 true 0x10000) s ≡ some (g, rest)
    → Consumed 5 s rest
group-Consumed index s h = Consumed-le (omega arith) (
    separated-Consumed b':' index 4 (read_number 16 4 true 0x10000) (omega arith)
      (λ s a rest. read_number-Consumed 16 4 true 0x10000 s) s h)

embedded-Consumed :
    (index : ℕ) (s : Str) {a : IpAddr} {rest : Str}
    → separated b':' index read_ipv4_addr s ≡ some (a, rest)
    → Consumed 16 s rest
embedded-Consumed index s h =
    Consumed-le (omega arith)
      (separated-Consumed b':' index 15 read_ipv4_addr (omega arith) read_ipv4_addr-Consumed s h)

Read-nothing : (left : ℕ) (s : Str) → Read left s (record { groups = []; ipv4 = false; rest = s })
Read-nothing left s = record { consumed = Consumed-nothing _ s; few = omega arith }

Read-cons :
    {left : ℕ} (g : ℕ) {s mid : Str} {r : Groups}
    → Consumed 5 s mid
    → Read left mid r
    → Read (suc left) s (more_group g r)
Read-cons g one more = record {
  consumed = Consumed-le (omega arith) (Consumed-trans one more.consumed);
  few = omega (arith, more.few);
}

Read-embedded :
    {left : ℕ} {s rest : Str} (a : IpAddr)
    → 2 ≤ left
    → Consumed 16 s rest
    → Read left s (record { groups = segments_of a; ipv4 = true; rest = rest })
Read-embedded a two one = record {
  consumed = Consumed-le (omega arith) one;
  few = omega (arith, segments_of-le a);
}

-- A segment, or none.
next_group :
    (left i : ℕ) (s : Str)
    → ((mid : Str) → Read left mid (read_groups left (i + 1) mid))
    → Read (suc left) s (
        case_option
          (separated b':' i (read_number 16 4 true 0x10000) s)
          (record { groups = []; ipv4 = false; rest = s })
          (λ r. more_group r.0 (read_groups left (i + 1) r.1)))
next_group left i s more =
    elim (Option-cases (separated b':' i (read_number 16 4 true 0x10000) s)) [
      | inl e ↦ rw e (Read-nothing (suc left) s)
      | inr ((g, mid), e) ↦ rw e (Read-cons g (group-Consumed i s e) (more mid))
    ]

two : (left : ℕ) → ltb 0 (suc left) ≡ true
two left = ground arith

read_groups-Read : (left i : ℕ) (s : Str) → Read left s (read_groups left i s)
unfolding read_groups
read_groups-Read zero i s = Read-nothing zero s
read_groups-Read (suc zero) i s = next_group zero i s (λ mid. read_groups-Read zero (i + 1) mid)
read_groups-Read (suc (suc left)) i s = elim (Option-cases (separated b':' i read_ipv4_addr s)) [
  | inl e ↦
      rw (two left, e) (next_group (suc left) i s (λ mid. read_groups-Read (suc left) (i + 1) mid))
  | inr ((a, mid), e) ↦ rw (two left, e) (Read-embedded a (omega arith) (embedded-Consumed i s e))
]

with_rest-eq-some :
    (rest : Str) (o : Option IpAddr) {a : IpAddr} {s : Str}
    → with_rest rest o ≡ some (a, s)
    → rest ≡ s
with_rest-eq-some rest none h = absurd (cc h)
with_rest-eq-some rest (some b) h = ground arith

read_tail-Consumed :
    (head : List ℕ) (limit : ℕ) (s : Str) {a : IpAddr} {rest : Str}
    → read_tail head limit s ≡ some (a, rest)
    → Consumed (5 * limit + 16) s rest
unfolding read_tail
read_tail-Consumed head limit s h =
    let read = read_groups-Read limit 0 s in
    let same = with_rest-eq-some (read_groups limit 0 s).rest _ h in
    rw same at
      (Consumed-le {m = 5 * limit + 16} (few_chars (read_groups limit 0 s) read) read.consumed)
  where
    few_chars :
        (r : Groups) → Read limit s r → 5 * length r.groups + ipv4_chars r.ipv4 ≤ 5 * limit + 16
    few_chars r read = ground (arith, read.few)

after_head-Consumed :
    (s : Str) (head : Groups) {a : IpAddr} {rest : Str}
    → Read 8 s head
    → after_head head ≡ some (a, rest)
    → Consumed 56 s rest
unfolding after_head
after_head-Consumed s head {a} {rest} read h = elim (Bool-cases (length head.groups == 8)) [
  | inl full ↦
      let same = with_rest-eq-some head.rest (of_segments head.groups) (rw full at h) in
      rw same at (Consumed-le {m = 56} (ground (arith, read.few)) read.consumed)
  | inr part ↦ elim (Bool-cases head.ipv4) [
    | inl v ↦ absurd (cc (rw (part, v) at h))
    | inr v ↦
        let h' : behind head.rest ≡ some (a, rest) = rw (part, v) at h in
        let (u, s1, e1, h1) = >>=-eq-some (read_char b':') _ head.rest h' in
        let (w, s2, e2, h2) = >>=-eq-some (read_char b':') _ s1 h1 in
        Consumed-le (ground (arith, read.few, v)) (
          Consumed-trans read.consumed (
            Consumed-trans (read_char-Consumed b':' head.rest (omega arith) e1) (
              Consumed-trans (read_char-Consumed b':' s1 (omega arith) e2)
                (read_tail-Consumed head.groups (8 - (length head.groups + 1)) s2 h2))))
  ]
]
  where
    behind : Parser IpAddr
    behind = read_char b':' >>= λ _.
        read_char b':' >>= λ _. read_tail head.groups (8 - (length head.groups + 1))

read_ipv6_addr-Consumed :
    (s : Str) (a : IpAddr) (rest : Str) → read_ipv6_addr s ≡ some (a, rest) → Consumed 56 s rest
unfolding read_ipv6_addr
read_ipv6_addr-Consumed s a rest h =
    after_head-Consumed s (read_groups 8 0 s) (read_groups-Read 8 0 s) h

whole-eq-some : (o : Option (IpAddr × Str)) {a : IpAddr} → whole o ≡ some a → o ≡ some (a, [])
whole-eq-some none h = absurd (cc h)
whole-eq-some (some (b, [])) h = ground arith
whole-eq-some (some (b, c ∷ s)) h = absurd (cc h)

parsed-Consumed :
    (s : Str) {a : IpAddr}
    → or_else (read_ipv4_addr s) (read_ipv6_addr s) ≡ some (a, [])
    → Consumed 56 s []
parsed-Consumed s {a} h = elim (Option-cases (read_ipv4_addr s)) [
  | inl e ↦ read_ipv6_addr-Consumed s a [] (rw e at h)
  | inr ((b, rest), e) ↦
      let h' : ◌≡◌ {A = Option (IpAddr × Str)} (some (b, rest)) (some (a, [])) = rw e at h in
      let same : rest ≡ [] = ground arith in
      Consumed-le (omega arith) (rw same at (read_ipv4_addr-Consumed s b rest e))
]

-- What `IpAddr::from_str` accepts.
pub record IsLiteral (s : Str) : Type 0 where
  pub nonempty : s ≢ []
  pub chars : IsAddressText s
  pub short : length s < 60

pub ip_from_str-IsLiteral : (s : Str) {a : IpAddr} → ip_from_str s ≡ some a → IsLiteral s
unfolding ip_from_str
ip_from_str-IsLiteral s {a} h =
    let c = parsed-Consumed s (whole-eq-some _ h) in
    let same : s ≡ c.used = c.splits ∙ append-nil c.used in
    record {
      nonempty = λ e. absurd (cc (rw e at h));
      chars = rw same c.chars;
      short = rw same (omega (arith, c.short));
    }
