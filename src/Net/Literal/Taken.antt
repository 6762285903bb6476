-- ===== src/Net/Literal/Taken.antt =====
-- What the parsers of numbers, of separators and of dotted IPv4 addresses take off their input.
use pg_prism.Prelude.{
  ℕ, zero, suc, ◌+◌, ◌*◌, ◌≤◌, ◌<◌, Bool, false, [], ◌∷◌, ◌++◌, some, ◌≡◌, refl, sym, ap, ◌∙◌,
  arith, Option-cases, inl, inr, length, length-append, All-append, append_assoc,
}
use pg_prism.Text.{Str}
use pg_prism.Net.{
  IpAddr, IsAddressText, Parser, ◌>>=◌, to_digit, Digits, read_digits, read_number, read_char,
  separated, read_octet, read_ipv4_addr,
}

-- `s` is at most `n` characters of a literal, and then `rest`.
pub record Consumed (n : ℕ) (s rest : Str) : Type 0 where
  pub used : Str
  pub splits : s ≡ used ++ rest
  pub chars : IsAddressText used
  pub short : length used ≤ n

pub Consumed-nothing : (n : ℕ) (s : Str) → Consumed n s s
Consumed-nothing n s = record { used = []; splits = refl; chars = tt; short = omega arith }

pub Consumed-trans :
    {n m : ℕ} {s mid rest : Str} → Consumed n s mid → Consumed m mid rest → Consumed (n + m) s rest
Consumed-trans {rest} a b = record {
  used = a.used ++ b.used;
  splits = a.splits ∙ ap (◌++◌ a.used) b.splits ∙ sym (append_assoc a.used b.used rest);
  chars = All-append _ a.used b.used a.chars b.chars;
  short = omega (arith, length-append a.used b.used, a.short, b.short);
}

pub Consumed-le : {n m : ℕ} {s rest : Str} → n ≤ m → Consumed n s rest → Consumed m s rest
Consumed-le h a = record {
  used = a.used;
  splits = a.splits;
  chars = a.chars;
  short = omega (arith, a.short);
}

pub >>=-eq-some :
    {A B : Type 0} (p : Parser A) (f : A → Parser B) (s : Str) {b : B} {rest : Str}
    → (p >>= f) s ≡ some (b, rest)
    → (a : A) × (mid : Str) × (p s ≡ some (a, mid)) × (f a mid ≡ some (b, rest))
>>=-eq-some p f s h = elim (Option-cases (p s)) [
  | inl e ↦ absurd (cc (rw e at h))
  | inr ((a, mid), e) ↦ (a, mid, e, rw e at h)
]

to_digit-char : (radix c d : ℕ) → to_digit radix c ≡ some d → (0x2E ≤ c) × (c < 0x67)
unfolding to_digit
to_digit-char radix c d h = ground arith

-- The run of digits, with its length in the count.
record Run (count : ℕ) (s : Str) (r : Digits) : Type 0 where
  digits : Str
  pub splits : s ≡ digits ++ r.rest
  pub chars : IsAddressText digits
  counted : r.count ≡ count + length digits

Run-nothing :
    (value count : ℕ) (s : Str) → Run count s (record { value = value; count = count; rest = s })
Run-nothing value count s = record { digits = []; splits = refl; chars = tt; counted = omega arith }

read_digits-Run : (radix value count : ℕ) (s : Str) → Run count s (read_digits radix value count s)
unfolding read_digits
read_digits-Run radix value count [] = Run-nothing value count []
read_digits-Run radix value count (c ∷ s) = elim (Option-cases (to_digit radix c)) [
  | inl e ↦ rw e (Run-nothing value count (c ∷ s))
  | inr (d, e) ↦
      let r = read_digits-Run radix (value * radix + d) (count + 1) s in
      rw e (record {
        digits = c ∷ r.digits;
        splits = ap (◌∷◌ c) r.splits;
        chars = (to_digit-char radix c d e, r.chars);
        counted = omega (arith, r.counted);
      })
]

pub read_number-Consumed :
    (radix max_digits : ℕ) (zeros : Bool) (bound : ℕ) (s : Str) {v : ℕ} {rest : Str}
    → read_number radix max_digits zeros bound s ≡ some (v, rest)
    → Consumed max_digits s rest
unfolding read_number
read_number-Consumed radix max_digits zeros bound s {v} {rest} h =
    let run = read_digits-Run radix 0 0 s in
    let fits : (read_digits radix 0 0 s).count ≤ max_digits = ground arith in
    let same : (read_digits radix 0 0 s).rest ≡ rest = ground arith in
    record {
      used = run.digits;
      splits = run.splits ∙ ap (◌++◌ run.digits) same;
      chars = run.chars;
      short = omega (arith, run.counted, fits);
    }

pub read_char-Consumed :
    (wanted : ℕ) (s : Str) {u : Unit {0}} {rest : Str}
    → (0x2E ≤ wanted) × (wanted < 0x67)
    → read_char wanted s ≡ some (u, rest)
    → Consumed 1 s rest
unfolding read_char
read_char-Consumed wanted [] w h = absurd (cc h)
read_char-Consumed wanted (c ∷ s) {u} {rest} w h =
    let same : s ≡ rest = ground arith in
    let is : c ≡ wanted = ground arith in
    record { used = c ∷ []; splits = ap (◌∷◌ c) same; chars = (rw is w, tt); short = omega arith }

pub separated-Consumed :
    {A : Type 0} (sep index n : ℕ) (p : Parser A)
    → (0x2E ≤ sep) × (sep < 0x67)
    → ((s : Str) (a : A) (rest : Str) → p s ≡ some (a, rest) → Consumed n s rest)
    → (s : Str) {a : A} {rest : Str} → separated sep index p s ≡ some (a, rest)
    → Consumed (n + 1) s rest
separated-Consumed sep zero n p w each s {a} {rest} h = Consumed-le (omega arith) (each s a rest h)
separated-Consumed sep (suc index) n p w each s {a} {rest} h =
    let (u, mid, first, second) = >>=-eq-some (read_char sep) (λ _. p) s h in
    Consumed-le (omega arith)
      (Consumed-trans (read_char-Consumed sep s w first) (each mid a rest second))

pub read_octet-Consumed :
    (s : Str) (a : ℕ) (rest : Str) → read_octet s ≡ some (a, rest) → Consumed 3 s rest
read_octet-Consumed s a rest = read_number-Consumed 10 3 false 256 s

dotted-Consumed :
    (index : ℕ) (s : Str) {a : ℕ} {rest : Str}
    → separated b'.' index read_octet s ≡ some (a, rest)
    → Consumed 4 s rest
dotted-Consumed index s h =
    Consumed-le (omega arith)
      (separated-Consumed b'.' index 3 read_octet (omega arith) read_octet-Consumed s h)

pub read_ipv4_addr-Consumed :
    (s : Str) (a : IpAddr) (rest : Str) → read_ipv4_addr s ≡ some (a, rest) → Consumed 15 s rest
unfolding read_ipv4_addr
read_ipv4_addr-Consumed s addr rest h =
    let (a, s1, ea, h1) = >>=-eq-some read_octet _ s h in
    let (b, s2, eb, h2) = >>=-eq-some (separated b'.' 1 read_octet) _ s1 h1 in
    let (c, s3, ec, h3) = >>=-eq-some (separated b'.' 2 read_octet) _ s2 h2 in
    let (d, s4, ed, h4) = >>=-eq-some (separated b'.' 3 read_octet) _ s3 h3 in
    let same : s4 ≡ rest = ground arith in
    Consumed-le (omega arith) (
      Consumed-trans (read_octet-Consumed s a s1 ea) (
        Consumed-trans (dotted-Consumed 1 s1 eb)
          (Consumed-trans (dotted-Consumed 2 s2 ec) (rw same at (dotted-Consumed 3 s3 ed)))))
