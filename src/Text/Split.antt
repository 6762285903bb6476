-- ===== src/Text/Split.antt =====
-- `split` and `split_once`.
use pg_prism.Prelude.{
  ℕ, List, [], ◌∷◌, ◌++◌, Option, none, some, ◌≡◌, ◌≢◌, refl, ap, arith, ◌==◌, if◌then◌else◌, All,
  inl, inr, Bool-cases,
}

-- One element further in front of the first piece.
abbrev pub in_front : ℕ → List (List ℕ) → List (List ℕ)
in_front c [] = (c ∷ []) ∷ []
in_front c (p ∷ ps) = (c ∷ p) ∷ ps

-- `s.split(sep)`: the pieces between the separators, one at least.
unfoldable pub split : ℕ → List ℕ → List (List ℕ)
split sep [] = [] ∷ []
split sep (c ∷ s) = let rest = split sep s in if c == sep then [] ∷ rest else in_front c rest

abbrev pub in_front_once : ℕ → Option (List ℕ × List ℕ) → Option (List ℕ × List ℕ)
in_front_once c none = none
in_front_once c (some (a, b)) = some (c ∷ a, b)

-- `s.split_once(sep)`: the texts before and behind the first separator.
unfoldable pub split_once : ℕ → List ℕ → Option (List ℕ × List ℕ)
split_once sep [] = none
split_once sep (c ∷ s) =
    let rest = split_once sep s in if c == sep then some ([], s) else in_front_once c rest

-- A piece with no separator in it, then a separator: the piece comes out, and the rest is split.
pub split-append :
    (sep : ℕ) (p rest : List ℕ)
    → All (λ c. c ≢ sep) p
    → split sep (p ++ (sep ∷ rest)) ≡ p ∷ split sep rest
unfolding split
split-append sep [] rest h = ground arith
split-append sep (c ∷ p) rest h = ground (arith, split-append sep p rest h.1)

-- A last piece, with no separator in it.
pub split_last : (sep : ℕ) (p : List ℕ) → All (λ c. c ≢ sep) p → split sep p ≡ p ∷ []
unfolding split
split_last sep [] h = refl
split_last sep (c ∷ p) h = ground (arith, split_last sep p h.1)

pub split-ne-nil : (sep : ℕ) (s : List ℕ) → split sep s ≢ []
unfolding split
split-ne-nil sep [] = ground arith
split-ne-nil sep (c ∷ s) = ground (arith, split-ne-nil sep s)

in_front-All :
    (sep c : ℕ) (ps : List (List ℕ))
    → c ≢ sep
    → All (All (λ d. d ≢ sep)) ps
    → All (All (λ d. d ≢ sep)) (in_front c ps)
in_front-All sep c [] h a = ((h, tt), tt)
in_front-All sep c (p ∷ ps) h a = ((h, a.0), a.1)

-- No piece holds the separator.
pub split-All : (sep : ℕ) (s : List ℕ) → All (All (λ c. c ≢ sep)) (split sep s)
unfolding split
split-All sep [] = (tt, tt)
split-All sep (c ∷ s) = elim (Bool-cases (c == sep)) [
  | inl e ↦ rw e (tt, split-All sep s)
  | inr e ↦ rw e (in_front-All sep c (split sep s) (ground arith) (split-All sep s))
]

-- The text before the first separator and the text behind it.
pub split_once-append :
    (sep : ℕ) (a b : List ℕ) → All (λ c. c ≢ sep) a → split_once sep (a ++ (sep ∷ b)) ≡ some (a, b)
unfolding split_once
split_once-append sep [] b h = ground arith
split_once-append sep (c ∷ a) b h = ground (arith, split_once-append sep a b h.1)

in_front_once-eq-some :
    (c : ℕ) (o : Option (List ℕ × List ℕ)) {a b : List ℕ}
    → in_front_once c o ≡ some (a, b)
    → (a' : List ℕ) × (o ≡ some (a', b)) × (a ≡ c ∷ a')
in_front_once-eq-some c none h = absurd (cc h)
in_front_once-eq-some c (some (a', b')) h = (a', ground arith, ground arith)

-- What `split_once` gives is a split at the first separator.
pub split_once-eq-some :
    (sep : ℕ) (s a b : List ℕ)
    → split_once sep s ≡ some (a, b)
    → (s ≡ a ++ (sep ∷ b)) × All (λ c. c ≢ sep) a
unfolding split_once
split_once-eq-some sep [] a b h = absurd (cc h)
split_once-eq-some sep (c ∷ s) a b h = elim (Bool-cases (c == sep)) [
  | inl e ↦
      let h' : ◌≡◌ {A = Option (List ℕ × List ℕ)} (some ([], s)) (some (a, b)) = rw e at h in
      let here : a ≡ [] = ground arith in rw here (ground arith, tt)
  | inr e ↦
      let (a', h', front) = in_front_once-eq-some c (split_once sep s) (rw e at h) in
      let (splits, free) = split_once-eq-some sep s a' b h' in
      rw front (ap (◌∷◌ c) splits, (ground arith, free))
]
