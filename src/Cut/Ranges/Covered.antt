-- ===== src/Cut/Ranges/Covered.antt =====
-- The positions that ranges cover, in any order and sorted.
use mimixbox.Prelude.{
  ℕ, ◌≤◌, ◌<◌, ◌≡◌, refl, ◌∙◌, ap, ◌⊎◌, inl, inr, Bool, Bool-cases, true, false, ◌&&◌, ◌||◌, List,
  [], ◌∷◌, arith, ltb, leb, All,
}
use mimixbox.Cut.Ranges.{Rng, is_open, less, insert, sort_ranges, selected}

-- What `parseRange` gives: positions from 1, and no end before the start.
abbrev pub IsRange : Rng → Type 0
IsRange r = (1 ≤ r.lo) × ((r.hi ≡ 0) ⊎ (r.lo ≤ r.hi))

-- A position of the range, and of some range of a list in any order.
abbrev pub covers : Rng → ℕ → Bool
covers r p = leb r.lo p && (is_open r || leb p r.hi)

unfoldable pub covered : List Rng → ℕ → Bool
covered [] p = false
covered (r ∷ ranges) p = covers r p || covered ranges p

covered-insert :
    (r : Rng) (ranges : List Rng) (p : ℕ)
    → covered (insert r ranges) p ≡ (covers r p || covered ranges p)
unfolding covered insert
covered-insert r [] p = refl
covered-insert r (s ∷ ranges) p = ground (arith, covered-insert r ranges p)

pub covered-sort_ranges :
    (ranges : List Rng) (p : ℕ) → covered (sort_ranges ranges) p ≡ covered ranges p
unfolding covered sort_ranges
covered-sort_ranges [] p = refl
covered-sort_ranges (r ∷ ranges) p =
    covered-insert r (sort_ranges ranges) p
    ∙ ap (λ b. covers r p || b) (covered-sort_ranges ranges p)

-- Every range starts at `n` or later.
abbrev pub From : ℕ → List Rng → Type 0
From n = All (λ r. n ≤ r.lo)

abbrev pub Ascending : List Rng → Type 0
Ascending [] = Unit
Ascending (r ∷ ranges) = From r.lo ranges × Ascending ranges

pub From-weaken : (m n : ℕ) (ranges : List Rng) → m ≤ n → From n ranges → From m ranges
From-weaken m n [] h f = tt
From-weaken m n (r ∷ ranges) h f = (omega arith, From-weaken m n ranges h f.1)

From-insert :
    (n : ℕ) (r : Rng) (ranges : List Rng) → n ≤ r.lo → From n ranges → From n (insert r ranges)
unfolding insert
From-insert n r [] h f = (h, tt)
From-insert n r (s ∷ ranges) h f = elim (Bool-cases (less s r)) [
  | inl before ↦ rw before (f.0, From-insert n r ranges h f.1)
  | inr after ↦ rw after (h, f)
]

insert-Ascending : (r : Rng) (ranges : List Rng) → Ascending ranges → Ascending (insert r ranges)
unfolding insert
insert-Ascending r [] a = (tt, tt)
insert-Ascending r (s ∷ ranges) a = elim (Bool-cases (less s r)) [
  | inl before ↦
      rw before (From-insert s.lo r ranges (less-le s r before) a.0, insert-Ascending r ranges a.1)
  | inr after ↦
      let le = not-less-le s r after in rw after ((le, From-weaken r.lo s.lo ranges le a.0), a)
]
  where
    less-le : (s r : Rng) → less s r ≡ true → s.lo ≤ r.lo
    less-le s r h = unfold less in ground arith

    not-less-le : (s r : Rng) → less s r ≡ false → r.lo ≤ s.lo
    not-less-le s r h = unfold less in ground arith

pub sort_ranges-Ascending : (ranges : List Rng) → Ascending (sort_ranges ranges)
unfolding sort_ranges
sort_ranges-Ascending [] = tt
sort_ranges-Ascending (r ∷ ranges) =
    insert-Ascending r (sort_ranges ranges) (sort_ranges-Ascending ranges)

-- In a list in order no range covers a position before the first.
covered-From : (n p : ℕ) (ranges : List Rng) → From n ranges → p < n → covered ranges p ≡ false
unfolding covered
covered-From n p [] f h = refl
covered-From n p (r ∷ ranges) f h = ground (arith, covered-From n p ranges f.1 h)

pub selected-covered :
    (ranges : List Rng) (p : ℕ) → Ascending ranges → selected ranges p ≡ covered ranges p
unfolding selected covered
selected-covered [] p a = refl
selected-covered (r ∷ ranges) p a = elim (Bool-cases (ltb p r.lo)) [
  | inl before ↦ rw before (ground (arith, covered-From r.lo p ranges a.0))
  | inr after ↦ rw after (ground (arith, selected-covered ranges p a.1))
]

module _ (P : Rng → Type 0) where
  All-insert : (r : Rng) (ranges : List Rng) → P r → All P ranges → All P (insert r ranges)
  unfolding insert
  All-insert r [] h k = (h, tt)
  All-insert r (s ∷ ranges) h k = elim (Bool-cases (less s r)) [
    | inl before ↦ rw before (k.0, All-insert r ranges h k.1)
    | inr after ↦ rw after (h, k)
  ]

  pub All-sort_ranges : (ranges : List Rng) → All P ranges → All P (sort_ranges ranges)
  unfolding sort_ranges
  All-sort_ranges [] h = tt
  All-sort_ranges (r ∷ ranges) h =
      All-insert r (sort_ranges ranges) h.0 (All-sort_ranges ranges h.1)
