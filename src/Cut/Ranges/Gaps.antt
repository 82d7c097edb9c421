-- ===== src/Cut/Ranges/Gaps.antt =====
-- The gaps between the ranges that `mergeRanges` of internal/applets/shellutils/cut/cut.go leaves.
use mimixbox.Prelude.{◌+◌, ◌<◌, ◌≡◌, refl, ◌∙◌, ◌⊎◌, inl, inr, false, List, [], ◌∷◌, arith, All}
use mimixbox.Golang.Int.{max_int}
use mimixbox.Cut.Ranges.{Rng, is_open, sort_ranges, merge_from, merge_sorted, merge_ranges, reaches}
use mimixbox.Cut.Ranges.Covered.{All-sort_ranges}
use mimixbox.Cut.Ranges.Merge.{merge_from_rule}

-- Only the last range is open, and a gap lies between neighbours, unless the first of them ends at
-- the largest `int`.
abbrev pub Separate : List Rng → Type 0
Separate [] = Unit
Separate (r ∷ []) = Unit
Separate (r ∷ s ∷ ranges) =
    (0 < r.hi) × ((r.hi + 1 < s.lo) ⊎ (r.hi ≡ max_int)) × Separate (s ∷ ranges)

-- The list begins where `r` does.
abbrev HeadAt : Rng → List Rng → Type 0
HeadAt r [] = ⊥
HeadAt r (h ∷ _) = r.lo ≡ h.lo

Separate-cons :
    (last r : Rng) (ranges out : List Rng)
    → is_open last ≡ false
    → reaches last.hi r.lo ≡ false
    → HeadAt r out × Separate out
    → HeadAt last (last ∷ out) × Separate (last ∷ out)
Separate-cons last r ranges [] c a h = absurd h.0
Separate-cons last r ranges (s ∷ out) c a h = (refl, (ground arith, gap last r s a h.0, h.1))
  where
    gap :
        (last r s : Rng)
        → reaches last.hi r.lo ≡ false
        → r.lo ≡ s.lo
        → (last.hi + 1 < s.lo) ⊎ (last.hi ≡ max_int)
    gap last r s a e = unfold reaches in ground arith

HeadAt-same :
    (last next r : Rng) (ranges out : List Rng)
    → last.lo ≡ next.lo
    → (next.hi ≡ last.hi) ⊎ (next.hi ≡ 0) ⊎ (next.hi ≡ r.hi)
    → HeadAt next out × Separate out
    → HeadAt last out × Separate out
HeadAt-same last next r ranges [] e _ h = absurd h.0
HeadAt-same last next r ranges (s ∷ out) e _ h = (e ∙ h.0, h.1)

merge_from-Separate :
    (last : Rng) (ranges : List Rng)
    → HeadAt last (merge_from last ranges) × Separate (merge_from last ranges)
merge_from-Separate =
    merge_from_rule (λ last ranges out. HeadAt last out × Separate out) (λ last. (refl, tt))
      HeadAt-same Separate-cons

-- The merged ranges are in order, only the last is open, and between neighbours lies a gap, unless
-- the first of the two ends at the largest `int`.
pub merge_ranges-Separate : (ranges : List Rng) → Separate (merge_ranges ranges)
unfolding merge_ranges
merge_ranges-Separate ranges = go (sort_ranges ranges)
  where
    go : (rs : List Rng) → Separate (merge_sorted rs)
    go [] = unfold merge_sorted in tt
    go (r ∷ rs) = unfold merge_sorted in (merge_from-Separate r rs).1

-- The range is open or ends before the largest `int`.
abbrev pub EndsBelow : Rng → Type 0
EndsBelow r = r.hi < max_int

-- Only the last range is open, and a gap lies between neighbours.
abbrev pub Apart : List Rng → Type 0
Apart [] = Unit
Apart (r ∷ []) = Unit
Apart (r ∷ s ∷ ranges) = (0 < r.hi) × (r.hi + 1 < s.lo) × Apart (s ∷ ranges)

merge_from-EndsBelow :
    (last : Rng) (ranges : List Rng)
    → EndsBelow last
    → All EndsBelow ranges
    → All EndsBelow (merge_from last ranges)
merge_from-EndsBelow =
    merge_from_rule (λ last ranges out. EndsBelow last → All EndsBelow ranges → All EndsBelow out)
      (λ last h hs. (h, tt))
      (λ last next r ranges out _ end ih h hs. let low = hs.0 in ih (ground arith) hs.1)
      (λ last r ranges out c n ih h hs. (h, ih hs.0 hs.1))

merge_sorted-EndsBelow :
    (ranges : List Rng) → All EndsBelow ranges → All EndsBelow (merge_sorted ranges)
unfolding merge_sorted
merge_sorted-EndsBelow [] h = tt
merge_sorted-EndsBelow (r ∷ ranges) h = merge_from-EndsBelow r ranges h.0 h.1

Apart-Separate : (ranges : List Rng) → All EndsBelow ranges → Separate ranges → Apart ranges
Apart-Separate [] h s = tt
Apart-Separate (r ∷ []) h s = tt
Apart-Separate (r ∷ t ∷ ranges) h s = (s.0, gap s.1, Apart-Separate (t ∷ ranges) h.1 s.2)
  where
    gap : (r.hi + 1 < t.lo) ⊎ (r.hi ≡ max_int) → r.hi + 1 < t.lo
    gap (inl g) = g
    gap (inr e) = absurd (omega (arith, h.0, e))

-- If none of the ranges ends at the largest `int`, the merged ranges are in order with a gap between
-- neighbours, and only the last is open.
pub merge_ranges-Apart : (ranges : List Rng) → All EndsBelow ranges → Apart (merge_ranges ranges)
unfolding merge_ranges
merge_ranges-Apart ranges h =
    Apart-Separate (merge_ranges ranges)
      (merge_sorted-EndsBelow (sort_ranges ranges) (All-sort_ranges EndsBelow ranges h))
      (merge_ranges-Separate ranges)
