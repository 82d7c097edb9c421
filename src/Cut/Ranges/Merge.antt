-- ===== src/Cut/Ranges/Merge.antt =====
-- `mergeRanges` of internal/applets/shellutils/cut/cut.go: selected positions and the order of ranges.
use mimixbox.Prelude.{
  ℕ, ◌+◌, ◌≤◌, ◌≡◌, refl, ◌∙◌, ap, ◌⊎◌, inl, inr, Bool, Bool-cases, true, false, ◌||◌, List, [],
  ◌∷◌, arith, ltb, All,
}
use mimixbox.Cut.Ranges.{
  Rng, is_open, sort_ranges, merge_from, merge_sorted, merge_ranges, selected, reaches,
}
use mimixbox.Cut.Ranges.Covered.{
  IsRange, covers, covered, covered-sort_ranges, From, Ascending, From-weaken,
  sort_ranges-Ascending, selected-covered, All-sort_ranges,
}

reaches-le : (hi lo : ℕ) → reaches hi lo ≡ true → lo ≤ hi + 1
unfolding reaches
reaches-le hi lo h = ground arith

-- A range that another holds adds nothing to it.
absorb :
    (last r : Rng) (rest : Bool) (p : ℕ)
    → (covers r p ≡ true → covers last p ≡ true)
    → (covers last p || rest) ≡ (covers last p || (covers r p || rest))
absorb last r rest p h = ground (arith, h)

regroup : (both a b rest : Bool) → both ≡ (a || b) → (both || rest) ≡ (a || (b || rest))
regroup both a b rest h = ground arith

-- One round of the merging loop, branch by branch.
module _ (last r : Rng) (ranges : List Rng) where
  merge_open : is_open last ≡ true → merge_from last (r ∷ ranges) ≡ merge_from last ranges
  unfolding merge_from
  merge_open o = ground arith

  merge_apart :
      is_open last ≡ false
      → reaches last.hi r.lo ≡ false
      → merge_from last (r ∷ ranges) ≡ last ∷ merge_from r ranges
  unfolding merge_from
  merge_apart c n = rw (merge_from, c, n)

  module _ (c : is_open last ≡ false) (n : reaches last.hi r.lo ≡ true) where
    merge_opens :
        is_open r ≡ true → merge_from last (r ∷ ranges) ≡ merge_from (record last { hi = 0 }) ranges
    unfolding merge_from
    merge_opens o = rw (merge_from, c, n, o)

    merge_extends :
        is_open r ≡ false
        → ltb last.hi r.hi ≡ true
        → merge_from last (r ∷ ranges) ≡ merge_from (record last { hi = r.hi }) ranges
    unfolding merge_from
    merge_extends o l = rw (merge_from, c, n, o, l)

    merge_inside :
        is_open r ≡ false
        → ltb last.hi r.hi ≡ false
        → merge_from last (r ∷ ranges) ≡ merge_from last ranges
    unfolding merge_from
    merge_inside o l = rw (merge_from, c, n, o, l)

merge_from-covered :
    (last : Rng) (ranges : List Rng) (p : ℕ)
    → IsRange last
    → All IsRange ranges
    → Ascending (last ∷ ranges)
    → covered (merge_from last ranges) p ≡ (covers last p || covered ranges p)
unfolding covered
merge_from-covered last [] p v vs a = unfold merge_from in refl
merge_from-covered last (r ∷ ranges) p v vs a = elim (Bool-cases (is_open last)) [
  | inl o ↦
      at p (merge_open last r ranges o)
      ∙ merge_from-covered last ranges p v vs.1 (a.0.1, a.1.1)
      ∙ absorb last r (covered ranges p) p (ground arith)
  | inr c ↦ elim (Bool-cases (reaches last.hi r.lo)) [
    | inr apart ↦
        at p (merge_apart last r ranges c apart)
        ∙ ap (λ b. covers last p || b) (merge_from-covered r ranges p vs.0 vs.1 a.1)
    | inl near ↦
        let close = reaches-le last.hi r.lo near in
        elim (Bool-cases (is_open r)) [
          | inl o ↦
              at p (merge_opens last r ranges c near o)
              ∙ merge_from-covered (record last { hi = 0 }) ranges p (v.0, inl refl) vs.1
                  (a.0.1, a.1.1)
              ∙ regroup (covers (record last { hi = 0 }) p) (covers last p) (covers r p)
                  (covered ranges p) (ground arith)
          | inr b ↦ elim (Bool-cases (ltb last.hi r.hi)) [
            | inl longer ↦
                at p (merge_extends last r ranges c near b longer)
                ∙ merge_from-covered (record last { hi = r.hi }) ranges p (v.0, ground arith) vs.1
                    (a.0.1, a.1.1)
                ∙ regroup (covers (record last { hi = r.hi }) p) (covers last p) (covers r p)
                    (covered ranges p) (ground arith)
            | inr inside ↦
                at p (merge_inside last r ranges c near b inside)
                ∙ merge_from-covered last ranges p v vs.1 (a.0.1, a.1.1)
                ∙ absorb last r (covered ranges p) p (ground arith)
          ]
        ]
  ]
]
  where
    at : (p : ℕ) {xs ys : List Rng} → xs ≡ ys → covered xs p ≡ covered ys p
    at p e = ap (λ l. covered l p) e

-- A property of the ranges that are left and the merged ones, kept by each round.
module _ (P : Rng → List Rng → List Rng → Type 0) (stop : (last : Rng) → P last [] (last ∷ []))
    (same : (last next r : Rng) (ranges out : List Rng)
      → last.lo ≡ next.lo
      → (next.hi ≡ last.hi) ⊎ (next.hi ≡ 0) ⊎ (next.hi ≡ r.hi)
      → P next ranges out
      → P last (r ∷ ranges) out)
    (apart : (last r : Rng) (ranges out : List Rng)
      → is_open last ≡ false
      → reaches last.hi r.lo ≡ false
      → P r ranges out
      → P last (r ∷ ranges) (last ∷ out)) where
  pub merge_from_rule : (last : Rng) (ranges : List Rng) → P last ranges (merge_from last ranges)
  merge_from_rule last [] = unfold merge_from in stop last
  merge_from_rule last (r ∷ ranges) = elim (Bool-cases (is_open last)) [
    | inl o ↦
        rw (merge_open last r ranges o)
          (same last last r ranges _ refl (inl refl) (merge_from_rule last ranges))
    | inr c ↦ elim (Bool-cases (reaches last.hi r.lo)) [
      | inr a ↦
          rw (merge_apart last r ranges c a) (apart last r ranges _ c a (merge_from_rule r ranges))
      | inl n ↦ elim (Bool-cases (is_open r)) [
        | inl o ↦ rw (merge_opens last r ranges c n o) (
            same last (record last { hi = 0 }) r ranges _ refl (inr (inl refl))
              (merge_from_rule (record last { hi = 0 }) ranges))
        | inr b ↦ elim (Bool-cases (ltb last.hi r.hi)) [
          | inl longer ↦ rw (merge_extends last r ranges c n b longer) (
              same last (record last { hi = r.hi }) r ranges _ refl (inr (inr refl))
                (merge_from_rule (record last { hi = r.hi }) ranges))
          | inr inside ↦
              rw (merge_inside last r ranges c n b inside)
                (same last last r ranges _ refl (inl refl) (merge_from_rule last ranges))
        ]
      ]
    ]
  ]

merge_from-Ascending :
    (last : Rng) (ranges : List Rng)
    → Ascending (last ∷ ranges)
    → From last.lo (merge_from last ranges) × Ascending (merge_from last ranges)
merge_from-Ascending =
    merge_from_rule
      (λ last ranges out. Ascending (last ∷ ranges) → From last.lo out × Ascending out)
      (λ last a. ((omega arith, tt), (tt, tt)))
      (λ last next r ranges out e _ ih a.
        let (from, ascending) = ih (rw (← e) (a.0.1, a.1.1)) in (rw e from, ascending))
      (λ last r ranges out c n ih a.
        let (from, ascending) = ih a.1 in
        let behind = From-weaken last.lo r.lo out a.0.0 from in
        ((omega arith, behind), (behind, ascending)))

selected-merge_sorted :
    (ranges : List Rng) (p : ℕ)
    → All IsRange ranges
    → Ascending ranges
    → selected (merge_sorted ranges) p ≡ covered ranges p
unfolding merge_sorted merge_from covered
selected-merge_sorted [] p h a = unfold merge_sorted selected covered in refl
selected-merge_sorted (r ∷ ranges) p h a =
    selected-covered (merge_from r ranges) p (merge_from-Ascending r ranges a).1
    ∙ merge_from-covered r ranges p h.0 h.1 a

-- Sorting and merging ranges that start at 1 or later and do not decrease change no selection: a
-- position is selected afterwards exactly if one of the ranges covers it.
pub selected-merge_ranges :
    (ranges : List Rng) (p : ℕ)
    → All IsRange ranges
    → selected (merge_ranges ranges) p ≡ covered ranges p
unfolding merge_ranges
selected-merge_ranges ranges p h =
    selected-merge_sorted (sort_ranges ranges) p (All-sort_ranges IsRange ranges h)
      (sort_ranges-Ascending ranges)
    ∙ covered-sort_ranges ranges p
