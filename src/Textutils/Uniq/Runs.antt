-- ===== src/Textutils/Uniq/Runs.antt =====
-- The groups of `makeGroups` of internal/applets/shellutils/uniq/uniq.go as the runs of the lines.
use mimixbox.Prelude.{
  ℕ, zero, suc, ◌+◌, ◌≤◌, ◌≡◌, ◌≢◌, refl, ◌∙◌, ap, subst, Bool, Bool-cases, inl, inr, true, false,
  List, [], ◌∷◌, ◌++◌, arith, Bytes, bytes_eq, bytes_eq→eq, bytes_eq_refl,
}
use mimixbox.Textutils.Uniq.{Group, equal, groups_from, make_groups}

unfoldable pub repeated_line : ℕ → Bytes → List Bytes
repeated_line zero l = []
repeated_line (suc n) l = l ∷ repeated_line n l

-- The lines that the groups stand for.
unfoldable pub expanded : List Group → List Bytes
unfolding repeated_line
expanded [] = []
expanded (g ∷ groups) = repeated_line g.count g.line ++ expanded groups

-- Groups are not empty, and neighbours differ.
abbrev pub AreRuns : List Group → Type 0
AreRuns [] = Unit
AreRuns (g ∷ []) = 1 ≤ g.count
AreRuns (g ∷ h ∷ groups) = (1 ≤ g.count) × ((g.line ≢ h.line) × AreRuns (h ∷ groups))

repeated_line_moved :
    (n : ℕ) (l : Bytes) (rest : List Bytes)
    → repeated_line (suc n) l ++ rest ≡ repeated_line n l ++ l ∷ rest
unfolding repeated_line
repeated_line_moved zero l rest = refl
repeated_line_moved (suc n) l rest = ap (λ r. l ∷ r) (repeated_line_moved n l rest)

repeated_line-more :
    (n : ℕ) (l : Bytes) (rest : List Bytes)
    → repeated_line (n + 1) l ++ rest ≡ repeated_line n l ++ l ∷ rest
repeated_line-more n l rest =
    let e : n + 1 ≡ suc n = omega arith in rw e (repeated_line_moved n l rest)

bytes_ne : (s t : Bytes) → bytes_eq s t ≡ false → s ≢ t
bytes_ne s t h e =
    let same = bytes_eq_refl t in
    let other : bytes_eq t t ≡ false = subst (λ r. bytes_eq r t ≡ false) e h in absurd cc

module _ (equal_fold : Bytes → Bytes → Bool) where
  groups_from_join :
      (g : Group) (l : Bytes) (lines : List Bytes)
      → bytes_eq g.line l ≡ true
      → groups_from equal_fold false g (l ∷ lines)
        ≡ groups_from equal_fold false (record { line = g.line; count = g.count + 1 }) lines
  unfolding groups_from equal
  groups_from_join g l lines h = rw (h, groups_from) refl

  groups_from_begin :
      (g : Group) (l : Bytes) (lines : List Bytes)
      → bytes_eq g.line l ≡ false
      → groups_from equal_fold false g (l ∷ lines)
        ≡ g ∷ groups_from equal_fold false (record { line = l; count = 1 }) lines
  unfolding groups_from equal
  groups_from_begin g l lines h = rw (h, groups_from) refl

  groups_from-expanded :
      (lines : List Bytes) (g : Group)
      → expanded (groups_from equal_fold false g lines) ≡ repeated_line g.count g.line ++ lines
  unfolding expanded repeated_line
  groups_from-expanded [] g = unfold groups_from in refl
  groups_from-expanded (l ∷ lines) g = elim (Bool-cases (bytes_eq g.line l)) [
    | inl same ↦ rw (groups_from_join g l lines same) (
        groups_from-expanded lines (record { line = g.line; count = g.count + 1 })
        ∙ repeated_line-more g.count g.line lines
        ∙ ap (λ x. repeated_line g.count g.line ++ x ∷ lines) (bytes_eq→eq g.line l same))
    | inr other ↦ rw (groups_from_begin g l lines other) (
        ap (λ r. repeated_line g.count g.line ++ r)
          (groups_from-expanded lines (record { line = l; count = 1 })))
  ]

  groups_from-AreRuns :
      (lines : List Bytes) (g : Group)
      → 1 ≤ g.count
      → AreRuns (groups_from equal_fold false g lines)
        × ((h : Group)
            → 1 ≤ h.count
            → h.line ≢ g.line
            → AreRuns (h ∷ groups_from equal_fold false g lines))
  groups_from-AreRuns [] g k = unfold groups_from in (k, λ h l n. (l, (n, k)))
  groups_from-AreRuns (l ∷ lines) g k = elim (Bool-cases (bytes_eq g.line l)) [
    | inl same ↦
        rw (groups_from_join g l lines same)
          (groups_from-AreRuns lines (record { line = g.line; count = g.count + 1 }) (omega arith))
    | inr other ↦
        let later = groups_from-AreRuns lines (record { line = l; count = 1 }) (omega arith) in
        let whole = later.1 g k (bytes_ne g.line l other) in
        rw (groups_from_begin g l lines other) (whole, λ h m n. (m, (n, whole)))
  ]

  -- With case respected, the groups are the runs of equal lines: written out as often as they count
  -- they are the input, none is empty, and neighbours differ.
  pub make_groups-AreRuns :
      (lines : List Bytes)
      → (expanded (make_groups equal_fold lines false) ≡ lines)
        × AreRuns (make_groups equal_fold lines false)
  unfolding make_groups
  make_groups-AreRuns [] = (unfold expanded in refl, tt)
  make_groups-AreRuns (l ∷ lines) = (
    groups_from-expanded lines (record { line = l; count = 1 }) ∙ (unfold repeated_line in refl),
    (groups_from-AreRuns lines (record { line = l; count = 1 }) (omega arith)).0,
  )
