-- ===== src/Diff/Lines/Longest/Fewest.antt =====
-- The edit script of `diffLines` of internal/applets/editors/diff/diff.go among all edit scripts.
use mimixbox.Prelude.{
  ℕ, suc, ◌+◌, ◌≤◌, ◌<◌, ◌≡◌, refl, ◌∙◌, sym, ap₂, Bool, Bool-cases, inl, inr, false, List, [], ◌∷◌,
  arith, leb, leb→le, if◌then◌else◌, Bytes, length, drop,
}
use mimixbox.Prelude.Indices.{drop-next, length-drop_cons, drop-get_elem?}
use mimixbox.Diff.Lines.{Op, is_equal, walk, cell, script, lcs_table, diff_lines, line_eq}
use mimixbox.Diff.Lines.Script.{
  Script, ended, keep, remove, add, walk_nil, walk_old, walk_new, walk_keep, walk_remove, walk_add,
  diff_lines-Script,
}
use mimixbox.Diff.Lines.Longest.{longest, longest_hit, longest_miss, longest_nil, cell-lcs_table}

unfoldable pub kept_count : List Op → ℕ
unfolding is_equal
kept_count [] = 0
kept_count (o ∷ ops) = if is_equal o.kind then suc (kept_count ops) else kept_count ops

-- The deletions and insertions.
unfoldable pub change_count : List Op → ℕ
unfolding is_equal
change_count [] = 0
change_count (o ∷ ops) = if is_equal o.kind then change_count ops else suc (change_count ops)

module _ (eq : Bytes → Bytes → Bool) (x : Bytes) (a : List Bytes) (y : Bytes) (b : List Bytes) where
  -- What one line more does, from what it does to shorter files.
  old_grows :
      longest eq a (y ∷ b) ≤ longest eq a b + 1 → longest eq a (y ∷ b) ≤ longest eq (x ∷ a) (y ∷ b)
  old_grows h = elim (Bool-cases (eq x y)) [
    | inl hit ↦ rw (longest_hit eq x a y b hit) h
    | inr miss ↦ rw (longest_miss eq x a y b miss) (omega arith)
  ]

  new_bounded :
      longest eq a b ≤ longest eq (x ∷ a) b
      → longest eq a (y ∷ b) ≤ longest eq a b + 1
      → longest eq (x ∷ a) (y ∷ b) ≤ longest eq (x ∷ a) b + 1
  new_bounded h k = elim (Bool-cases (eq x y)) [
    | inl hit ↦ rw (longest_hit eq x a y b hit) (omega (arith, h))
    | inr miss ↦ rw (longest_miss eq x a y b miss) (omega (arith, h, k))
  ]

  new_grows :
      longest eq (x ∷ a) b ≤ longest eq a b + 1 → longest eq (x ∷ a) b ≤ longest eq (x ∷ a) (y ∷ b)
  new_grows h = elim (Bool-cases (eq x y)) [
    | inl hit ↦ rw (longest_hit eq x a y b hit) h
    | inr miss ↦ rw (longest_miss eq x a y b miss) (omega arith)
  ]

  old_bounded :
      longest eq a b ≤ longest eq a (y ∷ b)
      → longest eq (x ∷ a) b ≤ longest eq a b + 1
      → longest eq (x ∷ a) (y ∷ b) ≤ longest eq a (y ∷ b) + 1
  old_bounded h k = elim (Bool-cases (eq x y)) [
    | inl hit ↦ rw (longest_hit eq x a y b hit) (omega (arith, h))
    | inr miss ↦ rw (longest_miss eq x a y b miss) (omega (arith, h, k))
  ]

module _ (eq : Bytes → Bytes → Bool) where
  longest_empty : (b : List Bytes) → longest eq [] b ≡ 0
  unfolding longest
  longest_empty b = refl

  -- A line more in the first file does not make the subsequence shorter, and one in the second makes
  -- it at most one longer; and the other way round.
  old_more :
      (a b : List Bytes)
      → ((x : Bytes) → longest eq a b ≤ longest eq (x ∷ a) b)
        × ((y : Bytes) → longest eq a (y ∷ b) ≤ longest eq a b + 1)
  old_more [] b = (λ x. omega (arith, longest_empty b), λ y. omega (arith, longest_empty (y ∷ b)))
  old_more (x' ∷ a) [] = (
    λ x. omega (arith, longest_nil eq (x' ∷ a)),
    λ y. new_bounded eq x' a y [] ((old_more a []).0 x') ((old_more a []).1 y),
  )
  old_more (x' ∷ a) (y' ∷ b) = (
    λ x. old_grows eq x (x' ∷ a) y' b ((old_more (x' ∷ a) b).1 y'),
    λ y. new_bounded eq x' a y (y' ∷ b) ((old_more a (y' ∷ b)).0 x') ((old_more a (y' ∷ b)).1 y),
  )

  new_more :
      (a b : List Bytes)
      → ((y : Bytes) → longest eq a b ≤ longest eq a (y ∷ b))
        × ((x : Bytes) → longest eq (x ∷ a) b ≤ longest eq a b + 1)
  new_more a [] = (λ y. omega (arith, longest_nil eq a), λ x. omega (arith, longest_nil eq (x ∷ a)))
  new_more [] (y' ∷ b) = (
    λ y. omega (arith, longest_empty (y' ∷ b)),
    λ x. old_bounded eq x [] y' b ((new_more [] b).0 y') ((new_more [] b).1 x),
  )
  new_more (x' ∷ a) (y' ∷ b) = (
    λ y. new_grows eq x' a y (y' ∷ b) ((new_more a (y' ∷ b)).1 x'),
    λ x. old_bounded eq x (x' ∷ a) y' b ((new_more (x' ∷ a) b).0 y') ((new_more (x' ∷ a) b).1 x),
  )

leb-false : (m n : ℕ) → leb m n ≡ false → n < m
leb-false m n h = ground arith

module _ (eq : Bytes → Bytes → Bool) (a b : List Bytes) where
  -- No script keeps more lines than a longest common subsequence has.
  kept_count-bound :
      (i j : ℕ) (ops : List Op)
      → Script eq a b i j ops
      → kept_count ops ≤ longest eq (drop i a) (drop j b)
  unfolding kept_count is_equal
  kept_count-bound i j [] (ended hi hj) = omega arith
  kept_count-bound i j (o ∷ ops) (keep x y hx hy e s) =
      rw
        (
          drop-get_elem? i a x hx,
          drop-get_elem? j b y hy,
          longest_hit eq x (drop (suc i) a) y (drop (suc j) b) e,
        )
        (omega (arith, kept_count-bound (suc i) (suc j) ops s))
  kept_count-bound i j (o ∷ ops) (remove x hx s) = rw (drop-get_elem? i a x hx) (
      omega
        (arith, kept_count-bound (suc i) j ops s, (old_more eq (drop (suc i) a) (drop j b)).0 x))
  kept_count-bound i j (o ∷ ops) (add y hy s) = rw (drop-get_elem? j b y hy) (
      omega
        (arith, kept_count-bound i (suc j) ops s, (new_more eq (drop i a) (drop (suc j) b)).0 y))

  -- The lines of both files are the kept ones, twice, and the changed ones.
  change_count-length :
      (i j : ℕ) (ops : List Op)
      → Script eq a b i j ops
      → kept_count ops + kept_count ops + change_count ops + i + j ≡ length a + length b
  unfolding kept_count change_count is_equal
  change_count-length i j [] (ended hi hj) = omega arith
  change_count-length i j (o ∷ ops) (keep x y hx hy e s) =
      omega (arith, change_count-length (suc i) (suc j) ops s)
  change_count-length i j (o ∷ ops) (remove x hx s) =
      omega (arith, change_count-length (suc i) j ops s)
  change_count-length i j (o ∷ ops) (add y hy s) =
      omega (arith, change_count-length i (suc j) ops s)

  -- The walk keeps as many.
  kept_count-walk :
      (i j : ℕ) (a' b' : List Bytes)
      → drop i a ≡ a'
      → drop j b ≡ b'
      → kept_count (walk eq (lcs_table eq a b) i j a' b') ≡ longest eq a' b'
  unfolding kept_count is_equal
  kept_count-walk i j [] [] ha hb = rw (walk_nil eq (lcs_table eq a b) i j) (unfold longest in refl)
  kept_count-walk i j (x ∷ a') [] ha hb = rw (walk_old eq (lcs_table eq a b) i j x a') (
      kept_count-walk (suc i) j a' [] (drop-next i a x a' ha) hb
      ∙ longest_nil eq a'
      ∙ sym (longest_nil eq (x ∷ a')))
  kept_count-walk i j [] (y ∷ b') ha hb = rw (walk_new eq (lcs_table eq a b) i j y b') (
      kept_count-walk i (suc j) [] b' ha (drop-next j b y b' hb)
      ∙ longest_empty eq b'
      ∙ sym (longest_empty eq (y ∷ b')))
  kept_count-walk i j (x ∷ a') (y ∷ b') ha hb =
      let a_next = drop-next i a x a' ha in
      let b_next = drop-next j b y b' hb in
      let down =
        cell-lcs_table eq a b (suc i) j (length-drop_cons i a x a' ha)
          (omega (arith, length-drop_cons j b y b' hb)) in
      let right =
        cell-lcs_table eq a b i (suc j) (omega (arith, length-drop_cons i a x a' ha))
          (length-drop_cons j b y b' hb) in
      let down_is = down ∙ ap₂ (longest eq) a_next hb in
      let right_is = right ∙ ap₂ (longest eq) ha b_next in
      elim (Bool-cases (eq x y)) [
        | inl same ↦ rw (walk_keep eq (lcs_table eq a b) i j x a' y b' same) (
            omega (
              arith,
              kept_count-walk (suc i) (suc j) a' b' a_next b_next,
              longest_hit eq x a' y b' same,
            ))
        | inr differ ↦
            elim (Bool-cases
              (leb (cell (lcs_table eq a b) i (suc j)) (cell (lcs_table eq a b) (suc i) j))) [
                | inl below ↦ rw (walk_remove eq (lcs_table eq a b) i j x a' y b' differ below) (
                    omega (
                      arith,
                      kept_count-walk (suc i) j a' (y ∷ b') a_next hb,
                      longest_miss eq x a' y b' differ,
                      down_is,
                      right_is,
                      leb→le (cell (lcs_table eq a b) i (suc j)) (cell (lcs_table eq a b) (suc i) j)
                          below,
                    ))
                | inr beside ↦ rw (walk_add eq (lcs_table eq a b) i j x a' y b' differ beside) (
                    omega (
                      arith,
                      kept_count-walk i (suc j) (x ∷ a') b' ha b_next,
                      longest_miss eq x a' y b' differ,
                      down_is,
                      right_is,
                      leb-false (cell (lcs_table eq a b) i (suc j))
                          (cell (lcs_table eq a b) (suc i) j) beside,
                    ))
              ]
      ]

-- The edit script changes as few lines as any script from the first file to the second does, where
-- lines that differ in case only count as equal if case is ignored.
pub diff_lines-fewest :
    (equal_fold : Bytes → Bytes → Bool) (a b : List Bytes) (ignore_case : Bool) (ops : List Op)
    → Script (line_eq equal_fold ignore_case) a b 0 0 ops
    → change_count (diff_lines equal_fold a b ignore_case) ≤ change_count ops
diff_lines-fewest equal_fold a b ignore_case ops s =
    let eq = line_eq equal_fold ignore_case in
    let ours = diff_lines equal_fold a b ignore_case in
    let whole = diff_lines-Script equal_fold a b ignore_case in
    let kept : kept_count ours ≡ longest eq a b =
      unfold diff_lines script in kept_count-walk eq a b 0 0 a b refl refl in
    omega (
      arith,
      kept,
      kept_count-bound eq a b 0 0 ops s,
      change_count-length eq a b 0 0 ops s,
      change_count-length eq a b 0 0 ours whole,
    )
