-- ===== src/Diff/Lines/Script.antt =====
-- The edit script of `diffLines` of internal/applets/editors/diff/diff.go as a way through both files.
use mimixbox.Prelude.{
  ℕ, suc, ◌≤◌, ◌≡◌, refl, Bool, Bool-cases, inl, inr, true, false, List, [], ◌∷◌, arith, leb, some,
  Bytes, length, get_elem?, drop,
}
use mimixbox.Prelude.Indices.{get_elem?-drop, drop-next, length-drop_nil, length-drop_cons}
use mimixbox.Diff.Lines.{
  Op, op_equal, op_delete, op_insert, line_eq, walk, cell, script, lcs_table, diff_lines,
}

-- An edit script from line `i` of `a` and line `j` of `b` to their ends: the deleted lines are in `a`,
-- the inserted ones in `b`, and the kept ones in both, up to `eq`.
pub data Script (eq : Bytes → Bytes → Bool) (a b : List Bytes) : ℕ → ℕ → List Op → Type 0 where
  ended : {i j : ℕ} → i ≡ length a → j ≡ length b → Script eq a b i j []
  keep :
      {i j : ℕ} {ops : List Op} (x y : Bytes)
      → get_elem? a i ≡ some x
      → get_elem? b j ≡ some y
      → eq x y ≡ true
      → Script eq a b (suc i) (suc j) ops
      → Script eq a b i j (record { kind = op_equal; ai = i; bi = j } ∷ ops)
  remove :
      {i j : ℕ} {ops : List Op} (x : Bytes)
      → get_elem? a i ≡ some x
      → Script eq a b (suc i) j ops
      → Script eq a b i j (record { kind = op_delete; ai = i; bi = j } ∷ ops)
  add :
      {i j : ℕ} {ops : List Op} (y : Bytes)
      → get_elem? b j ≡ some y
      → Script eq a b i (suc j) ops
      → Script eq a b i j (record { kind = op_insert; ai = i; bi = j } ∷ ops)

module _ (eq : Bytes → Bytes → Bool) (table : List (List ℕ)) (i j : ℕ) where
  pub walk_nil : walk eq table i j [] [] ≡ []
  unfolding walk
  walk_nil = refl

  pub walk_old :
      (x : Bytes) (a : List Bytes)
      → walk eq table i j (x ∷ a) []
        ≡ record { kind = op_delete; ai = i; bi = j } ∷ walk eq table (suc i) j a []
  unfolding walk
  walk_old x a = refl

  pub walk_new :
      (y : Bytes) (b : List Bytes)
      → walk eq table i j [] (y ∷ b)
        ≡ record { kind = op_insert; ai = i; bi = j } ∷ walk eq table i (suc j) [] b
  unfolding walk
  walk_new y b = refl

module _ (eq : Bytes → Bytes → Bool) (table : List (List ℕ)) (i j : ℕ) (x : Bytes) (a : List Bytes)
    (y : Bytes) (b : List Bytes) where
  pub walk_keep :
      eq x y ≡ true
      → walk eq table i j (x ∷ a) (y ∷ b)
        ≡ record { kind = op_equal; ai = i; bi = j } ∷ walk eq table (suc i) (suc j) a b
  unfolding walk
  walk_keep h = rw (h, walk)

  pub walk_remove :
      eq x y ≡ false
      → leb (cell table i (suc j)) (cell table (suc i) j) ≡ true
      → walk eq table i j (x ∷ a) (y ∷ b)
        ≡ record { kind = op_delete; ai = i; bi = j } ∷ walk eq table (suc i) j a (y ∷ b)
  unfolding walk
  walk_remove h k = rw (h, k, walk)

  pub walk_add :
      eq x y ≡ false
      → leb (cell table i (suc j)) (cell table (suc i) j) ≡ false
      → walk eq table i j (x ∷ a) (y ∷ b)
        ≡ record { kind = op_insert; ai = i; bi = j } ∷ walk eq table i (suc j) (x ∷ a) b
  unfolding walk
  walk_add h k = rw (h, k, walk)

module _ (eq : Bytes → Bytes → Bool) (a b : List Bytes) (table : List (List ℕ)) where
  -- Where `a'` and `b'` are what is left of the files, the walk is a script, whatever the table holds.
  walk-Script :
      (i j : ℕ) (a' b' : List Bytes)
      → drop i a ≡ a'
      → drop j b ≡ b'
      → i ≤ length a
      → j ≤ length b
      → Script eq a b i j (walk eq table i j a' b')
  walk-Script i j [] [] ha hb ia jb =
      rw (walk_nil eq table i j) (ended (length-drop_nil i a ha ia) (length-drop_nil j b hb jb))
  walk-Script i j (x ∷ a') [] ha hb ia jb = rw (walk_old eq table i j x a') (
      remove x (get_elem?-drop i a x a' ha)
        (walk-Script (suc i) j a' [] (drop-next i a x a' ha) hb (length-drop_cons i a x a' ha) jb))
  walk-Script i j [] (y ∷ b') ha hb ia jb = rw (walk_new eq table i j y b') (
      add y (get_elem?-drop j b y b' hb)
        (walk-Script i (suc j) [] b' ha (drop-next j b y b' hb) ia (length-drop_cons j b y b' hb)))
  walk-Script i j (x ∷ a') (y ∷ b') ha hb ia jb =
      let x_is = get_elem?-drop i a x a' ha in
      let y_is = get_elem?-drop j b y b' hb in
      let a_next = drop-next i a x a' ha in
      let b_next = drop-next j b y b' hb in
      let i_next = length-drop_cons i a x a' ha in
      let j_next = length-drop_cons j b y b' hb in
      elim (Bool-cases (eq x y)) [
        | inl same ↦ rw (walk_keep eq table i j x a' y b' same) (
            keep x y x_is y_is same (walk-Script (suc i) (suc j) a' b' a_next b_next i_next j_next))
        | inr differ ↦ elim (Bool-cases (leb (cell table i (suc j)) (cell table (suc i) j))) [
          | inl down ↦
              rw (walk_remove eq table i j x a' y b' differ down)
                (remove x x_is (walk-Script (suc i) j a' (y ∷ b') a_next hb i_next jb))
          | inr right ↦
              rw (walk_add eq table i j x a' y b' differ right)
                (add y y_is (walk-Script i (suc j) (x ∷ a') b' ha b_next ia j_next))
        ]
      ]

-- The edit script leads from the beginning of both files to their ends: each line of the first is
-- deleted or kept once and each line of the second inserted or kept once, in order, and a kept line
-- is in both, up to case if that is ignored.
pub diff_lines-Script :
    (equal_fold : Bytes → Bytes → Bool) (a b : List Bytes) (ignore_case : Bool)
    → Script (line_eq equal_fold ignore_case) a b 0 0 (diff_lines equal_fold a b ignore_case)
unfolding diff_lines script
diff_lines-Script equal_fold a b ignore_case =
    walk-Script (line_eq equal_fold ignore_case) a b
      (lcs_table (line_eq equal_fold ignore_case) a b) 0 0 a b refl refl (omega arith) (omega arith)
