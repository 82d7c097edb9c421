-- ===== src/Diff/Lines/Longest.antt =====
-- The table of `diffLines` of internal/applets/editors/diff/diff.go against the lengths of longest
-- common subsequences, defined by recursion on the two files.
pub mod Fewest
use mimixbox.Prelude.{
  ℕ, zero, suc, ◌+◌, ◌≤◌, ◌<◌, ◌≡◌, refl, ◌∙◌, sym, ap, ap₂, Bool, Bool-cases, inl, inr, true,
  false, List, [], ◌∷◌, max, arith, leb, if◌then◌else◌, Bytes, length, get_or, drop,
}
use mimixbox.Diff.Lines.{head_or, fill_row, zeros, head_row, lcs_table, cell}

module _ (eq : Bytes → Bytes → Bool) where
  unfoldable pub longest : List Bytes → List Bytes → ℕ
  longest [] b = 0
  longest (x ∷ a) [] = 0
  longest (x ∷ a) (y ∷ b) = elim (eq x y) [
    | true ↦ longest a b + 1
    | false ↦ max (longest a (y ∷ b)) (longest (x ∷ a) b)
  ]

  pub longest_hit :
      (x : Bytes) (a : List Bytes) (y : Bytes) (b : List Bytes)
      → eq x y ≡ true
      → longest (x ∷ a) (y ∷ b) ≡ longest a b + 1
  unfolding longest
  longest_hit x a y b h = rw (h, longest) refl

  pub longest_miss :
      (x : Bytes) (a : List Bytes) (y : Bytes) (b : List Bytes)
      → eq x y ≡ false
      → longest (x ∷ a) (y ∷ b) ≡ max (longest a (y ∷ b)) (longest (x ∷ a) b)
  unfolding longest
  longest_miss x a y b h = rw (h, longest) refl

  pub longest_nil : (a : List Bytes) → longest a [] ≡ 0
  unfolding longest
  longest_nil [] = refl
  longest_nil (x ∷ a) = refl

  -- The lengths for `a` and the ends of `b`, and for the ends of `a` as well.
  row_of : List Bytes → List Bytes → List ℕ
  row_of a [] = longest a [] ∷ []
  row_of a (y ∷ b) = longest a (y ∷ b) ∷ row_of a b

  table_of : List Bytes → List Bytes → List (List ℕ)
  table_of [] b = row_of [] b ∷ []
  table_of (x ∷ a) b = row_of (x ∷ a) b ∷ table_of a b

  zeros-row_of : (b : List Bytes) → zeros b ≡ row_of [] b
  unfolding zeros row_of longest
  zeros-row_of [] = refl
  zeros-row_of (y ∷ b) = ap (λ r. 0 ∷ r) (zeros-row_of b)

  head_or-row_of : (a b : List Bytes) → head_or (row_of a b) ≡ longest a b
  unfolding head_or row_of
  head_or-row_of a [] = refl
  head_or-row_of a (y ∷ b) = refl

  fill_row_step :
      (x : Bytes) (a : List Bytes) (y : Bytes) (b : List Bytes) (right : List ℕ)
      → right ≡ row_of (x ∷ a) b
      → (if eq x y
          then head_or (row_of a b) + 1
          else if leb (head_or right) (longest a (y ∷ b))
          then longest a (y ∷ b)
          else head_or right)
        ≡ longest (x ∷ a) (y ∷ b)
  fill_row_step x a y b right e = elim (Bool-cases (eq x y)) [
    | inl hit ↦ rw (hit, head_or-row_of a b) (sym (longest_hit x a y b hit))
    | inr miss ↦
        rw (miss, e, head_or-row_of (x ∷ a) b)
          (larger (longest a (y ∷ b)) (longest (x ∷ a) b) ∙ sym (longest_miss x a y b miss))
  ]
    where
      larger : (m n : ℕ) → (if leb n m then m else n) ≡ max m n
      larger m n = ground arith

  fill_row-row_of : (x : Bytes) (a b : List Bytes) → fill_row eq x b (row_of a b) ≡ row_of (x ∷ a) b
  unfolding fill_row row_of
  fill_row-row_of x a [] = unfold longest in refl
  fill_row-row_of x a (y ∷ b) =
      ap₂ (λ n r. n ∷ r)
        (fill_row_step x a y b (fill_row eq x b (row_of a b)) (fill_row-row_of x a b))
        (fill_row-row_of x a b)

  head_row-table_of : (a b : List Bytes) → head_row (table_of a b) ≡ row_of a b
  unfolding head_row table_of
  head_row-table_of [] b = refl
  head_row-table_of (x ∷ a) b = refl

  lcs_table-table_of : (a b : List Bytes) → lcs_table eq a b ≡ table_of a b
  unfolding lcs_table table_of
  lcs_table-table_of [] b = ap (λ r. r ∷ []) (zeros-row_of b)
  lcs_table-table_of (x ∷ a) b =
      rw (lcs_table-table_of a b, head_row-table_of a b)
        (ap (λ r. r ∷ table_of a b) (fill_row-row_of x a b))

  get_or-row_of :
      (a b : List Bytes) (j : ℕ) → j ≤ length b → get_or (row_of a b) j 0 ≡ longest a (drop j b)
  unfolding row_of
  get_or-row_of a [] zero h = refl
  get_or-row_of a [] (suc j) h = absurd (omega arith)
  get_or-row_of a (y ∷ b) zero h = refl
  get_or-row_of a (y ∷ b) (suc j) h = get_or-row_of a b j (omega arith)

  get_or-table_of :
      (a b : List Bytes) (i : ℕ) → i ≤ length a → get_or (table_of a b) i [] ≡ row_of (drop i a) b
  unfolding table_of
  get_or-table_of [] b zero h = refl
  get_or-table_of [] b (suc i) h = absurd (omega arith)
  get_or-table_of (x ∷ a) b zero h = refl
  get_or-table_of (x ∷ a) b (suc i) h = get_or-table_of a b i (omega arith)

  -- Each cell of the table holds the length of a longest common subsequence of what is left of the
  -- files from its indices on.
  pub cell-lcs_table :
      (a b : List Bytes) (i j : ℕ)
      → i ≤ length a
      → j ≤ length b
      → cell (lcs_table eq a b) i j ≡ longest (drop i a) (drop j b)
  unfolding cell
  cell-lcs_table a b i j h k =
      rw (lcs_table-table_of a b, get_or-table_of a b i h) (get_or-row_of (drop i a) b j k)
