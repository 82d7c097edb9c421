-- ===== src/Diff/Lines.antt =====
-- The edit script of internal/applets/editors/diff/diff.go: reading the lines, the table of longest
-- common subsequences, and the walk through it. `strings.EqualFold` is the parameter `equal_fold`.
pub mod Script
pub mod Longest
use mimixbox.Prelude.{
  ℕ, zero, suc, ◌+◌, ◌≡◌, refl, Bool, true, false, not, ◌||◌, List, [], ◌∷◌, ◌++◌, arith, leb,
  if◌then◌else◌, Bytes, bytes_eq, codes, length, get_or,
}
use mimixbox.Golang.Strings.{split}

-- `TrimSuffix(s, "\n")`.
unfoldable pub trim_newline : Bytes → Bytes
unfolding bytes_eq
trim_newline [] = []
trim_newline (c ∷ s) = if bytes_eq (c ∷ s) (codes "\n") then [] else c ∷ trim_newline s

-- `readLines` on the bytes of a file.
unfoldable pub read_lines : Bytes → List Bytes
unfolding trim_newline split
read_lines [] = []
read_lines (c ∷ s) = split (trim_newline (c ∷ s)) (codes "\n")

pub data OpKind : Type 0 where
  op_equal op_delete op_insert : OpKind

-- One element of the edit script: `ai` and `bi` are indices into the two files.
pub record Op : Type 0 where
  pub kind : OpKind
  pub ai : ℕ
  pub bi : ℕ

unfoldable pub is_equal : OpKind → Bool
is_equal op_equal = true
is_equal op_delete = false
is_equal op_insert = false

unfoldable pub has_change : List Op → Bool
unfolding is_equal
has_change [] = false
has_change (o ∷ ops) = not (is_equal o.kind) || has_change ops

-- `eq` of `diffLines`.
unfoldable pub line_eq : (Bytes → Bytes → Bool) → Bool → Bytes → Bytes → Bool
unfolding bytes_eq
line_eq equal_fold ignore_case x y = if ignore_case then equal_fold x y else bytes_eq x y

unfoldable pub head_or : List ℕ → ℕ
head_or [] = 0
head_or (n ∷ _) = n

unfoldable pub zeros : List Bytes → List ℕ
zeros [] = 0 ∷ []
zeros (y ∷ b) = 0 ∷ zeros b

unfoldable pub head_row : List (List ℕ) → List ℕ
head_row [] = []
head_row (row ∷ _) = row

unfoldable pub cell : List (List ℕ) → ℕ → ℕ → ℕ
cell table i j = get_or (get_or table i []) j 0

module _ (eq : Bytes → Bytes → Bool) where
  -- The inner loop of the table: row `i` for the line `x`, from the row below it.
  unfoldable pub fill_row : Bytes → List Bytes → List ℕ → List ℕ
  unfolding head_or
  fill_row x [] below = 0 ∷ []
  fill_row x (y ∷ b) [] = []
  fill_row x (y ∷ b) (down ∷ below) =
      let right = fill_row x b below in
      (if eq x y
        then head_or below + 1
        else if leb (head_or right) down
        then down
        else head_or right)
      ∷ right

  -- The outer loop: the rows from `i` to the last.
  unfoldable pub lcs_table : List Bytes → List Bytes → List (List ℕ)
  unfolding fill_row zeros head_row
  lcs_table [] b = zeros b ∷ []
  lcs_table (x ∷ a) b = let rows = lcs_table a b in fill_row x b (head_row rows) ∷ rows

  -- The walk at `i` and `j`; `a` and `b` are the lines from there on.
  unfoldable pub walk : List (List ℕ) → ℕ → ℕ → List Bytes → List Bytes → List Op
  unfolding cell
  walk table i j [] [] = []
  walk table i j (x ∷ a) [] =
      record { kind = op_delete; ai = i; bi = j } ∷ walk table (suc i) j a []
  walk table i j [] (y ∷ b) =
      record { kind = op_insert; ai = i; bi = j } ∷ walk table i (suc j) [] b
  walk table i j (x ∷ a) (y ∷ b) = elim (eq x y) [
    | true ↦ record { kind = op_equal; ai = i; bi = j } ∷ walk table (suc i) (suc j) a b
    | false ↦ elim (leb (cell table i (suc j)) (cell table (suc i) j)) [
      | true ↦ record { kind = op_delete; ai = i; bi = j } ∷ walk table (suc i) j a (y ∷ b)
      | false ↦ record { kind = op_insert; ai = i; bi = j } ∷ walk table i (suc j) (x ∷ a) b
    ]
  ]

  unfoldable pub script : List Bytes → List Bytes → List Op
  unfolding walk lcs_table
  script a b = walk (lcs_table a b) 0 0 a b

unfoldable pub diff_lines : (Bytes → Bytes → Bool) → List Bytes → List Bytes → Bool → List Op
unfolding script line_eq
diff_lines equal_fold a b ignore_case = script (line_eq equal_fold ignore_case) a b
