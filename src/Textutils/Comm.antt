-- ===== src/Textutils/Comm.antt =====
-- internal/applets/textutils/comm/comm.go behind the option parser: `sorted`, `compare`, `emit`,
-- `readLines`. `open_file` gives the bytes of a file or the text of `command.FileError`.
pub mod Columns
use mimixbox.Prelude.{
  ℕ, zero, suc, ◌+◌, ◌≡◌, Bool, true, false, not, List, [], ◌∷◌, ◌++◌, ◌==◌, if◌then◌else◌, Bytes,
  codes, Result, ok, err,
}
use mimixbox.Golang.Bufio.{scan_lines}
use mimixbox.Golang.Strings.Order.{bytes_ltb}

pub record Options : Type 0 where
  pub show1 : Bool
  pub show2 : Bool
  pub show3 : Bool
  pub delimiter : Bytes
  pub terminator : Bytes
  pub zero_terminated : Bool
  pub check_order : Bool

unfoldable pub sorted : List Bytes → Bool
unfolding bytes_ltb
sorted [] = true
sorted (x ∷ []) = true
sorted (x ∷ y ∷ lines) = if bytes_ltb y x then false else sorted (y ∷ lines)

pub data Column : Type 0 where
  column1 column2 column3 : Column

-- The lines in the order of `compare`, each with its column.
unfoldable pub merged : List Bytes → List Bytes → List (Column × Bytes)
unfolding bytes_ltb
merged [] [] = []
merged (x ∷ a) [] = (column1, x) ∷ merged a []
merged [] (y ∷ b) = (column2, y) ∷ merged [] b
merged (x ∷ a) (y ∷ b) = elim (bytes_ltb x y) [
  | true ↦ (column1, x) ∷ merged a (y ∷ b)
  | false ↦ elim (bytes_ltb y x) [
    | true ↦ (column2, y) ∷ merged (x ∷ a) b
    | false ↦ (column3, x) ∷ merged a b
  ]
]

unfoldable pub emit : Options → Bool → Bytes → Bytes → Bytes
emit o show pad line = if show then pad ++ (line ++ o.terminator) else []

unfoldable pub emit_column : Options → Column → Bytes → Bytes
unfolding emit
emit_column o column1 line = emit o o.show1 [] line
emit_column o column2 line = emit o o.show2 (if o.show1 then o.delimiter else []) line
emit_column o column3 line =
    emit o o.show3 ((if o.show1 then o.delimiter else []) ++ (if o.show2 then o.delimiter else []))
      line

unfoldable pub emit_all : Options → List (Column × Bytes) → Bytes
unfolding emit_column
emit_all o [] = []
emit_all o (c ∷ cells) = emit_column o c.0 c.1 ++ emit_all o cells

unfoldable pub compare : Options → List Bytes → List Bytes → Bytes
unfolding emit_all merged
compare o a b = emit_all o (merged a b)

-- The tokens that `scanNUL` gives, with the token so far.
unfoldable pub nul_tokens : Bytes → Bytes → List Bytes
nul_tokens [] [] = []
nul_tokens (c ∷ cur) [] = (c ∷ cur) ∷ []
nul_tokens cur (c ∷ s) =
    let rest = nul_tokens (cur ++ c ∷ []) s in if c == 0 then cur ∷ nul_tokens [] s else rest

unfoldable pub read_lines : Bool → Bytes → List Bytes
unfolding nul_tokens scan_lines
read_lines true text = nul_tokens [] text
read_lines false text = scan_lines text

pub record Outcome : Type 0 where
  pub out : Bytes
  pub errors : Bytes
  pub failed : Bool

unfoldable pub failure : Bytes → Outcome
failure text = record { out = []; errors = codes "comm: " ++ (text ++ codes "\n"); failed = true }

unfoldable pub compare_checked : Options → List Bytes → List Bytes → Outcome
unfolding sorted failure compare
compare_checked o a b =
    if o.check_order
    then if not (sorted a)
      then failure (codes "file 1 is not in sorted order")
      else if not (sorted b)
      then failure (codes "file 2 is not in sorted order")
      else record { out = compare o a b; errors = []; failed = false }
    else record { out = compare o a b; errors = []; failed = false }

module _ (open_file : Bytes → Result Bytes Bytes) where
  unfoldable pub run : Options → List Bytes → Outcome
  unfolding failure compare_checked read_lines
  run o (name1 ∷ name2 ∷ []) = elim (open_file name1) [
    | err e ↦ failure e
    | ok text1 ↦ elim (open_file name2) [
      | err e ↦ failure e
      | ok text2 ↦
          compare_checked o (read_lines o.zero_terminated text1)
            (read_lines o.zero_terminated text2)
    ]
  ]
  run o _ = failure (codes "two file operands are required")
