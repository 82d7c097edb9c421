-- ===== src/Diff/Command.antt =====
-- `Run` of internal/applets/editors/diff/diff.go behind the option parser. `read_file` gives the
-- bytes of a file or the text of `command.FileError`.
pub mod Status
pub mod Trouble
use mimixbox.Prelude.{
  ℕ, zero, suc, ◌+◌, ◌*◌, ◌%◌, ◌^◌, ◌≡◌, Bool, true, false, ◌&&◌, not, List, [], ◌∷◌, ◌++◌, ltb,
  if◌then◌else◌, Bytes, codes, length, Result, ok, err,
}
use mimixbox.Diff.Lines.{read_lines, has_change, diff_lines}
use mimixbox.Diff.Normal.{write_normal}
use mimixbox.Diff.Unified.{write_unified}

pub record Options : Type 0 where
  pub unified : Bool
  pub brief : Bool
  pub ignore_case : Bool

-- What is written to the standard output and the standard error, and the exit code.
pub record Outcome : Type 0 where
  pub out : Bytes
  pub errors : Bytes
  pub code : ℕ

abbrev pub max_dp_cells : ℕ
max_dp_cells = 50000000

-- `int64(n) * int64(m) > maxDPCells`, with the wrap-around of the product.
unfoldable pub too_many_cells : ℕ → ℕ → Bool
too_many_cells n m = let cells = (n * m) % 2 ^ 64 in ltb max_dp_cells cells && ltb cells (2 ^ 63)

unfoldable pub trouble : Bytes → Outcome
trouble text = record { out = []; errors = codes "diff: " ++ (text ++ codes "\n"); code = 2 }

unfoldable pub usage_trouble : Bytes → Outcome
usage_trouble text = record {
  out = [];
  errors =
      codes "diff: "
      ++ (text ++ (codes "\n" ++ codes "diff: Try 'diff --help' for more information.\n"));
  code = 2;
}

module _ (equal_fold : Bytes → Bytes → Bool) (o : Options) where
  -- The end of `Run`, on the lines of the files.
  unfoldable pub compare_lines : Bytes → Bytes → List Bytes → List Bytes → Outcome
  unfolding too_many_cells trouble diff_lines has_change write_unified write_normal
  compare_lines name1 name2 a b =
      if ltb 0 (length a) && too_many_cells (length a) (length b)
      then trouble (codes "files too large to compare")
      else (let ops = diff_lines equal_fold a b o.ignore_case in
          if not (has_change ops)
          then record { out = []; errors = []; code = 0 }
          else if o.brief
          then record {
            out = codes "Files " ++ (name1 ++ (codes " and " ++ (name2 ++ codes " differ\n")));
            errors = [];
            code = 1;
          }
          else record {
            out = if o.unified then write_unified a b name1 name2 ops else write_normal a b ops;
            errors = [];
            code = 1;
          })

  module _ (read_file : Bytes → Result Bytes Bytes) where
    unfoldable pub compare_files : Bytes → Bytes → Outcome
    unfolding trouble compare_lines read_lines
    compare_files name1 name2 = elim (read_file name1) [
      | err e ↦ trouble e
      | ok text1 ↦ elim (read_file name2) [
        | err e ↦ trouble e
        | ok text2 ↦ compare_lines name1 name2 (read_lines text1) (read_lines text2)
      ]
    ]

    unfoldable pub run : List Bytes → Outcome
    unfolding usage_trouble compare_files
    run (name1 ∷ name2 ∷ []) = compare_files name1 name2
    run (_ ∷ _ ∷ name3 ∷ _) = usage_trouble (codes "extra operand '" ++ (name3 ++ codes "'"))
    run _ = usage_trouble (codes "missing operand")
