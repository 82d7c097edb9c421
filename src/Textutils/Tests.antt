-- ===== src/Textutils/Tests.antt =====
-- Runs of fold, uniq and comm, and the theorems about them at concrete lines.
use mimixbox.Prelude.{
  ◌-◌, ◌≡◌, refl, Bool, true, false, List, [], ◌∷◌, min, arith, Bytes, codes, none, ok, err,
}
use mimixbox.Textutils.Fold.{fold_line, run as run_folded}
use mimixbox.Textutils.Fold.Pieces.{ArePieces, fold_line-ArePieces}
use mimixbox.Textutils.Uniq.{make_groups, filter, run, printed}
use mimixbox.Textutils.Uniq.Runs.{expanded, AreRuns, make_groups-AreRuns}
use mimixbox.Textutils.Comm.{column1, column2, column3, merged, compare, sorted}
use mimixbox.Textutils.Comm.Columns.{count, column_count, merged-counts}

at_blanks : fold_line (codes "one two three") 8 true ≡ codes "one two " ∷ codes "three" ∷ []
unfolding fold_line
at_blanks = refl

-- The standard input is read once.
stdin_twice :
    (run_folded (λ f. err (codes "gone")) 3 false (codes "-" ∷ codes "-" ∷ []) (codes "abcd\n")).out
    ≡ codes "abc\nd\n"
unfolding run_folded fold_line
stdin_twice = refl

fold_line-ArePieces_example :
    ArePieces (fold_line (codes "one two three") 8 true) 8 (codes "one two three")
fold_line-ArePieces_example = fold_line-ArePieces (codes "one two three") 8 true (omega arith)

abbrev no_fold : Bytes → Bytes → Bool
no_fold x y = false

abbrev repeats : List Bytes
repeats = codes "a" ∷ codes "a" ∷ codes "b" ∷ codes "a" ∷ []

counted :
    filter no_fold repeats
      (record { count = true; repeated = false; unique = false; ignore_case = false })
    ≡ codes "      2 a\n      1 b\n      1 a\n"
unfolding filter
counted = refl

make_groups-AreRuns_example :
    (expanded (make_groups no_fold repeats false) ≡ repeats)
    × AreRuns (make_groups no_fold repeats false)
make_groups-AreRuns_example = make_groups-AreRuns no_fold repeats

same_output :
    run no_fold
      (λ f. ok (codes "a\na\n"))
      (λ f. none)
      (record { count = false; repeated = true; unique = false; ignore_case = false })
      (codes "f" ∷ codes "-" ∷ [])
    ≡ printed (codes "a\n")
unfolding run
same_output = refl

abbrev first_file : List Bytes
first_file = codes "a" ∷ codes "b" ∷ codes "b" ∷ []

abbrev second_file : List Bytes
second_file = codes "b" ∷ codes "c" ∷ []

columns :
    compare
      (record {
        show1 = true;
        show2 = true;
        show3 = true;
        delimiter = codes "\t";
        terminator = codes "\n";
        zero_terminated = false;
        check_order = false;
      })
      first_file
      second_file
    ≡ codes "a\n\t\tb\nb\n\tc\n"
unfolding compare
columns = refl

merged-counts_example :
    (column_count column3 (codes "b") (merged first_file second_file)
      ≡ min (count (codes "b") first_file) (count (codes "b") second_file))
    × ((column_count column1 (codes "b") (merged first_file second_file)
          ≡ count (codes "b") first_file - count (codes "b") second_file)
        × (column_count column2 (codes "b") (merged first_file second_file)
            ≡ count (codes "b") second_file - count (codes "b") first_file))
unfolding sorted
merged-counts_example = merged-counts (codes "b") first_file second_file refl refl
