-- ===== src/Diff/Tests.antt =====
-- Runs of diff, and the theorems about it at concrete files.
use mimixbox.Prelude.{
  ◌↔◌, if◌then◌else◌, ◌≤◌, ◌≡◌, ◌≢◌, refl, ◌⊎◌, Bool, true, false, List, [], ◌∷◌, arith, Bytes,
  bytes_eq, codes, drop, Result, ok, err,
}
use mimixbox.Diff.Lines.{Op, op_delete, op_insert, line_eq, diff_lines, lcs_table, cell, read_lines}
use mimixbox.Diff.Lines.Script.{Script, remove, add, ended, diff_lines-Script}
use mimixbox.Diff.Lines.Longest.{longest, cell-lcs_table}
use mimixbox.Diff.Lines.Longest.Fewest.{change_count, diff_lines-fewest}
use mimixbox.Diff.Normal.{write_normal}
use mimixbox.Diff.Normal.Classic.{classic}
use mimixbox.Diff.Normal.Runs.{write_normal-classic}
use mimixbox.Diff.Unified.{write_unified, group_unified}
use mimixbox.Diff.Unified.Groups.{Grouped}
use mimixbox.Diff.Unified.Groups.Cover.{group_unified-Grouped}
use mimixbox.Diff.Command.{Options, run}
use mimixbox.Diff.Command.Trouble.{Trouble, first_unreadable, run-Trouble}

abbrev no_fold : Bytes → Bytes → Bool
no_fold x y = false

abbrev old_lines : List Bytes
old_lines = codes "a" ∷ codes "b" ∷ codes "c" ∷ []

abbrev new_lines : List Bytes
new_lines = codes "a" ∷ codes "c" ∷ codes "d" ∷ []

classic_output :
    write_normal old_lines new_lines (diff_lines no_fold old_lines new_lines false)
    ≡ codes "2d1\n< b\n3a3\n> d\n"
unfolding write_normal diff_lines
classic_output = refl

unified :
    write_unified old_lines new_lines
      (codes "x")
      (codes "y")
      (diff_lines no_fold old_lines new_lines false)
    ≡ codes "--- x\n+++ y\n@@ -1,3 +1,3 @@\n a\n-b\n c\n+d\n"
unfolding write_unified diff_lines
unified = refl

last_newline : read_lines (codes "a\n\n") ≡ codes "a" ∷ [] ∷ []
unfolding read_lines
last_newline = refl

diff_lines-Script_example :
    Script
      (line_eq no_fold false)
      old_lines
      new_lines
      0
      0
      (diff_lines no_fold old_lines new_lines false)
diff_lines-Script_example = diff_lines-Script no_fold old_lines new_lines false

abbrev one_changed : List Op
one_changed =
    record { kind = op_delete; ai = 0; bi = 0 } ∷ record { kind = op_insert; ai = 1; bi = 0 } ∷ []

diff_lines-fewest_example :
    change_count (diff_lines no_fold (codes "a" ∷ []) (codes "b" ∷ []) false)
    ≤ change_count one_changed
diff_lines-fewest_example =
    diff_lines-fewest no_fold (codes "a" ∷ []) (codes "b" ∷ []) false one_changed
      (remove (codes "a") refl (add (codes "b") refl (ended refl refl)))

cell-lcs_table_example :
    cell (lcs_table bytes_eq old_lines new_lines) 1 0
    ≡ longest bytes_eq (drop 1 old_lines) (drop 0 new_lines)
cell-lcs_table_example = cell-lcs_table bytes_eq old_lines new_lines 1 0 (omega arith) (omega arith)

write_normal-classic_example :
    write_normal old_lines new_lines (diff_lines no_fold old_lines new_lines false)
    ≡ classic old_lines new_lines 0 0 0 0 (diff_lines no_fold old_lines new_lines false)
write_normal-classic_example = write_normal-classic no_fold old_lines new_lines false

group_unified-Grouped_example :
    Grouped true
      (diff_lines no_fold old_lines new_lines false)
      (group_unified (diff_lines no_fold old_lines new_lines false))
group_unified-Grouped_example = group_unified-Grouped (diff_lines no_fold old_lines new_lines false)

abbrev brief_options : Options
brief_options = record { unified = false; brief = true; ignore_case = false }

-- The files with a name of one byte can be read.
abbrev one_file : Bytes → Result Bytes Bytes
one_file (_ ∷ []) = ok (codes "a\n")
one_file _ = err (codes "no such file")

run-Trouble_example :
    (((run no_fold brief_options one_file (codes "gone" ∷ codes "f" ∷ [])).code ≡ 2)
      ↔ Trouble no_fold brief_options one_file (codes "gone" ∷ codes "f" ∷ []))
    × (((run no_fold brief_options one_file (codes "gone" ∷ codes "f" ∷ [])).code ≢ 2)
        ⊎ ((run no_fold brief_options one_file (codes "gone" ∷ codes "f" ∷ [])).out ≡ []))
run-Trouble_example = run-Trouble no_fold brief_options one_file (codes "gone" ∷ codes "f" ∷ [])

-- Trouble does come up.
gone : Trouble no_fold brief_options one_file (codes "gone" ∷ codes "f" ∷ [])
gone = first_unreadable (codes "no such file") refl

-- The line feed at the end does not count.
no_end_of_line :
    run no_fold brief_options
      (λ name. if bytes_eq name (codes "f") then ok (codes "a") else ok (codes "a\n"))
      (codes "f" ∷ codes "g" ∷ [])
    ≡ record { out = []; errors = []; code = 0 }
unfolding run diff_lines
no_end_of_line = refl
