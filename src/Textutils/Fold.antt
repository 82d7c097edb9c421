-- ===== src/Textutils/Fold.antt =====
-- internal/applets/textutils/fold/fold.go behind the option parser. `open_file` gives the bytes of a
-- named file or the text of `command.FileError`.
pub mod Pieces
use mimixbox.Prelude.{
  ℕ, zero, suc, ◌+◌, ◌-◌, ◌≤◌, ◌≡◌, Bool, true, false, ◌||◌, List, [], ◌∷◌, ◌++◌, ltb, ◌==◌,
  if◌then◌else◌, Option, none, some, Bytes, codes, bytes_eq, length, take, drop, Result, ok, err,
}
use mimixbox.Golang.Bufio.{scan_lines}

-- `LastIndexAny(s, " \t")`.
unfoldable pub last_blank : Bytes → Option ℕ
last_blank [] = none
last_blank (c ∷ s) = elim (last_blank s) [
  | some i ↦ some (suc i)
  | none ↦ if c == b' ' || c == b'\t' then some 0 else none
]

-- The place of the next cut in a line that is too long.
unfoldable pub cut_of : ℕ → Bool → Bytes → ℕ
unfolding last_blank
cut_of width false line = width
cut_of width true line = elim (last_blank (take width line)) [
  | none ↦ width
  | some idx ↦ if ltb 0 idx then idx + 1 else width
]

-- The loop of `foldLine` on fuel; a round cuts off one byte at least.
unfoldable pub fold_loop : ℕ → ℕ → Bool → Bytes → List Bytes
unfolding cut_of
fold_loop zero width spaces line = line ∷ []
fold_loop (suc fuel) width spaces line =
    let cut = cut_of width spaces line in
    let rest = fold_loop fuel width spaces (drop cut line) in
    if ltb width (length line) then take cut line ∷ rest else line ∷ []

unfoldable pub fold_line : Bytes → ℕ → Bool → List Bytes
unfolding fold_loop
fold_line line width spaces = fold_loop (length line) width spaces line

unfoldable pub write_pieces : List Bytes → Bytes
write_pieces [] = []
write_pieces (p ∷ pieces) = p ++ (codes "\n" ++ write_pieces pieces)

-- `foldFile` on the lines of the file.
unfoldable pub fold_lines : List Bytes → ℕ → Bool → Bytes
unfolding write_pieces fold_line
fold_lines [] width spaces = []
fold_lines (l ∷ lines) width spaces =
    write_pieces (fold_line l width spaces) ++ fold_lines lines width spaces

pub record Outcome : Type 0 where
  pub out : Bytes
  pub errors : Bytes
  pub failed : Bool

-- `command.Open` and the reading of it: "-" is the standard input, of which nothing is left behind
-- it. What is read, and what is left of the standard input.
operand : (Bytes → Result Bytes Bytes) → Bytes → Bytes → Result Bytes Bytes × Bytes
unfolding bytes_eq
operand open_file name input =
    if bytes_eq name (codes "-") then (ok input, []) else (open_file name, input)

module _ (open_file : Bytes → Result Bytes Bytes) (width : ℕ) (spaces : Bool) where
  unfoldable pub run_files : List Bytes → Bytes → Outcome
  unfolding fold_lines scan_lines operand
  run_files [] input = record { out = []; errors = []; failed = false }
  run_files (name ∷ files) input =
      let rest = run_files files (operand open_file name input).1 in
      elim ((operand open_file name input).0) [
        | err e ↦ record {
          out = rest.out;
          errors = codes "fold: " ++ (e ++ (codes "\n" ++ rest.errors));
          failed = true;
        }
        | ok text ↦ record rest { out = fold_lines (scan_lines text) width spaces ++ rest.out }
      ]

  -- Without operands the standard input, which has the name "-", is folded.
  unfoldable pub run : List Bytes → Bytes → Outcome
  unfolding run_files
  run [] input = run_files (codes "-" ∷ []) input
  run (name ∷ files) input = run_files (name ∷ files) input
