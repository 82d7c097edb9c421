-- ===== src/Textutils/Uniq.antt =====
-- internal/applets/shellutils/uniq/uniq.go: the groups of adjacent equal lines, `filter`,
-- and `Run` behind the option parser.
-- `strings.EqualFold` is the parameter `equal_fold`.
pub mod Runs
use mimixbox.Prelude.{
  ℕ, zero, suc, ◌+◌, ◌-◌, ◌≡◌, Bool, true, false, ◌&&◌, List, [], ◌∷◌, ◌++◌, ltb, if◌then◌else◌,
  Bytes, bytes_eq, codes, Option, none, some, Result, ok, err, length,
}
use mimixbox.Golang.Bufio.{scan_lines}
use mimixbox.Golang.Strconv.{format_nat}

pub record Options : Type 0 where
  pub count : Bool
  pub repeated : Bool
  pub unique : Bool
  pub ignore_case : Bool

pub record Group : Type 0 where
  pub line : Bytes
  pub count : ℕ

unfoldable pub spaces : ℕ → Bytes
spaces zero = []
spaces (suc n) = b' ' ∷ spaces n

-- `%7d`.
unfoldable pub padded : ℕ → Bytes
unfolding spaces format_nat
padded n = spaces (7 - length (format_nat n)) ++ format_nat n

module _ (equal_fold : Bytes → Bytes → Bool) where
  unfoldable pub equal : Bytes → Bytes → Bool → Bool
  unfolding bytes_eq
  equal a b ignore_case = if ignore_case then equal_fold a b else bytes_eq a b

  -- The loop of `makeGroups`, with the last group apart.
  unfoldable pub groups_from : Bool → Group → List Bytes → List Group
  unfolding equal
  groups_from ignore_case g [] = g ∷ []
  groups_from ignore_case g (l ∷ lines) = elim (equal g.line l ignore_case) [
    | true ↦ groups_from ignore_case (record { line = g.line; count = g.count + 1 }) lines
    | false ↦ g ∷ groups_from ignore_case (record { line = l; count = 1 }) lines
  ]

  unfoldable pub make_groups : List Bytes → Bool → List Group
  unfolding groups_from
  make_groups [] ignore_case = []
  make_groups (l ∷ lines) ignore_case =
      groups_from ignore_case (record { line = l; count = 1 }) lines

  -- One round of the loop of `filter`.
  unfoldable pub write_group : Options → Group → Bytes
  unfolding padded
  write_group o g =
      if o.repeated && ltb g.count 2
      then []
      else if o.unique && ltb 1 g.count
      then []
      else if o.count
      then padded g.count ++ (codes " " ++ (g.line ++ codes "\n"))
      else g.line ++ codes "\n"

  unfoldable pub write_groups : Options → List Group → Bytes
  unfolding write_group
  write_groups o [] = []
  write_groups o (g ∷ groups) = write_group o g ++ write_groups o groups

  unfoldable pub filter : List Bytes → Options → Bytes
  unfolding write_groups make_groups
  filter lines o = write_groups o (make_groups lines o.ignore_case)

-- How a run ends: with a text for the standard output, or for the file that the second operand names,
-- or with the text of an error.
pub data Outcome : Type 0 where
  printed : Bytes → Outcome
  stored : Bytes → Bytes → Outcome
  refused : Bytes → Outcome

-- `openOutput`, with the text that is written; `create_file` is the text of an error, or none.
unfoldable pub output_to : (Bytes → Option Bytes) → List Bytes → Bytes → Outcome
unfolding bytes_eq
output_to create_file (input ∷ output ∷ _) text =
    if bytes_eq output (codes "-")
    then printed text
    else (elim (create_file output) [ some e ↦ refused e | none ↦ stored output text ])
output_to create_file _ text = printed text

abbrev pub input_name : List Bytes → Bytes
input_name [] = codes "-"
input_name (input ∷ _) = input

-- `Run` behind the option parser. `open_file` gives the bytes of a file, for "-" those of the standard
-- input, or the text of `command.FileError`.
unfoldable pub run :
    (Bytes → Bytes → Bool)
    → (Bytes → Result Bytes Bytes)
    → (Bytes → Option Bytes)
    → Options
    → List Bytes
    → Outcome
unfolding scan_lines filter output_to
run equal_fold open_file create_file o operands = elim (open_file (input_name operands)) [
  | err e ↦ refused e
  | ok text ↦ output_to create_file operands (filter equal_fold (scan_lines text) o)
]
