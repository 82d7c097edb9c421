-- ===== src/Diff/Unified.antt =====
-- The unified output of internal/applets/editors/diff/format.go: `groupUnified` and `writeUnified`.
pub mod Changes
pub mod Groups
use mimixbox.Prelude.{
  ℕ, zero, suc, ◌+◌, ◌-◌, ◌≤◌, ◌≡◌, refl, Bool, true, false, List, [], ◌∷◌, ◌++◌, min, arith, leb,
  ◌==◌, if◌then◌else◌, Option, none, some, Bytes, codes, length, get_or, take, drop,
}
use mimixbox.Prelude.Indices.{slice}
use mimixbox.Golang.Strconv.{format_nat}
use mimixbox.Diff.Lines.{Op, OpKind, op_equal, op_delete, op_insert, is_equal}

-- `context_lines` of the source.
abbrev pub context_lines : ℕ
context_lines = 3

-- The indices of the changes in `ops`, which begins at index `i`.
unfoldable pub changed_from : ℕ → List Op → List ℕ
unfolding is_equal
changed_from i [] = []
changed_from i (o ∷ ops) = elim (is_equal o.kind) [
  | true ↦ changed_from (suc i) ops
  | false ↦ i ∷ changed_from (suc i) ops
]

-- The loop of `groupUnified`, and the group behind it.
unfoldable pub group_loop : List Op → ℕ → ℕ → List ℕ → List (List Op)
group_loop ops start stop [] = slice start stop ops ∷ []
group_loop ops start stop (ci ∷ changed) = elim (leb ci (stop + context_lines)) [
  | true ↦ group_loop ops start (min (length ops) (ci + 1 + context_lines)) changed
  | false ↦
      slice start stop ops
      ∷ group_loop ops (ci - context_lines) (min (length ops) (ci + 1 + context_lines)) changed
]

unfoldable pub group_unified : List Op → List (List Op)
unfolding changed_from group_loop
group_unified ops = elim (changed_from 0 ops) [
  | [] ↦ []
  | ci ∷ changed ↦
      group_loop ops (ci - context_lines) (min (length ops) (ci + 1 + context_lines)) changed
]

unfoldable pub in_old : Op → Bool
in_old o = elim o.kind [ op_equal ↦ true | op_delete ↦ true | op_insert ↦ false ]

unfoldable pub in_new : Op → Bool
in_new o = elim o.kind [ op_equal ↦ true | op_delete ↦ false | op_insert ↦ true ]

-- The start of a group in the first file, counted from 1, or 0 where the group has no line of it.
unfoldable pub old_start : List Op → ℕ
unfolding in_old
old_start [] = 0
old_start (o ∷ g) = if in_old o then o.ai + 1 else old_start g

unfoldable pub old_length : List Op → ℕ
unfolding in_old
old_length [] = 0
old_length (o ∷ g) = if in_old o then suc (old_length g) else old_length g

unfoldable pub new_start : List Op → ℕ
unfolding in_new
new_start [] = 0
new_start (o ∷ g) = if in_new o then o.bi + 1 else new_start g

unfoldable pub new_length : List Op → ℕ
unfolding in_new
new_length [] = 0
new_length (o ∷ g) = if in_new o then suc (new_length g) else new_length g

unfoldable pub count_range : ℕ → ℕ → Bytes
unfolding format_nat
count_range start len =
    if len == 1 then format_nat start else format_nat start ++ (codes "," ++ format_nat len)

module _ (a b : List Bytes) where
  -- The line that an operation is written as, without its line feed.
  unfoldable pub op_line : Op → Bytes
  op_line o = elim o.kind [
    | op_equal ↦ b' ' ∷ get_or a o.ai []
    | op_delete ↦ b'-' ∷ get_or a o.ai []
    | op_insert ↦ b'+' ∷ get_or b o.bi []
  ]

  unfoldable pub op_lines : List Op → List Bytes
  unfolding op_line
  op_lines [] = []
  op_lines (o ∷ g) = op_line o ∷ op_lines g

  unfoldable pub hunk_header : List Op → Bytes
  unfolding count_range old_start old_length new_start new_length
  hunk_header g =
      codes "@@ -"
      ++ (count_range (old_start g) (old_length g)
          ++ (codes " +" ++ (count_range (new_start g) (new_length g) ++ codes " @@")))

  unfoldable pub group_lines : List (List Op) → List Bytes
  unfolding hunk_header op_lines
  group_lines [] = []
  group_lines (g ∷ groups) = hunk_header g ∷ (op_lines g ++ group_lines groups)

  -- The lines of `writeUnified`.
  unfoldable pub unified_lines : Bytes → Bytes → List Op → List Bytes
  unfolding group_unified group_lines
  unified_lines name1 name2 ops = elim (group_unified ops) [
    | [] ↦ []
    | g ∷ groups ↦ (codes "--- " ++ name1) ∷ (codes "+++ " ++ name2) ∷ group_lines (g ∷ groups)
  ]

unfoldable pub print_all : List Bytes → Bytes
print_all [] = []
print_all (l ∷ lines) = l ++ (codes "\n" ++ print_all lines)

unfoldable pub write_unified : List Bytes → List Bytes → Bytes → Bytes → List Op → Bytes
unfolding unified_lines print_all
write_unified a b name1 name2 ops = print_all (unified_lines a b name1 name2 ops)
