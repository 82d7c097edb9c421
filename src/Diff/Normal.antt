-- ===== src/Diff/Normal.antt =====
-- The classic output of internal/applets/editors/diff/format.go: `collectHunks` and `writeNormal`.
pub mod Classic
pub mod Runs
use mimixbox.Prelude.{
  ℕ, zero, suc, ◌+◌, ◌≤◌, ◌≡◌, refl, Bool, true, false, List, [], ◌∷◌, ◌++◌, arith, ◌==◌,
  if◌then◌else◌, Option, none, some, Bytes, codes, length, get_or,
}
use mimixbox.Golang.Strconv.{format_nat}
use mimixbox.Diff.Lines.{Op, OpKind, op_equal, op_delete, op_insert, is_equal}

pub record Hunk : Type 0 where
  pub a_pos : ℕ
  pub b_pos : ℕ
  pub dels : List ℕ
  pub ins : List ℕ

unfoldable pub new_hunk : Op → Hunk
new_hunk o = record { a_pos = o.ai; b_pos = o.bi; dels = []; ins = [] }

-- One round of the inner loop of `collectHunks`, at an operation that is not `opEqual`.
unfoldable pub add_op : Hunk → Op → Hunk
add_op h o = elim o.kind [
  | op_delete ↦ record h { dels = h.dels ++ o.ai ∷ [] }
  | op_equal ↦ h
  | op_insert ↦ record h { ins = h.ins ++ o.bi ∷ [] }
]

-- `collectHunks`: with `none` the outer loop, with the hunk so far the inner one.
unfoldable pub collect_from : Option Hunk → List Op → List Hunk
unfolding new_hunk add_op is_equal
collect_from none [] = []
collect_from (some h) [] = h ∷ []
collect_from none (o ∷ ops) = elim (is_equal o.kind) [
  | true ↦ collect_from none ops
  | false ↦ collect_from (some (add_op (new_hunk o) o)) ops
]
collect_from (some h) (o ∷ ops) = elim (is_equal o.kind) [
  | true ↦ h ∷ collect_from none ops
  | false ↦ collect_from (some (add_op h o)) ops
]

unfoldable pub collect_hunks : List Op → List Hunk
unfolding collect_from
collect_hunks ops = collect_from none ops

unfoldable pub range_str : ℕ → ℕ → Bytes
unfolding format_nat
range_str start stop =
    if start == stop then format_nat start else format_nat start ++ (codes "," ++ format_nat stop)

unfoldable pub print_lines : Bytes → List Bytes → List ℕ → Bytes
print_lines prefix src [] = []
print_lines prefix src (i ∷ idx) =
    prefix ++ (get_or src i [] ++ (codes "\n" ++ print_lines prefix src idx))

module _ (a b : List Bytes) where
  -- One round of the loop of `writeNormal`.
  unfoldable pub write_hunk : Hunk → Bytes
  unfolding range_str print_lines format_nat
  write_hunk h =
      let a_range = range_str (h.a_pos + 1) (h.a_pos + length h.dels) in
      let b_range = range_str (h.b_pos + 1) (h.b_pos + length h.ins) in
      if length h.ins == 0
      then a_range
        ++ (codes "d" ++ (format_nat h.b_pos ++ (codes "\n" ++ print_lines (codes "< ") a h.dels)))
      else if length h.dels == 0
      then format_nat h.a_pos
        ++ (codes "a" ++ (b_range ++ (codes "\n" ++ print_lines (codes "> ") b h.ins)))
      else a_range
        ++ (codes "c"
            ++ (b_range
                ++ (codes "\n"
                    ++ (print_lines (codes "< ") a h.dels
                        ++ (codes "---\n" ++ print_lines (codes "> ") b h.ins)))))

  unfoldable pub write_hunks : List Hunk → Bytes
  unfolding write_hunk
  write_hunks [] = []
  write_hunks (h ∷ hunks) = write_hunk h ++ write_hunks hunks

  unfoldable pub write_normal : List Op → Bytes
  unfolding write_hunks collect_hunks
  write_normal ops = write_hunks (collect_hunks ops)
