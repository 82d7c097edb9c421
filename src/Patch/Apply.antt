-- ===== src/Patch/Apply.antt =====
-- `reverseHunks` and `applyHunks` of internal/applets/editors/patch/parse.go.
pub mod Steps
pub mod Diffed
pub mod Reversed
use mimixbox.Prelude.{
  ℕ, zero, suc, ◌+◌, ◌-◌, ◌^◌, ◌≤◌, ◌≡◌, refl, Bool, true, false, List, [], ◌∷◌, ◌++◌, arith, leb,
  ltb, ◌==◌, if◌then◌else◌, Option, none, some, Bytes, bytes_eq, length, get_elem?, take, drop,
  Result, ok, err,
}
use mimixbox.Prelude.Indices.{slice}
use mimixbox.Golang.Int.{ℤ, pos, negsuc}
use mimixbox.Patch.Hunks.{
  Hunk, FilePatch, PatchError, start_beyond_end, context_mismatch, delete_mismatch, out_of_range,
}

-- `reverseHunks` on one line.
unfoldable pub reverse_line : Bytes → Bytes
reverse_line [] = []
reverse_line (c ∷ text) =
    if c == b'-' then b'+' ∷ text else if c == b'+' then b'-' ∷ text else c ∷ text

unfoldable pub reverse_lines : List Bytes → List Bytes
unfolding reverse_line
reverse_lines [] = []
reverse_lines (l ∷ lines) = reverse_line l ∷ reverse_lines lines

unfoldable pub reverse_hunk : Hunk → Hunk
unfolding reverse_lines
reverse_hunk h = record {
  old_start = h.new_start;
  old_len = h.new_len;
  new_start = h.old_start;
  new_len = h.old_len;
  lines = reverse_lines h.lines;
}

unfoldable pub reverse_hunks : List Hunk → List Hunk
unfolding reverse_hunk
reverse_hunks [] = []
reverse_hunks (h ∷ hunks) = reverse_hunk h ∷ reverse_hunks hunks

-- `h.oldStart - 1`, or 0 where that is negative; the least integer wraps around.
unfoldable pub target_of : ℤ → ℕ
target_of (pos n) = n - 1
target_of (negsuc n) = if n == 2 ^ 63 - 1 then 2 ^ 63 - 1 else 0

-- The place in the original and the output so far.
pub record Progress : Type 0 where
  pub pos : ℕ
  pub out : List Bytes

-- `pos < len(orig) && orig[pos] == text`.
unfoldable pub line_is : List Bytes → ℕ → Bytes → Bool
unfolding bytes_eq
line_is [] i text = false
line_is (l ∷ orig) zero text = bytes_eq l text
line_is (l ∷ orig) (suc i) text = line_is orig i text

module _ (orig : List Bytes) where
  -- One round of the loop over the lines of a hunk.
  unfoldable pub apply_line : Bytes → Progress → Result PatchError Progress
  unfolding line_is
  apply_line [] p = err out_of_range
  apply_line (tag ∷ text) p =
      if tag == b' '
      then if line_is orig p.pos text
        then ok (record { pos = suc p.pos; out = p.out ++ text ∷ [] })
        else err (context_mismatch (p.pos + 1))
      else if tag == b'-'
      then if line_is orig p.pos text
        then ok (record p { pos = suc p.pos })
        else err (delete_mismatch (p.pos + 1))
      else if tag == b'+'
      then ok (record p { out = p.out ++ text ∷ [] })
      else ok p

  unfoldable pub apply_lines : List Bytes → Progress → Result PatchError Progress
  unfolding apply_line
  apply_lines [] p = ok p
  apply_lines (l ∷ lines) p = elim (apply_line l p) [ err e ↦ err e | ok q ↦ apply_lines lines q ]

  -- One round of the loop over the hunks: `orig[pos:target]` panics where `target` is before `pos`.
  unfoldable pub apply_hunk : Hunk → Progress → Result PatchError Progress
  unfolding apply_lines target_of
  apply_hunk h p =
      let target = target_of h.old_start in
      if ltb (length orig) target
      then err (start_beyond_end h.old_start)
      else if ltb target p.pos
      then err out_of_range
      else apply_lines h.lines (record { pos = target; out = p.out ++ slice p.pos target orig })

  unfoldable pub apply_loop : List Hunk → Progress → Result PatchError (List Bytes)
  unfolding apply_hunk
  apply_loop [] p = ok (p.out ++ drop p.pos orig)
  apply_loop (h ∷ hunks) p = elim (apply_hunk h p) [ err e ↦ err e | ok q ↦ apply_loop hunks q ]

  unfoldable pub apply_hunks : List Hunk → Result PatchError (List Bytes)
  unfolding apply_loop
  apply_hunks hunks = apply_loop hunks record { pos = 0; out = [] }
