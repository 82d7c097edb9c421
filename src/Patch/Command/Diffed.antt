-- ===== src/Patch/Command/Diffed.antt =====
-- internal/applets/editors/patch/patch.go on what internal/applets/editors/diff/diff.go writes.
use mimixbox.Prelude.{
  ℕ, ◌≤◌, ◌≡◌, ◌≢◌, refl, ◌∙◌, ap, Bool, Bool-cases, inl, inr, true, false, List, [], ◌∷◌, ◌++◌,
  Bytes, codes, length, All, Result, ok,
}
use mimixbox.Golang.Int.{max_int}
use mimixbox.Diff.Lines.{has_change, diff_lines}
use mimixbox.Diff.Unified.{print_all, write_unified, group_unified}
use mimixbox.Diff.Command.Status.{AreSmall, has_change-diff_lines}
use mimixbox.Patch.Hunks.{FilePatch, Hunk, PatchError}
use mimixbox.Patch.Apply.{apply_hunks}
use mimixbox.Patch.Apply.Steps.{hunks_of}
use mimixbox.Patch.Apply.Diffed.{apply_hunks-group_unified}
use mimixbox.Patch.Parse.{parse_unified}
use mimixbox.Patch.Parse.Bounds.{IsPlain}
use mimixbox.Patch.Parse.RoundTrip.{IsLine, IsName, parse_unified-write_unified}
use mimixbox.Patch.Command.{
  Options, State, successful, applied, split_lines_keep, joined, written, apply_file,
  record_applied, target_of_patch, run_patch, run_patches, initial, first_or_empty, run_text, run,
}
use mimixbox.Diff.Command.{compare_lines, compare_files, Options as DiffOptions, run as diff}
use mimixbox.Patch.Command.Texts.{
  joined-print_all, split_lines_keep-print_all, read_lines-print_all,
}

-- What `diff -u` writes of two files that differ.
compare_lines_unified :
    (equal_fold : Bytes → Bytes → Bool) (name1 name2 : Bytes) (a b : List Bytes)
    → AreSmall a b
    → has_change (diff_lines equal_fold a b false) ≡ true
    → (compare_lines equal_fold
        (record { unified = true; brief = false; ignore_case = false })
        name1
        name2
        a
        b).out
      ≡ write_unified a b name1 name2 (diff_lines equal_fold a b false)
unfolding compare_lines
compare_lines_unified equal_fold name1 name2 a b h k = rw (h, k, compare_lines) refl

abbrev pub unified_options : DiffOptions
unified_options = record { unified = true; brief = false; ignore_case = false }

abbrev pub plain_options : ℕ → Bytes → Options
plain_options strip input = record {
  strip = strip;
  input = input;
  reverse = false;
  dry_run = false;
}

diff_changes :
    (equal_fold : Bytes → Bytes → Bool) (a b : List Bytes)
    → a ≢ b
    → has_change (diff_lines equal_fold a b false) ≡ true
diff_changes equal_fold a b differ =
    elim (Bool-cases (has_change (diff_lines equal_fold a b false))) [
      | inl e ↦ e
      | inr e ↦ absurd (differ ((has_change-diff_lines equal_fold a b).0 e))
    ]

module _ {D : Type 0} (read_file : D → Bytes → Result Bytes Bytes)
    (write_file : D → Bytes → Bytes → Result Bytes D) (message : PatchError → Bytes) where
  apply_file_written :
      (disk after : D) (target content : Bytes) (hunks : List Hunk) (lines : List Bytes)
      → read_file disk target ≡ ok content
      → apply_hunks (split_lines_keep content) hunks ≡ ok lines
      → write_file disk target (joined lines) ≡ ok after
      → apply_file read_file write_file message disk target hunks false ≡ applied after []
  unfolding apply_file written
  apply_file_written disk after target content hunks lines h k w =
      rw (h, apply_file) (rw (k, w, written) refl)

  run_patch_applied :
      (strip : ℕ) (input : Bytes) (s : State D) (after : D) (t : ℕ) (target : Bytes) (p : FilePatch)
      → apply_file read_file write_file message s.disk (t ∷ target) p.hunks false ≡ applied after []
      → run_patch read_file write_file message (plain_options strip input) (t ∷ target) s p
        ≡ record s {
          disk = after;
          out = s.out ++ (codes "patching file " ++ (t ∷ target ++ codes "\n"));
        }
  unfolding run_patch target_of_patch record_applied
  run_patch_applied strip input s after t target p k =
      ap (record_applied (plain_options strip input) (t ∷ target) s) k

  run_patches_one :
      (o : Options) (override : Bytes) (s : State D) (after : D) (out errors : Bytes)
      (p : FilePatch)
      → run_patch read_file write_file message o override s p
        ≡ record { disk = after; out = out; errors = errors; status = successful }
      → run_patches read_file write_file message o override s (p ∷ [])
        ≡ record { disk = after; out = out; errors = errors; status = successful }
  unfolding run_patches
  run_patches_one o override s after out errors p h = rw (h, run_patches) h

  run_text_one :
      (o : Options) (disk : D) (operands : List Bytes) (text : Bytes) (p : FilePatch)
      → parse_unified text ≡ ok (p ∷ [])
      → run_text read_file write_file message o disk operands text
        ≡ run_patches read_file write_file message o
            (first_or_empty operands)
            (initial disk)
            (p ∷ [])
  unfolding run_text
  run_text_one o disk operands text p h = rw (h, run_text) refl

  run_input :
      (strip c : ℕ) (input : Bytes) (disk : D) (stdin : Bytes) (operands : List Bytes)
      (text : Bytes)
      → read_file disk (c ∷ input) ≡ ok text
      → run read_file write_file message (plain_options strip (c ∷ input)) disk stdin operands
        ≡ run_text read_file write_file message (plain_options strip (c ∷ input)) disk operands text
  unfolding run
  run_input strip c input disk stdin operands text h = rw (h, run) refl

  diff_unified :
      (equal_fold : Bytes → Bytes → Bool) (disk : D) (name1 name2 : Bytes) (a b : List Bytes)
      → All IsLine a
      → All IsLine b
      → AreSmall a b
      → a ≢ b
      → read_file disk name1 ≡ ok (print_all a)
      → read_file disk name2 ≡ ok (print_all b)
      → (diff equal_fold unified_options (read_file disk) (name1 ∷ name2 ∷ [])).out
        ≡ write_unified a b name1 name2 (diff_lines equal_fold a b false)
  unfolding diff compare_files
  diff_unified equal_fold disk name1 name2 a b la lb small differ h k =
      rw (h, k, diff, compare_files)
        (rw (read_lines-print_all a la, read_lines-print_all b lb)
          (compare_lines_unified equal_fold name1 name2 a b small
            (diff_changes equal_fold a b differ)))

  -- `diff -u` of two files that differ, and then `patch -i` with what it wrote, its operand the first
  -- file or a copy, without -R and --dry-run: the operand becomes the second file, and nothing else is
  -- reported. The files are texts of lines that end in a line feed, few enough for the table of `diff`
  -- and for machine integers, none of the first beginning with "-- "; their names can stand in a
  -- header, and the disk accepts the write.
  pub run-diff :
      (equal_fold : Bytes → Bytes → Bool) (disk after : D) (name1 name2 : Bytes) (a b : List Bytes)
      (strip c t : ℕ) (input target stdin : Bytes) (operands : List Bytes)
      → IsName name1
      → IsName name2
      → All IsLine a
      → All IsLine b
      → All IsPlain a
      → length a ≤ max_int
      → length b ≤ max_int
      → AreSmall a b
      → a ≢ b
      → read_file disk name1 ≡ ok (print_all a)
      → read_file disk name2 ≡ ok (print_all b)
      → read_file disk (t ∷ target) ≡ ok (print_all a)
      → read_file disk (c ∷ input)
        ≡ ok ((diff equal_fold unified_options (read_file disk) (name1 ∷ name2 ∷ [])).out)
      → write_file disk (t ∷ target) (print_all b) ≡ ok after
      → run read_file write_file message
          (plain_options strip (c ∷ input))
          disk
          stdin
          ((t ∷ target) ∷ operands)
        ≡ record {
          disk = after;
          out = codes "patching file " ++ (t ∷ target ++ codes "\n");
          errors = [];
          status = successful;
        }
  run-diff equal_fold disk after name1 name2 a b strip c t input target stdin operands n1 n2 la lb
        pa ka kb small differ r1 r2 rt ri w =
      let ops = diff_lines equal_fold a b false in
      let text = write_unified a b name1 name2 ops in
      let hunks = hunks_of a b (group_unified ops) in
      let p : FilePatch = record { old_name = name1; new_name = name2; hunks = hunks } in
      let o = plain_options strip (c ∷ input) in
      let parsed =
        parse_unified-write_unified equal_fold a b name1 name2 false n1 n2 la lb pa ka kb
          (diff_changes equal_fold a b differ) in
      let copied =
        ap (λ l. apply_hunks l hunks) (split_lines_keep-print_all a la)
        ∙ apply_hunks-group_unified equal_fold a b in
      let done =
        apply_file_written disk after (t ∷ target) (print_all a) hunks b rt copied
          (ap (write_file disk (t ∷ target)) (joined-print_all b) ∙ w) in
      run_input strip c input disk stdin ((t ∷ target) ∷ operands) text
        (ri ∙ ap ok (diff_unified equal_fold disk name1 name2 a b la lb small differ r1 r2))
      ∙ run_text_one o disk ((t ∷ target) ∷ operands) text p parsed
      ∙ run_patches_one o (t ∷ target) (initial disk) after
          (codes "patching file " ++ (t ∷ target ++ codes "\n")) [] p
          (run_patch_applied strip (c ∷ input) (initial disk) after t target p done)
