-- ===== src/Patch/Tests.antt =====
-- Runs of patch, and the theorems about it at concrete files.
use mimixbox.Prelude.{
  ℕ, ◌≡◌, ◌≢◌, refl, ap, get_or, Bool, false, List, [], ◌∷◌, arith, Bytes, bytes_eq, codes, Result,
  ok, err,
}
use mimixbox.Golang.Int.{pos}
use mimixbox.Golang.Strings.{has_prefix, trim_space}
use mimixbox.Diff.Lines.{diff_lines, has_change}
use mimixbox.Diff.Unified.{write_unified, group_unified, print_all}
use mimixbox.Diff.Command.{too_many_cells, run as diff}
use mimixbox.Patch.Hunks.{Hunk, out_of_range, malformed_header}
use mimixbox.Patch.Apply.{apply_hunks, reverse_hunks}
use mimixbox.Patch.Apply.Steps.{hunks_of}
use mimixbox.Patch.Apply.Diffed.{apply_hunks-group_unified}
use mimixbox.Patch.Apply.Reversed.{apply_hunks-reverse_hunks}
use mimixbox.Patch.Parse.{parse_unified}
use mimixbox.Patch.Parse.RoundTrip.{IsName, parse_unified-write_unified}
use mimixbox.Patch.Command.{successful, run}
use mimixbox.Patch.Command.Diffed.{plain_options, run-diff}

abbrev no_fold : Bytes → Bytes → Bool
no_fold x y = false

abbrev old_lines : List Bytes
old_lines = codes "a" ∷ []

abbrev new_lines : List Bytes
new_lines = codes "b" ∷ []

-- Two hunks that overlap run past the place in the original.
abbrev first_line : Hunk
first_line = record {
  old_start = pos 1;
  old_len = pos 1;
  new_start = pos 1;
  new_len = pos 1;
  lines = codes " a" ∷ [];
}

overlapping : apply_hunks old_lines (first_line ∷ first_line ∷ []) ≡ err out_of_range
unfolding apply_hunks
overlapping = refl

-- A deleted line that begins with two dashes and a space is read as a file's header.
dashes :
    parse_unified (
      write_unified
        (codes "-- x" ∷ [])
        []
        (codes "f")
        (codes "g")
        (diff_lines no_fold (codes "-- x" ∷ []) [] false))
    ≡ err (malformed_header 4)
unfolding parse_unified write_unified diff_lines
dashes = refl

apply_hunks-group_unified_example :
    apply_hunks old_lines
      (hunks_of old_lines new_lines (group_unified (diff_lines no_fold old_lines new_lines false)))
    ≡ ok new_lines
apply_hunks-group_unified_example = apply_hunks-group_unified no_fold old_lines new_lines

apply_hunks-reverse_hunks_example :
    apply_hunks new_lines (
      reverse_hunks (
        hunks_of old_lines new_lines
          (group_unified (diff_lines no_fold old_lines new_lines false))))
    ≡ ok old_lines
apply_hunks-reverse_hunks_example = apply_hunks-reverse_hunks no_fold old_lines new_lines

header_f : IsName (codes "f")
unfolding trim_space
header_f = record { one_line = (omega arith, tt); trimmed = refl }

header_gg : IsName (codes "gg")
unfolding trim_space
header_gg = record { one_line = (omega arith, (omega arith, tt)); trimmed = refl }

parse_unified-write_unified_example :
    parse_unified (
      write_unified old_lines new_lines
        (codes "f")
        (codes "gg")
        (diff_lines no_fold old_lines new_lines false))
    ≡ ok (
        record {
          old_name = codes "f";
          new_name = codes "gg";
          hunks =
              hunks_of old_lines new_lines
                (group_unified (diff_lines no_fold old_lines new_lines false));
        }
        ∷ [])
unfolding has_prefix has_change diff_lines bytes_eq
parse_unified-write_unified_example =
    parse_unified-write_unified no_fold old_lines new_lines (codes "f") (codes "gg") false header_f
      header_gg ((omega arith, tt), tt) ((omega arith, tt), tt) (refl, tt) (omega arith)
      (omega arith) refl

differ : old_lines ≢ new_lines
differ e = apart (ap (λ l. get_or (get_or l 0 []) 0 0) e)
  where
    apart : ¬ (◌≡◌ {A = ℕ} b'a' b'b')
    apart h = omega arith

abbrev Disk : Type 0
Disk = Bytes

-- A disk of two files, one with a name of one byte, which is what the disk holds, and the other one
-- with a longer name; a file with a name of three bytes holds the patch.
abbrev read_from : Disk → Bytes → Result Bytes Bytes
read_from disk [] = err (codes "no name")
read_from disk (_ ∷ []) = ok disk
read_from disk (_ ∷ _ ∷ []) = ok (codes "b\n")
read_from disk (_ ∷ _ ∷ _ ∷ _) = ok (codes "--- f\n+++ gg\n@@ -1 +1 @@\n-a\n+b\n")

abbrev write_to : Disk → Bytes → Bytes → Result Bytes Disk
write_to disk file text = ok text

run-diff_example :
    run read_from write_to
      (λ e. [])
      (plain_options 0 (codes "f.p"))
      (codes "a\n")
      []
      (codes "f" ∷ [])
    ≡ record {
      disk = codes "b\n";
      out = codes "patching file f\n";
      errors = [];
      status = successful;
    }
unfolding has_prefix too_many_cells diff write_unified diff_lines bytes_eq print_all
run-diff_example =
    run-diff read_from write_to (λ e. []) no_fold (codes "a\n") (codes "b\n") (codes "f")
      (codes "gg") old_lines new_lines 0 b'f' b'f' (codes ".p") [] [] [] header_f header_gg
      ((omega arith, tt), tt) ((omega arith, tt), tt) (refl, tt) (omega arith) (omega arith) refl
      differ refl refl refl refl refl
