-- ===== src/Patch/Command.antt =====
-- internal/applets/editors/patch/patch.go behind the option parser. The disk is a parameter:
-- `read_file` gives the bytes of a file or the text of `command.FileError`, `write_file` the disk
-- after the write or the text of its error. `message` is the text of the errors of the parser, which
-- quotes with `%q` and names the errors of `strconv`.
pub mod Texts
pub mod Diffed
use mimixbox.Prelude.{
  ℕ, zero, suc, ◌+◌, ◌≡◌, Bool, true, false, List, [], ◌∷◌, ◌++◌, if◌then◌else◌, Option, none, some,
  Bytes, codes, Result, ok, err,
}
use mimixbox.Golang.Bufio.{scan_lines}
use mimixbox.Golang.Strings.{split, join, cut_at, trim_space}
use mimixbox.Diff.Lines.{trim_newline, read_lines}
use mimixbox.Diff.Unified.{print_all}
use mimixbox.Patch.Hunks.{Hunk, FilePatch, PatchError, out_of_range}
use mimixbox.Patch.Apply.{reverse_hunks, apply_hunks}
use mimixbox.Patch.Parse.{parse_unified}

pub record Options : Type 0 where
  pub strip : ℕ
  pub input : Bytes
  pub reverse : Bool
  pub dry_run : Bool

-- The part before the first byte `c`, or the whole text.
unfoldable pub before_byte : ℕ → Bytes → Bytes
unfolding cut_at
before_byte c s = elim (cut_at c s) [ none ↦ s | some (before, after) ↦ before ]

unfoldable pub behind_byte : ℕ → Bytes → Bytes
unfolding cut_at
behind_byte c s = elim (cut_at c s) [ none ↦ s | some (before, after) ↦ after ]

unfoldable pub strip_loop : ℕ → Bytes → Bytes
unfolding behind_byte
strip_loop zero name = name
strip_loop (suc n) name = strip_loop n (behind_byte b'/' name)

unfoldable pub strip_components : Bytes → ℕ → Bytes
unfolding strip_loop before_byte trim_space
strip_components name n = strip_loop n (before_byte b'\t' (trim_space name))

unfoldable pub pick_name : FilePatch → ℕ → Bool → Bytes
unfolding strip_components
pick_name p strip reverse = strip_components (if reverse then p.old_name else p.new_name) strip

-- `splitLinesKeep`.
unfoldable pub split_lines_keep : Bytes → List Bytes
unfolding trim_newline split
split_lines_keep [] = []
split_lines_keep (c ∷ s) = split (trim_newline (c ∷ s)) (codes "\n")

-- The text of the patched lines.
unfoldable pub joined : List Bytes → Bytes
unfolding join
joined [] = []
joined (l ∷ lines) = join (l ∷ lines) (codes "\n") ++ codes "\n"

-- How a run stands: the failures so far, or a panic of the Go runtime, which ends the process.
pub data Status : Type 0 where
  successful failed panicked : Status

-- How `applyFile` ends: with the disk and the output, an error, or a panic.
pub data Applied (D : Type 0) : Type 0 where
  applied : D → Bytes → Applied D
  refused : Bytes → Applied D
  aborted : Applied D

pub record State (D : Type 0) : Type 0 where
  pub disk : D
  pub out : Bytes
  pub errors : Bytes
  pub status : Status

-- `override`, or the name that the patch gives.
unfoldable pub target_of_patch : Options → Bytes → FilePatch → Bytes
unfolding pick_name
target_of_patch o [] p = pick_name p o.strip o.reverse
target_of_patch o (c ∷ override) p = c ∷ override

-- The end of one round of the loop over the patches.
unfoldable pub record_applied : {D : Type 0} → Options → Bytes → State D → Applied D → State D
record_applied o target s aborted = record s { status = panicked }
record_applied o target s (refused e) = record s {
  errors = s.errors ++ (codes "patch: " ++ (e ++ codes "\n"));
  status = failed;
}
record_applied o target s (applied d out) = record s {
  disk = d;
  out =
      s.out
      ++ (out ++ (if o.dry_run then [] else codes "patching file " ++ (target ++ codes "\n")));
}

abbrev pub initial : {D : Type 0} → D → State D
initial disk = record { disk = disk; out = []; errors = []; status = successful }

abbrev pub failure : {D : Type 0} → D → Bytes → State D
failure disk text = record {
  disk = disk;
  out = [];
  errors = codes "patch: " ++ (text ++ codes "\n");
  status = failed;
}

abbrev pub first_or_empty : List Bytes → Bytes
first_or_empty [] = []
first_or_empty (name ∷ _) = name

module _ {D : Type 0} (read_file : D → Bytes → Result Bytes Bytes)
    (write_file : D → Bytes → Bytes → Result Bytes D) (message : PatchError → Bytes) where
  unfoldable pub written : D → Bytes → Bytes → Applied D
  written disk target text = elim (write_file disk target text) [
    | err e ↦ refused e
    | ok d ↦ applied d []
  ]

  unfoldable pub refusal : Bytes → PatchError → Applied D
  refusal target out_of_range = aborted
  refusal target e = refused (target ++ (codes ": " ++ message e))

  unfoldable pub apply_file : D → Bytes → List Hunk → Bool → Applied D
  unfolding written refusal joined apply_hunks split_lines_keep
  apply_file disk target hunks dry_run = elim (read_file disk target) [
    | err e ↦ refused (codes "cannot open " ++ e)
    | ok content ↦ elim (apply_hunks (split_lines_keep content) hunks) [
      | err e ↦ refusal target e
      | ok lines ↦
          if dry_run
          then applied disk (codes "checking file " ++ (target ++ codes "\n"))
          else written disk target (joined lines)
    ]
  ]

  unfoldable pub run_patch : Options → Bytes → State D → FilePatch → State D
  unfolding record_applied target_of_patch apply_file reverse_hunks
  run_patch o override s p =
      let target = target_of_patch o override p in
      let hunks = if o.reverse then reverse_hunks p.hunks else p.hunks in
      record_applied o target s (apply_file s.disk target hunks o.dry_run)

  unfoldable pub run_patches : Options → Bytes → State D → List FilePatch → State D
  unfolding run_patch
  run_patches o override s [] = s
  run_patches o override s (p ∷ patches) =
      let t = run_patch o override s p in
      elim t.status [
        | panicked ↦ t
        | successful ↦ run_patches o override t patches
        | failed ↦ run_patches o override t patches
      ]

  unfoldable pub run_text : Options → D → List Bytes → Bytes → State D
  unfolding parse_unified run_patches
  run_text o disk operands text = elim (parse_unified text) [
    | err e ↦ failure disk (message e)
    | ok [] ↦ failure disk (codes "no valid patches in input")
    | ok (p ∷ patches) ↦ run_patches o (first_or_empty operands) (initial disk) (p ∷ patches)
  ]

  unfoldable pub run : Options → D → Bytes → List Bytes → State D
  unfolding run_text scan_lines print_all
  run o disk stdin operands = elim o.input [
    | [] ↦ run_text o disk operands (print_all (scan_lines stdin))
    | c ∷ input ↦ elim (read_file disk (c ∷ input)) [
      | err e ↦ failure disk e
      | ok text ↦ run_text o disk operands text
    ]
  ]
