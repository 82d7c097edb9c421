-- ===== src/Cut/Command/Laws.antt =====
-- Whole runs of internal/applets/shellutils/cut/cut.go.
use mimixbox.Prelude.{
  ℕ, ◌≤◌, ◌≡◌, refl, ◌∙◌, sym, ap, Bool, true, false, not, List, [], ◌∷◌, ◌++◌, Option, none, some,
  arith, Bytes, codes, bytes_eq, append_assoc, append-nil, All, ok,
}
use mimixbox.Cut.Ranges.{Rng, parse_ranges, selected}
use mimixbox.Cut.Lines.{Options, mode_bytes, keep_pos, cut_line, cut_reader}
use mimixbox.Cut.Lines.Fields.{KeepsAll, cut_bytes-KeepsAll}
use mimixbox.Cut.Lines.Input.{PassesLines, terminated, cut_reader-terminated}
use mimixbox.Cut.Command.{
  Flags, Outcome, initial, report_or_cut, run_operand, run_operands, run, select_mode, ranges_of,
  options_of, build_options,
}

abbrev pub NotInput : Bytes → Type 0
NotInput name = bytes_eq name (b'-' ∷ []) ≡ false

abbrev is_nil : List Bytes → Bool
is_nil [] = true
is_nil (_ ∷ _) = false

module _ (open_file : Bytes → Option Bytes) (opts : Options) where
  -- What the files that can be read give, and the names of the others.
  abbrev pub cut_file : Option Bytes → Bytes
  cut_file none = []
  cut_file (some text) = cut_reader opts text

  unfoldable pub cut_files : List Bytes → Bytes
  cut_files [] = []
  cut_files (name ∷ names) = cut_file (open_file name) ++ cut_files names

  abbrev pub unread : Bytes → Option Bytes → List Bytes
  unread name none = name ∷ []
  unread name (some text) = []

  unfoldable pub unreadable : List Bytes → List Bytes
  unreadable [] = []
  unreadable (name ∷ names) = unread name (open_file name) ++ unreadable names

  -- The outcome `o` with more output and more names reported.
  abbrev pub extended : Outcome → Bytes → List Bytes → Outcome
  extended o out [] = record o { output = o.output ++ out }
  extended o out (name ∷ names) = record o {
    output = o.output ++ out;
    reported = o.reported ++ name ∷ names;
    failed = true;
  }

  run_operand_file :
      (o : Outcome) (name : Bytes)
      → NotInput name
      → run_operand open_file opts o name ≡ report_or_cut open_file opts name o (open_file name)
  unfolding run_operand
  run_operand_file o name h = rw h refl

  extended-report_or_cut :
      (o : Outcome) (name : Bytes) (content : Option Bytes) (out : Bytes) (bad : List Bytes)
      → extended (report_or_cut open_file opts name o content) out bad
        ≡ extended o (cut_file content ++ out) (unread name content ++ bad)
  unfolding report_or_cut
  extended-report_or_cut o name (some text) out [] =
      ap (λ t. record o { output = t }) (append_assoc o.output (cut_reader opts text) out)
  extended-report_or_cut o name (some text) out (b ∷ bad) =
      ap (λ t. record o { output = t; reported = o.reported ++ b ∷ bad; failed = true })
        (append_assoc o.output (cut_reader opts text) out)
  extended-report_or_cut o name none out [] = refl
  extended-report_or_cut o name none out (b ∷ bad) =
      ap (λ t. record o { output = o.output ++ out; reported = t; failed = true })
        (append_assoc o.reported (name ∷ []) (b ∷ bad))

  run_operands-files :
      (names : List Bytes) (o : Outcome)
      → All NotInput names
      → run_operands open_file opts o names ≡ extended o (cut_files names) (unreadable names)
  unfolding run_operands cut_files unreadable
  run_operands-files [] o h = ap (λ t. record o { output = t }) (sym (append-nil o.output))
  run_operands-files (name ∷ names) o h =
      ap (λ p. run_operands open_file opts p names) (run_operand_file o name h.0)
      ∙ run_operands-files names (report_or_cut open_file opts name o (open_file name)) h.1
      ∙ extended-report_or_cut o name (open_file name) (cut_files names) (unreadable names)

-- A run on operands of which none is "-" cuts each file that can be read, in order, reports the
-- others, and fails where there are others.
pub run-files :
    (open_file : Bytes → Option Bytes) (opts : Options) (input name : Bytes) (names : List Bytes)
    → All NotInput (name ∷ names)
    → run open_file opts input (name ∷ names) ≡ record {
      rest_of_input = input;
      output = cut_files open_file opts (name ∷ names);
      reported = unreadable open_file opts (name ∷ names);
      failed = not (is_nil (unreadable open_file opts (name ∷ names)));
    }
unfolding run initial
run-files open_file opts input name names h =
    run_operands-files open_file opts (name ∷ names) (initial input) h
    ∙ started (unreadable open_file opts (name ∷ names))
  where
    started :
        (bad : List Bytes)
        → extended open_file opts (initial input) (cut_files open_file opts (name ∷ names)) bad
          ≡ record {
            rest_of_input = input;
            output = cut_files open_file opts (name ∷ names);
            reported = bad;
            failed = not (is_nil bad);
          }
    started [] = refl
    started (b ∷ bad) = refl

-- The range of the LIST "1-".
abbrev from_one : List Rng
from_one = record { lo = 1; hi = 0 } ∷ []

selected-from_one : (p : ℕ) → 1 ≤ p → selected from_one p ≡ true
unfolding selected
selected-from_one p h = ground arith

PassesLines-from_one :
    (flags : Flags) → flags.complement ≡ false → PassesLines (options_of flags mode_bytes from_one)
unfolding cut_line options_of
PassesLines-from_one flags h line =
    ap some (cut_bytes-KeepsAll (options_of flags mode_bytes from_one) line keeps)
  where
    keeps : KeepsAll (options_of flags mode_bytes from_one)
    keeps p low = unfold keep_pos in rw (h, selected-from_one p low) refl

build_options-from_one :
    (flags : Flags)
    → flags.bytes_list ≡ codes "1-"
    → flags.chars_list ≡ []
    → flags.fields_list ≡ []
    → build_options flags ≡ ok (options_of flags mode_bytes from_one)
unfolding build_options select_mode ranges_of parse_ranges
build_options-from_one flags b c f = rw (b, c, f) refl

-- `cut -b 1-` without --complement, whatever the delimiters are, is accepted, copies its input
-- and terminates its last line.
pub cut_reader-from_one :
    (flags : Flags) (input : Bytes)
    → flags.bytes_list ≡ codes "1-"
    → flags.chars_list ≡ []
    → flags.fields_list ≡ []
    → flags.complement ≡ false
    → (opts : Options) × (build_options flags ≡ ok opts)
      × (cut_reader opts input ≡ terminated opts.line_delim input)
cut_reader-from_one flags input b c f whole =
    let opts : Options = options_of flags mode_bytes from_one in
    (
      opts,
      build_options-from_one flags b c f,
      cut_reader-terminated opts input (PassesLines-from_one flags whole),
    )
