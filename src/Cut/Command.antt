-- ===== src/Cut/Command.antt =====
-- `buildOptions`, `selectMode` and `run` of internal/applets/shellutils/cut/cut.go, behind the
-- parsing of the command line. `os.Open` with what it reads is the parameter `open_file`.
pub mod Laws
use mimixbox.Prelude.{
  ℕ, Bool, true, false, List, [], ◌∷◌, ◌++◌, Option, none, some, if◌then◌else◌, Bytes, bytes_eq,
  Result, ok, err, ◌>>=◌,
}
use mimixbox.Cut.Ranges.{ListError, Rng, parse_ranges}
use mimixbox.Cut.Lines.{Options, Mode, mode_bytes, mode_chars, mode_fields, cut_reader}

pub data UsageError : Type 0 where
  no_list : UsageError
  many_lists : UsageError
  bad_list : ListError → UsageError

-- The values of the options; `output_delimiter` is `none` where the option is not given.
pub record Flags : Type 0 where
  pub bytes_list : Bytes
  pub chars_list : Bytes
  pub fields_list : Bytes
  pub delimiter : Bytes
  pub output_delimiter : Option Bytes
  pub only_delimited : Bool
  pub complement : Bool
  pub zero_terminated : Bool

-- By which of the three lists are empty.
select_mode_of : Bytes → Bytes → Bytes → Result UsageError (Mode × Bytes)
select_mode_of [] [] [] = err no_list
select_mode_of (b ∷ bs) [] [] = ok (mode_bytes, b ∷ bs)
select_mode_of [] (c ∷ cs) [] = ok (mode_chars, c ∷ cs)
select_mode_of [] [] (f ∷ fs) = ok (mode_fields, f ∷ fs)
select_mode_of (_ ∷ _) (_ ∷ _) fs = err many_lists
select_mode_of (_ ∷ _) [] (_ ∷ _) = err many_lists
select_mode_of [] (_ ∷ _) (_ ∷ _) = err many_lists

unfoldable pub select_mode : Flags → Result UsageError (Mode × Bytes)
unfolding select_mode_of
select_mode flags = select_mode_of flags.bytes_list flags.chars_list flags.fields_list

-- The default of the output delimiter.
default_delimiter : Mode → Bytes → Bytes
default_delimiter mode_fields delimiter = delimiter
default_delimiter mode_bytes delimiter = []
default_delimiter mode_chars delimiter = []

out_delimiter : Mode → Bytes → Option Bytes → Bytes
unfolding default_delimiter
out_delimiter mode delimiter (some given) = given
out_delimiter mode delimiter none = default_delimiter mode delimiter

unfoldable pub options_of : Flags → Mode → List Rng → Options
unfolding out_delimiter
options_of flags mode ranges = record {
  mode = mode;
  ranges = ranges;
  delimiter = flags.delimiter;
  output_delimiter = out_delimiter mode flags.delimiter flags.output_delimiter;
  only_delimited = flags.only_delimited;
  complement = flags.complement;
  line_delim = if flags.zero_terminated then 0 else b'\n';
}

unfoldable pub ranges_of : Bytes → Result UsageError (List Rng)
unfolding parse_ranges
ranges_of list = elim (parse_ranges list) [ ok ranges ↦ ok ranges | err e ↦ err (bad_list e) ]

unfoldable pub build_options : Flags → Result UsageError Options
unfolding select_mode ranges_of options_of
build_options flags = do
  chosen ← select_mode flags
  ranges ← ranges_of chosen.1
  ok (options_of flags chosen.0 ranges)

-- What a run leaves: what standard input still holds, the output, the operands that were reported
-- on standard error, and whether the run fails.
pub record Outcome : Type 0 where
  pub rest_of_input : Bytes
  pub output : Bytes
  pub reported : List Bytes
  pub failed : Bool

unfoldable pub initial : Bytes → Outcome
initial input = record { rest_of_input = input; output = []; reported = []; failed = false }

module _ (open_file : Bytes → Option Bytes) where
  unfoldable pub report_or_cut : Options → Bytes → Outcome → Option Bytes → Outcome
  report_or_cut opts name o (some text) = record o { output = o.output ++ cut_reader opts text }
  report_or_cut opts name o none = record o { reported = o.reported ++ name ∷ []; failed = true }

  -- One operand; "-" reads what standard input still holds.
  unfoldable pub run_operand : Options → Outcome → Bytes → Outcome
  unfolding report_or_cut
  run_operand opts o name =
      let from_input =
        report_or_cut opts name (record o { rest_of_input = [] }) (some o.rest_of_input) in
      let from_file = report_or_cut opts name o (open_file name) in
      if bytes_eq name (b'-' ∷ []) then from_input else from_file

  unfoldable pub run_operands : Options → Outcome → List Bytes → Outcome
  unfolding run_operand
  run_operands opts o [] = o
  run_operands opts o (name ∷ names) = run_operands opts (run_operand opts o name) names

  unfoldable pub run : Options → Bytes → List Bytes → Outcome
  unfolding run_operands initial
  run opts input [] = run_operands opts (initial input) ((b'-' ∷ []) ∷ [])
  run opts input (name ∷ names) = run_operands opts (initial input) (name ∷ names)
