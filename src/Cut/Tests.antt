-- ===== src/Cut/Tests.antt =====
-- Runs of cut, and the theorems about it at concrete inputs.
use mimixbox.Prelude.{
  ℕ, ◌≡◌, refl, true, false, List, [], ◌∷◌, Option, none, some, inl, inr, arith, Bytes, codes, All,
  ok, err, bytes_eq, length, if◌then◌else◌,
}
use mimixbox.Golang.Strings.{contains, split, join}
use mimixbox.Golang.Strings.Explode.{split_any}
use mimixbox.Cut.Ranges.{invalid_list, Rng, parse_ranges, parse_items, merge_ranges, selected}
use mimixbox.Cut.Ranges.Covered.{IsRange, covered}
use mimixbox.Cut.Ranges.Merge.{selected-merge_ranges}
use mimixbox.Cut.Ranges.Gaps.{Separate, Apart, merge_ranges-Apart}
use mimixbox.Cut.Ranges.Parsed.{parse_ranges-selected}
use mimixbox.Cut.Ranges.Print.{print_ranges, parse_ranges-print_ranges}
use mimixbox.Cut.Lines.{
  Options, keep_pos, separator, Mode, mode_bytes, mode_chars, mode_fields, cut_bytes, cut_runes,
  cut_fields, selected_fields, cut_line, cut_reader,
}
use mimixbox.Cut.Lines.Runs.{write_all, cut_bytes-runs, cut_runes-runs}
use mimixbox.Cut.Lines.Fields.{kept_positions, fields_at, cut_fields-kept_positions}
use mimixbox.Cut.Command.{Flags, run}
use mimixbox.Cut.Command.Laws.{cut_files, unreadable, run-files}

abbrev first : Rng
first = record { lo = 1; hi = 2 }

abbrev third : Rng
third = record { lo = 4; hi = 0 }

abbrev by_bytes : Options
by_bytes = record {
  mode = mode_bytes;
  ranges = first ∷ third ∷ [];
  delimiter = codes ":";
  output_delimiter = codes "-";
  only_delimited = false;
  complement = false;
  line_delim = b'\n';
}

abbrev by_fields : Options
by_fields = record by_bytes { mode = mode_fields; output_delimiter = codes ":" }

abbrev flags_all : Flags
flags_all = record {
  bytes_list = codes "1-";
  chars_list = [];
  fields_list = [];
  delimiter = codes ":";
  output_delimiter = some (codes "-");
  only_delimited = false;
  complement = false;
  zero_terminated = false;
}

abbrev files : Bytes → Option Bytes
files name = if bytes_eq name (codes "a") then some (codes "abcde\nxy") else none

bytes_3 : cut_bytes by_bytes (codes "abcde") ≡ codes "ab-de"
unfolding cut_bytes keep_pos selected separator
bytes_3 = refl

fields_3 : cut_fields by_fields (codes "a:b:c:d") ≡ some (codes "a:b:d")
unfolding cut_fields selected
fields_3 = refl

selected-merge_ranges_example :
    selected (merge_ranges (third ∷ first ∷ [])) 3 ≡ covered (third ∷ first ∷ []) 3
selected-merge_ranges_example =
    selected-merge_ranges (third ∷ first ∷ []) 3
      ((omega arith, inl refl), ((omega arith, inr (omega arith)), tt))

merge_ranges-Apart_example : Apart (merge_ranges (third ∷ first ∷ []))
merge_ranges-Apart_example =
    merge_ranges-Apart (third ∷ first ∷ []) (omega arith, (omega arith, tt))

-- A range that ends at the largest `int` is not merged with one inside it.
inside_largest :
    parse_ranges (codes "1-9223372036854775807,5-6")
    ≡ ok (record { lo = 1; hi = 9223372036854775807 } ∷ record { lo = 5; hi = 6 } ∷ [])
unfolding parse_ranges
inside_largest = refl

parse_ranges-selected_example :
    (items : List Rng) × (parse_items (split (codes "4-, 1-2") (b',' ∷ [])) ≡ ok items)
    × All IsRange items
    × Separate (first ∷ third ∷ [])
    × ((p : ℕ) → selected (first ∷ third ∷ []) p ≡ covered items p)
unfolding parse_ranges
parse_ranges-selected_example = parse_ranges-selected (codes "4-, 1-2") refl

parse_ranges-print_ranges_example :
    parse_ranges (print_ranges (third ∷ first ∷ [])) ≡ ok (merge_ranges (third ∷ first ∷ []))
parse_ranges-print_ranges_example =
    parse_ranges-print_ranges third (first ∷ [])
      ((omega arith, inl refl), ((omega arith, inr (omega arith)), tt))
      ((omega arith, omega arith), ((omega arith, omega arith), tt))

cut_bytes-runs_example :
    cut_bytes by_bytes (codes "abcde")
    ≡ join (mimixbox.Cut.Lines.Runs.runs by_bytes 1 [] (codes "abcde")) (codes "-")
cut_bytes-runs_example = cut_bytes-runs by_bytes (codes "abcde")

cut_fields-kept_positions_example :
    cut_fields by_fields (codes "a:b:c:d")
    ≡ some (
        join
          (fields_at
            (split_any (codes "a:b:c:d") (b':' ∷ []))
            (kept_positions by_fields (length (split_any (codes "a:b:c:d") (b':' ∷ [])))))
          (by_fields.output_delimiter))
unfolding contains
cut_fields-kept_positions_example = cut_fields-kept_positions by_fields (codes "a:b:c:d") refl

run-files_example : run files by_bytes [] (codes "b" ∷ codes "a" ∷ []) ≡ record {
  rest_of_input = [];
  output = cut_files files by_bytes (codes "b" ∷ codes "a" ∷ []);
  reported = unreadable files by_bytes (codes "b" ∷ codes "a" ∷ []);
  failed = true;
}
unfolding bytes_eq unreadable
run-files_example = run-files files by_bytes [] (codes "b") (codes "a" ∷ []) (refl, (refl, tt))

sample :
    parse_ranges (codes "7-, 3-5,1 ,5-6")
    ≡ ok (record { lo = 1; hi = 1 } ∷ record { lo = 3; hi = 0 } ∷ [])
unfolding parse_ranges
sample = refl

signs : parse_ranges (codes "+1") ≡ err invalid_list
unfolding parse_ranges
signs = refl
