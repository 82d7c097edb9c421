-- ===== src/Textproc/Tests.antt =====
-- Runs of the shared text processing, and the theorems about it at concrete inputs.
use mathlib.Core.List.{reverse}
use mathlib.Core.Option.{map}
use mimixbox.Prelude.{
  ◌≤◌, ◌<◌, ◌⊎◌, some, ℕ, ◌-◌, ◌≡◌, refl, Bool, true, false, [], ◌∷◌, ◌++◌, none, arith, max, codes,
  length, drop, leb,
}
use mimixbox.Golang.Int.{pos, negsuc, wrap, ◌+ℤ◌}
use mimixbox.Golang.Strconv.{itoa}
use mimixbox.Textproc.Counts.{add, count_reader}
use mimixbox.Textproc.Counts.Totals.{count_reader-add}
use mimixbox.Textproc.Records.{concat, read_string, head_records, tail_records, reverse_records}
use mimixbox.Textproc.Records.HeadTail.{all_records, tail_records-last, head_records-tail_records}
use mimixbox.Textproc.Records.Reversal.{unlines, reverse_records-unlines}
use mimixbox.Textproc.Numbering.{
  Numberer, number_none, number_all, justify_right_zero, format, write_to,
}
use mimixbox.Textproc.Numbering.Lines.{labelled, length-format, write_to-labelled}

abbrev printing : ℕ → Bool
printing r = leb 32 r

-- nl -ba -n rz with a width of 3.
abbrev all_lines : Numberer
all_lines = record {
  style = number_all;
  start = pos 9;
  increment = pos 1;
  width = 3;
  separator = codes " ";
  justify = justify_right_zero;
  pad_blank = true;
  pattern = none;
  sections = false;
  header_style = number_none;
  footer_style = number_none;
  header_regexp = none;
  footer_regexp = none;
  join_blank_lines = 1;
}

abbrev no_lines : Numberer
no_lines = record all_lines { style = number_none; pad_blank = false }

two_numbers : write_to all_lines (codes "a\nb") ≡ codes "009 a\n010 b"
unfolding write_to wrap ◌+ℤ◌
two_numbers = refl

two_words :
    count_reader printing (codes "ab c\n")
    ≡ record { lines = 1; words = 2; runes = 5; bytes = 5; max_line_width = 4 }
unfolding count_reader
two_words = refl

unterminated : reverse_records (codes "a\nb\nc") (codes "\n") ≡ codes "cb\na\n"
unfolding reverse_records
unterminated = refl

last_two : tail_records 9 b'\n' 2 (codes "a\nb\nc") ≡ some (codes "b\nc")
unfolding tail_records
last_two = refl

count_reader-add_example :
    count_reader printing (codes "ab" ++ b'\n' ∷ codes "c d")
    ≡ add (count_reader printing (codes "ab" ++ b'\n' ∷ [])) (count_reader printing (codes "c d"))
count_reader-add_example = count_reader-add printing (codes "ab") (codes "c d")

tail_records-last_example :
    ((2 ≤ 9)
      × (tail_records 9 b'\n' 2 (codes "a\nb\nc")
          ≡ some (
              concat (
                drop
                  (length (all_records b'\n' (codes "a\nb\nc")) - 2)
                  (all_records b'\n' (codes "a\nb\nc"))))))
    ⊎ ((9 < 2) × (tail_records 9 b'\n' 2 (codes "a\nb\nc") ≡ none))
tail_records-last_example = tail_records-last 9 b'\n' 1 (codes "a\nb\nc")

head_records-tail_records_example :
    map
      (λ t. head_records b'\n' 1 (codes "a\nb\nc") ++ t)
      (tail_records 9 b'\n' 2 (codes "a\nb\nc"))
    ≡ some (codes "a\nb\nc")
unfolding all_records read_string
head_records-tail_records_example =
    head_records-tail_records 9 b'\n' 1 1 (codes "a\nb\nc") (omega arith) refl

reverse_records-unlines_example :
    reverse_records (unlines b'\n' (codes "a" ∷ codes "b" ∷ [])) (b'\n' ∷ [])
    ≡ unlines b'\n' (reverse (codes "a" ∷ codes "b" ∷ []))
reverse_records-unlines_example =
    reverse_records-unlines b'\n' (codes "a" ∷ codes "b" ∷ [])
      (((λ e. omega arith), tt), (((λ e. omega arith), tt), tt))

length-format_example : length (format all_lines (negsuc 4)) ≡ max 3 (length (itoa (negsuc 4)))
length-format_example = length-format all_lines (negsuc 4) (omega arith)

write_to-labelled_example :
    write_to all_lines (codes "a\n\nb")
    ≡ labelled all_lines (pos 9) (all_records b'\n' (codes "a\n\nb"))
write_to-labelled_example = write_to-labelled all_lines (codes "a\n\nb") refl refl (omega arith)
