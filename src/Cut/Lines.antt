-- ===== src/Cut/Lines.antt =====
-- The cut of one line, and of a whole input line by line, of
-- internal/applets/shellutils/cut/cut.go.
pub mod Runs
pub mod Fields
pub mod Input
use mimixbox.Prelude.{
  ℕ, zero, suc, ◌+◌, ◌≡◌, refl, Bool, true, false, not, ◌&&◌, ◌||◌, List, [], ◌∷◌, ◌++◌, Option,
  none, some, arith, ltb, ◌==◌, if◌then◌else◌, Bytes, codes, length,
}
use mimixbox.Golang.Utf8.{encode_rune, runes}
use mimixbox.Golang.Strings.{contains, join}
use mimixbox.Golang.Strings.Explode.{split_any}
use mimixbox.Cut.Ranges.{Rng, selected}

pub data Mode : Type 0 where
  mode_bytes mode_chars mode_fields : Mode

pub record Options : Type 0 where
  pub mode : Mode
  pub ranges : List Rng
  pub delimiter : Bytes
  pub output_delimiter : Bytes
  pub only_delimited : Bool
  pub complement : Bool
  pub line_delim : ℕ

unfoldable pub keep_pos : Options → ℕ → Bool
keep_pos opts p = if opts.complement then not (selected opts.ranges p) else selected opts.ranges p

-- What the loops write before a kept unit: the output delimiter where a new run begins and
-- something was written before.
unfoldable pub separator : Options → Bool → Bytes → Bytes
separator opts prev_kept [] = []
separator opts prev_kept (c ∷ b) = if prev_kept then [] else opts.output_delimiter

-- The loop of `cutBytes` and of `cutRunes`, by how a unit is written: `p` is the position of the
-- next unit, and `b` the text so far.
unfoldable pub cut_units : (ℕ → Bytes) → Options → ℕ → Bool → Bytes → List ℕ → Bytes
cut_units write opts p prev_kept b [] = b
cut_units write opts p prev_kept b (u ∷ units) =
    let dropped = cut_units write opts (p + 1) false b units in
    let kept =
      cut_units write opts (p + 1) true (b ++ (separator opts prev_kept b ++ write u)) units in
    if keep_pos opts p then kept else dropped

unfoldable pub write_byte : ℕ → Bytes
write_byte c = c ∷ []

unfoldable pub cut_bytes : Options → Bytes → Bytes
unfolding cut_units write_byte
cut_bytes opts line = cut_units write_byte opts 1 false [] line

unfoldable pub cut_runes : Options → Bytes → Bytes
unfolding cut_units encode_rune runes
cut_runes opts line = cut_units encode_rune opts 1 false [] (runes line)

unfoldable pub selected_fields : Options → ℕ → List Bytes → List Bytes
unfolding keep_pos
selected_fields opts p [] = []
selected_fields opts p (f ∷ fields) =
    let rest = selected_fields opts (p + 1) fields in if keep_pos opts p then f ∷ rest else rest

-- `none` where the line is not emitted.
unfoldable pub cut_fields : Options → Bytes → Option Bytes
unfolding selected_fields contains split_any join
cut_fields opts line =
    if not (contains line opts.delimiter)
    then (if opts.only_delimited then none else some line)
    else some (join (selected_fields opts 1 (split_any line opts.delimiter)) opts.output_delimiter)

cut_by : Mode → Options → Bytes → Option Bytes
unfolding cut_bytes cut_runes cut_fields
cut_by mode_fields opts line = cut_fields opts line
cut_by mode_chars opts line = some (cut_runes opts line)
cut_by mode_bytes opts line = some (cut_bytes opts line)

unfoldable pub cut_line : Options → Bytes → Option Bytes
unfolding cut_by
cut_line opts line = cut_by opts.mode opts line

-- The tokens of `splitOn`: the bytes up to each delimiter, and what is left at the end unless it
-- is empty. `cur` is the token so far.
unfoldable pub tokens : ℕ → Bytes → Bytes → List Bytes
tokens delim [] [] = []
tokens delim (c ∷ cur) [] = (c ∷ cur) ∷ []
tokens delim cur (c ∷ s) =
    let rest = tokens delim (cur ++ c ∷ []) s in
    if c == delim then cur ∷ tokens delim [] s else rest

written : ℕ → Option Bytes → Bytes
written delim none = []
written delim (some out) = out ++ delim ∷ []

unfoldable pub cut_lines : Options → List Bytes → Bytes
unfolding cut_line written
cut_lines opts [] = []
cut_lines opts (line ∷ lines) = written opts.line_delim (cut_line opts line) ++ cut_lines opts lines

unfoldable pub cut_reader : Options → Bytes → Bytes
unfolding tokens cut_lines
cut_reader opts input = cut_lines opts (tokens opts.line_delim [] input)
