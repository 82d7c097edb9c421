-- ===== src/Textproc/Counts.antt =====
-- `Count`, `Add` and `CountReader` of internal/textproc/textproc.go. The table of printing
-- characters, `unicode.IsPrint`, is the parameter `is_print`.
pub mod Totals
use mimixbox.Prelude.{
  ℕ, ◌+◌, ◌≡◌, refl, Bool, true, false, not, ◌&&◌, ◌||◌, List, [], ◌∷◌, ltb, leb, ◌==◌,
  if◌then◌else◌, max, Bytes, length,
}
use mimixbox.Golang.Utf8.{rune_error, encode_rune, Symbol, valid, invalid, symbols}

pub record Count : Type 0 where
  pub lines : ℕ
  pub words : ℕ
  pub runes : ℕ
  pub bytes : ℕ
  pub max_line_width : ℕ

unfoldable pub add : Count → Count → Count
add c o = record {
  lines = c.lines + o.lines;
  words = c.words + o.words;
  runes = c.runes + o.runes;
  bytes = c.bytes + o.bytes;
  max_line_width =
      if ltb c.max_line_width o.max_line_width then o.max_line_width else c.max_line_width;
}

-- `unicode.IsSpace`.
unfoldable pub is_space_rune : ℕ → Bool
is_space_rune r =
    r == b' '
    || (leb 9 r && leb r 13)
    || r == 0x85
    || r == 0xA0
    || r == 0x1680
    || (leb 0x2000 r && leb r 0x200A)
    || r == 0x2028
    || r == 0x2029
    || r == 0x202F
    || r == 0x205F
    || r == 0x3000

-- What `ReadRune` gives for a symbol: its rune and its size.
rune_of : Symbol → ℕ
rune_of (valid r) = r
rune_of (invalid _) = rune_error

size_of : Symbol → ℕ
unfolding encode_rune
size_of (valid r) = length (encode_rune r)
size_of (invalid _) = 1

is_invalid : Symbol → Bool
is_invalid (valid _) = false
is_invalid (invalid _) = true

-- The variables of `CountReader`.
pub record Progress : Type 0 where
  pub c : Count
  pub in_word : Bool
  pub line_width : ℕ

-- `if lineWidth > c.MaxLineWidth`.
unfoldable pub widened : Count → ℕ → Count
widened c w = if ltb c.max_line_width w then record c { max_line_width = w } else c

unfoldable pub read_size : ℕ → Progress → Progress
read_size size p = record p { c = record p.c { bytes = p.c.bytes + size; runes = p.c.runes + 1 } }

unfoldable pub read_line_end : ℕ → Progress → Progress
unfolding widened
read_line_end r p =
    if r == b'\n'
    then record p {
      c = widened (record p.c { lines = p.c.lines + 1 }) p.line_width;
      line_width = 0;
    }
    else record p { line_width = p.line_width + 1 }

unfoldable pub finish : Progress → Count
unfolding widened
finish p = widened p.c p.line_width

unfoldable pub start : Progress
start = record {
  c = record { lines = 0; words = 0; runes = 0; bytes = 0; max_line_width = 0 };
  in_word = false;
  line_width = 0;
}

module _ (is_print : ℕ → Bool) where
  unfoldable pub read_word : ℕ → Bool → Progress → Progress
  unfolding is_space_rune
  read_word r is_bad p =
      if is_space_rune r
      then record p { in_word = false }
      else if not is_bad && is_print r && not p.in_word
      then record p { in_word = true; c = record p.c { words = p.c.words + 1 } }
      else p

  unfoldable pub read_symbol : Progress → Symbol → Progress
  unfolding read_word read_line_end read_size rune_of size_of is_invalid
  read_symbol p x =
      read_word (rune_of x) (is_invalid x) (read_line_end (rune_of x) (read_size (size_of x) p))

  unfoldable pub read_symbols : Progress → List Symbol → Progress
  unfolding read_symbol
  read_symbols p [] = p
  read_symbols p (x ∷ xs) = read_symbols (read_symbol p x) xs

  unfoldable pub count_reader : Bytes → Count
  unfolding read_symbols finish start symbols
  count_reader s = finish (read_symbols start (symbols 0 s))
