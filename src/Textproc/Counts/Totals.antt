-- ===== src/Textproc/Counts/Totals.antt =====
-- `CountReader` and `Add` of internal/textproc/textproc.go on a text and its parts.
use mimixbox.Prelude.{
  ℕ, ◌+◌, ◌≡◌, refl, ◌∙◌, sym, ap, Bool, Bool-cases, inl, inr, not, ◌&&◌, List, [], ◌∷◌, ◌++◌,
  arith, ◌==◌, Bytes,
}
use mimixbox.Golang.Utf8.{Symbol, valid, symbol_of, decode_rune, rune_start, symbols}
use mimixbox.Golang.Utf8.Join.{StartsRune, symbols-append}
use mimixbox.Textproc.Counts.{
  Count, add, Progress, widened, read_size, read_line_end, read_word, read_symbol, read_symbols,
  rune_of, size_of, is_invalid, is_space_rune, start, finish, count_reader,
}

-- The progress `p` behind what was counted before.
plus : Count → Progress → Progress
unfolding add
plus o p = record p { c = add o p.c }

read_size-plus :
    (o : Count) (size : ℕ) (p : Progress) → read_size size (plus o p) ≡ plus o (read_size size p)
unfolding read_size plus add
read_size-plus o size p = ground arith

widened-add : (o c : Count) (w : ℕ) → widened (add o c) w ≡ add o (widened c w)
unfolding widened add
widened-add o c w = ground arith

read_line_end-plus :
    (o : Count) (r : ℕ) (p : Progress) → read_line_end r (plus o p) ≡ plus o (read_line_end r p)
unfolding read_line_end plus
read_line_end-plus o r p = elim (Bool-cases (r == b'\n')) [
  | inl h ↦ rw h (
      ap (λ c. record p { c = c; line_width = 0 })
        (ap (λ c. widened c p.line_width) more_lines
          ∙ widened-add o (record p.c { lines = p.c.lines + 1 }) p.line_width))
  | inr h ↦ rw h refl
]
  where
    more_lines :
        record (add o p.c) { lines = (add o p.c).lines + 1 }
        ≡ add o (record p.c { lines = p.c.lines + 1 })
    more_lines = unfold add in ground arith

module _ (is_print : ℕ → Bool) where
  read_word-plus :
      (o : Count) (r : ℕ) (is_bad : Bool) (p : Progress)
      → read_word is_print r is_bad (plus o p) ≡ plus o (read_word is_print r is_bad p)
  unfolding read_word plus
  read_word-plus o r is_bad p = elim (Bool-cases (is_space_rune r)) [
    | inl h ↦ rw h refl
    | inr h ↦ rw h (elim (Bool-cases (not is_bad && is_print r && not p.in_word)) [
      | inl k ↦ rw k (unfold add in ground arith)
      | inr k ↦ rw k refl
    ])
  ]

  read_symbol-plus :
      (o : Count) (p : Progress) (x : Symbol)
      → read_symbol is_print (plus o p) x ≡ plus o (read_symbol is_print p x)
  unfolding read_symbol
  read_symbol-plus o p x =
      ap (λ q. read_word is_print (rune_of x) (is_invalid x) (read_line_end (rune_of x) q))
        (read_size-plus o (size_of x) p)
      ∙ ap (read_word is_print (rune_of x) (is_invalid x))
          (read_line_end-plus o (rune_of x) (read_size (size_of x) p))
      ∙ read_word-plus o (rune_of x) (is_invalid x)
          (read_line_end (rune_of x) (read_size (size_of x) p))

  read_symbols-plus :
      (o : Count) (p : Progress) (xs : List Symbol)
      → read_symbols is_print (plus o p) xs ≡ plus o (read_symbols is_print p xs)
  unfolding read_symbols
  read_symbols-plus o p [] = refl
  read_symbols-plus o p (x ∷ xs) =
      ap (λ q. read_symbols is_print q xs) (read_symbol-plus o p x)
      ∙ read_symbols-plus o (read_symbol is_print p x) xs

  read_symbols-append :
      (p : Progress) (xs ys : List Symbol)
      → read_symbols is_print p (xs ++ ys) ≡ read_symbols is_print (read_symbols is_print p xs) ys
  unfolding read_symbols
  read_symbols-append p [] ys = refl
  read_symbols-append p (x ∷ xs) ys = read_symbols-append (read_symbol is_print p x) xs ys

  finish-plus : (o : Count) (p : Progress) → finish (plus o p) ≡ add o (finish p)
  unfolding finish plus
  finish-plus o p = widened-add o p.c p.line_width

  -- Behind a line end the progress is that of the start, but for the counts.
  behind_line_end :
      (p : Progress)
      → read_symbol is_print p (valid b'\n')
        ≡ plus (finish (read_symbol is_print p (valid b'\n'))) start
  unfolding read_symbol read_word read_line_end read_size rune_of is_invalid is_space_rune finish
      plus start add widened
  behind_line_end p = ground arith

  symbols-line_end : (s : Bytes) → symbols 0 (b'\n' ∷ s) ≡ valid b'\n' ∷ symbols 0 s
  unfolding symbols symbol_of decode_rune
  symbols-line_end [] = refl
  symbols-line_end (a ∷ []) = refl
  symbols-line_end (a ∷ b ∷ []) = refl
  symbols-line_end (a ∷ b ∷ c ∷ s) = refl

  line_end-StartsRune : (s : Bytes) → StartsRune (b'\n' ∷ s)
  unfolding rune_start
  line_end-StartsRune s = ground arith

  symbols-cut :
      (s t : Bytes) → symbols 0 (s ++ b'\n' ∷ t) ≡ symbols 0 s ++ valid b'\n' ∷ symbols 0 t
  symbols-cut s t =
      symbols-append 0 s (b'\n' ∷ t) (omega arith) (line_end-StartsRune t)
      ∙ ap (λ r. symbols 0 s ++ r) (symbols-line_end t)

  -- The progress behind the first part, up to its line end.
  before : Bytes → Progress
  before s = read_symbol is_print (read_symbols is_print start (symbols 0 s)) (valid b'\n')

  count_reader-before :
      (s t : Bytes)
      → count_reader is_print (s ++ b'\n' ∷ t)
        ≡ finish (read_symbols is_print (before s) (symbols 0 t))
  unfolding count_reader before
  count_reader-before s t =
      ap (λ xs. finish (read_symbols is_print start xs)) (symbols-cut s t)
      ∙ ap finish (
          read_symbols-append start (symbols 0 s) (valid b'\n' ∷ symbols 0 t)
          ∙ unfold read_symbols in refl)

  count_reader-line : (s : Bytes) → count_reader is_print (s ++ b'\n' ∷ []) ≡ finish (before s)
  count_reader-line s = count_reader-before s [] ∙ unfold read_symbols symbols in refl

  -- The counts of two texts add up to those of the whole where the first ends with a line end.
  pub count_reader-add :
      (s t : Bytes)
      → count_reader is_print (s ++ b'\n' ∷ t)
        ≡ add (count_reader is_print (s ++ b'\n' ∷ [])) (count_reader is_print t)
  count_reader-add s t =
      count_reader-before s t
      ∙ ap (λ p. finish (read_symbols is_print p (symbols 0 t))) behind
      ∙ ap finish (read_symbols-plus (finish (before s)) start (symbols 0 t))
      ∙ finish-plus (finish (before s)) (read_symbols is_print start (symbols 0 t))
      ∙ ap (λ o. add o (finish (read_symbols is_print start (symbols 0 t))))
          (sym (count_reader-line s))
      ∙ ap (add (count_reader is_print (s ++ b'\n' ∷ []))) whole
    where
      behind : before s ≡ plus (finish (before s)) start
      behind = unfold before in behind_line_end (read_symbols is_print start (symbols 0 s))

      whole : finish (read_symbols is_print start (symbols 0 t)) ≡ count_reader is_print t
      whole = unfold count_reader in refl
