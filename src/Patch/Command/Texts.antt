-- ===== src/Patch/Command/Texts.antt =====
-- The text of a file and its lines, in internal/applets/editors/patch/patch.go and
-- internal/applets/editors/diff/diff.go.
use mimixbox.Prelude.{
  ◌≡◌, ◌≢◌, refl, ◌∙◌, sym, ap, Bool, true, false, ◌&&◌, List, [], ◌∷◌, ◌++◌, append_assoc, Bytes,
  bytes_eq, codes, All,
}
use mimixbox.Golang.Strings.{split, join}
use mimixbox.Golang.Strings.Split.{split-join}
use mimixbox.Diff.Lines.{trim_newline, read_lines}
use mimixbox.Diff.Unified.{print_all}
use mimixbox.Patch.Parse.RoundTrip.{IsLine}
use mimixbox.Patch.Command.{split_lines_keep, joined}

pub and_false : (x : Bool) → (x && false) ≡ false
and_false true = refl
and_false false = refl

pub trim_newline-end : (s : Bytes) → trim_newline (s ++ codes "\n") ≡ s
unfolding trim_newline bytes_eq
trim_newline-end [] = refl
trim_newline-end (c ∷ []) = rw and_false refl
trim_newline-end (c ∷ d ∷ s) = rw and_false (ap (λ r. c ∷ r) (trim_newline-end (d ∷ s)))

-- The text of lines is what `patch` writes for them.
pub joined-print_all : (lines : List Bytes) → joined lines ≡ print_all lines
unfolding joined print_all join
joined-print_all [] = refl
joined-print_all (l ∷ []) = refl
joined-print_all (l ∷ m ∷ lines) =
    append_assoc l (codes "\n" ++ join (m ∷ lines) (codes "\n")) (codes "\n")
    ∙ ap (λ r. l ++ r) (ap (λ r. b'\n' ∷ r) (joined-print_all (m ∷ lines)))

pub lines_of : Bytes → List Bytes
lines_of s = split (trim_newline s) (codes "\n")

pub split_lines_keep_some : (s : Bytes) → s ≢ [] → split_lines_keep s ≡ lines_of s
unfolding split_lines_keep lines_of
split_lines_keep_some [] h = absurd (h refl)
split_lines_keep_some (c ∷ s) h = refl

pub read_lines_some : (s : Bytes) → s ≢ [] → read_lines s ≡ lines_of s
unfolding read_lines lines_of
read_lines_some [] h = absurd (h refl)
read_lines_some (c ∷ s) h = refl

pub print_all_some : (l : Bytes) (lines : List Bytes) → print_all (l ∷ lines) ≢ []
unfolding print_all
print_all_some [] lines = cc
print_all_some (c ∷ l) lines = cc

pub joined_some :
    (l : Bytes) (lines : List Bytes)
    → joined (l ∷ lines) ≡ join (l ∷ lines) (codes "\n") ++ codes "\n"
unfolding joined
joined_some l lines = refl

pub lines_of-print_all :
    (l : Bytes) (lines : List Bytes)
    → All IsLine (l ∷ lines)
    → lines_of (print_all (l ∷ lines)) ≡ l ∷ lines
unfolding lines_of
lines_of-print_all l lines h =
    ap (λ s. split (trim_newline s) (codes "\n"))
      (sym (joined-print_all (l ∷ lines)) ∙ joined_some l lines)
    ∙ ap (λ s. split s (codes "\n")) (trim_newline-end (join (l ∷ lines) (codes "\n")))
    ∙ split-join b'\n' l lines h

-- Both commands read from a text of lines these lines.
pub split_lines_keep-print_all :
    (lines : List Bytes) → All IsLine lines → split_lines_keep (print_all lines) ≡ lines
split_lines_keep-print_all [] h = unfold print_all split_lines_keep in refl
split_lines_keep-print_all (l ∷ lines) h =
    split_lines_keep_some (print_all (l ∷ lines)) (print_all_some l lines)
    ∙ lines_of-print_all l lines h

pub read_lines-print_all :
    (lines : List Bytes) → All IsLine lines → read_lines (print_all lines) ≡ lines
read_lines-print_all [] h = unfold print_all read_lines in refl
read_lines-print_all (l ∷ lines) h =
    read_lines_some (print_all (l ∷ lines)) (print_all_some l lines) ∙ lines_of-print_all l lines h
