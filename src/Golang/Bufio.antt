-- ===== src/Golang/Bufio.antt =====
-- Go's `bufio.Scanner` with `ScanLines`: the lines of a text without their end of line.
use mimixbox.Prelude.{
  ℕ, ◌≤◌, ◌≡◌, refl, ◌∙◌, sym, ap, false, List, [], ◌∷◌, ◌++◌, arith, ◌==◌, if◌then◌else◌, Bytes,
  All, append_assoc, append-nil,
}

-- `dropCR`.
drop_cr : Bytes → Bytes
drop_cr [] = []
drop_cr (c ∷ []) = if c == b'\r' then [] else c ∷ []
drop_cr (c ∷ d ∷ s) = c ∷ drop_cr (d ∷ s)

-- `cur` is the line so far; what is left at the end is a line unless it is empty.
lines_from : Bytes → Bytes → List Bytes
unfolding drop_cr
lines_from [] [] = []
lines_from (c ∷ cur) [] = drop_cr (c ∷ cur) ∷ []
lines_from cur (c ∷ s) =
    let rest = lines_from (cur ++ c ∷ []) s in
    if c == b'\n' then drop_cr cur ∷ lines_from [] s else rest

unfoldable pub scan_lines : Bytes → List Bytes
unfolding lines_from
scan_lines s = lines_from [] s

-- Bytes that stand for themselves in a line.
abbrev pub AllPrinting : Bytes → Type 0
AllPrinting = All (λ c. 32 ≤ c)

drop_cr-printing : (s : Bytes) → AllPrinting s → drop_cr s ≡ s
unfolding drop_cr
drop_cr-printing [] h = refl
drop_cr-printing (c ∷ []) h = ground arith
drop_cr-printing (c ∷ d ∷ s) h = ap (λ r. c ∷ r) (drop_cr-printing (d ∷ s) h.1)

lines_from-end : (cur s : Bytes) → lines_from cur (b'\n' ∷ s) ≡ drop_cr cur ∷ lines_from [] s
unfolding lines_from
lines_from-end [] s = refl
lines_from-end (c ∷ cur) s = refl

lines_from-go :
    (cur : Bytes) (c : ℕ) (s : Bytes)
    → (c == b'\n') ≡ false
    → lines_from cur (c ∷ s) ≡ lines_from (cur ++ c ∷ []) s
unfolding lines_from
lines_from-go [] c s h = rw h refl
lines_from-go (a ∷ cur) c s h = rw h refl

lines_from-line :
    (cur l s : Bytes)
    → AllPrinting l
    → lines_from cur (l ++ b'\n' ∷ s) ≡ drop_cr (cur ++ l) ∷ lines_from [] s
lines_from-line cur [] s h =
    lines_from-end cur s ∙ ap (λ r. drop_cr r ∷ lines_from [] s) (sym (append-nil cur))
lines_from-line cur (c ∷ l) s h =
    lines_from-go cur c (l ++ b'\n' ∷ s) (ground (arith, h.0))
    ∙ lines_from-line (cur ++ c ∷ []) l s h.1
    ∙ ap (λ r. drop_cr r ∷ lines_from [] s) (append_assoc cur (c ∷ []) l)

-- A line of printing bytes is read as it is.
pub scan_lines-line : (l s : Bytes) → AllPrinting l → scan_lines (l ++ b'\n' ∷ s) ≡ l ∷ scan_lines s
unfolding scan_lines
scan_lines-line l s h =
    lines_from-line [] l s h ∙ ap (λ r. r ∷ lines_from [] s) (drop_cr-printing l h)
