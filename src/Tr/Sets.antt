-- ===== src/Tr/Sets.antt =====
-- The SET operands of tr: `expandSet` of internal/applets/textutils/tr/tr.go and what it calls.
-- An index into `src` is the list of the runes from there on.
pub mod Quoting
use mimixbox.Prelude.{
  ℕ, zero, suc, ◌+◌, ◌-◌, ◌*◌, ◌≡◌, refl, Bool, true, false, ◌&&◌, List, [], ◌∷◌, ◌++◌, Option,
  none, some, arith, ltb, leb, ◌==◌, if◌then◌else◌, Bytes, Runes, codes, length, bytes_eq, Result,
  ok, err, ◌>>=◌,
}
use mimixbox.Golang.Utf8.{runes, string_of}

-- The two errors of `expandSet`. `out_of_fuel` belongs to the model only.
pub data SetError : Type 0 where
  unknown_class : Bytes → SetError
  reverse_range : ℕ → ℕ → SetError
  out_of_fuel : SetError

range_from : ℕ → ℕ → Runes
range_from zero lo = []
range_from (suc n) lo = lo ∷ range_from n (lo + 1)

unfoldable pub range_runes : ℕ → ℕ → Runes
unfolding range_from
range_runes lo hi = range_from (hi + 1 - lo) lo

unfoldable pub class_runes : Bytes → Option Runes
unfolding range_runes bytes_eq
class_runes name =
    if bytes_eq name (codes "upper")
    then some (range_runes b'A' b'Z')
    else if bytes_eq name (codes "lower")
    then some (range_runes b'a' b'z')
    else if bytes_eq name (codes "digit")
    then some (range_runes b'0' b'9')
    else if bytes_eq name (codes "alpha")
    then some (range_runes b'A' b'Z' ++ range_runes b'a' b'z')
    else if bytes_eq name (codes "alnum")
    then some (range_runes b'0' b'9' ++ range_runes b'A' b'Z' ++ range_runes b'a' b'z')
    else if bytes_eq name (codes "space")
    then some (9 ∷ 10 ∷ 11 ∷ 12 ∷ 13 ∷ 32 ∷ [])
    else if bytes_eq name (codes "blank")
    then some (9 ∷ 32 ∷ [])
    else none

-- `indexClassEnd` behind the opening "[:": the name, and what follows the closing ":]".
unfoldable pub index_class_end : Runes → Option (Runes × Runes)
index_class_end [] = none
index_class_end (x ∷ []) = none
index_class_end (x ∷ y ∷ src) =
    let later : Option (Runes × Runes) = elim (index_class_end (y ∷ src)) [
      | none ↦ none
      | some (name, rest) ↦ some (x ∷ name, rest)
    ] in
    if x == b':' && y == b']' then some ([], src) else later

-- The digit loop of an octal escape: at most `k` more digits.
octal : ℕ → ℕ → Runes → ℕ × Runes
octal zero val src = (val, src)
octal (suc k) val [] = (val, [])
octal (suc k) val (c ∷ src) =
    let onward = octal k (val * 8 + (c - b'0')) src in
    if leb b'0' c && leb c b'7' then onward else (val, c ∷ src)

-- `nextRune` behind a backslash.
escaped : Runes → ℕ × Runes
unfolding octal
escaped [] = (b'\\', [])
escaped (c ∷ src) =
    if c == b'n'
    then (10, src)
    else if c == b't'
    then (9, src)
    else if c == b'r'
    then (13, src)
    else if c == b'f'
    then (12, src)
    else if c == b'v'
    then (11, src)
    else if c == b'b'
    then (8, src)
    else if c == b'a'
    then (7, src)
    else if c == b'\\'
    then (b'\\', src)
    else if leb b'0' c && leb c b'7'
    then octal 3 0 (c ∷ src)
    else (c, src)

-- `nextRune(src, i)` for `c = src[i]`: the rune, and what is left of `src`.
unfoldable pub next_rune : ℕ → Runes → ℕ × Runes
unfolding escaped
next_rune c src = if c == b'\\' then escaped src else (c, src)

up_to : ℕ → ℕ × Runes → Result SetError (Runes × Runes)
up_to r (hi, rest) = if ltb hi r then err (reverse_range r hi) else ok (range_runes r hi, rest)

-- The range test of `expandSet`, behind one character `r`.
ranged : ℕ → Runes → Result SetError (Runes × Runes)
unfolding next_rune range_runes up_to
ranged r (d ∷ h ∷ src) = if d == b'-' then up_to r (next_rune h src) else ok (r ∷ [], d ∷ h ∷ src)
ranged r src = ok (r ∷ [], src)

single : ℕ → Runes → Result SetError (Runes × Runes)
unfolding ranged
single c src = let (r, rest) = next_rune c src in ranged r rest

class_or_single : ℕ → Runes → Option (Runes × Runes) → Result SetError (Runes × Runes)
unfolding single class_runes
class_or_single c src none = single c src
class_or_single c src (some (name, rest)) = elim (class_runes (string_of name)) [
  | none ↦ err (unknown_class (string_of name))
  | some class ↦ ok (class, rest)
]

-- One round of `expandSet`: the runes that it appends, and what is left of `src`.
expand_step : ℕ → Runes → Result SetError (Runes × Runes)
unfolding class_or_single index_class_end
expand_step c (d ∷ src) =
    if c == b'[' && d == b':'
    then class_or_single c (d ∷ src) (index_class_end src)
    else single c (d ∷ src)
expand_step c [] = single c []

expand_loop : ℕ → Runes → Runes → Result SetError Runes
expand_loop f [] out = ok out
expand_loop zero (c ∷ src) out = err out_of_fuel
expand_loop (suc f) (c ∷ src) out = do
  (more, rest) ← expand_step c src
  expand_loop f rest (out ++ more)

unfoldable pub expand_set : Bytes → Result SetError Runes
unfolding expand_loop expand_step runes string_of
expand_set spec = let src = runes spec in expand_loop (length src) src []
