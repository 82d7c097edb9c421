-- ===== src/Tr/Sets/Quoting.antt =====
-- `expandSet` of internal/applets/textutils/tr/tr.go: its fuel, and texts with escapes.
use mimixbox.Prelude.{
  ℕ, zero, suc, ◌+◌, ◌-◌, ◌*◌, ◌≤◌, ◌≡◌, ◌≢◌, refl, ◌∙◌, ap, All, inl, inr, Bool, Bool-cases, ◌&&◌,
  true, false, ◌||◌, [], ◌∷◌, ◌++◌, Option, none, some, arith, ◌==◌, if◌then◌else◌, Bytes, Runes,
  length, Result, ok, err, append_assoc, append-nil, ◌>>=◌,
}
use mimixbox.Tr.Sets.{
  SetError, unknown_class, reverse_range, out_of_fuel, index_class_end, octal, next_rune, ranged,
  single, class_or_single, class_runes, expand_step, expand_loop, expand_set,
}
use mimixbox.Golang.Utf8.RoundTrip.{IsRune, runes-string_of}
use mimixbox.Golang.Utf8.{runes, string_of}

-- Ends with an error of `expandSet`, or leaves at most `n` runes.
abbrev LeavesAtMost : ℕ → Result SetError (Runes × Runes) → Type 0
LeavesAtMost n (ok (_, rest)) = length rest ≤ n
LeavesAtMost n (err (unknown_class _)) = Unit
LeavesAtMost n (err (reverse_range _ _)) = Unit
LeavesAtMost n (err out_of_fuel) = ⊥

octal-le : (k val : ℕ) (src : Runes) → length (octal k val src).1 ≤ length src
unfolding octal
octal-le zero val src = omega arith
octal-le (suc k) val [] = omega arith
octal-le (suc k) val (c ∷ src) = ground (arith, octal-le k (val * 8 + (c - b'0')) src)

next_rune-le : (c : ℕ) (src : Runes) → length (next_rune c src).1 ≤ length src
unfolding next_rune
next_rune-le c [] = ground arith
next_rune-le c (d ∷ src) = ground (arith, octal-le 3 0 (d ∷ src))

ranged-LeavesAtMost : (r : ℕ) (src : Runes) → LeavesAtMost (length src) (ranged r src)
unfolding ranged
ranged-LeavesAtMost r [] = omega arith
ranged-LeavesAtMost r (d ∷ []) = omega arith
ranged-LeavesAtMost r (d ∷ h ∷ src) = ground (arith, next_rune-le h src)

LeavesAtMost-weaken :
    (m n : ℕ) (r : Result SetError (Runes × Runes)) → LeavesAtMost m r → m ≤ n → LeavesAtMost n r
LeavesAtMost-weaken m n (ok (_, rest)) h k = omega arith
LeavesAtMost-weaken m n (err (unknown_class _)) h k = tt
LeavesAtMost-weaken m n (err (reverse_range _ _)) h k = tt
LeavesAtMost-weaken m n (err out_of_fuel) h k = h

single-LeavesAtMost : (c : ℕ) (src : Runes) → LeavesAtMost (length src) (single c src)
unfolding single
single-LeavesAtMost c src =
    LeavesAtMost-weaken _ _ _ (ranged-LeavesAtMost (next_rune c src).0 (next_rune c src).1)
      (next_rune-le c src)

abbrev ClassFits : ℕ → Option (Runes × Runes) → Type 0
ClassFits n none = Unit
ClassFits n (some (_, rest)) = length rest ≤ n

index_class_end-ClassFits : (src : Runes) → ClassFits (length src) (index_class_end src)
unfolding index_class_end
index_class_end-ClassFits [] = tt
index_class_end-ClassFits (x ∷ []) = tt
index_class_end-ClassFits (x ∷ y ∷ src) = ground (arith, index_class_end-ClassFits (y ∷ src))

ClassFits-weaken :
    (m n : ℕ) (found : Option (Runes × Runes)) → ClassFits m found → m ≤ n → ClassFits n found
ClassFits-weaken m n none h k = tt
ClassFits-weaken m n (some (_, rest)) h k = omega arith

class_or_single-LeavesAtMost :
    (c : ℕ) (src : Runes) (found : Option (Runes × Runes))
    → ClassFits (length src) found
    → LeavesAtMost (length src) (class_or_single c src found)
unfolding class_or_single
class_or_single-LeavesAtMost c src none h = single-LeavesAtMost c src
class_or_single-LeavesAtMost c src (some (name, rest)) h =
    elim (class_runes (string_of name))
      as (λ found. LeavesAtMost (length src) (elim found [
        | none ↦ err (unknown_class (string_of name))
        | some class ↦ ok (class, rest)
      ])) [ none ↦ tt | some class ↦ h ]

expand_step-LeavesAtMost : (c : ℕ) (src : Runes) → LeavesAtMost (length src) (expand_step c src)
unfolding expand_step
expand_step-LeavesAtMost c [] = single-LeavesAtMost c []
expand_step-LeavesAtMost c (d ∷ src) = elim (Bool-cases (c == b'[' && d == b':')) [
  | inl opens ↦ rw opens (
      class_or_single-LeavesAtMost c (d ∷ src) (index_class_end src)
        (ClassFits-weaken _ _ _ (index_class_end-ClassFits src) (omega arith)))
  | inr plain ↦ rw plain (single-LeavesAtMost c (d ∷ src))
]

expand_loop-total :
    (f : ℕ) (src out : Runes) → length src ≤ f → expand_loop f src out ≢ err out_of_fuel
unfolding expand_loop
expand_loop-total f [] out h = cc
expand_loop-total zero (c ∷ src) out h = absurd (omega arith)
expand_loop-total (suc f) (c ∷ src) out h =
    step (expand_step c src) (expand_step-LeavesAtMost c src)
      (λ more rest le. expand_loop-total f rest (out ++ more) (omega arith))
  where
    step :
        (r : Result SetError (Runes × Runes))
        → LeavesAtMost (length src) r
        → ((more rest : Runes)
            → length rest ≤ length src
            → expand_loop f rest (out ++ more) ≢ err out_of_fuel)
        → (r >>= λ p. expand_loop f p.1 (out ++ p.0)) ≢ err out_of_fuel
    step (ok (more, rest)) fits later = later more rest fits
    step (err (unknown_class _)) fits later = cc
    step (err (reverse_range _ _)) fits later = cc
    step (err out_of_fuel) fits later = absurd fits

-- Whatever the SET operand, `expandSet` ends with its runes or with one of its two errors.
pub expand_set-total : (spec : Bytes) → expand_set spec ≢ err out_of_fuel
unfolding expand_set
expand_set-total spec = expand_loop-total (length (runes spec)) (runes spec) [] (omega arith)

is_special : ℕ → Bool
is_special c = c == b'[' || c == b'-' || c == b'\\'

-- A set written with a backslash before each character that `expandSet` treats specially.
pub escape_set : Runes → Runes
unfolding is_special
escape_set [] = []
escape_set (c ∷ rs) = (if is_special c then b'\\' ∷ c ∷ [] else c ∷ []) ++ escape_set rs

ranged-escape_set : (r : ℕ) (rs : Runes) → ranged r (escape_set rs) ≡ ok (r ∷ [], escape_set rs)
unfolding ranged escape_set
ranged-escape_set r [] = refl
ranged-escape_set r (c ∷ []) = ground arith
ranged-escape_set r (c ∷ d ∷ rs) = ground arith

expand_step-special :
    (c : ℕ) (rs : Runes)
    → is_special c ≡ true
    → expand_step b'\\' (c ∷ escape_set rs) ≡ ok (c ∷ [], escape_set rs)
unfolding expand_step is_special
expand_step-special c rs h = ground (arith, ranged-escape_set c rs)

single-plain :
    (c : ℕ) (rs : Runes)
    → is_special c ≡ false
    → single c (escape_set rs) ≡ ok (c ∷ [], escape_set rs)
unfolding single is_special
single-plain c rs h = ground (arith, ranged-escape_set c rs)

expand_step-plain : (c : ℕ) (src : Runes) → is_special c ≡ false → expand_step c src ≡ single c src
unfolding expand_step is_special
expand_step-plain c [] h = refl
expand_step-plain c (d ∷ src) h = ground arith

expand_loop-escape_set :
    (f : ℕ) (rs out : Runes)
    → length (escape_set rs) ≤ f
    → expand_loop f (escape_set rs) out ≡ ok (out ++ rs)
unfolding expand_loop escape_set
expand_loop-escape_set f [] out h = rw append-nil
expand_loop-escape_set zero (c ∷ rs) out h = ground arith
expand_loop-escape_set (suc f) (c ∷ rs) out h = elim (Bool-cases (is_special c)) [
  | inl special ↦
      rw (special, expand_step-special c rs special)
        (expand_loop-escape_set f rs (out ++ c ∷ []) (ground arith)
          ∙ ap ok (append_assoc out (c ∷ []) rs))
  | inr plain ↦
      rw (plain, expand_step-plain c (escape_set rs) plain, single-plain c rs plain)
        (expand_loop-escape_set f rs (out ++ c ∷ []) (ground arith)
          ∙ ap ok (append_assoc out (c ∷ []) rs))
]

escape_set-IsRune : (rs : Runes) → All IsRune rs → All IsRune (escape_set rs)
unfolding escape_set
escape_set-IsRune [] h = tt
escape_set-IsRune (c ∷ rs) h = elim (Bool-cases (is_special c)) [
  | inl special ↦ rw special (inl (omega arith), (h.0, escape_set-IsRune rs h.1))
  | inr plain ↦ rw plain (h.0, escape_set-IsRune rs h.1)
]

-- Any valid runes can be given as a SET: with a backslash before each `[`, `-` and `\\` they are
-- read back as they are.
pub expand_set-escape_set :
    (rs : Runes) → All IsRune rs → expand_set (string_of (escape_set rs)) ≡ ok rs
unfolding expand_set
expand_set-escape_set rs h =
    rw (runes-string_of (escape_set rs) (escape_set-IsRune rs h))
      (expand_loop-escape_set _ rs [] (omega arith))
