-- ===== src/Cut/Ranges/Print.antt =====
-- `parseRanges` of internal/applets/shellutils/cut/cut.go on lists written in its syntax.
use mimixbox.Prelude.{
  ℕ, ◌≤◌, ◌≡◌, ◌≢◌, refl, ◌∙◌, ap, ap₂, ◌⊎◌, inl, inr, Bool-cases, true, false, ◌&&◌, List, [], ◌∷◌,
  ◌++◌, none, some, map, arith, ◌==◌, if◌then◌else◌, All, All-append, Bytes, ok, err,
}
use mimixbox.Golang.Int.{max_int}
use mimixbox.Golang.Strconv.{
  is_digit, AllDigits, format_nat, format_nat-AllDigits, format_nat-DigitFirst, DigitFirst,
  atoi-format_nat,
}
use mimixbox.Golang.Strings.{IsInk, AllInk, cut_at, join, trim_space-ink}
use mimixbox.Golang.Strings.Split.{Lacks, split-join}
use mimixbox.Cut.Ranges.{
  Rng, no_endpoint, all_digits, at_least_one, parse_pos, is_empty, endpoint, both_ends, between,
  position, ranged, parse_range, parse_items, parse_ranges, merge_ranges, merged,
}
use mimixbox.Cut.Ranges.Covered.{IsRange}

cut_at-none : (s : Bytes) → Lacks b'-' s → cut_at b'-' s ≡ none
unfolding cut_at
cut_at-none [] h = refl
cut_at-none (a ∷ s) h = ground (arith, cut_at-none s h.1, h.0)

cut_at-some : (s t : Bytes) → Lacks b'-' s → cut_at b'-' (s ++ b'-' ∷ t) ≡ some (s, t)
unfolding cut_at
cut_at-some [] t h = ground arith
cut_at-some (a ∷ s) t h = ground (arith, cut_at-some s t h.1, h.0)

digits-Lacks : (b : ℕ) (s : Bytes) → is_digit b ≡ false → AllDigits s → Lacks b s
digits-Lacks b [] n h = tt
digits-Lacks b (a ∷ s) n h = (λ e. ground arith, digits-Lacks b s n h.1)

digits-AllInk : (s : Bytes) → AllDigits s → AllInk s
digits-AllInk [] h = tt
digits-AllInk (a ∷ s) h = (ground arith, digits-AllInk s h.1)

digits-all : (s : Bytes) → AllDigits s → all_digits s ≡ true
unfolding all_digits
digits-all [] h = refl
digits-all (a ∷ s) h = ground (arith, digits-all s h.1)

-- A number that an `int` holds.
abbrev Fits : ℕ → Type 0
Fits n = n ≤ max_int

parse_pos-format_nat : (n : ℕ) → 1 ≤ n → Fits n → parse_pos (format_nat n) ≡ ok n
unfolding parse_pos
parse_pos-format_nat n low high =
    rw (digits-all (format_nat n) (format_nat-AllDigits n), atoi-format_nat n high)
      (unfold at_least_one in ground arith)

not_empty : (s : Bytes) → DigitFirst s → is_empty s ≡ false
unfolding is_empty
not_empty [] h = absurd h
not_empty (c ∷ s) h = refl

-- A range in the syntax of cut.
pub print_range : Rng → Bytes
print_range r =
    if r.hi == r.lo
    then format_nat r.lo
    else if r.hi == 0
    then format_nat r.lo ++ b'-' ∷ []
    else format_nat r.lo ++ b'-' ∷ format_nat r.hi

abbrev pub InBounds : Rng → Type 0
InBounds r = Fits r.lo × Fits r.hi

between-both_ends :
    (a b : Bytes) → is_empty a ≡ false → between a b ≡ both_ends (endpoint 1 a) (endpoint 0 b)
unfolding between
between-both_ends a b e =
    ap (λ t. if t && is_empty b then err no_endpoint else both_ends (endpoint 1 a) (endpoint 0 b)) e

both_ends-ok :
    (lo hi : ℕ)
    → (hi ≡ 0) ⊎ (lo ≤ hi)
    → both_ends (ok lo) (ok hi) ≡ ok (record { lo = lo; hi = hi })
unfolding both_ends
both_ends-ok lo hi h = ground arith

module _ (n : ℕ) (low : 1 ≤ n) (high : Fits n) where
  range_of_one : parse_range (format_nat n) ≡ ok (record { lo = n; hi = n })
  unfolding parse_range
  range_of_one =
      ap (ranged (format_nat n)) (
        cut_at-none (format_nat n) (digits-Lacks b'-' (format_nat n) refl (format_nat-AllDigits n)))
      ∙ unfold ranged in ap position (parse_pos-format_nat n low high)

  endpoint-format_nat : (default : ℕ) → endpoint default (format_nat n) ≡ ok n
  unfolding endpoint
  endpoint-format_nat default =
      rw (not_empty (format_nat n) (format_nat-DigitFirst n)) (parse_pos-format_nat n low high)

  between-end :
      (b : Bytes) {hi : ℕ}
      → endpoint 0 b ≡ ok hi
      → (hi ≡ 0) ⊎ (n ≤ hi)
      → between (format_nat n) b ≡ ok (record { lo = n; hi = hi })
  between-end b {hi} e le =
      between-both_ends (format_nat n) b (not_empty (format_nat n) (format_nat-DigitFirst n))
      ∙ ap₂ both_ends (endpoint-format_nat 1) e
      ∙ both_ends-ok n hi le

  range_of_two :
      (b : Bytes) {hi : ℕ}
      → endpoint 0 b ≡ ok hi
      → (hi ≡ 0) ⊎ (n ≤ hi)
      → parse_range (format_nat n ++ b'-' ∷ b) ≡ ok (record { lo = n; hi = hi })
  unfolding parse_range
  range_of_two b e le =
      ap (ranged (format_nat n ++ b'-' ∷ b)) (
        cut_at-some (format_nat n) b
          (digits-Lacks b'-' (format_nat n) refl (format_nat-AllDigits n)))
      ∙ unfold ranged in between-end b e le

parse_range-print_range : (r : Rng) → IsRange r → InBounds r → parse_range (print_range r) ≡ ok r
unfolding print_range
parse_range-print_range r v fits = elim (Bool-cases (r.hi == r.lo)) [
  | inl one ↦ rw one (range_of_one r.lo v.0 fits.0 ∙ ground arith)
  | inr two ↦ elim (Bool-cases (r.hi == 0)) [
    | inl o ↦
        rw (two, o)
          (range_of_two r.lo v.0 fits.0 [] {hi = 0} (unfold endpoint in refl) (inl refl)
            ∙ ground arith)
    | inr bounded ↦
        rw (two, bounded)
          (range_of_two r.lo v.0 fits.0 (format_nat r.hi)
            (endpoint-format_nat r.hi (ground arith) fits.1 0) v.1)
  ]
]

-- What holds of digits and of the dash holds of all that `print_range` writes.
print_range-All :
    (P : ℕ → Type 0) (r : Rng)
    → ((s : Bytes) → AllDigits s → All P s)
    → P b'-'
    → All P (print_range r)
unfolding print_range
print_range-All P r h dash =
    let lo = h (format_nat r.lo) (format_nat-AllDigits r.lo) in
    let hi = h (format_nat r.hi) (format_nat-AllDigits r.hi) in
    elim (Bool-cases (r.hi == r.lo)) [
      | inl one ↦ rw one lo
      | inr two ↦ elim (Bool-cases (r.hi == 0)) [
        | inl o ↦ rw (two, o) (All-append P (format_nat r.lo) (b'-' ∷ []) lo (dash, tt))
        | inr b ↦
            rw (two, b) (All-append P (format_nat r.lo) (b'-' ∷ format_nat r.hi) lo (dash, hi))
      ]
    ]

print_range-some : (r : Rng) → is_empty (print_range r) ≡ false
unfolding print_range
print_range-some r = elim (Bool-cases (r.hi == r.lo)) [
  | inl one ↦ rw one (not_empty (format_nat r.lo) (format_nat-DigitFirst r.lo))
  | inr two ↦ elim (Bool-cases (r.hi == 0)) [
    | inl o ↦ rw (two, o) (longer (format_nat r.lo) (b'-' ∷ []) (format_nat-DigitFirst r.lo))
    | inr b ↦
        rw (two, b) (longer (format_nat r.lo) (b'-' ∷ format_nat r.hi) (format_nat-DigitFirst r.lo))
  ]
]
  where
    longer : (s t : Bytes) → DigitFirst s → is_empty (s ++ t) ≡ false
    longer [] t h = absurd h
    longer (c ∷ s) t h = unfold is_empty in refl

-- A LIST that gives the ranges one after the other.
pub print_ranges : List Rng → Bytes
print_ranges rs = join (map print_range rs) (b',' ∷ [])

parse_items-print :
    (rs : List Rng) → All IsRange rs → All InBounds rs → parse_items (map print_range rs) ≡ ok rs
unfolding parse_items
parse_items-print [] v fits = refl
parse_items-print (r ∷ rs) v fits =
    rw
      (
        trim_space-ink (print_range r) (print_range-All IsInk r digits-AllInk (omega arith)),
        print_range-some r,
      )
      (rw (parse_range-print_range r v.0 fits.0, parse_items-print rs v.1 fits.1) refl)

All-lack : (rs : List Rng) → All (Lacks b',') (map print_range rs)
All-lack [] = tt
All-lack (r ∷ rs) =
    (print_range-All (λ c. c ≢ b',') r (λ s. digits-Lacks b',' s refl) (omega arith), All-lack rs)

-- One range or more, each starting at 1 or later, not decreasing, and with ends that an `int`
-- holds, are read back from their text in the syntax of LIST, and then sorted and merged.
pub parse_ranges-print_ranges :
    (r : Rng) (rs : List Rng)
    → All IsRange (r ∷ rs)
    → All InBounds (r ∷ rs)
    → parse_ranges (print_ranges (r ∷ rs)) ≡ ok (merge_ranges (r ∷ rs))
unfolding print_ranges
parse_ranges-print_ranges r rs v fits =
    unfold parse_ranges in
    ap merged (
      ap parse_items (split-join b',' (print_range r) (map print_range rs) (All-lack (r ∷ rs)))
      ∙ parse_items-print (r ∷ rs) v fits)
