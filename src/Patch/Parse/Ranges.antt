-- ===== src/Patch/Parse/Ranges.antt =====
-- The ranges of a hunk's header: `countRange` of internal/applets/editors/diff/format.go, and
-- `parseRange` and `parseHunkHeader` of internal/applets/editors/patch/parse.go.
use mimixbox.Prelude.{
  ℕ, ◌≤◌, ◌≡◌, refl, ◌∙◌, ap, Bool-cases, inl, inr, false, List, [], ◌∷◌, ◌++◌, arith, ◌==◌, none,
  some, Bytes, codes, All-append, ok, bytes_eq,
}
use mimixbox.Golang.Int.{ℤ, pos, max_int}
use mimixbox.Golang.Strconv.{format_nat, atoi-format_nat, AllDigits, format_nat-AllDigits}
use mimixbox.Golang.Strings.{cut_at, IsInk, AllInk}
use mimixbox.Golang.Strings.Fields.{fields, fields-word, fields-last}
use mimixbox.Diff.Lines.{Op}
use mimixbox.Diff.Unified.{count_range, hunk_header, old_start, old_length, new_start, new_length}
use mimixbox.Patch.Parse.{number, parse_range, trim_prefix, parse_header_fields, parse_hunk_header}

number-format_nat : (n : ℕ) → n ≤ max_int → number (format_nat n) ≡ ok (pos n)
unfolding number
number-format_nat n h = rw (atoi-format_nat n h, number) refl

cut_at_digits : (s : Bytes) → AllDigits s → cut_at b',' s ≡ none
unfolding cut_at
cut_at_digits [] h = refl
cut_at_digits (a ∷ s) h =
    let other : (a == b',') ≡ false = ground (arith, h.0) in rw (cut_at_digits s h.1, other) refl

cut_at_comma : (s t : Bytes) → AllDigits s → cut_at b',' (s ++ b',' ∷ t) ≡ some (s, t)
unfolding cut_at
cut_at_comma [] t h = refl
cut_at_comma (a ∷ s) t h =
    let other : (a == b',') ≡ false = ground (arith, h.0) in rw (cut_at_comma s t h.1, other) refl

parse_range_one :
    (s : Bytes) (n : ℕ)
    → cut_at b',' s ≡ none
    → number s ≡ ok (pos n)
    → parse_range s ≡ ok (pos n, pos 1)
unfolding parse_range
parse_range_one s n h k = rw (h, k, parse_range) refl

parse_range_two :
    (s before after : Bytes) (n m : ℕ)
    → cut_at b',' s ≡ some (before, after)
    → number after ≡ ok (pos m)
    → number before ≡ ok (pos n)
    → parse_range s ≡ ok (pos n, pos m)
unfolding parse_range
parse_range_two s before after n m h k l = rw (h, k, l, parse_range) refl

-- A range that `diff` writes is the one that `patch` reads.
pub parse_range-count_range :
    (start len : ℕ)
    → start ≤ max_int
    → len ≤ max_int
    → parse_range (count_range start len) ≡ ok (pos start, pos len)
unfolding count_range
parse_range-count_range start len h k = elim (Bool-cases (len == 1)) [
  | inl one ↦
      let e : len ≡ 1 = ground arith in
      rw e (
        parse_range_one (format_nat start) start
          (cut_at_digits (format_nat start) (format_nat-AllDigits start))
          (number-format_nat start h))
  | inr more ↦ rw more (
      parse_range_two (format_nat start ++ b',' ∷ format_nat len) (format_nat start)
        (format_nat len) start len
        (cut_at_comma (format_nat start) (format_nat len) (format_nat-AllDigits start))
        (number-format_nat len k) (number-format_nat start h))
]

AllDigits-AllInk : (s : Bytes) → AllDigits s → AllInk s
AllDigits-AllInk [] h = tt
AllDigits-AllInk (a ∷ s) h = (ground (arith, h.0), AllDigits-AllInk s h.1)

count_range-AllInk : (start len : ℕ) → AllInk (count_range start len)
unfolding count_range
count_range-AllInk start len =
    let digits = AllDigits-AllInk (format_nat start) (format_nat-AllDigits start) in
    elim (Bool-cases (len == 1)) [
      | inl one ↦ rw one digits
      | inr more ↦ rw more (
          All-append IsInk (format_nat start) (b',' ∷ format_nat len) digits (
            (omega arith, omega arith),
            AllDigits-AllInk (format_nat len) (format_nat-AllDigits len),
          ))
    ]

header_words : Bytes → Bytes → Bytes
header_words old new = codes "@@ -" ++ (old ++ (codes " +" ++ (new ++ codes " @@")))

fields-header_words :
    (old new : Bytes)
    → AllInk old
    → AllInk new
    → fields (header_words old new) ≡ codes "@@" ∷ (b'-' ∷ old) ∷ (b'+' ∷ new) ∷ codes "@@" ∷ []
unfolding header_words
fields-header_words old new h k =
    fields-word b'@' (b'@' ∷ []) (b'-' ∷ (old ++ (codes " +" ++ (new ++ codes " @@"))))
      ((omega arith, omega arith), ((omega arith, omega arith), tt))
    ∙ ap (λ r. codes "@@" ∷ r)
        (fields-word b'-' old (b'+' ∷ (new ++ codes " @@")) ((omega arith, omega arith), h)
          ∙ ap (λ r. (b'-' ∷ old) ∷ r)
              (fields-word b'+' new (codes "@@") ((omega arith, omega arith), k)
                ∙ ap (λ r. (b'+' ∷ new) ∷ r)
                    (fields-last b'@' (b'@' ∷ [])
                      ((omega arith, omega arith), ((omega arith, omega arith), tt)))))

parse_header_fields_ok :
    (s old new rest : Bytes) (o n : ℤ × ℤ)
    → parse_range old ≡ ok o
    → parse_range new ≡ ok n
    → parse_header_fields s (codes "@@" ∷ (b'-' ∷ old) ∷ (b'+' ∷ new) ∷ rest ∷ [])
      ≡ ok (record { old_start = o.0; old_len = o.1; new_start = n.0; new_len = n.1; lines = [] })
unfolding parse_header_fields trim_prefix bytes_eq
parse_header_fields_ok s old new rest o n h k = rw (h, k) refl

-- The header that `diff` writes for a group has the group's numbers.
pub parse_hunk_header-hunk_header :
    (a b : List Bytes) (g : List Op)
    → old_start g ≤ max_int
    → old_length g ≤ max_int
    → new_start g ≤ max_int
    → new_length g ≤ max_int
    → parse_hunk_header (hunk_header a b g)
      ≡ ok (record {
        old_start = pos (old_start g);
        old_len = pos (old_length g);
        new_start = pos (new_start g);
        new_len = pos (new_length g);
        lines = [];
      })
unfolding parse_hunk_header hunk_header header_words
parse_hunk_header-hunk_header a b g h1 h2 h3 h4 =
    let old = count_range (old_start g) (old_length g) in
    let new = count_range (new_start g) (new_length g) in
    ap (parse_header_fields (header_words old new)) (
      fields-header_words old new (count_range-AllInk (old_start g) (old_length g))
        (count_range-AllInk (new_start g) (new_length g)))
    ∙ parse_header_fields_ok (header_words old new) old new (codes "@@")
        (pos (old_start g), pos (old_length g)) (pos (new_start g), pos (new_length g))
        (parse_range-count_range (old_start g) (old_length g) h1 h2)
        (parse_range-count_range (new_start g) (new_length g) h3 h4)
