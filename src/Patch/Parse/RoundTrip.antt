-- ===== src/Patch/Parse/RoundTrip.antt =====
-- What internal/applets/editors/diff/format.go writes, read by internal/applets/editors/patch/parse.go.
use mimixbox.Prelude.{
  ℕ, ◌≤◌, ◌≡◌, ◌≢◌, refl, ◌∙◌, ap, subst, Bool, Bool-cases, inl, inr, true, false, List, [], ◌∷◌,
  ◌++◌, ◌==◌, arith, Bytes, codes, All, All-append, length, ok,
}
use mimixbox.Golang.Int.{max_int}
use mimixbox.Golang.Strconv.{format_nat, format_nat-AllDigits, AllDigits}
use mimixbox.Golang.Strings.{has_prefix, trim_space, split, split_from, join}
use mimixbox.Golang.Strings.Split.{Lacks, split-join}
use mimixbox.Diff.Lines.{Op, has_change, line_eq, diff_lines}
use mimixbox.Diff.Lines.Script.{Script, diff_lines-Script}
use mimixbox.Diff.Unified.{
  count_range, hunk_header, op_lines, group_lines, group_unified, unified_lines, print_all,
  write_unified, old_start, old_length, new_start, new_length,
}
use mimixbox.Diff.Unified.Groups.{IsKept, Grouped, last}
use mimixbox.Diff.Unified.Groups.Cover.{group_unified-Grouped}
use mimixbox.Patch.Apply.Steps.{hunks_of}
use mimixbox.Patch.Parse.{parse_lines, parse_unified, file_header}
use mimixbox.Patch.Parse.Written.{Fits, IsNoHeader, parse_lines-group_lines}
use mimixbox.Patch.Parse.Bounds.{IsPlain, Grouped-pieces, Script-Fits, Script-op_lines}

-- A text without a line feed.
abbrev pub IsLine : Bytes → Type 0
IsLine = Lacks b'\n'

print_all-join :
    (l : Bytes) (lines : List Bytes)
    → print_all (l ∷ lines) ≡ join ((l ∷ lines) ++ [] ∷ []) (codes "\n")
unfolding print_all join
print_all-join l [] = refl
print_all-join l (m ∷ lines) = ap (λ r. l ++ (codes "\n" ++ r)) (print_all-join m lines)

pub split-print_all :
    (lines : List Bytes)
    → All IsLine lines
    → split (print_all lines) (codes "\n") ≡ lines ++ [] ∷ []
split-print_all [] h = unfold split split_from print_all in refl
split-print_all (l ∷ lines) h =
    ap (λ s. split s (codes "\n")) (print_all-join l lines)
    ∙ split-join b'\n' l (lines ++ [] ∷ []) (All-append IsLine (l ∷ lines) ([] ∷ []) h (tt, tt))

AllDigits-IsLine : (s : Bytes) → AllDigits s → IsLine s
AllDigits-IsLine [] h = tt
AllDigits-IsLine (c ∷ s) h = (ground (arith, h.0), AllDigits-IsLine s h.1)

format_nat-IsLine : (n : ℕ) → IsLine (format_nat n)
format_nat-IsLine n = AllDigits-IsLine (format_nat n) (format_nat-AllDigits n)

count_range-IsLine : (start len : ℕ) → IsLine (count_range start len)
unfolding count_range
count_range-IsLine start len = elim (Bool-cases (len == 1)) [
  | inl one ↦ rw one (format_nat-IsLine start)
  | inr more ↦ rw more (
      All-append (λ c. c ≢ b'\n') (format_nat start) (b',' ∷ format_nat len)
        (format_nat-IsLine start) (omega arith, format_nat-IsLine len))
]

hunk_header-IsLine : (a b : List Bytes) (g : List Op) → IsLine (hunk_header a b g)
unfolding hunk_header
hunk_header-IsLine a b g =
    let old = count_range-IsLine (old_start g) (old_length g) in
    let new = count_range-IsLine (new_start g) (new_length g) in
    header (count_range (old_start g) (old_length g)) (count_range (new_start g) (new_length g)) old
      new
  where
    closing : IsLine (codes " @@")
    closing = (omega arith, (omega arith, (omega arith, tt)))

    header :
        (old new : Bytes)
        → IsLine old
        → IsLine new
        → IsLine (codes "@@ -" ++ (old ++ (codes " +" ++ (new ++ codes " @@"))))
    header old new h k = (
      omega arith,
      (
        omega arith,
        (
          omega arith,
          (
            omega arith,
            All-append (λ c. c ≢ b'\n') old (codes " +" ++ (new ++ codes " @@")) h
                (
                  omega arith,
                  (omega arith, All-append (λ c. c ≢ b'\n') new (codes " @@") k closing),
                ),
          ),
        ),
      ),
    )

group_lines-IsLine :
    (a b : List Bytes) (groups : List (List Op))
    → All (λ g. All IsLine (op_lines a b g)) groups
    → All IsLine (group_lines a b groups)
unfolding group_lines
group_lines-IsLine a b [] h = tt
group_lines-IsLine a b (g ∷ groups) h = (
  hunk_header-IsLine a b g,
  All-append IsLine (op_lines a b g) (group_lines a b groups) h.0
      (group_lines-IsLine a b groups h.1),
)

-- A name of a file as it can stand in a header.
pub record IsName (name : Bytes) : Type 0 where
  pub one_line : IsLine name
  pub trimmed : trim_space name ≡ name

no_change : (ops : List Op) → All IsKept ops → has_change ops ≡ false
unfolding has_change
no_change [] k = refl
no_change (o ∷ ops) k = rw (k.0) (no_change ops k.1)

-- A script without groups has no change.
Grouped-change : (ops : List Op) → Grouped true ops [] → has_change ops ≢ true
Grouped-change ops (last kept) h = let e = no_change ops kept in absurd cc

module _ (a b : List Bytes) (name1 name2 : Bytes) where
  unified_lines_some :
      (ops : List Op) (g : List Op) (groups : List (List Op))
      → group_unified ops ≡ g ∷ groups
      → unified_lines a b name1 name2 ops
        ≡ (codes "--- " ++ name1) ∷ (codes "+++ " ++ name2) ∷ group_lines a b (g ∷ groups)
  unfolding unified_lines
  unified_lines_some ops g groups e = rw (e, unified_lines) refl

  unified_lines_groups :
      (ops : List Op)
      → has_change ops ≡ true
      → unified_lines a b name1 name2 ops
        ≡ (codes "--- " ++ name1) ∷ (codes "+++ " ++ name2) ∷ group_lines a b (group_unified ops)
  unified_lines_groups ops h = headed (group_unified ops) refl
    where
      headed :
          (groups : List (List Op))
          → group_unified ops ≡ groups
          → unified_lines a b name1 name2 ops
            ≡ (codes "--- " ++ name1)
              ∷ (codes "+++ " ++ name2)
              ∷ group_lines a b (group_unified ops)
      headed [] e =
          absurd (Grouped-change ops (subst (Grouped true ops) e (group_unified-Grouped ops)) h)
      headed (g ∷ groups) e = rw (unified_lines_some ops g groups e, e) refl

  parse_lines_names :
      (lines : List Bytes)
      → IsName name1
      → IsName name2
      → parse_lines 0 0 [] ((codes "--- " ++ name1) ∷ (codes "+++ " ++ name2) ∷ lines)
        ≡ parse_lines 2 0 (record { old_name = name1; new_name = name2; hunks = [] } ∷ []) lines
  unfolding parse_lines has_prefix file_header
  parse_lines_names lines h k = rw (h.trimmed, k.trimmed) refl

op_text-IsNoHeader :
    (eq : Bytes → Bytes → Bool) (a b : List Bytes)
    → All IsPlain a
    → (i j : ℕ) (g rest : List Op) → Script eq a b i j (g ++ rest)
    → All IsNoHeader (op_lines a b g)
unfolding has_prefix
op_text-IsNoHeader eq a b h =
    Script-op_lines eq a b IsPlain (λ y. Unit {0}) IsNoHeader (λ x p. refl) (λ x p. p) (λ y q. refl)
      h (All-any b)
  where
    All-any : (c : List Bytes) → All (λ y. Unit {0}) c
    All-any [] = tt
    All-any (y ∷ c) = (tt, All-any c)

op_text-IsLine :
    (eq : Bytes → Bytes → Bool) (a b : List Bytes)
    → All IsLine a
    → All IsLine b
    → (i j : ℕ) (g rest : List Op) → Script eq a b i j (g ++ rest)
    → All IsLine (op_lines a b g)
op_text-IsLine eq a b h k =
    Script-op_lines eq a b IsLine IsLine IsLine (λ x p. (omega arith, p)) (λ x p. (omega arith, p))
      (λ y q. (omega arith, q)) h k

-- What `diff -u` writes of two files that differ, `patch` reads as one patch with the two names and
-- the hunks of the groups: for names that can stand in a header and lines without a line feed, none
-- of the first file's beginning with "-- ", where the numbers of lines are machine integers.
pub parse_unified-write_unified :
    (equal_fold : Bytes → Bytes → Bool) (a b : List Bytes) (name1 name2 : Bytes)
    (ignore_case : Bool)
    → IsName name1
    → IsName name2
    → All IsLine a
    → All IsLine b
    → All IsPlain a
    → length a ≤ max_int
    → length b ≤ max_int
    → has_change (diff_lines equal_fold a b ignore_case) ≡ true
    → parse_unified (write_unified a b name1 name2 (diff_lines equal_fold a b ignore_case))
      ≡ ok (
          record {
            old_name = name1;
            new_name = name2;
            hunks = hunks_of a b (group_unified (diff_lines equal_fold a b ignore_case));
          }
          ∷ [])
unfolding parse_unified write_unified
parse_unified-write_unified equal_fold a b name1 name2 ignore_case n1 n2 la lb pa ka kb change =
    let eq = line_eq equal_fold ignore_case in
    let ops = diff_lines equal_fold a b ignore_case in
    let groups = group_unified ops in
    let whole = diff_lines-Script equal_fold a b ignore_case in
    let cover = group_unified-Grouped ops in
    let lines =
      Grouped-pieces eq a b (λ g. All IsLine (op_lines a b g)) (op_text-IsLine eq a b la lb) 0 0 ops
        groups cover whole in
    let plain =
      Grouped-pieces eq a b (λ g. All IsNoHeader (op_lines a b g)) (op_text-IsNoHeader eq a b pa) 0
        0 ops groups cover whole in
    let fits = Grouped-pieces eq a b Fits (Script-Fits eq a b ka kb) 0 0 ops groups cover whole in
    let text_lines : List Bytes =
      (codes "--- " ++ name1) ∷ (codes "+++ " ++ name2) ∷ group_lines a b groups in
    ap (λ t. parse_lines 0 0 [] (split (print_all t) (codes "\n")))
      (unified_lines_groups a b name1 name2 ops change)
    ∙ ap (parse_lines 0 0 []) (
        split-print_all text_lines (
          header_line n1.one_line,
          (header_line2 n2.one_line, group_lines-IsLine a b groups lines),
        ))
    ∙ parse_lines_names a b name1 name2 (group_lines a b groups ++ [] ∷ []) n1 n2
    ∙ parse_lines-group_lines a b groups 2 record { old_name = name1; new_name = name2; hunks = [] }
        fits plain
  where
    header_line : IsLine name1 → IsLine (codes "--- " ++ name1)
    header_line h = (omega arith, (omega arith, (omega arith, (omega arith, h))))

    header_line2 : IsLine name2 → IsLine (codes "+++ " ++ name2)
    header_line2 h = (omega arith, (omega arith, (omega arith, (omega arith, h))))
