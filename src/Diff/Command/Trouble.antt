-- ===== src/Diff/Command/Trouble.antt =====
-- When `Run` of internal/applets/editors/diff/diff.go gives up.
use mimixbox.Prelude.{
  ℕ, ◌*◌, ◌%◌, ◌^◌, ◌<◌, ◌≡◌, ◌≢◌, ◌⊎◌, ◌↔◌, refl, ◌∙◌, sym, ap, Bool, Bool-cases, inl, inr, true,
  ◌&&◌, List, [], ◌∷◌, arith, ltb, ◌==◌, Bytes, length, Result, ok, err,
}
use mimixbox.Diff.Lines.{has_change, read_lines, diff_lines}
use mimixbox.Diff.Command.{
  Options, too_many_cells, trouble, usage_trouble, compare_lines, compare_files, run,
}
use mimixbox.Diff.Command.Status.{AreSmall, compare_lines_same, compare_lines_differ}

-- The product of the numbers of lines as an `int64`, the bits of a negative one read as they are.
abbrev cells : List Bytes → List Bytes → ℕ
cells a b = (length a * length b) % 2 ^ 64

-- Such files are too large: the product is positive as an `int64` and above 50,000,000.
abbrev TooLarge : List Bytes → List Bytes → Type 0
TooLarge a b = (0 < length a) × (50000000 < cells a b) × (cells a b < 2 ^ 63)

TooLarge-guard :
    (a b : List Bytes)
    → TooLarge a b
    → (ltb 0 (length a) && too_many_cells (length a) (length b)) ≡ true
unfolding too_many_cells
TooLarge-guard a b h = many (cells a b) (length a) h.0 h.1 h.2
  where
    many :
        (c n : ℕ)
        → 0 < n
        → 50000000 < c
        → c < 2 ^ 63
        → (ltb 0 n && (ltb 50000000 c && ltb c (2 ^ 63))) ≡ true
    many c n p q r = ground arith

guard-TooLarge :
    (a b : List Bytes)
    → (ltb 0 (length a) && too_many_cells (length a) (length b)) ≡ true
    → TooLarge a b
unfolding too_many_cells
guard-TooLarge a b h = few (cells a b) (length a) h
  where
    few :
        (c n : ℕ)
        → (ltb 0 n && (ltb 50000000 c && ltb c (2 ^ 63))) ≡ true
        → (0 < n) × (50000000 < c) × (c < 2 ^ 63)
    few c n p = (ground arith, ground arith, ground arith)

compare_lines_large :
    (equal_fold : Bytes → Bytes → Bool) (o : Options) (name1 name2 : Bytes) (a b : List Bytes)
    → (ltb 0 (length a) && too_many_cells (length a) (length b)) ≡ true
    → ((compare_lines equal_fold o name1 name2 a b).code ≡ 2)
      × ((compare_lines equal_fold o name1 name2 a b).out ≡ [])
unfolding compare_lines trouble
compare_lines_large equal_fold o name1 name2 a b h = rw h (refl, refl)

compare_lines_small :
    (equal_fold : Bytes → Bytes → Bool) (o : Options) (name1 name2 : Bytes) (a b : List Bytes)
    → AreSmall a b
    → (compare_lines equal_fold o name1 name2 a b).code ≢ 2
compare_lines_small equal_fold o name1 name2 a b h =
    elim (Bool-cases (has_change (diff_lines equal_fold a b o.ignore_case))) [
      | inl change ↦ λ e.
          let one = compare_lines_differ equal_fold o name1 name2 a b h change in
          absurd (omega (arith, one, e))
      | inr same ↦ λ e.
          let zero_code =
            ap (λ r. r.code) (compare_lines_same equal_fold o name1 name2 a b h same) in
          absurd (omega (arith, zero_code, e))
    ]

-- A file that cannot be read, or its text.
data ReadCases : Result Bytes Bytes → Type 0 where
  failed : {r : Result Bytes Bytes} (e : Bytes) → r ≡ err e → ReadCases r
  read : {r : Result Bytes Bytes} (text : Bytes) → r ≡ ok text → ReadCases r

read_cases : (r : Result Bytes Bytes) → ReadCases r
read_cases (ok text) = read text refl
read_cases (err e) = failed e refl

module _ (equal_fold : Bytes → Bytes → Bool) (o : Options)
    (read_file : Bytes → Result Bytes Bytes) where
  -- What can go wrong: the number of operands, a file that cannot be read, files too large.
  pub data Trouble : List Bytes → Type 0 where
    operand_count : {names : List Bytes} → length names ≢ 2 → Trouble names
    first_unreadable :
        {name1 name2 : Bytes} (e : Bytes) → read_file name1 ≡ err e → Trouble (name1 ∷ name2 ∷ [])
    second_unreadable :
        {name1 name2 : Bytes} (text1 e : Bytes)
        → read_file name1 ≡ ok text1
        → read_file name2 ≡ err e
        → Trouble (name1 ∷ name2 ∷ [])
    too_large :
        {name1 name2 : Bytes} (text1 text2 : Bytes)
        → read_file name1 ≡ ok text1
        → read_file name2 ≡ ok text2
        → TooLarge (read_lines text1) (read_lines text2)
        → Trouble (name1 ∷ name2 ∷ [])

  Trouble-code :
      (names : List Bytes)
      → Trouble names
      → ((run equal_fold o read_file names).code ≡ 2)
        × ((run equal_fold o read_file names).out ≡ [])
  unfolding run compare_files usage_trouble trouble
  Trouble-code [] (operand_count h) = (refl, refl)
  Trouble-code (a ∷ []) (operand_count h) = (refl, refl)
  Trouble-code (a ∷ b ∷ []) (operand_count h) = absurd (h refl)
  Trouble-code (a ∷ b ∷ c ∷ names) (operand_count h) = (refl, refl)
  Trouble-code (a ∷ b ∷ []) (first_unreadable e h) = rw (h, run, compare_files) (refl, refl)
  Trouble-code (a ∷ b ∷ []) (second_unreadable t e h k) = rw (h, k, run, compare_files) (refl, refl)
  Trouble-code (a ∷ b ∷ []) (too_large t u h k l) =
      rw (h, k, run, compare_files)
        (compare_lines_large equal_fold o a b (read_lines t) (read_lines u)
          (TooLarge-guard (read_lines t) (read_lines u) l))

  code-Trouble : (names : List Bytes) → (run equal_fold o read_file names).code ≡ 2 → Trouble names
  unfolding run compare_files
  code-Trouble [] c = operand_count (λ e. absurd (omega (arith, e)))
  code-Trouble (a ∷ []) c = operand_count (λ e. absurd (omega (arith, e)))
  code-Trouble (a ∷ b ∷ d ∷ names) c = operand_count (λ e. absurd (omega (arith, e)))
  code-Trouble (a ∷ b ∷ []) c = elim (read_cases (read_file a)) [
    | failed e h ↦ first_unreadable e h
    | read t h ↦ elim (read_cases (read_file b)) [
      | failed e k ↦ second_unreadable t e h k
      | read u k ↦
          elim (Bool-cases (
            ltb 0 (length (read_lines t))
            && too_many_cells (length (read_lines t)) (length (read_lines u)))) [
              | inl large ↦ too_large t u h k (guard-TooLarge (read_lines t) (read_lines u) large)
              | inr small ↦ absurd (
                  compare_lines_small equal_fold o a b (read_lines t) (read_lines u) small
                    (sym (compared h k) ∙ c))
            ]
    ]
  ]
    where
      compared :
          {t u : Bytes}
          → read_file a ≡ ok t
          → read_file b ≡ ok u
          → (compare_files equal_fold o read_file a b).code
            ≡ (compare_lines equal_fold o a b (read_lines t) (read_lines u)).code
      compared h k = rw (h, k, compare_files) refl

  -- `diff` exits with 2 exactly in these cases: there are not two operands, the first file cannot be
  -- read, or the second, or the first has a line and the product of the numbers of lines, as an
  -- `int64`, is above 50,000,000. Where it exits with 2, nothing is written to the standard output.
  pub run-Trouble :
      (names : List Bytes)
      → (((run equal_fold o read_file names).code ≡ 2) ↔ Trouble names)
        × (((run equal_fold o read_file names).code ≢ 2)
            ⊎ ((run equal_fold o read_file names).out ≡ []))
  run-Trouble names = ((code-Trouble names, λ t. (Trouble-code names t).0), quiet)
    where
      quiet :
          ((run equal_fold o read_file names).code ≢ 2)
          ⊎ ((run equal_fold o read_file names).out ≡ [])
      quiet = elim (Bool-cases ((run equal_fold o read_file names).code == 2)) [
        | inl c ↦
            let two : (run equal_fold o read_file names).code ≡ 2 = ground arith in
            inr (Trouble-code names (code-Trouble names two)).1
        | inr c ↦ inl (λ e. ground arith)
      ]
