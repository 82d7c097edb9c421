-- ===== src/Diff/Command/Status.antt =====
-- The exit codes of `Run` of internal/applets/editors/diff/diff.go.
use mimixbox.Prelude.{
  ℕ, zero, suc, ◌+◌, ◌≤◌, ◌≡◌, ◌↔◌, refl, ◌∙◌, sym, ap₂, subst, Bool, Bool-cases, inl, inr, true,
  false, ◌&&◌, List, [], ◌∷◌, arith, ltb, Bytes, bytes_eq, bytes_eq_refl, bytes_eq→eq, length, drop,
}
use mimixbox.Prelude.Indices.{get_elem?-some, drop-get_elem?, drop_all}
use mimixbox.Diff.Lines.{Op, op_equal, has_change, is_equal, line_eq, diff_lines}
use mimixbox.Diff.Lines.Script.{Script, ended, keep, remove, add, diff_lines-Script}
use mimixbox.Diff.Lines.Longest.Fewest.{change_count, diff_lines-fewest}
use mimixbox.Diff.Command.{Options, too_many_cells, compare_lines}

has_change-change_count : (ops : List Op) → change_count ops ≤ 0 → has_change ops ≡ false
unfolding has_change change_count
has_change-change_count [] h = refl
has_change-change_count (o ∷ ops) h = elim (Bool-cases (is_equal o.kind)) [
  | inl kept ↦ rw kept (has_change-change_count ops (rw (sym (change_count_kept o ops kept)) h))
  | inr change ↦ absurd (omega (arith, change_count_change o ops change))
]
  where
    change_count_kept :
        (p : Op) (rest : List Op)
        → is_equal p.kind ≡ true
        → change_count (p ∷ rest) ≡ change_count rest
    change_count_kept p rest e = unfold change_count in rw e refl

    change_count_change :
        (p : Op) (rest : List Op)
        → is_equal p.kind ≡ false
        → change_count (p ∷ rest) ≡ suc (change_count rest)
    change_count_change p rest e = unfold change_count in rw e refl

module _ (eq : Bytes → Bytes → Bool) where
  -- The script that keeps `n` lines from line `i` on.
  kept_script : ℕ → ℕ → List Op
  kept_script i zero = []
  kept_script i (suc n) = record { kind = op_equal; ai = i; bi = i } ∷ kept_script (suc i) n

  change_count-kept_script : (i n : ℕ) → change_count (kept_script i n) ≡ 0
  unfolding change_count kept_script is_equal
  change_count-kept_script i zero = refl
  change_count-kept_script i (suc n) = change_count-kept_script (suc i) n

  kept_script-Script :
      ((x : Bytes) → eq x x ≡ true)
      → (a : List Bytes) (n i : ℕ) → i + n ≡ length a
      → Script eq a a i i (kept_script i n)
  unfolding kept_script
  kept_script-Script r a zero i h = ended (omega arith) (omega arith)
  kept_script-Script r a (suc n) i h =
      let line = get_elem?-some i a (omega arith) in
      keep line.0 line.0 line.1 line.1 (r line.0) (kept_script-Script r a n (suc i) (omega arith))

  -- A script without a change goes through equal files.
  Script-same :
      ((x y : Bytes) → eq x y ≡ true → x ≡ y)
      → (a b : List Bytes) (i j : ℕ) (ops : List Op) → has_change ops ≡ false
      → Script eq a b i j ops
      → drop i a ≡ drop j b
  unfolding has_change is_equal
  Script-same sound a b i j [] h (ended hi hj) =
      drop_all i a (omega arith) ∙ sym (drop_all j b (omega arith))
  Script-same sound a b i j (o ∷ ops) h (keep x y hx hy e s) =
      drop-get_elem? i a x hx
      ∙ ap₂ (λ l r. l ∷ r) (sound x y e) (Script-same sound a b (suc i) (suc j) ops h s)
      ∙ sym (drop-get_elem? j b y hy)
  Script-same sound a b i j (o ∷ ops) h (remove x hx s) = cc
  Script-same sound a b i j (o ∷ ops) h (add y hy s) = cc

exact :
    (equal_fold : Bytes → Bytes → Bool) (x y : Bytes) → line_eq equal_fold false x y ≡ bytes_eq x y
unfolding line_eq
exact equal_fold x y = refl

-- The edit script has a change exactly if the files differ.
pub has_change-diff_lines :
    (equal_fold : Bytes → Bytes → Bool) (a b : List Bytes)
    → (has_change (diff_lines equal_fold a b false) ≡ false) ↔ (a ≡ b)
has_change-diff_lines equal_fold a b = (
  λ h.
      Script-same (line_eq equal_fold false)
        (λ x y e. bytes_eq→eq x y (sym (exact equal_fold x y) ∙ e)) a b 0 0
        (diff_lines equal_fold a b false) h (diff_lines-Script equal_fold a b false),
  λ e. subst (λ c. has_change (diff_lines equal_fold a c false) ≡ false) e unchanged,
)
  where
    same :
        Script
          (line_eq equal_fold false)
          a
          a
          0
          0
          (kept_script (line_eq equal_fold false) 0 (length a))
    same =
        kept_script-Script (line_eq equal_fold false) (λ x. exact equal_fold x x ∙ bytes_eq_refl x)
          a (length a) 0 (omega arith)

    unchanged : has_change (diff_lines equal_fold a a false) ≡ false
    unchanged = has_change-change_count (diff_lines equal_fold a a false) (
        omega (
          arith,
          diff_lines-fewest equal_fold a a false
              (kept_script (line_eq equal_fold false) 0 (length a)) same,
          change_count-kept_script (line_eq equal_fold false) 0 (length a),
        ))

-- The files are small enough for the table.
abbrev pub AreSmall : List Bytes → List Bytes → Type 0
AreSmall a b = (ltb 0 (length a) && too_many_cells (length a) (length b)) ≡ false

module _ (equal_fold : Bytes → Bytes → Bool) (o : Options) (name1 name2 : Bytes)
    (a b : List Bytes) where
  pub compare_lines_same :
      AreSmall a b
      → has_change (diff_lines equal_fold a b o.ignore_case) ≡ false
      → compare_lines equal_fold o name1 name2 a b ≡ record { out = []; errors = []; code = 0 }
  unfolding compare_lines
  compare_lines_same h k = rw (h, k, compare_lines) refl

  pub compare_lines_differ :
      AreSmall a b
      → has_change (diff_lines equal_fold a b o.ignore_case) ≡ true
      → (compare_lines equal_fold o name1 name2 a b).code ≡ 1
  unfolding compare_lines
  compare_lines_differ h k = elim (Bool-cases o.brief) [
    | inl brief ↦ rw (h, k, brief, compare_lines) refl
    | inr long ↦ rw (h, k, long, compare_lines) refl
  ]
