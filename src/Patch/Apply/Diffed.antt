-- ===== src/Patch/Apply/Diffed.antt =====
-- `applyHunks` of internal/applets/editors/patch/parse.go at the groups that
-- internal/applets/editors/diff/format.go makes.
use mimixbox.Prelude.{
  ℕ, suc, ◌-◌, ◌≤◌, ◌<◌, ◌≡◌, refl, ◌∙◌, sym, ap, subst, Bool, Bool-cases, inl, inr, ◌⊎◌, true,
  false, List, [], ◌∷◌, ◌++◌, append_assoc, append-nil, arith, some, Bytes, length, length-drop,
  get_elem?, take, drop, All, ok,
}
use mimixbox.Prelude.Indices.{slice, get_elem?-bound, take_next, take-length, slice_next, slice_nil}
use mimixbox.Golang.Int.{pos}
use mimixbox.Diff.Lines.{Op, op_equal, op_delete, op_insert, is_equal, line_eq, diff_lines}
use mimixbox.Diff.Lines.Script.{Script, ended, keep, remove, add, diff_lines-Script}
use mimixbox.Diff.Unified.{old_start, in_old, op_lines, group_unified}
use mimixbox.Diff.Unified.Groups.{IsKept, has_kept, Grouped, last, group}
use mimixbox.Diff.Unified.Groups.Cover.{group_unified-Grouped}
use mimixbox.Patch.Apply.{target_of, apply_lines, apply_loop, apply_hunks}
use mimixbox.Patch.Apply.Steps.{
  hunk_of, hunks_of, apply_line_kept, apply_line_deleted, apply_line_inserted, apply_lines_step,
  apply_hunk_at, apply_loop_step, has_old, has_kept-has_old, old_start_none, line_eq_sound,
}

module _ (eq : Bytes → Bytes → Bool) (eq_sound : (x y : Bytes) → eq x y ≡ true → x ≡ y)
    (a b : List Bytes) where
  -- The place that `ops` leaves for `rest`, and what is in between.
  record Kept (i j : ℕ) (ops rest : List Op) : Type 0 where
    old : ℕ
    new : ℕ
    forward : i ≤ old
    unmoved : ops ≡ [] → old ≡ i
    copied : take j b ++ slice i old a ≡ take new b
    others : Script eq a b old new rest

  kept_line :
      (i j old : ℕ) (x y : Bytes) (new : List Bytes)
      → get_elem? a i ≡ some x
      → get_elem? b j ≡ some y
      → x ≡ y
      → i < old
      → take (suc j) b ++ slice (suc i) old a ≡ new
      → take j b ++ slice i old a ≡ new
  kept_line i j old x y new hx hy e l h =
      ap (λ r. take j b ++ r) (slice_next i old a x l hx)
      ∙ sym (append_assoc (take j b) (x ∷ []) (slice (suc i) old a))
      ∙ ap (λ r. take j b ++ r ∷ [] ++ slice (suc i) old a) e
      ∙ ap (λ r. r ++ slice (suc i) old a) (sym (take_next j b y hy))
      ∙ h

  Script-Kept :
      (i j : ℕ) (ops rest : List Op)
      → All IsKept ops
      → Script eq a b i j (ops ++ rest)
      → Kept i j ops rest
  unfolding is_equal
  Script-Kept i j [] rest h s = record {
    old = i;
    new = j;
    forward = omega arith;
    unmoved = λ e. refl;
    copied = rw (slice_nil i a) (append-nil (take j b));
    others = s;
  }
  Script-Kept i j (o ∷ ops) rest h (keep x y hx hy e s) =
      let later = Script-Kept (suc i) (suc j) ops rest h.1 s in
      record {
        old = later.old;
        new = later.new;
        forward = omega (arith, later.forward);
        unmoved = λ n. cc;
        copied =
            kept_line i j later.old x y (take later.new b) hx hy (eq_sound x y e) later.forward
              later.copied;
        others = later.others;
      }
  Script-Kept i j (o ∷ ops) rest h (remove x hx s) = absurd (let e = h.0 in cc)
  Script-Kept i j (o ∷ ops) rest h (add y hy s) = absurd (let e = h.0 in cc)

  Script-end : (i j : ℕ) → Script eq a b i j [] → (i ≡ length a) × (j ≡ length b)
  Script-end i j (ended hi hj) = (hi, hj)

  -- The rest of the original is the rest of the result, where all of it is kept.
  Script-kept_rest :
      (i j : ℕ) (ops : List Op) → All IsKept ops → Script eq a b i j ops → take j b ++ drop i a ≡ b
  Script-kept_rest i j ops h s =
      let kept = Script-Kept i j ops [] h (subst (Script eq a b i j) (sym (append-nil ops)) s) in
      let ends = Script-end kept.old kept.new kept.others in
      ap (λ r. take j b ++ r)
        (sym (take-length (length a - i) (drop i a) (omega (arith, length-drop i a))))
      ∙ subst (λ n. take j b ++ slice i n a ≡ take kept.new b) ends.0 kept.copied
      ∙ take-length kept.new b (omega (arith, ends.1))

  -- What the lines of a group make of the original.
  record Applied (i j : ℕ) (g rest : List Op) : Type 0 where
    old : ℕ
    new : ℕ
    applied :
        apply_lines a (op_lines a b g) (record { pos = i; out = take j b })
        ≡ ok (record { pos = old; out = take new b })
    others : Script eq a b old new rest

  Script-Applied : (i j : ℕ) (g rest : List Op) → Script eq a b i j (g ++ rest) → Applied i j g rest
  Script-Applied i j [] rest s = record {
    old = i;
    new = j;
    applied = unfold op_lines apply_lines in refl;
    others = s;
  }
  Script-Applied i j (o ∷ g) rest (keep x y hx hy e s) =
      let later = Script-Applied (suc i) (suc j) g rest s in
      record {
        old = later.old;
        new = later.new;
        applied =
            apply_lines_step a b i j record { kind = op_equal; ai = i; bi = j } g
              record { pos = suc i; out = take (suc j) b }
              (ok record { pos = later.old; out = take later.new b })
              (apply_line_kept a b i j x y hx hy (eq_sound x y e)) later.applied;
        others = later.others;
      }
  Script-Applied i j (o ∷ g) rest (remove x hx s) =
      let later = Script-Applied (suc i) j g rest s in
      record {
        old = later.old;
        new = later.new;
        applied =
            apply_lines_step a b i j record { kind = op_delete; ai = i; bi = j } g
              record { pos = suc i; out = take j b }
              (ok record { pos = later.old; out = take later.new b })
              (apply_line_deleted a b i j x hx) later.applied;
        others = later.others;
      }
  Script-Applied i j (o ∷ g) rest (add y hy s) =
      let later = Script-Applied i (suc j) g rest s in
      record {
        old = later.old;
        new = later.new;
        applied =
            apply_lines_step a b i j record { kind = op_insert; ai = i; bi = j } g
              record { pos = i; out = take (suc j) b }
              (ok record { pos = later.old; out = take later.new b })
              (apply_line_inserted a b i j y hy) later.applied;
        others = later.others;
      }

  -- A group with a line of the first file says where it begins.
  old_start-Script :
      (i j : ℕ) (g rest : List Op)
      → has_old g ≡ true
      → Script eq a b i j (g ++ rest)
      → (old_start g ≡ suc i) × (i < length a)
  unfolding old_start has_old in_old
  old_start-Script i j [] rest h s = cc
  old_start-Script i j (o ∷ g) rest h (keep x y hx hy e s) = (omega arith, get_elem?-bound i a x hx)
  old_start-Script i j (o ∷ g) rest h (remove x hx s) = (omega arith, get_elem?-bound i a x hx)
  old_start-Script i j (o ∷ g) rest h (add y hy s) = old_start-Script i (suc j) g rest h s

  -- The target of a group's hunk is the place that the kept lines before it lead to.
  Grouped-target :
      {first : Bool} (i j : ℕ) (before g behind : List Op)
      → (first ≡ true → i ≡ 0)
      → (has_kept g ≡ true) ⊎ ((first ≡ true) × (before ≡ []))
      → (k : Kept i j before (g ++ behind))
      → (target_of (pos (old_start g)) ≡ k.old) × (k.old ≤ length a)
  Grouped-target {first = first} i j before g behind f h k = elim (Bool-cases (has_old g)) [
    | inl old ↦
        let start = old_start-Script k.old k.new g behind old k.others in
        (
          ap (λ n. target_of (pos n)) start.0 ∙ (unfold target_of in omega arith),
          omega (arith, start.1),
        )
    | inr none_old ↦ target_at_start h none_old
  ]
    where
      target_at_start :
          (has_kept g ≡ true) ⊎ ((first ≡ true) × (before ≡ []))
          → has_old g ≡ false
          → (target_of (pos (old_start g)) ≡ k.old) × (k.old ≤ length a)
      target_at_start (inl e) n = let some_old = has_kept-has_old g e in absurd cc
      target_at_start (inr e) n =
          let here : k.old ≡ 0 = k.unmoved e.1 ∙ f e.0 in
          (
            ap (λ n. target_of (pos n)) (old_start_none g n) ∙ (unfold target_of in omega arith),
            omega arith,
          )

  pub apply_loop-Grouped :
      {first : Bool} (i j : ℕ) (ops : List Op) (groups : List (List Op))
      → Grouped first ops groups
      → (first ≡ true → i ≡ 0)
      → Script eq a b i j ops
      → apply_loop a (hunks_of a b groups) record { pos = i; out = take j b } ≡ ok b
  unfolding hunks_of
  apply_loop-Grouped i j ops groups (last kept) f s =
      unfold apply_loop in ap ok (Script-kept_rest i j ops kept s)
  apply_loop-Grouped i j ops groups (group {groups = rest} before g behind whole kept h later) f s =
      let k = Script-Kept i j before (g ++ behind) kept (subst (Script eq a b i j) whole s) in
      let target = Grouped-target i j before g behind f h k in
      let d = Script-Applied k.old k.new g behind k.others in
      apply_loop_step a (hunk_of a b g) (hunks_of a b rest) record { pos = i; out = take j b }
        record { pos = d.old; out = take d.new b } (ok b)
        (apply_hunk_at a b g i k.old (take j b) target.0 k.forward target.1
          ∙ ap (λ r. apply_lines a (op_lines a b g) record { pos = k.old; out = r }) k.copied
          ∙ d.applied)
        (apply_loop-Grouped d.old d.new behind rest later (λ e. cc) d.others)

-- Applying the hunks of `diff -u` of two files to the first gives the second, whatever they hold:
-- no hunk is out of place, and no line fails to match.
pub apply_hunks-group_unified :
    (equal_fold : Bytes → Bytes → Bool) (a b : List Bytes)
    → apply_hunks a (hunks_of a b (group_unified (diff_lines equal_fold a b false))) ≡ ok b
unfolding apply_hunks
apply_hunks-group_unified equal_fold a b =
    apply_loop-Grouped (line_eq equal_fold false) (line_eq_sound equal_fold) a b 0 0
      (diff_lines equal_fold a b false) (group_unified (diff_lines equal_fold a b false))
      (group_unified-Grouped (diff_lines equal_fold a b false)) (λ e. refl)
      (diff_lines-Script equal_fold a b false)
