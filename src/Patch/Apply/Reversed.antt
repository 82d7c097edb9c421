-- ===== src/Patch/Apply/Reversed.antt =====
-- `reverseHunks` of internal/applets/editors/patch/parse.go at the groups that
-- internal/applets/editors/diff/format.go makes.
use mimixbox.Prelude.{
  ℕ, suc, ◌≡◌, refl, ◌∙◌, sym, ap, ap₂, subst, Bool, inl, inr, ◌⊎◌, true, false, List, [], ◌∷◌,
  ◌++◌, Bytes, get_or, All, ok,
}
use mimixbox.Prelude.Indices.{get_elem?-get_or}
use mimixbox.Diff.Lines.{Op, OpKind, op_equal, op_delete, op_insert, is_equal, diff_lines, line_eq}
use mimixbox.Diff.Lines.Script.{Script, ended, keep, remove, add, diff_lines-Script}
use mimixbox.Diff.Unified.{
  old_start, old_length, new_start, new_length, in_old, in_new, op_line, op_lines, group_unified,
}
use mimixbox.Diff.Unified.Groups.{IsKept, has_kept, Grouped, last, group}
use mimixbox.Diff.Unified.Groups.Cover.{group_unified-Grouped}
use mimixbox.Patch.Apply.{reverse_line, reverse_lines, reverse_hunk, reverse_hunks, apply_hunks}
use mimixbox.Patch.Apply.Steps.{hunk_of, hunks_of, line_eq_sound}
use mimixbox.Patch.Apply.Diffed.{apply_loop-Grouped}

-- The script from the second file to the first.
swap_kind : OpKind → OpKind
swap_kind op_equal = op_equal
swap_kind op_delete = op_insert
swap_kind op_insert = op_delete

unfoldable swap : Op → Op
unfolding swap_kind
swap o = record { kind = swap_kind o.kind; ai = o.bi; bi = o.ai }

unfoldable swap_all : List Op → List Op
swap_all [] = []
swap_all (o ∷ ops) = swap o ∷ swap_all ops

unfoldable swap_groups : List (List Op) → List (List Op)
swap_groups [] = []
swap_groups (g ∷ groups) = swap_all g ∷ swap_groups groups

swap_all-append : (xs ys : List Op) → swap_all (xs ++ ys) ≡ swap_all xs ++ swap_all ys
unfolding swap_all
swap_all-append [] ys = refl
swap_all-append (x ∷ xs) ys = ap (λ r. swap x ∷ r) (swap_all-append xs ys)

is_equal-swap_kind : (k : OpKind) → is_equal (swap_kind k) ≡ is_equal k
unfolding swap_kind is_equal
is_equal-swap_kind op_equal = refl
is_equal-swap_kind op_delete = refl
is_equal-swap_kind op_insert = refl

swap-IsKept : (o : Op) → is_equal (swap o).kind ≡ is_equal o.kind
unfolding swap
swap-IsKept o = is_equal-swap_kind o.kind

Script-swap :
    (eq : Bytes → Bytes → Bool) (a b : List Bytes) (i j : ℕ) (ops : List Op)
    → Script eq a b i j ops
    → Script (λ y x. eq x y) b a j i (swap_all ops)
unfolding swap_all swap swap_kind
Script-swap eq a b i j [] (ended hi hj) = ended hj hi
Script-swap eq a b i j (o ∷ ops) (keep x y hx hy e s) =
    keep y x hy hx e (Script-swap eq a b (suc i) (suc j) ops s)
Script-swap eq a b i j (o ∷ ops) (remove x hx s) = add x hx (Script-swap eq a b (suc i) j ops s)
Script-swap eq a b i j (o ∷ ops) (add y hy s) = remove y hy (Script-swap eq a b i (suc j) ops s)

swap_all-AllKept : (ops : List Op) → All IsKept ops → All IsKept (swap_all ops)
unfolding swap_all
swap_all-AllKept [] h = tt
swap_all-AllKept (o ∷ ops) h = (swap-IsKept o ∙ h.0, swap_all-AllKept ops h.1)

has_kept-swap_all : (g : List Op) → has_kept (swap_all g) ≡ has_kept g
unfolding has_kept swap_all
has_kept-swap_all [] = refl
has_kept-swap_all (o ∷ g) = rw (swap-IsKept o, has_kept-swap_all g) refl

Grouped-swap :
    {first : Bool} (ops : List Op) (groups : List (List Op))
    → Grouped first ops groups
    → Grouped first (swap_all ops) (swap_groups groups)
unfolding swap_groups
Grouped-swap ops groups (last kept) = last (swap_all-AllKept ops kept)
Grouped-swap {first = first} ops groups (group {groups = rest} before g behind whole kept h later) =
    group (swap_all before) (swap_all g) (swap_all behind)
      (ap swap_all whole
        ∙ swap_all-append before (g ++ behind)
        ∙ ap (λ r. swap_all before ++ r) (swap_all-append g behind))
      (swap_all-AllKept before kept) (context h) (Grouped-swap behind rest later)
  where
    context :
        (has_kept g ≡ true) ⊎ ((first ≡ true) × (before ≡ []))
        → (has_kept (swap_all g) ≡ true) ⊎ ((first ≡ true) × (swap_all before ≡ []))
    context (inl e) = inl (has_kept-swap_all g ∙ e)
    context (inr e) = inr (e.0, ap swap_all e.1 ∙ (unfold swap_all in refl))

module _ (a b : List Bytes) where
  -- A kept line is the same in both files.
  abbrev IsShared : Op → Type 0
  IsShared o = IsKept o → get_or a o.ai [] ≡ get_or b o.bi []

  Script-IsShared :
      (eq : Bytes → Bytes → Bool)
      → ((x y : Bytes) → eq x y ≡ true → x ≡ y)
      → (i j : ℕ) (ops : List Op) → Script eq a b i j ops
      → All IsShared ops
  unfolding is_equal
  Script-IsShared eq sound i j [] (ended hi hj) = tt
  Script-IsShared eq sound i j (o ∷ ops) (keep x y hx hy e s) = (
    λ k. get_elem?-get_or i a x [] hx ∙ sound x y e ∙ sym (get_elem?-get_or j b y [] hy),
    Script-IsShared eq sound (suc i) (suc j) ops s,
  )
  Script-IsShared eq sound i j (o ∷ ops) (remove x hx s) =
      (λ k. absurd cc, Script-IsShared eq sound (suc i) j ops s)
  Script-IsShared eq sound i j (o ∷ ops) (add y hy s) =
      (λ k. absurd cc, Script-IsShared eq sound i (suc j) ops s)

  reverse_line-op_line :
      (k : OpKind) (i j : ℕ)
      → IsShared record { kind = k; ai = i; bi = j }
      → reverse_line (op_line a b record { kind = k; ai = i; bi = j })
        ≡ op_line b a (swap record { kind = k; ai = i; bi = j })
  unfolding reverse_line op_line swap swap_kind is_equal
  reverse_line-op_line op_equal i j h = ap (λ r. b' ' ∷ r) (h refl)
  reverse_line-op_line op_delete i j h = refl
  reverse_line-op_line op_insert i j h = refl

  reverse_lines-op_lines :
      (g : List Op) → All IsShared g → reverse_lines (op_lines a b g) ≡ op_lines b a (swap_all g)
  unfolding reverse_lines op_lines swap_all
  reverse_lines-op_lines [] h = refl
  reverse_lines-op_lines (o ∷ g) h =
      ap₂ (λ l r. l ∷ r) (reverse_line-op_line o.kind o.ai o.bi h.0) (reverse_lines-op_lines g h.1)

in_old-swap :
    (k : OpKind) (i j : ℕ)
    → in_old (swap record { kind = k; ai = i; bi = j }) ≡ in_new record { kind = k; ai = i; bi = j }
unfolding in_old in_new swap swap_kind
in_old-swap op_equal i j = refl
in_old-swap op_delete i j = refl
in_old-swap op_insert i j = refl

in_new-swap :
    (k : OpKind) (i j : ℕ)
    → in_new (swap record { kind = k; ai = i; bi = j }) ≡ in_old record { kind = k; ai = i; bi = j }
unfolding in_old in_new swap swap_kind
in_new-swap op_equal i j = refl
in_new-swap op_delete i j = refl
in_new-swap op_insert i j = refl

old_start-swap_all : (g : List Op) → old_start (swap_all g) ≡ new_start g
unfolding old_start new_start swap_all swap
old_start-swap_all [] = refl
old_start-swap_all (o ∷ g) = rw (in_old-swap o.kind o.ai o.bi, old_start-swap_all g) refl

old_length-swap_all : (g : List Op) → old_length (swap_all g) ≡ new_length g
unfolding old_length new_length swap_all swap
old_length-swap_all [] = refl
old_length-swap_all (o ∷ g) = rw (in_old-swap o.kind o.ai o.bi, old_length-swap_all g) refl

new_start-swap_all : (g : List Op) → new_start (swap_all g) ≡ old_start g
unfolding new_start old_start swap_all swap
new_start-swap_all [] = refl
new_start-swap_all (o ∷ g) = rw (in_new-swap o.kind o.ai o.bi, new_start-swap_all g) refl

new_length-swap_all : (g : List Op) → new_length (swap_all g) ≡ old_length g
unfolding new_length old_length swap_all swap
new_length-swap_all [] = refl
new_length-swap_all (o ∷ g) = rw (in_new-swap o.kind o.ai o.bi, new_length-swap_all g) refl

reverse_hunks-hunks_of :
    (a b : List Bytes) (groups : List (List Op))
    → All (All (IsShared a b)) groups
    → reverse_hunks (hunks_of a b groups) ≡ hunks_of b a (swap_groups groups)
unfolding reverse_hunks reverse_hunk hunks_of hunk_of swap_groups
reverse_hunks-hunks_of a b [] h = refl
reverse_hunks-hunks_of a b (g ∷ groups) h =
    rw
      (
        reverse_lines-op_lines a b g h.0,
        reverse_hunks-hunks_of a b groups h.1,
        old_start-swap_all g,
        old_length-swap_all g,
        new_start-swap_all g,
        new_length-swap_all g,
      )
      refl

All-append_left {ℓ κ} : {A : Type ℓ} (P : A → Type κ) (xs ys : List A) → All P (xs ++ ys) → All P xs
All-append_left P [] ys h = tt
All-append_left P (x ∷ xs) ys h = (h.0, All-append_left P xs ys h.1)

All-append_right {ℓ κ} :
    {A : Type ℓ} (P : A → Type κ) (xs ys : List A) → All P (xs ++ ys) → All P ys
All-append_right P [] ys h = h
All-append_right P (x ∷ xs) ys h = All-append_right P xs ys h.1

Grouped-All :
    {first : Bool} (P : Op → Type 0) (ops : List Op) (groups : List (List Op))
    → Grouped first ops groups
    → All P ops
    → All (All P) groups
Grouped-All P ops groups (last kept) h = tt
Grouped-All P ops groups (group {groups = rest} before g behind whole kept c later) h =
    let behind_before = All-append_right P before (g ++ behind) (subst (All P) whole h) in
    (
      All-append_left P g behind behind_before,
      Grouped-All P behind rest later (All-append_right P g behind behind_before),
    )

-- Applying the reversed hunks of `diff -u` of two files to the second gives the first.
pub apply_hunks-reverse_hunks :
    (equal_fold : Bytes → Bytes → Bool) (a b : List Bytes)
    → apply_hunks b (reverse_hunks (hunks_of a b (group_unified (diff_lines equal_fold a b false))))
      ≡ ok a
unfolding apply_hunks
apply_hunks-reverse_hunks equal_fold a b =
    let ops = diff_lines equal_fold a b false in
    let groups = group_unified ops in
    let whole = diff_lines-Script equal_fold a b false in
    let cover = group_unified-Grouped ops in
    let shared =
      Script-IsShared a b (line_eq equal_fold false) (line_eq_sound equal_fold) 0 0 ops whole in
    ap (apply_hunks b)
      (reverse_hunks-hunks_of a b groups (Grouped-All (IsShared a b) ops groups cover shared))
    ∙ apply_loop-Grouped (λ y x. line_eq equal_fold false x y)
        (λ y x h. sym (line_eq_sound equal_fold x y h)) b a 0 0 (swap_all ops) (swap_groups groups)
        (Grouped-swap ops groups cover) (λ e. refl)
        (Script-swap (line_eq equal_fold false) a b 0 0 ops whole)
