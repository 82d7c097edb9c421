-- ===== src/Patch/Apply/Steps.antt =====
-- One line, one hunk and one group of `applyHunks` of internal/applets/editors/patch/parse.go, at what
-- internal/applets/editors/diff/format.go makes.
use mimixbox.Prelude.{
  ℕ, zero, suc, ◌≤◌, ◌≡◌, refl, Bool, Bool-cases, inl, inr, true, false, ◌||◌, List, [], ◌∷◌, ◌++◌,
  arith, ltb, some, Bytes, bytes_eq_refl, bytes_eq→eq, length, get_elem?, take, Result, ok,
}
use mimixbox.Prelude.Indices.{slice, get_elem?-get_or, take_next}
use mimixbox.Golang.Int.{pos}
use mimixbox.Diff.Lines.{Op, OpKind, op_equal, op_delete, op_insert, is_equal, line_eq}
use mimixbox.Diff.Unified.{old_start, old_length, new_start, new_length, in_old, op_line, op_lines}
use mimixbox.Diff.Unified.Groups.{has_kept}
use mimixbox.Patch.Hunks.{Hunk, PatchError}
use mimixbox.Patch.Apply.{
  Progress, line_is, target_of, apply_line, apply_lines, apply_hunk, apply_loop,
}

-- The hunk that the lines of a group say.
unfoldable pub hunk_of : List Bytes → List Bytes → List Op → Hunk
unfolding old_start old_length new_start new_length op_lines
hunk_of a b g = record {
  old_start = pos (old_start g);
  old_len = pos (old_length g);
  new_start = pos (new_start g);
  new_len = pos (new_length g);
  lines = op_lines a b g;
}

unfoldable pub hunks_of : List Bytes → List Bytes → List (List Op) → List Hunk
unfolding hunk_of
hunks_of a b [] = []
hunks_of a b (g ∷ groups) = hunk_of a b g ∷ hunks_of a b groups

pub line_is-get_elem? :
    (a : List Bytes) (i : ℕ) (x : Bytes) → get_elem? a i ≡ some x → line_is a i x ≡ true
unfolding line_is
line_is-get_elem? [] i x h = cc
line_is-get_elem? (l ∷ a) zero x h = let e : l ≡ x = cc in rw e (bytes_eq_refl x)
line_is-get_elem? (l ∷ a) (suc i) x h = line_is-get_elem? a i x h

module _ (a b : List Bytes) (i j : ℕ) where
  pub apply_line_kept :
      (x y : Bytes)
      → get_elem? a i ≡ some x
      → get_elem? b j ≡ some y
      → x ≡ y
      → apply_line a
          (op_line a b record { kind = op_equal; ai = i; bi = j })
          record { pos = i; out = take j b }
        ≡ ok (record { pos = suc i; out = take (suc j) b })
  unfolding apply_line op_line
  apply_line_kept x y hx hy e =
      rw (get_elem?-get_or i a x [] hx, line_is-get_elem? a i x hx, take_next j b y hy, e) refl

  pub apply_line_deleted :
      (x : Bytes)
      → get_elem? a i ≡ some x
      → apply_line a
          (op_line a b record { kind = op_delete; ai = i; bi = j })
          record { pos = i; out = take j b }
        ≡ ok (record { pos = suc i; out = take j b })
  unfolding apply_line op_line
  apply_line_deleted x hx = rw (get_elem?-get_or i a x [] hx, line_is-get_elem? a i x hx) refl

  pub apply_line_inserted :
      (y : Bytes)
      → get_elem? b j ≡ some y
      → apply_line a
          (op_line a b record { kind = op_insert; ai = i; bi = j })
          record { pos = i; out = take j b }
        ≡ ok (record { pos = i; out = take (suc j) b })
  unfolding apply_line op_line
  apply_line_inserted y hy = rw (get_elem?-get_or j b y [] hy, take_next j b y hy) refl

  pub apply_lines_step :
      (o : Op) (g : List Op) (q : Progress) (r : Result PatchError Progress)
      → apply_line a (op_line a b o) record { pos = i; out = take j b } ≡ ok q
      → apply_lines a (op_lines a b g) q ≡ r
      → apply_lines a (op_lines a b (o ∷ g)) record { pos = i; out = take j b } ≡ r
  unfolding op_lines apply_lines
  apply_lines_step o g q r h k = rw (h, op_lines, apply_lines) k

pub apply_hunk_at :
    (a b : List Bytes) (g : List Op) (i t : ℕ) (out : List Bytes)
    → target_of (pos (old_start g)) ≡ t
    → i ≤ t
    → t ≤ length a
    → apply_hunk a (hunk_of a b g) record { pos = i; out = out }
      ≡ apply_lines a (op_lines a b g) record { pos = t; out = out ++ slice i t a }
unfolding apply_hunk hunk_of
apply_hunk_at a b g i t out e l m =
    let inside : ltb (length a) t ≡ false = ground arith in
    let ordered : ltb t i ≡ false = ground arith in rw (e, inside, ordered) refl

pub apply_loop_step :
    (a : List Bytes) (h : Hunk) (hunks : List Hunk) (p q : Progress)
    (r : Result PatchError (List Bytes))
    → apply_hunk a h p ≡ ok q
    → apply_loop a hunks q ≡ r
    → apply_loop a (h ∷ hunks) p ≡ r
unfolding apply_loop
apply_loop_step a h hunks p q r e k = rw (e, apply_loop) k

-- Whether a group has a line of the first file.
unfoldable pub has_old : List Op → Bool
unfolding in_old
has_old [] = false
has_old (o ∷ g) = in_old o || has_old g

pub is_equal→op_equal : (k : OpKind) → is_equal k ≡ true → k ≡ op_equal
unfolding is_equal
is_equal→op_equal op_equal h = refl
is_equal→op_equal op_delete h = cc
is_equal→op_equal op_insert h = cc

pub or_true : (x : Bool) → x || true ≡ true
or_true true = refl
or_true false = refl

pub or_right : (x y : Bool) → x ≡ false → x || y ≡ true → y ≡ true
or_right true y e h = cc
or_right false y e h = h

pub has_kept-has_old : (g : List Op) → has_kept g ≡ true → has_old g ≡ true
unfolding has_kept has_old is_equal in_old
has_kept-has_old [] h = h
has_kept-has_old (o ∷ g) h = elim (Bool-cases (is_equal o.kind)) [
  | inl kept ↦ rw (is_equal→op_equal o.kind kept) refl
  | inr change ↦
      let later = has_kept-has_old g (or_right (is_equal o.kind) (has_kept g) change h) in
      rw later (or_true (in_old o))
]

pub old_start_none : (g : List Op) → has_old g ≡ false → old_start g ≡ 0
unfolding has_old old_start
old_start_none [] h = refl
old_start_none (o ∷ g) h = ground (arith, old_start_none g)

pub line_eq_sound :
    (equal_fold : Bytes → Bytes → Bool) (x y : Bytes) → line_eq equal_fold false x y ≡ true → x ≡ y
unfolding line_eq
line_eq_sound equal_fold x y h = bytes_eq→eq x y h
