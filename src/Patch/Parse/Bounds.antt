-- ===== src/Patch/Parse/Bounds.antt =====
-- The groups of internal/applets/editors/diff/format.go as the parser of
-- internal/applets/editors/patch/parse.go needs them: small numbers, and no line like a file's header.
use mimixbox.Prelude.{
  ℕ, zero, suc, ◌+◌, ◌≤◌, ◌≡◌, subst, Bool, false, List, [], ◌∷◌, ◌++◌, arith, some, Bytes, codes,
  All, length, get_elem?,
}
use mimixbox.Prelude.Indices.{get_elem?-get_or, get_elem?-bound}
use mimixbox.Golang.Int.{max_int}
use mimixbox.Golang.Strings.{has_prefix}
use mimixbox.Diff.Lines.{Op}
use mimixbox.Diff.Lines.Script.{Script, ended, keep, remove, add}
use mimixbox.Diff.Unified.{
  old_start, old_length, new_start, new_length, op_line, op_lines, in_old, in_new,
}
use mimixbox.Diff.Unified.Groups.{Grouped, last, group}
use mimixbox.Patch.Parse.Written.{Fits}

-- A line that is not taken for a file's header when it is deleted.
abbrev pub IsPlain : Bytes → Type 0
IsPlain l = has_prefix l (codes "-- ") ≡ false

module _ (eq : Bytes → Bytes → Bool) (a b : List Bytes) where
  record After (i j : ℕ) (rest : List Op) : Type 0 where
    old : ℕ
    new : ℕ
    others : Script eq a b old new rest

  Script-After : (i j : ℕ) (ops rest : List Op) → Script eq a b i j (ops ++ rest) → After i j rest
  Script-After i j [] rest s = record { old = i; new = j; others = s }
  Script-After i j (o ∷ ops) rest (keep x y hx hy e s) =
      let later = Script-After (suc i) (suc j) ops rest s in
      record { old = later.old; new = later.new; others = later.others }
  Script-After i j (o ∷ ops) rest (remove x hx s) =
      let later = Script-After (suc i) j ops rest s in
      record { old = later.old; new = later.new; others = later.others }
  Script-After i j (o ∷ ops) rest (add y hy s) =
      let later = Script-After i (suc j) ops rest s in
      record { old = later.old; new = later.new; others = later.others }

  -- A property of the groups that every piece of a script has holds for all of them.
  pub Grouped-pieces :
      {first : Bool} (P : List Op → Type 0)
      → ((i j : ℕ) (g rest : List Op) → Script eq a b i j (g ++ rest) → P g)
      → (i j : ℕ) (ops : List Op) (groups : List (List Op)) → Grouped first ops groups
      → Script eq a b i j ops
      → All P groups
  Grouped-pieces P p i j ops groups (last kept) s = tt
  Grouped-pieces P p i j ops groups (group {groups = rest} before g behind whole kept h later) s =
      let at_group = Script-After i j before (g ++ behind) (subst (Script eq a b i j) whole s) in
      let at_behind = Script-After at_group.old at_group.new g behind at_group.others in
      (
        p at_group.old at_group.new g behind at_group.others,
        Grouped-pieces P p at_behind.old at_behind.new behind rest later at_behind.others,
      )

  old_start-bound :
      (i j : ℕ) (g rest : List Op) → Script eq a b i j (g ++ rest) → old_start g ≤ length a
  unfolding old_start in_old
  old_start-bound i j [] rest s = omega arith
  old_start-bound i j (o ∷ g) rest (keep x y hx hy e s) = omega (arith, get_elem?-bound i a x hx)
  old_start-bound i j (o ∷ g) rest (remove x hx s) = omega (arith, get_elem?-bound i a x hx)
  old_start-bound i j (o ∷ g) rest (add y hy s) = old_start-bound i (suc j) g rest s

  new_start-bound :
      (i j : ℕ) (g rest : List Op) → Script eq a b i j (g ++ rest) → new_start g ≤ length b
  unfolding new_start in_new
  new_start-bound i j [] rest s = omega arith
  new_start-bound i j (o ∷ g) rest (keep x y hx hy e s) = omega (arith, get_elem?-bound j b y hy)
  new_start-bound i j (o ∷ g) rest (remove x hx s) = new_start-bound (suc i) j g rest s
  new_start-bound i j (o ∷ g) rest (add y hy s) = omega (arith, get_elem?-bound j b y hy)

  Script-inside :
      (i j : ℕ) (ops : List Op) → Script eq a b i j ops → (i ≤ length a) × (j ≤ length b)
  Script-inside i j [] (ended hi hj) = (omega arith, omega arith)
  Script-inside i j (o ∷ ops) (keep x y hx hy e s) =
      (omega (arith, get_elem?-bound i a x hx), omega (arith, get_elem?-bound j b y hy))
  Script-inside i j (o ∷ ops) (remove x hx s) =
      (omega (arith, get_elem?-bound i a x hx), (Script-inside (suc i) j ops s).1)
  Script-inside i j (o ∷ ops) (add y hy s) =
      ((Script-inside i (suc j) ops s).0, omega (arith, get_elem?-bound j b y hy))

  old_length-bound :
      (i j : ℕ) (g rest : List Op) → Script eq a b i j (g ++ rest) → i + old_length g ≤ length a
  unfolding old_length in_old
  old_length-bound i j [] rest s = omega (arith, (Script-inside i j rest s).0)
  old_length-bound i j (o ∷ g) rest (keep x y hx hy e s) =
      omega (arith, old_length-bound (suc i) (suc j) g rest s)
  old_length-bound i j (o ∷ g) rest (remove x hx s) =
      omega (arith, old_length-bound (suc i) j g rest s)
  old_length-bound i j (o ∷ g) rest (add y hy s) = old_length-bound i (suc j) g rest s

  new_length-bound :
      (i j : ℕ) (g rest : List Op) → Script eq a b i j (g ++ rest) → j + new_length g ≤ length b
  unfolding new_length in_new
  new_length-bound i j [] rest s = omega (arith, (Script-inside i j rest s).1)
  new_length-bound i j (o ∷ g) rest (keep x y hx hy e s) =
      omega (arith, new_length-bound (suc i) (suc j) g rest s)
  new_length-bound i j (o ∷ g) rest (remove x hx s) = new_length-bound (suc i) j g rest s
  new_length-bound i j (o ∷ g) rest (add y hy s) =
      omega (arith, new_length-bound i (suc j) g rest s)

  pub Script-Fits :
      length a ≤ max_int
      → length b ≤ max_int
      → (i j : ℕ) (g rest : List Op) → Script eq a b i j (g ++ rest)
      → Fits g
  Script-Fits h k i j g rest s = record {
    fits_old_start = omega (arith, old_start-bound i j g rest s);
    fits_old_length = omega (arith, old_length-bound i j g rest s);
    fits_new_start = omega (arith, new_start-bound i j g rest s);
    fits_new_length = omega (arith, new_length-bound i j g rest s);
  }

  All-get_elem? :
      (P : Bytes → Type 0) (i : ℕ) (c : List Bytes) (x : Bytes)
      → All P c
      → get_elem? c i ≡ some x
      → P x
  All-get_elem? P i [] x h g = absurd cc
  All-get_elem? P zero (y ∷ c) x h g = let e : y ≡ x = cc in subst P e h.0
  All-get_elem? P (suc i) (y ∷ c) x h g = All-get_elem? P i c x h.1 g

  -- A property of lines that the operations' lines have, if `P` makes it for those that are kept or deleted and `Q` for the inserted.
  pub Script-op_lines :
      (P Q R : Bytes → Type 0)
      → ((x : Bytes) → P x → R (b' ' ∷ x))
      → ((x : Bytes) → P x → R (b'-' ∷ x))
      → ((y : Bytes) → Q y → R (b'+' ∷ y))
      → All P a
      → All Q b
      → (i j : ℕ) (g rest : List Op) → Script eq a b i j (g ++ rest)
      → All R (op_lines a b g)
  unfolding op_lines op_line
  Script-op_lines P Q R kept gone new ha hb i j [] rest s = tt
  Script-op_lines P Q R kept gone new ha hb i j (o ∷ g) rest (keep x y hx hy e s) = (
    rw (get_elem?-get_or i a x [] hx) (kept x (All-get_elem? P i a x ha hx)),
    Script-op_lines P Q R kept gone new ha hb (suc i) (suc j) g rest s,
  )
  Script-op_lines P Q R kept gone new ha hb i j (o ∷ g) rest (remove x hx s) = (
    rw (get_elem?-get_or i a x [] hx) (gone x (All-get_elem? P i a x ha hx)),
    Script-op_lines P Q R kept gone new ha hb (suc i) j g rest s,
  )
  Script-op_lines P Q R kept gone new ha hb i j (o ∷ g) rest (add y hy s) = (
    rw (get_elem?-get_or j b y [] hy) (new y (All-get_elem? Q j b y hb hy)),
    Script-op_lines P Q R kept gone new ha hb i (suc j) g rest s,
  )
