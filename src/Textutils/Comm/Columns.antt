-- ===== src/Textutils/Comm/Columns.antt =====
-- The columns that `compare` of internal/applets/textutils/comm/comm.go gives sorted files.
use mimixbox.Prelude.{
  ℕ, suc, ◌+◌, ◌-◌, ◌≡◌, refl, ◌∙◌, sym, subst, Bool, Bool-cases, inl, inr, true, false, ◌&&◌, List,
  [], ◌∷◌, min, arith, if◌then◌else◌, Bytes, bytes_eq, bytes_eq→eq,
}
use mimixbox.Golang.Strings.Order.{bytes_ltb, bytes_ltb_connex, bytes_ltb_below, bytes_ltb-bytes_eq}
use mimixbox.Textutils.Comm.{sorted, Column, column1, column2, column3, merged}

-- How often the line `z` is in a file, and in a column of the output.
unfoldable pub count : Bytes → List Bytes → ℕ
unfolding bytes_eq
count z [] = 0
count z (x ∷ a) = if bytes_eq z x then suc (count z a) else count z a

unfoldable same_column : Column → Column → Bool
same_column column1 column1 = true
same_column column2 column2 = true
same_column column3 column3 = true
same_column _ _ = false

unfoldable pub column_count : Column → Bytes → List (Column × Bytes) → ℕ
unfolding bytes_eq same_column
column_count k z [] = 0
column_count k z (c ∷ cells) =
    if same_column c.0 k && bytes_eq z c.1
    then suc (column_count k z cells)
    else column_count k z cells

module _ (x : Bytes) (a : List Bytes) (y : Bytes) (b : List Bytes) where
  merged_first : bytes_ltb x y ≡ true → merged (x ∷ a) (y ∷ b) ≡ (column1, x) ∷ merged a (y ∷ b)
  unfolding merged
  merged_first h = rw (h, merged) refl

  merged_second :
      bytes_ltb x y ≡ false
      → bytes_ltb y x ≡ true
      → merged (x ∷ a) (y ∷ b) ≡ (column2, y) ∷ merged (x ∷ a) b
  unfolding merged
  merged_second h k = rw (h, k, merged) refl

  merged_both :
      bytes_ltb x y ≡ false
      → bytes_ltb y x ≡ false
      → merged (x ∷ a) (y ∷ b) ≡ (column3, x) ∷ merged a b
  unfolding merged
  merged_both h k = rw (h, k, merged) refl

merged_old : (x : Bytes) (a : List Bytes) → merged (x ∷ a) [] ≡ (column1, x) ∷ merged a []
unfolding merged
merged_old x a = refl

merged_new : (y : Bytes) (b : List Bytes) → merged [] (y ∷ b) ≡ (column2, y) ∷ merged [] b
unfolding merged
merged_new y b = refl

one_left :
    (t : Bool) (p q m : ℕ) → p + q ≡ m → (if t then suc p else p) + q ≡ (if t then suc m else m)
one_left true p q m h = omega (arith, h)
one_left false p q m h = h

one_right :
    (t : Bool) (p q m : ℕ) → p + q ≡ m → p + (if t then suc q else q) ≡ (if t then suc m else m)
one_right true p q m h = omega (arith, h)
one_right false p q m h = h

sorted_next :
    (x y : Bytes) (a : List Bytes)
    → sorted (x ∷ y ∷ a) ≡ true
    → (bytes_ltb y x ≡ false) × (sorted (y ∷ a) ≡ true)
unfolding sorted
sorted_next x y a h = elim (Bool-cases (bytes_ltb y x)) [
  | inl e ↦ absurd (let off : false ≡ true = sym (rw e refl) ∙ h in cc)
  | inr e ↦ (e, sym (rw e refl) ∙ h)
]

sorted_tail : (x : Bytes) (a : List Bytes) → sorted (x ∷ a) ≡ true → sorted a ≡ true
sorted_tail x [] h = unfold sorted in refl
sorted_tail x (y ∷ a) h = (sorted_next x y a h).1

-- A line before all of a sorted file is not in it.
count_below :
    (x y : Bytes) (b : List Bytes)
    → bytes_ltb x y ≡ true
    → sorted (y ∷ b) ≡ true
    → count x (y ∷ b) ≡ 0
unfolding count
count_below x y [] h s = rw (bytes_ltb-bytes_eq x y h) refl
count_below x y (z ∷ b) h s =
    let next = sorted_next y z b s in
    let rest = count_below x z b (bytes_ltb_below x y z h next.0) next.1 in
    rw (bytes_ltb-bytes_eq x y h) rest

-- A line of which the other file has none leaves the smaller of the two numbers.
min_first :
    (z x : Bytes) (m n : ℕ)
    → (bytes_eq z x ≡ true → n ≡ 0)
    → min m n ≡ min (if bytes_eq z x then suc m else m) n
min_first z x m n h = elim (Bool-cases (bytes_eq z x)) [
  | inl same ↦ let none_there = h same in rw same (omega (arith, none_there))
  | inr other ↦ rw other refl
]

min_second :
    (z y : Bytes) (m n : ℕ)
    → (bytes_eq z y ≡ true → m ≡ 0)
    → min m n ≡ min m (if bytes_eq z y then suc n else n)
min_second z y m n h = elim (Bool-cases (bytes_eq z y)) [
  | inl same ↦ let none_there = h same in rw same (omega (arith, none_there))
  | inr other ↦ rw other refl
]

min_both :
    (t : Bool) (k m n : ℕ)
    → k ≡ min m n
    → (if t then suc k else k) ≡ min (if t then suc m else m) (if t then suc n else n)
min_both true k m n h = omega (arith, h)
min_both false k m n h = h

absent :
    (z x y : Bytes) (b : List Bytes)
    → bytes_ltb x y ≡ true
    → sorted (y ∷ b) ≡ true
    → bytes_eq z x ≡ true
    → count z (y ∷ b) ≡ 0
absent z x y b h s e =
    subst (λ w. count w (y ∷ b) ≡ 0) (sym (bytes_eq→eq z x e)) (count_below x y b h s)

module _ (z : Bytes) where
  common-rest :
      (a : List Bytes)
      → (column_count column3 z (merged a []) ≡ 0) × (column_count column3 z (merged [] a) ≡ 0)
  unfolding column_count same_column merged
  common-rest [] = (refl, refl)
  common-rest (x ∷ a) = common-rest a

  count-nil : count z [] ≡ 0
  unfolding count
  count-nil = refl

  common-count :
      (a b : List Bytes)
      → sorted a ≡ true
      → sorted b ≡ true
      → column_count column3 z (merged a b) ≡ min (count z a) (count z b)
  unfolding column_count same_column count
  common-count [] b s t = omega (arith, (common-rest b).1)
  common-count (x ∷ a) [] s t = omega (arith, (common-rest (x ∷ a)).0)
  common-count (x ∷ a) (y ∷ b) s t = elim (Bool-cases (bytes_ltb x y)) [
    | inl less ↦ rw (merged_first x a y b less) (
        common-count a (y ∷ b) (sorted_tail x a s) t
        ∙ min_first z x (count z a) (count z (y ∷ b)) (absent z x y b less t))
    | inr not_less ↦ elim (Bool-cases (bytes_ltb y x)) [
      | inl more ↦ rw (merged_second x a y b not_less more) (
          common-count (x ∷ a) b s (sorted_tail y b t)
          ∙ min_second z y (count z (x ∷ a)) (count z b) (absent z y x a more s))
      | inr not_more ↦
          rw (merged_both x a y b not_less not_more, sym (bytes_ltb_connex x y not_less not_more))
            (min_both (bytes_eq z x) (column_count column3 z (merged a b)) (count z a) (count z b)
              (common-count a b (sorted_tail x a s) (sorted_tail y b t)))
    ]
  ]

  -- Each line of the first file is in column 1 or 3, each of the second in column 2 or 3.
  merged-contents :
      (a b : List Bytes)
      → (column_count column1 z (merged a b) + column_count column3 z (merged a b) ≡ count z a)
        × (column_count column2 z (merged a b) + column_count column3 z (merged a b) ≡ count z b)
  unfolding column_count same_column count
  merged-contents [] [] = unfold merged in (omega arith, omega arith)
  merged-contents (x ∷ a) [] =
      let rest = merged-contents a [] in
      rw (merged_old x a) (
        one_left (bytes_eq z x) (column_count column1 z (merged a []))
            (column_count column3 z (merged a [])) (count z a) rest.0,
        rest.1,
      )
  merged-contents [] (y ∷ b) =
      let rest = merged-contents [] b in
      rw (merged_new y b) (
        rest.0,
        one_left (bytes_eq z y) (column_count column2 z (merged [] b))
            (column_count column3 z (merged [] b)) (count z b) rest.1,
      )
  merged-contents (x ∷ a) (y ∷ b) = elim (Bool-cases (bytes_ltb x y)) [
    | inl less ↦
        let rest = merged-contents a (y ∷ b) in
        let cells = merged a (y ∷ b) in
        rw (merged_first x a y b less) (
          one_left (bytes_eq z x) (column_count column1 z cells) (column_count column3 z cells)
              (count z a) rest.0,
          rest.1,
        )
    | inr not_less ↦ elim (Bool-cases (bytes_ltb y x)) [
      | inl more ↦
          let rest = merged-contents (x ∷ a) b in
          let cells = merged (x ∷ a) b in
          rw (merged_second x a y b not_less more) (
            rest.0,
            one_left (bytes_eq z y) (column_count column2 z cells) (column_count column3 z cells)
                (count z b) rest.1,
          )
      | inr not_more ↦
          let rest = merged-contents a b in
          let cells = merged a b in
          rw (merged_both x a y b not_less not_more, sym (bytes_ltb_connex x y not_less not_more))
            (
              one_right (bytes_eq z x) (column_count column1 z cells) (column_count column3 z cells)
                  (count z a) rest.0,
              one_right (bytes_eq z x) (column_count column2 z cells) (column_count column3 z cells)
                  (count z b) rest.1,
            )
    ]
  ]

  -- Of files that `sorted` accepts, column 3 has each line as often as both files have it, column 1 as
  -- often as the first has it more than the second, and column 2 as often as the second has it more.
  pub merged-counts :
      (a b : List Bytes)
      → sorted a ≡ true
      → sorted b ≡ true
      → (column_count column3 z (merged a b) ≡ min (count z a) (count z b))
        × ((column_count column1 z (merged a b) ≡ count z a - count z b)
            × (column_count column2 z (merged a b) ≡ count z b - count z a))
  merged-counts a b s t =
      let both = common-count a b s t in
      let contents = merged-contents a b in
      (both, (omega (arith, both, contents.0), omega (arith, both, contents.1)))
