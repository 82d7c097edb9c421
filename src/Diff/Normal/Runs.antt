-- ===== src/Diff/Normal/Runs.antt =====
-- The classic output of internal/applets/editors/diff/format.go against its description in
-- Classic.antt.
use mimixbox.Prelude.{
  ℕ, zero, suc, ◌+◌, ◌≤◌, ◌<◌, ◌≡◌, refl, ◌∙◌, sym, ap, ap₂, Bool, Bool-cases, true, false, inl,
  inr, List, [], ◌∷◌, ◌++◌, append-nil, arith, ◌==◌, Option, none, some, Bytes, codes, length, take,
  drop, get_or,
}
use mimixbox.Prelude.Indices.{get_elem?-some, get_elem?-bound, get_elem?-get_or, drop-get_elem?}
use mimixbox.Diff.Lines.{Op, OpKind, op_delete, op_insert, is_equal, diff_lines, line_eq}
use mimixbox.Diff.Lines.Script.{Script, keep, remove, add, diff_lines-Script}
use mimixbox.Diff.Normal.Classic.{span, prefixed, change_text, classic}
use mimixbox.Diff.Normal.{
  Hunk, new_hunk, add_op, collect_from, collect_hunks, range_str, print_lines, write_hunk,
  write_hunks, write_normal,
}

range_from : ℕ → ℕ → List ℕ
range_from start zero = []
range_from start (suc n) = start ∷ range_from (suc start) n

length-range_from : (start n : ℕ) → length (range_from start n) ≡ n
unfolding range_from
length-range_from start zero = refl
length-range_from start (suc n) = omega (arith, length-range_from (suc start) n)

range_from-end :
    (start n m : ℕ) → m ≡ start + n → range_from start n ++ m ∷ [] ≡ range_from start (suc n)
unfolding range_from
range_from-end start zero m h = let e : start ≡ m = omega arith in rw e refl
range_from-end start (suc n) m h =
    ap (λ r. start ∷ r) (range_from-end (suc start) n m (omega arith))

drop-get_or :
    (i : ℕ) (src : List Bytes) → i < length src → drop i src ≡ get_or src i [] ∷ drop (suc i) src
drop-get_or i src h =
    let line = get_elem?-some i src h in
    drop-get_elem? i src line.0 line.1
    ∙ ap (λ l. l ∷ drop (suc i) src) (sym (get_elem?-get_or i src line.0 [] line.1))

print_lines-range_from :
    (prefix : Bytes) (src : List Bytes) (i n : ℕ)
    → i + n ≤ length src
    → print_lines prefix src (range_from i n) ≡ prefixed prefix (take n (drop i src))
unfolding print_lines range_from prefixed
print_lines-range_from prefix src i zero h = refl
print_lines-range_from prefix src i (suc n) h =
    ap (λ r. prefix ++ (get_or src i [] ++ (codes "\n" ++ r)))
      (print_lines-range_from prefix src (suc i) n (omega arith))
    ∙ ap (λ l. prefixed prefix (take (suc n) l)) (sym (drop-get_or i src (omega arith)))

range_str-span : (i n : ℕ) → range_str (i + 1) (i + n) ≡ span i n
unfolding range_str span
range_str-span i n = elim (Bool-cases (n == 1)) [
  | inl one ↦ let same : (i + 1 == i + n) ≡ true = ground arith in rw (one, same) refl
  | inr more ↦ let differ : (i + 1 == i + n) ≡ false = ground arith in rw (more, differ) refl
]

-- The hunk of these lines.
abbrev hunk_of : ℕ → ℕ → ℕ → ℕ → Hunk
hunk_of i n j m = record { a_pos = i; b_pos = j; dels = range_from i n; ins = range_from j m }

module _ (a b : List Bytes) where
  write_hunk-change_text :
      (i n j m : ℕ)
      → i + n ≤ length a
      → j + m ≤ length b
      → 1 ≤ n + m
      → write_hunk a b (hunk_of i n j m) ≡ change_text a b i n j m
  unfolding write_hunk change_text
  write_hunk-change_text i zero j zero h k p = absurd (omega arith)
  write_hunk-change_text i (suc n) j zero h k p =
      rw
        (
          length-range_from i (suc n),
          length-range_from j 0,
          range_str-span i (suc n),
          print_lines-range_from (codes "< ") a i (suc n) h,
        )
        refl
  write_hunk-change_text i zero j (suc m) h k p =
      let some_new : (suc m == 0) ≡ false = ground arith in
      rw
        (
          length-range_from j (suc m),
          length-range_from i 0,
          some_new,
          range_str-span j (suc m),
          print_lines-range_from (codes "> ") b j (suc m) k,
        )
        refl
  write_hunk-change_text i (suc n) j (suc m) h k p =
      let some_old : (suc n == 0) ≡ false = ground arith in
      let some_new : (suc m == 0) ≡ false = ground arith in
      rw
        (
          length-range_from i (suc n),
          length-range_from j (suc m),
          some_old,
          some_new,
          range_str-span i (suc n),
          range_str-span j (suc m),
          print_lines-range_from (codes "< ") a i (suc n) h,
          print_lines-range_from (codes "> ") b j (suc m) k,
        )
        refl

  -- What is collected so far, since the last kept line.
  abbrev IsCurrent : Option Hunk → ℕ → ℕ → ℕ → ℕ → Type 0
  IsCurrent none i n j m = (n ≡ 0) × (m ≡ 0)
  IsCurrent (some h) i n j m = (h ≡ hunk_of i n j m) × (1 ≤ n + m)

  add_delete :
      (h : Hunk) (i n j m x y : ℕ)
      → h ≡ hunk_of i n j m
      → x ≡ i + n
      → add_op h (record { kind = op_delete; ai = x; bi = y }) ≡ hunk_of i (suc n) j m
  unfolding add_op
  add_delete h i n j m x y e p =
      ap (λ (u : Hunk). record u { dels = u.dels ++ x ∷ [] }) e
      ∙ ap (λ l. record { a_pos = i; b_pos = j; dels = l; ins = range_from j m })
          (range_from-end i n x p)

  add_insert :
      (h : Hunk) (i n j m x y : ℕ)
      → h ≡ hunk_of i n j m
      → y ≡ j + m
      → add_op h (record { kind = op_insert; ai = x; bi = y }) ≡ hunk_of i n j (suc m)
  unfolding add_op
  add_insert h i n j m x y e p =
      ap (λ (u : Hunk). record u { ins = u.ins ++ y ∷ [] }) e
      ∙ ap (λ l. record { a_pos = i; b_pos = j; dels = range_from i n; ins = l })
          (range_from-end j m y p)

  fresh_hunk :
      (k : OpKind) (i n j m x y : ℕ)
      → (n ≡ 0) × (m ≡ 0)
      → x ≡ i + n
      → y ≡ j + m
      → new_hunk (record { kind = k; ai = x; bi = y }) ≡ hunk_of i n j m
  unfolding new_hunk range_from
  fresh_hunk k i n j m x y none_yet p q =
      let at_i : x ≡ i = omega (arith, none_yet.0, p) in
      let at_j : y ≡ j = omega (arith, none_yet.1, q) in
      rw (none_yet.0, none_yet.1, at_i, at_j) refl

  write_hunks-classic :
      (eq : Bytes → Bytes → Bool) (ops : List Op) (cur : Option Hunk) (i n j m x y : ℕ)
      → IsCurrent cur i n j m
      → x ≡ i + n
      → y ≡ j + m
      → x ≤ length a
      → y ≤ length b
      → Script eq a b x y ops
      → write_hunks a b (collect_from cur ops) ≡ classic a b i n j m ops
  unfolding write_hunks collect_from is_equal classic change_text
  write_hunks-classic eq [] none i n j m x y c p q h k s = rw (c.0, c.1) refl
  write_hunks-classic eq [] (some u) i n j m x y c p q h k s =
      append-nil (write_hunk a b u)
      ∙ ap (write_hunk a b) c.0
      ∙ write_hunk-change_text i n j m (omega arith) (omega arith) c.1
  write_hunks-classic eq (o ∷ ops) none i n j m x y c p q h k (keep u v hx hy e s) =
      write_hunks-classic eq ops none (suc (i + n)) 0 (suc (j + m)) 0 (suc x) (suc y) (refl, refl)
        (omega arith) (omega arith) (get_elem?-bound x a u hx) (get_elem?-bound y b v hy) s
      ∙ ap (λ t. t ++ classic a b (suc (i + n)) 0 (suc (j + m)) 0 ops) (sym nothing)
    where
      nothing : change_text a b i n j m ≡ []
      nothing = rw (c.0, c.1) (unfold change_text in refl)
  write_hunks-classic eq (o ∷ ops) (some g) i n j m x y c p q h k (keep u v hx hy e s) =
      ap₂ (λ t r. t ++ r)
        (ap (write_hunk a b) c.0 ∙ write_hunk-change_text i n j m (omega arith) (omega arith) c.1)
        (write_hunks-classic eq ops none (suc (i + n)) 0 (suc (j + m)) 0 (suc x) (suc y)
          (refl, refl) (omega arith) (omega arith) (get_elem?-bound x a u hx)
          (get_elem?-bound y b v hy) s)
  write_hunks-classic eq (o ∷ ops) none i n j m x y c p q h k (remove u hx s) =
      write_hunks-classic eq ops (some (add_op (new_hunk o) o)) i (suc n) j m (suc x) y
        (
          add_delete (new_hunk o) i n j m x y (fresh_hunk op_delete i n j m x y c p q) p,
          omega arith,
        )
        (omega arith) q (get_elem?-bound x a u hx) k s
  write_hunks-classic eq (o ∷ ops) (some g) i n j m x y c p q h k (remove u hx s) =
      write_hunks-classic eq ops (some (add_op g o)) i (suc n) j m (suc x) y
        (add_delete g i n j m x y c.0 p, omega arith) (omega arith) q (get_elem?-bound x a u hx) k s
  write_hunks-classic eq (o ∷ ops) none i n j m x y c p q h k (add v hy s) =
      write_hunks-classic eq ops (some (add_op (new_hunk o) o)) i n j (suc m) x (suc y)
        (
          add_insert (new_hunk o) i n j m x y (fresh_hunk op_insert i n j m x y c p q) q,
          omega arith,
        )
        p (omega arith) h (get_elem?-bound y b v hy) s
  write_hunks-classic eq (o ∷ ops) (some g) i n j m x y c p q h k (add v hy s) =
      write_hunks-classic eq ops (some (add_op g o)) i n j (suc m) x (suc y)
        (add_insert g i n j m x y c.0 q, omega arith) p (omega arith) h (get_elem?-bound y b v hy) s

-- The classic output of diff, with its headers: for each run of changes between kept lines, the
-- numbers of the deleted and of the inserted lines, or of the line before where there are none, and
-- those lines themselves, as `classic` counts them off from the kinds of the operations alone.
pub write_normal-classic :
    (equal_fold : Bytes → Bytes → Bool) (a b : List Bytes) (ignore_case : Bool)
    → write_normal a b (diff_lines equal_fold a b ignore_case)
      ≡ classic a b 0 0 0 0 (diff_lines equal_fold a b ignore_case)
unfolding write_normal collect_hunks
write_normal-classic equal_fold a b ignore_case =
    write_hunks-classic a b (line_eq equal_fold ignore_case) (diff_lines equal_fold a b ignore_case)
      none 0 0 0 0 0 0 (refl, refl) (omega arith) (omega arith) (omega arith) (omega arith)
      (diff_lines-Script equal_fold a b ignore_case)
