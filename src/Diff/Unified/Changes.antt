-- ===== src/Diff/Unified/Changes.antt =====
-- The changes of an edit script, for `groupUnified` of internal/applets/editors/diff/format.go.
use mimixbox.Prelude.{
  ℕ, suc, ◌≤◌, ◌<◌, ◌≡◌, ◌∙◌, sym, subst, ap, Bool-cases, inl, inr, true, false, List, [], ◌∷◌,
  arith, some, ◌≢◌, length, length-drop, get_elem?, drop, ◌==◌, ==_iff,
}
use mimixbox.Prelude.Indices.{get_elem?-drop, drop-next, length-drop_cons}
use mimixbox.Diff.Lines.{Op, is_equal}
use mimixbox.Diff.Unified.{changed_from}

changed_from_equal :
    (i : ℕ) (o : Op) (ops : List Op)
    → is_equal o.kind ≡ true
    → changed_from i (o ∷ ops) ≡ changed_from (suc i) ops
unfolding changed_from
changed_from_equal i o ops h = rw (h, changed_from)

changed_from_change :
    (i : ℕ) (o : Op) (ops : List Op)
    → is_equal o.kind ≡ false
    → changed_from i (o ∷ ops) ≡ i ∷ changed_from (suc i) ops
unfolding changed_from
changed_from_change i o ops h = rw (h, changed_from)

module _ (ops : List Op) where
  -- The operations from index `i` to before `j` are no changes.
  abbrev pub Unchanged : ℕ → ℕ → Type 0
  Unchanged i j =
      (n : ℕ) (o : Op) → i ≤ n → n < j → get_elem? ops n ≡ some o → is_equal o.kind ≡ true

  Unchanged_head :
      (k c : ℕ) (o : Op)
      → get_elem? ops k ≡ some o
      → is_equal o.kind ≡ true
      → Unchanged (suc k) c
      → Unchanged k c
  Unchanged_head k c o h e u n p l r g = elim (Bool-cases (n == k)) [
    | inl same ↦
        let at_k : n ≡ k = (==_iff n k).0 same in
        let here : get_elem? ops n ≡ some o = rw at_k h in let is_o : p ≡ o = cc in rw is_o e
    | inr other ↦
        let apart : n ≢ k = λ i. ground (arith, (==_iff n k).1 i) in u n p (omega arith) r g
  ]

  -- `c` is the first change from `k` on and `changed` are those behind it.
  pub record Next (k c : ℕ) (changed : List ℕ) : Type 0 where
    pub from : k ≤ c
    pub inside : c < length ops
    pub before : Unchanged k c
    pub others : changed ≡ changed_from (suc c) (drop (suc c) ops)

  pub changed_from-Next :
      (k : ℕ) (rest : List Op) (c : ℕ) (changed : List ℕ)
      → drop k ops ≡ rest
      → changed_from k rest ≡ c ∷ changed
      → Next k c changed
  changed_from-Next k [] c changed d h = absurd (nothing h)
    where
      nothing : changed_from k [] ≢ c ∷ changed
      nothing = unfold changed_from in cc
  changed_from-Next k (o ∷ rest) c changed d h = elim (Bool-cases (is_equal o.kind)) [
    | inl same ↦
        let later =
          changed_from-Next (suc k) rest c changed (drop-next k ops o rest d)
            (sym (changed_from_equal k o rest same) ∙ h) in
        record {
          from = omega (arith, later.from);
          inside = later.inside;
          before = Unchanged_head k c o (get_elem?-drop k ops o rest d) same later.before;
          others = later.others;
        }
    | inr change ↦
        let e : k ∷ changed_from (suc k) rest ≡ c ∷ changed =
          sym (changed_from_change k o rest change) ∙ h in
        let first : k ≡ c = cc in
        let others : changed ≡ changed_from (suc k) rest = cc in
        let bound : suc k ≤ length ops = length-drop_cons k ops o rest d in
        let behind : changed ≡ changed_from (suc k) (drop (suc k) ops) =
          others ∙ ap (changed_from (suc k)) (sym (drop-next k ops o rest d)) in
        subst (λ n. Next k n changed) first
          record {
            from = omega arith;
            inside = omega arith;
            before = λ n p l r g. absurd (omega arith);
            others = behind;
          }
  ]

  pub changed_from-end :
      (k : ℕ) (rest : List Op)
      → drop k ops ≡ rest
      → changed_from k rest ≡ []
      → Unchanged k (length ops)
  changed_from-end k [] d h = λ n p l r g. absurd (omega (arith, length-drop k ops, ap length d))
  changed_from-end k (o ∷ rest) d h = elim (Bool-cases (is_equal o.kind)) [
    | inl same ↦ Unchanged_head k (length ops) o (get_elem?-drop k ops o rest d) same (
        changed_from-end (suc k) rest (drop-next k ops o rest d)
          (sym (changed_from_equal k o rest same) ∙ h))
    | inr change ↦
        let e : k ∷ changed_from (suc k) rest ≡ [] =
          sym (changed_from_change k o rest change) ∙ h in
        cc
  ]
