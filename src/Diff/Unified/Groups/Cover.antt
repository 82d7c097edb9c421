-- ===== src/Diff/Unified/Groups/Cover.antt =====
-- The loop of `groupUnified` of internal/applets/editors/diff/format.go.
use mimixbox.Prelude.{
  ℕ, zero, suc, ◌+◌, ◌-◌, ◌≤◌, ◌<◌, ◌≡◌, refl, ◌∙◌, sym, ap, subst, Bool, Bool-cases, inl, inr, ◌⊎◌,
  true, false, List, [], ◌∷◌, ◌++◌, min, arith, leb, some, length, length-drop, get_elem?, take,
  drop, All,
}
use mimixbox.Prelude.Indices.{
  slice, drop-slice, get_elem?-some, get_elem?-drop_add, All-slice, take-length,
}
use mimixbox.Diff.Lines.{Op}
use mimixbox.Diff.Unified.{changed_from, group_loop, group_unified, context_lines}
use mimixbox.Diff.Unified.Changes.{Unchanged, Next, changed_from-Next, changed_from-end}
use mimixbox.Diff.Unified.Groups.{IsKept, has_kept, Grouped, last, group}

has_kept-take :
    (c n : ℕ) (ops : List Op) (o : Op)
    → n < c
    → get_elem? ops n ≡ some o
    → IsKept o
    → has_kept (take c ops) ≡ true
unfolding has_kept
has_kept-take c n [] o h g i = cc
has_kept-take zero n (p ∷ ops) o h g i = absurd (omega arith)
has_kept-take (suc c) zero (p ∷ ops) o h g i = let e : p ≡ o = cc in rw (e, i) refl
has_kept-take (suc c) (suc n) (p ∷ ops) o h g i =
    let e = has_kept-take c n ops o (omega arith) g i in ground arith

module _ (ops : List Op) where
  -- A kept line from index `i` to before `j`.
  pub record KeptIn (i j : ℕ) : Type 0 where
    pub index : ℕ
    pub op : Op
    pub low : i ≤ index
    pub high : index < j
    pub found : get_elem? ops index ≡ some op
    pub is_kept : IsKept op

  KeptIn-wider : {i j k : ℕ} → KeptIn i j → j ≤ k → KeptIn i k
  KeptIn-wider h l = record {
    index = h.index;
    op = h.op;
    low = h.low;
    high = omega (arith, h.high, l);
    found = h.found;
    is_kept = h.is_kept;
  }

  has_kept-slice : (i j k : ℕ) → KeptIn i k → k ≤ j → has_kept (slice i j ops) ≡ true
  has_kept-slice i j k h l =
      has_kept-take (j - i) (h.index - i) (drop i ops) h.op (omega (arith, h.low, h.high))
        (get_elem?-drop_add (h.index - i) i h.index ops (omega (arith, h.low)) ∙ h.found) h.is_kept

  -- The line before a change is one, where no change is near.
  context-KeptIn :
      (k c : ℕ) → k < c → c ≤ length ops → Unchanged ops k c → KeptIn (c - context_lines) c
  context-KeptIn k c h l u =
      let op_at = get_elem?-some (c - 1) ops (omega arith) in
      record {
        index = c - 1;
        op = op_at.0;
        low = omega arith;
        high = omega arith;
        found = op_at.1;
        is_kept = u (c - 1) op_at.0 (omega arith) (omega arith) op_at.1;
      }

module _ (ops : List Op) where
  -- The operations from `p` on: up to `start` they are kept, the group so far ends at `stop`, and
  -- `changed` are the changes from `k` on.
  pub record State (first : Bool) (p start stop k : ℕ) (changed : List ℕ) : Type 0 where
    pub ordered : p ≤ start
    pub kept : Unchanged ops p start
    pub started : start < k
    pub covered : k ≤ stop
    pub bound : stop ≤ length ops
    pub others : changed ≡ changed_from k (drop k ops)
    pub old : KeptIn ops start k ⊎ ((first ≡ true) × (start ≡ 0))

  -- The state behind a change that joins the group.
  State-join :
      {first : Bool} {p start stop k c : ℕ} {changed : List ℕ}
      → State first p start stop k (c ∷ changed)
      → State first p start (min (length ops) (c + 1 + context_lines)) (suc c) changed
  State-join {first} {p} {start} {stop} {k} {c} {changed} s =
      let next = changed_from-Next ops k (drop k ops) c changed refl (sym s.others) in
      record {
        ordered = s.ordered;
        kept = s.kept;
        started = omega (arith, s.started, next.from);
        covered = omega (arith, next.inside);
        bound = omega arith;
        others = next.others;
        old = old_wider s.old (omega (arith, next.from));
      }
    where
      old_wider :
          KeptIn ops start k ⊎ ((first ≡ true) × (start ≡ 0))
          → k ≤ suc c
          → KeptIn ops start (suc c) ⊎ ((first ≡ true) × (start ≡ 0))
      old_wider (inl h) l = inl (KeptIn-wider ops h l)
      old_wider (inr h) l = inr h

  -- The state behind a change that begins a group.
  State-begin :
      {first : Bool} {k p c : ℕ} {changed : List ℕ}
      → Next ops k c changed
      → p ≤ c - context_lines
      → Unchanged ops p c
      → KeptIn ops (c - context_lines) c ⊎ ((first ≡ true) × (c ≡ 0))
      → State first p (c - context_lines) (min (length ops) (c + 1 + context_lines)) (suc c) changed
  State-begin {first} {k} {p} {c} next l u (inl h) = record {
    ordered = l;
    kept = λ n o a b. u n o a (omega arith);
    started = omega arith;
    covered = omega (arith, next.inside);
    bound = omega arith;
    others = next.others;
    old = inl (KeptIn-wider ops h (omega arith));
  }
  State-begin {first} {k} {p} {c} next l u (inr h) = record {
    ordered = l;
    kept = λ n o a b. u n o a (omega arith);
    started = omega arith;
    covered = omega (arith, next.inside);
    bound = omega arith;
    others = next.others;
    old = inr (h.0, omega (arith, h.1));
  }

  -- The group that ends at `stop`, before groups that cover the rest.
  group_at :
      {first : Bool} {p start stop k : ℕ} {changed : List ℕ} {groups : List (List Op)}
      → State first p start stop k changed
      → Grouped false (drop stop ops) groups
      → Grouped first (drop p ops) (slice start stop ops ∷ groups)
  group_at {first} {p} {start} {stop} {k} s g =
      group (slice p start ops) (slice start stop ops) (drop stop ops)
        (drop-slice p start ops s.ordered
          ∙ ap (λ r. slice p start ops ++ r)
              (drop-slice start stop ops (omega (arith, s.started, s.covered))))
        (All-slice IsKept p start ops s.kept) (has_first s.old) g
    where
      has_first :
          KeptIn ops start k ⊎ ((first ≡ true) × (start ≡ 0))
          → (has_kept (slice start stop ops) ≡ true) ⊎ ((first ≡ true) × (slice p start ops ≡ []))
      has_first (inl h) = inl (has_kept-slice ops start stop k h s.covered)
      has_first (inr h) = let e : start - p ≡ 0 = omega arith in inr (h.0, rw e refl)

  Unchanged-later : {k m j : ℕ} → Unchanged ops k j → k ≤ m → Unchanged ops m j
  Unchanged-later u l n o a b = u n o (omega (arith, l, a)) b

  group_loop_join :
      (start stop c : ℕ) (changed : List ℕ)
      → leb c (stop + context_lines) ≡ true
      → group_loop ops start stop (c ∷ changed)
        ≡ group_loop ops start (min (length ops) (c + 1 + context_lines)) changed
  unfolding group_loop
  group_loop_join start stop c changed h = rw (h, group_loop)

  group_loop_begin :
      (start stop c : ℕ) (changed : List ℕ)
      → leb c (stop + context_lines) ≡ false
      → group_loop ops start stop (c ∷ changed)
        ≡ slice start stop ops
          ∷ group_loop ops (c - context_lines) (min (length ops) (c + 1 + context_lines)) changed
  unfolding group_loop
  group_loop_begin start stop c changed h = rw (h, group_loop)

  group_loop_nil : (start stop : ℕ) → group_loop ops start stop [] ≡ slice start stop ops ∷ []
  unfolding group_loop
  group_loop_nil start stop = refl

  group_loop-Grouped :
      (changed : List ℕ) (first : Bool) (p start stop k : ℕ)
      → State first p start stop k changed
      → Grouped first (drop p ops) (group_loop ops start stop changed)
  group_loop-Grouped [] first p start stop k s =
      let u = changed_from-end ops k (drop k ops) refl (sym s.others) in
      let rest_kept = All-slice IsKept stop (length ops) ops (Unchanged-later u s.covered) in
      let whole =
        take-length (length ops - stop) (drop stop ops) (omega (arith, length-drop stop ops)) in
      rw (group_loop_nil start stop) (group_at s (last (subst (All IsKept) whole rest_kept)))
  group_loop-Grouped (c ∷ changed) first p start stop k s =
      elim (Bool-cases (leb c (stop + context_lines))) [
        | inl near ↦ rw (group_loop_join start stop c changed near) (
            group_loop-Grouped changed first p start (min (length ops) (c + 1 + context_lines))
              (suc c) (State-join s))
        | inr far ↦
            let next = changed_from-Next ops k (drop k ops) c changed refl (sym s.others) in
            let gap : stop + context_lines < c = ground arith in
            let near =
              context-KeptIn ops k c (omega (arith, s.covered)) (omega (arith, next.inside))
                next.before in
            let begun =
              State-begin next (omega arith) (Unchanged-later next.before s.covered) (inl near) in
            rw (group_loop_begin start stop c changed far) (
              group_at s (
                group_loop-Grouped changed false stop (c - context_lines)
                  (min (length ops) (c + 1 + context_lines)) (suc c) begun))
      ]

group_unified_none : (ops : List Op) → changed_from 0 ops ≡ [] → group_unified ops ≡ []
unfolding group_unified
group_unified_none ops h = rw (h, group_unified)

group_unified_some :
    (ops : List Op) (c : ℕ) (changed : List ℕ)
    → changed_from 0 ops ≡ c ∷ changed
    → group_unified ops
      ≡ group_loop ops (c - context_lines) (min (length ops) (c + 1 + context_lines)) changed
unfolding group_unified
group_unified_some ops c changed h = rw (h, group_unified)

first_context :
    (ops : List Op) (c : ℕ)
    → c ≤ length ops
    → Unchanged ops 0 c
    → KeptIn ops (c - context_lines) c ⊎ ((true ≡ true) × (c ≡ 0))
first_context ops zero h u = inr (refl, refl)
first_context ops (suc c) h u = inl (context-KeptIn ops 0 (suc c) (omega arith) h u)

changed_from-Grouped :
    (ops : List Op) (changed : List ℕ)
    → changed_from 0 ops ≡ changed
    → Grouped true ops (group_unified ops)
changed_from-Grouped ops [] h = rw (group_unified_none ops h) (
    last (
      subst (All IsKept) (take-length (length ops - 0) ops (omega arith))
        (All-slice IsKept 0 (length ops) ops (changed_from-end ops 0 ops refl h))))
changed_from-Grouped ops (c ∷ changed) h =
    let next = changed_from-Next ops 0 ops c changed refl h in
    let begun =
      State-begin ops next (omega arith) next.before
        (first_context ops c (omega (arith, next.inside)) next.before) in
    rw (group_unified_some ops c changed h) (
      group_loop-Grouped ops changed true 0 (c - context_lines)
        (min (length ops) (c + 1 + context_lines)) (suc c) begun)

-- The groups cover the edit script: every operation that is in none of them keeps a line, and each of
-- them keeps a line or begins the script.
pub group_unified-Grouped : (ops : List Op) → Grouped true ops (group_unified ops)
group_unified-Grouped ops = changed_from-Grouped ops (changed_from 0 ops) refl
