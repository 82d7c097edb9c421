-- ===== src/Diff/Unified/Groups.antt =====
-- What the groups of `groupUnified` of internal/applets/editors/diff/format.go are to the edit script.
pub mod Cover
use mimixbox.Prelude.{
  ℕ, zero, suc, ◌+◌, ◌-◌, ◌≤◌, ◌<◌, ◌≡◌, refl, ◌∙◌, sym, ap, subst, Bool, Bool-cases, inl, inr, ◌⊎◌,
  true, false, ◌||◌, List, [], ◌∷◌, ◌++◌, min, arith, leb, some, length, length-drop, get_elem?,
  take, drop, All,
}
use mimixbox.Prelude.Indices.{
  slice, drop-slice, get_elem?-some, get_elem?-drop_add, All-slice, take-length,
}
use mimixbox.Diff.Lines.{Op, is_equal}
use mimixbox.Diff.Unified.{changed_from, group_loop, group_unified, context_lines}
use mimixbox.Diff.Unified.Changes.{Unchanged, Next, changed_from-Next, changed_from-end}

abbrev pub IsKept : Op → Type 0
IsKept o = is_equal o.kind ≡ true

unfoldable pub has_kept : List Op → Bool
unfolding is_equal
has_kept [] = false
has_kept (o ∷ g) = is_equal o.kind || has_kept g

-- The operations are the groups with kept lines before, between and behind them. A group keeps
-- a line, unless it stands at the beginning, where `first` is true.
pub data Grouped : Bool → List Op → List (List Op) → Type 0 where
  last : {first : Bool} {ops : List Op} → All IsKept ops → Grouped first ops []
  group :
      {first : Bool} {ops : List Op} {groups : List (List Op)} (before g behind : List Op)
      → ops ≡ before ++ (g ++ behind)
      → All IsKept before
      → (has_kept g ≡ true) ⊎ ((first ≡ true) × (before ≡ []))
      → Grouped false behind groups
      → Grouped first ops (g ∷ groups)
