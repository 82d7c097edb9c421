-- ===== src/Cut/Ranges/Parsed.antt =====
-- What the parser of LIST accepts.
use mimixbox.Prelude.{
  ℕ, ◌≤◌, ◌≡◌, refl, inl, inr, Bool-cases, ◌&&◌, List, [], ◌∷◌, Option, none, some, arith, All,
  Bytes, Result, ok, err, ◌>>=◌,
}
use mimixbox.Golang.Int.{ℤ, pos, negsuc}
use mimixbox.Golang.Strconv.{atoi}
use mimixbox.Golang.Strings.{cut_at, split, trim_space}
use mimixbox.Cut.Ranges.{
  Rng, ListError, all_digits, at_least_one, parse_pos, is_empty, endpoint, between, position,
  ranged, parse_range, parse_items, parse_ranges, merge_ranges, merged, selected,
}
use mimixbox.Cut.Ranges.Covered.{IsRange, covered}
use mimixbox.Cut.Ranges.Merge.{selected-merge_ranges}
use mimixbox.Cut.Ranges.Gaps.{Separate, merge_ranges-Separate}

-- A result of which `P` holds, or an error.
abbrev Ensures {ℓ} : {A : Type ℓ} → (A → Type 0) → Result ListError A → Type 0
Ensures P (ok a) = P a
Ensures P (err e) = Unit

Ensures-bind {ℓ κ} :
    {A : Type ℓ} {B : Type κ} (P : A → Type 0) (Q : B → Type 0) (m : Result ListError A)
    (f : A → Result ListError B)
    → Ensures P m
    → ((a : A) → P a → Ensures Q (f a))
    → Ensures Q (m >>= f)
Ensures-bind P Q (ok a) f h k = k a h
Ensures-bind P Q (err e) f h k = tt

Ensures-at_least_one : (o : Option ℤ) → Ensures (λ n. 1 ≤ n) (at_least_one o)
unfolding at_least_one
Ensures-at_least_one none = tt
Ensures-at_least_one (some (pos n)) = ground arith
Ensures-at_least_one (some (negsuc n)) = tt

Ensures-parse_pos : (s : Bytes) → Ensures (λ n. 1 ≤ n) (parse_pos s)
unfolding parse_pos
Ensures-parse_pos s = elim (Bool-cases (all_digits s)) [
  | inl d ↦ rw d (Ensures-at_least_one (atoi s))
  | inr d ↦ rw d tt
]

Ensures-endpoint :
    (P : ℕ → Type 0) (default : ℕ) (s : Bytes)
    → P default
    → ((n : ℕ) → 1 ≤ n → P n)
    → Ensures P (endpoint default s)
unfolding endpoint
Ensures-endpoint P default [] h k = h
Ensures-endpoint P default (c ∷ s) h k = weaken (parse_pos (c ∷ s)) (Ensures-parse_pos (c ∷ s))
  where
    weaken : (m : Result ListError ℕ) → Ensures (λ n. 1 ≤ n) m → Ensures P m
    weaken (ok n) e = k n e
    weaken (err e) _ = tt

Ensures-between : (a b : Bytes) → Ensures IsRange (between a b)
unfolding between
Ensures-between a b = elim (Bool-cases (is_empty a && is_empty b)) [
  | inl both ↦ rw both tt
  | inr one ↦ rw one (
      Ensures-bind (λ lo. 1 ≤ lo) IsRange (endpoint 1 a) _
        (Ensures-endpoint (λ lo. 1 ≤ lo) 1 a (omega arith) (λ n h. h))
        (λ lo low.
          Ensures-bind (λ hi. Unit {0}) IsRange (endpoint 0 b) _
            (Ensures-endpoint (λ hi. Unit {0}) 0 b tt (λ n h. tt)) (λ hi _. ground arith)))
]

Ensures-position : (m : Result ListError ℕ) → Ensures (λ n. 1 ≤ n) m → Ensures IsRange (position m)
unfolding position
Ensures-position (ok n) h = (h, inr (omega arith))
Ensures-position (err e) h = tt

Ensures-ranged : (item : Bytes) (o : Option (Bytes × Bytes)) → Ensures IsRange (ranged item o)
unfolding ranged
Ensures-ranged item none = Ensures-position (parse_pos item) (Ensures-parse_pos item)
Ensures-ranged item (some (a, b)) = Ensures-between a b

Ensures-parse_range : (item : Bytes) → Ensures IsRange (parse_range item)
unfolding parse_range
Ensures-parse_range item = Ensures-ranged item (cut_at b'-' item)

pub Ensures-parse_items : (items : List Bytes) → Ensures (All IsRange) (parse_items items)
unfolding parse_items
Ensures-parse_items [] = tt
Ensures-parse_items (item ∷ items) = elim (Bool-cases (is_empty (trim_space item))) [
  | inl e ↦ rw e tt
  | inr e ↦ rw e (
      Ensures-bind IsRange (All IsRange) (parse_range (trim_space item)) _
        (Ensures-parse_range (trim_space item))
        (λ r v.
          Ensures-bind (All IsRange) (All IsRange) (parse_items items) _ (Ensures-parse_items items)
            (λ rs vs. (v, vs))))
]

-- The items of an accepted LIST start at 1 or later and do not decrease. The ranges made of them
-- select exactly the positions that the items cover, are in order, only the last is open, and between
-- neighbours lies a gap, unless the first of the two ends at the largest `int`.
pub parse_ranges-selected :
    (list : Bytes) {ranges : List Rng}
    → parse_ranges list ≡ ok ranges
    → (items : List Rng) × (parse_items (split list (b',' ∷ [])) ≡ ok items)
      × All IsRange items
      × Separate ranges
      × ((p : ℕ) → selected ranges p ≡ covered items p)
parse_ranges-selected list {ranges} h =
    go (parse_items (split list (b',' ∷ []))) refl (Ensures-parse_items _)
      (unfold parse_ranges in h)
  where
    go :
        (m : Result ListError (List Rng))
        → parse_items (split list (b',' ∷ [])) ≡ m
        → Ensures (All IsRange) m
        → merged m ≡ ok ranges
        → (items : List Rng) × (parse_items (split list (b',' ∷ [])) ≡ ok items)
          × All IsRange items
          × Separate ranges
          × ((p : ℕ) → selected ranges p ≡ covered items p)
    go (ok items) e v same =
        let eq : merge_ranges items ≡ ranges = unfold merged in cc same in
        (
          items,
          e,
          v,
          rw eq at (merge_ranges-Separate items),
          λ p. rw eq at (selected-merge_ranges items p v),
        )
    go (err x) e v same = absurd (unfold merged in cc same)
