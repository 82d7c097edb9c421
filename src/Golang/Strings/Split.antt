-- ===== src/Golang/Strings/Split.antt =====
-- `Split` and `Join` of Go's `strings` one after the other.
use mimixbox.Prelude.{
  ℕ, zero, suc, ◌-◌, ◌≡◌, ◌≢◌, refl, ◌∙◌, sym, ap, true, false, List, [], ◌∷◌, ◌++◌, arith, Bytes,
  length, drop, append_assoc, append-nil, All, Bool-cases, inl, inr,
}
use mimixbox.Golang.Strings.{has_prefix, split_from, split, join}

has_prefix-drop : (s p : Bytes) → has_prefix s p ≡ true → s ≡ p ++ drop (length p) s
unfolding has_prefix
has_prefix-drop s [] h = refl
has_prefix-drop [] (_ ∷ _) h = ground arith
has_prefix-drop (a ∷ s) (b ∷ p) h = ground (arith, has_prefix-drop s p)

module _ (sep cur : Bytes) (a : ℕ) (s : Bytes) where
  split_from_skip : (skip : ℕ) → split_from sep (suc skip) cur (a ∷ s) ≡ split_from sep skip cur s
  unfolding split_from
  split_from_skip skip = refl

  pub split_from_hit :
      has_prefix (a ∷ s) sep ≡ true
      → split_from sep 0 cur (a ∷ s) ≡ cur ∷ split_from sep (length sep - 1) [] s
  unfolding split_from
  split_from_hit h = rw (h, split_from)

  pub split_from_miss :
      has_prefix (a ∷ s) sep ≡ false
      → split_from sep 0 cur (a ∷ s) ≡ split_from sep 0 (cur ++ a ∷ []) s
  unfolding split_from
  split_from_miss h = rw (h, split_from)

split_from-ne-nil : (sep : Bytes) (skip : ℕ) (cur s : Bytes) → split_from sep skip cur s ≢ []
split_from-ne-nil sep zero cur [] = unfold split_from in cc
split_from-ne-nil sep (suc skip) cur [] = unfold split_from in cc
split_from-ne-nil sep (suc skip) cur (a ∷ s) =
    rw (split_from_skip sep cur a s skip) (split_from-ne-nil sep skip cur s)
split_from-ne-nil sep zero cur (a ∷ s) = elim (Bool-cases (has_prefix (a ∷ s) sep)) [
  | inl hit ↦ rw (split_from_hit sep cur a s hit) (cc)
  | inr miss ↦ rw (split_from_miss sep cur a s miss) (split_from-ne-nil sep zero (cur ++ a ∷ []) s)
]

join-cons :
    (p : Bytes) (ps : List Bytes) (sep : Bytes)
    → ps ≢ []
    → join (p ∷ ps) sep ≡ p ++ (sep ++ join ps sep)
unfolding join
join-cons p [] sep h = absurd (h refl)
join-cons p (q ∷ ps) sep h = refl

module _ (b : ℕ) (sep : Bytes) where
  join-split_from :
      (skip : ℕ) (cur s : Bytes)
      → join (split_from (b ∷ sep) skip cur s) (b ∷ sep) ≡ cur ++ drop skip s
  join-split_from zero cur [] = unfold split_from join in sym (append-nil cur)
  join-split_from (suc skip) cur [] = unfold split_from join in sym (append-nil cur)
  join-split_from (suc skip) cur (a ∷ s) =
      rw (split_from_skip (b ∷ sep) cur a s skip) (join-split_from skip cur s)
  join-split_from zero cur (a ∷ s) = elim (Bool-cases (has_prefix (a ∷ s) (b ∷ sep))) [
    | inl hit ↦
        let ps : List Bytes = split_from (b ∷ sep) (length (b ∷ sep) - 1) [] s in
        ap (λ r. join r (b ∷ sep)) (split_from_hit (b ∷ sep) cur a s hit)
        ∙ (join-cons cur ps (b ∷ sep) (split_from-ne-nil (b ∷ sep) (length (b ∷ sep) - 1) [] s)
            ∙ ap (λ r. cur ++ r)
                (ap (λ r. (b ∷ sep) ++ r) (join-split_from (length (b ∷ sep) - 1) [] s ∙ skipped s)
                  ∙ sym (has_prefix-drop (a ∷ s) (b ∷ sep) hit)))
    | inr miss ↦
        rw (split_from_miss (b ∷ sep) cur a s miss)
          (join-split_from zero (cur ++ a ∷ []) s ∙ append_assoc cur (a ∷ []) s)
  ]
    where
      skipped : (t : Bytes) → drop (suc (length sep) - 1) t ≡ drop (length sep) t
      skipped t = let e : suc (length sep) - 1 ≡ length sep = omega arith in rw e

  -- Joining the parts of a text with the separator that cut it gives the text back.
  pub join-split : (s : Bytes) → join (split s (b ∷ sep)) (b ∷ sep) ≡ s
  unfolding split
  join-split s = join-split_from 0 [] s

-- A text that lacks the byte `b`.
abbrev pub Lacks : ℕ → Bytes → Type 0
Lacks b = All (λ c. c ≢ b)

module _ (b : ℕ) where
  split_from-append :
      (p s cur : Bytes)
      → Lacks b p
      → split_from (b ∷ []) 0 cur (p ++ s) ≡ split_from (b ∷ []) 0 (cur ++ p) s
  split_from-append [] s cur h = rw append-nil
  split_from-append (a ∷ p) s cur h =
      split_from_miss (b ∷ []) cur a (p ++ s) (differs (p ++ s))
      ∙ split_from-append p s (cur ++ a ∷ []) h.1
      ∙ ap (λ c. split_from (b ∷ []) 0 c s) (append_assoc cur (a ∷ []) p)
    where
      differs : (t : Bytes) → has_prefix (a ∷ t) (b ∷ []) ≡ false
      differs t = unfold has_prefix in ground (arith, h.0)

  split_from_end : (p cur : Bytes) → Lacks b p → split_from (b ∷ []) 0 cur p ≡ (cur ++ p) ∷ []
  split_from_end p cur h =
      ap (split_from (b ∷ []) 0 cur) (sym (append-nil p))
      ∙ split_from-append p [] cur h
      ∙ unfold split_from in refl

  split_from_sep :
      (s cur : Bytes) → split_from (b ∷ []) 0 cur (b ∷ s) ≡ cur ∷ split_from (b ∷ []) 0 [] s
  split_from_sep s cur = split_from_hit (b ∷ []) cur b s (unfold has_prefix in ground arith)

  -- Parts that lack the separator are found again in their join.
  pub split-join :
      (p : Bytes) (ps : List Bytes)
      → All (Lacks b) (p ∷ ps)
      → split (join (p ∷ ps) (b ∷ [])) (b ∷ []) ≡ p ∷ ps
  unfolding split
  split-join p [] h = unfold join in split_from_end p [] h.0
  split-join p (q ∷ ps) h =
      ap (split_from (b ∷ []) 0 []) (join-cons p (q ∷ ps) (b ∷ []) (cc))
      ∙ split_from-append p ((b ∷ []) ++ join (q ∷ ps) (b ∷ [])) [] h.0
      ∙ split_from_sep (join (q ∷ ps) (b ∷ [])) p
      ∙ ap (λ r. p ∷ r) (split-join q ps h.1)
