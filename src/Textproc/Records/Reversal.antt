-- ===== src/Textproc/Records/Reversal.antt =====
-- tac on lines that all end in the separator.
use mathlib.Core.List.{reverse, reverse-cons}
use mimixbox.Prelude.{
  ℕ, ◌≡◌, ◌≢◌, refl, ◌∙◌, sym, ap, List, [], ◌∷◌, ◌++◌, arith, Bytes, map, append_assoc, append-nil,
  All,
}
use mimixbox.Golang.Strings.{has_prefix}
use mimixbox.Golang.Strings.Split.{Lacks}
use mimixbox.Textproc.Records.{records_from, backwards, reverse_records}

-- The lines, each with the separator behind it.
unfoldable pub unlines : ℕ → List Bytes → Bytes
unlines b [] = []
unlines b (l ∷ ls) = l ++ b ∷ unlines b ls

module _ (b : ℕ) where
  records_from-hit :
      (cur s : Bytes)
      → records_from (b ∷ []) 0 cur (b ∷ s) ≡ (cur ++ b ∷ []) ∷ records_from (b ∷ []) 0 [] s
  unfolding records_from has_prefix
  records_from-hit [] s = ground arith
  records_from-hit (c ∷ cur) s = ground arith

  records_from-miss :
      (cur : Bytes) (a : ℕ) (s : Bytes)
      → a ≢ b
      → records_from (b ∷ []) 0 cur (a ∷ s) ≡ records_from (b ∷ []) 0 (cur ++ a ∷ []) s
  unfolding records_from has_prefix
  records_from-miss [] a s h = ground arith
  records_from-miss (c ∷ cur) a s h = ground arith

  records_from-line :
      (l cur s : Bytes)
      → Lacks b l
      → records_from (b ∷ []) 0 cur (l ++ b ∷ s)
        ≡ ((cur ++ l) ++ b ∷ []) ∷ records_from (b ∷ []) 0 [] s
  records_from-line [] cur s h =
      records_from-hit cur s
      ∙ ap (λ c. (c ++ b ∷ []) ∷ records_from (b ∷ []) 0 [] s) (sym (append-nil cur))
  records_from-line (a ∷ l) cur s h =
      records_from-miss cur a (l ++ b ∷ s) h.0
      ∙ records_from-line l (cur ++ a ∷ []) s h.1
      ∙ ap (λ c. (c ++ b ∷ []) ∷ records_from (b ∷ []) 0 [] s) (append_assoc cur (a ∷ []) l)

  abbrev ended : Bytes → Bytes
  ended l = l ++ b ∷ []

  records_from-nil : records_from (b ∷ []) 0 [] [] ≡ []
  unfolding records_from
  records_from-nil = refl

  records_from-unlines :
      (ls : List Bytes)
      → All (Lacks b) ls
      → records_from (b ∷ []) 0 [] (unlines b ls) ≡ map ended ls
  unfolding unlines
  records_from-unlines [] h = records_from-nil
  records_from-unlines (l ∷ ls) h =
      records_from-line l [] (unlines b ls) h.0
      ∙ ap (λ r. ended l ∷ r) (records_from-unlines ls h.1)

  unlines-append : (ls ms : List Bytes) → unlines b (ls ++ ms) ≡ unlines b ls ++ unlines b ms
  unfolding unlines
  unlines-append [] ms = refl
  unlines-append (l ∷ ls) ms =
      ap (λ r. l ++ (b ∷ r)) (unlines-append ls ms)
      ∙ sym (append_assoc l (b ∷ unlines b ls) (unlines b ms))

  backwards-unlines : (ls : List Bytes) → backwards (map ended ls) ≡ unlines b (reverse ls)
  unfolding backwards
  backwards-unlines [] = unfold unlines in refl
  backwards-unlines (l ∷ ls) =
      ap (λ r. r ++ ended l) (backwards-unlines ls)
      ∙ unfold unlines in
        sym (unlines-append (reverse ls) (l ∷ [])) ∙ ap (unlines b) (sym (reverse-cons l ls))

  -- Lines that lack the separator, a single byte, and have it behind them are written from the
  -- last to the first.
  pub reverse_records-unlines :
      (ls : List Bytes)
      → All (Lacks b) ls
      → reverse_records (unlines b ls) (b ∷ []) ≡ unlines b (reverse ls)
  unfolding reverse_records
  reverse_records-unlines ls h = ap backwards (records_from-unlines ls h) ∙ backwards-unlines ls
