-- ===== src/Tr/Processor/Reference.antt =====
-- What tr does to the symbols of its input, without a state: deleting is a filter, translating is
-- a map, and squeezing keeps the first cell of each run.
use mimixbox.Prelude.{
  ℕ, ◌≡◌, refl, sym, ap, ◌∙◌, Bool, true, false, not, ◌&&◌, List, [], ◌∷◌, Option, none, some,
  arith, ◌==◌, if◌then◌else◌, Bytes, Runes, Bool-cases, inl, inr, map,
}
use mimixbox.Tr.Processor.{
  Cell, append_cell, Processor, State, process, process_cell, squeeze_emit, repeats, is_empty,
  translate_cell, lookup, fill_trans_map, contains,
}

-- The bytes of cells.
unfoldable pub write_cells : Bytes → List Cell → Bytes
write_cells out [] = out
write_cells out (c ∷ cells) = write_cells (append_cell out c) cells

pub kept : (ℕ → Bool) → List Cell → List Cell
kept gone [] = []
kept gone (c ∷ cells) = let rest = kept gone cells in if gone c.r then rest else c ∷ rest

-- Each run of equal selected runes as its first cell; `prev` is the rune before.
unfoldable pub squeezed : (ℕ → Bool) → Option ℕ → List Cell → List Cell
squeezed selected prev [] = []
squeezed selected prev (c ∷ cells) =
    let skip = squeezed selected prev cells in
    let keep = c ∷ squeezed selected (some c.r) cells in
    if repeats prev c.r && selected c.r then skip else keep

-- The operation that the options ask for.
unfoldable pub transformed : Processor → List Cell → List Cell
unfolding is_empty
transformed p cells =
    if p.opts.delete
    then (if p.opts.squeeze && not (is_empty p.set2)
        then squeezed p.in_set2 none (kept p.in_set1 cells)
        else kept p.in_set1 cells)
    else if p.opts.squeeze && is_empty p.set2
    then squeezed p.in_set1 none cells
    else if p.opts.squeeze
    then squeezed p.in_set2 none (map (translate_cell p) cells)
    else map (translate_cell p) cells

-- One cell through `squeezeEmit`.
squeezed_step :
    (selected : ℕ → Bool) (out : Bytes) (prev : Option ℕ) (c : Cell) (cells : List Cell)
    → write_cells out (squeezed selected prev (c ∷ cells))
      ≡ write_cells
          (squeeze_emit (out, prev) c selected).0
          (squeezed selected (squeeze_emit (out, prev) c selected).1 cells)
unfolding write_cells squeezed squeeze_emit
squeezed_step selected out prev c cells = elim (Bool-cases (repeats prev c.r && selected c.r)) [
  | inl again ↦ rw again
  | inr fresh ↦ rw fresh
]

module _ (p : Processor) (s : State) (c : Cell) where
  cell_gone : p.opts.delete ≡ true → p.in_set1 c.r ≡ true → process_cell p s c ≡ s
  unfolding process_cell
  cell_gone d gone = ground arith

  cell_stays :
      p.opts.delete ≡ true
      → p.in_set1 c.r ≡ false
      → (p.opts.squeeze && not (is_empty p.set2)) ≡ false
      → process_cell p s c ≡ (append_cell s.0 c, s.1)
  unfolding process_cell
  cell_stays d stays e = ground arith

  cell_stays_squeezed :
      p.opts.delete ≡ true
      → p.in_set1 c.r ≡ false
      → (p.opts.squeeze && not (is_empty p.set2)) ≡ true
      → process_cell p s c ≡ squeeze_emit s c p.in_set2
  unfolding process_cell
  cell_stays_squeezed d stays e = ground arith

  cell_squeezed :
      p.opts.delete ≡ false
      → (p.opts.squeeze && is_empty p.set2) ≡ true
      → process_cell p s c ≡ squeeze_emit s c p.in_set1
  unfolding process_cell
  cell_squeezed d e = ground arith

  cell_translated_squeezed :
      p.opts.delete ≡ false
      → (p.opts.squeeze && is_empty p.set2) ≡ false
      → p.opts.squeeze ≡ true
      → process_cell p s c ≡ squeeze_emit s (translate_cell p c) p.in_set2
  unfolding process_cell
  cell_translated_squeezed d e q = ground arith

  cell_translated :
      p.opts.delete ≡ false
      → (p.opts.squeeze && is_empty p.set2) ≡ false
      → p.opts.squeeze ≡ false
      → process_cell p s c ≡ (append_cell s.0 (translate_cell p c), s.1)
  unfolding process_cell
  cell_translated d e q = ground arith

module _ (p : Processor) where
  onward :
      (s : State) (c : Cell) (cells : List Cell) {t : State}
      → process_cell p s c ≡ t
      → (process p s (c ∷ cells)).0 ≡ (process p t cells).0
  unfolding process
  onward s c cells e = ap (λ t. (process p t cells).0) e

  process-delete :
      (s : State) (cells : List Cell)
      → p.opts.delete ≡ true
      → (p.opts.squeeze && not (is_empty p.set2)) ≡ false
      → (process p s cells).0 ≡ write_cells s.0 (kept p.in_set1 cells)
  unfolding process kept write_cells
  process-delete s [] d e = refl
  process-delete s (c ∷ cells) d e = elim (Bool-cases (p.in_set1 c.r)) [
    | inl gone ↦ rw gone (onward s c cells (cell_gone p s c d gone) ∙ process-delete s cells d e)
    | inr stays ↦ rw stays (
        onward s c cells (cell_stays p s c d stays e)
        ∙ process-delete (append_cell s.0 c, s.1) cells d e)
  ]

  process-delete_squeeze :
      (s : State) (cells : List Cell)
      → p.opts.delete ≡ true
      → (p.opts.squeeze && not (is_empty p.set2)) ≡ true
      → (process p s cells).0 ≡ write_cells s.0 (squeezed p.in_set2 s.1 (kept p.in_set1 cells))
  unfolding process kept
  process-delete_squeeze s [] d e = unfold squeezed write_cells in refl
  process-delete_squeeze s (c ∷ cells) d e = elim (Bool-cases (p.in_set1 c.r)) [
    | inl gone ↦
        rw gone (onward s c cells (cell_gone p s c d gone) ∙ process-delete_squeeze s cells d e)
    | inr stays ↦ rw stays (
        onward s c cells (cell_stays_squeezed p s c d stays e)
        ∙ process-delete_squeeze (squeeze_emit s c p.in_set2) cells d e
        ∙ sym (squeezed_step p.in_set2 s.0 s.1 c (kept p.in_set1 cells)))
  ]

  process-squeeze_only :
      (s : State) (cells : List Cell)
      → p.opts.delete ≡ false
      → (p.opts.squeeze && is_empty p.set2) ≡ true
      → (process p s cells).0 ≡ write_cells s.0 (squeezed p.in_set1 s.1 cells)
  unfolding process
  process-squeeze_only s [] d e = unfold squeezed write_cells in refl
  process-squeeze_only s (c ∷ cells) d e =
      onward s c cells (cell_squeezed p s c d e)
      ∙ (process-squeeze_only (squeeze_emit s c p.in_set1) cells d e
          ∙ sym (squeezed_step p.in_set1 s.0 s.1 c cells))

  process-translate_squeeze :
      (s : State) (cells : List Cell)
      → p.opts.delete ≡ false
      → (p.opts.squeeze && is_empty p.set2) ≡ false
      → p.opts.squeeze ≡ true
      → (process p s cells).0
        ≡ write_cells s.0 (squeezed p.in_set2 s.1 (map (translate_cell p) cells))
  unfolding process
  process-translate_squeeze s [] d e q = unfold squeezed write_cells in refl
  process-translate_squeeze s (c ∷ cells) d e q =
      onward s c cells (cell_translated_squeezed p s c d e q)
      ∙ (process-translate_squeeze (squeeze_emit s (translate_cell p c) p.in_set2) cells d e q
          ∙ sym
              (squeezed_step p.in_set2 s.0 s.1 (translate_cell p c) (map (translate_cell p) cells)))

  process-translate :
      (s : State) (cells : List Cell)
      → p.opts.delete ≡ false
      → (p.opts.squeeze && is_empty p.set2) ≡ false
      → p.opts.squeeze ≡ false
      → (process p s cells).0 ≡ write_cells s.0 (map (translate_cell p) cells)
  unfolding process write_cells
  process-translate s [] d e q = refl
  process-translate s (c ∷ cells) d e q =
      onward s c cells (cell_translated p s c d e q)
      ∙ (process-translate (append_cell s.0 (translate_cell p c), s.1) cells d e q)

  -- From a fresh state `process` writes the transformed cells, in every mode.
  pub process-transformed :
      (cells : List Cell) → (process p ([], none) cells).0 ≡ write_cells [] (transformed p cells)
  unfolding transformed
  process-transformed cells = elim (Bool-cases p.opts.delete) [
    | inl d ↦ elim (Bool-cases (p.opts.squeeze && not (is_empty p.set2))) [
      | inl e ↦ simp (d, e) (process-delete_squeeze ([], none) cells d e)
      | inr e ↦ simp (d, e) (process-delete ([], none) cells d e)
    ]
    | inr d ↦ elim (Bool-cases (p.opts.squeeze && is_empty p.set2)) [
      | inl e ↦ simp (d, e) (process-squeeze_only ([], none) cells d e)
      | inr e ↦ elim (Bool-cases p.opts.squeeze) [
        | inl q ↦ simp d (simp e (simp q (process-translate_squeeze ([], none) cells d e q)))
        | inr q ↦ simp d (simp e (simp q (process-translate ([], none) cells d e q)))
      ]
    ]
  ]

lookup-fill_last :
    (set1 : Runes) (last : ℕ) (m : List (ℕ × ℕ)) (r : ℕ)
    → lookup (fill_trans_map set1 [] last m) r ≡ (if contains set1 r then some last else lookup m r)
unfolding lookup fill_trans_map contains
lookup-fill_last [] last m r = refl
lookup-fill_last (x ∷ set1) last m r = ground (arith, lookup-fill_last set1 last ((x, last) ∷ m) r)

-- The rune that SET2 gives to the last place of `r` in SET1, and its last rune past its end.
pub target : Runes → Runes → ℕ → ℕ → Option ℕ → Option ℕ
target [] set2 last r found = found
target (x ∷ set1) [] last r found = target set1 [] last r (if x == r then some last else found)
target (x ∷ set1) (to ∷ set2) last r found =
    target set1 set2 last r (if x == r then some to else found)

pub lookup-fill_trans_map :
    (set1 set2 : Runes) (last : ℕ) (m : List (ℕ × ℕ)) (r : ℕ)
    → lookup (fill_trans_map set1 set2 last m) r ≡ target set1 set2 last r (lookup m r)
unfolding lookup fill_trans_map target
lookup-fill_trans_map [] set2 last m r = refl
lookup-fill_trans_map (x ∷ set1) [] last m r = lookup-fill_trans_map set1 [] last ((x, last) ∷ m) r
lookup-fill_trans_map (x ∷ set1) (to ∷ set2) last m r =
    lookup-fill_trans_map set1 set2 last ((x, to) ∷ m) r
