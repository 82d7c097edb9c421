-- ===== src/Textutils/Fold/Pieces.antt =====
-- The pieces of `foldLine` of internal/applets/textutils/fold/fold.go.
use mimixbox.Prelude.{
  ℕ, zero, suc, ◌≤◌, ◌<◌, ◌≡◌, refl, ◌∙◌, sym, ap, ◌||◌, Bool, Bool-cases, inl, inr, true, false,
  List, [], ◌∷◌, ◌++◌, append-nil, arith, ltb, ◌==◌, Option-cases, none, some, Bytes, length,
  length-take, length-drop, take, drop, take-append-drop, All,
}
use mimixbox.Textutils.Fold.{last_blank, cut_of, fold_loop, fold_line}

unfoldable pub concat : List Bytes → Bytes
concat [] = []
concat (p ∷ pieces) = p ++ concat pieces

concat_cons : (p : Bytes) (pieces : List Bytes) → concat (p ∷ pieces) ≡ p ++ concat pieces
unfolding concat
concat_cons p pieces = refl

last_blank_tail :
    (c : ℕ) (s : Bytes) (k : ℕ) → last_blank s ≡ some k → last_blank (c ∷ s) ≡ some (suc k)
unfolding last_blank
last_blank_tail c s k e = rw (e, last_blank) refl

last_blank_head :
    (c : ℕ) (s : Bytes) (i : ℕ)
    → last_blank s ≡ none
    → last_blank (c ∷ s) ≡ some i
    → i < length (c ∷ s)
unfolding last_blank
last_blank_head c s i e h = elim (Bool-cases (c == b' ' || c == b'\t')) [
  | inl blank ↦
      let found : some 0 ≡ some i = sym (rw (e, blank, last_blank) refl) ∙ h in
      let at_i : 0 ≡ i = cc in omega (arith, at_i)
  | inr other ↦ let found : none ≡ some i = sym (rw (e, other, last_blank) refl) ∙ h in absurd cc
]

last_blank-bound : (s : Bytes) (i : ℕ) → last_blank s ≡ some i → i < length s
unfolding last_blank
last_blank-bound [] i h = cc
last_blank-bound (c ∷ s) i h = elim (Option-cases (last_blank s)) [
  | inl e ↦ last_blank_head c s i e h
  | inr (k, e) ↦
      let here : some (suc k) ≡ some i = sym (last_blank_tail c s k e) ∙ h in
      let at_i : suc k ≡ i = cc in omega (arith, at_i, last_blank-bound s k e)
]

-- A cut leaves less of a line that is too long, and cuts off no more than the width.
pub cut_of-bounds :
    (width : ℕ) (spaces : Bool) (line : Bytes)
    → 1 ≤ width
    → (1 ≤ cut_of width spaces line) × (cut_of width spaces line ≤ width)
unfolding cut_of
cut_of-bounds width false line h = (h, omega arith)
cut_of-bounds width true line h = elim (Option-cases (last_blank (take width line))) [
  | inl e ↦ rw (e, cut_of) (h, omega arith)
  | inr (k, e) ↦
      let inside : k < width =
        omega (arith, last_blank-bound (take width line) k e, length-take width line) in
      rw (e, cut_of) (ground (arith, inside))
]

fold_loop_cut :
    (fuel width : ℕ) (spaces : Bool) (line : Bytes)
    → ltb width (length line) ≡ true
    → fold_loop (suc fuel) width spaces line
      ≡ take (cut_of width spaces line) line
        ∷ fold_loop fuel width spaces (drop (cut_of width spaces line) line)
unfolding fold_loop
fold_loop_cut fuel width spaces line h = rw (h, fold_loop) refl

fold_loop_end :
    (fuel width : ℕ) (spaces : Bool) (line : Bytes)
    → ltb width (length line) ≡ false
    → fold_loop (suc fuel) width spaces line ≡ line ∷ []
unfolding fold_loop
fold_loop_end fuel width spaces line h = rw (h, fold_loop) refl

-- The pieces are those of the line, in order, and none is wider than `width`.
abbrev pub ArePieces : List Bytes → ℕ → Bytes → Type 0
ArePieces pieces width line = (concat pieces ≡ line) × All (λ p. length p ≤ width) pieces

fold_loop-ArePieces :
    (fuel width : ℕ) (spaces : Bool) (line : Bytes)
    → 1 ≤ width
    → length line ≤ fuel
    → ArePieces (fold_loop fuel width spaces line) width line
unfolding concat
fold_loop-ArePieces zero width spaces line h l =
    unfold fold_loop in (append-nil line, (omega arith, tt))
fold_loop-ArePieces (suc fuel) width spaces line h l = elim (Bool-cases (ltb width (length line))) [
  | inl long ↦
      let cut = cut_of width spaces line in
      let bounds = cut_of-bounds width spaces line h in
      let rest =
        fold_loop-ArePieces fuel width spaces (drop cut line) h
          (omega (arith, length-drop cut line, bounds.0)) in
      rw (fold_loop_cut fuel width spaces line long) (
        concat_cons (take cut line) (fold_loop fuel width spaces (drop cut line))
            ∙ ap (λ r. take cut line ++ r) rest.0
            ∙ take-append-drop cut line,
        (omega (arith, length-take cut line, bounds.1), rest.1),
      )
  | inr short ↦
      rw (fold_loop_end fuel width spaces line short) (append-nil line, (ground arith, tt))
]

-- Folding a line at a width of one or more cuts it into pieces that give it back in order, none of
-- them wider, with and without -s.
pub fold_line-ArePieces :
    (line : Bytes) (width : ℕ) (spaces : Bool)
    → 1 ≤ width
    → ArePieces (fold_line line width spaces) width line
unfolding fold_line
fold_line-ArePieces line width spaces h =
    fold_loop-ArePieces (length line) width spaces line h (omega arith)
