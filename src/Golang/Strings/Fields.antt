-- ===== src/Golang/Strings/Fields.antt =====
-- `Fields` of Go's `strings`: the parts of a text between white space.
use mimixbox.Prelude.{
  ℕ, zero, suc, ◌≡◌, refl, ◌∙◌, sym, ap, List, [], ◌∷◌, ◌++◌, append_assoc, append-nil, arith,
  if◌then◌else◌, Bytes,
}
use mimixbox.Golang.Strings.{is_space, space_2, space_3, IsInk, AllInk}

-- The length of the white space character that a text begins with, or 0.
unfoldable space_length : Bytes → ℕ
unfolding space_2 space_3
space_length [] = 0
space_length (a ∷ []) = if is_space a then 1 else 0
space_length (a ∷ b ∷ []) = if is_space a then 1 else if space_2 a b then 2 else 0
space_length (a ∷ b ∷ c ∷ s) =
    if is_space a then 1 else if space_2 a b then 2 else if space_3 a b c then 3 else 0

unfoldable flush : Bytes → List Bytes
flush [] = []
flush (c ∷ cur) = (c ∷ cur) ∷ []

-- `skip` bytes of a white space character are still to be passed over; `cur` is the part so far.
unfoldable pub fields_from : ℕ → Bytes → Bytes → List Bytes
unfolding flush space_length
fields_from skip cur [] = flush cur
fields_from (suc skip) cur (a ∷ s) = fields_from skip cur s
fields_from zero cur (a ∷ s) = elim (space_length (a ∷ s)) [
  | zero ↦ fields_from zero (cur ++ a ∷ []) s
  | suc n ↦ flush cur ++ fields_from n [] s
]

unfoldable pub fields : Bytes → List Bytes
unfolding fields_from
fields s = fields_from 0 [] s

space_length-ink : (a : ℕ) (s : Bytes) → IsInk a → space_length (a ∷ s) ≡ 0
unfolding space_length space_2 space_3
space_length-ink a [] h = ground arith
space_length-ink a (b ∷ []) h = ground arith
space_length-ink a (b ∷ c ∷ s) h = ground arith

space_length-blank : (s : Bytes) → space_length (b' ' ∷ s) ≡ 1
unfolding space_length space_2 space_3
space_length-blank [] = refl
space_length-blank (b ∷ []) = refl
space_length-blank (b ∷ c ∷ s) = refl

fields_from_ink :
    (a : ℕ) (cur s : Bytes) → IsInk a → fields_from 0 cur (a ∷ s) ≡ fields_from 0 (cur ++ a ∷ []) s
unfolding fields_from
fields_from_ink a cur s h = rw (space_length-ink a s h, fields_from) refl

fields_from-ink :
    (w cur s : Bytes) → AllInk w → fields_from 0 cur (w ++ s) ≡ fields_from 0 (cur ++ w) s
fields_from-ink [] cur s h = rw append-nil
fields_from-ink (a ∷ w) cur s h =
    fields_from_ink a cur (w ++ s) h.0
    ∙ fields_from-ink w (cur ++ a ∷ []) s h.1
    ∙ ap (λ c. fields_from 0 c s) (append_assoc cur (a ∷ []) w)

-- A word with a space behind it is the first field, and a word at the end the last.
pub fields-word :
    (a : ℕ) (w s : Bytes) → AllInk (a ∷ w) → fields (a ∷ w ++ b' ' ∷ s) ≡ (a ∷ w) ∷ fields s
unfolding fields
fields-word a w s h = fields_from-ink (a ∷ w) [] (b' ' ∷ s) h ∙ blank
  where
    blank : fields_from 0 (a ∷ w) (b' ' ∷ s) ≡ (a ∷ w) ∷ fields_from 0 [] s
    blank = unfold fields_from flush in rw (space_length-blank s, fields_from) refl

pub fields-last : (a : ℕ) (w : Bytes) → AllInk (a ∷ w) → fields (a ∷ w) ≡ (a ∷ w) ∷ []
unfolding fields fields_from flush
fields-last a w h = ap fields (sym (append-nil (a ∷ w))) ∙ fields_from-ink (a ∷ w) [] [] h
