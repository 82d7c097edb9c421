-- ===== src/Golang/Strings/Order.antt =====
-- The order of Go on strings.
use mimixbox.Prelude.{
  ◌≡◌, refl, Bool, true, false, ◌&&◌, ◌||◌, [], ◌∷◌, arith, ltb, ◌==◌, Bytes, bytes_eq,
}

-- `s < t`.
unfoldable pub bytes_ltb : Bytes → Bytes → Bool
bytes_ltb [] [] = false
bytes_ltb [] (_ ∷ _) = true
bytes_ltb (_ ∷ _) [] = false
bytes_ltb (a ∷ s) (b ∷ t) = ltb a b || (a == b && bytes_ltb s t)

bytes_ltb_irrefl : (s : Bytes) → bytes_ltb s s ≡ false
unfolding bytes_ltb
bytes_ltb_irrefl [] = refl
bytes_ltb_irrefl (a ∷ s) = ground (arith, bytes_ltb_irrefl s)

-- Two strings of which neither is less are equal.
pub bytes_ltb_connex : (s t : Bytes) → bytes_ltb s t ≡ false → bytes_ltb t s ≡ false → s ≡ t
unfolding bytes_ltb
bytes_ltb_connex [] [] h k = refl
bytes_ltb_connex [] (b ∷ t) h k = cc
bytes_ltb_connex (a ∷ s) [] h k = cc
bytes_ltb_connex (a ∷ s) (b ∷ t) h k = ground (arith, bytes_ltb_connex s t)

-- A string less than another is less than all that are not less than that.
pub bytes_ltb_below :
    (s t u : Bytes) → bytes_ltb s t ≡ true → bytes_ltb u t ≡ false → bytes_ltb s u ≡ true
unfolding bytes_ltb
bytes_ltb_below [] [] u h k = cc
bytes_ltb_below (a ∷ s) [] u h k = cc
bytes_ltb_below [] (b ∷ t) [] h k = cc
bytes_ltb_below [] (b ∷ t) (c ∷ u) h k = refl
bytes_ltb_below (a ∷ s) (b ∷ t) [] h k = cc
bytes_ltb_below (a ∷ s) (b ∷ t) (c ∷ u) h k = ground (arith, bytes_ltb_below s t u)

pub bytes_ltb-bytes_eq : (s t : Bytes) → bytes_ltb s t ≡ true → bytes_eq s t ≡ false
unfolding bytes_ltb bytes_eq
bytes_ltb-bytes_eq [] [] h = cc
bytes_ltb-bytes_eq [] (b ∷ t) h = refl
bytes_ltb-bytes_eq (a ∷ s) [] h = cc
bytes_ltb-bytes_eq (a ∷ s) (b ∷ t) h = ground (arith, bytes_ltb-bytes_eq s t)
