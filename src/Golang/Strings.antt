-- ===== src/Golang/Strings.antt =====
-- Go's `strings`, on bytes: cutting at a separator, joining, trimming white space, searching.
pub mod Split
pub mod Explode
pub mod Fields
pub mod Order
use mathlib.Core.List.{reverse, reverse-cons, reverse-reverse}
use mimixbox.Prelude.{
  ℕ, zero, suc, ◌+◌, ◌-◌, ◌≤◌, ◌<◌, ◌≡◌, refl, Bool, true, false, ◌&&◌, ◌||◌, List, [], ◌∷◌, ◌++◌,
  Option, none, some, arith, ltb, leb, ◌==◌, if◌then◌else◌, Bytes, codes, length, drop, All,
  All-append,
}

-- `HasPrefix(s, prefix)`.
unfoldable pub has_prefix : Bytes → Bytes → Bool
has_prefix s [] = true
has_prefix [] (_ ∷ _) = false
has_prefix (a ∷ s) (b ∷ p) = a == b && has_prefix s p

-- `Contains(s, sep)`.
unfoldable pub contains : Bytes → Bytes → Bool
unfolding has_prefix
contains [] sep = has_prefix [] sep
contains (a ∷ s) sep = has_prefix (a ∷ s) sep || contains s sep

-- The loop of `Split` at a separator that is not empty: `skip` bytes of a separator are still to
-- be passed over, and `cur` is the part so far.
unfoldable pub split_from : Bytes → ℕ → Bytes → Bytes → List Bytes
unfolding has_prefix
split_from sep skip cur [] = cur ∷ []
split_from sep (suc skip) cur (a ∷ s) = split_from sep skip cur s
split_from sep zero cur (a ∷ s) = elim (has_prefix (a ∷ s) sep) [
  | true ↦ cur ∷ split_from sep (length sep - 1) [] s
  | false ↦ split_from sep zero (cur ++ a ∷ []) s
]

unfoldable pub split : Bytes → Bytes → List Bytes
unfolding split_from
split s sep = split_from sep 0 [] s

-- `Join(parts, sep)`.
unfoldable pub join : List Bytes → Bytes → Bytes
join [] sep = []
join (p ∷ []) sep = p
join (p ∷ q ∷ parts) sep = p ++ (sep ++ join (q ∷ parts) sep)

-- The text before the first byte `c` and the text behind it.
unfoldable pub cut_at : ℕ → Bytes → Option (Bytes × Bytes)
cut_at c [] = none
cut_at c (a ∷ s) =
    let later : Option (Bytes × Bytes) = elim (cut_at c s) [
      | none ↦ none
      | some (before, after) ↦ some (a ∷ before, after)
    ] in
    if a == c then some ([], s) else later

abbrev pub is_space : ℕ → Bool
is_space c = c == b' ' || (leb 9 c && leb c 13)

-- The white space of Unicode past ASCII, in UTF-8: U+0085 and U+00A0 in two bytes, the others in
-- three.
space_2 : ℕ → ℕ → Bool
space_2 a b = a == 0xC2 && (b == 0x85 || b == 0xA0)

space_3 : ℕ → ℕ → ℕ → Bool
space_3 a b c =
    (a == 0xE1 && b == 0x9A && c == 0x80)
    || (a == 0xE2 && b == 0x80 && (leb 0x80 c && leb c 0x8A || c == 0xA8 || c == 0xA9 || c == 0xAF))
    || (a == 0xE2 && b == 0x81 && c == 0x9F)
    || (a == 0xE3 && b == 0x80 && c == 0x80)

trim_left : Bytes → Bytes
unfolding space_2 space_3
trim_left [] = []
trim_left (a ∷ []) = if is_space a then [] else a ∷ []
trim_left (a ∷ b ∷ []) =
    let one = trim_left (b ∷ []) in
    if is_space a then one else if space_2 a b then [] else a ∷ b ∷ []
trim_left (a ∷ b ∷ c ∷ s) =
    let one = trim_left (b ∷ c ∷ s) in
    let two = trim_left (c ∷ s) in
    let three = trim_left s in
    if is_space a
    then one
    else if space_2 a b
    then two
    else if space_3 a b c
    then three
    else a ∷ b ∷ c ∷ s

-- The same from the end, on the bytes in reverse.
trim_last : Bytes → Bytes
unfolding space_2 space_3
trim_last [] = []
trim_last (a ∷ []) = if is_space a then [] else a ∷ []
trim_last (a ∷ b ∷ []) =
    let one = trim_last (b ∷ []) in
    if is_space a then one else if space_2 b a then [] else a ∷ b ∷ []
trim_last (a ∷ b ∷ c ∷ s) =
    let one = trim_last (b ∷ c ∷ s) in
    let two = trim_last (c ∷ s) in
    let three = trim_last s in
    if is_space a
    then one
    else if space_2 b a
    then two
    else if space_3 c b a
    then three
    else a ∷ b ∷ c ∷ s

-- `TrimSpace(s)`.
unfoldable pub trim_space : Bytes → Bytes
unfolding trim_left trim_last
trim_space s = reverse (trim_last (reverse (trim_left s)))

-- An ASCII byte that is no white space.
abbrev pub IsInk : ℕ → Type 0
IsInk c = (32 < c) × (c < 0x80)

trim_left-ink : (a : ℕ) (s : Bytes) → IsInk a → trim_left (a ∷ s) ≡ a ∷ s
unfolding trim_left
trim_left-ink a [] h = ground arith
trim_left-ink a (b ∷ []) h = ground arith
trim_left-ink a (b ∷ c ∷ s) h = ground arith

trim_last-ink : (a : ℕ) (s : Bytes) → IsInk a → trim_last (a ∷ s) ≡ a ∷ s
unfolding trim_last
trim_last-ink a [] h = ground arith
trim_last-ink a (b ∷ []) h = ground arith
trim_last-ink a (b ∷ c ∷ s) h = ground arith

abbrev pub AllInk : Bytes → Type 0
AllInk = All IsInk

pub AllInk-reverse : (s : Bytes) → AllInk s → AllInk (reverse s)
AllInk-reverse [] h = tt
AllInk-reverse (a ∷ s) h =
    rw (reverse-cons a s) (All-append IsInk (reverse s) (a ∷ []) (AllInk-reverse s h.1) (h.0, tt))

-- A text that begins with such a byte, if it has any.
abbrev pub InkFirst : Bytes → Type 0
InkFirst [] = Unit
InkFirst (a ∷ _) = IsInk a

trim_left-InkFirst : (s : Bytes) → InkFirst s → trim_left s ≡ s
trim_left-InkFirst [] h = unfold trim_left in refl
trim_left-InkFirst (a ∷ s) h = trim_left-ink a s h

trim_last-InkFirst : (s : Bytes) → InkFirst s → trim_last s ≡ s
trim_last-InkFirst [] h = unfold trim_last in refl
trim_last-InkFirst (a ∷ s) h = trim_last-ink a s h

-- A text that begins and ends with such bytes is not changed.
pub trim_space-InkFirst : (s : Bytes) → InkFirst s → InkFirst (reverse s) → trim_space s ≡ s
unfolding trim_space
trim_space-InkFirst s h k =
    rw (trim_left-InkFirst s h, trim_last-InkFirst (reverse s) k) (reverse-reverse s)

AllInk→InkFirst : (s : Bytes) → AllInk s → InkFirst s
AllInk→InkFirst [] h = tt
AllInk→InkFirst (a ∷ s) h = h.0

-- A text without white space is not changed.
pub trim_space-ink : (s : Bytes) → AllInk s → trim_space s ≡ s
trim_space-ink s h =
    trim_space-InkFirst s (AllInk→InkFirst s h) (AllInk→InkFirst (reverse s) (AllInk-reverse s h))
