-- ===== src/Golang/Utf8/RoundTrip.antt =====
-- Runes written in UTF-8 and decoded.
use mimixbox.Prelude.{
  ℕ, ◌+◌, ◌/◌, ◌%◌, ◌≤◌, ◌<◌, ◌≡◌, refl, ap, ◌⊎◌, [], ◌∷◌, ◌++◌, arith, All, Bytes, Runes, inl, inr,
}
use mimixbox.Golang.Utf8.{
  decode_rune, announced, accepts_second, encode_rune, valid, symbol_of, symbols, runes, string_of,
}

-- A code point that is no surrogate.
abbrev pub IsRune : ℕ → Type 0
IsRune r = (r < 0xD800) ⊎ ((0xE000 ≤ r) × (r < 0x110000))

decode_1 : (r : ℕ) (s : Bytes) → r < 0x80 → decode_rune (r ∷ s) ≡ (r, 1)
unfolding decode_rune
decode_1 r [] h = ground arith
decode_1 r (_ ∷ []) h = ground arith
decode_1 r (_ ∷ _ ∷ []) h = ground arith
decode_1 r (_ ∷ _ ∷ _ ∷ _) h = ground arith

decode_2 :
    (r : ℕ) (s : Bytes)
    → 0x80 ≤ r
    → r < 0x800
    → decode_rune ((0xC0 + r / 64) ∷ (0x80 + r % 64) ∷ s) ≡ (r, 2)
unfolding decode_rune announced accepts_second
decode_2 r [] h k = ground arith
decode_2 r (_ ∷ []) h k = ground arith
decode_2 r (_ ∷ _ ∷ _) h k = ground arith

decode_3 :
    (r : ℕ) (s : Bytes)
    → 0x800 ≤ r
    → r < 0x10000
    → IsRune r
    → decode_rune ((0xE0 + r / 4096) ∷ (0x80 + r / 64 % 64) ∷ (0x80 + r % 64) ∷ s) ≡ (r, 3)
unfolding decode_rune announced accepts_second
decode_3 r [] h k v = ground arith
decode_3 r (_ ∷ _) h k v = ground arith

decode_4 :
    (r : ℕ) (s : Bytes)
    → 0x10000 ≤ r
    → r < 0x110000
    → decode_rune
        ((0xF0 + r / 262144) ∷ (0x80 + r / 4096 % 64) ∷ (0x80 + r / 64 % 64) ∷ (0x80 + r % 64) ∷ s)
      ≡ (r, 4)
unfolding decode_rune announced accepts_second
decode_4 r s h k = ground arith

-- How a rune is written, by its size.
encode_1 : (r : ℕ) → r < 0x80 → encode_rune r ≡ r ∷ []
unfolding encode_rune
encode_1 r h = ground arith

encode_2 : (r : ℕ) → 0x80 ≤ r → r < 0x800 → encode_rune r ≡ (0xC0 + r / 64) ∷ (0x80 + r % 64) ∷ []
unfolding encode_rune
encode_2 r h k = ground arith

encode_3 :
    (r : ℕ)
    → 0x800 ≤ r
    → r < 0x10000
    → IsRune r
    → encode_rune r ≡ (0xE0 + r / 4096) ∷ (0x80 + r / 64 % 64) ∷ (0x80 + r % 64) ∷ []
unfolding encode_rune
encode_3 r h k v = ground arith

encode_4 :
    (r : ℕ)
    → 0x10000 ≤ r
    → r < 0x110000
    → encode_rune r
      ≡ (0xF0 + r / 262144) ∷ (0x80 + r / 4096 % 64) ∷ (0x80 + r / 64 % 64) ∷ (0x80 + r % 64) ∷ []
unfolding encode_rune
encode_4 r h k = ground arith

size_cases :
    (r : ℕ)
    → IsRune r
    → (r < 0x80)
      ⊎ ((0x80 ≤ r) × (r < 0x800))
      ⊎ ((0x800 ≤ r) × (r < 0x10000))
      ⊎ ((0x10000 ≤ r) × (r < 0x110000))
size_cases r h = ground arith

valid_3 : (b r : ℕ) → symbol_of b (r, 3) ≡ valid r
unfolding symbol_of
valid_3 b r = ground arith

-- A rune that is written out is decoded first.
pub symbols-encode_rune :
    (r : ℕ) (s : Bytes) → IsRune r → symbols 0 (encode_rune r ++ s) ≡ valid r ∷ symbols 0 s
unfolding symbols symbol_of
symbols-encode_rune r s v = elim (size_cases r v) [
  | inl small ↦ rw (encode_1 r small, decode_1 r s small) (ground arith)
  | inr (inl (h, k)) ↦ rw (encode_2 r h k, decode_2 r s h k) (ground arith)
  | inr (inr (inl (h, k))) ↦ rw (encode_3 r h k v, decode_3 r s h k v) (ground arith)
  | inr (inr (inr (h, k))) ↦ rw (encode_4 r h k, decode_4 r s h k) (ground arith)
]

-- Runes that are written out are read back.
pub runes-string_of : (rs : Runes) → All IsRune rs → runes (string_of rs) ≡ rs
unfolding runes string_of
runes-string_of [] h = refl
runes-string_of (r ∷ rs) h =
    rw (symbols-encode_rune r (string_of rs) h.0) (ap (λ t. r ∷ t) (runes-string_of rs h.1))
