-- ===== src/Golang/Utf8.antt =====
-- Go's `unicode/utf8`, as far as the applets use it: `DecodeRune`, `FullRune`, `RuneStart`,
-- `AppendRune`, and the conversion `[]rune(s)`. A rune is its code point.
pub mod Join
pub mod RoundTrip
use mimixbox.Prelude.{
  ℕ, zero, suc, ◌+◌, ◌-◌, ◌*◌, ◌/◌, ◌%◌, ◌≡◌, refl, Bool, true, false, not, ◌&&◌, ◌||◌, List, [],
  ◌∷◌, ◌++◌, arith, ltb, leb, ◌==◌, if◌then◌else◌, Bytes, Runes, codes, length,
}

-- U+FFFD, which stands for a byte that belongs to no valid sequence.
abbrev pub rune_error : ℕ
rune_error = 0xFFFD

-- A continuation byte, 10xxxxxx; any other byte starts a sequence.
abbrev pub is_continuation : ℕ → Bool
is_continuation b = leb 0x80 b && leb b 0xBF

unfoldable pub rune_start : ℕ → Bool
rune_start b = not (is_continuation b)

-- The length that a first byte announces (1 for an ASCII or an invalid byte), and the range that
-- it accepts for the second byte.
unfoldable pub announced : ℕ → ℕ
announced b =
    if ltb b 0xC2
    then 1
    else if ltb b 0xE0
    then 2
    else if ltb b 0xF0
    then 3
    else if ltb b 0xF5
    then 4
    else 1

unfoldable pub accepts_second : ℕ → ℕ → Bool
accepts_second b c =
    if b == 0xE0
    then leb 0xA0 c && leb c 0xBF
    else if b == 0xED
    then leb 0x80 c && leb c 0x9F
    else if b == 0xF0
    then leb 0x90 c && leb c 0xBF
    else if b == 0xF4
    then leb 0x80 c && leb c 0x8F
    else is_continuation c

-- A rune and the number of bytes that it takes; `(rune_error, 1)` for an invalid byte and
-- `(rune_error, 0)` at the end.
unfoldable pub decode_rune : Bytes → ℕ × ℕ
decode_rune [] = (rune_error, 0)
decode_rune (a ∷ []) = if ltb a 0x80 then (a, 1) else (rune_error, 1)
decode_rune (a ∷ b ∷ []) =
    if ltb a 0x80
    then (a, 1)
    else if announced a == 2 && accepts_second a b
    then (a % 32 * 64 + b % 64, 2)
    else (rune_error, 1)
decode_rune (a ∷ b ∷ c ∷ []) =
    if ltb a 0x80
    then (a, 1)
    else if announced a == 2 && accepts_second a b
    then (a % 32 * 64 + b % 64, 2)
    else if announced a == 3 && accepts_second a b && is_continuation c
    then (a % 16 * 4096 + b % 64 * 64 + c % 64, 3)
    else (rune_error, 1)
decode_rune (a ∷ b ∷ c ∷ d ∷ _) =
    if ltb a 0x80
    then (a, 1)
    else if announced a == 2 && accepts_second a b
    then (a % 32 * 64 + b % 64, 2)
    else if announced a == 3 && accepts_second a b && is_continuation c
    then (a % 16 * 4096 + b % 64 * 64 + c % 64, 3)
    else if announced a == 4 && accepts_second a b && is_continuation c && is_continuation d
    then (a % 8 * 262144 + b % 64 * 4096 + c % 64 * 64 + d % 64, 4)
    else (rune_error, 1)

-- Whether the bytes begin with a whole sequence; an invalid byte is one.
unfoldable pub full_rune : Bytes → Bool
full_rune [] = false
full_rune (a ∷ []) = announced a == 1
full_rune (a ∷ b ∷ []) = leb (announced a) 2 || not (accepts_second a b)
full_rune (a ∷ b ∷ c ∷ []) =
    leb (announced a) 3 || not (accepts_second a b) || not (is_continuation c)
full_rune (a ∷ b ∷ c ∷ d ∷ _) = true

-- A surrogate or a value past U+10FFFF is written as U+FFFD.
unfoldable pub encode_rune : ℕ → Bytes
encode_rune r =
    if ltb r 0x80
    then r ∷ []
    else if ltb r 0x800
    then (0xC0 + r / 64) ∷ (0x80 + r % 64) ∷ []
    else if ltb 0x10FFFF r || (leb 0xD800 r && leb r 0xDFFF)
    then 0xEF ∷ 0xBF ∷ 0xBD ∷ []
    else if ltb r 0x10000
    then (0xE0 + r / 4096) ∷ (0x80 + r / 64 % 64) ∷ (0x80 + r % 64) ∷ []
    else (0xF0 + r / 262144) ∷ (0x80 + r / 4096 % 64) ∷ (0x80 + r / 64 % 64) ∷ (0x80 + r % 64) ∷ []

-- A symbol of a decoded text: its rune, and for an invalid byte that byte instead.
pub data Symbol : Type 0 where
  valid : ℕ → Symbol
  invalid : ℕ → Symbol

unfoldable pub symbol_of : ℕ → ℕ × ℕ → Symbol
symbol_of b (r, size) = if r == rune_error && size == 1 then invalid b else valid r

-- The symbols of a text. The first argument counts the bytes still to pass over, those of the
-- sequence that was decoded last.
unfoldable pub symbols : ℕ → Bytes → List Symbol
unfolding decode_rune symbol_of announced accepts_second
symbols skip [] = []
symbols (suc k) (b ∷ s) = symbols k s
symbols zero (b ∷ s) = symbol_of b (decode_rune (b ∷ s)) ∷ symbols ((decode_rune (b ∷ s)).1 - 1) s

-- `[]rune(s)`.
abbrev rune_of : Symbol → ℕ
rune_of (valid r) = r
rune_of (invalid _) = rune_error

unfoldable pub runes_of : List Symbol → Runes
runes_of [] = []
runes_of (x ∷ xs) = rune_of x ∷ runes_of xs

unfoldable pub runes : Bytes → Runes
unfolding symbols runes_of
runes s = runes_of (symbols 0 s)

-- `string(runes)`.
unfoldable pub string_of : Runes → Bytes
unfolding encode_rune
string_of [] = []
string_of (r ∷ rs) = encode_rune r ++ string_of rs

two_letters : runes (0x61 ∷ 0xE3 ∷ 0x81 ∷ 0x82 ∷ 0xFF ∷ []) ≡ 0x61 ∷ 0x3042 ∷ 0xFFFD ∷ []
unfolding runes
two_letters = refl
