-- ===== src/Golang/Base64.antt =====
-- Go's `encoding/base64`, as far as the applets use it: the standard encoding with padding.
use mimixbox.Prelude.{
  ℕ, ◌+◌, ◌-◌, ◌*◌, ◌/◌, ◌%◌, Bool, true, false, ◌&&◌, ◌||◌, [], ◌∷◌, Option, none, some, ltb, leb,
  ◌==◌, if◌then◌else◌, Bytes,
}

-- The character of a value below 64.
unfoldable pub base64_char : ℕ → ℕ
base64_char v =
    if ltb v 26
    then v + b'A'
    else if ltb v 52
    then v - 26 + b'a'
    else if ltb v 62
    then v - 52 + b'0'
    else if v == 62
    then b'+'
    else b'/'

unfoldable pub base64_value : ℕ → Option ℕ
base64_value c =
    if leb b'A' c && leb c b'Z'
    then some (c - b'A')
    else if leb b'a' c && leb c b'z'
    then some (c - b'a' + 26)
    else if leb b'0' c && leb c b'9'
    then some (c - b'0' + 52)
    else if c == b'+'
    then some 62
    else if c == b'/'
    then some 63
    else none

-- `EncodeToString`.
unfoldable pub encode_base64 : Bytes → Bytes
unfolding base64_char
encode_base64 [] = []
encode_base64 (a ∷ []) = base64_char (a / 4) ∷ base64_char (a % 4 * 16) ∷ b'=' ∷ b'=' ∷ []
encode_base64 (a ∷ b ∷ []) =
    base64_char (a / 4) ∷ base64_char (a % 4 * 16 + b / 16) ∷ base64_char (b % 16 * 4) ∷ b'=' ∷ []
encode_base64 (a ∷ b ∷ c ∷ s) =
    base64_char (a / 4)
    ∷ base64_char (a % 4 * 16 + b / 16)
    ∷ base64_char (b % 16 * 4 + c / 64)
    ∷ base64_char (c % 64)
    ∷ encode_base64 s

-- What a quantum of two, three or four values decodes to.
quantum_1 : Option ℕ → Option ℕ → Option Bytes
quantum_1 (some u) (some v) = some ((u * 4 + v / 16) ∷ [])
quantum_1 (some u) none = none
quantum_1 none v = none

quantum_2 : Option ℕ → Option ℕ → Option ℕ → Option Bytes
quantum_2 (some u) (some v) (some w) = some ((u * 4 + v / 16) ∷ (v % 16 * 16 + w / 4) ∷ [])
quantum_2 (some u) (some v) none = none
quantum_2 (some u) none w = none
quantum_2 none v w = none

quantum_3 : Option ℕ → Option ℕ → Option ℕ → Option ℕ → Option Bytes → Option Bytes
quantum_3 (some u) (some v) (some w) (some x) (some rest) =
    some ((u * 4 + v / 16) ∷ (v % 16 * 16 + w / 4) ∷ (w % 4 * 64 + x) ∷ rest)
quantum_3 (some u) (some v) (some w) (some x) none = none
quantum_3 (some u) (some v) (some w) none rest = none
quantum_3 (some u) (some v) none x rest = none
quantum_3 (some u) none w x rest = none
quantum_3 none v w x rest = none

unfoldable pub is_empty : Bytes → Bool
is_empty [] = true
is_empty (_ ∷ _) = false

-- Padding ends the text.
unfoldable pub decode_quanta : Bytes → Option Bytes
unfolding quantum_1 quantum_2 quantum_3 base64_value is_empty
decode_quanta [] = some []
decode_quanta (a ∷ []) = none
decode_quanta (a ∷ b ∷ []) = none
decode_quanta (a ∷ b ∷ c ∷ []) = none
decode_quanta (a ∷ b ∷ c ∷ d ∷ s) =
    let rest = decode_quanta s in
    if c == b'='
    then (if d == b'=' && is_empty s then quantum_1 (base64_value a) (base64_value b) else none)
    else if d == b'='
    then (if is_empty s then quantum_2 (base64_value a) (base64_value b) (base64_value c) else none)
    else quantum_3 (base64_value a) (base64_value b) (base64_value c) (base64_value d) rest

-- Line ends within the text are skipped.
without_ends : Bytes → Bytes
without_ends [] = []
without_ends (c ∷ s) =
    let rest = without_ends s in if c == b'\n' || c == b'\r' then rest else c ∷ rest

-- `DecodeString`.
unfoldable pub decode_base64 : Bytes → Option Bytes
unfolding without_ends decode_quanta
decode_base64 s = decode_quanta (without_ends s)
