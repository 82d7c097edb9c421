-- ===== src/Uucode/Decode.antt =====
-- The decoder of internal/applets/textutils/uucode/uucode.go. Bytes joined by `|` are added, as in
-- the encoder.
pub mod Groups
pub mod RoundTrip
use mimixbox.Prelude.{
  ℕ, zero, suc, ◌+◌, ◌-◌, ◌*◌, ◌/◌, ◌%◌, ◌≡◌, refl, Bool, true, false, not, ◌&&◌, ◌||◌, List, [],
  ◌∷◌, ◌++◌, Option, none, some, arith, ltb, ◌==◌, if◌then◌else◌, Bytes, bytes_eq, codes, length,
  take, drop, Result, ok, err, min,
}
use mimixbox.Golang.Int.{ℤ}
use mimixbox.Golang.Strconv.{atoi}
use mimixbox.Golang.Strings.{has_prefix, cut_at, trim_space}
use mimixbox.Golang.Bufio.{scan_lines}
use mimixbox.Golang.Base64.{decode_base64}

-- `(c - 0x20) & 0x3f` on bytes.
unfoldable pub dec : ℕ → ℕ
dec c = (c + 256 - 32) % 256 % 64

unfoldable pub ungroup : ℕ → ℕ → ℕ → ℕ → Bytes
ungroup a b c d = (a * 4 % 256 + b / 16) ∷ (b * 16 % 256 + c / 4) ∷ (c * 64 % 256 + d) ∷ []

-- `decodeUULine`: a tail of fewer than four characters is left out.
unfoldable pub decode_uu_line : Bytes → Bytes
unfolding dec ungroup
decode_uu_line [] = []
decode_uu_line (a ∷ []) = []
decode_uu_line (a ∷ b ∷ []) = []
decode_uu_line (a ∷ b ∷ c ∷ []) = []
decode_uu_line (a ∷ b ∷ c ∷ d ∷ s) = ungroup (dec a) (dec b) (dec c) (dec d) ++ decode_uu_line s

-- `headerName` by the first blank of the text behind the prefix, trimmed, and by whether that
-- text is a number.
name_of : Bytes → Option (Bytes × Bytes) → Option ℤ → Bytes
name_of rest (some (mode, name)) number = name
name_of rest none (some n) = []
name_of rest none none = rest

unfoldable pub header_name : Bytes → Bytes → Bytes
unfolding name_of
header_name line prefix =
    let rest = trim_space (drop (length prefix) line) in name_of rest (cut_at b' ' rest) (atoi rest)

pub data UuError : Type 0 where
  no_begin_line illegal_base64 : UuError

unfoldable pub base64_prefix : Bytes
base64_prefix = codes "begin-base64 "

unfoldable pub uu_prefix : Bytes
uu_prefix = codes "begin "

-- The bytes of a body line that is not the end.
unfoldable pub decode_line : Bytes → Bytes
unfolding decode_uu_line dec
decode_line [] = []
decode_line (c ∷ s) =
    let decoded = decode_uu_line s in
    if bytes_eq (c ∷ s) (codes "`")
    then []
    else if dec c == 0
    then []
    else take (min (dec c) (length decoded)) decoded

-- The loop of `decode` behind a `begin` line; `out` holds the bytes so far.
unfoldable pub decode_body : Bytes → List Bytes → Bytes
unfolding decode_line
decode_body out [] = out
decode_body out (line ∷ lines) =
    let rest = decode_body (out ++ decode_line line) lines in
    if bytes_eq line (codes "end") then out else rest

add_chunk : Bytes → Option Bytes → Option Bytes
add_chunk out none = none
add_chunk out (some chunk) = some (out ++ chunk)

-- The same behind a `begin-base64` line; `none` where a line is no base64.
unfoldable pub decode_base64_body : Option Bytes → List Bytes → Option Bytes
unfolding add_chunk decode_base64
decode_base64_body none lines = none
decode_base64_body (some out) [] = some out
decode_base64_body (some out) (line ∷ lines) =
    let rest = decode_base64_body (add_chunk out (decode_base64 (trim_space line))) lines in
    if bytes_eq line (codes "====") then some out else rest

base64_result : Bytes → Option Bytes → Result UuError (Bytes × Bytes)
base64_result name none = err illegal_base64
base64_result name (some out) = ok (name, out)

-- `decode` on the lines of its input: the lines before a `begin` line are passed over.
unfoldable pub decode_lines : List Bytes → Result UuError (Bytes × Bytes)
unfolding base64_result decode_body decode_base64_body base64_prefix uu_prefix header_name
    has_prefix
decode_lines [] = err no_begin_line
decode_lines (line ∷ lines) =
    let rest = decode_lines lines in
    if has_prefix line base64_prefix
    then base64_result (header_name line base64_prefix) (decode_base64_body (some []) lines)
    else if has_prefix line uu_prefix
    then ok (header_name line uu_prefix, decode_body [] lines)
    else rest

unfoldable pub decode : Bytes → Result UuError (Bytes × Bytes)
unfolding decode_lines scan_lines
decode input = decode_lines (scan_lines input)
