-- ===== src/Uucode/Decode/RoundTrip.antt =====
-- `decode` of internal/applets/textutils/uucode/uucode.go on what `writeUU` writes.
use mathlib.Core.List.{reverse, reverse-append, reverse-reverse}
use mimixbox.Prelude.{
  ℕ, zero, suc, ◌+◌, ◌≤◌, ◌≡◌, ◌≢◌, refl, ◌∙◌, sym, ap, false, List, [], ◌∷◌, ◌++◌, arith, ◌==◌,
  min, Bytes, bytes_eq, codes, length, take, drop, length-append, length-take, All-take, All-drop,
  length-drop, take-append-drop, append_assoc, append-nil, All, All-append, ok,
}
use mimixbox.Golang.Bufio.{AllPrinting, scan_lines, scan_lines-line}
use mimixbox.Golang.Strings.{
  has_prefix, cut_at, AllInk, AllInk-reverse, InkFirst, trim_space-InkFirst,
}
use mimixbox.Uucode.Encode.{enc, groups, write_uu_line, write_body, write_uu}
use mimixbox.Uucode.Decode.{
  dec, decode_uu_line, header_name, base64_prefix, uu_prefix, decode_line, decode_body,
  decode_lines, decode,
}
use mimixbox.Uucode.Decode.Groups.{IsByte, dec-enc, decode_uu_line-groups, groups-AllPrinting}

take-length-append : (l pad : Bytes) → take (length l) (l ++ pad) ≡ l
take-length-append [] pad = refl
take-length-append (a ∷ l) pad = ap (λ r. a ∷ r) (take-length-append l pad)

take-append : (l pad : Bytes) → take (min (length l) (length (l ++ pad))) (l ++ pad) ≡ l
take-append l pad =
    ap (λ n. take n (l ++ pad)) (omega (arith, length-append l pad)) ∙ take-length-append l pad

enc_length : (n : ℕ) → 1 ≤ n → n ≤ 45 → enc n ≡ n + 32
unfolding enc
enc_length n h k = ground arith

decode_line_step :
    (c : ℕ) (s : Bytes)
    → bytes_eq (c ∷ s) (codes "`") ≡ false
    → (dec c == 0) ≡ false
    → decode_line (c ∷ s) ≡ take (min (dec c) (length (decode_uu_line s))) (decode_uu_line s)
unfolding decode_line
decode_line_step c s h k = rw (h, k) refl

decode_body_step :
    (out line : Bytes) (lines : List Bytes)
    → bytes_eq line (codes "end") ≡ false
    → decode_body out (line ∷ lines) ≡ decode_body (out ++ decode_line line) lines
unfolding decode_body
decode_body_step out line lines h = rw h refl

not_end : (c : ℕ) (s : Bytes) → c ≤ 77 → bytes_eq (c ∷ s) (codes "end") ≡ false
unfolding bytes_eq
not_end c s h = ground arith

not_grave : (c : ℕ) (s : Bytes) → c ≤ 77 → bytes_eq (c ∷ s) (codes "`") ≡ false
unfolding bytes_eq
not_grave c s h = ground arith

-- A body line is decoded to the bytes that were encoded.
decode_line-encoded :
    (line : Bytes)
    → 1 ≤ length line
    → length line ≤ 45
    → All IsByte line
    → decode_line (enc (length line) ∷ groups line) ≡ line
decode_line-encoded line low high bytes =
    let (pad, e) = decode_uu_line-groups line bytes in
    decode_line_step (enc (length line)) (groups line)
      (not_grave (enc (length line)) (groups line)
        (omega (arith, enc_length (length line) low high)))
      (let d : dec (enc (length line)) ≡ length line = dec-enc (length line) (omega arith) in
        ground arith)
    ∙ ap (λ n. take (min n (length (decode_uu_line (groups line)))) (decode_uu_line (groups line)))
        (dec-enc (length line) (omega arith))
    ∙ ap (λ t. take (min (length line) (length t)) t) e
    ∙ take-append line pad

write_body-cons :
    (k a : ℕ) (s t : Bytes)
    → write_body (suc k) (a ∷ s) ++ t
      ≡ (enc (length (take 45 (a ∷ s))) ∷ groups (take 45 (a ∷ s)))
        ++ (b'\n' ∷ (write_body k (drop 45 (a ∷ s)) ++ t))
unfolding write_body write_uu_line
write_body-cons k a s t =
    append_assoc (write_uu_line (take 45 (a ∷ s))) (write_body k (drop 45 (a ∷ s))) t
    ∙ append_assoc (enc (length (take 45 (a ∷ s))) ∷ groups (take 45 (a ∷ s))) (b'\n' ∷ [])
        (write_body k (drop 45 (a ∷ s)) ++ t)

write_body-nil : (k : ℕ) → write_body k [] ≡ []
unfolding write_body
write_body-nil zero = refl
write_body-nil (suc k) = refl

-- The line of some bytes, written and read.
decode_body-line :
    (line out t : Bytes)
    → 1 ≤ length line
    → length line ≤ 45
    → All IsByte line
    → decode_body out (scan_lines ((enc (length line) ∷ groups line) ++ (b'\n' ∷ t)))
      ≡ decode_body (out ++ line) (scan_lines t)
decode_body-line line out t low high bytes =
    ap (decode_body out) (
      scan_lines-line (enc (length line) ∷ groups line) t
        (omega (arith, enc_length (length line) low high), groups-AllPrinting line bytes))
    ∙ decode_body_step out (enc (length line) ∷ groups line) (scan_lines t) (
        not_end (enc (length line)) (groups line)
          (omega (arith, enc_length (length line) low high)))
    ∙ ap (λ l. decode_body (out ++ l) (scan_lines t)) (decode_line-encoded line low high bytes)

decode_body-write_body :
    (k : ℕ) (s out t : Bytes)
    → length s ≤ k
    → All IsByte s
    → decode_body out (scan_lines (write_body k s ++ t)) ≡ decode_body (out ++ s) (scan_lines t)
decode_body-write_body k [] out t fits bytes =
    ap (λ w. decode_body out (scan_lines (w ++ t))) (write_body-nil k)
    ∙ ap (λ o. decode_body o (scan_lines t)) (sym (append-nil out))
decode_body-write_body zero (a ∷ s) out t fits bytes = absurd (omega arith)
decode_body-write_body (suc k) (a ∷ s) out t fits bytes =
    ap (λ w. decode_body out (scan_lines w)) (write_body-cons k a s t)
    ∙ decode_body-line (take 45 (a ∷ s)) out (write_body k (drop 45 (a ∷ s)) ++ t)
        (omega (arith, length-take 45 (a ∷ s))) (omega (arith, length-take 45 (a ∷ s)))
        (All-take IsByte 45 (a ∷ s) bytes)
    ∙ decode_body-write_body k (drop 45 (a ∷ s)) (out ++ take 45 (a ∷ s)) t
        (omega (arith, length-drop 45 (a ∷ s))) (All-drop IsByte 45 (a ∷ s) bytes)
    ∙ ap (λ o. decode_body o (scan_lines t))
        (append_assoc out (take 45 (a ∷ s)) (drop 45 (a ∷ s))
          ∙ ap (λ r. out ++ r) (take-append-drop 45 (a ∷ s)))

decode_body-end : (out : Bytes) → decode_body out (scan_lines (enc 0 ∷ codes "\nend\n")) ≡ out
unfolding decode_body scan_lines enc bytes_eq
decode_body-end out = append-nil out

InkFirst-header :
    (name : Bytes) → name ≢ [] → AllInk name → InkFirst (reverse (codes "644 " ++ name))
InkFirst-header name some_name ink =
    rw (reverse-append (codes "644 ") name)
      (first (reverse name) (reversed name some_name) (AllInk-reverse name ink))
  where
    first : (r : Bytes) → r ≢ [] → AllInk r → InkFirst (r ++ reverse (codes "644 "))
    first [] h k = absurd (h refl)
    first (c ∷ r) h k = k.0

    reversed : (r : Bytes) → r ≢ [] → reverse r ≢ []
    reversed r h e = h (sym (reverse-reverse r) ∙ ap reverse e)

header_name-write :
    (name : Bytes)
    → name ≢ []
    → AllInk name
    → header_name (codes "begin 644 " ++ name) uu_prefix ≡ name
unfolding header_name cut_at uu_prefix
header_name-write name some_name ink =
    rw
      (trim_space-InkFirst (codes "644 " ++ name) (omega arith, omega arith)
        (InkFirst-header name some_name ink))
      refl

decode_lines-uu :
    (name : Bytes) (lines : List Bytes)
    → decode_lines ((codes "begin 644 " ++ name) ∷ lines)
      ≡ ok (header_name (codes "begin 644 " ++ name) uu_prefix, decode_body [] lines)
unfolding decode_lines has_prefix base64_prefix uu_prefix
decode_lines-uu name lines = refl

AllInk-AllPrinting : (s : Bytes) → AllInk s → AllPrinting s
AllInk-AllPrinting [] h = tt
AllInk-AllPrinting (a ∷ s) h = (omega (arith, h.0.0), AllInk-AllPrinting s h.1)

-- What uuencode writes for any bytes and a name that is not empty, of ASCII characters past the
-- blank, is decoded by uudecode to that name and those bytes.
pub decode-write_uu :
    (name input : Bytes)
    → name ≢ []
    → AllInk name
    → All IsByte input
    → decode (write_uu name input) ≡ ok (name, input)
unfolding decode write_uu
decode-write_uu name input some_name ink bytes =
    ap decode_lines (
      ap scan_lines (sym (append_assoc (codes "begin 644 ") name (b'\n' ∷ tail)))
      ∙ scan_lines-line (codes "begin 644 " ++ name) tail (
          All-append (λ c. 32 ≤ c) (codes "begin 644 ") name printing
            (AllInk-AllPrinting name ink)))
    ∙ decode_lines-uu name (scan_lines tail)
    ∙ ap (λ n. ok (n, decode_body [] (scan_lines tail))) (header_name-write name some_name ink)
    ∙ ap (λ b. ok (name, b))
        (decode_body-write_body (length input) input [] (enc 0 ∷ codes "\nend\n") (omega arith)
            bytes
          ∙ decode_body-end input)
  where
    tail : Bytes
    tail = write_body (length input) input ++ (enc 0 ∷ codes "\nend\n")

    printing : AllPrinting (codes "begin 644 ")
    printing = ground arith
