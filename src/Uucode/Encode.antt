-- ===== src/Uucode/Encode.antt =====
-- The encoder of internal/applets/textutils/uucode/uucode.go. Where the source joins bytes with
-- `|`, the two have no bit in common, and the model adds them; a byte shifted to the left loses
-- what passes 2 ^ 8.
use mimixbox.Prelude.{
  ℕ, zero, suc, ◌+◌, ◌*◌, ◌/◌, ◌%◌, [], ◌∷◌, ◌++◌, ltb, ◌==◌, if◌then◌else◌, Bytes, codes, length,
  take, drop,
}
use mimixbox.Golang.Base64.{encode_base64}

unfoldable pub enc : ℕ → ℕ
enc c = if c == 0 then b'`' else c % 64 + 32

-- The four characters of a group of three bytes, as in the loop of `writeUULine`.
unfoldable pub group : ℕ → ℕ → ℕ → Bytes
unfolding enc
group a b c =
    enc (a / 4)
    ∷ enc ((a * 16 % 256 + b / 16) % 64)
    ∷ enc ((b * 4 % 256 + c / 64) % 64)
    ∷ enc (c % 64)
    ∷ []

-- The groups of a line; `copy` leaves zeros behind its last byte.
unfoldable pub groups : Bytes → Bytes
unfolding group
groups [] = []
groups (a ∷ []) = group a 0 0
groups (a ∷ b ∷ []) = group a b 0
groups (a ∷ b ∷ c ∷ line) = group a b c ++ groups line

unfoldable pub write_uu_line : Bytes → Bytes
unfolding enc groups
write_uu_line line = enc (length line) ∷ (groups line ++ b'\n' ∷ [])

-- The loop of `writeUU` over `io.ReadFull` into 45 bytes; every round but the last reads a byte at
-- least, so as many rounds as there are bytes are enough.
unfoldable pub write_body : ℕ → Bytes → Bytes
unfolding write_uu_line
write_body rounds [] = []
write_body zero (a ∷ s) = []
write_body (suc rounds) (a ∷ s) =
    write_uu_line (take 45 (a ∷ s)) ++ write_body rounds (drop 45 (a ∷ s))

unfoldable pub write_uu : Bytes → Bytes → Bytes
unfolding write_body enc
write_uu name input =
    codes "begin 644 "
    ++ (name ++ b'\n' ∷ (write_body (length input) input ++ (enc 0 ∷ codes "\nend\n")))

-- `lineWrapper`: the bytes written for `p` in column `col`, and the last column.
unfoldable pub wrap : ℕ → ℕ → Bytes → Bytes
wrap cols col [] = if ltb 0 col then b'\n' ∷ [] else []
wrap cols col (c ∷ p) =
    let full = c ∷ b'\n' ∷ wrap cols 0 p in
    let partial = c ∷ wrap cols (col + 1) p in if col + 1 == cols then full else partial

-- `writeBase64`: the encoder writes the base64 text of the whole input through a wrapper of 60
-- columns.
unfoldable pub write_base64 : Bytes → Bytes → Bytes
unfolding wrap encode_base64
write_base64 name input =
    codes "begin-base64 644 "
    ++ (name ++ b'\n' ∷ (wrap 60 0 (encode_base64 input) ++ codes "====\n"))
