-- ===== src/Uucode/Decode/Groups.antt =====
-- `decodeUULine` of internal/applets/textutils/uucode/uucode.go on lines of the encoder.
use mimixbox.Prelude.{
  ℕ, ◌+◌, ◌*◌, ◌/◌, ◌%◌, ◌≤◌, ◌<◌, ◌≡◌, refl, ◌∙◌, sym, ap, [], ◌∷◌, ◌++◌, arith, Bytes, All,
  All-append, append-nil,
}
use mimixbox.Golang.Bufio.{AllPrinting}
use mimixbox.Uucode.Encode.{enc, group, groups}
use mimixbox.Uucode.Decode.{dec, ungroup, decode_uu_line}

abbrev pub IsByte : ℕ → Type 0
IsByte b = b < 256

pub dec-enc : (v : ℕ) → v < 64 → dec (enc v) ≡ v
unfolding dec enc
dec-enc v h = ground arith

pub enc-range : (v : ℕ) → v < 64 → (32 < enc v) × (enc v ≤ 96)
unfolding enc
enc-range v h = ground arith

module _ (a b c : ℕ) (ha : IsByte a) (hb : IsByte b) (hc : IsByte c) where
  ungroup-bytes :
      ungroup (a / 4) ((a * 16 % 256 + b / 16) % 64) ((b * 4 % 256 + c / 64) % 64) (c % 64)
      ≡ a ∷ b ∷ c ∷ []
  unfolding ungroup
  ungroup-bytes = ground arith

  decode_uu_line-group :
      (rest : Bytes) → decode_uu_line (group a b c ++ rest) ≡ a ∷ b ∷ c ∷ decode_uu_line rest
  unfolding decode_uu_line group
  decode_uu_line-group rest =
      rw
        (
          dec-enc (a / 4) (omega arith),
          dec-enc ((a * 16 % 256 + b / 16) % 64) (omega arith),
          dec-enc ((b * 4 % 256 + c / 64) % 64) (omega arith),
          dec-enc (c % 64) (omega arith),
        )
        (ap (λ r. r ++ decode_uu_line rest) ungroup-bytes)

  group-printing : AllPrinting (group a b c)
  unfolding group
  group-printing = (
    omega (arith, (enc-range (a / 4) (omega arith)).0),
    (
      omega (arith, (enc-range ((a * 16 % 256 + b / 16) % 64) (omega arith)).0),
      (
        omega (arith, (enc-range ((b * 4 % 256 + c / 64) % 64) (omega arith)).0),
        (omega (arith, (enc-range (c % 64) (omega arith)).0), tt),
      ),
    ),
  )

decode_uu_line-nil : decode_uu_line [] ≡ []
unfolding decode_uu_line
decode_uu_line-nil = refl

-- The groups of a line are decoded to the line and the zeros that filled its last group.
pub decode_uu_line-groups :
    (line : Bytes) → All IsByte line → (pad : Bytes) × (decode_uu_line (groups line) ≡ line ++ pad)
decode_uu_line-groups [] h = ([], unfold groups in decode_uu_line-nil)
decode_uu_line-groups (a ∷ []) h = (
  0 ∷ 0 ∷ [],
  unfold groups in
      (ap decode_uu_line (sym (append-nil (group a 0 0)))
        ∙ decode_uu_line-group a 0 0 h.0 (omega arith) (omega arith) []
        ∙ ap (λ r. a ∷ 0 ∷ 0 ∷ r) decode_uu_line-nil),
)
decode_uu_line-groups (a ∷ b ∷ []) h = (
  0 ∷ [],
  unfold groups in
      (ap decode_uu_line (sym (append-nil (group a b 0)))
        ∙ decode_uu_line-group a b 0 h.0 h.1.0 (omega arith) []
        ∙ ap (λ r. a ∷ b ∷ 0 ∷ r) decode_uu_line-nil),
)
decode_uu_line-groups (a ∷ b ∷ c ∷ line) h =
    let (pad, e) = decode_uu_line-groups line h.1.1.1 in
    (pad, groups_step ∙ ap (λ r. a ∷ b ∷ c ∷ r) e)
  where
    groups_step :
        decode_uu_line (groups (a ∷ b ∷ c ∷ line)) ≡ a ∷ b ∷ c ∷ decode_uu_line (groups line)
    groups_step = unfold groups in decode_uu_line-group a b c h.0 h.1.0 h.1.1.0 (groups line)

-- All characters of the groups are printing.
pub groups-AllPrinting : (line : Bytes) → All IsByte line → AllPrinting (groups line)
unfolding groups
groups-AllPrinting [] h = tt
groups-AllPrinting (a ∷ []) h = group-printing a 0 0 h.0 (omega arith) (omega arith)
groups-AllPrinting (a ∷ b ∷ []) h = group-printing a b 0 h.0 h.1.0 (omega arith)
groups-AllPrinting (a ∷ b ∷ c ∷ line) h =
    All-append (λ x. 32 ≤ x) (group a b c) (groups line) (group-printing a b c h.0 h.1.0 h.1.1.0)
      (groups-AllPrinting line h.1.1.1)
