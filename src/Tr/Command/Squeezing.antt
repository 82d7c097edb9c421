-- ===== src/Tr/Command/Squeezing.antt =====
-- tr -s with one SET, of internal/applets/textutils/tr/tr.go, on an input in valid UTF-8.
use mimixbox.Prelude.{
  ℕ, ◌≡◌, refl, ◌∙◌, sym, subst, ap, Bool, Bool-cases, inl, inr, true, false, ◌&&◌, List, [], ◌∷◌,
  ◌++◌, append_assoc, append-nil, Option, none, some, if◌then◌else◌, map, All, Bytes, Runes,
}
use mimixbox.Golang.Utf8.{encode_rune, symbols, runes, string_of}
use mimixbox.Golang.Utf8.RoundTrip.{IsRune, symbols-encode_rune, runes-string_of}
use mimixbox.Tr.Processor.{
  Options, Cell, append_cell, decode_cells, membership, repeats, stream_transform,
}
use mimixbox.Tr.Processor.Stream.{contents, cell, decode_cells-symbols}
use mimixbox.Tr.Processor.Reference.{write_cells, squeezed}
use mimixbox.Tr.Command.Laws.{squeeze_only-squeezed}

-- Each run of equal selected runes as one of them; `prev` is the rune before.
pub squeezed_runes : (ℕ → Bool) → Option ℕ → Runes → Runes
squeezed_runes selected prev [] = []
squeezed_runes selected prev (r ∷ rs) =
    let skip = squeezed_runes selected prev rs in
    let keep = r ∷ squeezed_runes selected (some r) rs in
    if repeats prev r && selected r then skip else keep

-- No selected rune stands behind an equal one; `prev` is the rune before.
abbrev pub NoRepeat : (ℕ → Bool) → Option ℕ → Runes → Type 0
NoRepeat selected prev [] = Unit
NoRepeat selected prev (r ∷ rs) =
    ((repeats prev r && selected r) ≡ false) × NoRepeat selected (some r) rs

module _ (selected : ℕ → Bool) where
  squeezed_runes-NoRepeat :
      (prev : Option ℕ) (rs : Runes) → NoRepeat selected prev (squeezed_runes selected prev rs)
  unfolding squeezed_runes
  squeezed_runes-NoRepeat prev [] = tt
  squeezed_runes-NoRepeat prev (r ∷ rs) = elim (Bool-cases (repeats prev r && selected r)) [
    | inl again ↦ rw again (squeezed_runes-NoRepeat prev rs)
    | inr fresh ↦ rw fresh (fresh, squeezed_runes-NoRepeat (some r) rs)
  ]

  All-squeezed_runes :
      (P : ℕ → Type 0) (prev : Option ℕ) (rs : Runes)
      → All P rs
      → All P (squeezed_runes selected prev rs)
  unfolding squeezed_runes
  All-squeezed_runes P prev [] h = tt
  All-squeezed_runes P prev (r ∷ rs) h = elim (Bool-cases (repeats prev r && selected r)) [
    | inl again ↦ rw again (All-squeezed_runes P prev rs h.1)
    | inr fresh ↦ rw fresh (h.0, All-squeezed_runes P (some r) rs h.1)
  ]

abbrev valid_cell : ℕ → Cell
valid_cell r = record { r = r; raw = false }

squeezed-valid_cell :
    (selected : ℕ → Bool) (prev : Option ℕ) (rs : Runes)
    → squeezed selected prev (map valid_cell rs) ≡ map valid_cell (squeezed_runes selected prev rs)
unfolding squeezed squeezed_runes
squeezed-valid_cell selected prev [] = refl
squeezed-valid_cell selected prev (r ∷ rs) = elim (Bool-cases (repeats prev r && selected r)) [
  | inl again ↦ rw again (squeezed-valid_cell selected prev rs)
  | inr fresh ↦ rw fresh (ap (λ cs. valid_cell r ∷ cs) (squeezed-valid_cell selected (some r) rs))
]

symbols-string_of :
    (rs : Runes) → All IsRune rs → map cell (symbols 0 (string_of rs)) ≡ map valid_cell rs
unfolding string_of symbols cell
symbols-string_of [] h = refl
symbols-string_of (r ∷ rs) h =
    ap (map cell) (symbols-encode_rune r (string_of rs) h.0)
    ∙ ap (λ cs. valid_cell r ∷ cs) (symbols-string_of rs h.1)

decode_cells-string_of :
    (rs : Runes) → All IsRune rs → decode_cells 0 (string_of rs) ≡ map valid_cell rs
decode_cells-string_of rs h = decode_cells-symbols 0 (string_of rs) ∙ symbols-string_of rs h

write_cells-valid_cell :
    (out : Bytes) (rs : Runes) → write_cells out (map valid_cell rs) ≡ out ++ string_of rs
unfolding write_cells append_cell string_of
write_cells-valid_cell out [] = sym (append-nil out)
write_cells-valid_cell out (r ∷ rs) =
    write_cells-valid_cell (out ++ encode_rune r) rs
    ∙ append_assoc out (encode_rune r) (string_of rs)

-- With -s and one SET, and an input in valid UTF-8 in whatever reads, the output is the input with
-- each run of equal runes that SET selects made one rune, and in the runes of the output no rune that
-- SET selects stands behind an equal one.
pub squeeze_only-NoRepeat :
    (set1 : Runes) (opts : Options) (reads : List Bytes) (last : Bytes) (rs : Runes)
    → opts.delete ≡ false
    → opts.squeeze ≡ true
    → All IsRune rs
    → contents reads last ≡ string_of rs
    → (stream_transform set1 [] opts reads last
        ≡ string_of (squeezed_runes (membership set1 opts.complement) none rs))
      × NoRepeat
          (membership set1 opts.complement)
          none
          (runes (stream_transform set1 [] opts reads last))
squeeze_only-NoRepeat set1 opts reads last rs d q ok_runes input = (
  written,
  subst (NoRepeat selected none) (sym read_back) (squeezed_runes-NoRepeat selected none rs),
)
  where
    selected : ℕ → Bool
    selected = membership set1 opts.complement

    written : stream_transform set1 [] opts reads last ≡ string_of (squeezed_runes selected none rs)
    written =
        squeeze_only-squeezed set1 opts reads last d q
        ∙ ap (λ s. write_cells [] (squeezed selected none (decode_cells 0 s))) input
        ∙ ap (λ cs. write_cells [] (squeezed selected none cs)) (decode_cells-string_of rs ok_runes)
        ∙ ap (write_cells []) (squeezed-valid_cell selected none rs)
        ∙ write_cells-valid_cell [] (squeezed_runes selected none rs)

    read_back : runes (stream_transform set1 [] opts reads last) ≡ squeezed_runes selected none rs
    read_back =
        ap runes written
        ∙ runes-string_of (squeezed_runes selected none rs)
            (All-squeezed_runes selected IsRune none rs ok_runes)
