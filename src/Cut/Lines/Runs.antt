-- ===== src/Cut/Lines/Runs.antt =====
-- `cutBytes` and `cutRunes` of internal/applets/shellutils/cut/cut.go against the runs of kept units.
use mimixbox.Prelude.{
  ℕ, ◌+◌, ◌≡◌, ◌≢◌, refl, ◌∙◌, sym, ap, inl, inr, Bool, Bool-cases, true, false, List, [], ◌∷◌,
  ◌++◌, arith, if◌then◌else◌, Bytes, map, append_assoc, append-nil,
}
use mimixbox.Golang.Utf8.{encode_rune, runes}
use mimixbox.Golang.Strings.{join}
use mimixbox.Cut.Lines.{Options, keep_pos, separator, cut_units, write_byte, cut_bytes, cut_runes}

-- The maximal runs of kept units, from position `p` on; `cur` is the run so far.
unfoldable pub runs : Options → ℕ → List ℕ → List ℕ → List (List ℕ)
runs opts p [] [] = []
runs opts p (c ∷ cur) [] = (c ∷ cur) ∷ []
runs opts p [] (u ∷ units) =
    if keep_pos opts p then runs opts (p + 1) (u ∷ []) units else runs opts (p + 1) [] units
runs opts p (c ∷ cur) (u ∷ units) =
    if keep_pos opts p
    then runs opts (p + 1) ((c ∷ cur) ++ u ∷ []) units
    else (c ∷ cur) ∷ runs opts (p + 1) [] units

unfoldable pub write_all : (ℕ → Bytes) → List ℕ → Bytes
write_all write [] = []
write_all write (u ∷ units) = write u ++ write_all write units

write_all-append :
    (write : ℕ → Bytes) (cur units : List ℕ)
    → write_all write (cur ++ units) ≡ write_all write cur ++ write_all write units
unfolding write_all
write_all-append write [] units = refl
write_all-append write (u ∷ cur) units =
    ap (λ r. write u ++ r) (write_all-append write cur units)
    ∙ sym (append_assoc (write u) (write_all write cur) (write_all write units))

write_all-one : (write : ℕ → Bytes) (u : ℕ) → write_all write (u ∷ []) ≡ write u
unfolding write_all
write_all-one write u = append-nil (write u)

write_all-snoc :
    (write : ℕ → Bytes) (cur : List ℕ) (u : ℕ)
    → write_all write (cur ++ u ∷ []) ≡ write_all write cur ++ write u
write_all-snoc write cur u =
    write_all-append write cur (u ∷ []) ∙ ap (λ r. write_all write cur ++ r) (write_all-one write u)

-- A separator and the join, unless there is nothing to join.
after : Bytes → List Bytes → Bytes
after sep [] = []
after sep (r ∷ rs) = sep ++ join (r ∷ rs) sep

join-after : (r : Bytes) (rs : List Bytes) (sep : Bytes) → join (r ∷ rs) sep ≡ r ++ after sep rs
unfolding join after
join-after r [] sep = sym (append-nil r)
join-after r (q ∷ rs) sep = refl

module _ (write : ℕ → Bytes) (opts : Options) where
  abbrev Writes : Type 0
  Writes = (u : ℕ) → write u ≢ []

  abbrev sep : Bytes
  sep = opts.output_delimiter

  cut_kept :
      (p : ℕ) (prev : Bool) (b : Bytes) (u : ℕ) (units : List ℕ)
      → keep_pos opts p ≡ true
      → cut_units write opts p prev b (u ∷ units)
        ≡ cut_units write opts (p + 1) true (b ++ (separator opts prev b ++ write u)) units
  unfolding cut_units
  cut_kept p prev b u units h = rw h refl

  cut_dropped :
      (p : ℕ) (prev : Bool) (b : Bytes) (u : ℕ) (units : List ℕ)
      → keep_pos opts p ≡ false
      → cut_units write opts p prev b (u ∷ units) ≡ cut_units write opts (p + 1) false b units
  unfolding cut_units
  cut_dropped p prev b u units h = rw h refl

  pub runs_opened :
      (p u : ℕ) (units : List ℕ)
      → keep_pos opts p ≡ true
      → runs opts p [] (u ∷ units) ≡ runs opts (p + 1) (u ∷ []) units
  unfolding runs
  runs_opened p u units h = rw h refl

  runs_skipped :
      (p u : ℕ) (units : List ℕ)
      → keep_pos opts p ≡ false
      → runs opts p [] (u ∷ units) ≡ runs opts (p + 1) [] units
  unfolding runs
  runs_skipped p u units h = rw h refl

  runs_extended :
      (p c : ℕ) (cur : List ℕ) (u : ℕ) (units : List ℕ)
      → keep_pos opts p ≡ true
      → runs opts p (c ∷ cur) (u ∷ units) ≡ runs opts (p + 1) ((c ∷ cur) ++ u ∷ []) units
  unfolding runs
  runs_extended p c cur u units h = rw h refl

  runs_closed :
      (p c : ℕ) (cur : List ℕ) (u : ℕ) (units : List ℕ)
      → keep_pos opts p ≡ false
      → runs opts p (c ∷ cur) (u ∷ units) ≡ (c ∷ cur) ∷ runs opts (p + 1) [] units
  unfolding runs
  runs_closed p c cur u units h = rw h refl

  abbrev texts : ℕ → List ℕ → List ℕ → List Bytes
  texts p cur units = map (write_all write) (runs opts p cur units)

  separator_kept : (b : Bytes) → separator opts true b ≡ []
  unfolding separator
  separator_kept [] = refl
  separator_kept (c ∷ b) = refl

  separator_first : separator opts false [] ≡ []
  unfolding separator
  separator_first = refl

  separator_started : (b : Bytes) → b ≢ [] → separator opts false b ≡ sep
  unfolding separator
  separator_started [] h = absurd (h refl)
  separator_started (c ∷ b) h = refl

  after-texts :
      (units : List ℕ) (p c : ℕ) (cur : List ℕ)
      → after sep (texts p (c ∷ cur) units) ≡ sep ++ join (texts p (c ∷ cur) units) sep
  after-texts [] p c cur = unfold runs after in refl
  after-texts (u ∷ units) p c cur = elim (Bool-cases (keep_pos opts p)) [
    | inl h ↦
        ap (λ rs. after sep (map (write_all write) rs)) (runs_extended p c cur u units h)
        ∙ after-texts units (p + 1) c (cur ++ u ∷ [])
        ∙ sym (
            ap (λ rs. sep ++ join (map (write_all write) rs) sep) (runs_extended p c cur u units h))
    | inr h ↦
        ap (λ rs. after sep (map (write_all write) rs)) (runs_closed p c cur u units h)
        ∙ unfold after in
          refl
          ∙ sym (
              ap (λ rs. sep ++ join (map (write_all write) rs) sep) (runs_closed p c cur u units h))
  ]

  module _ (writes : Writes) where
    append-ne-nil : (b : Bytes) (u : ℕ) (us : List ℕ) → b ++ write_all write (u ∷ us) ≢ []
    append-ne-nil [] u us = unfold write_all in nonempty (write u) (writes u)
      where
        nonempty : (w : Bytes) → w ≢ [] → w ++ write_all write us ≢ []
        nonempty [] h = absurd (h refl)
        nonempty (c ∷ w) h = cc
    append-ne-nil (c ∷ b) u us = cc

    -- The loop between runs, once something was written, and the loop within a run.
    cut_units-after :
        (units : List ℕ) (p : ℕ)
        → ((b : Bytes)
            → b ≢ []
            → cut_units write opts p false b units ≡ b ++ after sep (texts p [] units))
          × ((b : Bytes) (c : ℕ) (cur : List ℕ)
              → cut_units write opts p true (b ++ write_all write (c ∷ cur)) units
                ≡ b ++ join (texts p (c ∷ cur) units) sep)
    cut_units-after [] p = (
      (λ b started. unfold cut_units runs after in sym (append-nil b)),
      (λ b c cur. unfold cut_units runs join in refl),
    )
    cut_units-after (u ∷ units) p = elim (Bool-cases (keep_pos opts p)) [
      | inl h ↦ (
        (λ b started.
            cut_kept p false b u units h
            ∙ ap (λ x. cut_units write opts (p + 1) true x units)
                (ap (λ s. b ++ (s ++ write u)) (separator_started b started)
                  ∙ sym (append_assoc b sep (write u))
                  ∙ ap (λ w. (b ++ sep) ++ w) (sym (write_all-one write u)))
            ∙ (cut_units-after units (p + 1)).1 (b ++ sep) u []
            ∙ append_assoc b sep (join (texts (p + 1) (u ∷ []) units) sep)
            ∙ ap (λ r. b ++ r)
                (sym (after-texts units (p + 1) u [])
                  ∙ sym
                      (ap (λ rs. after sep (map (write_all write) rs)) (runs_opened p u units h)))),
        (λ b c cur.
            cut_kept p true (b ++ write_all write (c ∷ cur)) u units h
            ∙ ap (λ x. cut_units write opts (p + 1) true x units)
                (ap (λ s. (b ++ write_all write (c ∷ cur)) ++ (s ++ write u))
                    (separator_kept (b ++ write_all write (c ∷ cur)))
                  ∙ append_assoc b (write_all write (c ∷ cur)) (write u)
                  ∙ ap (λ r. b ++ r) (sym (write_all-snoc write (c ∷ cur) u)))
            ∙ (cut_units-after units (p + 1)).1 b c (cur ++ u ∷ [])
            ∙ ap (λ rs. b ++ join (map (write_all write) rs) sep)
                (sym (runs_extended p c cur u units h))),
      )
      | inr h ↦ (
        (λ b started.
            cut_dropped p false b u units h
            ∙ (cut_units-after units (p + 1)).0 b started
            ∙ ap (λ rs. b ++ after sep (map (write_all write) rs))
                (sym (runs_skipped p u units h))),
        (λ b c cur.
            cut_dropped p true (b ++ write_all write (c ∷ cur)) u units h
            ∙ (cut_units-after units (p + 1)).0 (b ++ write_all write (c ∷ cur))
                (append-ne-nil b c cur)
            ∙ append_assoc b (write_all write (c ∷ cur)) (after sep (texts (p + 1) [] units))
            ∙ ap (λ r. b ++ r)
                (sym (join-after (write_all write (c ∷ cur)) (texts (p + 1) [] units) sep)
                  ∙ ap (λ rs. join (map (write_all write) rs) sep)
                      (sym (runs_closed p c cur u units h)))),
      )
    ]

    cut_units-runs :
        (units : List ℕ) (p : ℕ)
        → cut_units write opts p false [] units ≡ join (texts p [] units) sep
    cut_units-runs [] p = unfold cut_units runs join in refl
    cut_units-runs (u ∷ units) p = elim (Bool-cases (keep_pos opts p)) [
      | inl h ↦
          cut_kept p false [] u units h
          ∙ ap (λ x. cut_units write opts (p + 1) true x units)
              (ap (λ s. s ++ write u) separator_first ∙ sym (write_all-one write u))
          ∙ (cut_units-after units (p + 1)).1 [] u []
          ∙ ap (λ rs. join (map (write_all write) rs) sep) (sym (runs_opened p u units h))
      | inr h ↦
          cut_dropped p false [] u units h
          ∙ cut_units-runs units (p + 1)
          ∙ ap (λ rs. join (map (write_all write) rs) sep) (sym (runs_skipped p u units h))
    ]

write_byte-ne-nil : (u : ℕ) → write_byte u ≢ []
unfolding write_byte
write_byte-ne-nil u = cc

encode_rune-ne-nil : (u : ℕ) → encode_rune u ≢ []
unfolding encode_rune
encode_rune-ne-nil u = ground arith

write_all-write_byte : (us : List ℕ) → write_all write_byte us ≡ us
unfolding write_all write_byte
write_all-write_byte [] = refl
write_all-write_byte (u ∷ us) = ap (λ r. u ∷ r) (write_all-write_byte us)

map-write_byte : (rs : List (List ℕ)) → map (write_all write_byte) rs ≡ rs
map-write_byte [] = refl
map-write_byte (r ∷ rs) = rw (write_all-write_byte r, map-write_byte rs) refl

-- cut -b writes the maximal runs of kept bytes, joined by the output delimiter.
pub cut_bytes-runs :
    (opts : Options) (line : Bytes)
    → cut_bytes opts line ≡ join (runs opts 1 [] line) opts.output_delimiter
unfolding cut_bytes
cut_bytes-runs opts line =
    cut_units-runs write_byte opts write_byte-ne-nil line 1
    ∙ ap (λ rs. join rs opts.output_delimiter) (map-write_byte (runs opts 1 [] line))

-- cut -c writes the maximal runs of kept characters in UTF-8, joined by the output delimiter.
pub cut_runes-runs :
    (opts : Options) (line : Bytes)
    → cut_runes opts line
      ≡ join (map (write_all encode_rune) (runs opts 1 [] (runes line))) opts.output_delimiter
unfolding cut_runes
cut_runes-runs opts line = cut_units-runs encode_rune opts encode_rune-ne-nil (runes line) 1
